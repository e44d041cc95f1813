-- ===== src/Execution/Registers.antt =====
-- compiler.c: the registers that compiling takes.
use millie.Prelude.{ℕ, ◌+◌, ◌^◌, ◌≤◌, ◌<◌, ◌≡◌, refl, arith}
use Prim.Native.String.{String}
use millie.Compiler.Stability.{write_immediate-writes, write_operator-writes}
use millie.Compiler.Context.{CompileContext, write_code_u8, get_free_int_register}
use millie.Compiler.Emit.{write_immediate, write_load_literal}
use millie.Compiler.Expressions.{write_operator, write_binary, write_unary, Operation}
use millie.Compiler.Growth.{Extends, Counted}
use millie.Execution.Frames.{get_free_int_register-fresh}

-- The result is in a register that was taken since `c`.
abbrev pub Fresh : CompileContext → ℕ × CompileContext → Type 0
Fresh c r =
    Counted c → r.1.max_registers ≤ 2 ^ 8 → (c.max_registers ≤ r.0) × (r.0 < r.1.max_registers)

-- The result is in the next register of `c`, and the only one taken.
abbrev pub TakesOne : CompileContext → ℕ × CompileContext → Type 0
TakesOne c r = (r.0 ≡ (get_free_int_register c).0) × (r.1.max_registers ≡ c.max_registers + 1)

pub TakesOne-Fresh :
    {c c₁ : CompileContext} (r : ℕ × CompileContext) → Extends c c₁ → TakesOne c₁ r → Fresh c r
TakesOne-Fresh {c} {c₁} r x t counted few =
    let n = get_free_int_register-fresh c₁ (x.counted counted) (omega (arith, few, t.1)) in
    (omega (arith, n, t.0, x.more_registers), omega (arith, n, t.0, t.1))

write_immediate-max :
    (c : CompileContext) (v : ℕ) → (write_immediate c v).max_registers ≡ c.max_registers
write_immediate-max c v =
    write_immediate-writes (λ (d : CompileContext). d.max_registers ≡ c.max_registers) c v
      λ code capacity. refl

pub write_load_literal-TakesOne : (c : CompileContext) (v : ℕ) → TakesOne c (write_load_literal c v)
unfolding write_load_literal write_code_u8 get_free_int_register
write_load_literal-TakesOne c v = (refl, write_immediate-max (get_free_int_register c).1 v)

write_operator-max :
    (c : CompileContext) (error : String) (o : Operation)
    → (write_operator c error o).max_registers ≡ c.max_registers
write_operator-max c error o =
    write_operator-writes (λ (d : CompileContext). d.max_registers ≡ c.max_registers) c error o
      λ code capacity errors. refl

pub write_binary-TakesOne :
    (o : Operation) (l r : ℕ) (c : CompileContext) → TakesOne c (write_binary o l r c)
unfolding write_binary write_code_u8 get_free_int_register
write_binary-TakesOne o l r c =
    (refl, write_operator-max (get_free_int_register c).1 "Unsupported binary operator" o)

pub write_unary-TakesOne :
    (o : Operation) (a : ℕ) (c : CompileContext) → TakesOne c (write_unary o a c)
unfolding write_unary write_code_u8 get_free_int_register
write_unary-TakesOne o a c =
    (refl, write_operator-max (get_free_int_register c).1 "Unsupported unary operator" o)
