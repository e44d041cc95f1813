-- ===== src/Compiler/Growth.antt =====
-- compiler.c: what each write and each change of the bindings keeps of a compile context.
use millie.Prelude.{
  ℕ, zero, suc, ◌+◌, ◌%◌, ◌^◌, ◌≤◌, ◌<◌, ◌≡◌, refl, ltb, List, [], ◌∷◌, ◌++◌, none, some, length,
  set, get_elem?, arith, ap, sym, subst, Bool-cases, inl, inr, ◌∙◌, length-append, length-set,
  Holds, Holds-any, holds,
}
use mathlib.Core.Option.{some-injective}
use mathlib.Core.List.{append-nil, append_assoc}
use Prim.Native.String.{String}
use millie.Ast.{Symbol, Expression, start_token, end_token}
use millie.Token.{MillieToken}
use millie.Bytecode.{Code, bytes_u8, bytes_u16, bytes_u32, bytes_u64}
use millie.Compiler.Context.{
  CompileContext, ensure_code_capacity, append_code, write_code_u8, write_code_u16, write_code_u32,
  write_code_u64, reserve_u16, report_compile_error, report_between, get_free_int_register,
  push_binding, pop_binding,
}

-- The code lies in its block, which holds no less than at the start.
abbrev pub Fits : CompileContext → Type 0
Fits c = (64 ≤ c.code_capacity) × (length c.code ≤ c.code_capacity)

-- The eight-bit count of registers is that of all registers, wrapped around.
abbrev pub Counted : CompileContext → Type 0
Counted c = c.integer_registers ≡ c.max_registers % 2 ^ 8

-- What compiling leaves of the context from which it started.
pub record Extends (c c' : CompileContext) : Type 0 where
  pub emitted : (more : Code) × (c'.code ≡ c.code ++ more)
  pub fits : Fits c → Fits c'
  pub counted : Counted c → Counted c'
  pub more_registers : c.max_registers ≤ c'.max_registers
  pub same_top : c'.binding_top ≡ c.binding_top
  pub same_room : length c'.bindings ≡ length c.bindings
  pub same_bindings : (i : ℕ) → i < c.binding_top → get_elem? c'.bindings i ≡ get_elem? c.bindings i

-- A context that differs only in what the code and the bindings do not show.
pub same_code :
    {c c' : CompileContext}
    → c.code ≡ c'.code
    → c.code_capacity ≡ c'.code_capacity
    → c.integer_registers ≡ c'.integer_registers
    → c.max_registers ≡ c'.max_registers
    → c.bindings ≡ c'.bindings
    → c.binding_top ≡ c'.binding_top
    → Extends c c'
same_code {c} {c'} code capacity registers max bindings top = record {
  emitted = ([], sym code ∙ sym (append-nil c.code));
  fits = λ h. (
    omega (arith, h.0, capacity),
    subst (λ n. n ≤ c'.code_capacity) (ap length code) (omega (arith, h.1, capacity)),
  );
  counted = λ h. omega (arith, h, registers, max);
  more_registers = omega (arith, max);
  same_top = sym top;
  same_room = ap length (sym bindings);
  same_bindings = λ i h. ap (λ bs. get_elem? bs i) (sym bindings);
}

pub Extends-refl : (c : CompileContext) → Extends c c
Extends-refl c = same_code refl refl refl refl refl refl

infixl 4 ◌▸◌
pub ◌▸◌ : {a b c : CompileContext} → Extends a b → Extends b c → Extends a c
◌▸◌ {a} {b} {c} p q = record {
  emitted = (
    p.emitted.0 ++ q.emitted.0,
    q.emitted.1
        ∙ ap (λ x. x ++ q.emitted.0) p.emitted.1
        ∙ append_assoc a.code p.emitted.0 q.emitted.0,
  );
  fits = λ h. q.fits (p.fits h);
  counted = λ h. q.counted (p.counted h);
  more_registers = omega (arith, p.more_registers, q.more_registers);
  same_top = q.same_top ∙ p.same_top;
  same_room = q.same_room ∙ p.same_room;
  same_bindings = λ i h. q.same_bindings i (omega (arith, h, p.same_top)) ∙ p.same_bindings i h;
}

pub longer : {c c' : CompileContext} → Extends c c' → length c.code ≤ length c'.code
longer {c} {c'} x =
    subst (λ code. length c.code ≤ length code) (sym x.emitted.1)
      (omega (arith, length-append c.code x.emitted.0))

-- A write of bytes for which there is room.
append_code-Extends :
    (c : CompileContext) (n : ℕ) (bytes : Code)
    → length bytes ≤ n
    → n ≤ 8
    → Extends c (append_code (ensure_code_capacity c n) bytes)
append_code-Extends c n bytes h h' = record {
  emitted = (bytes, refl);
  fits =
      λ f. (ground (arith, f.0, f.1), ground (arith, f.0, f.1, h, h', length-append c.code bytes));
  counted = λ k. k;
  more_registers = omega arith;
  same_top = refl;
  same_room = refl;
  same_bindings = λ i e. refl;
}

pub write_code_u8-Extends : (c : CompileContext) (v : ℕ) → Extends c (write_code_u8 c v)
unfolding write_code_u8
write_code_u8-Extends c v = append_code-Extends c 1 (bytes_u8 v) (omega arith) (omega arith)

pub write_code_u16-Extends : (c : CompileContext) (v : ℕ) → Extends c (write_code_u16 c v)
unfolding write_code_u16
write_code_u16-Extends c v = append_code-Extends c 4 (bytes_u16 v) (omega arith) (omega arith)

pub write_code_u32-Extends : (c : CompileContext) (v : ℕ) → Extends c (write_code_u32 c v)
unfolding write_code_u32
write_code_u32-Extends c v = append_code-Extends c 4 (bytes_u32 v) (omega arith) (omega arith)

pub write_code_u64-Extends : (c : CompileContext) (v : ℕ) → Extends c (write_code_u64 c v)
unfolding write_code_u64
write_code_u64-Extends c v = append_code-Extends c 8 (bytes_u64 v) (omega arith) (omega arith)

pub reserve_u16-Extends : (c : CompileContext) → Extends c (reserve_u16 c)
unfolding reserve_u16
reserve_u16-Extends c = append_code-Extends c 2 (0 ∷ 0 ∷ []) (omega arith) (omega arith)

pub get_free_int_register-Extends : (c : CompileContext) → Extends c (get_free_int_register c).1
unfolding get_free_int_register
get_free_int_register-Extends c = record {
  emitted = ([], sym (append-nil c.code));
  fits = λ h. h;
  counted = λ h. omega (arith, h);
  more_registers = omega arith;
  same_top = refl;
  same_room = refl;
  same_bindings = λ i h. refl;
}

pub report_between-Extends :
    (first last : MillieToken) (error : String) (c : CompileContext)
    → Extends c (report_between first last error c)
report_between-Extends first last error c = record {
  emitted = ([], sym (append-nil c.code));
  fits = λ h. h;
  counted = λ h. h;
  more_registers = omega arith;
  same_top = refl;
  same_room = refl;
  same_bindings = λ i h. refl;
}

pub report_compile_error-Extends :
    (c : CompileContext) (e : Expression) (error : String)
    → Holds (Extends c) (report_compile_error c e error)
unfolding report_compile_error
report_compile_error-Extends c e error = Holds-any (get_elem? c.tokens (start_token e)) _ λ first _.
    Holds-any (get_elem? c.tokens (end_token e)) _
      λ last _. holds (report_between-Extends first last error c)

none_ne_some {ℓ} : {A : Type ℓ} {a : A} → none ≡ some a → ⊥
none_ne_some h = cc

pub get_elem?-set {ℓ} :
    {A : Type ℓ} (xs : List A) (i j : ℕ) (v : A) → i < j → get_elem? (set xs j v) i ≡ get_elem? xs i
get_elem?-set [] i j v h = refl
get_elem?-set (x ∷ xs) i zero v h = absurd (omega arith)
get_elem?-set (x ∷ xs) zero (suc j) v h = refl
get_elem?-set (x ∷ xs) (suc i) (suc j) v h = get_elem?-set xs i j v (omega arith)

abbrev pub pushed : CompileContext → Symbol → ℕ → CompileContext
pushed c id reg = record c {
  bindings = set c.bindings c.binding_top (record { symbol = id; reg = reg });
  binding_top = c.binding_top + 1;
}

pub push_binding-eq-some :
    (c : CompileContext) (id : Symbol) (reg : ℕ) {c₁ : CompileContext}
    → push_binding c id reg ≡ some c₁
    → (c.binding_top < length c.bindings) × (pushed c id reg ≡ c₁)
unfolding push_binding
push_binding-eq-some c id reg h = elim (Bool-cases (ltb c.binding_top (length c.bindings))) [
  | inl e ↦ (ground (arith, e), some-injective _ _ (rw e at h))
  | inr e ↦ absurd (none_ne_some (rw e at h))
]

pushed-Extends-pop :
    (c : CompileContext) (id : Symbol) (reg : ℕ) {c₂ : CompileContext}
    → Extends (pushed c id reg) c₂
    → Extends c (pop_binding c₂)
unfolding pop_binding
pushed-Extends-pop c id reg {c₂} x = record {
  emitted = x.emitted;
  fits = x.fits;
  counted = x.counted;
  more_registers = x.more_registers;
  same_top = omega (arith, x.same_top);
  same_room = x.same_room ∙ length-set c.bindings c.binding_top (record { symbol = id; reg = reg });
  same_bindings = λ i h.
      x.same_bindings i (omega (arith, h))
      ∙ get_elem?-set c.bindings i c.binding_top (record { symbol = id; reg = reg }) h;
}

-- A binding is in force while something is compiled, and its entry is given up behind it.
pub scoped :
    (c : CompileContext) (id : Symbol) (reg : ℕ) {c₁ c₂ : CompileContext}
    → push_binding c id reg ≡ some c₁
    → Extends c₁ c₂
    → Extends c (pop_binding c₂)
scoped c id reg {c₁} {c₂} h x =
    pushed-Extends-pop c id reg
      (subst (λ (d : CompileContext). Extends d c₂) (sym (push_binding-eq-some c id reg h).1) x)
