-- ===== src/Compiler/Stability.antt =====
-- compiler.c: what compiling any expression keeps of a compile context.
use millie.Prelude.{
  ℕ, ◌+◌, ◌-◌, ◌%◌, ◌^◌, ◌≤◌, ◌≡◌, leb, [], ◌∷◌, ◌++◌, length, take, drop, arith, ap, Bool-cases,
  inl, inr, ◌∙◌, length-append, take-length_add, length-take, length-drop,
}
use mathlib.Core.List.{append_assoc}
use Prim.Native.String.{String}
use millie.Errors.{Errors}
use millie.Bytecode.{
  Code, Opcode, number, op_storea_64, op_loada_64, op_loadi_8, op_loadi_16, op_loadi_32,
  op_loadi_64, bytes_u16,
}
use millie.Compiler.Context.{
  write_code_u8, write_code_u16, write_code_u32, write_code_u64, CompileContext, write_opcode,
  reserve_u16, patch_u16, overwrite_u16,
}
use millie.Compiler.Emit.{write_immediate, write_load_literal, write_closure_load}
use millie.Compiler.Expressions.{
  Operation, known, unsupported, write_store, write_operator, write_two, write_three, write_binary,
  write_unary,
}
use millie.Compiler.Growth.{
  Extends, ◌▸◌, write_code_u8-Extends, write_code_u16-Extends, write_code_u32-Extends,
  write_code_u64-Extends, get_free_int_register-Extends, report_between-Extends,
}

pub length-overwrite_u16 :
    (code : Code) (loc v : ℕ)
    → loc + 2 ≤ length code
    → length (overwrite_u16 code loc v) ≡ length code
length-overwrite_u16 code loc v h =
    rw (length-append (take loc code) (bytes_u16 v ++ drop (loc + 2) code))
      (omega (arith, h, length-take loc code (omega (arith, h)), length-drop (loc + 2) code))

overwrite_u16-append :
    (code more : Code) (loc v : ℕ)
    → length code ≤ loc
    → (more' : Code) × (overwrite_u16 (code ++ more) loc v ≡ code ++ more')
overwrite_u16-append code more loc v h =
    let k = loc - length code in
    let tail = bytes_u16 v ++ drop (loc + 2) (code ++ more) in
    let at : loc ≡ length code + k = omega (arith, h) in
    let front : take loc (code ++ more) ≡ code ++ take k more =
      ap (λ n. take n (code ++ more)) at ∙ take-length_add code more k in
    (take k more ++ tail, ap (λ xs. xs ++ tail) front ∙ append_assoc code (take k more) tail)

-- Two bytes are patched in what was written since.
pub patch_u16-Extends :
    {c c₁ : CompileContext} (loc v : ℕ)
    → Extends c c₁
    → length c.code ≤ loc
    → loc + 2 ≤ length c₁.code
    → Extends c (patch_u16 c₁ loc v)
unfolding patch_u16
patch_u16-Extends {c} {c₁} loc v x h h' = record {
  emitted =
      let o = overwrite_u16-append c.code x.emitted.0 loc v h in
      (o.0, ap (λ code. overwrite_u16 code loc v) x.emitted.1 ∙ o.1);
  fits = λ f.
      let g = x.fits f in
      let same = length-overwrite_u16 c₁.code loc v h' in
      (ground (arith, g.0), ground (arith, g.0, g.1, same));
  counted = x.counted;
  more_registers = x.more_registers;
  same_top = x.same_top;
  same_room = x.same_room;
  same_bindings = x.same_bindings;
}

pub length-reserve_u16 : (c : CompileContext) → length (reserve_u16 c).code ≡ length c.code + 2
unfolding reserve_u16
length-reserve_u16 c = length-append c.code (0 ∷ 0 ∷ [])

pub length-patch_u16 :
    (c : CompileContext) (loc v : ℕ)
    → loc + 2 ≤ length c.code
    → length (patch_u16 c loc v).code ≡ length c.code
unfolding patch_u16
length-patch_u16 c loc v h = length-overwrite_u16 c.code loc v h

pub write_opcode-Extends : (c : CompileContext) (op : Opcode) → Extends c (write_opcode c op)
write_opcode-Extends c op = write_code_u8-Extends c (number op)

pub write_two-Extends :
    (c : CompileContext) (op : Opcode) (a b : ℕ) → Extends c (write_two c op a b)
unfolding write_two
write_two-Extends c op a b =
    write_opcode-Extends c op ▸ write_code_u8-Extends _ a ▸ write_code_u8-Extends _ b

pub write_three-Extends :
    (c : CompileContext) (op : Opcode) (a b d : ℕ) → Extends c (write_three c op a b d)
unfolding write_three
write_three-Extends c op a b d = write_two-Extends c op a b ▸ write_code_u8-Extends _ d

pub write_store-Extends :
    (c : CompileContext) (target offset value : ℕ) → Extends c (write_store c target offset value)
unfolding write_store
write_store-Extends c target offset value =
    write_opcode-Extends c op_storea_64
    ▸ write_code_u8-Extends _ target
    ▸ write_code_u16-Extends _ (offset % 2 ^ 16)
    ▸ write_code_u8-Extends _ value

write_immediate-Extends : (c : CompileContext) (v : ℕ) → Extends c (write_immediate c v)
unfolding write_immediate
write_immediate-Extends c v = elim (Bool-cases (leb v (2 ^ 8 - 1))) [
  | inl e ↦ rw e (write_opcode-Extends c op_loadi_8 ▸ write_code_u8-Extends _ v)
  | inr e ↦ elim (Bool-cases (leb v (2 ^ 16 - 1))) [
    | inl e' ↦ rw (e, e') (write_opcode-Extends c op_loadi_16 ▸ write_code_u16-Extends _ v)
    | inr e' ↦ elim (Bool-cases (leb v (2 ^ 32 - 1))) [
      | inl e'' ↦ rw (e, e', e'') (write_opcode-Extends c op_loadi_32 ▸ write_code_u32-Extends _ v)
      | inr e'' ↦ rw (e, e', e'') (write_opcode-Extends c op_loadi_64 ▸ write_code_u64-Extends _ v)
    ]
  ]
]

pub write_load_literal-Extends : (c : CompileContext) (v : ℕ) → Extends c (write_load_literal c v).1
unfolding write_load_literal
write_load_literal-Extends c v =
    get_free_int_register-Extends c ▸ write_immediate-Extends _ v ▸ write_code_u8-Extends _ _

pub write_closure_load-Extends :
    (c : CompileContext) (offset : ℕ) → Extends c (write_closure_load c offset).1
unfolding write_closure_load
write_closure_load-Extends c offset =
    get_free_int_register-Extends c
    ▸ write_opcode-Extends _ op_loada_64
    ▸ write_code_u8-Extends _ 0
    ▸ write_code_u16-Extends _ ((offset + 1) % 2 ^ 16)
    ▸ write_code_u8-Extends _ _

write_operator-Extends :
    (c : CompileContext) (error : String) (o : Operation) → Extends c (write_operator c error o)
unfolding write_operator
write_operator-Extends c error (known op) = write_opcode-Extends c op
write_operator-Extends c error (unsupported first last) = report_between-Extends first last error c

pub write_binary-Extends :
    (o : Operation) (l r : ℕ) (c : CompileContext) → Extends c (write_binary o l r c).1
unfolding write_binary
write_binary-Extends o l r c =
    get_free_int_register-Extends c
    ▸ write_operator-Extends _ "Unsupported binary operator" o
    ▸ write_code_u8-Extends _ l
    ▸ write_code_u8-Extends _ r
    ▸ write_code_u8-Extends _ _

pub write_unary-Extends :
    (o : Operation) (a : ℕ) (c : CompileContext) → Extends c (write_unary o a c).1
unfolding write_unary
write_unary-Extends o a c =
    get_free_int_register-Extends c
    ▸ write_operator-Extends _ "Unsupported unary operator" o
    ▸ write_code_u8-Extends _ a
    ▸ write_code_u8-Extends _ _

-- A load of an immediate changes the code and its capacity only.
pub write_immediate-writes :
    (P : CompileContext → Type 0) (c : CompileContext) (v : ℕ)
    → ((code : Code) (capacity : ℕ) → P (record c { code = code; code_capacity = capacity }))
    → P (write_immediate c v)
unfolding write_immediate write_code_u8 write_code_u16 write_code_u32 write_code_u64
write_immediate-writes P c v h = elim (Bool-cases (leb v (2 ^ 8 - 1))) [
  | inl e ↦ rw e (h _ _)
  | inr e ↦ elim (Bool-cases (leb v (2 ^ 16 - 1))) [
    | inl e' ↦ rw (e, e') (h _ _)
    | inr e' ↦ elim (Bool-cases (leb v (2 ^ 32 - 1))) [
      | inl e'' ↦ rw (e, e', e'') (h _ _)
      | inr e'' ↦ rw (e, e', e'') (h _ _)
    ]
  ]
]

-- The opcode of an operator, or the error in its place, changes no more than the errors besides.
pub write_operator-writes :
    (P : CompileContext → Type 0) (c : CompileContext) (error : String) (o : Operation)
    → ((code : Code) (capacity : ℕ) (errors : Errors)
        → P (record c { code = code; code_capacity = capacity; errors = errors }))
    → P (write_operator c error o)
unfolding write_operator write_code_u8
write_operator-writes P c error (known op) h = h _ _ c.errors
write_operator-writes P c error (unsupported first last) h = h c.code c.code_capacity _
