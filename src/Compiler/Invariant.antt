-- ===== src/Compiler/Invariant.antt =====
-- compiler.c, `_CompileExpression`: what compiling any expression keeps of a compile context.
use millie.Prelude.{
  ℕ, zero, suc, ◌+◌, ◌≤◌, refl, ltb, ◌==◌, if◌then◌else◌, List, [], ◌∷◌, Option, none, some, length,
  arith, Bool-cases, Option-cases, inl, inr, ◌>>=◌, Holds, at_fault, holds, Holds-bind, Holds-any,
  Holds-map, Holds-elim, Holds-if,
}
use millie.Ast.{
  Symbol, invalid_symbol, Expression, exp_invalid, exp_error, exp_lambda, exp_identifier, exp_apply,
  exp_let, exp_letrec, exp_integer_constant, exp_true, exp_false, exp_if, exp_binary, exp_unary,
  exp_tuple, exp_tuple_final,
}
use millie.Bytecode.{op_new_closure, op_new_tuple, op_mov, op_call, op_jz, op_jmp}
use millie.Compiler.Context.{
  CompileBinding, CompileContext, write_opcode, write_code_u8, reserve_u16, push_binding,
  pop_binding, store_function, symbol_room,
}
use millie.Compiler.Emit.{find_binding, find_closure, closure_offset, compile_identifier_impl}
use millie.Compiler.Expressions.{
  Compiles, write_two, find_operation, store_closed, push_self, compile_function,
  compile_lambda_impl, store_members, compile_tuple, compile_if, compile,
}
use millie.Compiler.Growth.{
  Extends, Extends-refl, same_code, longer, ◌▸◌, get_free_int_register-Extends,
  report_compile_error-Extends, write_code_u8-Extends, reserve_u16-Extends, scoped,
}
use millie.Compiler.Stability.{
  patch_u16-Extends, length-reserve_u16, length-patch_u16, write_opcode-Extends,
  write_load_literal-Extends, write_two-Extends, write_three-Extends, write_store-Extends,
  write_closure_load-Extends, write_binary-Extends, write_unary-Extends,
}

-- If there is a result, its context extends `c`.
abbrev pub Keeps : CompileContext → Option (ℕ × CompileContext) → Type 0
Keeps c o = Holds (λ r. Extends c r.1) o

pub closure_offset-Keeps : (c : CompileContext) (id : Symbol) → Keeps c (closure_offset c id)
unfolding closure_offset
closure_offset-Keeps c id =
    Holds-elim (find_closure c.closure_symbols id) (λ offset _. holds (Extends-refl c))
      λ _.
        Holds-if (ltb (length c.closure_symbols) symbol_room)
          (λ _. holds (same_code refl refl refl refl refl refl)) (λ _. at_fault)

identifier-Keeps : (c : CompileContext) (id : Symbol) → Keeps c (compile_identifier_impl c id)
unfolding compile_identifier_impl find_binding
identifier-Keeps c id = elim (Option-cases (find_binding c.bindings c.binding_top id)) [
  | inl e ↦ rw e at_fault
  | inr (some reg, e) ↦ rw e (holds (Extends-refl c))
  | inr (none, e) ↦ rw e (
      Holds-bind _ (closure_offset-Keeps c id)
        λ r x. holds (x ▸ write_closure_load-Extends r.1 r.0))
]

store_closed-Keeps :
    (closure_register i : ℕ) (symbols : List Symbol) (c : CompileContext)
    → Holds (Extends c) (store_closed closure_register i symbols c)
unfolding store_closed
store_closed-Keeps closure_register i [] c = holds (Extends-refl c)
store_closed-Keeps closure_register i (s ∷ symbols) c = Holds-bind _ (identifier-Keeps c s) λ r x.
    let y = x ▸ write_store-Extends r.1 closure_register (i + 1) r.0 in
    Holds-map (λ c' z. y ▸ z) (store_closed-Keeps closure_register (i + 1) symbols _)

-- Compiling a function leaves its context alone, save for the module and the errors.
compile_function-Keeps :
    (garbage : ℕ → List CompileBinding) (body : Compiles) (lambda_id self_id : Symbol)
    (c : CompileContext)
    → Holds (λ r. Extends c r.2) (compile_function garbage body lambda_id self_id c)
unfolding compile_function
compile_function-Keeps garbage body lambda_id self_id c =
    Holds-any (push_self _ self_id _) _ λ c₁ _. Holds-any (push_binding _ lambda_id _) _ λ c₂ _.
      Holds-any (body c₂) _ λ ret _.
        Holds-any (store_function _ _ _ _) _ λ m _. holds (same_code refl refl refl refl refl refl)

lambda-Keeps :
    (garbage : ℕ → List CompileBinding) (body : Compiles) (lambda_id self_id : Symbol)
    (closure_register : ℕ) (c : CompileContext)
    → Keeps c (compile_lambda_impl garbage body lambda_id self_id closure_register c)
unfolding compile_lambda_impl
lambda-Keeps garbage body lambda_id self_id closure_register c =
    Holds-bind _ (compile_function-Keeps garbage body lambda_id self_id c) λ r x.
      let y =
        x
        ▸ write_load_literal-Extends r.2 r.0
        ▸ write_two-Extends _ op_new_closure _ closure_register in
      Holds-bind _ (store_closed-Keeps closure_register 0 r.1 _) λ c' z. holds (y ▸ z)

store_members-Keeps :
    (compile_first : Compiles) (out_reg n i : ℕ) (c : CompileContext)
    → ((c : CompileContext) → Keeps c (compile_first c))
    → Holds (Extends c) (store_members compile_first out_reg n i c)
unfolding store_members
store_members-Keeps compile_first out_reg zero i c k = holds (Extends-refl c)
store_members-Keeps compile_first out_reg (suc n) i c k = Holds-bind _ (k c) λ r x.
    let y = x ▸ write_store-Extends r.1 out_reg i r.0 in
    Holds-map (λ c' z. y ▸ z) (store_members-Keeps compile_first out_reg n (i + 1) _ k)

tuple-Keeps :
    (compile_first : Compiles) (n : ℕ) (c : CompileContext)
    → ((c : CompileContext) → Keeps c (compile_first c))
    → Keeps c (compile_tuple compile_first n c)
unfolding compile_tuple
tuple-Keeps compile_first n c k =
    let y =
      write_load_literal-Extends c n
      ▸ get_free_int_register-Extends _
      ▸ write_two-Extends _ op_new_tuple _ _ in
    Holds-bind _ (store_members-Keeps compile_first _ n 0 _ k) λ c' z. holds (y ▸ z)

pub move-Extends :
    (other taken : ℕ) (c : CompileContext)
    → Extends c (if other == taken then c else write_two c op_mov other taken)
move-Extends other taken c = elim (Bool-cases (other == taken)) [
  | inl e ↦ rw e (Extends-refl c)
  | inr e ↦ rw e (write_two-Extends c op_mov other taken)
]

if-Keeps :
    (compile_test compile_then compile_else : Compiles) (c : CompileContext)
    → ((c : CompileContext) → Keeps c (compile_test c))
    → ((c : CompileContext) → Keeps c (compile_then c))
    → ((c : CompileContext) → Keeps c (compile_else c))
    → Keeps c (compile_if compile_test compile_then compile_else c)
unfolding compile_if
if-Keeps compile_test compile_then compile_else c test then_arm else_arm =
    Holds-bind _ (test c) λ t x.
      let before = x ▸ write_opcode-Extends _ op_jz ▸ write_code_u8-Extends _ t.0 in
      let c₁ = write_code_u8 (write_opcode t.1 op_jz) t.0 in
      Holds-bind _ (then_arm _) λ taken y.
        let arm = y ▸ write_opcode-Extends _ op_jmp in
        let c₂ = write_opcode taken.1 op_jmp in
        let both = before ▸ reserve_u16-Extends _ ▸ arm ▸ reserve_u16-Extends _ in
        let inside : length c₁.code + 2 ≤ length (reserve_u16 c₂).code =
          omega (arith, length-reserve_u16 c₁, length-reserve_u16 c₂, longer arm) in
        let first = patch_u16-Extends (length c₁.code) _ both (longer before) inside in
        Holds-bind _ (else_arm _) λ other z.
          let more = z ▸ move-Extends other.0 taken.0 other.1 in
          let c₅ =
            if other.0 == taken.0 then other.1 else write_two other.1 op_mov other.0 taken.0 in
          let inside' : length c₂.code + 2 ≤ length c₅.code = omega (
            arith,
            longer more,
            length-reserve_u16 c₂,
            length-patch_u16 (reserve_u16 c₂) (length c₁.code) _ inside,
          ) in
          let behind = longer (before ▸ reserve_u16-Extends _ ▸ arm) in
          holds (patch_u16-Extends (length c₂.code) _ (first ▸ more) behind inside')

let-Keeps :
    (compile_body : Compiles) (id : Symbol) (reg : ℕ) (c : CompileContext)
    → ((c : CompileContext) → Keeps c (compile_body c))
    → Keeps c (push_binding c id reg >>= λ c₁. compile_body c₁ >>= λ b. some (b.0, pop_binding b.1))
let-Keeps compile_body id reg c k =
    Holds-any (push_binding c id reg) _
      λ c₁ e. Holds-bind _ (k c₁) λ b x. holds (scoped c id reg e x)

module _ (garbage : ℕ → List CompileBinding) where
  -- Whatever expression is compiled, in whatever context, where nothing is accessed outside of a
  -- block: code that was there is kept and new code stands behind it, code that lay within its
  -- block still does, the eight-bit count of registers is still that of all registers modulo 2 ^ 8
  -- and no register is given back, and the bindings in force are the same as before.
  pub compile-Keeps : (e : Expression) (c : CompileContext) → Keeps c (compile garbage e c)
  unfolding compile
  compile-Keeps (exp_integer_constant _ _ value) c = holds (write_load_literal-Extends c value)
  compile-Keeps (exp_let _ _ id value body) c = Holds-bind _ (compile-Keeps value c) λ v x.
      Holds-map (λ r y. x ▸ y) (let-Keeps (compile garbage body) id v.0 v.1 (compile-Keeps body))
  compile-Keeps (exp_letrec s e id (exp_lambda _ _ lambda_id lambda_body) body) c =
      let x = get_free_int_register-Extends c in
      Holds-any (push_binding _ id _) _ λ c₁ e.
        Holds-bind _ (lambda-Keeps garbage (compile garbage lambda_body) lambda_id id _ c₁)
          λ f y. Holds-bind _ (compile-Keeps body f.1) λ b z. holds (x ▸ scoped _ id _ e (y ▸ z))
  compile-Keeps (exp_letrec _ _ id value body) c =
      Holds-bind _ (report_compile_error-Extends _ _ _)
        λ c₁ x. holds (get_free_int_register-Extends c ▸ x)
  compile-Keeps (exp_identifier _ _ id) c = identifier-Keeps c id
  compile-Keeps (exp_lambda _ _ lambda_id body) c =
      let x = get_free_int_register-Extends c in
      Holds-map (λ r y. x ▸ y)
        (lambda-Keeps garbage (compile garbage body) lambda_id invalid_symbol _ _)
  compile-Keeps (exp_apply _ _ function argument) c = Holds-bind _ (compile-Keeps function c) λ f x.
      Holds-bind _ (compile-Keeps argument f.1) λ a y.
        holds (x ▸ y ▸ get_free_int_register-Extends _ ▸ write_three-Extends _ op_call f.0 a.0 _)
  compile-Keeps (exp_binary s e operator left right) c = Holds-bind _ (compile-Keeps left c) λ l x.
      Holds-bind _ (compile-Keeps right l.1) λ r y.
        Holds-any (find_operation r.1 _ _) _
          λ o _. holds (x ▸ y ▸ write_binary-Extends o l.0 r.0 r.1)
  compile-Keeps (exp_unary s e operator arg) c =
      Holds-bind _ (compile-Keeps arg c)
        λ a x. Holds-any (find_operation a.1 _ _) _ λ o _. holds (x ▸ write_unary-Extends o a.0 a.1)
  compile-Keeps (exp_if _ _ test then_arm else_arm) c =
      if-Keeps (compile garbage test) (compile garbage then_arm) (compile garbage else_arm) c
        (compile-Keeps test) (compile-Keeps then_arm) (compile-Keeps else_arm)
  compile-Keeps (exp_true _ _) c = holds (write_load_literal-Extends c 1)
  compile-Keeps (exp_false _ _) c = holds (write_load_literal-Extends c 0)
  compile-Keeps (exp_tuple _ _ first rest tuple_length) c =
      tuple-Keeps (compile garbage first) tuple_length c (compile-Keeps first)
  compile-Keeps (exp_error _ _) c = holds (Extends-refl c)
  compile-Keeps (exp_tuple_final s e first) c =
      Holds-bind _ (report_compile_error-Extends c _ _) λ c₁ x. holds x
  compile-Keeps (exp_invalid s e) c =
      Holds-bind _ (report_compile_error-Extends c _ _) λ c₁ x. holds x
