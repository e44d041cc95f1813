-- ===== src/Execution/Returns.antt =====
-- compiler.c: where the blocks have room, compiling accesses nothing outside of them.
use millie.Token.{MillieToken}
use millie.Typecheck.Reported.{InRange, HasTokens}
use millie.Prelude.{
  ℕ, ◌+◌, ◌≤◌, ◌<◌, ◌≡◌, refl, ltb, true, List, ◌++◌, Option, none, some, length, arith, ap, ◌∙◌,
  ◌>>=◌, length-append, length-set, subst, sym, suc,
}
use millie.Ast.{
  Symbol, Expression, exp_lambda, exp_identifier, exp_let, exp_integer_constant, exp_true,
  exp_false, exp_if, exp_binary, exp_unary,
}
use millie.Bytecode.{op_jz}
use millie.Compiler.Context.{
  CompileBinding, CompileContext, write_opcode, write_code_u8, reserve_u16, patch_u16,
  get_free_int_register, push_binding, pop_binding, symbol_room,
}
use millie.Compiler.Emit.{
  closure_offset, write_closure_load, compile_identifier_impl, write_load_literal,
}
use millie.Compiler.Expressions.{
  write_two, write_binary, write_unary, binary_opcode, unary_opcode, compile_if, compile,
}
use millie.Compiler.Growth.{pushed}
use millie.Compiler.Invariant.{compile-Keeps}
use millie.Execution.Layout.{otherwise}
use millie.Execution.Meaning.{identifiers, IsApart}
use millie.Execution.Room.{
  nesting, Returns, find_binding-returns, Quiet, write_immediate-Quiet, write_operator-Quiet,
  move-Quiet, quiet, Returns-bind, Returns-more, closure_offset-Returns, load, returns, deeper,
  deeper-ge, find_operation-returns,
}

identifier-Returns :
    (c : CompileContext) (id : Symbol)
    → c.binding_top < length c.bindings
    → length c.closure_symbols + 1 ≤ symbol_room
    → Returns 1 c (compile_identifier_impl c id)
unfolding compile_identifier_impl
identifier-Returns c id room fits =
    let found = find_binding-returns c.bindings c.binding_top id room in rw found.1 (go found.0)
  where
    go :
        (found : Option ℕ)
        → Returns 1 c (elim found [
          | some reg ↦ some (reg, c)
          | none ↦ closure_offset c id >>= λ r. some (write_closure_load r.1 r.0)
        ])
    go (some reg) = quiet 1 c (reg, c) (refl, refl, refl)
    go none = load (closure_offset-Returns c id fits)

behind :
    (n : ℕ) (c c' : CompileContext) {o : Option (ℕ × CompileContext)}
    → Quiet c c'
    → Returns n c' o
    → Returns n c o
behind n c c' e (returns r p t q) = returns r (p ∙ e.0) (t ∙ e.2) (omega (arith, q, ap length e.1))

popped :
    (n : ℕ) (c : CompileContext) (id reg : ℕ) {o : Option (ℕ × CompileContext)}
    → Returns n (pushed c id reg) o
    → Returns n c (o >>= λ b. some (b.0, pop_binding b.1))
unfolding pop_binding
popped n c id reg (returns r p t q) = returns (r.0, pop_binding r.1) p t q

InRange-same :
    {tokens tokens' : List MillieToken}
    → tokens' ≡ tokens
    → (s e : ℕ) → InRange tokens s e
    → InRange tokens' s e
InRange-same same s e h = subst (λ ts. InRange ts s e) (sym same) h

HasTokens-same :
    {tokens tokens' : List MillieToken}
    → tokens' ≡ tokens
    → (e : Expression) → HasTokens tokens e
    → HasTokens tokens' e
HasTokens-same same e h = subst (λ ts. HasTokens ts e) (sym same) h

module _ (garbage : ℕ → List CompileBinding) where
  -- Where the blocks have room for the scopes and the names of an expression without functions
  -- and tuples, and its tokens are there, compiling it accesses nothing outside of a block, and
  -- adds no function to the module.
  pub compile-Returns :
      (e : Expression) (c : CompileContext)
      → IsApart e
      → HasTokens c.tokens e
      → c.binding_top + nesting e < length c.bindings
      → length c.closure_symbols + length (identifiers e) ≤ symbol_room
      → Returns (length (identifiers e)) c (compile garbage e c)
  unfolding compile compile_if write_load_literal write_binary write_unary write_two write_code_u8
      get_free_int_register reserve_u16 patch_u16 pop_binding push_binding
  compile-Returns (exp_integer_constant _ _ value) c a tok h k =
      quiet 0 c (write_load_literal c value)
        (write_immediate-Quiet (get_free_int_register c).1 value)
  compile-Returns (exp_true _ _) c a tok h k =
      quiet 0 c (write_load_literal c 1) (write_immediate-Quiet (get_free_int_register c).1 1)
  compile-Returns (exp_false _ _) c a tok h k =
      quiet 0 c (write_load_literal c 0) (write_immediate-Quiet (get_free_int_register c).1 0)
  compile-Returns (exp_identifier _ _ id) c a tok h k = identifier-Returns c id (omega (arith, h)) k
  compile-Returns (exp_let _ _ id value body) c a tok h k =
      let size = length-append (identifiers value) (identifiers body) in
      let deep = deeper-ge (nesting value) (suc (nesting body)) in
      Returns-more (omega (arith, size)) (
        Returns-bind {k = length (identifiers body)} _
          (compile-Returns value c a.0 tok.1 (omega (arith, h, deep.0)) (omega (arith, k, size)))
          (compile-Keeps garbage value c)
          λ v x t q.
            let has_room : ltb v.1.binding_top (length v.1.bindings) ≡ true =
              ground (arith, h, deep.1, x.same_top, x.same_room) in
            let c₁ = pushed v.1 id v.0 in
            let y =
              compile-Returns body c₁ a.1 (HasTokens-same t body tok.2)
                (omega (
                  arith,
                  h,
                  deep.1,
                  x.same_top,
                  x.same_room,
                  length-set v.1.bindings v.1.binding_top (record { symbol = id; reg = v.0 }),
                ))
                (omega (arith, k, q, size)) in
            rw has_room (popped (length (identifiers body)) v.1 id v.0 y))
  compile-Returns (exp_binary s e operator left right) c a tok h k =
      let size = length-append (identifiers left) (identifiers right) in
      let deep = deeper-ge (nesting left) (nesting right) in
      Returns-more (omega (arith, size)) (
        Returns-bind {k = length (identifiers right)} _
          (compile-Returns left c a.0 tok.1 (omega (arith, h, deep.0)) (omega (arith, k, size)))
          (compile-Keeps garbage left c)
          λ l x t q. Returns-more (omega arith) (
            Returns-bind {k = 0} _
              (compile-Returns right l.1 a.1 (HasTokens-same t right tok.2)
                (omega (arith, h, deep.1, x.same_top, x.same_room)) (omega (arith, k, q, size)))
              (compile-Keeps garbage right l.1)
              λ r y t' q'.
                let there = InRange-same (t' ∙ t) s e tok.0 in
                let found =
                  find_operation-returns r.1 (exp_binary s e operator left right)
                    (binary_opcode operator) there in
                rw found.1 (
                  quiet 0 r.1 _ (
                    write_operator-Quiet (get_free_int_register r.1).1 "Unsupported binary operator"
                      found.0))))
  compile-Returns (exp_unary s e operator arg) c a tok h k = Returns-more (omega arith) (
      Returns-bind {k = 0} _ (compile-Returns arg c a tok.1 h k) (compile-Keeps garbage arg c)
        λ r x t q.
          let there = InRange-same t s e tok.0 in
          let found =
            find_operation-returns r.1 (exp_unary s e operator arg) (unary_opcode operator) there in
          rw found.1 (
            quiet 0 r.1 _ (
              write_operator-Quiet (get_free_int_register r.1).1 "Unsupported unary operator"
                found.0)))
  compile-Returns (exp_if _ _ test then_arm else_arm) c a tok h k =
      let ia = length (identifiers then_arm) in
      let ie = length (identifiers else_arm) in
      let all = length-append (identifiers test) (identifiers then_arm ++ identifiers else_arm) in
      let arms = length-append (identifiers then_arm) (identifiers else_arm) in
      let deep = deeper-ge (nesting test) (deeper (nesting then_arm) (nesting else_arm)) in
      let deep_arms = deeper-ge (nesting then_arm) (nesting else_arm) in
      Returns-more (omega (arith, all, arms)) (
        Returns-bind {k = ia + ie} _
          (compile-Returns test c a.0 tok.1 (omega (arith, h, deep.0)) (omega (arith, k, all)))
          (compile-Keeps garbage test c)
          λ t x tk q.
            let c_arm = reserve_u16 (write_code_u8 (write_opcode t.1 op_jz) t.0) in
            behind (ia + ie) t.1 c_arm (refl, refl, refl)
              (Returns-bind {k = ie} {c = c_arm} _
                (compile-Returns then_arm c_arm a.1 (HasTokens-same tk then_arm tok.2)
                  (omega (arith, h, deep.1, deep_arms.0, x.same_top, x.same_room))
                  (omega (arith, k, q, all, arms)))
                (compile-Keeps garbage then_arm c_arm)
                λ taken y tk' q'.
                  let c_else = otherwise t taken taken in
                  behind ie taken.1 c_else (refl, refl, refl)
                    (Returns-more (omega arith) (
                      Returns-bind {k = 0} {c = c_else} _
                        (compile-Returns else_arm c_else a.2
                          (HasTokens-same (tk' ∙ tk) else_arm tok.3)
                          (omega (
                            arith, h, deep.1, deep_arms.1, x.same_top, x.same_room, y.same_top,
                            y.same_room,
                          ))
                          (omega (arith, k, q, q', all, arms)))
                        (compile-Keeps garbage else_arm c_else)
                        λ other z _ q''. quiet 0 other.1 _ (move-Quiet other.0 taken.0 other.1)))))
  compile-Returns (exp_lambda _ _ _ _) c a tok h k = absurd a
  compile-Returns _ c a tok h k = absurd a
