-- ===== src/Compiler/Expressions.antt =====
-- compiler.c: expressions.
use millie.Prelude.{
  ℕ, zero, suc, ◌+◌, ◌-◌, ◌%◌, ◌^◌, ◌==◌, if◌then◌else◌, List, [], ◌∷◌, Option, none, some, length,
  ◌>>=◌,
}
use Prim.Native.String.{String}
use millie.Errors.{Errors}
use millie.Token.{TokenType, tok_plus, tok_minus, tok_equals, tok_star, MillieToken}
use millie.Ast.{
  Symbol, invalid_symbol, Expression, exp_invalid, exp_error, exp_lambda, exp_identifier, exp_apply,
  exp_let, exp_letrec, exp_integer_constant, exp_true, exp_false, exp_if, exp_binary, exp_unary,
  exp_tuple, exp_tuple_final, start_token, end_token,
}
use millie.Bytecode.{
  Module, Opcode, op_storea_64, op_new_closure, op_new_tuple, op_call, op_add, op_sub, op_mul,
  op_neg, op_eq, op_jmp, op_jz, op_mov,
}
use millie.Compiler.Context.{
  CompileBinding, CompileContext, add_function, init_compile_context, report_compile_error,
  report_between, get_token, write_opcode, write_code_u8, write_code_u16, reserve_u16, patch_u16,
  get_free_int_register, push_binding, pop_binding, finish_compile, store_function,
}
use millie.Compiler.Emit.{write_load_literal, compile_identifier_impl}

-- What an expression's function does: the register of the value, and the context.
abbrev pub Compiles : Type 0
Compiles = CompileContext → Option (ℕ × CompileContext)

-- `OP_STOREA_64` with its operands.
unfoldable pub write_store : CompileContext → ℕ → ℕ → ℕ → CompileContext
write_store c target offset value =
    write_code_u8
      (write_code_u16 (write_code_u8 (write_opcode c op_storea_64) target) (offset % 2 ^ 16)) value

-- `OP_NEW_CLOSURE` and `OP_NEW_TUPLE`, and the other opcodes with two registers.
unfoldable pub write_two : CompileContext → Opcode → ℕ → ℕ → CompileContext
write_two c op a b = write_code_u8 (write_code_u8 (write_opcode c op) a) b

unfoldable pub write_three : CompileContext → Opcode → ℕ → ℕ → ℕ → CompileContext
write_three c op a b d = write_code_u8 (write_two c op a b) d

-- The loop of `_CompileLambdaImpl` that loads the closed values, from slot `i` on.
unfoldable pub store_closed : ℕ → ℕ → List Symbol → CompileContext → Option CompileContext
store_closed closure_register i [] c = some c
store_closed closure_register i (s ∷ symbols) c = compile_identifier_impl c s >>= λ r.
    store_closed closure_register (i + 1) symbols (write_store r.1 closure_register (i + 1) r.0)

-- The self binding of a `let rec`, if there is one.
unfoldable pub push_self : CompileContext → Symbol → ℕ → Option CompileContext
push_self c self_id reg = if self_id == invalid_symbol then some c else push_binding c self_id reg

unfoldable pub pop_self : CompileContext → Symbol → CompileContext
pop_self c self_id = if self_id == invalid_symbol then c else pop_binding c

-- The block of `_CompileLambdaImpl` in which the function itself is compiled, in a context of its
-- own: the child's closure symbols, and the context with the module and the errors.
unfoldable pub compile_function :
    (ℕ → List CompileBinding)
    → Compiles
    → Symbol
    → Symbol
    → CompileContext
    → Option (ℕ × List Symbol × CompileContext)
compile_function garbage compile_body lambda_id self_id c =
    let added = add_function c.module_ in
    let child = init_compile_context (garbage added.0) added.1 c.tokens c.errors in
    let self = get_free_int_register child in
    push_self self.1 self_id self.0 >>= λ c₁.
    (let arg = get_free_int_register c₁ in
      push_binding arg.1 lambda_id arg.0 >>= λ c₂. compile_body c₂ >>= λ ret.
      (let popped = pop_self (pop_binding ret.1) self_id in
        let done = finish_compile popped ret.0 added.0 in
        store_function popped.module_ added.1.function_capacity added.0 done >>= λ m.
        some (added.0, done.closure, record c { module_ = m; errors = popped.errors })))

-- `_CompileLambdaImpl`
unfoldable pub compile_lambda_impl :
    (ℕ → List CompileBinding) → Compiles → Symbol → Symbol → ℕ → Compiles
compile_lambda_impl garbage compile_body lambda_id self_id closure_register c =
    compile_function garbage compile_body lambda_id self_id c >>= λ r.
    (let id_reg = write_load_literal r.2 r.0 in
      let c₁ = write_two id_reg.1 op_new_closure id_reg.0 closure_register in
      store_closed closure_register 0 r.1 c₁ >>= λ c₂. some (closure_register, c₂))

-- The opcode of `_CompileBinary`'s switch.
abbrev pub binary_opcode : TokenType → Option Opcode
binary_opcode tok_plus = some op_add
binary_opcode tok_minus = some op_sub
binary_opcode tok_equals = some op_eq
binary_opcode tok_star = some op_mul
binary_opcode _ = none

-- What the `switch` of both finds: an opcode, or the tokens between which an error is reported.
pub data Operation : Type 0 where
  known : Opcode → Operation
  unsupported : MillieToken → MillieToken → Operation

unfoldable pub find_operation : CompileContext → Expression → Option Opcode → Option Operation
find_operation c expression (some op) = some (known op)
find_operation c expression none = do
  first ← get_token c.tokens (start_token expression)
  last ← get_token c.tokens (end_token expression)
  some (unsupported first last)

-- The opcode, or the error in its place.
unfoldable pub write_operator : CompileContext → String → Operation → CompileContext
write_operator c error (known op) = write_opcode c op
write_operator c error (unsupported first last) = report_between first last error c

-- The end of `_CompileBinary`, behind its operands.
unfoldable pub write_binary : Operation → ℕ → ℕ → CompileContext → ℕ × CompileContext
write_binary operation left right c =
    let out = get_free_int_register c in
    let c₁ = write_operator out.1 "Unsupported binary operator" operation in
    (out.0, write_code_u8 (write_code_u8 (write_code_u8 c₁ left) right) out.0)

abbrev pub unary_opcode : TokenType → Option Opcode
unary_opcode tok_minus = some op_neg
unary_opcode _ = none

unfoldable pub write_unary : Operation → ℕ → CompileContext → ℕ × CompileContext
write_unary operation arg c =
    let out = get_free_int_register c in
    let c₁ = write_operator out.1 "Unsupported unary operator" operation in
    (out.0, write_code_u8 (write_code_u8 c₁ arg) out.0)

-- A jump's offset from the end of its two bytes, as the 16 bits that are written.
abbrev pub jump_offset : ℕ → ℕ → ℕ
jump_offset target loc = (target + 2 ^ 16 - loc - 2) % 2 ^ 16

-- `_CompileIf`, with the compilation of its parts as arguments.
unfoldable pub compile_if : Compiles → Compiles → Compiles → Compiles
compile_if compile_test compile_then compile_else c = compile_test c >>= λ test.
    (let c₁ = write_code_u8 (write_opcode test.1 op_jz) test.0 in
      let false_target_loc = length c₁.code in
      compile_then (reserve_u16 c₁) >>= λ taken.
      (let c₂ = write_opcode taken.1 op_jmp in
        let end_target_loc = length c₂.code in
        let c₃ = reserve_u16 c₂ in
        let c₄ = patch_u16 c₃ false_target_loc (jump_offset (length c₃.code) false_target_loc) in
        compile_else c₄ >>= λ other.
        (let c₅ =
            if other.0 == taken.0 then other.1 else write_two other.1 op_mov other.0 taken.0 in
          some
            (taken.0, patch_u16 c₅ end_target_loc (jump_offset (length c₅.code) end_target_loc)))))

-- The loop of `_CompileTuple`, from index `i` on, with `n` rounds left. `cursor` moves along the
-- tuple and is not read: each round compiles the first member of the whole expression.
unfoldable pub store_members : Compiles → ℕ → ℕ → ℕ → CompileContext → Option CompileContext
store_members compile_first out_reg zero i c = some c
store_members compile_first out_reg (suc n) i c = compile_first c >>= λ r.
    store_members compile_first out_reg n (i + 1) (write_store r.1 out_reg i r.0)

unfoldable pub compile_tuple : Compiles → ℕ → Compiles
compile_tuple compile_first tuple_length c =
    let len = write_load_literal c tuple_length in
    let out = get_free_int_register len.1 in
    store_members compile_first out.0 tuple_length 0 (write_two out.1 op_new_tuple len.0 out.0)
    >>= λ c₁. some (out.0, c₁)

module _ (garbage : ℕ → List CompileBinding) where
  -- `_CompileExpression`, with `_CompileLet`, `_CompileLetRec`, `_CompileApply` and the rest.
  unfoldable pub compile : Expression → Compiles
  compile (exp_integer_constant _ _ value) c = some (write_load_literal c value)
  compile (exp_let _ _ id value body) c = compile value c >>= λ v.
      push_binding v.1 id v.0 >>= λ c₁. compile body c₁ >>= λ b. some (b.0, pop_binding b.1)
  compile (exp_letrec s e id (exp_lambda _ _ lambda_id lambda_body) body) c =
      let dest = get_free_int_register c in
      push_binding dest.1 id dest.0 >>= λ c₁.
      compile_lambda_impl garbage (compile lambda_body) lambda_id id dest.0 c₁ >>= λ f.
      compile body f.1 >>= λ b. some (b.0, pop_binding b.1)
  compile (exp_letrec _ _ id value body) c =
      let dest = get_free_int_register c in
      report_compile_error dest.1 value "the expression in a let rec must be a function definition"
      >>= λ c₁. some (dest.0, c₁)
  compile (exp_identifier _ _ id) c = compile_identifier_impl c id
  compile (exp_lambda _ _ lambda_id body) c =
      let closure = get_free_int_register c in
      compile_lambda_impl garbage (compile body) lambda_id invalid_symbol closure.0 closure.1
  compile (exp_apply _ _ function argument) c = compile function c >>= λ f.
      compile argument f.1 >>= λ a.
      (let ret = get_free_int_register a.1 in some (ret.0, write_three ret.1 op_call f.0 a.0 ret.0))
  compile (exp_binary s e operator left right) c = compile left c >>= λ l.
      compile right l.1 >>= λ r.
      find_operation r.1 (exp_binary s e operator left right) (binary_opcode operator) >>= λ o.
      some (write_binary o l.0 r.0 r.1)
  compile (exp_unary s e operator arg) c = compile arg c >>= λ a.
      find_operation a.1 (exp_unary s e operator arg) (unary_opcode operator) >>= λ o.
      some (write_unary o a.0 a.1)
  compile (exp_if _ _ test then_arm else_arm) c =
      compile_if (compile test) (compile then_arm) (compile else_arm) c
  compile (exp_true _ _) c = some (write_load_literal c 1)
  compile (exp_false _ _) c = some (write_load_literal c 0)
  compile (exp_tuple _ _ first rest tuple_length) c = compile_tuple (compile first) tuple_length c
  compile (exp_error _ _) c = some (0, c)
  compile (exp_tuple_final s e first) c =
      report_compile_error c (exp_tuple_final s e first) "Unsupported expression during compilation"
      >>= λ c₁. some (0, c₁)
  compile (exp_invalid s e) c =
      report_compile_error c (exp_invalid s e) "Unsupported expression during compilation" >>= λ c₁.
      some (0, c₁)

  -- `CompileExpression`: the number of the function, the module and the errors.
  unfoldable pub compile_expression :
      Expression → List MillieToken → Errors → Module → Option (ℕ × Module × Errors)
  compile_expression expression tokens errors m =
      let added = add_function m in
      compile expression (init_compile_context (garbage added.0) added.1 tokens errors) >>= λ r.
      (let done = finish_compile r.1 r.0 added.0 in
        store_function r.1.module_ added.1.function_capacity added.0 done >>= λ m'.
        some (added.0, m', r.1.errors))
