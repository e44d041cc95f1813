-- ===== src/Execution/Tests.antt =====
-- A program that is compiled and run: `let x = 5 in if x = 5 then x * 2 else 0`.
use millie.Prelude.{
  ℕ, ◌≡◌, ◌≢◌, none, refl, List, [], ◌∷◌, some, replicate, arith, All, All-replicate,
}
use millie.Token.{tok_star, tok_equals, MillieToken}
use millie.Ast.{Expression, exp_identifier, exp_let, exp_integer_constant, exp_if, exp_binary}
use millie.Bytecode.{CompiledExpression, Module, module_init}
use millie.Compiler.Context.{
  CompileBinding, binding_room, add_function, get_free_int_register, write_code_u8, write_code_u16,
  write_code_u32, write_code_u64, reserve_u16, patch_u16, push_binding, pop_binding, finish_compile,
  store_function,
}
use millie.Compiler.Emit.{
  write_load_literal, write_immediate, compile_identifier_impl, find_binding, find_closure,
  closure_offset, write_closure_load,
}
use millie.Compiler.Expressions.{
  compile_expression, compile, compile_if, write_operator, write_binary, write_two, find_operation,
}
use millie.Execution.Meaning.{meaning, identifiers, IsApart}
use millie.Errors.{Errors}
use millie.Execution.Programs.{IsApartFrom, compile_expression-evaluates}
use millie.Runtime.{num}
use millie.Runtime.Step.{evaluate_code}

abbrev noise : ℕ → List CompileBinding
noise _ = replicate binding_room (record { symbol = 9999; reg = 0 })

abbrev x : Expression
x = exp_identifier 0 0 1

abbrev doubling : Expression
doubling = exp_let 0 0 1 (exp_integer_constant 0 0 5) (
    exp_if 0 0 (exp_binary 0 0 tok_equals x (exp_integer_constant 0 0 5))
      (exp_binary 0 0 tok_star x (exp_integer_constant 0 0 2)) (exp_integer_constant 0 0 0))

abbrev doubling_function : CompiledExpression
doubling_function = record {
  code =
      1 ∷ 5 ∷ 0 ∷ 1 ∷ 5 ∷ 1 ∷ 14 ∷ 0 ∷ 1 ∷ 2 ∷ 16 ∷ 2 ∷ 10 ∷ 0 ∷ 1 ∷ 2 ∷ 3 ∷ 12 ∷ 0 ∷ 3 ∷ 4 ∷ 15 ∷ 6
      ∷ 0 ∷ 1 ∷ 0 ∷ 5 ∷ 17 ∷ 5 ∷ 4 ∷ 0 ∷ [];
  register_count = 6;
  closure = [];
  static_function_id = 0;
  result_register = 4;
}

abbrev doubling_module : Module
doubling_module = record { functions = doubling_function ∷ []; function_capacity = 10 }

doubling-compiles :
    compile_expression noise doubling [] [] module_init ≡ some (0, doubling_module, [])
unfolding compile_expression compile compile_if add_function get_free_int_register
    write_load_literal write_immediate write_code_u8 write_code_u16 write_code_u32 write_code_u64
    reserve_u16 patch_u16 push_binding pop_binding compile_identifier_impl find_binding find_closure
    closure_offset write_closure_load write_operator write_binary write_two finish_compile
    store_function find_operation
doubling-compiles = refl

doubling-IsApart : IsApart doubling
doubling-IsApart = (tt, ((tt, tt, tt), (tt, tt, tt), tt, refl, (tt, tt), tt), (tt, (tt, tt)))

doubling-IsApartFrom : IsApartFrom (noise 0) (identifiers doubling)
doubling-IsApartFrom = (eight, (eight, tt))
  where
    apart : ◌≢◌ {A = ℕ} 9999 1
    apart h = absurd (omega (arith, h))

    eight : All (λ (b : CompileBinding). b.symbol ≢ 1) (noise 0)
    eight =
        All-replicate (λ (b : CompileBinding). b.symbol ≢ 1) binding_room
          (record { symbol = 9999; reg = 0 }) apart

doubling-means : meaning doubling (λ _. none) ≡ some 10
unfolding meaning
doubling-means = refl

compile_expression-evaluates_example :
    (fuel : ℕ) × (evaluate_code fuel doubling_module 0 (num 0) (num 0) [] ≡ some (num 10, []))
compile_expression-evaluates_example =
    compile_expression-evaluates noise doubling [] [] [] module_init doubling_module 0 10
      doubling_function (num 0) (num 0) [] doubling-IsApart doubling-IsApartFrom doubling-means
      doubling-compiles refl (omega arith) (omega arith) (omega arith)

abbrev one_token : List MillieToken
one_token = record { type = tok_star; start = 0; length = 1 } ∷ []
