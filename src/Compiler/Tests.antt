-- ===== src/Compiler/Tests.antt =====
-- Programs that are compiled and run, and the concrete cases of the theorems about compiling.
use millie.Prelude.{arith, ◌+◌, ◌^◌, ℕ, ◌≡◌, refl, List, [], ◌∷◌, Option, some, replicate, ◌>>=◌}
use millie.Token.{tok_plus, tok_minus, tok_star, tok_equals}
use millie.Ast.{
  Symbol, Expression, exp_identifier, exp_let, exp_letrec, exp_lambda, exp_apply,
  exp_integer_constant, exp_if, exp_binary, exp_tuple, exp_tuple_final,
}
use millie.Bytecode.{module_init, bytes_u64, read_u64}
use millie.Bytecode.Codec.{At-written, read_u64-bytes}
use millie.Compiler.Context.{
  CompileBinding, CompileContext, binding_room, push_binding, pop_binding, init_compile_context,
}
use millie.Compiler.Expressions.{compile, compile_expression}
use millie.Compiler.Growth.{pushed}
use millie.Compiler.Invariant.{Keeps, compile-Keeps}
use millie.Compiler.Stale.{popped-found}
use millie.Compiler.Emit.{compile_identifier_impl}
use millie.Runtime.{Word, num, Heap}
use millie.Runtime.Step.{evaluate_code}

abbrev noise : ℕ → List CompileBinding
noise _ = replicate binding_room (record { symbol = 9999; reg = 0 })

-- A program's value and heap, and the number of errors that compiling it reports.
abbrev result_of : Expression → Option (Word × Heap)
result_of e = do
  (f, m, errors) ← compile_expression noise e [] [] module_init
  evaluate_code 60 m f (num 0) (num 0) []

abbrev int : ℕ → Expression
int n = exp_integer_constant 0 0 n

abbrev var : Symbol → Expression
var x = exp_identifier 0 0 x

abbrev add : Expression → Expression → Expression
add a b = exp_binary 0 0 tok_plus a b

abbrev fact : Expression
fact =
    exp_letrec 0 0 1
      (exp_lambda 0 0 2 (
        exp_if 0 0 (exp_binary 0 0 tok_equals (var 2) (int 0)) (int 1) (
          exp_binary 0 0 tok_star (var 2)
            (exp_apply 0 0 (var 1) (exp_binary 0 0 tok_minus (var 2) (int 1))))))
      (exp_apply 0 0 (var 1) (int 5))

-- `let y = 3 in let f = fn x => x + y in f 40`
abbrev closing : Expression
closing =
    exp_let 0 0 1 (int 3)
      (exp_let 0 0 2 (exp_lambda 0 0 3 (add (var 3) (var 1))) (exp_apply 0 0 (var 2) (int 40)))

abbrev shadowed : Expression
shadowed = exp_let 0 0 1 (int 1) (add (exp_let 0 0 1 (int 2) (var 1)) (var 1))

abbrev pair : Expression
pair = exp_tuple 0 0 (int 1) (exp_tuple_final 0 0 (int 2)) 2

abbrev start : CompileContext
start = init_compile_context (noise 0) module_init [] []

abbrev bound : CompileContext
bound = pushed start 7 3

start-pushes : push_binding start 7 3 ≡ some bound
unfolding push_binding
start-pushes = refl

popped-found_example : compile_identifier_impl (pop_binding bound) 7 ≡ some (3, pop_binding bound)
popped-found_example = popped-found start 7 3 bound start-pushes

compile-Keeps_example : Keeps start (compile noise shadowed start)
compile-Keeps_example = compile-Keeps noise shadowed start

read_u64-bytes_example : read_u64 (9 ∷ bytes_u64 (2 ^ 40 + 7)) 1 ≡ some (2 ^ 40 + 7)
read_u64-bytes_example =
    read_u64-bytes (9 ∷ bytes_u64 (2 ^ 40 + 7)) (2 ^ 40 + 7) 1 (omega arith)
      (At-written (9 ∷ []) (bytes_u64 (2 ^ 40 + 7)) [])
