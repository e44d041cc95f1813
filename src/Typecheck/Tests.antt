-- ===== src/Typecheck/Tests.antt =====
-- Runs of the type checker on small trees.
use Prim.Native.String.{String}
use millie.Prelude.{ℕ, List, [], ◌∷◌, ◌++◌, ◌≡◌, ◌↔◌, refl, Option, none, some, arith}
use millie.Errors.{Errors}
use millie.Token.{MillieToken, tok_id, tok_equals, tok_star}
use millie.Ast.{
  Expression, exp_lambda, exp_identifier, exp_apply, exp_let, exp_integer_constant, exp_true,
  exp_if, exp_binary,
}
use millie.Types.{
  Outcome, done, stopped, endless, World, static_types, Check, ◌>>=◌, make_type_var,
  make_function_type, is_error_type,
}
use millie.Types.Copy.{make_fresh_type_exp, make_generic_type_exp}
use millie.Unify.{unify}
use millie.Types.Format.{format_type_expression}
use millie.Typecheck.{get_expression_type}
use millie.Typecheck.Simple.{Simple, HasType, IsMonomorphic}
use millie.Typecheck.Monomorphic.{get_expression_type-HasType}
use millie.Typecheck.Reported.{address, world}
use millie.Typecheck.Endless.{returned_parameter, get_expression_type-endless}
use millie.Typecheck.Values.{accepted-meaning}
use millie.Execution.Meaning.{meaning}

abbrev one_token : List MillieToken
one_token = record { type = tok_id; start = 0; length = 1 } ∷ []

abbrev start : World
start = record { nodes = static_types; errors = [] }

-- The printed type of an expression, as the driver prints it.
abbrev shown : ℕ → Expression → Check String
shown n e = do type ← get_expression_type n one_token e; format_type_expression n type

abbrev text_of : Outcome (String × World) → Option String
text_of (done (s, w)) = some s
text_of (stopped s) = none

-- fn x => x
abbrev identity : Expression
identity = exp_lambda 0 0 1 (exp_identifier 0 0 1)

identity_type : text_of (shown 9 identity start) ≡ some "( 'A -> 'A )"
unfolding get_expression_type format_type_expression make_type_var make_fresh_type_exp
    make_function_type make_generic_type_exp is_error_type unify
identity_type = refl

-- let id = fn x => x in if id true then id 1 else 2
abbrev polymorphic : Expression
polymorphic = exp_let 0 0 2 identity (
    exp_if 0 0 (exp_apply 0 0 (exp_identifier 0 0 2) (exp_true 0 0))
      (exp_apply 0 0 (exp_identifier 0 0 2) (exp_integer_constant 0 0 1))
      (exp_integer_constant 0 0 2))

polymorphic_type : text_of (shown 9 polymorphic start) ≡ some "int"
unfolding get_expression_type format_type_expression make_type_var make_fresh_type_exp
    make_function_type make_generic_type_exp is_error_type unify
polymorphic_type = refl

get_expression_type-endless_example :
    get_expression_type 50 one_token (returned_parameter 0 0 0 0 0 0 0 0) (world [] [])
    ≡ stopped endless
get_expression_type-endless_example = get_expression_type-endless 50 one_token [] 0 0 0 0 0 0 0 0

-- let x = 4 in if x = 4 then x * x else 0
abbrev squared : Expression
squared = exp_let 0 0 1 (exp_integer_constant 0 0 4) (
    exp_if 0 0 (exp_binary 0 0 tok_equals (exp_identifier 0 0 1) (exp_integer_constant 0 0 4))
      (exp_binary 0 0 tok_star (exp_identifier 0 0 1) (exp_identifier 0 0 1))
      (exp_integer_constant 0 0 0))

squared-IsMonomorphic : IsMonomorphic squared
squared-IsMonomorphic = (tt, ((refl, tt, tt), (refl, tt, tt), tt))

get_expression_type-HasType_example :
    (t : Simple) × (new : Errors) × (get_expression_type 3 one_token squared (world [] [])
      ≡ done (address t, world [] ([] ++ new)))
    × ((new ≡ []) ↔ HasType [] squared t)
get_expression_type-HasType_example =
    get_expression_type-HasType 0 one_token squared [] [] squared-IsMonomorphic (omega arith)

squared_type : get_expression_type 3 one_token squared (world [] []) ≡ done (0, world [] [])
unfolding get_expression_type make_fresh_type_exp make_generic_type_exp is_error_type unify
squared_type = refl

accepted-meaning_example : (value : ℕ) × (meaning squared (λ _. none) ≡ some value)
accepted-meaning_example =
    accepted-meaning 0 one_token squared [] [] 0 squared-IsMonomorphic (omega arith)
      (refl, (((λ q. cc), tt, refl), ((λ q. cc), tt, tt), refl)) squared_type
