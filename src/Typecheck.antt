-- ===== src/Typecheck.antt =====
-- typecheck.c, the analysis of expressions: environments, `_Analyze` with a function for each form
-- of expression, and `GetExpressionType`. The walks over types get the fuel that the analysis is
-- given; the analysis itself recurs on the tree.
mod Tests
pub mod Simple
pub mod Judged
pub mod Reported
pub mod Static
pub mod Monomorphic
pub mod Endless
pub mod Values
use millie.Prelude.{ℕ, Bool, true, false, ◌||◌, List, [], ◌∷◌, Option, none, some, ◌==◌}
use millie.Token.{
  TokenType, tok_plus, tok_minus, tok_star, tok_slash, tok_equals, same_type, MillieToken,
}
use millie.Ast.{
  Symbol, Expression, exp_invalid, exp_error, exp_lambda, exp_identifier, exp_apply, exp_let,
  exp_letrec, exp_integer_constant, exp_true, exp_false, exp_if, exp_binary, exp_unary, exp_tuple,
  exp_tuple_final,
}
use millie.Types.{
  Address, to, Check, Outcome, World, pure, stop, fail_called, load, store, is_error_type,
  make_function_type, make_tuple_type, make_tuple_final_type, make_type_var, integer_type,
  boolean_type, error_type, ◌>>=◌, ◌>>◌,
}
use millie.Types.Copy.{make_generic_type_exp, make_fresh_type_exp}
use millie.Unify.{
  report_type_error, unify, unify_invalid_function_apply, unify_inconsistent_recursion,
  unify_if_condition_boolean, unify_if_branches_same, unify_no_valid_binary_operator,
}

-- `struct TypeEnvironment` and `struct NonGenericTypeList`, from the innermost entry on.
abbrev pub TypeEnvironment : Type 0
TypeEnvironment = List (Symbol × Address)

abbrev pub NonGenericTypeList : Type 0
NonGenericTypeList = List Address

abbrev pub extend_non_generic_type_list : Address → NonGenericTypeList → NonGenericTypeList
extend_non_generic_type_list type non_generics = type ∷ non_generics

abbrev pub bind_type : TypeEnvironment → Symbol → Address → TypeEnvironment
bind_type parent id type = (id, type) ∷ parent

-- `NULL` is `none`.
unfoldable pub lookup_type : ℕ → TypeEnvironment → Symbol → Check (Option Address)
lookup_type n [] id = pure none
lookup_type n ((entry, type) ∷ parent) id = elim (entry == id) [
  | true ↦ do fresh ← make_fresh_type_exp n type; pure (some fresh)
  | false ↦ lookup_type n parent id
]

-- A row of the table of operators; `none` is the `NULL` that takes any type.
pub record OperatorEntry : Type 0 where
  pub token : TokenType
  pub left : Option Address
  pub right : Option Address
  pub result : Address

abbrev pub arithmetic : TokenType → OperatorEntry
arithmetic token = record {
  token = token;
  left = some integer_type;
  right = some integer_type;
  result = integer_type;
}

abbrev pub equality : OperatorEntry
equality = record { token = tok_equals; left = none; right = none; result = boolean_type }

abbrev pub operators : List OperatorEntry
operators =
    arithmetic tok_plus
    ∷ arithmetic tok_minus
    ∷ arithmetic tok_star
    ∷ arithmetic tok_slash
    ∷ equality
    ∷ []

-- The loop over the table, up to its last row.
unfoldable pub find_operator : List OperatorEntry → TokenType → Option OperatorEntry
find_operator [] token = none
find_operator (op ∷ ops) token = elim (same_type op.token token) [
  | true ↦ some op
  | false ↦ find_operator ops token
]

-- `_Analyze` of one expression.
abbrev pub Analysis : Type 0
Analysis = TypeEnvironment → NonGenericTypeList → Check Address

module _ (n : ℕ) (tokens : List MillieToken) where
  -- `_AnalyzeIdentifier`, once the name is looked up.
  unfoldable pub found_type : Expression → Option Address → Check Address
  found_type node none = do report_type_error tokens node "Unbound identifier"; pure error_type
  found_type node (some type) = pure type

  unfoldable pub analyze_identifier : Expression → Symbol → TypeEnvironment → Check Address
  unfolding lookup_type found_type
  analyze_identifier node id env = do type ← lookup_type n env id; found_type node type

  -- `if (op->left) { _Unify(…, left, op->left); }`
  unfoldable pub unify_operand : Expression → Address → Option Address → Check (Unit {0})
  unify_operand node type none = pure tt
  unify_operand node type (some expected) =
      unify n tokens node unify_no_valid_binary_operator type expected

  -- `_AnalyzeBinary`, once both operands are analyzed: the body of the loop for the row that
  -- matches, and the loop.
  unfoldable pub use_operator : Expression → Address → Address → OperatorEntry → Check Address
  unfolding unify_operand
  use_operator node left right op = do
    unify_operand node left op.left
    unify_operand node right op.right
    unify n tokens node unify_no_valid_binary_operator left right
    pure op.result

  unfoldable pub apply_operator : Expression → TokenType → Address → Address → Check Address
  unfolding find_operator use_operator
  apply_operator node operator left right = elim (find_operator operators operator) [
    | none ↦ stop fail_called
    | some op ↦ use_operator node left right op
  ]

  -- `_AnalyzeApply`, once the function and the argument are analyzed.
  unfoldable pub apply_function : Expression → Address → Address → Check Address
  apply_function node function_type arg_type = do
    function_error ← is_error_type function_type
    arg_error ← is_error_type arg_type
    elim (function_error || arg_error) [
      | true ↦ pure error_type
      | false ↦ do
        result_type ← make_type_var
        wanted ← make_function_type arg_type result_type
        unify n tokens node unify_invalid_function_apply wanted function_type
        pure result_type
    ]

  -- The end of `_AnalyzeLetRec`: the new variable, which is bound by now, is bound to the generic
  -- version of its type.
  unfoldable pub rebind : Address → NonGenericTypeList → Check (Unit {0})
  rebind new_type non_generics = do
    generic ← make_generic_type_exp n new_type non_generics
    variable ← load new_type
    store new_type (record variable { arg_first = to generic })

  -- The forms of expressions, with the analysis of their parts as arguments: an analysis takes an
  -- environment and the types that are not generic in it.
  unfoldable pub analyze_apply : Expression → Analysis → Analysis → Analysis
  unfolding apply_function
  analyze_apply node function argument env non_generics = do
    function_type ← function env non_generics
    arg_type ← argument env non_generics
    apply_function node function_type arg_type

  unfoldable pub analyze_lambda : Symbol → Analysis → Analysis
  analyze_lambda lambda_id body env non_generics = do
    arg_type ← make_type_var
    result_type ←
        body (bind_type env lambda_id arg_type) (extend_non_generic_type_list arg_type non_generics)
    make_function_type arg_type result_type

  unfoldable pub analyze_let : Symbol → Analysis → Analysis → Analysis
  analyze_let let_id value body env non_generics = do
    defn_type ← value env non_generics
    generic_type ← make_generic_type_exp n defn_type non_generics
    body (bind_type env let_id generic_type) non_generics

  unfoldable pub analyze_let_rec : Expression → Symbol → Analysis → Analysis → Analysis
  unfolding rebind
  analyze_let_rec node let_id value body env non_generics = do
    new_type ← make_type_var
    defn_type ←
        value (bind_type env let_id new_type) (extend_non_generic_type_list new_type non_generics)
    unify n tokens node unify_inconsistent_recursion new_type defn_type
    rebind new_type non_generics
    body (bind_type env let_id new_type) non_generics

  unfoldable pub analyze_if : Expression → Expression → Analysis → Analysis → Analysis → Analysis
  analyze_if node if_test test then_arm else_arm env non_generics = do
    cond_type ← test env non_generics
    unify n tokens if_test unify_if_condition_boolean cond_type boolean_type
    then_type ← then_arm env non_generics
    else_type ← else_arm env non_generics
    unify n tokens node unify_if_branches_same then_type else_type
    pure then_type

  unfoldable pub analyze_binary : Expression → TokenType → Analysis → Analysis → Analysis
  unfolding apply_operator
  analyze_binary node operator left right env non_generics = do
    left_type ← left env non_generics
    right_type ← right env non_generics
    apply_operator node operator left_type right_type

  unfoldable pub analyze_unary : Analysis → Analysis
  analyze_unary unary_arg env non_generics = do arg ← unary_arg env non_generics; pure arg

  unfoldable pub analyze_tuple : Analysis → Analysis → Analysis
  analyze_tuple tuple_first tuple_rest env non_generics = do
    first ← tuple_first env non_generics
    rest ← tuple_rest env non_generics
    make_tuple_type first rest

  unfoldable pub analyze_tuple_final : Analysis → Analysis
  analyze_tuple_final tuple_first env non_generics = do
    first ← tuple_first env non_generics
    make_tuple_final_type first

  unfoldable pub invalid_expression : Expression → Check Address
  invalid_expression node = do
    report_type_error tokens node "Invalid expression structure"
    pure error_type

  unfoldable pub analyze : Expression → Analysis
  unfolding analyze_identifier analyze_apply analyze_lambda analyze_let analyze_let_rec analyze_if
      analyze_binary analyze_unary analyze_tuple analyze_tuple_final invalid_expression
  analyze (exp_invalid s e) env non_generics = invalid_expression (exp_invalid s e)
  analyze (exp_error s e) env non_generics = invalid_expression (exp_error s e)
  analyze (exp_lambda s e lambda_id lambda_body) env non_generics =
      analyze_lambda lambda_id (analyze lambda_body) env non_generics
  analyze (exp_identifier s e id) env non_generics =
      analyze_identifier (exp_identifier s e id) id env
  analyze (exp_apply s e function argument) env non_generics =
      analyze_apply (exp_apply s e function argument) (analyze function) (analyze argument) env
        non_generics
  analyze (exp_let s e let_id let_value let_body) env non_generics =
      analyze_let let_id (analyze let_value) (analyze let_body) env non_generics
  analyze (exp_letrec s e let_id let_value let_body) env non_generics =
      analyze_let_rec (exp_letrec s e let_id let_value let_body) let_id (analyze let_value)
        (analyze let_body) env non_generics
  analyze (exp_integer_constant s e value) env non_generics = pure integer_type
  analyze (exp_true s e) env non_generics = pure boolean_type
  analyze (exp_false s e) env non_generics = pure boolean_type
  analyze (exp_if s e if_test if_then if_else) env non_generics =
      analyze_if (exp_if s e if_test if_then if_else) if_test (analyze if_test) (analyze if_then)
        (analyze if_else) env non_generics
  analyze (exp_binary s e operator left right) env non_generics =
      analyze_binary (exp_binary s e operator left right) operator (analyze left) (analyze right)
        env non_generics
  analyze (exp_unary s e operator arg) env non_generics =
      analyze_unary (analyze arg) env non_generics
  analyze (exp_tuple s e tuple_first tuple_rest tuple_length) env non_generics =
      analyze_tuple (analyze tuple_first) (analyze tuple_rest) env non_generics
  analyze (exp_tuple_final s e tuple_first) env non_generics =
      analyze_tuple_final (analyze tuple_first) env non_generics

  unfoldable pub get_expression_type : Expression → Check Address
  unfolding analyze
  get_expression_type node = analyze node [] []
