-- ===== src/Ast.antt =====
-- ast.c and platform.h, the part of the syntax tree. Every node carries the numbers of its first
-- and its last token. `Symbol` is the number by which the symbol table knows a name.
use millie.Prelude.{ℕ, Bool, true, false}
use millie.Token.{TokenType}

abbrev pub Symbol : Type 0
Symbol = ℕ

abbrev pub invalid_symbol : Symbol
invalid_symbol = 0

-- `struct Expression`. The first two numbers of a node are `start_token` and `end_token`.
pub data Expression : Type 0 where
  exp_invalid : ℕ → ℕ → Expression
  exp_error : ℕ → ℕ → Expression
  exp_lambda : ℕ → ℕ → Symbol → Expression → Expression
  exp_identifier : ℕ → ℕ → Symbol → Expression
  exp_apply : ℕ → ℕ → Expression → Expression → Expression
  exp_let : ℕ → ℕ → Symbol → Expression → Expression → Expression
  exp_letrec : ℕ → ℕ → Symbol → Expression → Expression → Expression
  exp_integer_constant : ℕ → ℕ → ℕ → Expression
  exp_true : ℕ → ℕ → Expression
  exp_false : ℕ → ℕ → Expression
  exp_if : ℕ → ℕ → Expression → Expression → Expression → Expression
  exp_binary : ℕ → ℕ → TokenType → Expression → Expression → Expression
  exp_unary : ℕ → ℕ → TokenType → Expression → Expression
  exp_tuple : ℕ → ℕ → Expression → Expression → ℕ → Expression
  exp_tuple_final : ℕ → ℕ → Expression → Expression

abbrev pub start_token : Expression → ℕ
start_token (exp_invalid s _) = s
start_token (exp_error s _) = s
start_token (exp_lambda s _ _ _) = s
start_token (exp_identifier s _ _) = s
start_token (exp_apply s _ _ _) = s
start_token (exp_let s _ _ _ _) = s
start_token (exp_letrec s _ _ _ _) = s
start_token (exp_integer_constant s _ _) = s
start_token (exp_true s _) = s
start_token (exp_false s _) = s
start_token (exp_if s _ _ _ _) = s
start_token (exp_binary s _ _ _ _) = s
start_token (exp_unary s _ _ _) = s
start_token (exp_tuple s _ _ _ _) = s
start_token (exp_tuple_final s _ _) = s

abbrev pub end_token : Expression → ℕ
end_token (exp_invalid _ e) = e
end_token (exp_error _ e) = e
end_token (exp_lambda _ e _ _) = e
end_token (exp_identifier _ e _) = e
end_token (exp_apply _ e _ _) = e
end_token (exp_let _ e _ _ _) = e
end_token (exp_letrec _ e _ _ _) = e
end_token (exp_integer_constant _ e _) = e
end_token (exp_true _ e) = e
end_token (exp_false _ e) = e
end_token (exp_if _ e _ _ _) = e
end_token (exp_binary _ e _ _ _) = e
end_token (exp_unary _ e _ _) = e
end_token (exp_tuple _ e _ _ _) = e
end_token (exp_tuple_final _ e _) = e

abbrev pub make_syntax_error : ℕ → Expression
make_syntax_error position = exp_error position position

abbrev pub make_lambda : ℕ → Symbol → Expression → Expression
make_lambda start variable body = exp_lambda start (end_token body) variable body

abbrev pub make_identifier : ℕ → Symbol → Expression
make_identifier token_pos id = exp_identifier token_pos token_pos id

abbrev pub make_apply : Expression → Expression → Expression
make_apply func_expr arg_expr =
    exp_apply (start_token func_expr) (end_token arg_expr) func_expr arg_expr

abbrev pub make_let : ℕ → Symbol → Expression → Expression → Expression
make_let let_pos variable value body = exp_let let_pos (end_token body) variable value body

abbrev pub make_let_rec : ℕ → Symbol → Expression → Expression → Expression
make_let_rec let_pos variable value body = exp_letrec let_pos (end_token body) variable value body

abbrev pub make_if : ℕ → Expression → Expression → Expression → Expression
make_if if_pos test then_branch else_branch =
    exp_if if_pos (end_token else_branch) test then_branch else_branch

abbrev pub make_binary : TokenType → Expression → Expression → Expression
make_binary op left right = exp_binary (start_token left) (end_token right) op left right

abbrev pub make_unary : ℕ → TokenType → Expression → Expression
make_unary operator_pos op arg = exp_unary operator_pos (end_token arg) op arg

abbrev pub make_boolean_literal : ℕ → Bool → Expression
make_boolean_literal pos true = exp_true pos pos
make_boolean_literal pos false = exp_false pos pos

abbrev pub make_integer_literal : ℕ → ℕ → Expression
make_integer_literal pos value = exp_integer_constant pos pos value

abbrev pub make_tuple : Expression → Expression → ℕ → Expression
make_tuple first rest length = exp_tuple (start_token first) (end_token rest) first rest length

abbrev pub make_tuple_final : Expression → Expression
make_tuple_final expr = exp_tuple_final (start_token expr) (end_token expr) expr
