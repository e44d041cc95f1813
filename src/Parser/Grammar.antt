-- ===== src/Parser/Grammar.antt =====
-- parser.c, the productions, over the symbol table's operation. The functions call one another
-- without an argument that shrinks, so they take fuel: a call of another production costs one.
-- `none` means that the fuel ran out, or a read outside of the tokens or of the text; Parser/Total
-- excludes both.
use millie.Prelude.{
  ℕ, zero, suc, ◌+◌, ◌*◌, true, false, Option, none, some, if◌then◌else◌, ◌>>=◌, length,
}
use millie.Errors.{Errors}
use millie.Token.{
  tok_id, tok_int_literal, tok_true, tok_false, tok_lparen, tok_plus, tok_minus, tok_rparen, tok_fn,
  tok_if, tok_in, tok_star, tok_slash, tok_equals, tok_arrow, tok_let, tok_rec, tok_then, tok_else,
  tok_comma, is_primary, MillieTokens,
}
use millie.Ast.{
  Symbol, Expression, exp_tuple, make_syntax_error, make_lambda, make_identifier, make_apply,
  make_let, make_let_rec, make_if, make_binary, make_unary, make_boolean_literal,
  make_integer_literal, make_tuple, make_tuple_final,
}
use millie.Parser.{
  Bytes, ParseContext, peek_token, prev_token_struct, prev_token, prev_pos, check,
  syntax_error_token, syntax_error, token_text, match_either, match_token, expect, parse_symbol,
  literal_value,
}

-- `rest->type == EXP_TUPLE ? rest->tuple_length + 1 : 2`
abbrev pub tuple_length_with : Expression → ℕ
tuple_length_with (exp_tuple _ _ _ _ length) = length + 1
tuple_length_with _ = 2

module _ {Table : Type 0} (find_or_create_symbol : Table → Bytes → Symbol × Table) where
  abbrev pub Parse : Type 0
  Parse = Option (Expression × ParseContext Table)

  -- The case of `TOK_INT_LITERAL`, behind its token.
  unfoldable pub parse_int_literal : ParseContext Table → Parse
  parse_int_literal c = prev_token_struct c >>= λ token. token_text c.buffer token >>= λ str.
      (let value = literal_value str 0 in
        some (
          make_integer_literal (prev_pos c) value.0,
          if value.1 then syntax_error_token c token "Integer literal overflow" else c,
        ))

  -- The case of `TOK_ID`.
  unfoldable pub parse_identifier : ParseContext Table → Parse
  parse_identifier c =
      parse_symbol find_or_create_symbol c >>= λ r. some (make_identifier (prev_pos r.1) r.0, r.1)

  unfoldable mutual
    pub parse_tuple_next : ℕ → Expression → ParseContext Table → Parse
    parse_tuple_next zero first c = none
    parse_tuple_next (suc f) first c = do
      (rest, c₁) ← parse_tuple f c
      some (make_tuple first rest (tuple_length_with rest), c₁)

    pub parse_tuple : ℕ → ParseContext Table → Parse
    parse_tuple zero c = none
    parse_tuple (suc f) c = do
      (car, c₁) ← parse_expr f c
      match_token c₁ tok_comma >>= λ m. elim m [
        | some c₂ ↦ parse_tuple_next f car c₂
        | none ↦ some (make_tuple_final car, c₁)
      ]

    pub parse_paren : ℕ → ParseContext Table → Parse
    parse_paren zero c = none
    parse_paren (suc f) c = do
      (expr, c₁) ← parse_expr f c
      (expr', c₂) ← match_token c₁ tok_comma >>= λ m. elim m [
        | some c₂ ↦ parse_tuple_next f expr c₂
        | none ↦ some (expr, c₁)
      ]
      c₃ ← expect c₂ tok_rparen "Expected a ')' after the expression."
      some (expr', c₃)

    pub parse_primary : ℕ → ParseContext Table → Parse
    parse_primary zero c = none
    parse_primary (suc f) c = match_token c tok_false >>= λ m. elim m [
      | some c₁ ↦ some (make_boolean_literal (prev_pos c₁) false, c₁)
      | none ↦ match_token c tok_true >>= λ m. elim m [
        | some c₁ ↦ some (make_boolean_literal (prev_pos c₁) true, c₁)
        | none ↦ match_token c tok_int_literal >>= λ m. elim m [
          | some c₁ ↦ parse_int_literal c₁
          | none ↦ check c tok_id >>= λ is_id. elim is_id [
            | true ↦ parse_identifier c
            | false ↦ match_token c tok_lparen >>= λ m. elim m [
              | some c₁ ↦ parse_paren f c₁
              | none ↦ syntax_error c "Expected an expression." >>= λ c₁.
                  some (make_syntax_error c₁.pos, c₁)
            ]
          ]
        ]
      ]
    ]

    pub parse_arguments : ℕ → Expression → ParseContext Table → Parse
    parse_arguments zero expr c = none
    parse_arguments (suc f) expr c = peek_token c >>= λ t. elim (is_primary t) [
      | true ↦ do (arg, c₁) ← parse_primary f c; parse_arguments f (make_apply expr arg) c₁
      | false ↦ some (expr, c)
    ]

    pub parse_application : ℕ → ParseContext Table → Parse
    parse_application zero c = none
    parse_application (suc f) c = do (expr, c₁) ← parse_primary f c; parse_arguments f expr c₁

    pub parse_unary : ℕ → ParseContext Table → Parse
    parse_unary zero c = none
    parse_unary (suc f) c = match_either c tok_plus tok_minus >>= λ m. elim m [
      | some c₁ ↦ do
        operator ← prev_token c₁
        (right, c₂) ← parse_unary f c₁
        some (make_unary (prev_pos c₁) operator right, c₂)
      | none ↦ parse_application f c
    ]

    pub parse_factors : ℕ → Expression → ParseContext Table → Parse
    parse_factors zero expr c = none
    parse_factors (suc f) expr c = match_either c tok_star tok_slash >>= λ m. elim m [
      | some c₁ ↦ do
        operator ← prev_token c₁
        (right, c₂) ← parse_unary f c₁
        parse_factors f (make_binary operator expr right) c₂
      | none ↦ some (expr, c)
    ]

    pub parse_factor : ℕ → ParseContext Table → Parse
    parse_factor zero c = none
    parse_factor (suc f) c = do (expr, c₁) ← parse_unary f c; parse_factors f expr c₁

    pub parse_terms : ℕ → Expression → ParseContext Table → Parse
    parse_terms zero expr c = none
    parse_terms (suc f) expr c = match_either c tok_plus tok_minus >>= λ m. elim m [
      | some c₁ ↦ do
        operator ← prev_token c₁
        (right, c₂) ← parse_factor f c₁
        parse_terms f (make_binary operator expr right) c₂
      | none ↦ some (expr, c)
    ]

    pub parse_term : ℕ → ParseContext Table → Parse
    parse_term zero c = none
    parse_term (suc f) c = do (expr, c₁) ← parse_factor f c; parse_terms f expr c₁

    pub parse_comparisons : ℕ → Expression → ParseContext Table → Parse
    parse_comparisons zero expr c = none
    parse_comparisons (suc f) expr c = match_token c tok_equals >>= λ m. elim m [
      | some c₁ ↦ do
        operator ← prev_token c₁
        (right, c₂) ← parse_term f c₁
        parse_comparisons f (make_binary operator expr right) c₂
      | none ↦ some (expr, c)
    ]

    pub parse_comparison : ℕ → ParseContext Table → Parse
    parse_comparison zero c = none
    parse_comparison (suc f) c = do (expr, c₁) ← parse_term f c; parse_comparisons f expr c₁

    pub parse_fn : ℕ → ParseContext Table → Parse
    parse_fn zero c = none
    parse_fn (suc f) c = match_token c tok_fn >>= λ m. elim m [
      | some c₁ ↦ parse_symbol find_or_create_symbol c₁ >>= λ r.
          expect r.1 tok_arrow "Expected an => between variable and function body." >>= λ c₃.
          parse_expr f c₃ >>= λ b. some (make_lambda (prev_pos c₁) r.0 b.0, b.1)
      | none ↦ parse_comparison f c
    ]

    pub parse_if : ℕ → ParseContext Table → Parse
    parse_if zero c = none
    parse_if (suc f) c = match_token c tok_if >>= λ m. elim m [
      | some c₁ ↦ do
        (test, c₂) ← parse_expr f c₁
        behind_then ← expect c₂ tok_then "Expected 'then' after the condition."
        (then_arm, c₃) ← parse_expr f behind_then
        behind_else ← expect c₃ tok_else "Expected 'else' after the 'then' arm."
        (else_arm, c₄) ← parse_expr f behind_else
        some (make_if (prev_pos c₁) test then_arm else_arm, c₄)
      | none ↦ parse_fn f c
    ]

    -- What follows `let` or `let rec`.
    pub parse_binding :
        ℕ → ℕ → (ℕ → Symbol → Expression → Expression → Expression) → ParseContext Table → Parse
    parse_binding zero token_pos make c = none
    parse_binding (suc f) token_pos make c = parse_symbol find_or_create_symbol c >>= λ r.
        expect r.1 tok_equals "Expected an '=' after the variable in the let." >>= λ c₁.
        parse_expr f c₁ >>= λ v.
        expect v.1 tok_in "Expected an 'in' after the variable value in the let." >>= λ c₂.
        parse_expr f c₂ >>= λ b. some (make token_pos r.0 v.0 b.0, b.1)

    pub parse_let : ℕ → ParseContext Table → Parse
    parse_let zero c = none
    parse_let (suc f) c = match_token c tok_let >>= λ m. elim m [
      | some c₁ ↦ match_token c₁ tok_rec >>= λ m. elim m [
        | some c₂ ↦ parse_binding f (prev_pos c₁) make_let_rec c₂
        | none ↦ parse_binding f (prev_pos c₁) make_let c₁
      ]
      | none ↦ parse_if f c
    ]

    pub parse_expr : ℕ → ParseContext Table → Parse
    parse_expr zero c = none
    parse_expr (suc f) c = parse_let f c

  abbrev pub start_context : MillieTokens → Table → Errors → ParseContext Table
  start_context tokens symbol_table errors = record {
    buffer = tokens.buffer;
    tokens = tokens.token_array;
    table = symbol_table;
    errors = errors;
    pos = 0;
    lost_count = 0;
  }

  -- `ParseExpression`: the tree, and the context with the table and the errors.
  unfoldable pub parse_expression : MillieTokens → Table → Errors → Parse
  parse_expression tokens symbol_table errors =
      parse_expr (16 * length tokens.token_array + 16) (start_context tokens symbol_table errors)
