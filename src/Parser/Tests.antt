-- ===== src/Parser/Tests.antt =====
-- Runs of the parser on small token arrays, and its theorems at these inputs.
use millie.Lexer.Total.{IsReadable}
use millie.Lexer.{lex_buffer}
use millie.Parser.Lexed.{parse_expression-lex_buffer}
use millie.Prelude.{ℕ, ◌+◌, ◌%◌, ◌^◌, ◌≡◌, refl, false, List, [], ◌∷◌, some, arith, inl, inr}
use millie.Errors.{Errors}
use millie.Token.{
  TokenType, tok_eof, tok_int_literal, tok_id, tok_plus, tok_star, tok_rparen, MillieToken,
  MillieTokens,
}
use millie.Ast.{Symbol, Expression, exp_binary, exp_integer_constant, exp_identifier}
use millie.Parser.{
  Bytes, ParseContext, literal_value, match_token, match_either, expect, parse_symbol, syntax_error,
  syntax_error_token,
}
use millie.Parser.Grammar.{Parse, parse_int_literal, parse_identifier, parse_expr, parse_expression}
use millie.Parser.Total.{parse_expression-total}
use millie.Parser.Literal.{decimal, literal_value-decimal, literal_value-modulo}

-- A symbol table that gives one name its first byte as its number.
abbrev first_byte : ℕ → Bytes → Symbol × ℕ
first_byte table [] = (0, table)
first_byte table (c ∷ _) = (c, table + 1)

abbrev token : TokenType → ℕ → ℕ → MillieToken
token t pos len = record { type = t; start = pos; length = len }

-- 1+x*2
abbrev sum : MillieTokens
sum = record {
  token_array =
      token tok_int_literal 0 1
      ∷ token tok_plus 1 1
      ∷ token tok_id 2 1
      ∷ token tok_star 3 1
      ∷ token tok_int_literal 4 1
      ∷ token tok_eof 5 0
      ∷ [];
  line_array = [];
  buffer = b'1' ∷ b'+' ∷ b'x' ∷ b'*' ∷ b'2' ∷ [];
}

-- The tree, the errors and the position.
abbrev view : Parse first_byte → List (Expression × Errors × ℕ)
view (some (e, c)) = (e, c.errors, c.pos) ∷ []
view _ = []

parse : MillieTokens → Parse first_byte
unfolding parse_expression parse_expr parse_int_literal parse_identifier literal_value match_token
    match_either expect parse_symbol syntax_error syntax_error_token
parse tokens = parse_expression first_byte tokens 0 []

parse-sum :
    view (parse sum)
    ≡ (
      exp_binary 0 4 tok_plus
          (exp_integer_constant 0 0 1)
          (exp_binary 2 4 tok_star (exp_identifier 2 2 b'x') (exp_integer_constant 4 4 2)),
      [],
      5,
    )
      ∷ []
unfolding parse
parse-sum = refl

-- What follows a whole expression is not looked at: here a closing parenthesis.
parse_trailing :
    view (
      parse (record sum {
        token_array = token tok_int_literal 0 1 ∷ token tok_rparen 1 1 ∷ token tok_eof 2 0 ∷ [];
      }))
    ≡ (exp_integer_constant 0 0 1, [], 1) ∷ []
unfolding parse
parse_trailing = refl

parse_expression-total_example :
    (e : Expression) × (c : ParseContext ℕ) × (parse_expression first_byte sum 0 [] ≡ some (e, c))
parse_expression-total_example = parse_expression-total first_byte sum 0 [] (record {
  last = 5;
  end = token tok_eof 5 0;
  ends = refl;
  is_end = refl;
  in_text =
      (omega arith, (omega arith, (omega arith, (omega arith, (omega arith, (omega arith, tt))))));
  within = omega arith;
})

literal_value-decimal_example : literal_value (b'4' ∷ b'2' ∷ []) 0 ≡ (42, false)
literal_value-decimal_example =
    literal_value-decimal (b'4' ∷ b'2' ∷ []) 0 (omega arith) (omega arith)

-- 30000000000000000000 is read as 11553255926290448384.
literal_value_wraps :
    literal_value
      (b'3' ∷ b'0' ∷ b'0' ∷ b'0' ∷ b'0' ∷ b'0' ∷ b'0' ∷ b'0' ∷ b'0' ∷ b'0' ∷ b'0' ∷ b'0' ∷ b'0'
        ∷ b'0' ∷ b'0' ∷ b'0' ∷ b'0' ∷ b'0' ∷ b'0' ∷ b'0' ∷ [])
      0
    ≡ (30000000000000000000 % 2 ^ 64, false)
unfolding literal_value
literal_value_wraps = refl

literal_value-modulo_example :
    11553255926290448384 % 2 ^ 64
    ≡ decimal
        (b'3' ∷ b'0' ∷ b'0' ∷ b'0' ∷ b'0' ∷ b'0' ∷ b'0' ∷ b'0' ∷ b'0' ∷ b'0' ∷ b'0' ∷ b'0' ∷ b'0'
          ∷ b'0' ∷ b'0' ∷ b'0' ∷ b'0' ∷ b'0' ∷ b'0' ∷ b'0' ∷ [])
        0
      % 2 ^ 64
literal_value-modulo_example =
    literal_value-modulo
      (b'3' ∷ b'0' ∷ b'0' ∷ b'0' ∷ b'0' ∷ b'0' ∷ b'0' ∷ b'0' ∷ b'0' ∷ b'0' ∷ b'0' ∷ b'0' ∷ b'0'
        ∷ b'0' ∷ b'0' ∷ b'0' ∷ b'0' ∷ b'0' ∷ b'0' ∷ b'0' ∷ [])
      0 11553255926290448384 (omega arith) literal_value_wraps

-- `1+` with a newline, in which an operand is missing, and a comment.
abbrev unfinished_sum : Bytes
unfinished_sum = b'1' ∷ b'+' ∷ b'#' ∷ b'x' ∷ 10 ∷ []

unfinished_sum-IsReadable : IsReadable unfinished_sum
unfinished_sum-IsReadable = (
  omega arith,
  λ e. absurd (omega arith),
  (
    omega arith,
    λ e. absurd (omega arith),
    (
      omega arith,
      λ _. inr (inl refl),
      (omega arith, λ e. absurd (omega arith), (omega arith, λ e. absurd (omega arith), tt)),
    ),
  ),
)

parse_expression-lex_buffer_example :
    (tokens : MillieTokens) × (errors : Errors) × (lex_buffer unfinished_sum
      ≡ some (tokens, errors))
    × (e : Expression) × (c : ParseContext ℕ) × (parse_expression first_byte tokens 0 errors
        ≡ some (e, c))
parse_expression-lex_buffer_example =
    parse_expression-lex_buffer first_byte 0 unfinished_sum unfinished_sum-IsReadable
