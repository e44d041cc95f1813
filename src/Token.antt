-- ===== src/Token.antt =====
-- platform.h, the lexer's part: the token types with their places in the enumeration, and tokens.
use millie.Prelude.{ℕ, Bool, ◌&&◌, leb, ◌==◌, List}

-- `MILLIE_TOKEN`. `TOK_FIRST_PRIMARY` is `TOK_ID`, and `TOK_LAST_PRIMARY` is `TOK_LPAREN`.
pub data TokenType : Type 0 where
  tok_eof tok_id tok_int_literal tok_true tok_false tok_lparen tok_plus tok_minus : TokenType
  tok_rparen tok_fn tok_if tok_in tok_star tok_slash tok_equals tok_arrow : TokenType
  tok_let tok_rec tok_then tok_else tok_comma : TokenType

-- The number that C gives to each enumerator.
abbrev pub ordinal : TokenType → ℕ
ordinal tok_eof = 0
ordinal tok_id = 1
ordinal tok_int_literal = 2
ordinal tok_true = 3
ordinal tok_false = 4
ordinal tok_lparen = 5
ordinal tok_plus = 6
ordinal tok_minus = 7
ordinal tok_rparen = 8
ordinal tok_fn = 9
ordinal tok_if = 10
ordinal tok_in = 11
ordinal tok_star = 12
ordinal tok_slash = 13
ordinal tok_equals = 14
ordinal tok_arrow = 15
ordinal tok_let = 16
ordinal tok_rec = 17
ordinal tok_then = 18
ordinal tok_else = 19
ordinal tok_comma = 20

-- `==` on enumerators.
abbrev pub same_type : TokenType → TokenType → Bool
same_type a b = ordinal a == ordinal b

-- `TOK_FIRST_PRIMARY <= t && t <= TOK_LAST_PRIMARY`
abbrev pub is_primary : TokenType → Bool
is_primary t = leb (ordinal tok_id) (ordinal t) && leb (ordinal t) (ordinal tok_lparen)

pub record MillieToken : Type 0 where
  pub type : TokenType
  pub start : ℕ
  pub length : ℕ

-- `struct MillieTokens`: the arrays of tokens and of the positions of newlines, and the text.
pub record MillieTokens : Type 0 where
  pub token_array : List MillieToken
  pub line_array : List ℕ
  pub buffer : List ℕ
