-- ===== src/Lexer.antt =====
-- lexer.c: from bytes to tokens. A pointer into the buffer is its distance from the start together
-- with the bytes from there up to `limit`; the buffer's terminating NUL stands behind them. `none`
-- is a read outside of an object. Positions are below 2^32, as `MStringLength` is.
pub mod Round
pub mod Keywords
pub mod Cases
pub mod Moves
pub mod Output
pub mod Total
pub mod Faults
mod Tests
use millie.Prelude.{
  ℕ, zero, suc, ◌+◌, ◌-◌, ◌^◌, Bool, true, false, not, ◌&&◌, ◌||◌, List, [], ◌∷◌, ◌++◌, Option,
  none, some, leb, ◌==◌, if◌then◌else◌, ◌>>=◌, length, drop,
}
use millie.Errors.{Errors, add_error}
use millie.Token.{
  TokenType, tok_eof, tok_id, tok_int_literal, tok_true, tok_false, tok_lparen, tok_plus, tok_minus,
  tok_rparen, tok_fn, tok_if, tok_in, tok_star, tok_slash, tok_equals, tok_arrow, tok_let, tok_rec,
  tok_then, tok_else, tok_comma, MillieToken, MillieTokens,
}

abbrev pub Bytes : Type 0
Bytes = List ℕ

abbrev pub uint_max : ℕ
uint_max = 2 ^ 32 - 1

pub record KeywordToken : Type 0 where
  pub str : Bytes
  pub token : TokenType

-- The lexer's variables: `ptr` is `pos` and `rest`.
pub record LexState : Type 0 where
  pub rest : Bytes
  pub pos : ℕ
  pub token_array : List MillieToken
  pub line_array : List ℕ
  pub errors : Errors
  pub error_start : ℕ

-- `*ptr`, which is the terminating NUL at the end.
abbrev pub peek : Bytes → ℕ
peek [] = 0
peek (c ∷ _) = c

abbrev pub advance : ℕ → LexState → LexState
advance n s = record s { rest = drop n s.rest; pos = s.pos + n }

abbrev pub add_token : LexState → TokenType → ℕ → ℕ → LexState
add_token s type start length = record s {
  token_array = s.token_array ++ (record { type = type; start = start; length = length } ∷ []);
}

unfoldable pub is_digit : ℕ → Bool
is_digit c = leb b'0' c && leb c b'9'

unfoldable pub is_identifier_character : ℕ → Bool
is_identifier_character c =
    (leb b'0' c && leb c b'9')
    || (leb b'A' c && leb c b'Z')
    || (leb b'a' c && leb c b'z')
    || c == b'_'
    || c == 39
    || c == 34

unfoldable pub is_identifier_start : ℕ → Bool
is_identifier_start c = (leb b'A' c && leb c b'Z') || (leb b'a' c && leb c b'z') || c == b'_'

-- The loop `while (ptr < limit && p(*ptr)) ptr++`: how far it goes.
unfoldable pub span : (ℕ → Bool) → Bytes → ℕ
span p [] = 0
span p (c ∷ cs) = let n = span p cs in if p c then suc n else 0

unfoldable pub add_integer_literal : LexState → LexState
add_integer_literal s =
    let n = span is_digit s.rest in advance n (add_token s tok_int_literal s.pos n)

unfoldable pub add_identifier_token : LexState → LexState
add_identifier_token s =
    let n = span is_identifier_character s.rest in advance n (add_token s tok_id s.pos n)

-- A round of the loop below in which the bytes agree.
abbrev pub one_more : Option (Bytes × ℕ) → Option (Bytes × ℕ)
one_more none = none
one_more (some (left, n)) = some (left, suc n)

-- The comparing loop of `_TryAddKeyword`: what is left of the keyword, and how many bytes agree.
-- A NUL byte in the text agrees with the keyword's own, and `keyword_str` leaves its literal.
unfoldable pub match_keyword : Bytes → Bytes → Option (Bytes × ℕ)
match_keyword kw [] = some (kw, 0)
match_keyword [] (c ∷ cs) = if c == 0 then none else some ([], 0)
match_keyword (k ∷ kw) (c ∷ cs) =
    if c == k then one_more (match_keyword kw cs) else some (k ∷ kw, 0)

abbrev pub is_nil : Bytes → Bool
is_nil [] = true
is_nil (_ ∷ _) = false

-- `*keyword_str == '\0' && !_IsIdentifierCharacter(*ptr)`
abbrev pub whole_word : Bytes → Bytes → Bool
whole_word left behind = is_nil left && not (is_identifier_character (peek behind))

unfoldable pub try_add_keyword : KeywordToken → LexState → Option (Bool × LexState)
try_add_keyword keyword s = match_keyword keyword.str s.rest >>= λ m.
    if whole_word m.0 (drop m.1 s.rest)
    then some (true, advance m.1 (add_token s keyword.token s.pos m.1))
    else some (false, s)

unfoldable pub try_add_keywords : List KeywordToken → LexState → Option (Bool × LexState)
try_add_keywords [] s = some (false, s)
try_add_keywords (keyword ∷ keywords) s = try_add_keyword keyword s >>= λ r. elim r.0 [
  | true ↦ some r
  | false ↦ try_add_keywords keywords s
]

-- `if (!_TryAddKeywords(kws, …)) { _AddIdentifierToken(…); }`
unfoldable pub keyword_or_identifier : List KeywordToken → LexState → Option LexState
keyword_or_identifier kws s =
    try_add_keywords kws s >>= λ r. some (if r.0 then r.1 else add_identifier_token r.1)

abbrev keyword : Bytes → TokenType → KeywordToken
keyword str token = record { str = str; token = token }

-- The keywords that begin with this letter, in the order in which they are tried.
abbrev pub keywords_of : ℕ → List KeywordToken
keywords_of c =
    if c == b'e'
    then keyword (b'e' ∷ b'l' ∷ b's' ∷ b'e' ∷ []) tok_else ∷ []
    else if c == b'f'
    then keyword (b'f' ∷ b'a' ∷ b'l' ∷ b's' ∷ b'e' ∷ []) tok_false
      ∷ keyword (b'f' ∷ b'n' ∷ []) tok_fn
      ∷ []
    else if c == b'i'
    then keyword (b'i' ∷ b'f' ∷ []) tok_if ∷ keyword (b'i' ∷ b'n' ∷ []) tok_in ∷ []
    else if c == b'l'
    then keyword (b'l' ∷ b'e' ∷ b't' ∷ []) tok_let ∷ []
    else if c == b'r'
    then keyword (b'r' ∷ b'e' ∷ b'c' ∷ []) tok_rec ∷ []
    else keyword (b't' ∷ b'h' ∷ b'e' ∷ b'n' ∷ []) tok_then
      ∷ keyword (b't' ∷ b'r' ∷ b'u' ∷ b'e' ∷ []) tok_true
      ∷ []

abbrev pub starts_keyword : ℕ → Bool
starts_keyword c = c == b'e' || c == b'f' || c == b'i' || c == b'l' || c == b'r' || c == b't'

abbrev pub further : Option ℕ → Option ℕ
further none = none
further (some n) = some (suc n)

-- `while (*ptr != '\n') { ptr++; }`: nothing stops it at the end of the buffer.
unfoldable pub comment_length : Bytes → Option ℕ
comment_length [] = none
comment_length (c ∷ cs) = if c == b'\n' then some 0 else further (comment_length cs)

-- The cases of one byte and one token type.
abbrev pub punctuation : ℕ → Option TokenType
punctuation c =
    if c == b'('
    then some tok_lparen
    else if c == b')'
    then some tok_rparen
    else if c == b'+'
    then some tok_plus
    else if c == b'-'
    then some tok_minus
    else if c == b'*'
    then some tok_star
    else if c == b'/'
    then some tok_slash
    else if c == b','
    then some tok_comma
    else none

abbrev pub is_blank : ℕ → Bool
is_blank c = c == b' ' || c == b'\t' || c == b'\r'

-- The case of `=`, which `=>` shares.
unfoldable pub scan_equals : LexState → LexState
scan_equals s =
    if peek (drop 1 s.rest) == b'>'
    then advance 2 (add_token s tok_arrow s.pos 2)
    else advance 1 (add_token s tok_equals s.pos 1)

-- The cases behind the punctuation, for `c = *ptr`, with `error_now`.
unfoldable pub scan_other : ℕ → LexState → Option (Bool × LexState)
scan_other c s =
    if c == b'='
    then some (false, scan_equals s)
    else if is_blank c
    then some (false, advance 1 s)
    else if c == b'\n'
    then some (false, advance 1 (record s { line_array = s.line_array ++ s.pos ∷ [] }))
    else if c == b'#'
    then comment_length s.rest >>= (λ n. some (false, advance n s))
    else if starts_keyword c
    then keyword_or_identifier (keywords_of c) s >>= (λ s'. some (false, s'))
    else if is_digit c
    then some (false, add_integer_literal s)
    else if is_identifier_start c
    then some (false, add_identifier_token s)
    else some (true, advance 1 s)

-- The `switch`.
unfoldable pub scan : ℕ → LexState → Option (Bool × LexState)
scan c s = elim (punctuation c) [
  | some type ↦ some (false, advance 1 (add_token s type s.pos 1))
  | none ↦ scan_other c s
]

-- The error state machine behind it; `pos` is where the byte or token began.
unfoldable pub track_error : ℕ → Bool → LexState → LexState
track_error pos error_now s =
    if error_now
    then (if s.error_start == uint_max then record s { error_start = pos } else s)
    else if not (s.error_start == uint_max)
    then record s {
      errors = add_error s.errors s.error_start pos "Unexpected characters";
      error_start = uint_max;
    }
    else s

unfoldable pub step : ℕ → LexState → Option LexState
step c s = scan c s >>= λ r. some (track_error s.pos r.0 r.1)

-- Out of rounds: the loop is over if nothing is left.
abbrev pub ended : Bytes → LexState → Option LexState
ended [] s = some s
ended (_ ∷ _) s = none

-- The test of the loop, its body, and what follows.
abbrev pub round : Bytes → LexState → (LexState → Option LexState) → Option LexState
round [] s go_on = some s
round (c ∷ _) s go_on = step c s >>= go_on

-- The loop, with a bound on its rounds.
unfoldable pub run : ℕ → LexState → Option LexState
run zero s = ended s.rest s
run (suc fuel) s = round s.rest s (run fuel)

abbrev pub initial : Bytes → LexState
initial text = record {
  rest = text;
  pos = 0;
  token_array = [];
  line_array = [];
  errors = [];
  error_start = uint_max;
}

-- `LexBuffer`. Each round moves on by a byte at least, so a round for each byte is enough.
unfoldable pub lex_buffer : Bytes → Option (MillieTokens × Errors)
lex_buffer text = run (length text) (initial text) >>= λ s. some (
  record {
    token_array =
        s.token_array ++ (record { type = tok_eof; start = length text; length = 0 } ∷ []);
    line_array = s.line_array;
    buffer = text;
  },
  s.errors,
)
