-- ===== src/Parser.antt =====
-- parser.c, the helpers: the parse context, looking at tokens, matching them, syntax errors,
-- identifiers and integer literals. The productions are in Parser/Grammar.
pub mod Grammar
pub mod Remaining
pub mod Productions
pub mod Total
pub mod Lexed
pub mod Literal
mod Tests
use Prim.Native.String.{String}
use millie.Prelude.{
  ℕ, ◌+◌, ◌-◌, ◌*◌, ◌%◌, ◌^◌, Bool, true, false, not, ◌&&◌, List, [], ◌∷◌, Option, none, some, ltb,
  leb, ◌==◌, if◌then◌else◌, ◌>>=◌, length, get_elem?, take, drop,
}
use millie.Errors.{Errors, add_error}
use millie.Token.{TokenType, tok_eof, tok_id, same_type, MillieToken}
use millie.Ast.{Symbol, invalid_symbol}

abbrev pub Bytes : Type 0
Bytes = List ℕ

-- `struct ParseContext`, over the symbol table's type. The arena is not modelled.
pub record ParseContext (Table : Type 0) : Type 0 where
  pub buffer : Bytes
  pub tokens : List MillieToken
  pub table : Table
  pub errors : Errors
  pub pos : ℕ
  pub lost_count : ℕ

-- An element of the token array; a read outside of it is a fault.
abbrev pub token_at : List MillieToken → ℕ → Option MillieToken
token_at tokens i = get_elem? tokens i

-- The bytes of a token, which lie in the text or are a fault.
abbrev pub token_text : Bytes → MillieToken → Option Bytes
token_text buffer token =
    if leb (token.start + token.length) (length buffer)
    then some (take token.length (drop token.start buffer))
    else none

abbrev pub resync_tokens : ℕ
resync_tokens = 4

-- Whether a token matched, and then the context behind it.
abbrev pub Match : Type 0 → Type 0
Match Table = Option (Option (ParseContext Table))

abbrev pub matched : {Table : Type 0} → Option (ParseContext Table) → Match Table
matched o = o >>= λ c. some (some c)

module _ {Table : Type 0} where
  abbrev pub peek_token : ParseContext Table → Option TokenType
  peek_token c = token_at c.tokens c.pos >>= λ t. some t.type

  abbrev pub prev_token_struct : ParseContext Table → Option MillieToken
  prev_token_struct c = if c.pos == 0 then none else token_at c.tokens (c.pos - 1)

  abbrev pub prev_token : ParseContext Table → Option TokenType
  prev_token c = prev_token_struct c >>= λ t. some t.type

  -- This is called only when a token has been passed.
  abbrev pub prev_pos : ParseContext Table → ℕ
  prev_pos c = c.pos - 1

  abbrev pub is_at_end : ParseContext Table → Option Bool
  is_at_end c = peek_token c >>= λ t. some (same_type t tok_eof)

  -- The previous token is returned, and no caller looks at it.
  abbrev pub advance : ParseContext Table → Option (ParseContext Table)
  advance c = is_at_end c >>= λ ended.
      (let c' = if not ended then record c { pos = c.pos + 1 } else c in
        prev_token c' >>= λ _. some c')

  abbrev pub check : ParseContext Table → TokenType → Option Bool
  check c token = is_at_end c >>= λ ended.
      if ended then some false else (peek_token c >>= λ t. some (same_type t token))

  unfoldable pub syntax_error_token : ParseContext Table → MillieToken → String → ParseContext Table
  syntax_error_token c token message = record c {
    errors =
        if c.lost_count == 0
        then add_error c.errors token.start (token.start + token.length) message
        else c.errors;
    lost_count = resync_tokens;
  }

  unfoldable pub syntax_error : ParseContext Table → String → Option (ParseContext Table)
  unfolding syntax_error_token
  syntax_error c message =
      token_at c.tokens c.pos >>= λ token. some (syntax_error_token c token message)

  -- `_MatchV` with its two tokens.
  unfoldable pub match_either : ParseContext Table → TokenType → TokenType → Match Table
  match_either c first second = check c first >>= λ is_first. elim is_first [
    | true ↦ matched (advance c)
    | false ↦ check c second >>= λ is_second. elim is_second [
      | true ↦ matched (advance c)
      | false ↦ some none
    ]
  ]

  -- `_Match`: every token that makes sense takes one from the count of the lost.
  unfoldable pub match_token : ParseContext Table → TokenType → Match Table
  match_token c token = check c token >>= λ is_token. elim is_token [
    | true ↦ matched (advance (record c { lost_count = c.lost_count - 1 }))
    | false ↦ some none
  ]

  unfoldable pub expect : ParseContext Table → TokenType → String → Option (ParseContext Table)
  unfolding match_token syntax_error
  expect c token error =
      match_token c token >>= λ m. elim m [ some c' ↦ some c' | none ↦ syntax_error c error ]

  -- `_ParseSymbol`, with the symbol table's operation as an argument.
  unfoldable pub parse_symbol :
      (Table → Bytes → Symbol × Table) → ParseContext Table → Option (Symbol × ParseContext Table)
  unfolding match_token syntax_error
  parse_symbol find_or_create_symbol c = match_token c tok_id >>= λ m. elim m [
    | some c' ↦ do
      id_token ← prev_token_struct c'
      token_value ← token_text c'.buffer id_token
      (let r = find_or_create_symbol c'.table token_value in some (r.0, record c' { table = r.1 }))
    | none ↦ syntax_error c "Expected an identifier" >>= λ c'. some (invalid_symbol, c')
  ]

-- The loop over the digits of a literal, in 64 bits, with its test for overflow: the value at
-- which it stops, and whether it reports an overflow.
unfoldable pub literal_value : Bytes → ℕ → ℕ × Bool
literal_value [] value = (value, false)
literal_value (c ∷ cs) value =
    let new_value = (value * 10 % 2 ^ 64 + (c + 2 ^ 64 - b'0') % 2 ^ 64) % 2 ^ 64 in
    let rest = literal_value cs new_value in if ltb new_value value then (value, true) else rest
