-- ===== src/Parser/Remaining.antt =====
-- How the parser's helpers move through the token array: they pass tokens and never go back, and
-- they read inside of the array and of the text.
use millie.Prelude.{
  ℕ, suc, ◌+◌, ◌-◌, ◌≤◌, ◌≡◌, refl, Bool, true, false, List, Option, none, some, ◌==◌, leb, arith,
  ◌>>=◌, length, get_elem?, get_elem?-bound, get_elem?-in_range, All, All-get_elem?, inl, inr,
  Bool-cases, sym, ap, subst, ◌∙◌,
}
use Prim.Native.String.{String}
use mathlib.Core.Bool.{false≢true}
use mathlib.Core.Option.{some-injective}
use millie.Token.{TokenType, tok_eof, tok_id, same_type, MillieToken}
use millie.Ast.{Symbol, invalid_symbol}
use millie.Parser.{
  Bytes, ParseContext, Match, token_text, prev_token_struct, advance, check, syntax_error_token,
  syntax_error, match_either, match_token, expect, parse_symbol,
}

abbrev pub IsInText : Bytes → MillieToken → Type 0
IsInText buffer token = token.start + token.length ≤ length buffer

-- A position in tokens that all lie in the text, with a `TOK_EOF` at the position or behind it.
pub record Inside (tokens : List MillieToken) (buffer : Bytes) (pos : ℕ) : Type 0 where
  pub last : ℕ
  pub end : MillieToken
  pub ends : get_elem? tokens last ≡ some end
  pub is_end : same_type end.type tok_eof ≡ true
  pub in_text : All (IsInText buffer) tokens
  pub within : pos ≤ last

module _ {tokens : List MillieToken} {buffer : Bytes} {pos : ℕ} where
  pub Inside-read : Inside tokens buffer pos → (t : MillieToken) × (get_elem? tokens pos ≡ some t)
  Inside-read g =
      get_elem?-in_range tokens pos (omega (arith, g.within, get_elem?-bound tokens g.last g.ends))

  Inside-next :
      {t : MillieToken}
      → Inside tokens buffer pos
      → get_elem? tokens pos ≡ some t
      → same_type t.type tok_eof ≡ false
      → Inside tokens buffer (pos + 1)
  Inside-next {t} g at more = record {
    last = g.last;
    end = g.end;
    ends = g.ends;
    is_end = g.is_end;
    in_text = g.in_text;
    within = elim (Bool-cases (pos == g.last)) [
      | inl q ↦
          let same : pos ≡ g.last = ground (arith, q) in
          let t_is : t ≡ g.end =
            some-injective _ _ (sym at ∙ ap (get_elem? tokens) same ∙ g.ends) in
          absurd (
            false≢true
              (sym more ∙ ap (λ (x : MillieToken). same_type x.type tok_eof) t_is ∙ g.is_end))
      | inr q ↦ ground (arith, q, g.within)
    ];
  }

module _ {Table : Type 0} where
  -- How many tokens are left.
  abbrev pub remaining : ParseContext Table → ℕ
  remaining c = length c.tokens - c.pos

  abbrev pub Good : ParseContext Table → Type 0
  Good c = Inside c.tokens c.buffer c.pos

  -- The token that has just been passed.
  abbrev pub Passed : ParseContext Table → Type 0
  Passed c = (t : MillieToken) × (prev_token_struct c ≡ some t) × IsInText c.buffer t

  -- A match either passes a token or finds another one.
  pub data Matches (c : ParseContext Table) (none_is : Type 0) : Match Table → Type 0 where
    taken :
        (c' : ParseContext Table)
        → Good c'
        → suc (remaining c') ≤ remaining c
        → Passed c'
        → Matches c none_is (some (some c'))
    other : none_is → Matches c none_is (some none)

  advance-passes :
      (c : ParseContext Table) (t : MillieToken)
      → Good c
      → get_elem? c.tokens c.pos ≡ some t
      → same_type t.type tok_eof ≡ false
      → (advance c ≡ some (record c { pos = c.pos + 1 }))
        × (suc (remaining (record c { pos = c.pos + 1 })) ≤ remaining c)
        × Passed (record c { pos = c.pos + 1 })
  advance-passes c t g at more =
      let some_pos : (c.pos + 1 == 0) ≡ false = ground arith in
      let before : c.pos + 1 - 1 ≡ c.pos = omega arith in
      (
        rw (at, more, some_pos, before, at) refl,
        omega (arith, get_elem?-bound c.tokens c.pos at),
        (
          t,
          rw (some_pos, before) at,
          All-get_elem? (IsInText c.buffer) c.tokens c.pos g.in_text at,
        ),
      )

  pub checked :
      (c : ParseContext Table) (x : TokenType)
      → Good c
      → (b : Bool) × (check c x ≡ some b)
        × (b ≡ true
            → (t : MillieToken) × (get_elem? c.tokens c.pos ≡ some t)
              × (same_type t.type tok_eof ≡ false))
  checked c x g =
      let (t, at) = Inside-read g in
      elim (Bool-cases (same_type t.type tok_eof)) [
        | inl e ↦ (false, rw (at, e) refl, λ q. absurd (false≢true q))
        | inr e ↦ (same_type t.type x, rw (at, e) refl, λ q. (t, at, e))
      ]

  choose :
      {c : ParseContext Table} {N : Type 0} {x z : Match Table} (o : Option Bool) (b : Bool)
      → o ≡ some b
      → (b ≡ true → Matches c N x)
      → (b ≡ false → Matches c N z)
      → Matches c N (o >>= λ found. elim found [ true ↦ x | false ↦ z ])
  choose none b e f g = cc
  choose (some true) b e f g = f (sym (some-injective true b e))
  choose (some false) b e f g = g (sym (some-injective false b e))

  -- A token that has been checked is passed.
  advance-Matches :
      (c d : ParseContext Table) {N : Type 0} (t : MillieToken)
      → Good d
      → remaining d ≤ remaining c
      → get_elem? d.tokens d.pos ≡ some t
      → same_type t.type tok_eof ≡ false
      → Matches c N (advance d >>= λ c'. some (some c'))
  advance-Matches c d {N} t g le at more =
      let (passed, less, prev) = advance-passes d t g at more in
      subst (λ o. Matches c N (o >>= λ c'. some (some c'))) (sym passed)
        (taken (record d { pos = d.pos + 1 }) (Inside-next g at more) (omega (arith, less, le))
          prev)

  pub match_token-Matches :
      (c : ParseContext Table) (x : TokenType)
      → Good c
      → Matches c (check c x ≡ some false) (match_token c x)
  unfolding match_token
  match_token-Matches c x g =
      let (b, e, found) = checked c x g in
      choose (check c x) b e
        (λ q.
          let (t, at, more) = found q in
          advance-Matches c (record c { lost_count = c.lost_count - 1 }) t g (omega arith) at more)
        (λ q. other (e ∙ ap some q))

  pub match_either-Matches :
      (c : ParseContext Table) (x y : TokenType)
      → Good c
      → Matches c (Unit {0}) (match_either c x y)
  unfolding match_either
  match_either-Matches c x y g =
      let (b, e, found) = checked c x g in
      let (b', e', found') = checked c y g in
      choose (check c x) b e
        (λ q. let (t, at, more) = found q in advance-Matches c c t g (omega arith) at more)
        (λ _.
          choose (check c y) b' e'
            (λ q. let (t, at, more) = found' q in advance-Matches c c t g (omega arith) at more)
            (λ _. other tt))

  -- A step that reads no fault and leaves at most `n` tokens.
  pub data Moves (n : ℕ) : Option (ParseContext Table) → Type 0 where
    moves : (c : ParseContext Table) → Good c → remaining c ≤ n → Moves n (some c)

  pub syntax_error-Moves :
      (c : ParseContext Table) (m : String) → Good c → Moves (remaining c) (syntax_error c m)
  unfolding syntax_error syntax_error_token
  syntax_error-Moves c m g = let (t, at) = Inside-read g in rw at (moves _ g (omega arith))

  pub expect-Moves :
      (c : ParseContext Table) (x : TokenType) (m : String)
      → Good c
      → Moves (remaining c) (expect c x m)
  unfolding expect
  expect-Moves c x m g = go (match_token-Matches c x g)
    where
      go :
          {o : Match Table}
          → Matches c (check c x ≡ some false) o
          → Moves
              (remaining c)
              (o >>= λ m'. elim m' [ some c' ↦ some c' | none ↦ syntax_error c m ])
      go (taken c' g' less _) = moves c' g' (omega (arith, less))
      go (other _) = syntax_error-Moves c m g

  -- A name that is read, with at most `n` tokens left.
  pub data Names (n : ℕ) : Option (Symbol × ParseContext Table) → Type 0 where
    names :
        (symbol : Symbol) (c : ParseContext Table)
        → Good c
        → remaining c ≤ n
        → Names n (some (symbol, c))

  -- Strictly less is left where the next token is a name.
  pub parse_symbol-Names :
      (find_or_create_symbol : Table → Bytes → Symbol × Table) (c : ParseContext Table) (n : ℕ)
      → Good c
      → remaining c ≤ suc n
      → (check c tok_id ≡ some false → remaining c ≤ n)
      → Names n (parse_symbol find_or_create_symbol c)
  unfolding parse_symbol
  parse_symbol-Names fs c n g le no_name = go (match_token-Matches c tok_id g)
    where
      read :
          (c' : ParseContext Table) (t : MillieToken)
          → Good c'
          → remaining c' ≤ n
          → prev_token_struct c' ≡ some t
          → IsInText c'.buffer t
          → Names n (do
            id_token ← prev_token_struct c'
            token_value ← token_text c'.buffer id_token
            (let r = fs c'.table token_value in some (r.0, record c' { table = r.1 })))
      read c' t g' le' prev in_text =
          let fits : leb (t.start + t.length) (length c'.buffer) ≡ true = ground (arith, in_text) in
          rw (prev, fits) (names _ _ g' le')

      failed :
          {o : Option (ParseContext Table)}
          → Moves (remaining c) o
          → remaining c ≤ n
          → Names n (o >>= λ c'. some (invalid_symbol, c'))
      failed (moves c' g' le') few = names invalid_symbol c' g' (omega (arith, le', few))

      go :
          {o : Match Table}
          → Matches c (check c tok_id ≡ some false) o
          → Names n (
              o >>= λ m. elim m [
                | some c' ↦ do
                  id_token ← prev_token_struct c'
                  token_value ← token_text c'.buffer id_token
                  (let r = fs c'.table token_value in some (r.0, record c' { table = r.1 }))
                | none ↦ syntax_error c "Expected an identifier" >>= λ c'. some (invalid_symbol, c')
              ])
      go (taken c' g' less (t, prev, in_text)) = read c' t g' (omega (arith, less, le)) prev in_text
      go (other absent) = failed (syntax_error-Moves c "Expected an identifier" g) (no_name absent)
