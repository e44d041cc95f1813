-- ===== src/Lexer/Round.antt =====
-- What one round of the lexer's loop may do, and how tokens are spelled.
use millie.Prelude.{
  ℕ, zero, suc, ◌+◌, ◌<◌, ◌≡◌, ◌≢◌, refl, sym, ap, ◌∙◌, ◌⊎◌, inl, inr, Bool, true, false, List, [],
  ◌∷◌, ◌++◌, arith, ◌==◌, if◌then◌else◌, length, drop, take, Bool-cases, All,
}
use mathlib.Core.Bool.{false≢true}
use millie.Token.{
  TokenType, tok_eof, tok_id, tok_int_literal, tok_true, tok_false, tok_lparen, tok_plus, tok_minus,
  tok_rparen, tok_fn, tok_if, tok_in, tok_star, tok_slash, tok_equals, tok_arrow, tok_let, tok_rec,
  tok_then, tok_else, tok_comma,
}
use millie.Lexer.{Bytes, LexState, advance, add_token, is_digit, is_identifier_character, span}

-- The positions of the newlines in a text that begins at `pos`.
abbrev pub newlines : ℕ → Bytes → List ℕ
newlines pos [] = []
newlines pos (c ∷ cs) = if c == b'\n' then pos ∷ newlines (pos + 1) cs else newlines (pos + 1) cs

-- The next `n` bytes are there, and none of them is a newline.
abbrev pub Plain : ℕ → Bytes → Type 0
Plain zero cs = Unit
Plain (suc n) [] = ⊥
Plain (suc n) (c ∷ cs) = (c ≢ b'\n') × Plain n cs

pub length-drop-Plain : (n : ℕ) (cs : Bytes) → Plain n cs → n + length (drop n cs) ≡ length cs
length-drop-Plain zero cs h = omega arith
length-drop-Plain (suc n) [] h = absurd h
length-drop-Plain (suc n) (c ∷ cs) h = omega (arith, length-drop-Plain n cs h.1)

pub newlines-drop :
    (n pos : ℕ) (cs : Bytes) → Plain n cs → newlines pos cs ≡ newlines (pos + n) (drop n cs)
newlines-drop zero pos cs h = let e : pos + 0 ≡ pos = omega arith in rw e
newlines-drop (suc n) pos [] h = absurd h
newlines-drop (suc n) pos (c ∷ cs) h =
    let e : pos + suc n ≡ pos + 1 + n = omega arith in
    rw e (ground (arith, newlines-drop n (pos + 1) cs h.1))

pub Plain-span : (p : ℕ → Bool) (cs : Bytes) → p b'\n' ≡ false → Plain (span p cs) cs
unfolding span
Plain-span p [] h = tt
Plain-span p (c ∷ cs) h = elim (Bool-cases (p c)) [
  | inl e ↦ rw e ((λ (q : c ≡ 10). false≢true (sym h ∙ ap p (sym q) ∙ e)), Plain-span p cs h)
  | inr e ↦ rw e tt
]

-- How the text of a token of this type is spelled.
unfoldable pub spelling : TokenType → Bytes
spelling tok_true = b't' ∷ b'r' ∷ b'u' ∷ b'e' ∷ []
spelling tok_false = b'f' ∷ b'a' ∷ b'l' ∷ b's' ∷ b'e' ∷ []
spelling tok_lparen = b'(' ∷ []
spelling tok_plus = b'+' ∷ []
spelling tok_minus = b'-' ∷ []
spelling tok_rparen = b')' ∷ []
spelling tok_fn = b'f' ∷ b'n' ∷ []
spelling tok_if = b'i' ∷ b'f' ∷ []
spelling tok_in = b'i' ∷ b'n' ∷ []
spelling tok_star = b'*' ∷ []
spelling tok_slash = b'/' ∷ []
spelling tok_equals = b'=' ∷ []
spelling tok_arrow = b'=' ∷ b'>' ∷ []
spelling tok_let = b'l' ∷ b'e' ∷ b't' ∷ []
spelling tok_rec = b'r' ∷ b'e' ∷ b'c' ∷ []
spelling tok_then = b't' ∷ b'h' ∷ b'e' ∷ b'n' ∷ []
spelling tok_else = b'e' ∷ b'l' ∷ b's' ∷ b'e' ∷ []
spelling tok_comma = b',' ∷ []
spelling tok_eof = []
spelling tok_id = []
spelling tok_int_literal = []

-- An identifier is a run of identifier characters, a literal a run of digits; both are not empty.
abbrev pub Spells : TokenType → Bytes → Type 0
Spells tok_id text = (0 < length text) × All (λ c. is_identifier_character c ≡ true) text
Spells tok_int_literal text = (0 < length text) × All (λ c. is_digit c ≡ true) text
Spells t text = text ≡ spelling t

-- One round: it takes `count` bytes, it adds at most one token, which is those bytes, and the
-- newlines found together with those still ahead stay the same.
pub record Moves (s s' : LexState) : Type 0 where
  pub count : ℕ
  pub count_pos : 0 < count
  pub fits : count + length s'.rest ≡ length s.rest
  pub rest_is : s'.rest ≡ drop count s.rest
  pub pos_is : s'.pos ≡ s.pos + count
  pub lines_are : s'.line_array ++ newlines s'.pos s'.rest ≡ s.line_array ++ newlines s.pos s.rest
  pub tokens_are :
      (s'.token_array ≡ s.token_array)
      ⊎ ((t : TokenType) × (s'.token_array ≡ (add_token s t s.pos count).token_array)
          × Spells t (take count s.rest))

module _ (n : ℕ) (s : LexState) (pos : 0 < n) (plain : Plain n s.rest) where
  pub Moves-advance : Moves s (advance n s)
  Moves-advance = record {
    count = n;
    count_pos = pos;
    fits = length-drop-Plain n s.rest plain;
    rest_is = refl;
    pos_is = refl;
    lines_are = rw (newlines-drop n s.pos s.rest plain);
    tokens_are = inl refl;
  }

  pub Moves-token :
      (t : TokenType) → Spells t (take n s.rest) → Moves s (advance n (add_token s t s.pos n))
  Moves-token t spells = record {
    count = n;
    count_pos = pos;
    fits = length-drop-Plain n s.rest plain;
    rest_is = refl;
    pos_is = refl;
    lines_are = rw (newlines-drop n s.pos s.rest plain);
    tokens_are = inr (t, refl, spells);
  }

pub span-All : (p : ℕ → Bool) (cs : Bytes) → All (λ c. p c ≡ true) (take (span p cs) cs)
unfolding span
span-All p [] = tt
span-All p (c ∷ cs) = elim (Bool-cases (p c)) [ inl e ↦ rw e (e, span-All p cs) | inr e ↦ rw e tt ]

pub span-length : (p : ℕ → Bool) (cs : Bytes) → length (take (span p cs) cs) ≡ span p cs
unfolding span
span-length p [] = refl
span-length p (c ∷ cs) = elim (Bool-cases (p c)) [
  | inl e ↦ rw e (ap suc (span-length p cs))
  | inr e ↦ rw e
]
