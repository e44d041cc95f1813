-- ===== src/Position/Walk.antt =====
-- Lines and columns as a reader of the text counts them, and that the search agrees.
use mathlib.Core.Path.{ap₂}
use millie.Prelude.{
  ℕ, ◌<◌, ap, sym, inl, inr, Bool-cases, zero, suc, ◌+◌, ◌-◌, ◌≤◌, ◌≡◌, refl, ◌∙◌, List, [], ◌∷◌,
  some, arith, true, ltb, ◌==◌, if◌then◌else◌, get_or,
}
use millie.Errors.{Errors}
use millie.Token.{MillieTokens}
use millie.Lexer.{Bytes, lex_buffer}
use millie.Lexer.Round.{newlines}
use millie.Lexer.Output.{lex_buffer-lines}
use millie.Position.{get_line_column_for_position}
use millie.Position.Search.{Ascending, below, search_lem}

-- The line and the column after `n` bytes, from those at the first: a newline ends its line.
abbrev pub walk : Bytes → ℕ → ℕ → ℕ → ℕ × ℕ
walk cs zero line col = (line, col)
walk [] (suc n) line col = (line, col + suc n)
walk (c ∷ cs) (suc n) line col =
    walk cs n (if c == b'\n' then line + 1 else line) (if c == b'\n' then 1 else col + 1)

-- The line and the column from the newlines of a text that begins at `pos`.
abbrev column : ℕ → List ℕ → ℕ → ℕ → ℕ
column p l zero other = other
column p l (suc b) other = p - get_or l b 0

column-cons :
    (p x : ℕ) (l : List ℕ) (b n : ℕ)
    → p ≡ x + suc n
    → column p (x ∷ l) (suc b) 0 ≡ column p l b (1 + n)
column-cons p x l zero n e = omega arith
column-cons p x l (suc b) n e = refl

column-any : (p : ℕ) (l : List ℕ) (b x y : ℕ) → 0 < b → column p l b x ≡ column p l b y
column-any p l zero x y h = absurd (omega arith)
column-any p l (suc b) x y h = refl

below-none : (p lo : ℕ) (l : List ℕ) → Ascending lo l → p ≤ lo → below p l ≡ 0
below-none p lo [] a h = refl
below-none p lo (x ∷ l) a h = ground arith

Ascending-weaken : (lo lo' : ℕ) (l : List ℕ) → lo ≤ lo' → Ascending lo' l → Ascending lo l
Ascending-weaken lo lo' [] h a = tt
Ascending-weaken lo lo' (x ∷ l) h a = (omega (arith, a.0), a.1)

pub newlines-Ascending : (pos : ℕ) (cs : Bytes) → Ascending pos (newlines pos cs)
newlines-Ascending pos [] = tt
newlines-Ascending pos (c ∷ cs) = elim (Bool-cases (c == b'\n')) [
  | inl e ↦ rw e (omega arith, newlines-Ascending (pos + 1) cs)
  | inr e ↦ rw e (Ascending-weaken pos (pos + 1) _ (omega arith) (newlines-Ascending (pos + 1) cs))
]

-- Positions as the line array gives them: `n` newlines stand before `p`.
abbrev from_lines : ℕ → List ℕ → ℕ → ℕ → ℕ × ℕ
from_lines p l line other = (line + below p l, column p l (below p l) other)

from_lines-newline :
    (p pos : ℕ) (l : List ℕ) (line n other : ℕ)
    → p ≡ pos + suc n
    → from_lines p l (line + 1) (1 + n) ≡ from_lines p (pos ∷ l) line other
from_lines-newline p pos l line n other e =
    let before : ltb pos p ≡ true = ground arith in
    rw before (
      ap₂ (λ (a b : ℕ). (a, b)) (omega arith)
        (sym (column-cons p pos l (below p l) n e)
          ∙ column-any p (pos ∷ l) (suc (below p l)) 0 other (omega arith)))

walk-below :
    (cs : Bytes) (n line col pos p : ℕ)
    → p ≡ pos + n
    → walk cs n line col ≡ from_lines p (newlines pos cs) line (col + n)
walk-below cs zero line col pos p e =
    let none_before =
      below-none p pos (newlines pos cs) (newlines-Ascending pos cs) (omega arith) in
    rw none_before (ap₂ (λ (a b : ℕ). (a, b)) (omega arith) (omega arith))
walk-below [] (suc n) line col pos p e = ap₂ (λ (a b : ℕ). (a, b)) (omega arith) refl
walk-below (c ∷ cs) (suc n) line col pos p e = elim (Bool-cases (c == b'\n')) [
  | inl q ↦ rw q (
      walk-below cs n (line + 1) 1 (pos + 1) p (omega arith)
      ∙ from_lines-newline p pos (newlines (pos + 1) cs) line n (col + suc n) e)
  | inr q ↦
      let same : col + 1 + n ≡ col + suc n = omega arith in
      rw q (
        walk-below cs n line (col + 1) (pos + 1) p (omega arith)
        ∙ ap (from_lines p (newlines (pos + 1) cs) line) same)
]

get_line_column-from_lines :
    (tokens : MillieTokens) (p : ℕ)
    → Ascending 0 tokens.line_array
    → get_line_column_for_position tokens p ≡ from_lines p tokens.line_array 1 (1 + p)
unfolding get_line_column_for_position
get_line_column-from_lines tokens p a =
    rw (search_lem 0 p tokens.line_array a) (pair (below p tokens.line_array))
  where
    pair :
        (b : ℕ)
        → ◌≡◌ {A = ℕ × ℕ}
            (b + 1, if ltb 0 b then p - get_or tokens.line_array (b - 1) 0 else p + 1)
            (1 + b, column p tokens.line_array b (1 + p))
    pair zero = ap₂ (λ (a b : ℕ). (a, b)) (omega arith) (omega arith)
    pair (suc b) = ground arith

-- For a text that `LexBuffer` has read, `GetLineColumnForPosition` gives for every position the line
-- and the column that one counts by walking through the text up to there, from line 1, column 1.
pub get_line_column-walk :
    (text : Bytes) (p : ℕ) {tokens : MillieTokens} {errors : Errors}
    → lex_buffer text ≡ some (tokens, errors)
    → get_line_column_for_position tokens p ≡ walk text p 1 1
get_line_column-walk text p {tokens} h =
    let lines = lex_buffer-lines text h in
    let sorted : Ascending 0 tokens.line_array = rw lines (newlines-Ascending 0 text) in
    get_line_column-from_lines tokens p sorted
    ∙ rw lines (sym (walk-below text p 1 1 0 p (omega arith)))
