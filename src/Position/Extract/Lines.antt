-- ===== src/Position/Extract/Lines.antt =====
-- `ExtractLine` gives the lines of the text.
use millie.Prelude.{
  ℕ, zero, suc, ◌+◌, ◌-◌, ◌%◌, ◌^◌, ◌<◌, ◌≡◌, refl, ap, ◌∙◌, inl, inr, Bool-cases, Option-cases,
  true, false, List, [], ◌∷◌, Option, none, some, ◌>>=◌, arith, ltb, leb, ◌==◌, if◌then◌else◌,
  length, get_elem?, get_or, All, All-get_elem?, subst, sym,
}
use mathlib.Core.Option.{some-injective}
use millie.Errors.{Errors}
use millie.Token.{MillieTokens}
use millie.Lexer.{Bytes, lex_buffer}
use millie.Lexer.Round.{newlines}
use millie.Lexer.Output.{lex_buffer-buffer, lex_buffer-lines}
use millie.Position.Walk.{newlines-Ascending}
use millie.Position.Extract.{create_n, start_of_line, extract_line}
use millie.Position.Extract.Cut.{
  onto, ended_lines, start_of, start_of-between, cut, ended_lines-cut,
}

start_of_line-suc :
    (l : List ℕ) (i : ℕ)
    → start_of_line l (suc i) ≡ (get_elem? l i >>= λ end_before. some (end_before + 1))
start_of_line-suc l i =
    let later : ltb 0 (suc i) ≡ true = ground arith in
    let before : suc i - 1 ≡ i = omega arith in rw (later, before) refl

get_elem?-before :
    (l : List ℕ) (i : ℕ) {e : ℕ}
    → get_elem? l (suc i) ≡ some e
    → get_elem? l i ≡ some (get_or l i 0)
get_elem?-before [] i q = cc
get_elem?-before (x ∷ l) zero q = refl
get_elem?-before (x ∷ l) (suc i) q = get_elem?-before l i q

start_of_line-start_of :
    (l : List ℕ) (i : ℕ) {e : ℕ}
    → get_elem? l i ≡ some e
    → start_of_line l i ≡ some (start_of 0 l i)
start_of_line-start_of l zero q = refl
start_of_line-start_of l (suc i) q = start_of_line-suc l i ∙ rw (get_elem?-before l i q) refl

newlines-bound :
    (cs : Bytes) (pos i : ℕ) {e : ℕ} → get_elem? (newlines pos cs) i ≡ some e → e < pos + length cs
newlines-bound [] pos i q = cc
newlines-bound (c ∷ cs) pos i q = elim (Bool-cases (c == b'\n')) [
  | inl n ↦ at_newline i (λ j r. newlines-bound cs (pos + 1) j r) (rw n at q)
  | inr n ↦ omega (arith, newlines-bound cs (pos + 1) i (rw n at q))
]
  where
    at_newline :
        {e : ℕ} (i : ℕ)
        → ((j : ℕ) → get_elem? (newlines (pos + 1) cs) j ≡ some e → e < pos + 1 + length cs)
        → get_elem? (pos ∷ newlines (pos + 1) cs) i ≡ some e
        → e < pos + suc (length cs)
    at_newline zero ih r = omega (arith, some-injective pos _ r)
    at_newline (suc i) ih r = omega (arith, ih i r)

length-onto : (c : ℕ) (lines : List Bytes) → length (onto c lines) ≡ length lines
length-onto c [] = refl
length-onto c (line ∷ lines) = refl

length-ended_lines : (cs : Bytes) (pos : ℕ) → length (ended_lines cs) ≡ length (newlines pos cs)
length-ended_lines [] pos = refl
length-ended_lines (c ∷ cs) pos = elim (Bool-cases (c == b'\n')) [
  | inl q ↦ rw q (ap suc (length-ended_lines cs (pos + 1)))
  | inr q ↦ rw q (length-onto c (ended_lines cs) ∙ length-ended_lines cs (pos + 1))
]

-- The line that is printed for an error in it, from 0 on: a text without a newline is one line, and
-- else the last line needs a newline too.
abbrev pub line_of : Bytes → ℕ → Option Bytes
line_of text i =
    if length (ended_lines text) == 0 then some text else get_elem? (ended_lines text) i

cut-found :
    (text : Bytes) (i : ℕ) {e : ℕ}
    → length text < 2 ^ 32
    → get_elem? (newlines 0 text) i ≡ some e
    → (do
      line_start ← start_of_line (newlines 0 text) i
      line_end ← get_elem? (newlines 0 text) i
      create_n text line_start ((line_end + 2 ^ 32 - line_start) % 2 ^ 32))
      ≡ cut 0 (newlines 0 text) text i
cut-found text i {e} small q =
    let s = start_of 0 (newlines 0 text) i in
    let between = start_of-between 0 i (newlines 0 text) (newlines-Ascending 0 text) q in
    let bound = newlines-bound text 0 i q in
    let size : (e + 2 ^ 32 - s) % 2 ^ 32 ≡ e - s = omega (arith, between.1, bound, small) in
    let fits : leb (s + (e - s)) (length text) ≡ true = ground (arith, between.1, bound) in
    let whole : s - 0 ≡ s = omega arith in
    rw (start_of_line-start_of (newlines 0 text) i q, q, size, fits, whole) refl

cut-missing :
    {B : Type 0} (o : Option ℕ) (l : List ℕ) (i : ℕ) (f : ℕ → ℕ → Option B)
    → get_elem? l i ≡ none
    → (o >>= λ s. get_elem? l i >>= f s) ≡ none
cut-missing none l i f q = refl
cut-missing (some s) l i f q = rw q refl

line_of-cut :
    (text : Bytes) (i : ℕ)
    → length text < 2 ^ 32
    → (if length (newlines 0 text) == 0 then some text else do
      line_start ← start_of_line (newlines 0 text) i
      line_end ← get_elem? (newlines 0 text) i
      create_n text line_start ((line_end + 2 ^ 32 - line_start) % 2 ^ 32))
      ≡ line_of text i
line_of-cut text i small =
    let l = newlines 0 text in
    rw (length-ended_lines text 0, ended_lines-cut text 0 i)
      (ap (λ o. if length l == 0 then some text else o)
        (elim (Option-cases (get_elem? l i)) [
          | inl q ↦ cut-missing (start_of_line l i) l i _ q ∙ rw q refl
          | inr q ↦ cut-found text i small q.1
        ]))

-- `ExtractLine` on a text that `LexBuffer` has read, shorter than 2 ^ 32: for a text without a
-- newline every line is the text, and else the n-th line is the n-th that a newline ends; for a
-- line that none ends it reads behind the end of the line array.
pub extract_line-line_of :
    (text : Bytes) (i : ℕ) {tokens : MillieTokens} {errors : Errors}
    → lex_buffer text ≡ some (tokens, errors)
    → length text < 2 ^ 32
    → extract_line tokens (suc i) ≡ line_of text i
unfolding extract_line
extract_line-line_of text i {tokens} h small =
    let not_zero : suc i == 0 ≡ false = ground arith in
    let index : suc i - 1 ≡ i = omega arith in
    rw (not_zero, index, lex_buffer-lines text h, lex_buffer-buffer text h)
      (line_of-cut text i small)

onto-All :
    (P : ℕ → Type 0) (c : ℕ) (lines : List Bytes)
    → P c
    → All (All P) lines
    → All (All P) (onto c lines)
onto-All P c [] p h = tt
onto-All P c (line ∷ lines) p h = ((p, h.0), h.1)

ended_lines-All : (P : ℕ → Type 0) (cs : Bytes) → All P cs → All (All P) (ended_lines cs)
ended_lines-All P [] h = tt
ended_lines-All P (c ∷ cs) h = elim (Bool-cases (c == b'\n')) [
  | inl q ↦ rw q (tt, ended_lines-All P cs h.1)
  | inr q ↦ rw q (onto-All P c (ended_lines cs) h.0 (ended_lines-All P cs h.1))
]

-- What holds of all bytes of the text holds of those of a line.
pub extract_line-All :
    (P : ℕ → Type 0) (text : Bytes) (line : ℕ) {contents : Bytes} {tokens : MillieTokens}
    {errors : Errors}
    → All P text
    → lex_buffer text ≡ some (tokens, errors)
    → length text < 2 ^ 32
    → extract_line tokens line ≡ some contents
    → All P contents
unfolding extract_line
extract_line-All P text zero all h small e = cc
extract_line-All P text (suc i) all h small e =
    let of_text = sym (extract_line-line_of text i h small) ∙ e in
    elim (Bool-cases (length (ended_lines text) == 0)) [
      | inl q ↦ subst (All P) (some-injective text _ (rw q at of_text)) all
      | inr q ↦
          All-get_elem? (All P) (ended_lines text) i (ended_lines-All P text all) (rw q at of_text)
    ]
