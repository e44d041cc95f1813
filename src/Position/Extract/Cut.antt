-- ===== src/Position/Extract/Cut.antt =====
-- The lines of a text as a reader sees them, and how its newlines cut them out.
use millie.Prelude.{
  ℕ, zero, suc, ◌+◌, ◌-◌, ◌≤◌, ◌<◌, ◌≡◌, refl, sym, ap, ◌∙◌, inl, inr, Bool-cases, Option-cases,
  List, [], ◌∷◌, Option, some, ◌>>=◌, arith, ◌==◌, if◌then◌else◌, get_elem?, get_or, take, drop,
}
use mathlib.Core.Option.{some-injective}
use millie.Lexer.{Bytes}
use millie.Lexer.Round.{newlines}
use millie.Position.Search.{Ascending}
use millie.Position.Walk.{newlines-Ascending}

abbrev pub onto : ℕ → List Bytes → List Bytes
onto c [] = []
onto c (line ∷ lines) = (c ∷ line) ∷ lines

-- The lines of a text that a newline ends, without it.
abbrev pub ended_lines : Bytes → List Bytes
ended_lines [] = []
ended_lines (c ∷ cs) = if c == b'\n' then [] ∷ ended_lines cs else onto c (ended_lines cs)

pub onto-later :
    (c i : ℕ) (lines : List Bytes) → get_elem? (onto c lines) (suc i) ≡ get_elem? lines (suc i)
onto-later c i [] = refl
onto-later c i (line ∷ lines) = refl

pub onto-first :
    (c : ℕ) (lines : List Bytes)
    → get_elem? (onto c lines) 0 ≡ (get_elem? lines 0 >>= λ line. some (c ∷ line))
onto-first c [] = refl
onto-first c (line ∷ lines) = refl

-- Where a line begins in a text that begins at `pos`.
abbrev pub start_of : ℕ → List ℕ → ℕ → ℕ
start_of pos l zero = pos
start_of pos l (suc i) = get_or l i 0 + 1

pub start_of-between :
    (pos i : ℕ) (l : List ℕ) {e : ℕ}
    → Ascending pos l
    → get_elem? l i ≡ some e
    → (pos ≤ start_of pos l i) × (start_of pos l i ≤ e)
start_of-between pos i [] a q = cc
start_of-between pos zero (x ∷ l) a q =
    let same = some-injective x _ q in (omega arith, omega (arith, same, a.0))
start_of-between pos (suc zero) (x ∷ l) a q =
    let next = start_of-between (x + 1) 0 l a.1 q in (omega (arith, a.0), next.1)
start_of-between pos (suc (suc i)) (x ∷ l) a q =
    let next = start_of-between (x + 1) (suc i) l a.1 q in (omega (arith, a.0, next.0), next.1)

-- A line as the newlines cut it out of the text.
abbrev pub cut : ℕ → List ℕ → Bytes → ℕ → Option Bytes
cut pos l cs i =
    get_elem? l i >>= λ e. some (take (e - start_of pos l i) (drop (start_of pos l i - pos) cs))

take-more : (c a b : ℕ) (cs : Bytes) → b < a → take (a - b) (c ∷ cs) ≡ c ∷ take (a - (b + 1)) cs
take-more c a b cs h = let more : a - b ≡ suc (a - (b + 1)) = omega (arith, h) in rw more refl

drop-more : (c a b : ℕ) (cs : Bytes) → b < a → drop (a - b) (c ∷ cs) ≡ drop (a - (b + 1)) cs
drop-more c a b cs h = let more : a - b ≡ suc (a - (b + 1)) = omega (arith, h) in rw more refl

cut-first :
    (pos c : ℕ) (l : List ℕ) (cs : Bytes)
    → Ascending (pos + 1) l
    → cut pos l (c ∷ cs) 0 ≡ (cut (pos + 1) l cs 0 >>= λ line. some (c ∷ line))
cut-first pos c [] cs a = refl
cut-first pos c (x ∷ l) cs a =
    let here : pos - pos ≡ 0 = omega arith in
    let there : pos + 1 - (pos + 1) ≡ 0 = omega arith in
    rw (here, there) (ap some (take-more c x pos cs (omega (arith, a.0))))

cut-later :
    (pos c i : ℕ) (l : List ℕ) (cs : Bytes)
    → Ascending (pos + 1) l
    → cut pos l (c ∷ cs) (suc i) ≡ cut (pos + 1) l cs (suc i)
cut-later pos c i l cs a = elim (Option-cases (get_elem? l (suc i))) [
  | inl q ↦ rw q refl
  | inr q ↦
      let between = start_of-between (pos + 1) (suc i) l a q.1 in
      rw (q.1, drop-more c (get_or l i 0 + 1) pos cs (omega (arith, between.0))) refl
]

cut-newline :
    (pos c i : ℕ) (l : List ℕ) (cs : Bytes)
    → Ascending (pos + 1) l
    → cut pos (pos ∷ l) (c ∷ cs) (suc i) ≡ cut (pos + 1) l cs i
cut-newline pos c i l cs a = elim (Option-cases (get_elem? l i)) [
  | inl q ↦ rw q refl
  | inr q ↦
      let between = start_of-between (pos + 1) i l a q.1 in
      let same = next_start i in
      rw (q.1, same, drop-more c (start_of (pos + 1) l i) pos cs (omega (arith, between.0))) refl
]
  where
    next_start : (i : ℕ) → get_or (pos ∷ l) i 0 + 1 ≡ start_of (pos + 1) l i
    next_start zero = refl
    next_start (suc i) = refl

pub ended_lines-cut :
    (cs : Bytes) (pos i : ℕ) → get_elem? (ended_lines cs) i ≡ cut pos (newlines pos cs) cs i
ended_lines-cut [] pos i = refl
ended_lines-cut (c ∷ cs) pos i =
    let a = newlines-Ascending (pos + 1) cs in
    elim (Bool-cases (c == b'\n')) [
      | inl q ↦ rw q (at_newline a (λ j. ended_lines-cut cs (pos + 1) j) i)
      | inr q ↦ rw q (elsewhere a (λ j. ended_lines-cut cs (pos + 1) j) i)
    ]
  where
    at_newline :
        Ascending (pos + 1) (newlines (pos + 1) cs)
        → ((j : ℕ) → get_elem? (ended_lines cs) j ≡ cut (pos + 1) (newlines (pos + 1) cs) cs j)
        → (i : ℕ)
        → get_elem? ([] ∷ ended_lines cs) i ≡ cut pos (pos ∷ newlines (pos + 1) cs) (c ∷ cs) i
    at_newline a ih zero = let none_left : pos - pos ≡ 0 = omega arith in rw none_left refl
    at_newline a ih (suc i) = ih i ∙ sym (cut-newline pos c i (newlines (pos + 1) cs) cs a)

    elsewhere :
        Ascending (pos + 1) (newlines (pos + 1) cs)
        → ((j : ℕ) → get_elem? (ended_lines cs) j ≡ cut (pos + 1) (newlines (pos + 1) cs) cs j)
        → (i : ℕ)
        → get_elem? (onto c (ended_lines cs)) i ≡ cut pos (newlines (pos + 1) cs) (c ∷ cs) i
    elsewhere a ih zero =
        onto-first c (ended_lines cs)
        ∙ ap (λ o. o >>= λ line. some (c ∷ line)) (ih 0)
        ∙ sym (cut-first pos c (newlines (pos + 1) cs) cs a)
    elsewhere a ih (suc i) =
        onto-later c i (ended_lines cs)
        ∙ ih (suc i)
        ∙ sym (cut-later pos c i (newlines (pos + 1) cs) cs a)
