-- ===== src/Position/Search.antt =====
-- The binary search finds how many newlines stand before the position.
use millie.Prelude.{
  ℕ, zero, suc, ◌+◌, ◌-◌, ◌/◌, ◌≤◌, ◌<◌, ◌≡◌, List, [], ◌∷◌, arith, ltb, if◌then◌else◌, length,
  get_or,
}
use millie.Position.{search}

-- Strictly ascending, from `lo` on.
abbrev pub Ascending : ℕ → List ℕ → Type 0
Ascending lo [] = Unit
Ascending lo (x ∷ xs) = (lo ≤ x) × Ascending (x + 1) xs

-- How many entries stand before `p`.
abbrev pub below : ℕ → List ℕ → ℕ
below p [] = 0
below p (x ∷ xs) = if ltb x p then suc (below p xs) else 0

below-le : (p : ℕ) (l : List ℕ) → below p l ≤ length l
below-le p [] = omega arith
below-le p (x ∷ xs) = ground (arith, below-le p xs)

below-lt : (p i : ℕ) (l : List ℕ) → i < below p l → get_or l i 0 < p
below-lt p i [] h = absurd (omega arith)
below-lt p zero (x ∷ xs) h = ground arith
below-lt p (suc i) (x ∷ xs) h = ground (arith, below-lt p i xs)

Ascending-ge : (lo i : ℕ) (l : List ℕ) → Ascending lo l → i < length l → lo ≤ get_or l i 0
Ascending-ge lo i [] a h = absurd (omega arith)
Ascending-ge lo zero (x ∷ xs) a h = a.0
Ascending-ge lo (suc i) (x ∷ xs) a h =
    omega (arith, a.0, Ascending-ge (x + 1) i xs a.1 (omega arith))

below-ge :
    (lo p i : ℕ) (l : List ℕ) → Ascending lo l → below p l ≤ i → i < length l → p ≤ get_or l i 0
below-ge lo p i [] a h k = absurd (omega arith)
below-ge lo p zero (x ∷ xs) a h k = ground arith
below-ge lo p (suc i) (x ∷ xs) a h k =
    ground (arith, below-ge (x + 1) p i xs a.1, Ascending-ge (x + 1) i xs a.1)

Ascending-lt :
    (lo i j : ℕ) (l : List ℕ) → Ascending lo l → i < j → j < length l → get_or l i 0 < get_or l j 0
Ascending-lt lo i j [] a h k = absurd (omega arith)
Ascending-lt lo i zero (x ∷ xs) a h k = absurd (omega arith)
Ascending-lt lo zero (suc j) (x ∷ xs) a h k =
    omega (arith, Ascending-ge (x + 1) j xs a.1 (omega arith))
Ascending-lt lo (suc i) (suc j) (x ∷ xs) a h k =
    Ascending-lt (x + 1) i j xs a.1 (omega arith) (omega arith)

module _ (lo p : ℕ) (l : List ℕ) (a : Ascending lo l) where
  -- What comparing the entry in the middle tells.
  found : (mid : ℕ) → mid < length l → get_or l mid 0 ≡ p → mid ≡ below p l
  found mid h e =
      ground (
        arith,
        below-lt p mid l,
        Ascending-lt lo (below p l) mid l a,
        below-ge lo p (below p l) l a,
      )

  before : (mid : ℕ) → mid < length l → get_or l mid 0 < p → mid < below p l
  before mid h e = ground (arith, below-ge lo p mid l a)

  after : (mid : ℕ) → p < get_or l mid 0 → below p l ≤ mid
  after mid e = ground (arith, below-lt p mid l)

  pub search-below :
      (fuel min top : ℕ)
      → top - min ≤ fuel
      → min ≤ below p l
      → below p l ≤ top
      → top ≤ length l
      → search fuel l p min top ≡ below p l
  unfolding search
  search-below zero min top f h k m = omega arith
  search-below (suc fuel) min top f h k m =
      let mid = (top - 1 + min) / 2 in
      ground (
        arith,
        found mid,
        before mid,
        after mid,
        search-below fuel (mid + 1) top,
        search-below fuel min mid,
      )

pub search_lem :
    (lo p : ℕ) (l : List ℕ) → Ascending lo l → search (length l) l p 0 (length l) ≡ below p l
search_lem lo p l a =
    search-below lo p l a (length l) 0 (length l) (omega arith) (omega arith) (below-le p l)
      (omega arith)
