-- ===== src/SymbolTable/Order.antt =====
-- The order of the table: from one slot to the next, the distance of an entry from its place grows
-- by one at most.
use millie.Prelude.{
  ℕ, zero, suc, ◌+◌, ◌≤◌, ◌<◌, ◌≡◌, inl, inr, refl, sym, ap, ◌∙◌, subst, List, [], ◌∷◌, Option,
  none, some, length, length-set, get_elem?, set, ◌==◌, ==_iff, if◌then◌else◌, arith, Bool-cases,
}
use millie.SymbolTable.{Slot, next, probe_distance}
use millie.SymbolTable.Probe.{next-lt, steps, reached}

-- The slot at a position.
abbrev pub IsIn : List Slot → ℕ → Slot → Type 0
IsIn slots pos slot = get_elem? slots pos ≡ some slot

-- Nothing for an empty slot, and else one more than the distance of its entry from its place.
unfoldable pub fill : ℕ → ℕ → Slot → ℕ
fill cap pos slot = if slot.hash == 0 then 0 else suc (probe_distance cap slot.hash pos)

abbrev fill_of : ℕ → ℕ → Option Slot → ℕ
fill_of cap pos none = 0
fill_of cap pos (some slot) = fill cap pos slot

unfoldable pub load : List Slot → ℕ → ℕ
load slots pos = fill_of (length slots) pos (get_elem? slots pos)

pub load-IsIn :
    (slots : List Slot) (pos : ℕ) (slot : Slot)
    → IsIn slots pos slot
    → load slots pos ≡ fill (length slots) pos slot
unfolding load
load-IsIn slots pos slot here = ap (fill_of (length slots) pos) here

pub load-outside : (slots : List Slot) (pos : ℕ) → get_elem? slots pos ≡ none → load slots pos ≡ 0
unfolding load
load-outside slots pos outside = ap (fill_of (length slots) pos) outside

-- What is in the slots after a write.
pub set-read :
    (slots : List Slot) (a b : ℕ) (new old : Slot)
    → IsIn slots a old
    → get_elem? (set slots a new) b ≡ (if a == b then some new else get_elem? slots b)
set-read [] a b new old here = cc
set-read (s ∷ slots) zero zero new old here = refl
set-read (s ∷ slots) zero (suc b) new old here = ground arith
set-read (s ∷ slots) (suc a) zero new old here = ground arith
set-read (s ∷ slots) (suc a) (suc b) new old here = ground (arith, set-read slots a b new old here)

pub load-set :
    (slots : List Slot) (a b : ℕ) (new old : Slot)
    → IsIn slots a old
    → load (set slots a new) b ≡ (if a == b then fill (length slots) a new else load slots b)
unfolding load
load-set slots a b new old here =
    ap (λ n. fill_of n b (get_elem? (set slots a new) b)) (length-set slots a new)
    ∙ ap (fill_of (length slots) b) (set-read slots a b new old here)
    ∙ elim (Bool-cases (a == b)) [
      | inl same ↦
          ap (λ t. fill_of (length slots) b (if t then some new else get_elem? slots b)) same
          ∙ ap (λ p. fill (length slots) p new) (sym ((==_iff a b).0 same))
          ∙ ap (λ t. if t then fill (length slots) a new else load slots b) (sym same)
      | inr other ↦
          ap (λ t. fill_of (length slots) b (if t then some new else get_elem? slots b)) other
          ∙ ap (λ t. if t then fill (length slots) a new else load slots b) (sym other)
    ]

pub record IsOrdered (slots : List Slot) : Type 0 where
  pub ordered :
      (pos : ℕ) → pos < length slots → load slots (next (length slots) pos) ≤ suc (load slots pos)

-- A write keeps the order where the new entry is at least as far from its place as the old one,
-- and no more than one farther than the one before it.
pub set-IsOrdered :
    (slots : List Slot) (pos : ℕ) (new old : Slot)
    → IsOrdered slots
    → IsIn slots pos old
    → load slots pos ≤ fill (length slots) pos new
    → ((before : ℕ)
        → before < length slots
        → next (length slots) before ≡ pos
        → fill (length slots) pos new ≤ suc (load slots before))
    → IsOrdered (set slots pos new)
set-IsOrdered slots pos new old o here more close = record {
  ordered = λ p inside.
      subst (λ n. load (set slots pos new) (next n p) ≤ suc (load (set slots pos new) p))
        (sym (length-set slots pos new))
        (at p (subst (λ n. p < n) (length-set slots pos new) inside));
}
  where
    at :
        (p : ℕ)
        → p < length slots
        → load (set slots pos new) (next (length slots) p) ≤ suc (load (set slots pos new) p)
    at p inside = ground (
      arith,
      load-set slots pos (next (length slots) p) new old here,
      load-set slots pos p new old here,
      o.ordered p inside,
      close p inside,
      more,
    )

pub load-steps :
    (slots : List Slot) (k pos : ℕ)
    → IsOrdered slots
    → pos < length slots
    → load slots (steps (length slots) k pos) ≤ load slots pos + k
load-steps slots zero pos o inside = omega arith
load-steps slots (suc k) pos o inside = omega (
  arith,
  load-steps slots k (next (length slots) pos) o (next-lt (length slots) pos inside),
  o.ordered pos inside,
)

-- With an empty slot, no entry is a whole round away from its place.
pub load-lt :
    (slots : List Slot) (free pos : ℕ)
    → IsOrdered slots
    → free < length slots
    → load slots free ≡ 0
    → pos < length slots
    → load slots pos < length slots
load-lt slots free pos o room none_there inside =
    let (k, short, there) = reached (length slots) free pos room inside in
    omega (
      arith,
      subst (λ p. load slots p ≤ load slots free + k) there (load-steps slots k free o room),
      short,
      none_there,
    )
