-- ===== src/SymbolTable/Entries.antt =====
-- What a table holds, and what a write into a slot does to that.
use millie.Prelude.{
  ℕ, zero, suc, ◌+◌, ◌<◌, ◌≡◌, ◌≢◌, ◌⊎◌, inl, inr, refl, sym, ap, ◌∙◌, subst, true, List, [], ◌∷◌,
  some, length, get_elem?, set, ◌==◌, ==_iff, if◌then◌else◌, arith, Bool-cases,
}
use mathlib.Core.Option.{some-injective}
use millie.Ast.{Symbol}
use millie.Parser.{Bytes}
use millie.SymbolTable.{Slot}
use millie.SymbolTable.Order.{IsIn, set-read}

-- A slot that is not empty holds a name with its symbol.
pub record Holds (key : Bytes) (value : Symbol) (slot : Slot) : Type 0 where
  pub occupied : slot.hash ≢ 0
  pub key_is : slot.key ≡ key
  pub value_is : slot.value ≡ value

abbrev pub Has : List Slot → Bytes → Symbol → Type 0
Has slots key value = (pos : ℕ) × (slot : Slot) × IsIn slots pos slot × Holds key value slot

-- A predicate of all slots that are not empty.
pub record Each (P : Slot → Type 0) (slots : List Slot) : Type 0 where
  pub each : (pos : ℕ) (slot : Slot) → IsIn slots pos slot → slot.hash ≢ 0 → P slot

abbrev pub weight : Slot → ℕ
weight slot = if slot.hash == 0 then 0 else 1

unfoldable pub used : List Slot → ℕ
used [] = 0
used (slot ∷ slots) = weight slot + used slots

module _ (slots : List Slot) (pos : ℕ) (new old : Slot) (here : IsIn slots pos old) where
  -- A slot after the write is the new one or an old one.
  written :
      (p : ℕ) (slot : Slot) → IsIn (set slots pos new) p slot → (new ≡ slot) ⊎ IsIn slots p slot
  written p slot there = elim (Bool-cases (pos == p)) [
    | inl same ↦ inl (
        some-injective _ _ (
          sym (ap (λ t. if t then some new else get_elem? slots p) same)
          ∙ sym (set-read slots pos p new old here)
          ∙ there))
    | inr other ↦ inr (
        sym (ap (λ t. if t then some new else get_elem? slots p) other)
        ∙ sym (set-read slots pos p new old here)
        ∙ there)
  ]

  -- An old slot is still there, or it is the one that was written over.
  kept : (p : ℕ) (slot : Slot) → IsIn slots p slot → (old ≡ slot) ⊎ IsIn (set slots pos new) p slot
  kept p slot there = elim (Bool-cases (pos == p)) [
    | inl same ↦
        inl (some-injective _ _ (sym here ∙ ap (get_elem? slots) ((==_iff pos p).0 same) ∙ there))
    | inr other ↦ inr (
        set-read slots pos p new old here
        ∙ ap (λ t. if t then some new else get_elem? slots p) other
        ∙ there)
  ]

  pub set-IsIn : IsIn (set slots pos new) pos new
  set-IsIn =
      set-read slots pos pos new old here
      ∙ ap (λ t. if t then some new else get_elem? slots pos) ((==_iff pos pos).1 refl)

  pub set-Each : {P : Slot → Type 0} → Each P slots → P new → Each P (set slots pos new)
  set-Each {P} e p = record {
    each = λ q slot there full. elim (written q slot there) [
      | inl is_new ↦ subst P is_new p
      | inr was ↦ e.each q slot was full
    ];
  }

  pub Has-set_from :
      (k : Bytes) (v : Symbol) → Has (set slots pos new) k v → Has slots k v ⊎ Holds k v new
  Has-set_from k v (p, slot, there, holds) = elim (written p slot there) [
    | inl is_new ↦ inr (subst (Holds k v) (sym is_new) holds)
    | inr was ↦ inl (p, slot, was, holds)
  ]

  pub Has-set_old :
      (k : Bytes) (v : Symbol) → Has slots k v → Has (set slots pos new) k v ⊎ Holds k v old
  Has-set_old k v (p, slot, there, holds) = elim (kept p slot there) [
    | inl was ↦ inr (subst (Holds k v) (sym was) holds)
    | inr still ↦ inl (p, slot, still, holds)
  ]

  pub Has-set_new : (k : Bytes) (v : Symbol) → Holds k v new → Has (set slots pos new) k v
  Has-set_new k v holds = (pos, new, set-IsIn, holds)

pub used-set :
    (slots : List Slot) (pos : ℕ) (new old : Slot)
    → IsIn slots pos old
    → used (set slots pos new) + weight old ≡ used slots + weight new
unfolding used
used-set [] pos new old here = cc
used-set (s ∷ slots) zero new old here = omega (arith, ap weight (some-injective _ _ here))
used-set (s ∷ slots) (suc pos) new old here = omega (arith, used-set slots pos new old here)

-- Where not all slots are used, one is empty.
pub used-free :
    (slots : List Slot)
    → used slots < length slots
    → (pos : ℕ) × (slot : Slot) × (pos < length slots)
      × IsIn slots pos slot
      × ((slot.hash == 0) ≡ true)
unfolding used
used-free [] h = absurd (omega (arith, h))
used-free (s ∷ slots) h = elim (Bool-cases (s.hash == 0)) [
  | inl empty ↦ (0, s, omega arith, refl, empty)
  | inr full ↦
      let (pos, slot, inside, there, empty) = used-free slots (ground (arith, full, h)) in
      (suc pos, slot, omega (arith, inside), there, empty)
]
