-- ===== src/SymbolTable/Reinsert.antt =====
-- The new slots of `_Allocate`, and how the entries of the old ones are put into them.
use millie.Prelude.{
  ℕ, zero, suc, ◌+◌, ◌≡◌, ◌⊎◌, ◌↔◌, inl, inr, refl, sym, ap, ◌∙◌, subst, true, false, List, ◌∷◌,
  length, get_elem?, replicate, ◌==◌, arith, Option-cases,
}
use mathlib.Core.Option.{some-injective}
use millie.Ast.{Symbol}
use millie.Parser.{Bytes}
use millie.SymbolTable.{Slot, empty_slot, next}
use millie.SymbolTable.Order.{IsIn, load, load-IsIn, load-outside, IsOrdered}
use millie.SymbolTable.Entries.{Holds, Has, Each, used}
use millie.SymbolTable.Carry.{Inserted, free_fill}

-- Slots that are all empty.
replicate-IsIn :
    (n pos : ℕ) (slot : Slot) → IsIn (replicate n empty_slot) pos slot → slot ≡ empty_slot
replicate-IsIn zero pos slot e = cc
replicate-IsIn (suc n) zero slot e = sym (some-injective _ _ e)
replicate-IsIn (suc n) (suc pos) slot e = replicate-IsIn n pos slot e

pub used-replicate : (n : ℕ) → used (replicate n empty_slot) ≡ 0
unfolding used
used-replicate zero = refl
used-replicate (suc n) = omega (arith, used-replicate n)

load-replicate : (n pos : ℕ) → load (replicate n empty_slot) pos ≡ 0
load-replicate n pos = elim (Option-cases (get_elem? (replicate n empty_slot) pos)) [
  | inl outside ↦ load-outside (replicate n empty_slot) pos outside
  | inr (slot, there) ↦
      load-IsIn (replicate n empty_slot) pos slot there
      ∙ free_fill (length (replicate n empty_slot)) pos slot
          (ap (λ (s : Slot). s.hash == 0) (replicate-IsIn n pos slot there))
]

pub replicate-IsOrdered : (n : ℕ) → IsOrdered (replicate n empty_slot)
replicate-IsOrdered n = record {
  ordered =
      λ pos inside. omega (arith, load-replicate n (next (length (replicate n empty_slot)) pos));
}

empty_key : (slot : Slot) → slot ≡ empty_slot → slot.hash ≡ 0
empty_key slot e = ap (λ (s : Slot). s.hash) e

pub replicate-Each : (P : Slot → Type 0) (n : ℕ) → Each P (replicate n empty_slot)
replicate-Each P n = record {
  each = λ pos slot there full. absurd (full (empty_key slot (replicate-IsIn n pos slot there)));
}

pub replicate-Has : (n : ℕ) (k : Bytes) (v : Symbol) → Has (replicate n empty_slot) k v → ⊥
replicate-Has n k v (pos, slot, there, holds) =
    holds.occupied (empty_key slot (replicate-IsIn n pos slot there))

Has-cons :
    (s : Slot) (slots : List Slot) (k : Bytes) (v : Symbol)
    → Has (s ∷ slots) k v ↔ (Holds k v s ⊎ Has slots k v)
Has-cons s slots k v = (split, join)
  where
    split : Has (s ∷ slots) k v → Holds k v s ⊎ Has slots k v
    split (zero, slot, there, holds) =
        inl (subst (Holds k v) (sym (some-injective _ _ there)) holds)
    split (suc pos, slot, there, holds) = inr (pos, slot, there, holds)

    join : Holds k v s ⊎ Has slots k v → Has (s ∷ slots) k v
    join (inl holds) = (0, s, refl, holds)
    join (inr (pos, slot, there, holds)) = (suc pos, slot, there, holds)

pub Each-tail :
    {P : Slot → Type 0} (s : Slot) (slots : List Slot) → Each P (s ∷ slots) → Each P slots
Each-tail s slots e = record { each = λ pos slot there full. e.each (suc pos) slot there full }

-- What the loop makes of the new slots: all old entries are added.
pub record Reinserted (P : Slot → Type 0) (olds slots slots' : List Slot) : Type 0 where
  pub same_length : length slots' ≡ length slots
  pub order : IsOrdered slots'
  pub all_slots : Each P slots'
  pub all_used : used slots' ≡ used slots + used olds
  pub entries : (k : Bytes) (v : Symbol) → Has slots' k v ↔ (Has slots k v ⊎ Has olds k v)

-- An empty slot is passed over.
pub skipped :
    {P : Slot → Type 0} (s : Slot) (olds slots slots' : List Slot)
    → (s.hash == 0) ≡ true
    → Reinserted P olds slots slots'
    → Reinserted P (s ∷ olds) slots slots'
unfolding used
skipped s olds slots slots' empty r = record {
  same_length = r.same_length;
  order = r.order;
  all_slots = r.all_slots;
  all_used = ground (arith, r.all_used, empty);
  entries = λ k v. (
    λ h. elim ((r.entries k v).0 h) [
      | inl before ↦ inl before
      | inr later ↦ inr ((Has-cons s olds k v).1 (inr later))
    ],
    λ h. (r.entries k v).1 (elim h [
      | inl before ↦ inl before
      | inr old ↦ elim ((Has-cons s olds k v).0 old) [
        | inl is_s ↦ absurd (is_s.occupied (ground (arith, empty)))
        | inr later ↦ inr later
      ]
    ]),
  );
}

-- An entry is inserted before the rest of them.
pub added :
    {P : Slot → Type 0} (s : Slot) (olds slots between slots' : List Slot)
    → (s.hash == 0) ≡ false
    → Inserted P slots s between
    → Reinserted P olds between slots'
    → Reinserted P (s ∷ olds) slots slots'
unfolding used
added s olds slots between slots' full i r = record {
  same_length = r.same_length ∙ i.same_length;
  order = r.order;
  all_slots = r.all_slots;
  all_used = ground (arith, r.all_used, i.one_more, full);
  entries = λ k v. (
    λ h. elim ((r.entries k v).0 h) [
      | inl b ↦ elim ((i.entries k v).0 b) [
        | inl before ↦ inl before
        | inr is_s ↦ inr ((Has-cons s olds k v).1 (inl is_s))
      ]
      | inr later ↦ inr ((Has-cons s olds k v).1 (inr later))
    ],
    λ h. (r.entries k v).1 (elim h [
      | inl before ↦ inl ((i.entries k v).1 (inl before))
      | inr old ↦ elim ((Has-cons s olds k v).0 old) [
        | inl is_s ↦ inl ((i.entries k v).1 (inr is_s))
        | inr later ↦ inr later
      ]
    ]),
  );
}
