-- ===== src/SymbolTable/Insert.antt =====
-- `_InsertHelper`: it ends, keeps the order of the table, and adds its entry to the others.
use millie.Prelude.{
  ℕ, zero, suc, ◌+◌, ◌<◌, ◌≡◌, ◌≢◌, ◌⊎◌, inl, inr, sym, ap, ◌∙◌, subst, true, false, List, some,
  length, length-set, get_elem?, get_elem?-in_range, set, ltb, ◌==◌, ==_iff, if◌then◌else◌, arith,
  Bool-cases,
}
use mathlib.Core.Option.{some-injective}
use native.Mathlib.Nat.{mod-lt}
use millie.SymbolTable.{
  Slot, next, probe_distance, desired_position, is_deleted, insert_loop, insert_helper,
}
use millie.SymbolTable.Probe.{steps, steps-lt, reached, probe-desired}
use millie.SymbolTable.Order.{IsIn, load-IsIn, set-read, IsOrdered}
use millie.SymbolTable.Entries.{Each, used, used-free}
use millie.SymbolTable.Carry.{
  Inserted, IsCarried, free_fill, fill-Inserted, swap-Inserted, pass-IsCarried, swap-IsCarried,
}

-- `g` steps ahead there is an empty slot.
abbrev pub FreeAhead : List Slot → ℕ → ℕ → Type 0
FreeAhead slots pos g =
    (slot : Slot) × IsIn slots (steps (length slots) g pos) slot × ((slot.hash == 0) ≡ true)

pub not_empty : (slot : Slot) → (slot.hash == 0) ≡ false → slot.hash ≢ 0
not_empty slot full q = ground (arith, full, q)

-- It is still there after a write into a slot that is not empty.
set-FreeAhead :
    (slots : List Slot) (pos g : ℕ) (new existing : Slot)
    → IsIn slots pos existing
    → (existing.hash == 0) ≡ false
    → FreeAhead slots pos (suc g)
    → FreeAhead (set slots pos new) (next (length slots) pos) g
set-FreeAhead slots pos g new existing here full (slot, there, empty) =
    subst
      (λ n.
        (x : Slot) × IsIn (set slots pos new) (steps n g (next (length slots) pos)) x
        × ((x.hash == 0) ≡ true))
      (sym (length-set slots pos new)) (slot, read (Bool-cases (pos == free)), empty)
  where
    free : ℕ
    free = steps (length slots) g (next (length slots) pos)

    read : ((pos == free) ≡ true) ⊎ ((pos == free) ≡ false) → IsIn (set slots pos new) free slot
    read (inl same) =
        let slot_is =
          some-injective _ _ (sym here ∙ ap (get_elem? slots) ((==_iff pos free).0 same) ∙ there) in
        absurd (true_ne (sym empty ∙ ap (λ (x : Slot). x.hash == 0) (sym slot_is) ∙ full))
      where
        true_ne : true ≡ false → ⊥
        true_ne q = cc
    read (inr other) =
        set-read slots pos free new existing here
        ∙ ap (λ t. if t then some new else get_elem? slots free) other
        ∙ there

module _ (P : Slot → Type 0)
    (not_deleted : (slot : Slot) → P slot → is_deleted slot.hash ≡ false) where
  -- The loop ends at an empty slot at the latest.
  insert_loop-Inserted :
      (n g : ℕ) (slots : List Slot) (item : Slot) (pos dist : ℕ)
      → IsCarried P slots item pos dist
      → FreeAhead slots pos g
      → g < n
      → (slots' : List Slot) × (insert_loop n slots pos dist item ≡ some slots')
        × Inserted P slots item slots'
  unfolding insert_loop
  insert_loop-Inserted zero g slots item pos dist c ahead short = absurd (omega (arith, short))
  insert_loop-Inserted (suc n) zero slots item pos dist c (slot, here, empty) short = (
    set slots pos item,
    ground (arith, here, empty),
    fill-Inserted P slots item pos dist c slot here empty,
  )
  insert_loop-Inserted (suc n) (suc g) slots item pos dist c ahead short =
      let (existing, here) = get_elem?-in_range slots pos c.inside in
      let cap = length slots in
      let place = probe_distance cap existing.hash pos in
      elim (Bool-cases (existing.hash == 0)) [
        | inl empty ↦ (
          set slots pos item,
          ground (arith, here, empty),
          fill-Inserted P slots item pos dist c existing here empty,
        )
        | inr full ↦
            let nonzero = not_empty existing full in
            let free = steps cap (suc g) pos in
            let room = steps-lt cap (suc g) pos c.inside in
            let gap = load-IsIn slots free ahead.0 ahead.1 ∙ free_fill cap free ahead.0 ahead.2 in
            elim (Bool-cases (ltb place dist)) [
              | inl near ↦
                  let kept = not_deleted existing (c.all_slots.each pos existing here nonzero) in
                  let carried =
                    swap-IsCarried P slots item pos dist c existing here nonzero free room gap
                      (ground (arith, near)) in
                  let r =
                    insert_loop-Inserted n g (set slots pos item) existing (next cap pos)
                      (place + 1) carried (set-FreeAhead slots pos g item existing here full ahead)
                      (omega (arith, short)) in
                  (
                    r.0,
                    ground (arith, here, full, near, kept, r.1),
                    swap-Inserted P slots item pos dist c existing here r.0 nonzero r.2,
                  )
              | inr far ↦
                  let r =
                    insert_loop-Inserted n g slots item (next cap pos) (dist + 1)
                      (pass-IsCarried P slots item pos dist c existing here nonzero free room gap
                        (ground (arith, far)))
                      ahead (omega (arith, short)) in
                  (r.0, ground (arith, here, full, far, r.1), r.2)
            ]
      ]

  -- An insertion into a table that is not full.
  pub insert_helper-Inserted :
      (slots : List Slot) (item : Slot)
      → IsOrdered slots
      → Each P slots
      → P item
      → item.hash ≢ 0
      → used slots < length slots
      → (slots' : List Slot) × (insert_helper slots item ≡ some slots')
        × Inserted P slots item slots'
  unfolding insert_helper
  insert_helper-Inserted slots item order all_slots good full room =
      let (free, slot, inside, there, empty) = used-free slots room in
      let start = desired_position (length slots) item.hash in
      let start_in = mod-lt item.hash {m = length slots} (omega (arith, inside)) in
      let (g, short, arrives) = reached (length slots) start free start_in inside in
      insert_loop-Inserted (length slots) g slots item start 0
        (record {
          inside = start_in;
          order = order;
          all_slots = all_slots;
          good = good;
          full = full;
          away = probe-desired (length slots) item.hash (omega (arith, inside));
          close = λ q h e. omega arith;
        })
        (slot, ap (get_elem? slots) arrives ∙ there, empty) short
