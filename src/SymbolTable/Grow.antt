-- ===== src/SymbolTable/Grow.antt =====
-- `_Grow`: the larger table holds what the smaller one held.
use millie.Prelude.{
  ◌+◌, ◌*◌, ◌/◌, ◌%◌, ◌^◌, ◌≤◌, ◌<◌, ◌≡◌, ◌↔◌, inl, inr, refl, ◌∙◌, false, List, [], ◌∷◌, some,
  length, length-replicate, replicate, ◌==◌, arith, Bool-cases,
}
use native.Mathlib.Nat.{mod-le}
use millie.Ast.{Symbol}
use millie.Parser.{Bytes}
use millie.SymbolTable.{Slot, empty_slot, SymbolTable, is_deleted, allocate, reinsert, grow}
use millie.SymbolTable.Order.{IsOrdered}
use millie.SymbolTable.Entries.{Has, Each, used}
use millie.SymbolTable.Insert.{insert_helper-Inserted, not_empty}
use millie.SymbolTable.Reinsert.{
  used-replicate, replicate-IsOrdered, replicate-Each, replicate-Has, Each-tail, Reinserted,
  skipped, added,
}

module _ (P : Slot → Type 0)
    (not_deleted : (slot : Slot) → P slot → is_deleted slot.hash ≡ false) where
  pub reinsert-Reinserted :
      (olds slots : List Slot)
      → IsOrdered slots
      → Each P slots
      → Each P olds
      → used slots + used olds < length slots
      → (slots' : List Slot) × (reinsert olds slots ≡ some slots') × Reinserted P olds slots slots'
  unfolding reinsert used
  reinsert-Reinserted [] slots order good olds_good room = (
    slots,
    refl,
    record {
      same_length = refl;
      order = order;
      all_slots = good;
      all_used = omega arith;
      entries = λ k v.
          (inl, λ h. elim h [ inl old ↦ old | inr none_there ↦ absurd (nothing k v none_there) ]);
    },
  )
    where
      nothing : (k : Bytes) (v : Symbol) → Has [] k v → ⊥
      nothing k v (pos, slot, there, holds) = cc
  reinsert-Reinserted (s ∷ olds) slots order good olds_good room = elim (Bool-cases (s.hash == 0)) [
    | inl empty ↦
        let rest =
          reinsert-Reinserted olds slots order good (Each-tail s olds olds_good)
            (ground (arith, room, empty)) in
        (rest.0, ground (arith, empty, rest.1), skipped s olds slots rest.0 empty rest.2)
    | inr full ↦
        let nonzero = not_empty s full in
        let fits = olds_good.each 0 s refl nonzero in
        let first =
          insert_helper-Inserted P not_deleted slots s order good fits nonzero
            (omega (arith, room)) in
        let rest =
          reinsert-Reinserted olds first.0 first.2.order first.2.all_slots
            (Each-tail s olds olds_good)
            (ground (arith, first.2.one_more, first.2.same_length, room, full)) in
        (
          rest.0,
          ground (arith, full, not_deleted s fits, first.1, rest.1),
          added s olds slots first.0 rest.0 full first.2 rest.2,
        )
  ]

  -- The larger table holds what the table held, and has twice the slots.
  pub record Grown (table table' : SymbolTable) : Type 0 where
    pub doubled : length table'.slots ≡ length table.slots * 2
    pub order : IsOrdered table'.slots
    pub all_slots : Each P table'.slots
    pub same_used : used table'.slots ≡ used table.slots
    pub same_count : table'.item_count ≡ table.item_count
    pub threshold_le : table'.resize_threshold ≤ length table'.slots
    pub entries : (k : Bytes) (v : Symbol) → Has table'.slots k v ↔ Has table.slots k v

  pub grow-Grown :
      (table : SymbolTable)
      → Each P table.slots
      → used table.slots < length table.slots
      → length table.slots < 2 ^ 31
      → (table' : SymbolTable) × (grow table ≡ some table') × Grown table table'
  unfolding grow allocate
  grow-Grown table good room small =
      let wide = length table.slots * 2 % 2 ^ 32 in
      let wide_is : wide ≡ length table.slots * 2 = omega (arith, small) in
      let size = length-replicate wide empty_slot in
      let r =
        reinsert-Reinserted table.slots (replicate wide empty_slot) (replicate-IsOrdered wide)
          (replicate-Each P wide) good (omega (arith, used-replicate wide, size, wide_is, room)) in
      let grown : SymbolTable = record {
        slots = r.0;
        item_count = table.item_count;
        resize_threshold = wide * 90 % 2 ^ 32 / 100;
      } in
      (
        grown,
        ground (arith, r.1),
        record {
          doubled = r.2.same_length ∙ size ∙ wide_is;
          order = r.2.order;
          all_slots = r.2.all_slots;
          same_used = r.2.all_used ∙ omega (arith, used-replicate wide);
          same_count = refl;
          threshold_le = omega (arith, r.2.same_length, size, mod-le (wide * 90) (2 ^ 32));
          entries = λ k v. (
            λ h. elim ((r.2.entries k v).0 h) [
              | inl new ↦ absurd (replicate-Has wide k v new)
              | inr old ↦ old
            ],
            λ h. (r.2.entries k v).1 (inr h),
          );
        },
      )
