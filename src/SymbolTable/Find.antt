-- ===== src/SymbolTable/Find.antt =====
-- `_Find`: it ends, it finds a name that is in the table, and no other.
use millie.Prelude.{
  ℕ, zero, suc, ◌+◌, ◌^◌, ◌≤◌, ◌<◌, ◌≡◌, ◌≢◌, ◌↔◌, inl, inr, refl, sym, ap, ◌∙◌, subst, Bool, true,
  false, ◌&&◌, List, [], ◌∷◌, some, length, get_elem?, get_elem?-in_range, ◌==◌, ==_iff,
  if◌then◌else◌, arith, Bool-cases,
}
use native.Mathlib.Nat.{mod-lt}
use millie.Ast.{Symbol, invalid_symbol}
use millie.Parser.{Bytes}
use millie.SymbolTable.{
  Slot, SymbolTable, equals, next, probe_distance, desired_position, is_deleted, hash_string,
  find_loop, find,
}
use millie.SymbolTable.Probe.{next-lt, steps, reached, probe_distance-lt, steps-probe}
use millie.SymbolTable.Order.{IsIn, load, load-IsIn, IsOrdered, load-steps}
use millie.SymbolTable.Entries.{Holds, Has, Each, used, used-free}
use millie.SymbolTable.Carry.{full_fill, free_fill}
use millie.SymbolTable.Insert.{not_empty, FreeAhead}

pub equals_iff : (a b : Bytes) → (equals a b ≡ true) ↔ (a ≡ b)
unfolding equals
equals_iff a b = (equals-eq a b, λ e. subst (λ c. equals a c ≡ true) e (equals_refl a))
  where
    equals_refl : (a : Bytes) → equals a a ≡ true
    equals_refl [] = refl
    equals_refl (x ∷ xs) = ground (arith, equals_refl xs)

    equals-eq : (a b : Bytes) → equals a b ≡ true → a ≡ b
    equals-eq [] [] e = refl
    equals-eq [] (y ∷ ys) e = cc
    equals-eq (x ∷ xs) [] e = cc
    equals-eq (x ∷ xs) (y ∷ ys) e = ground (arith, e, equals-eq xs ys)

module _ (hash32 : Bytes → ℕ) where
  -- The hash of a name is neither that of an empty slot nor marked as deleted.
  pub hash_string_bounds :
      (key : Bytes) → (hash_string hash32 key ≢ 0) × (is_deleted (hash_string hash32 key) ≡ false)
  unfolding hash_string
  hash_string_bounds key =
      let small = mod-lt (hash32 key) {m = 2 ^ 31} (omega arith) in
      (λ e. ground (arith, e), ground (arith, small))

  abbrev pub Hashed : Slot → Type 0
  Hashed slot = slot.hash ≡ hash_string hash32 slot.key

  -- A name that no slot holds.
  abbrev pub IsAbsent : List Slot → Bytes → Type 0
  IsAbsent slots key =
      (pos : ℕ) (slot : Slot) → IsIn slots pos slot → slot.hash ≢ 0 → slot.key ≢ key

  find_loop-absent :
      (n g : ℕ) (slots : List Slot) (hash : ℕ) (key : Bytes) (pos dist : ℕ)
      → pos < length slots
      → IsAbsent slots key
      → FreeAhead slots pos g
      → g < n
      → find_loop hash32 n slots hash key pos dist ≡ some invalid_symbol
  unfolding find_loop
  find_loop-absent zero g slots hash key pos dist inside absent ahead short =
      absurd (omega (arith, short))
  find_loop-absent (suc n) zero slots hash key pos dist inside absent (slot, here, empty) short =
      ground (arith, here, empty)
  find_loop-absent (suc n) (suc g) slots hash key pos dist inside absent ahead short =
      let (existing, here) = get_elem?-in_range slots pos inside in
      let again =
        find_loop-absent n g slots hash key (next (length slots) pos) (dist + 1)
          (next-lt (length slots) pos inside) absent ahead (omega (arith, short)) in
      elim (Bool-cases (existing.hash == 0)) [
        | inl empty ↦ ground (arith, here, empty)
        | inr full ↦ elim (Bool-cases (equals key existing.key)) [
          | inl same ↦ absurd (
              absent pos existing here (not_empty existing full)
                (sym ((equals_iff key existing.key).0 same)))
          | inr other ↦ ground (arith, here, full, other, again)
        ]
      ]

  -- A round at a slot that is in use and far enough from its place.
  find_step :
      (n : ℕ) (slots : List Slot) (hash : ℕ) (key : Bytes) (pos dist : ℕ) (existing : Slot)
      → IsIn slots pos existing
      → (existing.hash == 0) ≡ false
      → dist ≤ probe_distance (length slots) existing.hash pos
      → find_loop hash32 (suc n) slots hash key pos dist ≡ (
          if (hash == existing.hash) && equals key existing.key
          then some existing.value
          else find_loop hash32 n slots hash key (next (length slots) pos) (dist + 1))
  unfolding find_loop
  find_step n slots hash key pos dist existing here full far = ground (arith, here, full, far)

  -- The slot `r` steps ahead holds the name, at its distance from its place.
  find_loop-present :
      (n r : ℕ) (slots : List Slot) (key : Bytes) (value : Symbol) (pos dist : ℕ) (target : Slot)
      → IsOrdered slots
      → pos < length slots
      → ((v : Symbol) → Has slots key v → v ≡ value)
      → IsIn slots (steps (length slots) r pos) target
      → Holds key value target
      → target.hash ≡ hash_string hash32 key
      → load slots (steps (length slots) r pos) ≡ suc (dist + r)
      → r < n
      → find_loop hash32 n slots (hash_string hash32 key) key pos dist ≡ some value
  find_loop-present zero r slots key value pos dist target order inside unique there holds hashed
        far short =
      absurd (omega (arith, short))
  find_loop-present (suc n) zero slots key value pos dist target order inside unique there holds
        hashed far short =
      let test = (==_iff (hash_string hash32 key) target.hash).1 (sym hashed) in
      let same = (equals_iff key target.key).1 (sym holds.key_is) in
      let used_here = full_slot target holds.occupied in
      let place =
        sym (load-IsIn slots pos target there ∙ full_fill (length slots) pos target holds.occupied)
        ∙ far in
      find_step n slots (hash_string hash32 key) key pos dist target there used_here
        (omega (arith, place))
      ∙ ground (arith, test, same, holds.value_is)
    where
      full_slot : (slot : Slot) → slot.hash ≢ 0 → (slot.hash == 0) ≡ false
      full_slot slot h = ground (arith, h)
  find_loop-present (suc n) (suc r) slots key value pos dist target order inside unique there holds
        hashed far short =
      let (existing, here) = get_elem?-in_range slots pos inside in
      let above = load-steps slots (suc r) pos order inside in
      let loaded = load-IsIn slots pos existing here in
      elim (Bool-cases (existing.hash == 0)) [
        | inl empty ↦
            absurd (omega (arith, above, far, loaded, free_fill (length slots) pos existing empty))
        | inr full ↦
            let nonzero = not_empty existing full in
            let place = full_fill (length slots) pos existing nonzero in
            find_step n slots (hash_string hash32 key) key pos dist existing here full
              (omega (arith, above, far, loaded, place))
            ∙ elim (Bool-cases
                ((hash_string hash32 key == existing.hash) && equals key existing.key)) [
                  | inl test ↦
                      ap
                        (λ b.
                          if b
                          then some existing.value
                          else find_loop hash32 n slots (hash_string hash32 key) key
                              (next (length slots) pos) (dist + 1))
                        test
                      ∙ ap some (
                          unique existing.value (
                            pos,
                            existing,
                            here,
                            record {
                              occupied = nonzero;
                              key_is = sym ((equals_iff key existing.key).0 (second_true _ _ test));
                              value_is = refl;
                            },
                          ))
                  | inr other ↦
                      ap
                        (λ b.
                          if b
                          then some existing.value
                          else find_loop hash32 n slots (hash_string hash32 key) key
                              (next (length slots) pos) (dist + 1))
                        other
                      ∙ find_loop-present n r slots key value (next (length slots) pos) (dist + 1)
                          target order (next-lt (length slots) pos inside) unique there holds hashed
                          (far ∙ omega arith) (omega (arith, short))
                ]
      ]
    where
      second_true : (a b : Bool) → (a && b) ≡ true → b ≡ true
      second_true true b e = e
      second_true false b e = cc

  -- The whole search, in a table in which each name has one symbol.
  pub find-present :
      (table : SymbolTable) (key : Bytes) (value : Symbol)
      → IsOrdered table.slots
      → Each Hashed table.slots
      → ((v : Symbol) → Has table.slots key v → v ≡ value)
      → Has table.slots key value
      → find hash32 table key ≡ some value
  unfolding find
  find-present table key value order hashed unique (pos, slot, here, holds) =
      let slots = table.slots in
      let cap = length slots in
      let inside = IsIn-lt slots pos slot here in
      let hash_is =
        hashed.each pos slot here holds.occupied ∙ ap (hash_string hash32) holds.key_is in
      let back = steps-probe cap slot.hash pos inside in
      let place = ap (desired_position cap) hash_is in
      let arrives = ap (λ p. steps cap (probe_distance cap slot.hash pos) p) (sym place) ∙ back in
      find_loop-present cap (probe_distance cap slot.hash pos) slots key value
        (desired_position cap (hash_string hash32 key)) 0 slot order
        (mod-lt (hash_string hash32 key) {m = cap} (omega (arith, inside))) unique
        (ap (get_elem? slots) arrives ∙ here) holds hash_is
        (ap (load slots) arrives
          ∙ load-IsIn slots pos slot here
          ∙ full_fill cap pos slot holds.occupied
          ∙ omega arith)
        (probe_distance-lt cap slot.hash pos inside)
    where
      IsIn-lt :
          (slots : List Slot) (pos : ℕ) (slot : Slot) → IsIn slots pos slot → pos < length slots
      IsIn-lt [] pos slot e = cc
      IsIn-lt (s ∷ slots) zero slot e = omega arith
      IsIn-lt (s ∷ slots) (suc pos) slot e = omega (arith, IsIn-lt slots pos slot e)

  pub find-absent :
      (table : SymbolTable) (key : Bytes)
      → IsAbsent table.slots key
      → used table.slots < length table.slots
      → find hash32 table key ≡ some invalid_symbol
  unfolding find
  find-absent table key absent room =
      let slots = table.slots in
      let (free, slot, inside, there, empty) = used-free slots room in
      let hash = hash_string hash32 key in
      let start_in = mod-lt hash {m = length slots} (omega (arith, inside)) in
      let (g, short, arrives) =
        reached (length slots) (desired_position (length slots) hash) free start_in inside in
      find_loop-absent (length slots) g slots hash key (desired_position (length slots) hash) 0
        start_in absent (slot, ap (get_elem? slots) arrives ∙ there, empty) short
