-- ===== src/SymbolTable/Refines.antt =====
-- `FindOrCreateSymbol` against what the symbol table promises.
use millie.Prelude.{
  ℕ, suc, ◌+◌, ◌*◌, ◌^◌, ◌≤◌, ◌<◌, ◌≡◌, ◌≢◌, ◌⊎◌, ◌↔◌, inl, inr, refl, sym, ap, ◌∙◌, subst, false,
  List, [], ◌∷◌, ◌++◌, Option, some, ◌>>=◌, length, length-append, length-replicate, leb, ◌==◌,
  ==_iff, if◌then◌else◌, arith, Bool-cases,
}
use native.Mathlib.Nat.{mod-le}
use millie.Ast.{Symbol}
use millie.Parser.{Bytes}
use millie.SymbolTable.{
  Slot, empty_slot, SymbolTable, allocate, is_deleted, hash_string, find, grow, insert_helper,
  create_symbol, find_or_create_symbol, symbol_table_create,
}
use millie.SymbolTable.Order.{IsOrdered}
use millie.SymbolTable.Entries.{Holds, Has, Each, used}
use millie.SymbolTable.Insert.{insert_helper-Inserted}
use millie.SymbolTable.Find.{Hashed, hash_string_bounds, find-present, find-absent}
use millie.SymbolTable.Reinsert.{replicate-IsOrdered, replicate-Each, replicate-Has, used-replicate}
use millie.SymbolTable.Grow.{grow-Grown}
use millie.SymbolTable.Names.{
  symbol_of, intern, intern_as, symbol_of-append_old, symbol_of-append_new, symbol_of-append_other,
}

module _ (hash32 : Bytes → ℕ) where
  pub not_deleted : (slot : Slot) → Hashed hash32 slot → is_deleted slot.hash ≡ false
  not_deleted slot h = ap is_deleted h ∙ (hash_string_bounds hash32 slot.key).1

  -- A table in order that holds just the names of a list, each with its number, and has room.
  pub record Represents (names : List Bytes) (table : SymbolTable) : Type 0 where
    pub order : IsOrdered table.slots
    pub hashed : Each (Hashed hash32) table.slots
    pub in_use : used table.slots ≡ length names
    pub count : table.item_count ≡ length names
    pub room : length names < length table.slots
    pub threshold_le : table.resize_threshold ≤ length table.slots
    pub entries :
        (k : Bytes) (v : Symbol) → Has table.slots k v ↔ ((symbol_of names k ≡ v) × (v ≢ 0))

  -- A search gives the number of a name, and 0 for a name that is not there.
  pub find-Represents :
      (names : List Bytes) (table : SymbolTable) (key : Bytes)
      → Represents names table
      → find hash32 table key ≡ some (symbol_of names key)
  find-Represents names table key r = elim (Bool-cases (symbol_of names key == 0)) [
    | inl absent ↦
        find-absent hash32 table key
          (λ pos slot there full same.
            let named =
              (r.entries key slot.value).0
                (pos, slot, there, record { occupied = full; key_is = same; value_is = refl }) in
            named.1 (sym named.0 ∙ (==_iff _ 0).0 absent))
          (omega (arith, r.in_use, r.room))
        ∙ ap some (sym ((==_iff _ 0).0 absent))
    | inr there ↦
        find-present hash32 table key (symbol_of names key) r.order r.hashed
          (λ v has. sym ((r.entries key v).0 has).0)
          ((r.entries key (symbol_of names key)).1 (refl, λ e. ground (arith, there, e)))
  ]

  module _ (names : List Bytes) (key : Bytes) (absent : symbol_of names key ≡ 0) where
    new_entry : Slot
    new_entry = record { hash = hash_string hash32 key; key = key; value = length names + 1 }

    -- The entries with one more are those of the longer list.
    entries_then :
        (slots : List Slot)
        → ((k : Bytes) (v : Symbol) → Has slots k v ↔ ((symbol_of names k ≡ v) × (v ≢ 0)))
        → (k : Bytes) (v : Symbol)
        → (Has slots k v ⊎ Holds k v new_entry) ↔ ((symbol_of (names ++ key ∷ []) k ≡ v) × (v ≢ 0))
    unfolding new_entry
    entries_then slots entries k v = (forth, back)
      where
        added : symbol_of (names ++ key ∷ []) key ≡ suc (length names)
        added = symbol_of-append_new names key absent

        forth :
            Has slots k v ⊎ Holds k v new_entry → (symbol_of (names ++ key ∷ []) k ≡ v) × (v ≢ 0)
        forth (inl has) =
            let old = (entries k v).0 has in
            (symbol_of-append_old names (key ∷ []) k (λ e. old.1 (sym old.0 ∙ e)) ∙ old.0, old.1)
        forth (inr holds) = (
          ap (symbol_of (names ++ key ∷ [])) (sym holds.key_is)
              ∙ added
              ∙ omega (arith, holds.value_is),
          λ e. absurd (omega (arith, holds.value_is, e)),
        )

        back : (symbol_of (names ++ key ∷ []) k ≡ v) × (v ≢ 0) → Has slots k v ⊎ Holds k v new_entry
        back (is_v, nonzero) = elim (Bool-cases (symbol_of names k == 0)) [
          | inl none_there ↦
              let k_is =
                symbol_of-append_other names key k ((==_iff _ 0).0 none_there)
                  (λ e. nonzero (sym is_v ∙ e)) in
              inr (record {
                occupied = (hash_string_bounds hash32 key).0;
                key_is = k_is;
                value_is = omega (arith, ap (symbol_of (names ++ key ∷ [])) k_is, added, is_v);
              })
          | inr there ↦ inl (
              (entries k v).1 (
                sym (symbol_of-append_old names (key ∷ []) k (λ e. ground (arith, there, e)))
                    ∙ is_v,
                nonzero,
              ))
        ]

  -- A table that has counted a name more than it holds, and has room for it.
  record IsRoomy (names : List Bytes) (table : SymbolTable) : Type 0 where
    order : IsOrdered table.slots
    hashed : Each (Hashed hash32) table.slots
    in_use : used table.slots ≡ length names
    count : table.item_count ≡ length names + 1
    room : length names + 1 < length table.slots
    threshold_le : table.resize_threshold ≤ length table.slots
    entries : (k : Bytes) (v : Symbol) → Has table.slots k v ↔ ((symbol_of names k ≡ v) × (v ≢ 0))

  -- The test of `FindOrCreateSymbol`, which lets the table grow in time.
  make_room :
      (names : List Bytes) (table : SymbolTable)
      → Represents names table
      → length table.slots < 2 ^ 31
      → (roomy : SymbolTable) × ((if leb table.resize_threshold (table.item_count + 1)
            then grow (record table { item_count = table.item_count + 1 })
            else some (record table { item_count = table.item_count + 1 }))
          ≡ some roomy)
        × IsRoomy names roomy
  make_room names table r small =
      let counted : SymbolTable = record table { item_count = table.item_count + 1 } in
      elim (Bool-cases (leb table.resize_threshold (table.item_count + 1))) [
        | inl full ↦
            let g =
              grow-Grown (Hashed hash32) not_deleted counted r.hashed
                (omega (arith, r.in_use, r.room)) small in
            (
              g.0,
              ap (λ b. if b then grow counted else some counted) full ∙ g.1,
              record {
                order = g.2.order;
                hashed = g.2.all_slots;
                in_use = g.2.same_used ∙ r.in_use;
                count = g.2.same_count ∙ omega (arith, r.count);
                room = omega (arith, g.2.doubled, r.room);
                threshold_le = g.2.threshold_le;
                entries = λ k v. (
                  λ h. (r.entries k v).0 ((g.2.entries k v).0 h),
                  λ h. (g.2.entries k v).1 ((r.entries k v).1 h),
                );
              },
            )
        | inr some_left ↦ (
          counted,
          ap (λ b. if b then grow counted else some counted) some_left,
          record {
            order = r.order;
            hashed = r.hashed;
            in_use = r.in_use;
            count = omega (arith, r.count);
            room = ground (arith, some_left, r.threshold_le, r.count);
            threshold_le = r.threshold_le;
            entries = r.entries;
          },
        )
      ]

  -- A new name is entered with the next number.
  create_symbol-Represents :
      (names : List Bytes) (table : SymbolTable) (key : Bytes)
      → symbol_of names key ≡ 0
      → Represents names table
      → length table.slots < 2 ^ 31
      → (table' : SymbolTable) × (create_symbol hash32 table key ≡ some (length names + 1, table'))
        × Represents (names ++ key ∷ []) table'
  unfolding create_symbol new_entry
  create_symbol-Represents names table key absent r small =
      let m = make_room names table r small in
      let i =
        insert_helper-Inserted (Hashed hash32) not_deleted m.0.slots (new_entry names key absent)
          m.2.order m.2.hashed refl (hash_string_bounds hash32 key).0
          (omega (arith, m.2.in_use, m.2.room)) in
      let longer = length-append names (key ∷ []) in
      (
        record m.0 { slots = i.0 },
        ap
              (λ (o : Option SymbolTable). o >>= λ roomy.
                insert_helper roomy.slots (record {
                  hash = hash_string hash32 key;
                  key = key;
                  value = table.item_count + 1;
                })
                >>= λ slots. some (table.item_count + 1, record roomy { slots = slots }))
              m.1
            ∙ ap
                (λ (c : ℕ).
                  insert_helper m.0.slots
                    (record { hash = hash_string hash32 key; key = key; value = c + 1 })
                  >>= λ slots. some (c + 1, record m.0 { slots = slots }))
                r.count
            ∙ ap
                (λ (o : Option (List Slot)).
                  o >>= λ slots. some (length names + 1, record m.0 { slots = slots }))
                i.1,
        record {
          order = i.2.order;
          hashed = i.2.all_slots;
          in_use = omega (arith, i.2.one_more, m.2.in_use, longer);
          count = omega (arith, m.2.count, longer);
          room = omega (arith, i.2.same_length, m.2.room, longer);
          threshold_le = omega (arith, i.2.same_length, m.2.threshold_le);
          entries = λ k v. (
            λ h.
                (entries_then names key absent m.0.slots m.2.entries k v).0 ((i.2.entries k v).0 h),
            λ h.
                (i.2.entries k v).1 ((entries_then names key absent m.0.slots m.2.entries k v).1 h),
          );
        },
      )

  -- `FindOrCreateSymbol` always returns, and it interns: on a table that represents a list of names
  -- and has fewer than 2 ^ 31 slots, it gives a name of the list its number and leaves the table as
  -- it is, and gives any other name the next number, in a table that represents the list with that
  -- name behind it. This holds for every hash function.
  pub find_or_create_symbol-intern :
      (names : List Bytes) (table : SymbolTable) (key : Bytes)
      → Represents names table
      → length table.slots < 2 ^ 31
      → (table' : SymbolTable) × (find_or_create_symbol hash32 table key
          ≡ some ((intern names key).0, table'))
        × Represents (intern names key).1 table'
        × (symbol_of names key ≢ 0 → table' ≡ table)
  unfolding find_or_create_symbol
  find_or_create_symbol-intern names table key r small =
      let found = find-Represents names table key r in
      elim (Bool-cases (symbol_of names key == 0)) [
        | inl absent ↦
            let c = create_symbol-Represents names table key ((==_iff _ 0).0 absent) r small in
            (
              c.0,
              ground (arith, found, absent, c.1),
              subst (λ b. Represents (intern_as b names key).1 c.0) (sym absent) c.2,
              λ there. absurd (there ((==_iff _ 0).0 absent)),
            )
        | inr there ↦ (
          table,
          ground (arith, found, there),
          subst (λ b. Represents (intern_as b names key).1 table) (sym there) r,
          λ _. refl,
        )
      ]

  pub allocate-Represents : (capacity : ℕ) → 0 < capacity → Represents [] (allocate capacity 0)
  unfolding allocate symbol_of
  allocate-Represents capacity some_room =
      let size = length-replicate capacity empty_slot in
      record {
        order = replicate-IsOrdered capacity;
        hashed = replicate-Each (Hashed hash32) capacity;
        in_use = used-replicate capacity;
        count = refl;
        room = omega (arith, size, some_room);
        threshold_le = omega (arith, size, mod-le (capacity * 90) (2 ^ 32));
        entries = λ k v. (
          λ h. absurd (replicate-Has capacity k v h),
          λ named. absurd (named.1 (sym named.0 ∙ none_named k)),
        );
      }
    where
      none_named : (k : Bytes) → symbol_of [] k ≡ 0
      none_named k = refl

  -- The table that `SymbolTableCreate` gives represents no names.
  pub symbol_table_create-Represents : Represents [] symbol_table_create
  unfolding symbol_table_create
  symbol_table_create-Represents = allocate-Represents 256 (omega arith)
