-- ===== src/SymbolTable.antt =====
-- symboltable.c, but for the release of the memory: a hash table with open addressing, in which an
-- entry that is far from its place takes the place of one that is nearer to its own. The two arrays
-- are one list of slots, whose length is the capacity.
pub mod Probe
pub mod Order
pub mod Entries
pub mod Carry
pub mod Insert
pub mod Find
pub mod Reinsert
pub mod Grow
pub mod Names
pub mod Refines
pub mod Keys
mod Tests
use millie.Prelude.{
  ℕ, zero, suc, ◌+◌, ◌-◌, ◌*◌, ◌/◌, ◌%◌, ◌^◌, Bool, true, false, not, ◌&&◌, List, [], ◌∷◌, Option,
  none, some, ◌>>=◌, ltb, leb, ◌==◌, if◌then◌else◌, length, get_elem?, set, replicate,
}
use millie.Ast.{Symbol, invalid_symbol}
use millie.Parser.{Bytes}

-- An element of `hashes` and the one of `entries`. The hash 0 is that of an empty slot.
pub record Slot : Type 0 where
  pub hash : ℕ
  pub key : Bytes
  pub value : Symbol

abbrev pub empty_slot : Slot
empty_slot = record { hash = 0; key = []; value = 0 }

-- `struct SymbolTable`; `capacity` is the length of `slots`, and `mask` is one less. The capacity
-- is a power of two, so that `& mask` is the remainder.
pub record SymbolTable : Type 0 where
  pub slots : List Slot
  pub item_count : ℕ
  pub resize_threshold : ℕ

-- `MStringEquals`: the lengths and the bytes are compared.
unfoldable pub equals : Bytes → Bytes → Bool
equals [] [] = true
equals [] (b ∷ bs) = false
equals (a ∷ xs) [] = false
equals (a ∷ xs) (b ∷ bs) = a == b && equals xs bs

-- Bit 31 marks a deleted slot; no operation sets it.
abbrev pub is_deleted : ℕ → Bool
is_deleted hash = leb (2 ^ 31) hash

abbrev pub desired_position : ℕ → ℕ → ℕ
desired_position capacity hash = hash % capacity

unfoldable pub probe_distance : ℕ → ℕ → ℕ → ℕ
probe_distance capacity hash slot_index =
    (slot_index + capacity - desired_position capacity hash) % capacity

-- `_Allocate`: the slots are zero, and the product wraps around.
unfoldable pub allocate : ℕ → ℕ → SymbolTable
allocate capacity item_count = record {
  slots = replicate capacity empty_slot;
  item_count = item_count;
  resize_threshold = capacity * 90 % 2 ^ 32 / 100;
}

abbrev pub next : ℕ → ℕ → ℕ
next capacity pos = (pos + 1) % capacity

-- The loop of `_InsertHelper`, one round for each unit of fuel.
unfoldable pub insert_loop : ℕ → List Slot → ℕ → ℕ → Slot → Option (List Slot)
insert_loop zero slots pos dist item = none
insert_loop (suc n) slots pos dist item = elim (get_elem? slots pos) [
  | none ↦ none
  | some existing ↦ elim (existing.hash == 0) [
    | true ↦ some (set slots pos item)
    | false ↦
        let existing_dist = probe_distance (length slots) existing.hash pos in
        elim (ltb existing_dist dist) [
          | true ↦ elim (is_deleted existing.hash) [
            | true ↦ some (set slots pos item)
            | false ↦
                insert_loop n (set slots pos item) (next (length slots) pos) (existing_dist + 1)
                  existing
          ]
          | false ↦ insert_loop n slots (next (length slots) pos) (dist + 1) item
        ]
  ]
]

-- As many rounds as there are slots reach each of them.
unfoldable pub insert_helper : List Slot → Slot → Option (List Slot)
unfolding insert_loop
insert_helper slots item =
    insert_loop (length slots) slots (desired_position (length slots) item.hash) 0 item

-- The loop of `_Grow` over the old slots.
unfoldable pub reinsert : List Slot → List Slot → Option (List Slot)
unfolding insert_helper
reinsert [] slots = some slots
reinsert (old ∷ rest) slots = elim (not (old.hash == 0) && not (is_deleted old.hash)) [
  | true ↦ insert_helper slots old >>= reinsert rest
  | false ↦ reinsert rest slots
]

unfoldable pub grow : SymbolTable → Option SymbolTable
unfolding reinsert allocate
grow table =
    let larger = allocate (length table.slots * 2 % 2 ^ 32) table.item_count in
    reinsert table.slots larger.slots >>= λ slots. some (record larger { slots = slots })

unfoldable pub symbol_table_create : SymbolTable
unfolding allocate
symbol_table_create = allocate 256 0

-- The loop of `FindSymbolKey`; `NULL` is `none`.
unfoldable pub find_symbol_key : List Slot → Symbol → Option Bytes
find_symbol_key [] symbol = none
find_symbol_key (slot ∷ slots) symbol =
    elim (not (slot.hash == 0) && not (is_deleted slot.hash) && (slot.value == symbol)) [
      | true ↦ some slot.key
      | false ↦ find_symbol_key slots symbol
    ]

-- `MStringHash32` is CityHash32 of a string's bytes, of which nothing is assumed.
module _ (hash32 : Bytes → ℕ) where
  unfoldable pub hash_string : Bytes → ℕ
  hash_string string = let hash = hash32 string % 2 ^ 31 in if hash == 0 then 1 else hash

  -- The loop of `_Find`, one round for each unit of fuel.
  unfoldable pub find_loop : ℕ → List Slot → ℕ → Bytes → ℕ → ℕ → Option Symbol
  find_loop zero slots hash key pos dist = none
  find_loop (suc n) slots hash key pos dist = elim (get_elem? slots pos) [
    | none ↦ none
    | some existing ↦ elim (existing.hash == 0) [
      | true ↦ some invalid_symbol
      | false ↦ elim (ltb (probe_distance (length slots) existing.hash pos) dist) [
        | true ↦ some invalid_symbol
        | false ↦ elim ((hash == existing.hash) && equals key existing.key) [
          | true ↦ some existing.value
          | false ↦ find_loop n slots hash key (next (length slots) pos) (dist + 1)
        ]
      ]
    ]
  ]

  unfoldable pub find : SymbolTable → Bytes → Option Symbol
  unfolding find_loop hash_string
  find table key =
      let hash = hash_string key in
      find_loop (length table.slots) table.slots hash key
        (desired_position (length table.slots) hash) 0

  -- `FindOrCreateSymbol`, behind the search: the name is entered as the next symbol.
  unfoldable pub create_symbol : SymbolTable → Bytes → Option (Symbol × SymbolTable)
  unfolding hash_string insert_helper grow
  create_symbol table key =
      let symbol = table.item_count + 1 in
      let counted = record table { item_count = symbol } in
      (if leb table.resize_threshold symbol then grow counted else some counted) >>= λ roomy.
      insert_helper roomy.slots (record { hash = hash_string key; key = key; value = symbol })
      >>= λ slots. some (symbol, record roomy { slots = slots })

  unfoldable pub find_or_create_symbol : SymbolTable → Bytes → Option (Symbol × SymbolTable)
  unfolding find create_symbol
  find_or_create_symbol table key = find table key >>= λ symbol. elim (symbol == invalid_symbol) [
    | false ↦ some (symbol, table)
    | true ↦ create_symbol table key
  ]
