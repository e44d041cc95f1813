-- ===== src/SymbolTable/Tests.antt =====
-- Runs of the symbol table on small inputs.
use mathlib.Core.Option.{some-injective}
use millie.Prelude.{
  ℕ, ◌≡◌, ◌≢◌, refl, List, [], ◌∷◌, Option, none, some, ◌>>=◌, length, arith, subst, sym, ap, ◌∙◌,
}
use millie.Ast.{Symbol}
use millie.Parser.{Bytes}
use millie.SymbolTable.{
  SymbolTable, allocate, probe_distance, equals, find_or_create_symbol, find_symbol_key, empty_slot,
}
use millie.SymbolTable.Names.{symbol_of}
use millie.SymbolTable.Refines.{Represents, allocate-Represents, find_or_create_symbol-intern}
use millie.SymbolTable.Keys.{find_symbol_key-Represents}

-- A hash under which all names of one length collide.
abbrev by_length : Bytes → ℕ
by_length key = length key

abbrev small : SymbolTable
small = allocate 4 0

abbrev enter_all : List Bytes → SymbolTable → Option SymbolTable
enter_all [] table = some table
enter_all (key ∷ keys) table = find_or_create_symbol by_length table key >>= λ r. enter_all keys r.1

abbrev symbol_in : Option (Symbol × SymbolTable) → Option Symbol
symbol_in none = none
symbol_in (some r) = some r.0

-- Three names, of which two collide, in a table that has to grow; then the second one again.
second_again :
    symbol_in (
      enter_all ((1 ∷ []) ∷ (2 ∷ []) ∷ (3 ∷ 4 ∷ []) ∷ (5 ∷ []) ∷ []) small >>= λ t.
      find_or_create_symbol by_length t (2 ∷ []))
    ≡ some 2
unfolding find_or_create_symbol allocate probe_distance equals
second_again = refl

-- The name `7 8` in a fresh table of four slots.
interned :
    (table' : SymbolTable) × (find_or_create_symbol by_length small (7 ∷ 8 ∷ []) ≡ some (1, table'))
    × Represents by_length ((7 ∷ 8 ∷ []) ∷ []) table'
    × (symbol_of [] (7 ∷ 8 ∷ []) ≢ 0 → table' ≡ small)
unfolding allocate symbol_of
interned =
    find_or_create_symbol-intern by_length [] small (7 ∷ 8 ∷ [])
      (allocate-Represents by_length 4 (omega arith)) (omega arith)

abbrev one_name : SymbolTable
one_name = record {
  slots =
      empty_slot ∷ empty_slot ∷ record { hash = 2; key = 7 ∷ 8 ∷ []; value = 1 } ∷ empty_slot ∷ [];
  item_count = 1;
  resize_threshold = 3;
}

entered : find_or_create_symbol by_length small (7 ∷ 8 ∷ []) ≡ some (1, one_name)
unfolding find_or_create_symbol allocate probe_distance equals
entered = refl

one_name-Represents : Represents by_length ((7 ∷ 8 ∷ []) ∷ []) one_name
one_name-Represents =
    subst (Represents by_length ((7 ∷ 8 ∷ []) ∷ []))
      (ap (λ (r : Symbol × SymbolTable). r.1) (some-injective _ _ (sym interned.1 ∙ entered)))
      interned.2

-- The name once more: it keeps its number, and the table stays as it is.
find_or_create_symbol-intern_example :
    (table' : SymbolTable) × (find_or_create_symbol by_length one_name (7 ∷ 8 ∷ [])
      ≡ some (1, table'))
    × Represents by_length ((7 ∷ 8 ∷ []) ∷ []) table'
    × (symbol_of ((7 ∷ 8 ∷ []) ∷ []) (7 ∷ 8 ∷ []) ≢ 0 → table' ≡ one_name)
unfolding symbol_of equals
find_or_create_symbol-intern_example =
    find_or_create_symbol-intern by_length ((7 ∷ 8 ∷ []) ∷ []) one_name (7 ∷ 8 ∷ [])
      one_name-Represents (omega arith)

-- The table with that name, and the number of the name.
find_symbol_key-Represents_example :
    find_symbol_key one_name.slots (symbol_of ((7 ∷ 8 ∷ []) ∷ []) (7 ∷ 8 ∷ [])) ≡ some (7 ∷ 8 ∷ [])
unfolding symbol_of equals
find_symbol_key-Represents_example =
    find_symbol_key-Represents by_length ((7 ∷ 8 ∷ []) ∷ []) one_name (7 ∷ 8 ∷ [])
      one_name-Represents (λ e. absurd (omega (arith, e)))
