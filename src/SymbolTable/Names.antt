-- ===== src/SymbolTable/Names.antt =====
-- What the symbol table promises, without hashes and slots: the names in the order in which they
-- were first met, and the number of a name, which is its place from 1 on.
use millie.Prelude.{
  zero, suc, ◌+◌, ◌≤◌, ◌≡◌, ◌≢◌, inl, inr, refl, Bool, true, false, List, [], ◌∷◌, ◌++◌, length,
  ◌==◌, if◌then◌else◌, arith, Bool-cases,
}
use millie.Ast.{Symbol}
use millie.Parser.{Bytes}
use millie.SymbolTable.{equals}
use millie.SymbolTable.Find.{equals_iff}

abbrev pub one_later : Symbol → Symbol
one_later zero = 0
one_later (suc s) = suc (suc s)

-- 0 for a name that is not in the list.
unfoldable pub symbol_of : List Bytes → Bytes → Symbol
symbol_of [] key = 0
symbol_of (name ∷ names) key = if equals name key then 1 else one_later (symbol_of names key)

-- What `FindOrCreateSymbol` promises, for a name that is new and for one that is not.
abbrev pub intern_as : Bool → List Bytes → Bytes → Symbol × List Bytes
intern_as true names key = (length names + 1, names ++ key ∷ [])
intern_as false names key = (symbol_of names key, names)

abbrev pub intern : List Bytes → Bytes → Symbol × List Bytes
intern names key = intern_as (symbol_of names key == 0) names key

pub symbol_of-le : (names : List Bytes) (key : Bytes) → symbol_of names key ≤ length names
unfolding symbol_of
symbol_of-le [] key = omega arith
symbol_of-le (name ∷ names) key = ground (arith, symbol_of-le names key)

-- A name that is there keeps its number when one is added.
pub symbol_of-append_old :
    (names more : List Bytes) (key : Bytes)
    → symbol_of names key ≢ 0
    → symbol_of (names ++ more) key ≡ symbol_of names key
unfolding symbol_of
symbol_of-append_old [] more key there = absurd (there refl)
symbol_of-append_old (name ∷ names) more key there =
    ground (arith, symbol_of-append_old names more key)

-- A new name gets the next number.
pub symbol_of-append_new :
    (names : List Bytes) (key : Bytes)
    → symbol_of names key ≡ 0
    → symbol_of (names ++ key ∷ []) key ≡ suc (length names)
unfolding symbol_of
symbol_of-append_new [] key absent = ground (arith, (equals_iff key key).1 refl)
symbol_of-append_new (name ∷ names) key absent =
    ground (arith, symbol_of-append_new names key, absent)

-- No other name gets in.
pub symbol_of-append_other :
    (names : List Bytes) (key other : Bytes)
    → symbol_of names other ≡ 0
    → symbol_of (names ++ key ∷ []) other ≢ 0
    → key ≡ other
unfolding symbol_of
symbol_of-append_other [] key other absent there = elim (Bool-cases (equals key other)) [
  | inl same ↦ (equals_iff key other).0 same
  | inr differ ↦ absurd (there (ground (arith, differ)))
]
symbol_of-append_other (name ∷ names) key other absent there =
    symbol_of-append_other names key other (ground (arith, absent))
      (λ e. there (ground (arith, e, absent)))
