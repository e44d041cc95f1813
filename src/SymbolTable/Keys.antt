-- ===== src/SymbolTable/Keys.antt =====
-- `FindSymbolKey`: from the number of a name back to the name.
use millie.Prelude.{
  ℕ, zero, suc, ◌≡◌, ◌≢◌, inl, inr, refl, sym, ◌∙◌, subst, false, not, ◌&&◌, List, [], ◌∷◌, some,
  ◌==◌, arith, Bool-cases,
}
use mathlib.Core.Option.{some-injective}
use millie.Ast.{Symbol}
use millie.Parser.{Bytes}
use millie.SymbolTable.{Slot, SymbolTable, equals, is_deleted, find_symbol_key}
use millie.SymbolTable.Order.{IsIn}
use millie.SymbolTable.Entries.{Holds, Has}
use millie.SymbolTable.Find.{equals_iff}
use millie.SymbolTable.Names.{symbol_of, one_later}
use millie.SymbolTable.Refines.{Represents, not_deleted}

one_later-injective : (a b : ℕ) → one_later a ≡ one_later b → a ≡ b
one_later-injective zero zero e = refl
one_later-injective zero (suc b) e = absurd (omega (arith, e))
one_later-injective (suc a) zero e = absurd (omega (arith, e))
one_later-injective (suc a) (suc b) e = omega (arith, e)

one_later-ne : (a : ℕ) → one_later a ≢ 1
one_later-ne zero e = omega (arith, e)
one_later-ne (suc a) e = omega (arith, e)

-- Two names with one number are one name.
symbol_of-injective :
    (names : List Bytes) (a b : Bytes)
    → symbol_of names a ≡ symbol_of names b
    → symbol_of names a ≢ 0
    → a ≡ b
unfolding symbol_of
symbol_of-injective [] a b same there = absurd (there refl)
symbol_of-injective (name ∷ names) a b same there = elim (Bool-cases (equals name a)) [
  | inl is_a ↦ elim (Bool-cases (equals name b)) [
    | inl is_b ↦ sym ((equals_iff name a).0 is_a) ∙ (equals_iff name b).0 is_b
    | inr not_b ↦ absurd (one_later-ne (symbol_of names b) (ground (arith, same, is_a, not_b)))
  ]
  | inr not_a ↦ elim (Bool-cases (equals name b)) [
    | inl is_b ↦ absurd (one_later-ne (symbol_of names a) (ground (arith, same, not_a, is_b)))
    | inr not_b ↦
        symbol_of-injective names a b (one_later-injective _ _ (ground (arith, same, not_a, not_b)))
          (λ e. there (ground (arith, e, not_a)))
  ]
]

-- A symbol that only one name has, and that name is in the slots.
find_symbol_key_unique :
    (slots : List Slot) (key : Bytes) (symbol : Symbol)
    → ((pos : ℕ) (slot : Slot)
        → IsIn slots pos slot
        → slot.hash ≢ 0
        → (is_deleted slot.hash ≡ false) × (slot.value ≡ symbol → slot.key ≡ key))
    → Has slots key symbol
    → find_symbol_key slots symbol ≡ some key
unfolding find_symbol_key
find_symbol_key_unique [] key symbol only (pos, slot, there, holds) = cc
find_symbol_key_unique (s ∷ slots) key symbol only (zero, slot, there, holds) =
    let own = subst (Holds key symbol) (sym (some-injective _ _ there)) holds in
    let here = only 0 s refl own.occupied in
    ground (arith, own.occupied, here.0, own.value_is, own.key_is)
find_symbol_key_unique (s ∷ slots) key symbol only (suc pos, slot, there, holds) =
    elim (Bool-cases (not (s.hash == 0) && not (is_deleted s.hash) && (s.value == symbol))) [
      | inl found ↦
          let here = only 0 s refl (λ e. ground (arith, found, e)) in
          ground (arith, found, here.1 (ground (arith, found)))
      | inr passed ↦
          let rest =
            find_symbol_key_unique slots key symbol (λ p. only (suc p)) (pos, slot, there, holds) in
          ground (arith, passed, rest)
    ]

-- `FindSymbolKey` undoes `FindOrCreateSymbol`: on a table that represents a list of names, the
-- number of a name of the list leads back to the name.
pub find_symbol_key-Represents :
    (hash32 : Bytes → ℕ) (names : List Bytes) (table : SymbolTable) (key : Bytes)
    → Represents hash32 names table
    → symbol_of names key ≢ 0
    → find_symbol_key table.slots (symbol_of names key) ≡ some key
find_symbol_key-Represents hash32 names table key r there =
    find_symbol_key_unique table.slots key (symbol_of names key)
      (λ pos slot here full. (
        not_deleted hash32 slot (r.hashed.each pos slot here full),
        λ same.
            let named =
              (r.entries slot.key slot.value).0
                (pos, slot, here, record { occupied = full; key_is = refl; value_is = refl }) in
            symbol_of-injective names slot.key key (named.0 ∙ same)
              (λ e. named.1 (sym named.0 ∙ e)),
      ))
      ((r.entries key (symbol_of names key)).1 (refl, there))
