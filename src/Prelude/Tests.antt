-- ===== src/Prelude/Tests.antt =====
-- Boolean tests on the native numbers, the conditional, and the monad of partial operations.
use Prim.Native.Nat.{ℕ, compare, Ordering}
use mathlib.Core.Path.{◌≡◌, refl, subst}
use mathlib.Core.Logic.{◌↔◌, ◌⊎◌, inl, inr}
use mathlib.Core.Bool.{Bool, true, false}
use mathlib.Core.Option.{Option, none, some}
use native.Mathlib.Omega.{arith}

abbrev pub ltb : ℕ → ℕ → Bool
ltb a b = elim (compare a b) [ Ordering.lt ↦ true | _ ↦ false ]

abbrev pub leb : ℕ → ℕ → Bool
leb a b = elim (compare a b) [ Ordering.gt ↦ false | _ ↦ true ]

infix 50 ◌==◌
abbrev pub ◌==◌ : ℕ → ℕ → Bool
a == b = elim (compare a b) [ Ordering.eq ↦ true | _ ↦ false ]

infix 1 if◌then◌else◌
abbrev pub if◌then◌else◌ {ℓ} : {A : Type ℓ} → Bool → A → A → A
if true then x else y = x
if false then x else y = y

pub ==_iff : (a b : ℕ) → ((a == b) ≡ true) ↔ (a ≡ b)
==_iff a b = ground arith

-- To split on a computed value and keep the equation.
pub Bool-cases : (b : Bool) → (b ≡ true) ⊎ (b ≡ false)
Bool-cases true = inl refl
Bool-cases false = inr refl

pub Option-cases {ℓ} : {A : Type ℓ} (o : Option A) → (o ≡ none) ⊎ ((a : A) × (o ≡ some a))
Option-cases none = inl refl
Option-cases (some a) = inr (a, refl)

-- `none` is a fault: what the C code does next is undefined.
infixl 5 ◌>>=◌
abbrev pub ◌>>=◌ {ℓ κ} : {A : Type ℓ} {B : Type κ} → Option A → (A → Option B) → Option B
none >>= f = none
some a >>= f = f a

-- Inversion of a successful bind.
pub >>=-eq-some {ℓ κ} :
    {A : Type ℓ} {B : Type κ} (m : Option A) (f : A → Option B) {b : B}
    → (m >>= f) ≡ some b
    → (a : A) × (m ≡ some a) × (f a ≡ some b)
>>=-eq-some none f h = cc
>>=-eq-some (some a) f h = (a, refl, h)

-- What holds of the result of a partial operation, if there is one.
module _ {ℓ κ} {A : Type ℓ} where
  pub data Holds (P : A → Type κ) : Option A → Type (ℓ ⊔ κ) where
    at_fault : Holds P none
    holds : {a : A} → P a → Holds P (some a)

  pub Holds-at : {P : A → Type κ} {o : Option A} {a : A} → Holds P o → o ≡ some a → P a
  Holds-at {P} {o} {a} h e = at_some (subst (Holds P) e h)
    where
      at_some : Holds P (some a) → P a
      at_some (holds p) = p

  pub Holds-map : {P Q : A → Type κ} {o : Option A} → ((a : A) → P a → Q a) → Holds P o → Holds Q o
  Holds-map k at_fault = at_fault
  Holds-map k (holds {a} p) = holds (k a p)

-- Two predicates that hold of one result.
pub Holds-both {ℓ κ μ} :
    {A : Type ℓ} {P : A → Type κ} {Q : A → Type μ} {o : Option A}
    → Holds P o
    → Holds Q o
    → Holds (λ a. P a × Q a) o
Holds-both at_fault at_fault = at_fault
Holds-both (holds p) (holds q) = holds (p, q)

-- A bind, where a predicate holds of the first result, and where it is only known to be one.
module _ {ℓ κ μ ν} {A : Type ℓ} {B : Type κ} {Q : B → Type ν} where
  pub Holds-bind :
      {P : A → Type μ} {o : Option A} (f : A → Option B)
      → Holds P o
      → ((a : A) → P a → Holds Q (f a))
      → Holds Q (o >>= f)
  Holds-bind f at_fault k = at_fault
  Holds-bind f (holds {a} p) k = k a p

module _ {ℓ κ ν} {A : Type ℓ} {B : Type κ} {Q : B → Type ν} where
  pub Holds-any :
      (o : Option A) (f : A → Option B) → ((a : A) → o ≡ some a → Holds Q (f a)) → Holds Q (o >>= f)
  Holds-any none f k = at_fault
  Holds-any (some a) f k = k a refl

  -- The two cases of an optional value.
  pub Holds-elim :
      (o : Option A) {f : A → Option B} {z : Option B}
      → ((a : A) → o ≡ some a → Holds Q (f a))
      → (o ≡ none → Holds Q z)
      → Holds Q (elim o [ some a ↦ f a | none ↦ z ])
  Holds-elim none k n = n refl
  Holds-elim (some a) k n = k a refl

pub Holds-if {ℓ κ} :
    {A : Type ℓ} {Q : A → Type κ} (b : Bool) {x y : Option A}
    → (b ≡ true → Holds Q x)
    → (b ≡ false → Holds Q y)
    → Holds Q (if b then x else y)
Holds-if true h k = h refl
Holds-if false h k = k refl
