-- ===== src/Parser/Literal.antt =====
-- Integer literals: the loop of `_ParsePrimary` against the number that the digits stand for.
use millie.Prelude.{
  ℕ, ◌+◌, ◌-◌, ◌*◌, ◌%◌, ◌^◌, ◌≤◌, ◌<◌, ◌≡◌, refl, sym, ap, ◌∙◌, Bool, Bool-cases, inl, inr, true,
  false, [], ◌∷◌, arith, ltb, All,
}
use mathlib.Core.Bool.{false≢true}
use millie.Parser.{Bytes, literal_value}

abbrev pub IsDigit : ℕ → Type 0
IsDigit c = (b'0' ≤ c) × (c ≤ b'9')

-- The number that digits stand for, behind those that stand for `value`.
abbrev pub decimal : Bytes → ℕ → ℕ
decimal [] value = value
decimal (c ∷ cs) value = decimal cs (value * 10 + (c - b'0'))

decimal-ge : (cs : Bytes) (value : ℕ) → value ≤ decimal cs value
decimal-ge [] value = omega arith
decimal-ge (c ∷ cs) value = omega (arith, decimal-ge cs (value * 10 + (c - b'0')))

next_value :
    (c value : ℕ)
    → IsDigit c
    → (value * 10 % 2 ^ 64 + (c + 2 ^ 64 - b'0') % 2 ^ 64) % 2 ^ 64
      ≡ (value * 10 + (c - b'0')) % 2 ^ 64
next_value c value h = omega arith

-- Digits that stand for a number of 64 bits give that number, and no error.
pub literal_value-decimal :
    (cs : Bytes) (value : ℕ)
    → All IsDigit cs
    → decimal cs value < 2 ^ 64
    → literal_value cs value ≡ (decimal cs value, false)
unfolding literal_value
literal_value-decimal [] value d h = refl
literal_value-decimal (c ∷ cs) value d h =
    let ge = decimal-ge cs (value * 10 + (c - b'0')) in
    let next : (value * 10 % 2 ^ 64 + (c + 2 ^ 64 - b'0') % 2 ^ 64) % 2 ^ 64
        ≡ value * 10 + (c - b'0') =
      omega (arith, d.0) in
    let grows : ltb (value * 10 + (c - b'0')) value ≡ false = ground arith in
    rw (next, grows) (literal_value-decimal cs (value * 10 + (c - b'0')) d.1 h)

-- `decimal` depends on `value` modulo 2 ^ 64 only.
decimal-modulo :
    (cs : Bytes) (a b : ℕ) → a % 2 ^ 64 ≡ b % 2 ^ 64 → decimal cs a % 2 ^ 64 ≡ decimal cs b % 2 ^ 64
decimal-modulo [] a b h = h
decimal-modulo (c ∷ cs) a b h =
    decimal-modulo cs (a * 10 + (c - b'0')) (b * 10 + (c - b'0')) (omega (arith, h))

-- Where digits are read and no overflow is reported, the value that is read and the number that they
-- stand for agree modulo 2 ^ 64, whatever value the loop starts from.
pub literal_value-modulo :
    (cs : Bytes) (value read : ℕ)
    → All IsDigit cs
    → literal_value cs value ≡ (read, false)
    → read % 2 ^ 64 ≡ decimal cs value % 2 ^ 64
unfolding literal_value
literal_value-modulo [] value read d h =
    let same : value ≡ read = ap (λ (r : ℕ × Bool). r.0) h in ap (λ v. v % 2 ^ 64) (sym same)
literal_value-modulo (c ∷ cs) value read d h =
    let next = (value * 10 % 2 ^ 64 + (c + 2 ^ 64 - b'0') % 2 ^ 64) % 2 ^ 64 in
    elim (Bool-cases (ltb next value)) [
      | inl fallen ↦
          let reported : ◌≡◌ {A = ℕ × Bool} (value, true) (read, false) = rw fallen at h in
          absurd (false≢true (sym (ap (λ (r : ℕ × Bool). r.1) reported)))
      | inr grown ↦
          literal_value-modulo cs next read d.1 (rw grown at h)
          ∙ decimal-modulo cs next (value * 10 + (c - b'0')) (
              ap (λ v. v % 2 ^ 64) (next_value c value d.0)
              ∙ modulo_twice (value * 10 + (c - b'0')))
    ]
  where
    modulo_twice : (n : ℕ) → n % 2 ^ 64 % 2 ^ 64 ≡ n % 2 ^ 64
    modulo_twice n = omega arith
