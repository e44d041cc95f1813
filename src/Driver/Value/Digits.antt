-- ===== src/Driver/Value/Digits.antt =====
-- The printing of numbers against the reading of literals.
use millie.Prelude.{
  ℕ, zero, suc, ◌+◌, ◌-◌, ◌*◌, ◌/◌, ◌%◌, ◌^◌, ◌<◌, ◌≡◌, refl, ap, ◌∙◌, inl, inr, Bool-cases, true,
  false, [], ◌∷◌, ◌++◌, arith, ltb, All,
}
use millie.Lexer.{Bytes}
use millie.Parser.{literal_value}
use millie.Parser.Literal.{IsDigit, decimal, literal_value-decimal}
use millie.Driver.{digits, format_signed}

decimal-append :
    (xs ys : Bytes) (value : ℕ) → decimal (xs ++ ys) value ≡ decimal ys (decimal xs value)
decimal-append [] ys value = refl
decimal-append (x ∷ xs) ys value = decimal-append xs ys (value * 10 + (x - b'0'))

All-append : (P : ℕ → Type 0) (xs ys : Bytes) → All P xs → All P ys → All P (xs ++ ys)
All-append P [] ys h k = k
All-append P (x ∷ xs) ys h k = (h.0, All-append P xs ys h.1 k)

-- The numbers with at most so many digits are less than this.
abbrev tens : ℕ → ℕ
tens zero = 1
tens (suc n) = tens n * 10

digits-IsDigit : (fuel n : ℕ) → All IsDigit (digits fuel n)
digits-IsDigit zero n = tt
digits-IsDigit (suc fuel) n = elim (Bool-cases (ltb n 10)) [
  | inl q ↦ let small : n < 10 = ground (arith, q) in rw q ((omega arith, omega (arith, small)), tt)
  | inr q ↦ rw q (
      All-append IsDigit (digits fuel (n / 10)) ((b'0' + n % 10) ∷ [])
        (digits-IsDigit fuel (n / 10)) ((omega arith, omega arith), tt))
]

decimal-digits : (fuel n : ℕ) → n < tens fuel → decimal (digits fuel n) 0 ≡ n
decimal-digits zero n h = omega (arith, h)
decimal-digits (suc fuel) n h = elim (Bool-cases (ltb n 10)) [
  | inl q ↦ rw q (omega arith)
  | inr q ↦
      let front = decimal-digits fuel (n / 10) (omega (arith, h)) in
      let last = decimal-append (digits fuel (n / 10)) ((b'0' + n % 10) ∷ []) 0 in
      rw q (last ∙ rw front (omega arith))
]

-- A number below 2 ^ 63 is printed as a literal that the parser reads as that number, without an
-- overflow.
pub literal_value-format_signed :
    (value : ℕ) → value < 2 ^ 63 → literal_value (format_signed value) 0 ≡ (value, false)
literal_value-format_signed value h =
    let positive : ltb value (2 ^ 63) ≡ true = ground (arith, h) in
    let same = decimal-digits 20 value (omega (arith, h)) in
    rw positive (
      literal_value-decimal (digits 20 value) 0 (digits-IsDigit 20 value) (omega (arith, same, h))
      ∙ ap (λ (v : ℕ). (v, false)) same)
