-- ===== src/Decimal/Print.antt =====
-- The decimal text of a number: digits, with the number as their value.
use native.Mathlib.Nat.{pow-suc}
use redis_in_c.Prelude.{
  ℕ, zero, suc, ◌+◌, ◌-◌, ◌*◌, ◌/◌, ◌%◌, ◌^◌, ◌≤◌, ◌<◌, ◌≡◌, ◌≢◌, ◌∙◌, ap, arith, Bool-cases, false,
  inl, inr, Bytes, [], ◌∷◌, length, ◌==◌, All,
}
use redis_in_c.Decimal.{digits, print_nat}

abbrev pub IsDigit : ℕ → Type 0
IsDigit c = (b'0' ≤ c) × (c ≤ b'9')

-- The number that digits spell behind `v`.
abbrev pub value : ℕ → Bytes → ℕ
value v [] = v
value v (c ∷ s) = value (v * 10 + (c - b'0')) s

value-digits : (fuel n : ℕ) (out : Bytes) → n ≤ fuel → value 0 (digits fuel n out) ≡ value n out
unfolding digits
value-digits zero n out h = let z : n ≡ 0 = omega arith in rw z
value-digits (suc fuel) n out h = elim (Bool-cases (n == 0)) [
  | inl t ↦ let z : n ≡ 0 = ground arith in rw z
  | inr f ↦
      let smaller : n / 10 ≤ fuel = ground arith in
      let whole : n / 10 * 10 + (b'0' + n % 10 - b'0') ≡ n = omega arith in
      rw f
        (value-digits fuel (n / 10) ((b'0' + n % 10) ∷ out) smaller ∙ ap (λ m. value m out) whole)
]

All-digits : (fuel n : ℕ) (out : Bytes) → All IsDigit out → All IsDigit (digits fuel n out)
unfolding digits
All-digits zero n out h = h
All-digits (suc fuel) n out h = elim (Bool-cases (n == 0)) [
  | inl t ↦ rw t h
  | inr f ↦ rw f (All-digits fuel (n / 10) ((b'0' + n % 10) ∷ out) ((omega arith, omega arith), h))
]

length-digits-le :
    (fuel n k : ℕ) (out : Bytes) → n < 10 ^ k → length (digits fuel n out) ≤ k + length out
unfolding digits
length-digits-le zero n k out h = omega arith
length-digits-le (suc fuel) n zero out h = let z : n ≡ 0 = omega arith in rw z (omega arith)
length-digits-le (suc fuel) n (suc k) out h = elim (Bool-cases (n == 0)) [
  | inl t ↦ rw t (omega arith)
  | inr f ↦
      let small : n / 10 < 10 ^ k = omega (arith, pow-suc 10 k) in
      rw f (omega (arith, length-digits-le fuel (n / 10) k ((b'0' + n % 10) ∷ out) small))
]

-- The text of a number spells that number.
pub value-print_nat : (n : ℕ) → value 0 (print_nat n) ≡ n
unfolding print_nat
value-print_nat n = elim (Bool-cases (n == 0)) [
  | inl t ↦ rw t (ground arith)
  | inr f ↦ rw f (value-digits n n [] (omega arith))
]

-- The text of a number is made of digits.
pub All-print_nat : (n : ℕ) → All IsDigit (print_nat n)
unfolding print_nat
All-print_nat n = elim (Bool-cases (n == 0)) [
  | inl t ↦ rw t (omega arith)
  | inr f ↦ rw f (All-digits n n [] tt)
]

-- A number below 10 ^ k has k digits at most, one where it is 0.
pub length-print_nat-le : (n k : ℕ) → n < 10 ^ k → 1 ≤ k → length (print_nat n) ≤ k
unfolding print_nat
length-print_nat-le n k h p = elim (Bool-cases (n == 0)) [
  | inl t ↦ rw t p
  | inr f ↦ rw f (omega (arith, length-digits-le n n k [] h))
]

digits-ne-nil : (fuel n : ℕ) (out : Bytes) → out ≢ [] → digits fuel n out ≢ []
unfolding digits
digits-ne-nil zero n out h = h
digits-ne-nil (suc fuel) n out h = elim (Bool-cases (n == 0)) [
  | inl t ↦ rw t h
  | inr f ↦ rw f (digits-ne-nil fuel (n / 10) ((b'0' + n % 10) ∷ out) (λ e. cc))
]

print_pos-ne-nil : (n : ℕ) → n == 0 ≡ false → digits n n [] ≢ []
unfolding digits
print_pos-ne-nil zero h = absurd (ground arith)
print_pos-ne-nil (suc n) h =
    rw h (digits-ne-nil n (suc n / 10) ((b'0' + suc n % 10) ∷ []) (λ e. cc))

-- The text of a number is not empty.
pub print_nat-ne-nil : (n : ℕ) → print_nat n ≢ []
unfolding print_nat
print_nat-ne-nil n = elim (Bool-cases (n == 0)) [
  | inl t ↦ rw t (λ e. cc)
  | inr f ↦ rw f (print_pos-ne-nil n f)
]
