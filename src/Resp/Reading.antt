-- ===== src/Resp/Reading.antt =====
-- src/resp.c: what `parse_int_until_crlf` reads off a decimal text, and how much it reads.
use redis_in_c.Prelude.{
  ℕ, suc, ◌+◌, ◌-◌, ◌*◌, ◌≤◌, ◌<◌, ◌≡◌, ◌≢◌, refl, ◌∙◌, ap, arith, Bool, true, false, Bool-cases,
  inl, inr, Bytes, [], ◌∷◌, ◌++◌, length, ltb, ◌==◌, All, cr, lf,
}
use redis_in_c.Prelude.Int.{ℤ, pos}
use redis_in_c.Decimal.{print_nat, signed, not_digit, max_before_digit}
use redis_in_c.Decimal.Print.{IsDigit, value, value-print_nat, All-print_nat, print_nat-ne-nil}
use redis_in_c.Decimal.Parse.{max_parsed, le-value}
use redis_in_c.Resp.Outcome.{Outcome, parsed, need_more, protocol_err}
use redis_in_c.Resp.Number.{number_end, number_loop, parse_int_until_crlf}

-- The loop reads digits up to their end.
number_loop-digits :
    (ds p : Bytes) (i digits_at : ℕ) (b : Bool) (v : ℕ)
    → All IsDigit ds
    → value v ds ≤ max_parsed
    → number_loop (ds ++ p) i digits_at b v ≡ number_loop p (i + length ds) digits_at b (value v ds)
unfolding number_loop
number_loop-digits [] p i at b v d fits = ap (λ j. number_loop p j at b v) (omega arith)
number_loop-digits (c ∷ ds) p i at b v (d, dds) fits =
    let v' = v * 10 + (c - b'0') in
    ground
      (arith, number_loop-digits ds p (i + 1) at b v' dds fits, le-value ds v', step i (length ds))
  where
    step : (i n : ℕ) → i + 1 + n ≡ i + suc n
    step i n = omega arith

number_loop-crlf :
    (rest : Bytes) (i digits_at : ℕ) (b : Bool) (v : ℕ)
    → i ≢ digits_at
    → number_loop (cr ∷ lf ∷ rest) i digits_at b v ≡ parsed (signed b v, i + 2)
unfolding number_loop
number_loop-crlf rest i at b v ne = ground arith

-- Digits, a CR and an LF are read as the number that the digits spell.
pub parse_int-digits :
    (ds rest : Bytes)
    → ds ≢ []
    → All IsDigit ds
    → value 0 ds ≤ max_parsed
    → parse_int_until_crlf (ds ++ (cr ∷ lf ∷ rest)) ≡ parsed (pos (value 0 ds), length ds + 2)
unfolding parse_int_until_crlf
parse_int-digits [] rest ne d fits = absurd (ne refl)
parse_int-digits (c ∷ ds) rest ne d fits =
    let n = 0 + length (c ∷ ds) in
    let f : c == b'-' ≡ false = ground arith in
    let len : n ≡ length (c ∷ ds) = omega arith in
    rw f (
      number_loop-digits (c ∷ ds) (cr ∷ lf ∷ rest) 0 0 false 0 d fits
      ∙ number_loop-crlf rest n 0 false (value 0 (c ∷ ds)) (omega arith)
      ∙ ap (λ k. parsed (pos (value 0 (c ∷ ds)), k + 2)) len)

-- The length header that the program prints is read back.
pub parse_int-print_nat :
    (n : ℕ) (rest : Bytes)
    → n ≤ max_parsed
    → parse_int_until_crlf (print_nat n ++ (cr ∷ lf ∷ rest))
      ≡ parsed (pos n, length (print_nat n) + 2)
parse_int-print_nat n rest fits =
    parse_int-digits (print_nat n) rest (print_nat-ne-nil n) (All-print_nat n)
      (rw (value-print_nat n) fits)
    ∙ ap (λ v. parsed (pos v, length (print_nat n) + 2)) (value-print_nat n)

-- The number of bytes read is within the buffer, and positive.
abbrev pub Within : ℕ → ℕ → Outcome (ℤ × ℕ) → Type 0
Within i n (parsed (z, used)) = (i < used) × (used ≤ i + n)
Within i n need_more = Unit
Within i n protocol_err = Unit

Within-shift : (i n : ℕ) (o : Outcome (ℤ × ℕ)) → Within (i + 1) n o → Within i (suc n) o
Within-shift i n (parsed (z, used)) w = omega arith
Within-shift i n need_more w = tt
Within-shift i n protocol_err w = tt

number_end-Within :
    (p : Bytes) (i at : ℕ) (b : Bool) (v : ℕ) → Within i (suc (length p)) (number_end p i at b v)
unfolding number_end
number_end-Within [] i at b v = tt
number_end-Within (c ∷ p) i at b v = ground arith

number_loop-Within :
    (p : Bytes) (i at : ℕ) (b : Bool) (v : ℕ) → Within i (length p) (number_loop p i at b v)
unfolding number_loop
number_loop-Within [] i at b v = tt
number_loop-Within (c ∷ p) i at b v = elim (Bool-cases (c == cr)) [
  | inl t ↦ rw t (number_end-Within p i at b v)
  | inr f ↦ rw f (elim (Bool-cases (not_digit c)) [
    | inl t ↦ rw t tt
    | inr g ↦ rw g (elim (Bool-cases (ltb max_before_digit v)) [
      | inl t ↦ rw t tt
      | inr k ↦ rw k (
          Within-shift i (length p) (number_loop p (i + 1) at b (v * 10 + (c - b'0')))
            (number_loop-Within p (i + 1) at b (v * 10 + (c - b'0'))))
    ])
  ])
]

-- `parse_int_until_crlf` never reads past the end of the buffer.
pub parse_int-Within : (p : Bytes) → Within 0 (length p) (parse_int_until_crlf p)
unfolding parse_int_until_crlf
parse_int-Within [] = tt
parse_int-Within (c ∷ p) = elim (Bool-cases (c == b'-')) [
  | inl t ↦
      rw t (Within-shift 0 (length p) (number_loop p 1 1 true 0) (number_loop-Within p 1 1 true 0))
  | inr f ↦ rw f (number_loop-Within (c ∷ p) 0 0 false 0)
]
