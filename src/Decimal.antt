-- ===== src/Decimal.antt =====
-- Decimal numbers: what `snprintf` prints for `%zu` and `%PRId64`, which src/resp.c and
-- src/command.c use, and `parse_int64` of src/command.c, which reads values back.
pub mod Print
pub mod Parse
mod Tests
use redis_in_c.Prelude.{
  ℕ, zero, suc, ◌+◌, ◌-◌, ◌*◌, ◌/◌, ◌%◌, Bool, true, false, ◌||◌, ltb, ◌==◌, if◌then◌else◌, Bytes,
  Option, none, some, [], ◌∷◌,
}
use redis_in_c.Prelude.Int.{ℤ, pos, negsuc}

-- The digits of `n` in front of `out`. The fuel `n` is enough, since a round divides `n` by ten.
unfoldable pub digits : ℕ → ℕ → Bytes → Bytes
digits zero n out = out
digits (suc fuel) n out =
    let rest = digits fuel (n / 10) ((b'0' + n % 10) ∷ out) in if n == 0 then out else rest

-- `%zu`
unfoldable pub print_nat : ℕ → Bytes
unfolding digits
print_nat n = if n == 0 then b'0' ∷ [] else digits n n []

-- `%PRId64`
unfoldable pub print_int : ℤ → Bytes
unfolding print_nat
print_int (pos n) = print_nat n
print_int (negsuc n) = b'-' ∷ print_nat (suc n)

-- `negative ? -value : value`
abbrev pub signed : Bool → ℕ → ℤ
signed true (suc n) = negsuc n
signed _ n = pos n

abbrev pub not_digit : ℕ → Bool
not_digit c = ltb c b'0' || ltb b'9' c

-- `(INT64_MAX - 9) / 10`
abbrev pub max_before_digit : ℕ
max_before_digit = 922337203685477579

-- The digit loop of `parse_int64`.
unfoldable pub scan_digits : Bytes → ℕ → Option ℕ
scan_digits [] v = some v
scan_digits (c ∷ p) v =
    let rest = scan_digits p (v * 10 + (c - b'0')) in
    if not_digit c then none else if ltb max_before_digit v then none else rest

-- The loop, and the sign given to its result.
abbrev pub scan_signed : Bool → Bytes → Option ℤ
scan_signed negative p = elim (scan_digits p 0) [ none ↦ none | some v ↦ some (signed negative v) ]

abbrev pub scan_negative : Bytes → Option ℤ
scan_negative [] = none
scan_negative (c ∷ p) = scan_signed true (c ∷ p)

-- `parse_int64`; `none` is -1
unfoldable pub parse_int64 : Bytes → Option ℤ
unfolding scan_digits
parse_int64 [] = none
parse_int64 (c ∷ p) = if c == b'-' then scan_negative p else scan_signed false (c ∷ p)
