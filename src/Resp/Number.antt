-- ===== src/Resp/Number.antt =====
-- src/resp.c: `parse_int_until_crlf`. The bytes from `p` to the end of the buffer are a list.
use redis_in_c.Prelude.{
  ℕ, ◌+◌, ◌-◌, ◌*◌, Bool, true, false, not, ltb, ◌==◌, if◌then◌else◌, Bytes, [], ◌∷◌, cr, lf,
}
use redis_in_c.Prelude.Int.{ℤ}
use redis_in_c.Decimal.{signed, not_digit, max_before_digit}
use redis_in_c.Resp.Outcome.{Outcome, parsed, need_more, protocol_err}

-- The branch behind a CR; the list is what follows it.
unfoldable pub number_end : Bytes → ℕ → ℕ → Bool → ℕ → Outcome (ℤ × ℕ)
number_end [] i digits_at negative value = need_more
number_end (c ∷ p) i digits_at negative value =
    if not (c == lf)
    then protocol_err
    else if i == digits_at
    then protocol_err
    else parsed (signed negative value, i + 2)

unfoldable pub number_loop : Bytes → ℕ → ℕ → Bool → ℕ → Outcome (ℤ × ℕ)
unfolding number_end
number_loop [] i digits_at negative value = need_more
number_loop (c ∷ p) i digits_at negative value =
    let rest = number_loop p (i + 1) digits_at negative (value * 10 + (c - b'0')) in
    if c == cr
    then number_end p i digits_at negative value
    else if not_digit c
    then protocol_err
    else if ltb max_before_digit value
    then protocol_err
    else rest

-- The value, and the number of bytes read.
unfoldable pub parse_int_until_crlf : Bytes → Outcome (ℤ × ℕ)
parse_int_until_crlf [] = need_more
parse_int_until_crlf (c ∷ p) =
    if c == b'-' then number_loop p 1 1 true 0 else number_loop (c ∷ p) 0 0 false 0
