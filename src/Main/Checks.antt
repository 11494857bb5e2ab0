-- ===== src/Main/Checks.antt =====
-- src/main.c: what the self-tests compare with, and the tally that they keep.
use redis_in_c.Prelude.{
  ℕ, ◌+◌, ◌/◌, ◌%◌, Bool, true, false, ◌&&◌, ltb, leb, ◌==◌, if◌then◌else◌, Bytes, codes, [], ◌∷◌,
  ◌++◌, length, take,
}
use redis_in_c.Heap.{Rc, ok, fail}
use redis_in_c.Bytebuf.{Bytebuf, live, live_len}
use redis_in_c.Hashtable.{memcmp_eq}
use redis_in_c.Decimal.{print_nat}

-- `rc == 0`
unfoldable pub is_ok : Rc → Bool
is_ok ok = true
is_ok fail = false

unfoldable pub slice_eq : Bytes → Bytes → ℕ → Bool
unfolding memcmp_eq
slice_eq s expected expected_len = length s == expected_len && memcmp_eq s expected

unfoldable pub bytebuf_eq : Bytebuf → Bytes → ℕ → Bool
unfolding live live_len memcmp_eq
bytebuf_eq b expected expected_len =
    if live_len b == expected_len
    then (if expected_len == 0 then true else memcmp_eq (live b) (take expected_len expected))
    else false

unfoldable pub bytebuf_starts_with : Bytebuf → Bytes → ℕ → Bool
unfolding live live_len memcmp_eq
bytebuf_starts_with b prefix plen =
    if ltb (live_len b) plen
    then false
    else if plen == 0
    then true
    else memcmp_eq (take plen (live b)) (take plen prefix)

-- `g_…_total` and `g_…_pass`
pub record Tally : Type 0 where
  pub total : ℕ
  pub pass : ℕ

-- `RESP_CHECK` and `CMD_CHECK`, but for the line that they print.
unfoldable pub check : Bool → Tally → Tally
check cond t = record { total = t.total + 1; pass = if cond then t.pass + 1 else t.pass }

-- A digit of `%02x`.
unfoldable pub hex_digit : ℕ → ℕ
hex_digit d = if ltb d 10 then 48 + d else 87 + d

-- A byte is printed as it is, or as `\x` and two hexadecimal digits.
unfoldable pub dump_byte : ℕ → Bytes
unfolding hex_digit
dump_byte b =
    if leb 32 b && ltb b 127
    then b ∷ []
    else codes "\\x" ++ (hex_digit (b / 16) ∷ hex_digit (b % 16) ∷ [])

unfoldable pub dump_bytes : Bytes → Bytes
unfolding dump_byte
dump_bytes [] = []
dump_bytes (b ∷ bytes) = dump_byte b ++ dump_bytes bytes

-- What `dump_value` prints.
unfoldable pub dump_value : Bytes → Bytes → Bytes
unfolding dump_bytes print_nat
dump_value label val =
    codes "  "
    ++ (label
        ++ (codes " ("
            ++ (print_nat (length val)
                ++ (codes " bytes): \"" ++ (dump_bytes val ++ codes "\"\n")))))
