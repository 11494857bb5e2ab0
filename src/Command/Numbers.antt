-- ===== src/Command/Numbers.antt =====
-- src/command.c: INCR, DECR, INCRBY and DECRBY.
use redis_in_c.Prelude.{
  ◌&&◌, ◌||◌, leb, Bool, not, if◌then◌else◌, Bytes, Option, none, some, length, codes,
}
use redis_in_c.Prelude.Int.{ℤ, pos, negsuc, ◌+ℤ◌, ◌-ℤ◌, ltb_ℤ, int64_max, int64_min}
use redis_in_c.Heap.{Rc}
use redis_in_c.Hashtable.{get_key}
use redis_in_c.Resp.Replies.{Writer, reply_error, reply_integer}
use redis_in_c.Decimal.{print_int, parse_int64}
use redis_in_c.Command.Context.{Ctx, Handler, arg, send, put_key, or_out_of_memory}

unfoldable pub not_an_integer : Writer
not_an_integer = reply_error (codes "ERR value is not an integer or out of range")

unfoldable pub would_overflow : Writer
would_overflow = reply_error (codes "ERR increment or decrement would overflow")

-- `(delta > 0 && cur > INT64_MAX - delta) || (delta < 0 && cur < INT64_MIN - delta)`
unfoldable pub overflows : ℤ → ℤ → Bool
unfolding ◌-ℤ◌
overflows cur delta =
    ltb_ℤ (pos 0) delta && ltb_ℤ (int64_max -ℤ delta) cur
    || ltb_ℤ delta (pos 0) && ltb_ℤ cur (int64_min -ℤ delta)

-- `incrby_op` from the formatting of `next` on. `snprintf` returns the length of the whole text.
unfoldable pub store_number : Ctx → Bytes → ℤ → Rc × Ctx
store_number c key next =
    let fmt = print_int next in
    if leb 24 (length fmt)
    then send (reply_error (codes "ERR internal format error")) c
    else or_out_of_memory (reply_integer next) (put_key c key fmt)

-- `incrby_op` behind the reading of `cur`.
unfoldable pub add_delta : Ctx → Bytes → ℤ → ℤ → Rc × Ctx
unfolding overflows store_number
add_delta c key delta cur =
    if overflows cur delta then send would_overflow c else store_number c key (cur +ℤ delta)

-- The value that is there, or 0 on a miss; `none` where it does not parse.
unfoldable pub current : Option Bytes → Option ℤ
current none = some (pos 0)
current (some val) = parse_int64 val

abbrev pub or_not_an_integer : Ctx → (ℤ → Rc × Ctx) → Option ℤ → Rc × Ctx
or_not_an_integer c k none = send not_an_integer c
or_not_an_integer c k (some n) = k n

unfoldable pub incrby_op : Ctx → Bytes → ℤ → Rc × Ctx
unfolding add_delta current
incrby_op c key delta = or_not_an_integer c (add_delta c key delta) (current (get_key c.store key))

unfoldable pub cmd_incr : Handler
unfolding incrby_op
cmd_incr c args = incrby_op c (arg args 1) (pos 1)

unfoldable pub cmd_decr : Handler
unfolding incrby_op
cmd_decr c args = incrby_op c (arg args 1) (negsuc 0)

unfoldable pub cmd_incrby : Handler
unfolding incrby_op
cmd_incrby c args = or_not_an_integer c (incrby_op c (arg args 1)) (parse_int64 (arg args 2))

-- `delta == INT64_MIN`
abbrev pub is_int64_min : ℤ → Bool
is_int64_min z = not (ltb_ℤ int64_min z) && not (ltb_ℤ z int64_min)

unfoldable pub decr_by : Ctx → Bytes → ℤ → Rc × Ctx
unfolding incrby_op ◌-ℤ◌
decr_by c key delta =
    if is_int64_min delta then send would_overflow c else incrby_op c key (pos 0 -ℤ delta)

unfoldable pub cmd_decrby : Handler
unfolding decr_by
cmd_decrby c args = or_not_an_integer c (decr_by c (arg args 1)) (parse_int64 (arg args 2))
