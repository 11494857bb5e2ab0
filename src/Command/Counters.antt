-- ===== src/Command/Counters.antt =====
-- src/command.c: INCR, DECR, INCRBY and DECRBY compute the exact sum, or refuse it.
use redis_in_c.Prelude.{
  suc, ◌≤◌, ◌<◌, ◌≡◌, ◌⊎◌, inl, inr, refl, arith, true, false, leb, Bytes, Option, none, some, List,
  length, codes, size_mod,
}
use redis_in_c.Prelude.Int.{ℤ, pos, negsuc, ◌+ℤ◌, ◌-ℤ◌, ◌≤ℤ◌, int64_max, int64_min}
use redis_in_c.Heap.{Rc}
use redis_in_c.Hashtable.{get_key}
use redis_in_c.Hashtable.Writes.{stored}
use redis_in_c.Decimal.{print_int, parse_int64}
use redis_in_c.Decimal.Print.{length-print_nat-le}
use redis_in_c.Decimal.Parse.{magnitude, max_parsed, parse_int64_iff}
use redis_in_c.Resp.Reply.{Reply, error, integer, encode, error-Emits, integer-Emits}
use redis_in_c.Command.Context.{Ctx, arg, send}
use redis_in_c.Command.Answers.{IsReady, Answered, Wrote, send-Answered, put-Wrote}
use redis_in_c.Command.Numbers.{
  not_an_integer, would_overflow, overflows, store_number, add_delta, current, or_not_an_integer,
  incrby_op, cmd_incr, cmd_decr, cmd_incrby, is_int64_min, decr_by, cmd_decrby,
}

-- The numbers of `int64_t`.
abbrev pub IsInt64 : ℤ → Type 0
IsInt64 z = (int64_min ≤ℤ z) × (z ≤ℤ int64_max)

-- The test before the addition is true exactly where the sum is no `int64_t`.
overflows_iff :
    (cur delta : ℤ)
    → IsInt64 cur
    → IsInt64 delta
    → ((overflows cur delta ≡ true) × (IsInt64 (cur +ℤ delta) → ⊥))
      ⊎ ((overflows cur delta ≡ false) × IsInt64 (cur +ℤ delta))
unfolding overflows ◌+ℤ◌ ◌-ℤ◌
overflows_iff (pos a) (pos b) hc hd = ground arith
overflows_iff (pos a) (negsuc b) hc hd = ground arith
overflows_iff (negsuc a) (pos b) hc hd = ground arith
overflows_iff (negsuc a) (negsuc b) hc hd = ground arith

-- The text of an `int64_t` fits in the 24 bytes of `fmt`, with its NUL.
pub text_fits : (z : ℤ) → IsInt64 z → length (print_int z) < 24
unfolding print_int
text_fits (pos n) h = omega (arith, length-print_nat-le n 19 (omega arith) (omega arith))
text_fits (negsuc n) h = omega (arith, length-print_nat-le (suc n) 19 (omega arith) (omega arith))

magnitude-IsInt64 : (z : ℤ) → IsInt64 z → magnitude z < size_mod
magnitude-IsInt64 (pos n) h = omega arith
magnitude-IsInt64 (negsuc n) h = omega arith

magnitude_in_range : (z : ℤ) → magnitude z ≤ max_parsed → IsInt64 z
magnitude_in_range (pos n) h = omega arith
magnitude_in_range (negsuc n) h = omega arith

parsed-IsInt64 : (s : Bytes) (z : ℤ) → parse_int64 s ≡ some z → IsInt64 z
parsed-IsInt64 s z e = magnitude_in_range z ((parse_int64_iff s z).0 e).1

abbrev pub bad_integer : Reply
bad_integer = error (codes "ERR value is not an integer or out of range")

abbrev pub overflow : Reply
overflow = error (codes "ERR increment or decrement would overflow")

module _ (c : Ctx) (key : Bytes) (r : IsReady c) where
  -- The sum is stored and answered, or, where it is no `int64_t`, refused with the store unchanged.
  abbrev pub Adds : ℤ → Rc × Ctx → Type 0
  Adds sum out =
      (IsInt64 sum × Wrote c (stored c.store key (print_int sum)) (encode (integer sum)) out)
      ⊎ ((IsInt64 sum → ⊥) × Answered c c.store (encode overflow) out)

  -- The same for the number that is found, if it is one.
  abbrev pub AddsTo : Option ℤ → ℤ → Rc × Ctx → Type 0
  AddsTo none delta out = Answered c c.store (encode bad_integer) out
  AddsTo (some cur) delta out = Adds (cur +ℤ delta) out

  store_number_lem :
      (next : ℤ)
      → IsInt64 next
      → Wrote c
          (stored c.store key (print_int next))
          (encode (integer next))
          (store_number c key next)
  unfolding store_number
  store_number_lem next h =
      let fits : leb 24 (length (print_int next)) ≡ false = ground (arith, text_fits next h) in
      rw fits
        (put-Wrote c key (print_int next) _ _ r (integer-Emits next (magnitude-IsInt64 next h)))

  add_delta_lem :
      (delta cur : ℤ)
      → IsInt64 cur
      → IsInt64 delta
      → Adds (cur +ℤ delta) (add_delta c key delta cur)
  unfolding add_delta
  add_delta_lem delta cur hc hd = elim (overflows_iff cur delta hc hd) [
    | inl (t, out) ↦ rw t (
        inr (
          out,
          send-Answered c _ _ r (
              unfold would_overflow in
              error-Emits (codes "ERR increment or decrement would overflow")),
        ))
    | inr (f, fits) ↦ rw f (inl (fits, store_number_lem (cur +ℤ delta) fits))
  ]

  refused : Answered c c.store (encode bad_integer) (send not_an_integer c)
  refused =
      send-Answered c _ _ r
        (unfold not_an_integer in error-Emits (codes "ERR value is not an integer or out of range"))

  current-IsInt64 : (o : Option Bytes) (z : ℤ) → current o ≡ some z → IsInt64 z
  unfolding current
  current-IsInt64 none z e = let zero : z ≡ pos 0 = cc in rw zero (omega arith)
  current-IsInt64 (some s) z e = parsed-IsInt64 s z e

  add_to_lem :
      (o : Option ℤ) (delta : ℤ)
      → ((z : ℤ) → o ≡ some z → IsInt64 z)
      → IsInt64 delta
      → AddsTo o delta (or_not_an_integer c (add_delta c key delta) o)
  add_to_lem none delta w h = refused
  add_to_lem (some cur) delta w h = add_delta_lem delta cur (w cur refl) h

  pub incrby_op_lem :
      (delta : ℤ)
      → IsInt64 delta
      → AddsTo (current (get_key c.store key)) delta (incrby_op c key delta)
  unfolding incrby_op
  incrby_op_lem delta h =
      add_to_lem (current (get_key c.store key)) delta (current-IsInt64 (get_key c.store key)) h

  decr_by_lem :
      (delta : ℤ)
      → magnitude delta ≤ max_parsed
      → AddsTo (current (get_key c.store key)) (pos 0 -ℤ delta) (decr_by c key delta)
  unfolding decr_by ◌-ℤ◌
  decr_by_lem (pos n) h =
      let f : is_int64_min (pos n) ≡ false = ground arith in
      rw f (incrby_op_lem (pos 0 -ℤ pos n) (ground arith))
  decr_by_lem (negsuc n) h =
      let f : is_int64_min (negsuc n) ≡ false = ground arith in
      rw f (incrby_op_lem (pos 0 -ℤ negsuc n) (ground arith))

module _ (c : Ctx) (args : List Bytes) (r : IsReady c) where
  pub cmd_incr_lem :
      AddsTo c (arg args 1) r (current (get_key c.store (arg args 1))) (pos 1) (cmd_incr c args)
  unfolding cmd_incr
  cmd_incr_lem = incrby_op_lem c (arg args 1) r (pos 1) (omega arith)

  pub cmd_decr_lem :
      AddsTo c (arg args 1) r (current (get_key c.store (arg args 1))) (negsuc 0) (cmd_decr c args)
  unfolding cmd_decr
  cmd_decr_lem = incrby_op_lem c (arg args 1) r (negsuc 0) (omega arith)

  -- What INCRBY does with its argument, and DECRBY with the sign turned round by `f`.
  abbrev pub AddsParsed : (ℤ → ℤ) → Option ℤ → Rc × Ctx → Type 0
  AddsParsed f none out = Answered c c.store (encode bad_integer) out
  AddsParsed f (some delta) out =
      AddsTo c (arg args 1) r (current (get_key c.store (arg args 1))) (f delta) out

  incrby_parsed :
      (o : Option ℤ)
      → ((z : ℤ) → o ≡ some z → magnitude z ≤ max_parsed)
      → AddsParsed (λ z. z) o (or_not_an_integer c (incrby_op c (arg args 1)) o)
  incrby_parsed none w = refused c (arg args 1) r
  incrby_parsed (some delta) w =
      incrby_op_lem c (arg args 1) r delta (magnitude_in_range delta (w delta refl))

  decrby_parsed :
      (o : Option ℤ)
      → ((z : ℤ) → o ≡ some z → magnitude z ≤ max_parsed)
      → AddsParsed (λ z. pos 0 -ℤ z) o (or_not_an_integer c (decr_by c (arg args 1)) o)
  decrby_parsed none w = refused c (arg args 1) r
  decrby_parsed (some delta) w = decr_by_lem c (arg args 1) r delta (w delta refl)

  within : (z : ℤ) → parse_int64 (arg args 2) ≡ some z → magnitude z ≤ max_parsed
  within z e = ((parse_int64_iff (arg args 2) z).0 e).1

  pub cmd_incrby_lem : AddsParsed (λ z. z) (parse_int64 (arg args 2)) (cmd_incrby c args)
  unfolding cmd_incrby
  cmd_incrby_lem = incrby_parsed (parse_int64 (arg args 2)) within

  -- From a ready state, DECRBY answers an error where its argument is no integer, and else acts
  -- as incrby_op with the exact negation of it.
  pub cmd_decrby_lem : AddsParsed (λ z. pos 0 -ℤ z) (parse_int64 (arg args 2)) (cmd_decrby c args)
  unfolding cmd_decrby
  cmd_decrby_lem = decrby_parsed (parse_int64 (arg args 2)) within
