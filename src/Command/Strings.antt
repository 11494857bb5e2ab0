-- ===== src/Command/Strings.antt =====
-- src/command.c: STRLEN, APPEND, SETNX and GETSET.
use redis_in_c.Prelude.{
  ℕ, ◌-◌, ltb, if◌then◌else◌, Bytes, Option, none, some, [], ◌∷◌, ◌++◌, length, codes, size_mod,
}
use redis_in_c.Prelude.Int.{pos, int64_of}
use redis_in_c.Heap.{Rc, malloc}
use redis_in_c.Hashtable.{get_key}
use redis_in_c.Resp.Replies.{reply_error, reply_integer, reply_bulk, reply_nil}
use redis_in_c.Command.Context.{Ctx, Handler, arg, send, put_key, out_of_memory, or_out_of_memory}

abbrev pub value_len : Option Bytes → ℕ
value_len none = 0
value_len (some val) = length val

unfoldable pub cmd_strlen : Handler
cmd_strlen c args = send (reply_integer (int64_of (value_len (get_key c.store (arg args 1))))) c

-- `malloc` by a handler, for a buffer that it fills; NULL is answered by an error.
unfoldable pub with_buffer : Ctx → (Ctx → Rc × Ctx) → Rc × Ctx
with_buffer c k =
    let (p, h) = malloc c.heap in
    let c' = record c { heap = h } in elim p [ none ↦ send out_of_memory c' | some _ ↦ k c' ]

-- `cmd_append` for an existing key: `tmp` holds the old bytes and the new ones behind them.
unfoldable pub append_value : Ctx → Bytes → Bytes → Bytes → Rc × Ctx
unfolding with_buffer
append_value c key val old =
    if ltb (size_mod - 1 - length old) (length val)
    then send (reply_error (codes "ERR string exceeds maximum allowed size")) c
    else with_buffer c (λ c'.
      let tmp = old ++ val in
      or_out_of_memory (reply_integer (int64_of (length tmp))) (put_key c' key tmp))

unfoldable pub append_to : Ctx → Bytes → Bytes → Option Bytes → Rc × Ctx
unfolding append_value
append_to c key val none =
    or_out_of_memory (reply_integer (int64_of (length val))) (put_key c key val)
append_to c key val (some old) = append_value c key val old

unfoldable pub cmd_append : Handler
unfolding append_to
cmd_append c args = append_to c (arg args 1) (arg args 2) (get_key c.store (arg args 1))

unfoldable pub set_if_missing : Ctx → Bytes → Bytes → Option Bytes → Rc × Ctx
set_if_missing c key val (some _) = send (reply_integer (pos 0)) c
set_if_missing c key val none = or_out_of_memory (reply_integer (pos 1)) (put_key c key val)

unfoldable pub cmd_setnx : Handler
unfolding set_if_missing
cmd_setnx c args = set_if_missing c (arg args 1) (arg args 2) (get_key c.store (arg args 1))

-- `cmd_getset` by what `ht_get` finds; the snapshot of the old value is taken before `ht_set`, and
-- an empty value needs none.
unfoldable pub swap_value : Ctx → Bytes → Bytes → Option Bytes → Rc × Ctx
unfolding with_buffer
swap_value c key val none = or_out_of_memory reply_nil (put_key c key val)
swap_value c key val (some []) = or_out_of_memory (reply_bulk []) (put_key c key val)
swap_value c key val (some (x ∷ old)) =
    with_buffer c (λ c'. or_out_of_memory (reply_bulk (x ∷ old)) (put_key c' key val))

unfoldable pub cmd_getset : Handler
unfolding swap_value
cmd_getset c args = swap_value c (arg args 1) (arg args 2) (get_key c.store (arg args 1))
