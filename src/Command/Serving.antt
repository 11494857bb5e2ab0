-- ===== src/Command/Serving.antt =====
-- src/command.c: every handler serves the requests that it gets.
use redis_in_c.Prelude.{
  inl, inr, sym, subst, arith, Bool-cases, Bytes, Option, none, some, List, [], ◌∷◌, ◌++◌, length,
  codes, ◌==◌, append-nil, crlf,
}
use redis_in_c.Prelude.Int.{ℤ, pos, int64_of, negsuc, ◌-ℤ◌}
use redis_in_c.Heap.{Rc}
use redis_in_c.Hashtable.{get_key, init}
use redis_in_c.Hashtable.Writes.{init-IsValid}
use redis_in_c.Hashtable.View.{entries}
use redis_in_c.Hashtable.Sizes.{init-IsSized}
use redis_in_c.Resp.Replies.{reply_array_header}
use redis_in_c.Decimal.{print_nat, parse_int64}
use redis_in_c.Resp.Plain.{IsPlain}
use redis_in_c.Resp.Reply.{
  status, error, integer, bulk, bulks, simple_string-Emits, bulk-Emits, array_header-Emits,
}
use redis_in_c.Command.Context.{Ctx, arg, send}
use redis_in_c.Command.Answers.{Answered, send-Answered}
use redis_in_c.Command.Basic.{
  operands, cmd_ping, cmd_get, cmd_set, cmd_del, cmd_exists, cmd_command,
}
use redis_in_c.Command.Numbers.{current, cmd_incr, cmd_decr, cmd_incrby, cmd_decrby}
use redis_in_c.Command.Strings.{value_len, cmd_strlen, cmd_append, cmd_setnx, cmd_getset}
use redis_in_c.Command.Keyspace.{cmd_keys, cmd_dbsize, cmd_flushdb}
use redis_in_c.Command.Values.{
  value_reply, old_value, cmd_get-Answered, cmd_set-Wrote, cmd_strlen-Answered, SetNx,
  cmd_setnx_lem, cmd_getset-Wrote, cmd_append_lem,
}
use redis_in_c.Command.Counters.{
  bad_integer, AddsParsed, cmd_incr_lem, cmd_decr_lem, cmd_incrby_lem, cmd_decrby_lem,
}
use redis_in_c.Command.Removal.{present, cmd_del_lem, cmd_exists-Answered}
use redis_in_c.Command.Keys.{
  matching, cmd_keys-Answered, cmd_keys-IsReady, cmd_dbsize-IsReady, cmd_dbsize-Answered,
  cmd_flushdb-Answered,
}
use redis_in_c.Command.Served.{
  Handles, Served, Answered-Served, same_store, wrote, adds_to, arg-IsWord, length-matching-le,
  IsServable, Serves,
}

value_reply-IsPlain : (o : Option Bytes) → IsPlain (value_reply o)
value_reply-IsPlain none = tt
value_reply-IsPlain (some v) = tt

pub cmd_ping-Served : Serves cmd_ping
unfolding cmd_ping
cmd_ping-Served c args s = elim (Bool-cases (length args == 1)) [
  | inl t ↦ rw t (
      same_store c s.ready (status (codes "PONG")) (λ _. omega arith) _
        (send-Answered c _ _ s.ready (simple_string-Emits (codes "PONG"))))
  | inr f ↦ rw f (
      same_store c s.ready (bulk (arg args 1)) (λ _. tt) _
        (send-Answered c _ _ s.ready (bulk-Emits (arg args 1) (arg-IsWord args 1 s.words))))
]

pub cmd_get-Served : Serves cmd_get
cmd_get-Served c args s =
    let found = get_key c.store (arg args 1) in
    same_store c s.ready (value_reply found) (λ _. value_reply-IsPlain found) _
      (cmd_get-Answered c args s.ready)

pub cmd_set-Served : Serves cmd_set
cmd_set-Served c args s =
    wrote c s.ready _ _ (status (codes "OK")) (λ _. omega arith) _ (arg-IsWord args 1 s.words)
      (arg-IsWord args 2 s.words) (cmd_set-Wrote c args s.ready)

pub cmd_del-Served : Serves cmd_del
cmd_del-Served c args s =
    let (n, t, gone, a) = cmd_del_lem c args s.ready s.argc in
    Answered-Served c t (integer (pos n)) (λ _. tt) _ gone.valid gone.sized a

pub cmd_exists-Served : Serves cmd_exists
cmd_exists-Served c args s =
    same_store c s.ready (integer (pos (present c.store (operands args)))) (λ _. tt) _
      (cmd_exists-Answered c args s.ready s.argc)

pub cmd_command-Served : Serves cmd_command
unfolding cmd_command
cmd_command-Served c args s =
    same_store c s.ready (bulks []) (λ _. tt) _
      (subst (λ text. Answered c c.store text (send (reply_array_header 0) c))
        (sym (append-nil (b'*' ∷ (print_nat 0 ++ crlf))))
        (send-Answered c _ _ s.ready (array_header-Emits 0 (omega arith))))

pub cmd_incr-Served : Serves cmd_incr
cmd_incr-Served c args s =
    adds_to c s.ready (arg args 1) (current (get_key c.store (arg args 1))) (pos 1) _
      (arg-IsWord args 1 s.words) (cmd_incr_lem c args s.ready)

pub cmd_decr-Served : Serves cmd_decr
cmd_decr-Served c args s =
    adds_to c s.ready (arg args 1) (current (get_key c.store (arg args 1))) (negsuc 0) _
      (arg-IsWord args 1 s.words) (cmd_decr_lem c args s.ready)

adds_parsed :
    (c : Ctx) (args : List Bytes) (s : IsServable c args) (f : ℤ → ℤ) (o : Option ℤ)
    (out : Rc × Ctx)
    → AddsParsed c args s.ready f o out
    → Served Unit c out
adds_parsed c args s f none out a = same_store c s.ready bad_integer (λ _. omega arith) out a
adds_parsed c args s f (some delta) out a =
    adds_to c s.ready (arg args 1) (current (get_key c.store (arg args 1))) (f delta) out
      (arg-IsWord args 1 s.words) a

pub cmd_incrby-Served : Serves cmd_incrby
cmd_incrby-Served c args s =
    adds_parsed c args s (λ z. z) (parse_int64 (arg args 2)) _ (cmd_incrby_lem c args s.ready)

pub cmd_decrby-Served : Serves cmd_decrby
cmd_decrby-Served c args s =
    adds_parsed c args s (λ z. pos 0 -ℤ z) (parse_int64 (arg args 2)) _
      (cmd_decrby_lem c args s.ready)

pub cmd_strlen-Served : Serves cmd_strlen
cmd_strlen-Served c args s =
    same_store c s.ready (integer (int64_of (value_len (get_key c.store (arg args 1))))) (λ _. tt) _
      (cmd_strlen-Answered c args s.ready)

pub cmd_append-Served : Serves cmd_append
cmd_append-Served c args s =
    let new = old_value (get_key c.store (arg args 1)) ++ arg args 2 in
    elim (cmd_append_lem c args s.ready (arg-IsWord args 2 s.words)) [
      | inl (small, w) ↦
          wrote c s.ready (arg args 1) new (integer (int64_of (length new))) (λ _. tt) _
            (arg-IsWord args 1 s.words) small w
      | inr (large, a) ↦
          same_store c s.ready (error (codes "ERR string exceeds maximum allowed size"))
            (λ _. omega arith) _ a
    ]

set_nx :
    (c : Ctx) (args : List Bytes) (s : IsServable c args) (o : Option Bytes) (out : Rc × Ctx)
    → SetNx c args s.ready o out
    → Served Unit c out
set_nx c args s (some old) out a = same_store c s.ready (integer (pos 0)) (λ _. tt) out a
set_nx c args s none out w =
    wrote c s.ready (arg args 1) (arg args 2) (integer (pos 1)) (λ _. tt) out
      (arg-IsWord args 1 s.words) (arg-IsWord args 2 s.words) w

pub cmd_setnx-Served : Serves cmd_setnx
cmd_setnx-Served c args s =
    set_nx c args s (get_key c.store (arg args 1)) _ (cmd_setnx_lem c args s.ready)

pub cmd_getset-Served : Serves cmd_getset
cmd_getset-Served c args s =
    wrote c s.ready (arg args 1) (arg args 2) (value_reply (get_key c.store (arg args 1)))
      (λ _. value_reply-IsPlain (get_key c.store (arg args 1))) _ (arg-IsWord args 1 s.words)
      (arg-IsWord args 2 s.words) (cmd_getset-Wrote c args s.ready)

pub cmd_keys-Handled : Handles cmd_keys
cmd_keys-Handled c args s = record {
  ready = cmd_keys-IsReady c args s.ready;
  served = λ few.
      same_store c s.ready (bulks (matching (arg args 1) (entries c.store))) (λ _. tt) _
        (cmd_keys-Answered c args s.ready
          (omega (arith, few, length-matching-le (arg args 1) (entries c.store))));
}

pub cmd_dbsize-Handled : Handles cmd_dbsize
cmd_dbsize-Handled c args s = record {
  ready = cmd_dbsize-IsReady c args s.ready;
  served = λ few.
      same_store c s.ready (integer (int64_of (length (entries c.store)))) (λ _. tt) _
        (cmd_dbsize-Answered c args s.ready few);
}

pub cmd_flushdb-Served : Serves cmd_flushdb
cmd_flushdb-Served c args s =
    Answered-Served c init (status (codes "OK")) (λ _. omega arith) _ init-IsValid init-IsSized
      (cmd_flushdb-Answered c args s.ready)
