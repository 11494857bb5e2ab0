-- ===== src/Command/Performs.antt =====
-- src/command.c: `command_execute` does what the key-value machine does.
use redis_in_c.Prelude.{
  ℕ, zero, suc, ◌<◌, ◌≡◌, refl, sym, subst, arith, inl, inr, Bytes, none, List, [], ◌∷◌, ◌++◌,
  length, get_or, All, IsWord, codes, append-nil, crlf,
}
use redis_in_c.Prelude.Int.{pos, int_of_small, negsuc, ◌-ℤ◌}
use redis_in_c.Hashtable.{get_key, init}
use redis_in_c.Decimal.{parse_int64, print_nat}
use redis_in_c.Resp.Reply.{simple_string-Emits, bulk-Emits, array_header-Emits}
use redis_in_c.Command.Context.{Ctx}
use redis_in_c.Command.Answers.{IsReady, Answered, send-Answered}
use redis_in_c.Command.Basic.{cmd_ping, cmd_command}
use redis_in_c.Command.Dispatch.{CmdEntry, row, commands, command_execute}
use redis_in_c.Command.Values.{
  old_value, cmd_get-Answered, cmd_set-Wrote, cmd_strlen-Answered, cmd_setnx_lem, cmd_getset-Wrote,
  cmd_append_lem,
}
use redis_in_c.Command.Counters.{cmd_incr_lem, cmd_decr_lem, cmd_incrby_lem, cmd_decrby_lem}
use redis_in_c.Command.Removal.{cmd_exists-Answered}
use redis_in_c.Command.Keys.{cmd_flushdb-Answered}
use redis_in_c.Command.Routing.{upper, IsRow, HasArity, command_execute-row}
use redis_in_c.Command.Machine.{
  Op, ping, echo, get, put, del, exists, command, incr, decr, incrby, decrby, strlen, append,
  flushdb, setnx, getset, operands_of, row_of, nothing, perform,
}
use redis_in_c.Command.Refines.{
  view, view-init, Meets, Answered-Meets, same, wrote, adds, parsed, appended, set_nx, measured,
  counted, removed,
}

-- The row of the table that serves the command.
unfoldable pub entry_of : Op → CmdEntry
unfolding commands
entry_of op = get_or commands (row_of op) (row [] 0 none cmd_ping)

get_or-IsRow :
    (es : List CmdEntry) (n : ℕ) (d : CmdEntry) → n < length es → IsRow (get_or es n d) es
get_or-IsRow [] n d lt = absurd (omega arith)
get_or-IsRow (e ∷ es) zero d lt = inl refl
get_or-IsRow (e ∷ es) (suc n) d lt = inr (get_or-IsRow es n d (omega arith))

row_of-lt : (op : Op) → row_of op < 17
row_of-lt ping = omega arith
row_of-lt (echo msg) = omega arith
row_of-lt (get key) = omega arith
row_of-lt (put key val) = omega arith
row_of-lt (del key keys) = omega arith
row_of-lt (exists key keys) = omega arith
row_of-lt (command topics) = omega arith
row_of-lt (incr key) = omega arith
row_of-lt (decr key) = omega arith
row_of-lt (incrby key delta) = omega arith
row_of-lt (decrby key delta) = omega arith
row_of-lt (strlen key) = omega arith
row_of-lt (append key val) = omega arith
row_of-lt flushdb = omega arith
row_of-lt (setnx key val) = omega arith
row_of-lt (getset key val) = omega arith

entry_of-IsRow : (op : Op) → IsRow (entry_of op) commands
unfolding entry_of commands
entry_of-IsRow op = get_or-IsRow commands (row_of op) (row [] 0 none cmd_ping) (row_of-lt op)

entry_of-HasArity : (op : Op) → HasArity (entry_of op) (pos (suc (length (operands_of op))))
unfolding entry_of
entry_of-HasArity ping = (omega arith, omega arith)
entry_of-HasArity (echo msg) = (omega arith, omega arith)
entry_of-HasArity (get key) = (omega arith, omega arith)
entry_of-HasArity (put key val) = (omega arith, omega arith)
entry_of-HasArity (del key keys) = (omega arith, tt)
entry_of-HasArity (exists key keys) = (omega arith, tt)
entry_of-HasArity (command topics) = (omega arith, tt)
entry_of-HasArity (incr key) = (omega arith, omega arith)
entry_of-HasArity (decr key) = (omega arith, omega arith)
entry_of-HasArity (incrby key delta) = (omega arith, omega arith)
entry_of-HasArity (decrby key delta) = (omega arith, omega arith)
entry_of-HasArity (strlen key) = (omega arith, omega arith)
entry_of-HasArity (append key val) = (omega arith, omega arith)
entry_of-HasArity flushdb = (omega arith, omega arith)
entry_of-HasArity (setnx key val) = (omega arith, omega arith)
entry_of-HasArity (getset key val) = (omega arith, omega arith)

module _ (c : Ctx) (r : IsReady c) (calm : c.heap ≡ []) (name : Bytes) where
  handler-Meets :
      (op : Op)
      → All (λ a. IsWord (length a)) (operands_of op)
      → IsWord (suc (length (operands_of op)))
      → Meets c (perform op (view c.store)) ((entry_of op).handler c (name ∷ operands_of op))
  unfolding entry_of perform
  handler-Meets ping w n =
      same c r calm _ _
        (unfold cmd_ping in send-Answered c _ _ r (simple_string-Emits (codes "PONG")))
  handler-Meets (echo msg) w n =
      same c r calm _ _ (unfold cmd_ping in send-Answered c _ _ r (bulk-Emits msg w.0))
  handler-Meets (get key) w n = same c r calm _ _ (cmd_get-Answered c (name ∷ key ∷ []) r)
  handler-Meets (put key val) w n =
      wrote c r calm key val _ _ (cmd_set-Wrote c (name ∷ key ∷ val ∷ []) r)
  handler-Meets (del key keys) w n = removed c (name ∷ key ∷ keys) r n
  handler-Meets (exists key keys) w n =
      counted c (key ∷ keys) _ (cmd_exists-Answered c (name ∷ key ∷ keys) r n)
  handler-Meets (command topics) w n = same c r calm _ _ (
      subst (λ text. Answered c c.store text (cmd_command c (name ∷ topics)))
        (sym (append-nil (b'*' ∷ (print_nat 0 ++ crlf))))
        (unfold cmd_command in send-Answered c _ _ r (array_header-Emits 0 (omega arith))))
  handler-Meets (incr key) w n = adds c r calm key (pos 1) _ (cmd_incr_lem c (name ∷ key ∷ []) r)
  handler-Meets (decr key) w n = adds c r calm key (negsuc 0) _ (cmd_decr_lem c (name ∷ key ∷ []) r)
  handler-Meets (incrby key delta) w n =
      let args = name ∷ key ∷ delta ∷ [] in
      parsed c r calm args (λ z. z) (parse_int64 delta) _ (cmd_incrby_lem c args r)
  handler-Meets (decrby key delta) w n =
      let args = name ∷ key ∷ delta ∷ [] in
      parsed c r calm args (λ z. pos 0 -ℤ z) (parse_int64 delta) _ (cmd_decrby_lem c args r)
  handler-Meets (strlen key) w n =
      measured c r calm key _ (cmd_strlen-Answered c (name ∷ key ∷ []) r)
  handler-Meets (append key val) w n =
      let args = name ∷ key ∷ val ∷ [] in
      appended c r calm args (old_value (get_key c.store key) ++ val) _
        (cmd_append_lem c args r w.1.0)
  handler-Meets flushdb w n =
      Answered-Meets c init _ nothing _ view-init (cmd_flushdb-Answered c (name ∷ []) r)
  handler-Meets (setnx key val) w n =
      let args = name ∷ key ∷ val ∷ [] in
      set_nx c r calm args (get_key c.store key) _ (cmd_setnx_lem c args r)
  handler-Meets (getset key val) w n =
      wrote c r calm key val _ _ (cmd_getset-Wrote c (name ∷ key ∷ val ∷ []) r)

  -- From a ready state with no allocation refused, for fewer than 2^31 arguments of 64-bit
  -- lengths, a request for any command but KEYS and DBSIZE, with its name in any spelling, leaves
  -- a store in which every lookup finds what a key-value machine without buckets, buffers and
  -- allocators holds behind the command, and appends the encoded reply of that machine, or a
  -- first part of it, which happens only if the reply and a byte more do not fit under 16 MiB.
  pub command_execute-Meets :
      (op : Op) (used : ℕ)
      → upper name ≡ (entry_of op).name
      → All (λ a. IsWord (length a)) (operands_of op)
      → suc (length (operands_of op)) < 2147483648
      → Meets c
          (perform op (view c.store))
          (command_execute c (record { args = name ∷ operands_of op; bytes_consumed = used }))
  command_execute-Meets op used u w n =
      elim (command_execute-row c (entry_of op) name (operands_of op) used (entry_of-IsRow op) u) [
        | inr (misfit, e) ↦ absurd (
            misfit (subst (HasArity (entry_of op)) (sym (int_of_small _ n)) (entry_of-HasArity op)))
        | inl (fits, e) ↦ rw e (handler-Meets op w (omega arith))
      ]
