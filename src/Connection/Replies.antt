-- ===== src/Connection/Replies.antt =====
-- src/networking.c: one reply for each command, in the order of the commands.
use redis_in_c.Prelude.{
  ℕ, suc, ◌+◌, ◌≤◌, ◌≡◌, ◌∙◌, refl, sym, ap, arith, false, inl, inr, Bytes, some, List, [], ◌∷◌,
  ◌++◌, length, All, IsWord, append_assoc, append-nil,
}
use redis_in_c.Heap.{Rc, ok, Rc-cases}
use redis_in_c.Bytebuf.{live, max_cap}
use redis_in_c.Hashtable.{Hashtable}
use redis_in_c.Hashtable.View.{entries}
use redis_in_c.Resp.Outcome.{need_more}
use redis_in_c.Resp.Request.{parse_request}
use redis_in_c.Resp.Plain.{IsPlain}
use redis_in_c.Resp.Reply.{Reply, encode}
use redis_in_c.Resp.Streams.{read_replies, encode_replies, read-encode_replies}
use redis_in_c.Command.Context.{Ctx}
use redis_in_c.Command.Answers.{IsReady}
use redis_in_c.Command.Dispatch.{execute_args, command_execute}
use redis_in_c.Command.Served.{Served}
use redis_in_c.Command.Execute.{command_execute-Served, NamesLine}
use redis_in_c.Connection.{Conn, read_chunk, ReadResult, handle_read}
use redis_in_c.Connection.Draining.{arriving}
use redis_in_c.Connection.Delivery.{IsPolite}
use redis_in_c.Connection.Pipeline.{IsSendable, encode_all, run_all}
use redis_in_c.Connection.Requests.{handle_read-Executes}
use redis_in_c.Connection.Validity.{IsSound}

-- The number of entries is one of 64 bits before each of the commands.
abbrev pub Counts : List (List Bytes) → Ctx → Type 0
Counts [] c = Unit
Counts (args ∷ more) c = IsWord (length (entries c.store)) × Counts more (execute_args c args).1

-- Behind the bytes that were to be sent there are some of which a client reads so many replies,
-- and no byte more, whatever follows them.
abbrev pub Replies : ℕ → Bytes → Bytes → Type 0
Replies n old new =
    (sent : Bytes) × (replies : List Reply) × (new ≡ old ++ sent)
    × (length replies ≡ n)
    × ((rest : Bytes) → read_replies n (sent ++ rest) ≡ some (replies, rest))

abbrev Queued : ℕ → Bytes → Bytes → Type 0
Queued n old new =
    (replies : List Reply) × (length replies ≡ n)
    × All IsPlain replies
    × (new ≡ old ++ encode_replies replies)

pub All-words :
    (args : List Bytes) → All (λ a. length a ≤ 536870912) args → All (λ a. IsWord (length a)) args
All-words [] h = tt
All-words (a ∷ args) h = (omega arith, All-words args h.1)

execute_args-Served :
    (c : Ctx) (args : List Bytes)
    → IsReady c
    → IsWord (length (entries c.store))
    → IsSendable args
    → Served (NamesLine args) c (execute_args c args)
unfolding command_execute
execute_args-Served c args r few s =
    command_execute-Served c (record { args = args; bytes_consumed = 0 }) r few (All-words args s.2)
      (omega (arith, s.1))

run_all-Queued :
    (commands : List (List Bytes)) (c : Ctx)
    → IsReady c
    → Counts commands c
    → All IsSendable commands
    → All NamesLine commands
    → (run_all commands c).0 ≡ ok
    → Queued (length commands) (live c.out) (live (run_all commands c).1.out)
unfolding run_all
run_all-Queued [] c r few h l good = ([], refl, tt, sym (append-nil (live c.out)))
run_all-Queued (args ∷ more) c r few (s, h) l good =
    let served = execute_args-Served c args r few.0 s in
    elim (Rc-cases (execute_args c args).0) [
      | inr f ↦ cc (rw f at good)
      | inl g ↦
          let (replies, n, p, e) =
            run_all-Queued more (execute_args c args).1 served.ready few.1 h l.1 (rw g at good) in
          (
            served.reply ∷ replies,
            ap suc n,
            (served.plain l.0, p),
            rw g (
                e
                ∙ ap (λ b. b ++ encode_replies replies) (served.sent.queued g)
                ∙ append_assoc (live c.out) (encode served.reply) (encode_replies replies)),
          )
    ]

-- With no allocation refused, while the peer neither hangs up nor fails, the bytes fit under 16
-- MiB and there are fewer than 2^64 entries: where the unread bytes of an open, sound connection
-- and those that arrive, in whatever pieces, are commands of 1 to 32 arguments of at most 512 MiB
-- each, whose names have no CR and no LF, one behind the other, and an unfinished rest, and no
-- reply fails, handle_read puts behind the bytes that were to be sent some of which a client
-- reads exactly as many replies as there are commands, and no byte more, whatever follows them.
pub handle_read-Replies :
    (ctl : Rc) (reads : List ReadResult) (c : Conn) (t : Hashtable)
    → (commands : List (List Bytes)) (rest : Bytes) → IsSound c t
    → c.close_after_drain ≡ false
    → IsPolite reads
    → length (live c.in_buf) + length (arriving reads) + read_chunk ≤ max_cap
    → live c.in_buf ++ arriving reads ≡ encode_all commands rest
    → All IsSendable commands
    → All NamesLine commands
    → parse_request rest ≡ need_more
    → Counts commands (record { store = t; out = c.out_buf; heap = [] })
    → (run_all commands (record { store = t; out = c.out_buf; heap = [] })).0 ≡ ok
    → Replies (length commands) (live c.out_buf) (live (handle_read ctl reads c t []).conn.out_buf)
handle_read-Replies ctl reads c t commands rest s f p le e h l n few good =
    let x = handle_read-Executes ctl reads c t commands rest s f p le e h n good in
    let start : Ctx = record { store = t; out = c.out_buf; heap = [] } in
    let (replies, len, plain, queued) =
      run_all-Queued commands start (record { table = s.table; sized = s.sized; buffer = s.output })
        few h l good in
    (
      encode_replies replies,
      replies,
      ap live x.replies ∙ queued,
      len,
      λ rest'.
          ap (λ m. read_replies m (encode_replies replies ++ rest')) (sym len)
          ∙ read-encode_replies replies rest' plain,
    )
