-- ===== src/Connection/Serial.antt =====
-- src/networking.c: a client's bytes are answered as the key-value machine answers its commands.
use redis_in_c.Prelude.{
  ◌+◌, ◌≤◌, ◌≡◌, ◌∙◌, refl, sym, subst, ap, arith, false, inl, inr, Bytes, List, [], ◌∷◌, ◌++◌,
  length, length-append, All, append_assoc, append-nil, map,
}
use redis_in_c.Heap.{Rc, ok, Rc-cases}
use redis_in_c.Bytebuf.{live, max_cap}
use redis_in_c.Hashtable.{Hashtable}
use redis_in_c.Resp.Outcome.{need_more, Request}
use redis_in_c.Resp.Request.{parse_request}
use redis_in_c.Resp.Reply.{Reply, encode}
use redis_in_c.Resp.Streams.{encode_replies}
use redis_in_c.Command.Context.{Ctx}
use redis_in_c.Command.Answers.{IsReady}
use redis_in_c.Command.Dispatch.{execute_args, command_execute}
use redis_in_c.Command.Routing.{upper}
use redis_in_c.Command.Execute.{command_execute-IsReady}
use redis_in_c.Command.Machine.{Op, operands_of, View, perform, perform_all}
use redis_in_c.Command.Refines.{view, Meets}
use redis_in_c.Command.Performs.{entry_of, command_execute-Meets}
use redis_in_c.Connection.{Conn, State, read_chunk, ReadResult, handle_read}
use redis_in_c.Connection.Draining.{arriving}
use redis_in_c.Connection.Delivery.{IsPolite}
use redis_in_c.Connection.Pipeline.{IsSendable, encode_all, run_all}
use redis_in_c.Connection.Replies.{All-words}
use redis_in_c.Connection.Requests.{handle_read-Executes}
use redis_in_c.Connection.Validity.{IsSound}

-- A command, and its name as the client spells it.
abbrev pub Command : Type 0
Command = Bytes × Op

abbrev pub args_of : Command → List Bytes
args_of (name, op) = name ∷ operands_of op

-- The name is that of the command in upper and lower case letters.
abbrev pub IsNamed : Command → Type 0
IsNamed (name, op) = upper name ≡ (entry_of op).name

-- What the machine makes of the commands.
abbrev pub performed : List Command → View → List Reply × View
performed cs m = perform_all (map (λ (c : Command). c.1) cs) m

abbrev pub IsAsked : Command → Type 0
IsAsked c = IsNamed c × IsSendable (args_of c)

abbrev Finished : (List Reply × View) → Ctx → Rc × Ctx → Type 0
Finished r c out =
    (out.0 ≡ ok)
    × (live out.1.out ≡ live c.out ++ encode_replies r.0)
    × (view out.1.store ≡ r.1)
    × (out.1.heap ≡ [])

execute_args-Meets :
    (c : Ctx) (x : Command)
    → IsReady c
    → c.heap ≡ []
    → IsAsked x
    → Meets c (perform x.1 (view c.store)) (execute_args c (args_of x))
      × IsReady (execute_args c (args_of x)).1
unfolding command_execute
execute_args-Meets c (name, op) r calm (named, s) =
    let req : Request = record { args = name ∷ operands_of op; bytes_consumed = 0 } in
    let words = All-words (name ∷ operands_of op) s.2 in
    (
      command_execute-Meets c r calm name op 0 named words.1 (omega (arith, s.1)),
      command_execute-IsReady c req r words (omega (arith, s.1)),
    )

run_all-Finished :
    (cs : List Command) (c : Ctx)
    → IsReady c
    → c.heap ≡ []
    → All IsAsked cs
    → length (live c.out) + length (encode_replies (performed cs (view c.store)).0) + 1 ≤ max_cap
    → Finished (performed cs (view c.store)) c (run_all (map (λ (x : Command). args_of x) cs) c)
unfolding run_all perform_all
run_all-Finished [] c r calm h le = (refl, sym (append-nil (live c.out)), refl, calm)
run_all-Finished (x ∷ cs) c r calm h le =
    let (meets, r') = execute_args-Meets c x r calm h.0 in
    let (p, m) = perform x.1 (view c.store) in
    let c' = (execute_args c (args_of x)).1 in
    let ps = (performed cs m).0 in
    let sizes = length-append (encode p) (encode_replies ps) in
    elim (Rc-cases (execute_args c (args_of x)).0) [
      | inr f ↦ absurd (omega (arith, meets.sent.full f calm, sizes, le))
      | inl g ↦
          let queued = meets.sent.queued g in
          let seen = meets.kept in
          let (good, more, last, spared) = run_all-Finished cs c' r' (meets.sent.calm calm) h.1 (
            subst
              (λ u. length (live c'.out) + length (encode_replies (performed cs u).0) + 1 ≤ max_cap)
              (sym seen)
              (omega
                (arith, ap length queued, length-append (live c.out) (encode p), sizes, le))) in
          rw g (
            good,
            more
                ∙ ap (λ u. live c'.out ++ encode_replies (performed cs u).0) seen
                ∙ ap (λ b. b ++ encode_replies ps) queued
                ∙ append_assoc (live c.out) (encode p) (encode_replies ps),
            last ∙ ap (λ u. (performed cs u).1) seen,
            spared,
          )
    ]

-- The store is seen as the machine's last state, its replies stand behind the bytes that were to
-- be sent, and the unfinished rest is kept.
pub record Performs (ctl : Rc) (r : List Reply × View) (old rest : Bytes) (s : State) : Type 0 where
  pub store : view s.store ≡ r.1
  pub queued : live s.conn.out_buf ≡ old ++ encode_replies r.0
  pub unread : live s.conn.in_buf ≡ rest
  pub still_open : s.conn.close_after_drain ≡ false
  pub calm : s.heap ≡ []
  pub kept : ctl ≡ ok → s.rc ≡ ok

All-IsSendable :
    (cs : List Command) → All IsAsked cs → All IsSendable (map (λ (x : Command). args_of x) cs)
All-IsSendable [] h = tt
All-IsSendable (x ∷ cs) h = (h.0.1, All-IsSendable cs h.1)

-- With no allocation refused, while the peer neither hangs up nor fails, and where the bytes that
-- arrive, and the bytes to be sent with the replies, fit under 16 MiB: where the unread bytes of
-- an open, sound connection and those that arrive, in whatever pieces, are commands other than
-- KEYS and DBSIZE, in any spelling of their names and with sendable arguments, one behind the
-- other, and an unfinished rest, handle_read puts behind the bytes that were to be sent the
-- encoded replies of a key-value machine to these commands in their order, leaves a store in
-- which every lookup finds what that machine holds, keeps the rest unread, leaves the connection
-- open for reads, and returns 0 where epoll_ctl does.
pub handle_read-Performs :
    (ctl : Rc) (reads : List ReadResult) (c : Conn) (t : Hashtable)
    → (cs : List Command) (rest : Bytes) → IsSound c t
    → c.close_after_drain ≡ false
    → IsPolite reads
    → length (live c.in_buf) + length (arriving reads) + read_chunk ≤ max_cap
    → length (live c.out_buf) + length (encode_replies (performed cs (view t)).0) + 1 ≤ max_cap
    → live c.in_buf ++ arriving reads ≡ encode_all (map (λ (x : Command). args_of x) cs) rest
    → All IsAsked cs
    → parse_request rest ≡ need_more
    → Performs ctl (performed cs (view t)) (live c.out_buf) rest (handle_read ctl reads c t [])
handle_read-Performs ctl reads c t cs rest s f p le room e h n =
    let start : Ctx = record { store = t; out = c.out_buf; heap = [] } in
    let ready : IsReady start = record { table = s.table; sized = s.sized; buffer = s.output } in
    let (good, queued, seen, spared) = run_all-Finished cs start ready refl h room in
    let x =
      handle_read-Executes ctl reads c t (map (λ (x : Command). args_of x) cs) rest s f p le e
        (All-IsSendable cs h) n good in
    record {
      store = ap view x.store ∙ seen;
      queued = ap live x.replies ∙ queued;
      unread = x.unread;
      still_open = x.still_open;
      calm = x.heap ∙ spared;
      kept = x.kept;
    }
