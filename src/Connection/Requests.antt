-- ===== src/Connection/Requests.antt =====
-- src/networking.c: from the bytes of a client's commands to the replies in its output buffer, in
-- one call of `handle_read`.
use redis_in_c.Prelude.{
  ℕ, suc, ◌+◌, ◌-◌, ◌≤◌, ◌≡◌, ◌∙◌, refl, sym, subst, ap, arith, Bool, true, false, Bool-cases, inl,
  inr, ◌&&◌, ◌==◌, ltb, if◌then◌else◌, Bytes, none, List, [], ◌∷◌, ◌++◌, length, All,
}
use redis_in_c.Heap.{Rc, ok, fail}
use redis_in_c.Bytebuf.{Bytebuf, live, live_len, max_cap}
use redis_in_c.Bytebuf.Inv.{IsValid}
use redis_in_c.Hashtable.{Hashtable}
use redis_in_c.Resp.Outcome.{need_more}
use redis_in_c.Resp.Request.{parse_request}
use redis_in_c.Resp.RoundTrip.{length-encode_request}
use redis_in_c.Command.Context.{Ctx}
use redis_in_c.Connection.{
  Conn, State, read_chunk, epollin, epollout, ReadResult, stopped, idle, dispatch_frames, on_frame,
  arm_events, armed, rearm, finish_read, queue_error, after_drain, handle_read,
}
use redis_in_c.Connection.Draining.{arriving}
use redis_in_c.Connection.Delivery.{IsPolite, drain-Delivers}
use redis_in_c.Connection.Pipeline.{IsSendable, encode_all, run_all, dispatch_frames_pipeline}
use redis_in_c.Connection.Validity.{IsSound}

-- The state after the commands of the client, whose unfinished rest stays in the input buffer.
pub record Executes (ctl : Rc) (c : Ctx) (rest : Bytes) (s : State) : Type 0 where
  pub store : s.store ≡ c.store
  pub replies : s.conn.out_buf ≡ c.out
  pub heap : s.heap ≡ c.heap
  pub unread : live s.conn.in_buf ≡ rest
  pub still_open : s.conn.close_after_drain ≡ false
  pub kept : ctl ≡ ok → s.rc ≡ ok

opened : (b : Bool) (P : State → Type 0) (x y : State) → b ≡ false → P y → P (if b then x else y)
opened true P x y e p = cc
opened false P x y e p = p

again :
    (c : Conn) (mask : ℕ) (k : Ctx) (rest : Bytes)
    → Executes ok k rest (record { rc = ok; conn = c; store = k.store; heap = k.heap })
    → Executes ok k rest
        (record { rc = ok; conn = record c { events = mask }; store = k.store; heap = k.heap })
again c mask k rest e = record {
  store = e.store;
  replies = e.replies;
  heap = e.heap;
  unread = e.unread;
  still_open = e.still_open;
  kept = λ h. refl;
}

failed :
    (c : Conn) (k : Ctx) (rest : Bytes)
    → Executes fail k rest (record { rc = ok; conn = c; store = k.store; heap = k.heap })
    → Executes fail k rest (record { rc = fail; conn = c; store = k.store; heap = k.heap })
failed c k rest e = record {
  store = e.store;
  replies = e.replies;
  heap = e.heap;
  unread = e.unread;
  still_open = e.still_open;
  kept = λ h. h;
}

arm_events-Executes :
    (ctl : Rc) (c : Conn) (mask : ℕ) (k : Ctx) (rest : Bytes)
    → Executes ctl k rest (record { rc = ok; conn = c; store = k.store; heap = k.heap })
    → Executes ctl k rest (armed k.store k.heap (arm_events ctl c mask))
unfolding arm_events
arm_events-Executes ok c mask k rest e = elim (Bool-cases (c.events == mask)) [
  | inl t ↦ rw t e
  | inr f ↦ rw f (again c mask k rest e)
]
arm_events-Executes fail c mask k rest e = elim (Bool-cases (c.events == mask)) [
  | inl t ↦ rw t e
  | inr f ↦ rw f (failed c k rest e)
]

-- A connection that stays open waits for reads.
rearm-Executes :
    (ctl : Rc) (c : Conn) (k : Ctx) (rest : Bytes)
    → c.close_after_drain ≡ false
    → Executes ctl k rest (record { rc = ok; conn = c; store = k.store; heap = k.heap })
    → Executes ctl k rest (rearm ctl c k.store k.heap)
unfolding rearm
rearm-Executes ctl c k rest f e =
    let want =
      (if c.close_after_drain then 0 else epollin)
      + (if ltb 0 (live_len c.out_buf) then epollout else 0) in
    let stays : c.close_after_drain && live_len c.out_buf == 0 ≡ false = rw f refl in
    let reads : want == 0 ≡ false = ground arith in
    opened (c.close_after_drain && live_len c.out_buf == 0) (Executes ctl k rest) _ _ stays
      (opened (want == 0) (Executes ctl k rest) _ _ reads (arm_events-Executes ctl c want k rest e))

finish_read-Executes :
    (ctl : Rc) (c : Conn) (k : Ctx) (b : Bytebuf) (rest : Bytes)
    → live b ≡ rest
    → Executes ctl k rest (finish_read ctl c none (idle false k b))
unfolding finish_read queue_error
finish_read-Executes ctl c k b rest e =
    rearm-Executes ctl (record c { in_buf = b; out_buf = k.out; close_after_drain = false }) k rest
      refl
      (record {
        store = refl;
        replies = refl;
        heap = refl;
        unread = e;
        still_open = refl;
        kept = λ h. refl;
      })

last_round :
    (fuel : ℕ) (c : Ctx) (b : Bytebuf)
    → parse_request (live b) ≡ need_more
    → dispatch_frames (suc fuel) c b ≡ idle false c b
unfolding dispatch_frames on_frame
last_round fuel c b e = rw e refl

-- A command is at least a byte long.
length-encode_all :
    (commands : List (List Bytes)) (rest : Bytes)
    → length commands ≤ length (encode_all commands rest)
length-encode_all [] rest = omega arith
length-encode_all (args ∷ more) rest =
    omega (arith, length-encode_request args (encode_all more rest), length-encode_all more rest)

dispatch_frames-all :
    (commands : List (List Bytes)) (rest : Bytes) (c : Ctx) (b : Bytebuf)
    → All IsSendable commands
    → IsValid b
    → live b ≡ encode_all commands rest
    → parse_request rest ≡ need_more
    → (run_all commands c).0 ≡ ok
    → (b' : Bytebuf) × (live b' ≡ rest)
      × (dispatch_frames (length (live b) + 1) c b ≡ idle false (run_all commands c).1 b')
dispatch_frames-all commands rest c b h v e n good =
    let spare = length (live b) - length commands in
    let (b', _, left, run) = dispatch_frames_pipeline commands rest (suc spare) c b h v e good in
    let fuel : length (live b) + 1 ≡ length commands + suc spare =
      omega (arith, ap length e, length-encode_all commands rest) in
    (
      b',
      left,
      ap (λ m. dispatch_frames m c b) fuel
          ∙ run
          ∙ last_round spare (run_all commands c).1 b' (ap parse_request left ∙ n),
    )

after_drain-Executes :
    (ctl : Rc) (c : Conn) (t : Hashtable) (b : Bytebuf) (commands : List (List Bytes))
    (rest : Bytes)
    → All IsSendable commands
    → IsValid b
    → live b ≡ encode_all commands rest
    → parse_request rest ≡ need_more
    → (run_all commands (record { store = t; out = c.out_buf; heap = [] })).0 ≡ ok
    → Executes ctl
        (run_all commands (record { store = t; out = c.out_buf; heap = [] })).1
        rest
        (after_drain ctl c t (stopped none [] b))
unfolding after_drain
after_drain-Executes ctl c t b commands rest h v e n good =
    let (b', left, run) =
      dispatch_frames-all commands rest (record { store = t; out = c.out_buf; heap = [] }) b h v e n
        good in
    rw run (finish_read-Executes ctl c _ b' rest left)

-- With no allocation refused, and while the peer neither hangs up nor fails and the bytes fit
-- under 16 MiB: where the unread bytes of an open, sound connection and those that arrive, in
-- whatever pieces, are commands of 1 to 32 arguments of at most 512 MiB each, one behind the
-- other, and an unfinished rest, and no reply fails, handle_read leaves the store and the output
-- buffer as the commands leave them when they are run in their order, keeps the rest unread,
-- leaves the connection open for reads, and returns 0 where epoll_ctl does.
pub handle_read-Executes :
    (ctl : Rc) (reads : List ReadResult) (c : Conn) (t : Hashtable)
    → (commands : List (List Bytes)) (rest : Bytes) → IsSound c t
    → c.close_after_drain ≡ false
    → IsPolite reads
    → length (live c.in_buf) + length (arriving reads) + read_chunk ≤ max_cap
    → live c.in_buf ++ arriving reads ≡ encode_all commands rest
    → All IsSendable commands
    → parse_request rest ≡ need_more
    → (run_all commands (record { store = t; out = c.out_buf; heap = [] })).0 ≡ ok
    → Executes ctl
        (run_all commands (record { store = t; out = c.out_buf; heap = [] })).1
        rest
        (handle_read ctl reads c t [])
unfolding handle_read
handle_read-Executes ctl reads c t commands rest s f p le e h n good =
    let (b, stop, v, all) = drain-Delivers reads c.in_buf s.input p le in
    let k = (run_all commands (record { store = t; out = c.out_buf; heap = [] })).1 in
    opened c.close_after_drain (Executes ctl k rest) _ _ f (
      subst (λ d. Executes ctl k rest (after_drain ctl c t d)) (sym stop)
        (after_drain-Executes ctl c t b commands rest h v (all ∙ e) n good))
