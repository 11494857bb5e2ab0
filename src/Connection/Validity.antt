-- ===== src/Connection/Validity.antt =====
-- src/networking.c: `handle_read` keeps the store and the buffers of the connection valid.
use redis_in_c.Prelude.{
  ℕ, zero, suc, ◌+◌, ◌≤◌, ◌≡◌, refl, arith, Bool, true, false, Bool-cases, inl, inr, Bytes, Option,
  none, some, List, [], ◌∷◌, length, All, IsWord, if◌then◌else◌, ◌==◌, codes, ltb, ◌&&◌,
}
use redis_in_c.Heap.{Heap, Rc, ok, fail, Rc-cases}
use redis_in_c.Bytebuf.{Bytebuf, live, live_len, max_cap, consume}
use redis_in_c.Bytebuf.Inv.{IsValid}
use redis_in_c.Bytebuf.Refine.{length-live, live_len-eq}
use redis_in_c.Bytebuf.Consume.{consume_lem}
use redis_in_c.Hashtable.{Hashtable}
use redis_in_c.Hashtable.Sizes.{IsSized}
use redis_in_c.Hashtable.Inv
use redis_in_c.Resp.Outcome.{Outcome, parsed, need_more, protocol_err, Request}
use redis_in_c.Resp.Request.{parse_request}
use redis_in_c.Resp.Replies.{reply_error}
use redis_in_c.Resp.Reply.{error-Emits}
use redis_in_c.Resp.Frames.{parse_request-Fits}
use redis_in_c.Resp.Lengths.{parse_request_short}
use redis_in_c.Command.Context.{Ctx, send}
use redis_in_c.Command.Answers.{IsReady, Answered-IsReady, send-Answered}
use redis_in_c.Command.Dispatch.{command_execute}
use redis_in_c.Command.Execute.{command_execute-IsReady}
use redis_in_c.Connection.{
  Conn, State, ReadResult, Drained, hung_up, stopped, drain, Dispatched, idle, broken, out_of_fuel,
  after_command, on_frame, dispatch_frames, armed, epollin, epollout, arm_events, rearm,
  queue_error, finish_read, after_drain, handle_read,
}
use redis_in_c.Connection.Draining.{Receives, drain_lem}

-- The store and both buffers of a connection.
pub record IsSound (c : Conn) (t : Hashtable) : Type 0 where
  pub table : redis_in_c.Hashtable.Inv.IsValid t
  pub sized : IsSized t
  pub input : IsValid c.in_buf
  pub output : IsValid c.out_buf

abbrev KeepsReady : Dispatched → Type 0
KeepsReady (idle closing c b) = IsReady c × IsValid b
KeepsReady (broken c b) = IsReady c × IsValid b
KeepsReady (out_of_fuel c b) = IsReady c × IsValid b

All-IsWord :
    (n : ℕ) (args : List Bytes)
    → IsWord n
    → All (λ a. length a ≤ n) args
    → All (λ a. IsWord (length a)) args
All-IsWord n [] w h = tt
All-IsWord n (a ∷ args) w h = (omega (arith, h.0), All-IsWord n args w h.1)

error-IsReady : (c : Ctx) (msg : Bytes) → IsReady c → IsReady (send (reply_error msg) c).1
error-IsReady c msg r = Answered-IsReady c _ _ r (send-Answered c _ _ r (error-Emits msg))

after_command-Ready :
    (loop : Ctx → Bytebuf → Dispatched) (b : Bytebuf) (used : ℕ) (out : Rc × Ctx)
    → ((c : Ctx) (b : Bytebuf) → IsReady c → IsValid b → KeepsReady (loop c b))
    → IsReady out.1
    → IsValid b
    → KeepsReady (after_command loop b used out)
unfolding after_command
after_command-Ready loop b used (ok, c) ih r v = ih c (consume b used) r (consume_lem b used v).0
after_command-Ready loop b used (fail, c) ih r v = (r, v)

on_frame-Ready :
    (loop : Ctx → Bytebuf → Dispatched) (c : Ctx) (b : Bytebuf) (o : Outcome Request)
    → ((c : Ctx) (b : Bytebuf) → IsReady c → IsValid b → KeepsReady (loop c b))
    → IsReady c
    → IsValid b
    → parse_request (live b) ≡ o
    → KeepsReady (on_frame loop c b o)
unfolding on_frame
on_frame-Ready loop c b need_more ih r v e = (r, v)
on_frame-Ready loop c b protocol_err ih r v e = (error-IsReady c (codes "ERR Protocol error") r, v)
on_frame-Ready loop c b (parsed q) ih r v e =
    let small : length (live b) ≤ max_cap = omega (arith, length-live b v, live_len-eq b v) in
    let (lo, hi, _, _) = parse_request-Fits (live b) q e in
    after_command-Ready loop b q.bytes_consumed (command_execute c q) ih
      (command_execute-IsReady c q r
        (All-IsWord (length (live b)) q.args (omega arith) (parse_request_short (live b) q e))
        (omega arith))
      v

dispatch_frames-Ready :
    (fuel : ℕ) (c : Ctx) (b : Bytebuf)
    → IsReady c
    → IsValid b
    → KeepsReady (dispatch_frames fuel c b)
unfolding dispatch_frames
dispatch_frames-Ready zero c b r v = (r, v)
dispatch_frames-Ready (suc fuel) c b r v =
    on_frame-Ready (dispatch_frames fuel) c b (parse_request (live b)) (dispatch_frames-Ready fuel)
      r v refl

arm_events-IsSound :
    (ctl : Rc) (c : Conn) (t : Hashtable) (events : ℕ)
    → IsSound c t
    → IsSound (arm_events ctl c events).1 t
unfolding arm_events
arm_events-IsSound ctl c t events s = elim (Bool-cases (c.events == events)) [
  | inl e ↦ rw e s
  | inr f ↦ elim (Rc-cases ctl) [
    | inl g ↦
        rw (f, g) (record { table = s.table; sized = s.sized; input = s.input; output = s.output })
    | inr g ↦ rw (f, g) s
  ]
]

pick_state :
    (b : Bool) (x y : State)
    → IsSound x.conn x.store
    → IsSound y.conn y.store
    → IsSound (if b then x else y).conn (if b then x else y).store
pick_state true x y f g = f
pick_state false x y f g = g

rearm-IsSound :
    (ctl : Rc) (c : Conn) (t : Hashtable) (h : Heap)
    → IsSound c t
    → IsSound (rearm ctl c t h).conn (rearm ctl c t h).store
unfolding rearm
rearm-IsSound ctl c t h s =
    let closed : State = record { rc = fail; conn = c; store = t; heap = h } in
    let want =
      (if c.close_after_drain then 0 else epollin)
      + (if ltb 0 (live_len c.out_buf) then epollout else 0) in
    let waiting = armed t h (arm_events ctl c want) in
    pick_state (c.close_after_drain && live_len c.out_buf == 0) closed
      (if want == 0 then closed else waiting) s
      (pick_state (want == 0) closed waiting s (arm_events-IsSound ctl c t want s))

queue_error-IsReady :
    (msg : Option Bytes) (c : Ctx) (closing : Bool)
    → IsReady c
    → IsReady (queue_error msg c closing).0
unfolding queue_error
queue_error-IsReady none c closing r = r
queue_error-IsReady (some msg) c closing r = error-IsReady c msg r

finish_read-IsSound :
    (ctl : Rc) (c : Conn) (msg : Option Bytes) (d : Dispatched)
    → IsValid c.in_buf
    → IsValid c.out_buf
    → KeepsReady d
    → IsSound (finish_read ctl c msg d).conn (finish_read ctl c msg d).store
unfolding finish_read
finish_read-IsSound ctl c msg (idle closing ctx b) vi vo (r, v) =
    let q = queue_error-IsReady msg ctx closing r in
    rearm-IsSound ctl _ _ _
      (record { table = q.table; sized = q.sized; input = v; output = q.buffer })
finish_read-IsSound ctl c msg (broken ctx b) vi vo (r, v) = record {
  table = r.table;
  sized = r.sized;
  input = v;
  output = r.buffer;
}
finish_read-IsSound ctl c msg (out_of_fuel ctx b) vi vo (r, v) = record {
  table = r.table;
  sized = r.sized;
  input = vi;
  output = vo;
}

Receives-IsValid :
    (old new : Bytes) (msg : Option Bytes) (h : Heap) (b : Bytebuf)
    → Receives old new (stopped msg h b)
    → IsValid b
Receives-IsValid old new none h b w = w.0
Receives-IsValid old new (some msg) h b w = w.0

after_drain-IsSound :
    (ctl : Rc) (c : Conn) (t : Hashtable) (d : Drained) (old new : Bytes)
    → IsSound c t
    → Receives old new d
    → IsSound (after_drain ctl c t d).conn (after_drain ctl c t d).store
unfolding after_drain
after_drain-IsSound ctl c t (hung_up h b) old new s w = record {
  table = s.table;
  sized = s.sized;
  input = w.0;
  output = s.output;
}
after_drain-IsSound ctl c t (stopped msg h b) old new s w =
    let v = Receives-IsValid old new msg h b w in
    finish_read-IsSound ctl c msg _ s.input s.output (
      dispatch_frames-Ready (length (live b) + 1) _ b
        (record { table = s.table; sized = s.sized; buffer = s.output }) v)

-- From a valid store of sized entries and valid buffers, handle_read leaves a valid store and
-- valid buffers, whatever arrives, whatever it parses to, whatever allocations are refused, and
-- also where the connection is to be closed.
pub handle_read-IsSound :
    (ctl : Rc) (reads : List ReadResult) (c : Conn) (t : Hashtable) (h : Heap)
    → IsSound c t
    → IsSound (handle_read ctl reads c t h).conn (handle_read ctl reads c t h).store
unfolding handle_read
handle_read-IsSound ctl reads c t h s =
    let closed : State = record { rc = fail; conn = c; store = t; heap = h } in
    let waiting = armed t h (arm_events ctl c epollout) in
    pick_state c.close_after_drain (if live_len c.out_buf == 0 then closed else waiting)
      (after_drain ctl c t (drain reads h c.in_buf))
      (pick_state (live_len c.out_buf == 0) closed waiting s
        (arm_events-IsSound ctl c t epollout s))
      (after_drain-IsSound ctl c t _ _ _ s (drain_lem reads h c.in_buf s.input))
