-- ===== src/Connection.antt =====
-- src/networking.c: the read and write handlers of one connection. The results of the system calls
-- are parameters: a list of answers for each call in turn. Past the end of a list a call would block.
pub mod Draining
pub mod Pipeline
pub mod Flushing
pub mod Interest
pub mod Validity
pub mod Writing
pub mod Delivery
pub mod Requests
pub mod Replies
pub mod Serial
pub mod Splits
pub mod Appends
pub mod Handing
pub mod Conversation
pub mod Streaming
mod Session
mod Tests
use redis_in_c.Prelude.{
  ℕ, zero, suc, ◌+◌, ◌<◌, Bool, true, false, not, ◌&&◌, leb, ltb, ◌==◌, if◌then◌else◌, Bytes,
  Option, none, some, List, [], ◌∷◌, ◌++◌, length, take, codes, min,
}
use redis_in_c.Heap.{Heap, Rc, ok, fail}
use redis_in_c.Bytebuf.{Bytebuf, max_cap, reserve, write_at, advance, consume, live, live_len}
use redis_in_c.Hashtable.{Hashtable}
use redis_in_c.Resp.Outcome.{Outcome, parsed, need_more, protocol_err, Request}
use redis_in_c.Resp.Request.{parse_request}
use redis_in_c.Resp.Replies.{reply_error}
use redis_in_c.Command.Context.{Ctx, send}
use redis_in_c.Command.Dispatch.{command_execute}

abbrev pub read_chunk : ℕ
read_chunk = 4096

-- `EPOLLIN` and `EPOLLOUT` of Linux, two bits.
abbrev pub epollin : ℕ
epollin = 1

abbrev pub epollout : ℕ
epollout = 4

-- `conn_t`, but for the descriptor and the link.
pub record Conn : Type 0 where
  pub in_buf : Bytebuf
  pub out_buf : Bytebuf
  pub events : ℕ
  pub close_after_drain : Bool

-- What `read` answers. It writes `read_chunk` bytes at most, and no bytes are the end of the stream.
pub data ReadResult : Type 0 where
  got : Bytes → ReadResult
  read_again : ReadResult
  read_interrupted : ReadResult
  read_failed : ReadResult

-- How the loop that drains the socket ends: `return -1`, or its `break` with the error that is
-- reported later, if any.
pub data Drained : Type 0 where
  hung_up : Heap → Bytebuf → Drained
  stopped : Option Bytes → Heap → Bytebuf → Drained

-- The head of a round: the size test and the reservation.
unfoldable pub with_tail : Heap → Bytebuf → (Heap → Bytebuf → Drained) → Drained
with_tail h b k =
    let (rc, b', h') = reserve h b read_chunk in
    if leb max_cap (live_len b)
    then stopped (some (codes "ERR request too large")) h b
    else elim rc [ ok ↦ k h' b' | fail ↦ stopped (some (codes "ERR out of memory")) h' b' ]

-- `bytebuf_advance` behind a `read` of these bytes; none are the end of the stream.
unfoldable pub on_bytes : Bytes → (Heap → Bytebuf → Drained) → Heap → Bytebuf → Drained
on_bytes [] k h b = hung_up h b
on_bytes (x ∷ bytes) k h b =
    k h (advance (record b { bytes = write_at b.bytes b.len (x ∷ bytes) }) (length (x ∷ bytes)))

unfoldable pub on_read : ReadResult → (Heap → Bytebuf → Drained) → Heap → Bytebuf → Drained
unfolding on_bytes
on_read (got bytes) k h b = on_bytes (take read_chunk bytes) k h b
on_read read_again k h b = stopped none h b
on_read read_interrupted k h b = k h b
on_read read_failed k h b = hung_up h b

unfoldable pub drain : List ReadResult → Heap → Bytebuf → Drained
unfolding with_tail on_read
drain [] h b = with_tail h b (λ h' b'. stopped none h' b')
drain (r ∷ rs) h b = with_tail h b (on_read r (drain rs))

-- How the dispatch loop ends: its `break`, with the flag `close_after_drain`, or `return -1`.
-- `out_of_fuel` belongs to the model only.
pub data Dispatched : Type 0 where
  idle : Bool → Ctx → Bytebuf → Dispatched
  broken : Ctx → Bytebuf → Dispatched
  out_of_fuel : Ctx → Bytebuf → Dispatched

-- Behind `command_execute`.
unfoldable pub after_command : (Ctx → Bytebuf → Dispatched) → Bytebuf → ℕ → Rc × Ctx → Dispatched
after_command loop b used (ok, c) = loop c (consume b used)
after_command loop b used (fail, c) = broken c b

unfoldable pub on_frame :
    (Ctx → Bytebuf → Dispatched) → Ctx → Bytebuf → Outcome Request → Dispatched
unfolding after_command
on_frame loop c b need_more = idle false c b
on_frame loop c b protocol_err = idle true (send (reply_error (codes "ERR Protocol error")) c).1 b
on_frame loop c b (parsed req) = after_command loop b req.bytes_consumed (command_execute c req)

unfoldable pub dispatch_frames : ℕ → Ctx → Bytebuf → Dispatched
unfolding on_frame
dispatch_frames zero c b = out_of_fuel c b
dispatch_frames (suc fuel) c b = on_frame (dispatch_frames fuel) c b (parse_request (live b))

-- The answer of `epoll_ctl`, where the mask changes.
unfoldable pub arm_events : Rc → Conn → ℕ → Rc × Conn
arm_events ctl c events =
    if c.events == events
    then (ok, c)
    else elim ctl [ ok ↦ (ok, record c { events = events }) | fail ↦ (fail, c) ]

-- What a handler leaves: its result, and the state that `return -1` has the caller close.
pub record State : Type 0 where
  pub rc : Rc
  pub conn : Conn
  pub store : Hashtable
  pub heap : Heap

abbrev pub armed : Hashtable → Heap → Rc × Conn → State
armed t h (rc, c) = record { rc = rc; conn = c; store = t; heap = h }

-- The end of `handle_read`: the interest in reads unless the connection winds down, and in writes
-- while there are bytes to be sent.
unfoldable pub rearm : Rc → Conn → Hashtable → Heap → State
unfolding arm_events
rearm ctl c t h =
    let closed : State = record { rc = fail; conn = c; store = t; heap = h } in
    let unsent = ltb 0 (live_len c.out_buf) in
    let want = (if c.close_after_drain then 0 else epollin) + (if unsent then epollout else 0) in
    if c.close_after_drain && live_len c.out_buf == 0
    then closed
    else if want == 0
    then closed
    else armed t h (arm_events ctl c want)

-- The error of the read side, queued behind the replies.
unfoldable pub queue_error : Option Bytes → Ctx → Bool → Ctx × Bool
queue_error none c closing = (c, closing)
queue_error (some msg) c closing = ((send (reply_error msg) c).1, true)

unfoldable pub finish_read : Rc → Conn → Option Bytes → Dispatched → State
unfolding queue_error rearm
finish_read ctl c msg (idle closing ctx b) =
    let (ctx', closing') = queue_error msg ctx closing in
    rearm ctl (record c { in_buf = b; out_buf = ctx'.out; close_after_drain = closing' }) ctx'.store
      ctx'.heap
finish_read ctl c msg (broken ctx b) = record {
  rc = fail;
  conn = record c { in_buf = b; out_buf = ctx.out };
  store = ctx.store;
  heap = ctx.heap;
}
finish_read ctl c msg (out_of_fuel ctx b) = record {
  rc = fail;
  conn = c;
  store = ctx.store;
  heap = ctx.heap;
}

-- A request takes a byte at least, so one round more than there are bytes is enough.
unfoldable pub after_drain : Rc → Conn → Hashtable → Drained → State
unfolding finish_read dispatch_frames
after_drain ctl c t (hung_up h b) = record {
  rc = fail;
  conn = record c { in_buf = b };
  store = t;
  heap = h;
}
after_drain ctl c t (stopped msg h b) =
    finish_read ctl c msg
      (dispatch_frames (length (live b) + 1) (record { store = t; out = c.out_buf; heap = h }) b)

unfoldable pub handle_read : Rc → List ReadResult → Conn → Hashtable → Heap → State
unfolding after_drain drain arm_events
handle_read ctl reads c t h =
    if c.close_after_drain
    then (if live_len c.out_buf == 0
        then record { rc = fail; conn = c; store = t; heap = h }
        else armed t h (arm_events ctl c epollout))
    else after_drain ctl c t (drain reads h c.in_buf)

-- What `write` answers: the number of bytes that it has taken, of those that it is offered.
pub data WriteResult : Type 0 where
  wrote : ℕ → WriteResult
  write_again : WriteResult
  write_interrupted : WriteResult
  write_failed : WriteResult

-- How the loop of `handle_write` ends, with the bytes that the socket has taken and the buffer.
pub data Flushed : Type 0 where
  drained : Bytes → Bytebuf → Flushed
  blocked : Bytes → Bytebuf → Flushed
  gone : Bytes → Bytebuf → Flushed

unfoldable pub on_write : WriteResult → (Bytes → Bytebuf → Flushed) → Bytes → Bytebuf → Flushed
on_write (wrote n) k sent b =
    let n' = min n (live_len b) in k (sent ++ take n' (live b)) (consume b n')
on_write write_again k sent b = blocked sent b
on_write write_interrupted k sent b = k sent b
on_write write_failed k sent b = gone sent b

unfoldable pub flush : List WriteResult → Bytes → Bytebuf → Flushed
unfolding on_write
flush [] sent b = if ltb 0 (live_len b) then blocked sent b else drained sent b
flush (r ∷ rs) sent b =
    let rest = on_write r (flush rs) sent b in if ltb 0 (live_len b) then rest else drained sent b

unfoldable pub after_flush : Rc → Conn → Flushed → Rc × Conn
unfolding arm_events
after_flush ctl c (blocked sent b) = (ok, record c { out_buf = b })
after_flush ctl c (gone sent b) = (fail, record c { out_buf = b })
after_flush ctl c (drained sent b) =
    if c.close_after_drain
    then (fail, record c { out_buf = b })
    else arm_events ctl (record c { out_buf = b }) epollin

unfoldable pub handle_write : Rc → List WriteResult → Conn → Rc × Conn
unfolding after_flush flush
handle_write ctl writes c = after_flush ctl c (flush writes [] c.out_buf)
