-- ===== src/Connection/Conversation.antt =====
-- src/networking.c: the calls of `handle_read` and `handle_write` on one connection, in any order,
-- as `net_run` makes them. Commands may be cut anywhere between two calls.
use redis_in_c.Prelude.{◌≡◌, false, Bytes, Option, none, some, List, [], ◌∷◌, ◌++◌}
use redis_in_c.Heap.{Heap, Rc, ok, fail}
use redis_in_c.Bytebuf.{live}
use redis_in_c.Hashtable.{Hashtable}
use redis_in_c.Resp.Outcome.{need_more}
use redis_in_c.Resp.Request.{parse_request}
use redis_in_c.Resp.Reply.{Reply}
use redis_in_c.Resp.Streams.{encode_replies}
use redis_in_c.Command.Machine.{View}
use redis_in_c.Command.Refines.{view}
use redis_in_c.Connection.{Conn, ReadResult, WriteResult, handle_read, handle_write, flush}
use redis_in_c.Connection.Draining.{arriving}
use redis_in_c.Connection.Delivery.{IsPolite}
use redis_in_c.Connection.Validity.{IsSound}
use redis_in_c.Connection.Handing.{IsWilling, taken}

-- A call of a handler, with what its system calls answer.
pub data Call : Type 0 where
  reading : Rc → List ReadResult → Call
  writing : Rc → List WriteResult → Call

-- The connection, the server's store, and all that the peer has received.
pub record Talk : Type 0 where
  pub conn : Conn
  pub store : Hashtable
  pub heap : Heap
  pub received : Bytes

abbrev pub next_call : (Talk → Option Talk) → Rc → Talk → Option Talk
next_call k ok s = k s
next_call k fail s = none

-- `none` is a handler that has the connection closed.
unfoldable pub talk : List Call → Talk → Option Talk
talk [] s = some s
talk (reading ctl reads ∷ calls) s =
    let r = handle_read ctl reads s.conn s.store s.heap in
    next_call (talk calls) r.rc (record s { conn = r.conn; store = r.store; heap = r.heap })
talk (writing ctl writes ∷ calls) s =
    let (rc, c) = handle_write ctl writes s.conn in
    next_call (talk calls) rc
      (record s { conn = c; received = s.received ++ taken (flush writes [] s.conn.out_buf) })

abbrev pub arrived : List Call → Bytes
arrived [] = []
arrived (reading ctl reads ∷ calls) = arriving reads ++ arrived calls
arrived (writing ctl writes ∷ calls) = arrived calls

-- The peer neither hangs up nor fails, and `epoll_ctl` succeeds.
abbrev pub IsCalm : Call → Type 0
IsCalm (reading ctl reads) = (ctl ≡ ok) × IsPolite reads
IsCalm (writing ctl writes) = (ctl ≡ ok) × IsWilling writes

-- A connection that is open and waits for the rest of a command.
pub record IsWaiting (s : Talk) : Type 0 where
  pub sound : IsSound s.conn s.store
  pub calm : s.heap ≡ []
  pub still_open : s.conn.close_after_drain ≡ false
  pub idle : parse_request (live s.conn.in_buf) ≡ need_more

-- What the peer has received and what is still to be sent are the old bytes and the replies.
pub record Answers (r : List Reply × View) (old rest : Bytes) (out : Option Talk) : Type 0 where
  pub final : Talk
  pub ran : out ≡ some final
  pub told : final.received ++ live final.conn.out_buf ≡ old ++ encode_replies r.0
  pub store : view final.store ≡ r.1
  pub unread : live final.conn.in_buf ≡ rest
  pub waiting : IsWaiting final
