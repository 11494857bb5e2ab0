-- ===== src/Connection/Tests.antt =====
-- src/networking.c: the theorems about the handlers at concrete inputs.
use redis_in_c.Prelude.{
  ◌+◌, ◌<◌, ◌≡◌, refl, arith, true, inl, inr, Bytes, List, [], ◌∷◌, ◌++◌, length, codes,
}
use redis_in_c.Heap.{ok, Rc-cases}
use redis_in_c.Bytebuf.{Bytebuf, init, live, live_len, consume, settle}
use redis_in_c.Bytebuf.Inv.{IsValid, init-IsValid}
use redis_in_c.Hashtable
use redis_in_c.Hashtable.Writes
use redis_in_c.Hashtable.Sizes
use redis_in_c.Connection.Validity.{IsSound, handle_read-IsSound}
use redis_in_c.Prelude.{false}
use redis_in_c.Resp.Replies.{reply_simple_string}
use redis_in_c.Resp.Reply.{simple_string-Emits}
use redis_in_c.Resp.RoundTrip.{encode_request}
use redis_in_c.Decimal.{print_nat}
use redis_in_c.Command.Context.{Ctx, send}
use redis_in_c.Command.Basic.{cmd_ping}
use redis_in_c.Command.Dispatch.{execute_args, dispatch, commands, run_entry, slice_eq_ci, to_upper}
use redis_in_c.Connection.{
  Conn, ReadResult, got, read_again, read_interrupted, WriteResult, wrote, write_interrupted, drain,
  flush, dispatch_frames, handle_read, handle_write, epollin, epollout, arm_events,
}
use redis_in_c.Hashtable.View.{entries}
use redis_in_c.Resp.Outcome.{need_more}
use redis_in_c.Resp.Request.{parse_request}
use redis_in_c.Resp.Bulk.{parse_multi_bulk}
use redis_in_c.Resp.Number.{parse_int_until_crlf, number_loop, number_end}
use redis_in_c.Connection.Requests.{Executes, handle_read-Executes}
use redis_in_c.Connection.Replies.{Replies, handle_read-Replies}
use redis_in_c.Connection.Writing.{IsWorking, handle_write-IsWorking}
use redis_in_c.Connection.Draining.{Receives, arriving, drain_lem}
use redis_in_c.Connection.Pipeline.{HasEnded, dispatch_frames-HasEnded, encode_all, run_all}
use redis_in_c.Connection.Flushing.{Sends, flush-Sends}
use redis_in_c.Connection.Interest.{IsArmed, handle_read-IsArmed}

-- A buffer that holds `PING` in the multi-bulk form.
abbrev ping_frame : Bytes
ping_frame = 42 ∷ 49 ∷ 13 ∷ 10 ∷ 36 ∷ 52 ∷ 13 ∷ 10 ∷ 80 ∷ 73 ∷ 78 ∷ 71 ∷ 13 ∷ 10 ∷ []

abbrev ping_buf : Bytebuf
ping_buf = record { bytes = ping_frame; cap = 14; len = 14; off = 0 }

ping_buf-IsValid : IsValid ping_buf
ping_buf-IsValid = record {
  alloc = refl;
  small = omega arith;
  len_in = omega arith;
  off_in = omega arith;
}

abbrev reads : List ReadResult
reads = got (codes "PI") ∷ read_interrupted ∷ got (codes "NG") ∷ read_again ∷ []

drain_lem_example : Receives (live ping_buf) (arriving reads) (drain reads [] ping_buf)
drain_lem_example = drain_lem reads [] ping_buf ping_buf-IsValid

abbrev writes : List WriteResult
writes = wrote 3 ∷ write_interrupted ∷ wrote 20 ∷ []

flush-Sends_example : Sends (live ping_buf) (flush writes [] ping_buf)
flush-Sends_example = flush-Sends writes ping_buf ping_buf-IsValid

abbrev ctx : Ctx
ctx = record { store = redis_in_c.Hashtable.init; out = init; heap = [] }

length-ping : length (live ping_buf) < 15
unfolding live
length-ping = omega arith

dispatch_frames-HasEnded_example : HasEnded (dispatch_frames 15 ctx ping_buf)
dispatch_frames-HasEnded_example =
    dispatch_frames-HasEnded 15 ctx ping_buf ping_buf-IsValid length-ping

ping_text : live ping_buf ≡ encode_all ((codes "PING" ∷ []) ∷ []) []
unfolding live encode_request print_nat
ping_text = refl

ping_reply : execute_args ctx (codes "PING" ∷ []) ≡ send (reply_simple_string (codes "PONG")) ctx
unfolding execute_args dispatch commands run_entry slice_eq_ci to_upper cmd_ping
ping_reply = refl

ping_ok : (send (reply_simple_string (codes "PONG")) ctx).0 ≡ ok
unfolding send
ping_ok =
    let e = (simple_string-Emits (codes "PONG")).at [] init init-IsValid in
    elim (Rc-cases (reply_simple_string (codes "PONG") [] init).0) [
      | inl k ↦ k
      | inr f ↦ absurd (omega (arith, e.full f refl, nothing))
    ]
  where
    nothing : length (live init) ≡ 0
    nothing = unfold live in refl

ping_run : (run_all ((codes "PING" ∷ []) ∷ []) ctx).0 ≡ ok
unfolding run_all
ping_run = rw (ping_reply, ping_ok) refl

-- A connection that winds down, with bytes to be sent.
abbrev closing : Conn
closing = record { in_buf = init; out_buf = ping_buf; events = epollin; close_after_drain = true }

closing_rc : (handle_read ok [] closing redis_in_c.Hashtable.init []).rc ≡ ok
unfolding handle_read live_len arm_events
closing_rc = refl

handle_read-IsArmed_example : IsArmed (handle_read ok [] closing redis_in_c.Hashtable.init []).conn
handle_read-IsArmed_example =
    handle_read-IsArmed ok [] closing redis_in_c.Hashtable.init [] closing_rc

-- A connection without bytes in its buffers.
abbrev fresh : Conn
fresh = record { in_buf = init; out_buf = init; events = epollin; close_after_drain = false }

fresh-IsSound : IsSound fresh redis_in_c.Hashtable.init
fresh-IsSound = record {
  table = redis_in_c.Hashtable.Writes.init-IsValid;
  sized = redis_in_c.Hashtable.Sizes.init-IsSized;
  input = init-IsValid;
  output = init-IsValid;
}

handle_read-IsSound_example :
    let s = handle_read ok (got ping_frame ∷ []) fresh redis_in_c.Hashtable.init [] in
    IsSound s.conn s.store
handle_read-IsSound_example =
    handle_read-IsSound ok (got ping_frame ∷ []) fresh redis_in_c.Hashtable.init [] fresh-IsSound

-- A `PING` in two pieces, with the beginning of a further frame behind it.
abbrev pieces : List ReadResult
pieces =
    got (42 ∷ 49 ∷ 13 ∷ 10 ∷ 36 ∷ 52 ∷ 13 ∷ 10 ∷ 80 ∷ 73 ∷ [])
    ∷ read_interrupted
    ∷ got (78 ∷ 71 ∷ 13 ∷ 10 ∷ 42 ∷ 49 ∷ 13 ∷ [])
    ∷ read_again
    ∷ []

abbrev unfinished : Bytes
unfinished = 42 ∷ 49 ∷ 13 ∷ []

pieces_text :
    live fresh.in_buf ++ arriving pieces ≡ encode_all ((codes "PING" ∷ []) ∷ []) unfinished
unfolding live encode_request print_nat
pieces_text = refl

no_bytes : length (live fresh.in_buf) ≡ 0
unfolding live
no_bytes = refl

unfinished_waits : parse_request unfinished ≡ need_more
unfolding parse_request parse_multi_bulk parse_int_until_crlf number_loop number_end
unfinished_waits = refl

few_entries : length (entries redis_in_c.Hashtable.init) ≡ 0
unfolding entries redis_in_c.Hashtable.init
few_entries = refl

handle_read-Executes_example :
    Executes ok
      (run_all ((codes "PING" ∷ []) ∷ []) ctx).1
      unfinished
      (handle_read ok pieces fresh redis_in_c.Hashtable.init [])
handle_read-Executes_example =
    handle_read-Executes ok pieces fresh redis_in_c.Hashtable.init ((codes "PING" ∷ []) ∷ [])
      unfinished fresh-IsSound refl (omega arith, (omega arith, tt)) (omega (arith, no_bytes))
      pieces_text ((omega arith, omega arith, (omega arith, tt)), tt) unfinished_waits ping_run

handle_read-Replies_example :
    Replies 1
      (live init)
      (live (handle_read ok pieces fresh redis_in_c.Hashtable.init []).conn.out_buf)
handle_read-Replies_example =
    handle_read-Replies ok pieces fresh redis_in_c.Hashtable.init ((codes "PING" ∷ []) ∷ [])
      unfinished fresh-IsSound refl (omega arith, (omega arith, tt)) (omega (arith, no_bytes))
      pieces_text ((omega arith, omega arith, (omega arith, tt)), tt) (omega arith) unfinished_waits
      (omega (arith, few_entries), tt) ping_run

-- A connection with a PING to be echoed, which waits for both directions.
abbrev busy : Conn
busy = record {
  in_buf = init;
  out_buf = ping_buf;
  events = epollin + epollout;
  close_after_drain = false;
}

busy-IsWorking : IsWorking busy
unfolding live_len
busy-IsWorking = record {
  input = init-IsValid;
  output = ping_buf-IsValid;
  armed = (refl, omega arith);
}

busy_rc : (handle_write ok writes busy).0 ≡ ok
unfolding handle_write live_len live arm_events consume settle
busy_rc = refl

handle_write-IsWorking_example : IsWorking (handle_write ok writes busy).1
handle_write-IsWorking_example = handle_write-IsWorking ok writes busy busy-IsWorking busy_rc
