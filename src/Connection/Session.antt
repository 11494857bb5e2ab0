-- ===== src/Connection/Session.antt =====
-- src/networking.c: a SET and a GET of one client, cut in the middle of the SET, with an unfinished
-- command behind.
use redis_in_c.Prelude.{◌≡◌, refl, arith, false, Bytes, List, [], ◌∷◌, ◌++◌, length, All, codes}
use redis_in_c.Heap.{ok}
use redis_in_c.Bytebuf.{init, live}
use redis_in_c.Bytebuf.Inv.{init-IsValid}
use redis_in_c.Hashtable.{Hashtable, keys_equal, memcmp_eq}
use redis_in_c.Hashtable.Writes
use redis_in_c.Hashtable.Sizes
use redis_in_c.Decimal.{print_nat}
use redis_in_c.Resp.Outcome.{need_more}
use redis_in_c.Resp.Request.{parse_request}
use redis_in_c.Resp.Bulk.{parse_multi_bulk}
use redis_in_c.Resp.Number.{parse_int_until_crlf, number_loop, number_end}
use redis_in_c.Resp.RoundTrip.{encode_request}
use redis_in_c.Resp.Reply.{status, bulk}
use redis_in_c.Resp.Streams.{encode_replies}
use redis_in_c.Command.Dispatch.{to_upper}
use redis_in_c.Command.Machine.{put, get, perform, perform_all}
use redis_in_c.Command.Refines.{view}
use redis_in_c.Command.Performs.{entry_of}
use redis_in_c.Connection.{
  Conn, got, read_again, read_interrupted, epollin, wrote, write_interrupted,
}
use redis_in_c.Connection.Serial.{Command, performed, IsNamed, IsAsked}
use redis_in_c.Connection.Conversation.{
  Call, reading, writing, Talk, talk, arrived, Answers, IsWaiting,
}
use redis_in_c.Connection.Splits.{text_of}
use redis_in_c.Connection.Streaming.{talk-Answers}
use redis_in_c.Connection.Validity.{IsSound}

abbrev start : Conn
start = record { in_buf = init; out_buf = init; events = epollin; close_after_drain = false }

abbrev store : Hashtable
store = redis_in_c.Hashtable.init

start-IsSound : IsSound start store
start-IsSound = record {
  table = redis_in_c.Hashtable.Writes.init-IsValid;
  sized = redis_in_c.Hashtable.Sizes.init-IsSized;
  input = init-IsValid;
  output = init-IsValid;
}

abbrev session : List Command
session = (codes "set", put (codes "k") (codes "v")) ∷ (codes "GET", get (codes "k")) ∷ []

abbrev first_part : Bytes
first_part = codes "*3\r\n$3\r\nset\r\n$1\r\nk"

abbrev second_part : Bytes
second_part = codes "\r\n$1\r\nv\r\n*2\r\n$3\r\nGET\r\n$1\r\nk\r\n*1\r"

abbrev left_over : Bytes
left_over = codes "*1\r"

session-IsAsked : All IsAsked session
session-IsAsked = (
  (named_set, (omega arith, omega arith, (omega arith, (omega arith, (omega arith, tt))))),
  ((named_get, (omega arith, omega arith, (omega arith, (omega arith, tt)))), tt),
)
  where
    named_set : IsNamed (codes "set", put (codes "k") (codes "v"))
    named_set = unfold entry_of to_upper in refl

    named_get : IsNamed (codes "GET", get (codes "k"))
    named_get = unfold entry_of to_upper in refl

-- What the machine answers.
answers : (performed session (view store)).0 ≡ status (codes "OK") ∷ bulk (codes "v") ∷ []
unfolding perform_all perform keys_equal memcmp_eq
answers = refl

answers_size : length (encode_replies (status (codes "OK") ∷ bulk (codes "v") ∷ [])) ≡ 12
unfolding print_nat
answers_size = refl

empty : length (live init) ≡ 0
unfolding live
empty = refl

left_over_waits : parse_request left_over ≡ need_more
unfolding parse_request parse_multi_bulk parse_int_until_crlf number_loop number_end
left_over_waits = refl

-- Two calls that read, with calls that write behind each.
abbrev calls : List Call
calls =
    reading ok (got first_part ∷ read_again ∷ [])
    ∷ writing ok (wrote 3 ∷ [])
    ∷ reading ok (read_interrupted ∷ got second_part ∷ [])
    ∷ writing ok (wrote 3 ∷ write_interrupted ∷ wrote 100 ∷ [])
    ∷ []

abbrev opening : Talk
opening = record { conn = start; store = store; heap = []; received = [] }

nothing_waits : parse_request (live init) ≡ need_more
unfolding parse_request live
nothing_waits = refl

opening-IsWaiting : IsWaiting opening
opening-IsWaiting = record {
  sound = start-IsSound;
  calm = refl;
  still_open = refl;
  idle = nothing_waits;
}

calls_text : live start.in_buf ++ arrived calls ≡ text_of session left_over
unfolding live encode_request print_nat
calls_text = refl

talk-Answers_example :
    Answers (performed session (view store)) ([] ++ live init) left_over (talk calls opening)
talk-Answers_example =
    talk-Answers left_over left_over_waits calls session opening opening-IsWaiting
      ((refl, (omega arith, tt)), ((refl, tt), ((refl, (omega arith, tt)), ((refl, tt), tt))))
      (omega (arith, empty)) (rw answers (omega (arith, empty, answers_size))) calls_text
      session-IsAsked
