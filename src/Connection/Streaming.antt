-- ===== src/Connection/Streaming.antt =====
-- src/networking.c: however a client's bytes are cut into calls of `handle_read`, and whatever calls of
-- `handle_write` stand between them, it receives the replies of a key-value machine.
use redis_in_c.Prelude.{
  ◌+◌, ◌≤◌, ◌≡◌, ◌∙◌, refl, sym, subst, ap, arith, Bytes, Option, some, List, [], ◌∷◌, ◌++◌, length,
  length-append, All, append_assoc, append-nil,
}
use redis_in_c.Heap.{Rc, ok, fail}
use redis_in_c.Bytebuf.{live, max_cap}
use redis_in_c.Bytebuf.Inv.{IsValid}
use redis_in_c.Resp.Outcome.{need_more}
use redis_in_c.Resp.Request.{parse_request}
use redis_in_c.Resp.RoundTrip.{parse-encode, length-encode_request}
use redis_in_c.Resp.Reply.{Reply}
use redis_in_c.Resp.Streams.{encode_replies}
use redis_in_c.Command.Machine.{View, perform_all}
use redis_in_c.Command.Refines.{view}
use redis_in_c.Connection.{read_chunk, handle_read, handle_write, flush}
use redis_in_c.Connection.Conversation.{
  Call, reading, writing, Talk, next_call, talk, arrived, IsCalm, Answers, IsWaiting,
}
use redis_in_c.Connection.Draining.{arriving}
use redis_in_c.Connection.Validity.{handle_read-IsSound}
use redis_in_c.Connection.Serial.{
  Command, args_of, performed, IsAsked, Performs, handle_read-Performs,
}
use redis_in_c.Connection.Splits.{text_of, split}
use redis_in_c.Connection.Appends.{encode_replies-append, performed-append}
use redis_in_c.Connection.Handing.{taken, handle_write-Hands}

pub length-text_of : (cs : List Command) (rest : Bytes) → length rest ≤ length (text_of cs rest)
length-text_of [] rest = omega arith
length-text_of (x ∷ cs) rest =
    omega (arith, length-encode_request (args_of x) (text_of cs rest), length-text_of cs rest)

-- Where the parser waits there is no whole command.
pub no_command :
    (cs : List Command) (input rest : Bytes)
    → parse_request input ≡ need_more
    → input ++ [] ≡ text_of cs rest
    → All IsAsked cs
    → cs ≡ []
no_command [] input rest idle e h = refl
no_command (x ∷ cs) input rest idle e h =
    let a = h.0.1 in
    let whole = parse-encode (args_of x) (text_of cs rest) a.0 a.1 a.2 in
    let parses = sym idle ∙ ap parse_request (sym (append-nil input) ∙ e) ∙ whole in cc

nothing_left :
    (cs : List Command) (s : Talk) (rest : Bytes)
    → IsWaiting s
    → live s.conn.in_buf ++ [] ≡ text_of cs rest
    → All IsAsked cs
    → Answers (performed cs (view s.store)) (s.received ++ live s.conn.out_buf) rest (some s)
unfolding perform_all
nothing_left cs s rest w e h =
    let input = live s.conn.in_buf in
    let none_left = no_command cs input rest w.idle e h in
    let text : input ++ [] ≡ text_of [] rest = e ∙ ap (λ l. text_of l rest) none_left in
    subst
      (λ l. Answers (performed l (view s.store)) (s.received ++ live s.conn.out_buf) rest (some s))
      (sym none_left)
      (record {
        final = s;
        ran = refl;
        told = sym (append-nil (s.received ++ live s.conn.out_buf));
        store = refl;
        unread = sym (append-nil input) ∙ text;
        waiting = w;
      })

pub All-append : (xs ys : List Command) → All IsAsked (xs ++ ys) → All IsAsked xs × All IsAsked ys
All-append [] ys h = (tt, h)
All-append (x ∷ xs) ys h = let (hx, hy) = All-append xs ys h.1 in ((h.0, hx), hy)

-- The sizes of the replies to the commands in front of the cut and behind it.
sizes :
    (done left : List Command) (m : View)
    → length (encode_replies (performed (done ++ left) m).0)
      ≡ length (encode_replies (performed done m).0)
        + length (encode_replies (performed left (performed done m).1).0)
sizes done left m =
    let (ps, m') = performed done m in
    let qs = (performed left m').0 in
    ap (λ rs. length (encode_replies rs)) (performed-append done left m).0
    ∙ ap length (encode_replies-append ps qs)
    ∙ length-append (encode_replies ps) (encode_replies qs)

-- The answers to the commands in front of the cut, and then to those behind it.
Answers-append :
    (done left : List Command) (m m' : View) (old old' rest : Bytes) (out : Option Talk)
    → m' ≡ (performed done m).1
    → old' ≡ old ++ encode_replies (performed done m).0
    → Answers (performed left m') old' rest out
    → Answers (performed (done ++ left) m) old rest out
Answers-append done left m m' old old' rest out seen queued a =
    let (replies, last) = performed-append done left m in
    let ps = (performed done m).0 in
    let qs = (performed left (performed done m).1).0 in
    record {
      final = a.final;
      ran = a.ran;
      told =
          a.told
          ∙ ap (λ u. old' ++ encode_replies (performed left u).0) seen
          ∙ ap (λ b. b ++ encode_replies qs) queued
          ∙ append_assoc old (encode_replies ps) (encode_replies qs)
          ∙ ap (λ b. old ++ b)
              (sym (encode_replies-append ps qs) ∙ ap encode_replies (sym replies));
      store = a.store ∙ ap (λ u. (performed left u).1) seen ∙ sym last;
      unread = a.unread;
      waiting = a.waiting;
    }

pass :
    (rc : Rc) (k : Talk → Option Talk) (s : Talk) (r : List Reply × View) (old rest : Bytes)
    → rc ≡ ok
    → Answers r old rest (k s)
    → Answers r old rest (next_call k rc s)
pass ok k s r old rest e a = a
pass fail k s r old rest e a = cc

module _ (rest : Bytes) (waits : parse_request rest ≡ need_more) where
  -- For calls of handle_read and handle_write on one connection, in any order, from a sound, open
  -- connection without a whole command among its unread bytes, with no allocation refused, where
  -- the peer neither hangs up nor fails, epoll_ctl succeeds, and what arrives, and what is to be
  -- sent with the replies, fits under 16 MiB: where the unread bytes and all that arrives,
  -- wherever it is cut into calls, are commands other than KEYS and DBSIZE, in any spelling of
  -- their names and with sendable arguments, one behind the other, and an unfinished rest, no
  -- call closes the connection, what the peer has received and what is still to be sent are,
  -- together, the old such bytes and the encoded replies of a key-value machine to these commands
  -- in their order, every lookup in the store finds what that machine holds, and the rest is
  -- unread.
  pub talk-Answers :
      (calls : List Call) (cs : List Command) (s : Talk)
      → IsWaiting s
      → All IsCalm calls
      → length (live s.conn.in_buf) + length (arrived calls) + read_chunk ≤ max_cap
      → length (live s.conn.out_buf) + length (encode_replies (performed cs (view s.store)).0) + 1
        ≤ max_cap
      → live s.conn.in_buf ++ arrived calls ≡ text_of cs rest
      → All IsAsked cs
      → Answers
          (performed cs (view s.store))
          (s.received ++ live s.conn.out_buf)
          rest
          (talk calls s)
  unfolding talk
  talk-Answers [] cs s w p short room e h = nothing_left cs s rest w e h
  talk-Answers (writing ctl writes ∷ calls) cs s w ((good, p), ps) short room e h =
      let sent = taken (flush writes [] s.conn.out_buf) in
      let hands = handle_write-Hands writes s.conn w.sound.output w.still_open p in
      let c = (handle_write ok writes s.conn).1 in
      let s' : Talk = record s { conn = c; received = s.received ++ sent } in
      let w' : IsWaiting s' = record {
        sound = record {
          table = w.sound.table;
          sized = w.sound.sized;
          input = subst IsValid (sym hands.input) w.sound.input;
          output = hands.valid;
        };
        calm = w.calm;
        still_open = hands.still_open;
        idle = ap (λ b. parse_request (live b)) hands.input ∙ w.idle;
      } in
      let r = performed cs (view s.store) in
      let ih =
        talk-Answers calls cs s' w' ps (omega (arith, short, ap (λ b. length (live b)) hands.input))
          (omega (arith, room, ap length hands.split, length-append sent (live c.out_buf)))
          (ap (λ b. live b ++ arrived calls) hands.input ∙ e) h in
      let same =
        append_assoc s.received sent (live c.out_buf) ∙ ap (λ b. s.received ++ b) hands.split in
      subst
        (λ g.
          Answers r (s.received ++ live s.conn.out_buf) rest (talk (writing g writes ∷ calls) s))
        (sym good)
        (pass _ (talk calls) s' r _ rest hands.good
          (subst (λ o. Answers r o rest (talk calls s')) same ih))
  talk-Answers (reading ctl reads ∷ calls) cs s w ((good, p), ps) short room e h =
      let old = live s.conn.in_buf in
      let out = live s.conn.out_buf in
      let m = view s.store in
      let sp =
        split cs (old ++ arriving reads) (arrived calls) rest h waits
          (append_assoc old (arriving reads) (arrived calls) ∙ e) in
      let cut = sizes sp.done sp.left m in
      let (hd, hl) = All-append sp.done sp.left (subst (All IsAsked) sp.whole h) in
      let room' =
        subst (λ l. length out + length (encode_replies (performed l m).0) + 1 ≤ max_cap) sp.whole
          room in
      let more = length-append (arriving reads) (arrived calls) in
      let r = handle_read ctl reads s.conn s.store s.heap in
      let x : Performs ctl (performed sp.done m) out sp.part r =
        subst
          (λ g.
            Performs ctl (performed sp.done m) out sp.part (handle_read ctl reads s.conn s.store g))
          (sym w.calm)
          (handle_read-Performs ctl reads s.conn s.store sp.done sp.part w.sound w.still_open p
            (omega (arith, short, more)) (omega (arith, room', cut)) sp.front hd sp.idle) in
      let s' : Talk = record s { conn = r.conn; store = r.store; heap = r.heap } in
      let w' : IsWaiting s' = record {
        sound = handle_read-IsSound ctl reads s.conn s.store s.heap w.sound;
        calm = x.calm;
        still_open = x.still_open;
        idle = ap parse_request x.unread ∙ sp.idle;
      } in
      let replies = encode_replies (performed sp.done m).0 in
      let ih =
        talk-Answers calls sp.left s' w' ps
          (omega (
            arith,
            short,
            more,
            ap length x.unread,
            length-text_of sp.done sp.part,
            ap length sp.front,
            length-append old (arriving reads),
          ))
          (subst
            (λ u.
              length (live r.conn.out_buf) + length (encode_replies (performed sp.left u).0) + 1
              ≤ max_cap)
            (sym x.store)
            (omega (arith, room', cut, ap length x.queued, length-append out replies)))
          (ap (λ b. b ++ arrived calls) x.unread ∙ sp.back) hl in
      let queued = ap (λ b. s.received ++ b) x.queued ∙ sym (append_assoc s.received out replies) in
      subst
        (λ l. Answers (performed l m) (s.received ++ out) rest (talk (reading ctl reads ∷ calls) s))
        (sym sp.whole)
        (pass r.rc (talk calls) s' _ _ rest (x.kept good) (
          Answers-append sp.done sp.left m (view r.store) (s.received ++ out) _ rest _ x.store
            queued ih))
