-- ===== src/Server/Stepping.antt =====
-- src/networking.c: one event of a client, whose bytes may end in the middle of a command.
use redis_in_c.Prelude.{
  ◌+◌, ◌≤◌, ◌≡◌, ◌≢◌, ◌∙◌, ℕ, sym, subst, ap, arith, Bool-cases, inl, inr, Bytes, some, List, [],
  ◌++◌, length, length-append, All, append_assoc,
}
use redis_in_c.Bytebuf.{live, max_cap}
use redis_in_c.Resp.Outcome.{need_more}
use redis_in_c.Resp.Request.{parse_request}
use redis_in_c.Resp.Streams.{encode_replies}
use redis_in_c.Command.Machine.{View}
use redis_in_c.Command.Refines.{view}
use redis_in_c.Connection.{Conn, read_chunk}
use redis_in_c.Connection.Conversation.{Talk, arrived, IsCalm, IsWaiting}
use redis_in_c.Connection.Serial.{Command, performed, IsAsked}
use redis_in_c.Connection.Splits.{text_of, split}
use redis_in_c.Connection.Streaming.{All-append, length-text_of, talk-Answers}
use redis_in_c.Connection.Validity.{IsSound}
use redis_in_c.Server.{Server, fds, conn_of}
use redis_in_c.Server.Loop.{client_event}
use redis_in_c.Server.Services.{
  Service, writes_of, calls_of, IsSmooth, handed, Tracks, client_event-Tracks,
}

-- The connection, as the calls of the handlers find it.
abbrev pub talk_of : Conn → Server → Talk
talk_of k s = record { conn = k; store = s.store; heap = s.heap; received = [] }

-- An open connection that waits for the rest of a command. Its unread bytes, and those that are
-- still to come, are these commands and an unfinished rest.
pub record Opens (s : Server) (k : Conn) (cs : List Command) (rest more : Bytes) : Type 0 where
  pub waiting : IsWaiting (talk_of k s)
  pub short : length (live k.in_buf) + length more + read_chunk ≤ max_cap
  pub text : live k.in_buf ++ more ≡ text_of cs rest
  pub asked : All IsAsked cs

-- The event has `done` answered, and `left` is what the client has still to be answered.
pub record Step (v : Service) (s t : Server) (k : Conn) (cs : List Command) (rest more : Bytes)
    : Type 0 where
  pub done : List Command
  pub left : List Command
  pub whole : cs ≡ done ++ left
  pub conn : Conn
  pub here : conn_of v.fd t.conns ≡ some conn
  pub others : (g : ℕ) → v.fd ≢ g → conn_of g t.conns ≡ conn_of g s.conns
  pub names : fds t.conns ≡ fds s.conns
  pub seen : view t.store ≡ (performed done (view s.store)).1
  pub told :
      handed v k s ++ live conn.out_buf
      ≡ live k.out_buf ++ encode_replies (performed done (view s.store)).0
  pub front : live k.in_buf ++ arrived (calls_of v) ≡ text_of done (live conn.in_buf)
  pub opens : Opens t conn left rest more

calls_of-IsCalm : (v : Service) → IsSmooth v → All IsCalm (calls_of v)
calls_of-IsCalm v (healthy, rc, wc, polite, willing) = elim (Bool-cases v.ready.readable) [
  | inl t ↦ rw t ((rc, polite), writes)
  | inr f ↦ rw f writes
]
  where
    writes : All IsCalm (writes_of v)
    writes = elim (Bool-cases v.ready.writable) [
      | inl t ↦ rw t ((wc, willing), tt)
      | inr f ↦ rw f tt
    ]

-- There is room for the replies to commands that come first.
abbrev pub HasRoom : View → Conn → List Command → Type 0
HasRoom m k cs =
    (done left : List Command)
    → cs ≡ done ++ left
    → length (live k.out_buf) + length (encode_replies (performed done m).0) + 1 ≤ max_cap

pub client_event-Step :
    (v : Service) (s : Server) (k : Conn) (cs : List Command) (rest more : Bytes)
    → IsSmooth v
    → conn_of v.fd s.conns ≡ some k
    → Opens s k cs rest (arrived (calls_of v) ++ more)
    → parse_request rest ≡ need_more
    → HasRoom (view s.store) k cs
    → Step v s (client_event v.fd v.ready v.io k s) k cs rest more
client_event-Step v s k cs rest more smooth e o waits room =
    let old = live k.in_buf in
    let new = arrived (calls_of v) in
    let sp = split cs (old ++ new) more rest o.asked waits (append_assoc old new more ∙ o.text) in
    let (hd, hl) = All-append sp.done sp.left (subst (All IsAsked) sp.whole o.asked) in
    let sizes = length-append new more in
    let a =
      talk-Answers sp.part sp.idle (calls_of v) sp.done (talk_of k s) o.waiting
        (calls_of-IsCalm v smooth) (omega (arith, o.short, sizes)) (room sp.done sp.left sp.whole)
        sp.front hd in
    let t = client_event v.fd v.ready v.io k s in
    let (store, heap, here, others, names, sent) =
      subst (λ out. Tracks v.fd s (handed v k s) out t) a.ran
        (client_event-Tracks v k s smooth.0 e) in
    let w = a.waiting in
    record {
      done = sp.done;
      left = sp.left;
      whole = sp.whole;
      conn = a.final.conn;
      here = here;
      others = others;
      names = names;
      seen = ap view store ∙ a.store;
      told = ap (λ b. b ++ live a.final.conn.out_buf) (sym sent) ∙ a.told;
      front = sp.front ∙ ap (text_of sp.done) (sym a.unread);
      opens = record {
        waiting = record {
          sound = subst (IsSound a.final.conn) (sym store) w.sound;
          calm = heap ∙ w.calm;
          still_open = w.still_open;
          idle = w.idle;
        };
        short = omega (
          arith,
          o.short,
          sizes,
          ap length a.unread,
          length-text_of sp.done sp.part,
          ap length sp.front,
          length-append old new,
        );
        text = ap (λ b. b ++ more) a.unread ∙ sp.back;
        asked = hl;
      };
    }
