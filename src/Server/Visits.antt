-- ===== src/Server/Visits.antt =====
-- src/networking.c: the bytes of the clients of a batch as commands, and what a key-value machine
-- answers to them.
use redis_in_c.Prelude.{
  ℕ, ◌+◌, ◌≤◌, ◌≡◌, ◌≢◌, ◌∙◌, sym, true, false, Bytes, Option, some, List, [], ◌∷◌, ◌++◌, length,
  All, map,
}
use redis_in_c.Heap.{ok}
use redis_in_c.Bytebuf.{live, max_cap}
use redis_in_c.Resp.Outcome.{need_more}
use redis_in_c.Resp.Request.{parse_request}
use redis_in_c.Resp.Streams.{encode_replies}
use redis_in_c.Command.Machine.{View}
use redis_in_c.Connection.{Conn, read_chunk}
use redis_in_c.Connection.Draining.{arriving}
use redis_in_c.Connection.Delivery.{IsPolite}
use redis_in_c.Connection.Pipeline.{encode_all}
use redis_in_c.Connection.Serial.{Command, args_of, performed, IsAsked}
use redis_in_c.Server.{Server, conn_of}
use redis_in_c.Server.Loop.{Ready, Io, Event, on_client}

-- A readable connection, the commands that its bytes are, and what is left of them.
pub record Visit : Type 0 where
  pub fd : ℕ
  pub ready : Ready
  pub io : Io
  pub asks : List Command
  pub rest : Bytes

abbrev pub event_of : Visit → Event
event_of v = on_client v.fd v.ready v.io

abbrev pub commands_of : List Visit → List Command
commands_of [] = []
commands_of (v ∷ vs) = v.asks ++ commands_of vs

-- The bytes of the connection, where the machine holds `m`.
pub record Arrives (m : View) (v : Visit) (k : Conn) : Type 0 where
  pub healthy : v.ready.failed ≡ false
  pub readable : v.ready.readable ≡ true
  pub live_on : k.close_after_drain ≡ false
  pub polite : IsPolite v.io.reads
  pub short : length (live k.in_buf) + length (arriving v.io.reads) + read_chunk ≤ max_cap
  pub room : length (live k.out_buf) + length (encode_replies (performed v.asks m).0) + 1 ≤ max_cap
  pub text :
      live k.in_buf ++ arriving v.io.reads
      ≡ encode_all (map (λ (c : Command). args_of c) v.asks) v.rest
  pub asked : All IsAsked v.asks
  pub waits : parse_request v.rest ≡ need_more

-- Each of the visits is one of a live connection.
abbrev pub Visits : (ℕ → Option Conn) → View → List Visit → Type 0
Visits conn m [] = Unit
Visits conn m (v ∷ vs) =
    ((k : Conn) × (conn v.fd ≡ some k) × Arrives m v k) × Visits conn (performed v.asks m).1 vs

-- Nothing is written while the event is served, and the connection can be armed.
abbrev pub IsReadOnly : Visit → Type 0
IsReadOnly v = (v.io.read_ctl ≡ ok) × (v.ready.writable ≡ false)

-- The replies stand behind the bytes that were to be sent to the client.
abbrev pub HasReplies : ℕ → Bytes → Server → Server → Type 0
HasReplies fd text s t =
    (k : Conn) × (k' : Conn) × (conn_of fd s.conns ≡ some k)
    × (conn_of fd t.conns ≡ some k')
    × (live k'.out_buf ≡ live k.out_buf ++ text)

-- Each client has the replies of its commands, as the machine gives them at their turn.
abbrev pub Replied : View → List Visit → Server → Server → Type 0
Replied m [] s t = Unit
Replied m (v ∷ vs) s t =
    let (ps, m') = performed v.asks m in HasReplies v.fd (encode_replies ps) s t × Replied m' vs s t

abbrev pub fds_of : List Visit → List ℕ
fds_of [] = []
fds_of (v ∷ vs) = v.fd ∷ fds_of vs

pub Visits-move :
    (vs : List Visit) (f g : ℕ → Option Conn) (m : View)
    → All (λ fd. g fd ≡ f fd) (fds_of vs)
    → Visits f m vs
    → Visits g m vs
Visits-move [] f g m e h = tt
Visits-move (v ∷ vs) f g m e ((k, found, a), h) =
    ((k, e.0 ∙ found, a), Visits-move vs f g (performed v.asks m).1 e.1 h)

pub untouched :
    (names : List ℕ) (fd : ℕ) (P : ℕ → Type 0)
    → ((g : ℕ) → fd ≢ g → P g)
    → All (λ g. g ≢ fd) names
    → All P names
untouched [] fd P f h = tt
untouched (g ∷ gs) fd P f h = (f g (λ e. h.0 (sym e)), untouched gs fd P f h.1)

pub Replied-move :
    (vs : List Visit) (m : View) (s s' t : Server)
    → All (λ fd. conn_of fd s'.conns ≡ conn_of fd s.conns) (fds_of vs)
    → Replied m vs s' t
    → Replied m vs s t
Replied-move [] m s s' t e h = tt
Replied-move (v ∷ vs) m s s' t e ((k, k', was, now, q), h) =
    ((k, k', sym e.0 ∙ was, now, q), Replied-move vs (performed v.asks m).1 s s' t e.1 h)
