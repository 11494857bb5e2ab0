-- ===== src/Server/Services.antt =====
-- src/networking.c: what the event of one client does, as calls of the two handlers on its connection.
use redis_in_c.Prelude.{
  ℕ, ◌≡◌, ◌≢◌, ◌∙◌, refl, false, Bool-cases, inl, inr, if◌then◌else◌, Bytes, Option, none, some,
  List, [], ◌∷◌, ◌++◌,
}
use redis_in_c.Heap.{Rc, ok, fail}
use redis_in_c.Connection.{Conn, State, handle_read, flush}
use redis_in_c.Connection.Delivery.{IsPolite}
use redis_in_c.Connection.Handing.{IsWilling, taken}
use redis_in_c.Connection.Conversation.{Call, reading, writing, Talk, next_call, talk}
use redis_in_c.Server.{Server, fds, conn_of, set_conn, AcceptResult}
use redis_in_c.Server.Loop.{
  Ready, Io, Event, on_listener, on_client, after_write, write_event, after_read, client_event,
}
use redis_in_c.Server.Accepting.{newcomers}
use redis_in_c.Server.Running.{IsIn}
use redis_in_c.Server.Clients.{conn_of-set_ne, conn_of-set_self, fds-set_conn}

-- An event of a client.
pub record Service : Type 0 where
  pub fd : ℕ
  pub ready : Ready
  pub io : Io

abbrev pub event_of : Service → Event
event_of v = on_client v.fd v.ready v.io

abbrev pub writes_of : Service → List Call
writes_of v = if v.ready.writable then writing v.io.write_ctl v.io.writes ∷ [] else []

abbrev pub calls_of : Service → List Call
calls_of v =
    if v.ready.readable then reading v.io.read_ctl v.io.reads ∷ writes_of v else writes_of v

-- The peer neither hangs up nor fails, and `epoll_ctl` succeeds.
abbrev pub IsSmooth : Service → Type 0
IsSmooth v =
    (v.ready.failed ≡ false)
    × (v.io.read_ctl ≡ ok)
    × (v.io.write_ctl ≡ ok)
    × IsPolite v.io.reads
    × IsWilling v.io.writes

-- An event of a client, or of the listener.
pub data Occasion : Type 0 where
  serves : Service → Occasion
  admits : Ready → List AcceptResult → Occasion

abbrev pub occurs : Occasion → Event
occurs (serves v) = event_of v
occurs (admits ready answers) = on_listener ready answers

abbrev pub services_of : List Occasion → List Service
services_of [] = []
services_of (serves v ∷ os) = v ∷ services_of os
services_of (admits ready answers ∷ os) = services_of os

-- The events of the clients are smooth ones of these clients, and the listener is not in error.
abbrev pub IsFair : (ℕ → Type 0) → Occasion → Type 0
IsFair IsClient (serves v) = IsSmooth v × IsClient v.fd
IsFair IsClient (admits ready answers) = ready.failed ≡ false

-- The listener and the descriptors in `watched` are watched, and those in `behind` are open beside
-- them. Each event is of a descriptor that is watched, if no client hangs up.
abbrev pub IsWatched : (List ℕ → ℕ) → List ℕ → List ℕ → List Occasion → Type 0
IsWatched next_fd behind watched [] = Unit
IsWatched next_fd behind watched (serves v ∷ es) =
    IsIn v.fd watched × IsWatched next_fd behind watched es
IsWatched next_fd behind watched (admits ready answers ∷ es) =
    IsWatched next_fd behind (newcomers next_fd answers (watched ++ behind) ++ watched) es

-- The connection behind the read of the event.
abbrev pub conn_read : Service → Conn → Server → Conn
conn_read v k s =
    if v.ready.readable then (handle_read v.io.read_ctl v.io.reads k s.store s.heap).conn else k

-- The bytes that the socket takes.
abbrev pub handed : Service → Conn → Server → Bytes
handed v k s =
    if v.ready.writable then taken (flush v.io.writes [] (conn_read v k s).out_buf) else []

-- The server is what the calls have left, if none of them has closed the connection.
abbrev pub Tracks : ℕ → Server → Bytes → Option Talk → Server → Type 0
Tracks fd s sent none t = Unit
Tracks fd s sent (some f) t =
    (t.store ≡ f.store)
    × (t.heap ≡ f.heap)
    × (conn_of fd t.conns ≡ some f.conn)
    × ((g : ℕ) → fd ≢ g → conn_of g t.conns ≡ conn_of g s.conns)
    × (fds t.conns ≡ fds s.conns)
    × (f.received ≡ sent)

after_write-Tracks :
    (fd : ℕ) (c : Conn) (s : Server) (sent : Bytes) (out : Rc × Conn)
    → conn_of fd s.conns ≡ some c
    → Tracks fd s sent
        (next_call
          (talk [])
          out.0
          (record { conn = out.1; store = s.store; heap = s.heap; received = sent }))
        (after_write fd s out)
unfolding after_write talk
after_write-Tracks fd c s sent (fail, c') e = tt
after_write-Tracks fd c s sent (ok, c') e = (
  refl,
  refl,
  conn_of-set_self fd c c' s.conns e,
  λ g ne. conn_of-set_ne fd g c' s.conns ne,
  fds-set_conn fd c' s.conns,
  refl,
)

write_event-Tracks :
    (v : Service) (c : Conn) (s : Server)
    → conn_of v.fd s.conns ≡ some c
    → Tracks v.fd s
        (if v.ready.writable then taken (flush v.io.writes [] c.out_buf) else [])
        (talk (writes_of v) (record { conn = c; store = s.store; heap = s.heap; received = [] }))
        (write_event v.fd v.ready v.io c s)
unfolding write_event talk
write_event-Tracks v c s e = elim (Bool-cases v.ready.writable) [
  | inr f ↦ rw f (refl, refl, e, λ g ne. refl, refl, refl)
  | inl t ↦ rw t (after_write-Tracks v.fd c s (taken (flush v.io.writes [] c.out_buf)) _ e)
]

-- From the connection as it is written back.
Tracks-set_conn :
    (fd : ℕ) (c : Conn) (s t : Server) (sent : Bytes) (o : Option Talk) (out : Server)
    → ((g : ℕ) → fd ≢ g → conn_of g t.conns ≡ conn_of g s.conns)
    → fds t.conns ≡ fds s.conns
    → Tracks fd t sent o out
    → Tracks fd s sent o out
Tracks-set_conn fd c s t sent none out h n x = tt
Tracks-set_conn fd c s t sent (some f) out h n (store, heap, here, others, names, told) =
    (store, heap, here, λ g ne. others g ne ∙ h g ne, names ∙ n, told)

by_rc :
    (rc : Rc) (fd : ℕ) (s : Server) (sent : Bytes) (k : Talk → Option Talk) (u : Talk)
    (y z : Server)
    → Tracks fd s sent (k u) y
    → Tracks fd s sent (next_call k rc u) (elim rc [ ok ↦ y | fail ↦ z ])
by_rc ok fd s sent k u y z h = h
by_rc fail fd s sent k u y z h = tt

after_read-Tracks :
    (v : Service) (k : Conn) (s : Server) (r : State)
    → conn_of v.fd s.conns ≡ some k
    → Tracks v.fd s
        (if v.ready.writable then taken (flush v.io.writes [] r.conn.out_buf) else [])
        (next_call
          (talk (writes_of v))
          r.rc
          (record { conn = r.conn; store = r.store; heap = r.heap; received = [] }))
        (after_read v.fd v.ready v.io s r)
unfolding after_read
after_read-Tracks v k s r e =
    let s' : Server = record s {
      store = r.store;
      heap = r.heap;
      conns = set_conn v.fd r.conn s.conns;
    } in
    by_rc r.rc v.fd s _ (talk (writes_of v)) _ (write_event v.fd v.ready v.io r.conn s') _ (
      Tracks-set_conn v.fd r.conn s s' _ _ _ (λ g ne. conn_of-set_ne v.fd g r.conn s.conns ne)
        (fds-set_conn v.fd r.conn s.conns)
        (write_event-Tracks v r.conn s' (conn_of-set_self v.fd k r.conn s.conns e)))

pub client_event-Tracks :
    (v : Service) (k : Conn) (s : Server)
    → v.ready.failed ≡ false
    → conn_of v.fd s.conns ≡ some k
    → Tracks v.fd s
        (handed v k s)
        (talk (calls_of v) (record { conn = k; store = s.store; heap = s.heap; received = [] }))
        (client_event v.fd v.ready v.io k s)
unfolding client_event talk
client_event-Tracks v k s healthy e = elim (Bool-cases v.ready.readable) [
  | inl t ↦
      rw (healthy, t)
        (after_read-Tracks v k s (handle_read v.io.read_ctl v.io.reads k s.store s.heap) e)
  | inr f ↦ rw (healthy, f) (write_event-Tracks v k s e)
]
