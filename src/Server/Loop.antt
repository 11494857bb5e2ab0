-- ===== src/Server/Loop.antt =====
-- src/networking.c: the events of a batch and the loop of `net_run`, with the teardown behind it.
use redis_in_c.Prelude.{ℕ, Bool, true, if◌then◌else◌, Option, none, some, List, [], ◌∷◌}
use redis_in_c.Heap.{Rc, ok, fail}
use redis_in_c.Connection.{Conn, ReadResult, WriteResult, State, handle_read, handle_write}
use redis_in_c.Server.{
  Client, Server, fds, close, close_conn, conn_of, set_conn, AcceptResult, accept_clients,
}

-- The tests of the mask of an event: `EPOLLERR | EPOLLHUP`, `EPOLLIN` and `EPOLLOUT`.
pub record Ready : Type 0 where
  pub failed : Bool
  pub readable : Bool
  pub writable : Bool

-- What the calls of the two handlers answer while the event is served.
pub record Io : Type 0 where
  pub reads : List ReadResult
  pub read_ctl : Rc
  pub writes : List WriteResult
  pub write_ctl : Rc

-- One entry of the array that `epoll_wait` fills: `data.ptr` is NULL for the listener.
pub data Event : Type 0 where
  on_listener : Ready → List AcceptResult → Event
  on_client : ℕ → Ready → Io → Event

-- A handler's result: the connection is written back, and is closed where the handler says so.
unfoldable pub after_write : ℕ → Server → Rc × Conn → Server
unfolding close_conn set_conn
after_write fd s (ok, c) = record s { conns = set_conn fd c s.conns }
after_write fd s (fail, c) = close_conn fd (record s { conns = set_conn fd c s.conns })

unfoldable pub write_event : ℕ → Ready → Io → Conn → Server → Server
unfolding after_write
write_event fd ready io c s =
    if ready.writable then after_write fd s (handle_write io.write_ctl io.writes c) else s

unfoldable pub after_read : ℕ → Ready → Io → Server → State → Server
unfolding write_event close_conn set_conn
after_read fd ready io s r =
    let s' : Server = record s {
      store = r.store;
      heap = r.heap;
      conns = set_conn fd r.conn s.conns;
    } in
    elim r.rc [ ok ↦ write_event fd ready io r.conn s' | fail ↦ close_conn fd s' ]

unfoldable pub client_event : ℕ → Ready → Io → Conn → Server → Server
unfolding after_read write_event close_conn
client_event fd ready io c s =
    if ready.failed
    then close_conn fd s
    else if ready.readable
    then after_read fd ready io s (handle_read io.read_ctl io.reads c s.store s.heap)
    else write_event fd ready io c s

-- The loop over a batch. `none` is a use of a connection that is not there any more.
unfoldable pub run_batch : (List ℕ → ℕ) → List Event → Server → Option Server
unfolding client_event accept_clients conn_of
run_batch next_fd [] s = some s
run_batch next_fd (on_listener ready answers ∷ events) s =
    let rest = run_batch next_fd events (accept_clients next_fd answers s) in
    if ready.failed then some (record s { shutdown = true }) else rest
run_batch next_fd (on_client fd ready io ∷ events) s = elim (conn_of fd s.conns) [
  | none ↦ none
  | some c ↦ run_batch next_fd events (client_event fd ready io c s)
]

-- What `epoll_wait` answers. The events are its choice by the descriptors that it watches beside
-- the listener's: those of the connections.
pub data Wake : Type 0 where
  interrupted : Wake
  wait_failed : Wake
  batch : (List ℕ → List Event) → Wake

-- One round of the loop. `signalled` says that SIGINT or SIGTERM is handled between its test of
-- `g_shutdown` and the next: the flag is read by that test only.
pub record Turn : Type 0 where
  pub signalled : Bool
  pub wake : Wake

unfoldable pub on_signal : Bool → Server → Server
on_signal signalled s = if signalled then record s { shutdown = true } else s

-- How the loop stands: it would wait for the next answer, has ended, or has used a freed node.
pub data Looped : Type 0 where
  waiting : Server → Looped
  ended : Server → Looped
  fault : Looped

unfoldable pub after_batch : Bool → (Server → Looped) → Option Server → Looped
unfolding on_signal
after_batch signalled loop none = fault
after_batch signalled loop (some s) = loop (on_signal signalled s)

unfoldable pub on_wake : (List ℕ → ℕ) → Bool → (Server → Looped) → Server → Wake → Looped
unfolding after_batch run_batch on_signal
on_wake next_fd signalled loop s interrupted = loop (on_signal signalled s)
on_wake next_fd signalled loop s wait_failed = ended (on_signal signalled s)
on_wake next_fd signalled loop s (batch report) =
    after_batch signalled loop (run_batch next_fd (report (fds s.conns)) s)

unfoldable pub event_loop : (List ℕ → ℕ) → List Turn → Server → Looped
unfolding on_wake
event_loop next_fd [] s = if s.shutdown then ended s else waiting s
event_loop next_fd (t ∷ ts) s =
    let turn = on_wake next_fd t.signalled (event_loop next_fd ts) s t.wake in
    if s.shutdown then ended s else turn

-- The nodes are freed from the head of the list on.
unfoldable pub close_all : List Client → List ℕ → List ℕ
unfolding close
close_all [] files = files
close_all (c ∷ cs) files = close_all cs (close c.fd files)

unfoldable pub close_held : Option ℕ → List ℕ → List ℕ
unfolding close
close_held none files = files
close_held (some fd) files = close fd files

unfoldable pub teardown : Server → Server
unfolding close_all close_held
teardown s = record s {
  conns = [];
  epoll_fd = none;
  listen_fd = none;
  files = close_held s.listen_fd (close_held s.epoll_fd (close_all s.conns s.files));
}

unfoldable pub after_loop : Looped → Looped
unfolding teardown
after_loop (waiting s) = waiting s
after_loop (ended s) = ended (teardown s)
after_loop fault = fault

-- It returns 0 wherever it has ended.
unfoldable pub net_run : (List ℕ → ℕ) → List Turn → Server → Looped
unfolding event_loop after_loop
net_run next_fd turns s = after_loop (event_loop next_fd turns s)
