-- ===== src/Server.antt =====
-- src/networking.c: the list of connections, their accepting and closing, and the descriptors that
-- the process holds. The answers of the system calls are parameters, as in Connection; which
-- descriptor a call that opens one returns is the parameter `next_fd`, a choice by the open ones.
pub mod Loop
pub mod Setup
pub mod Clients
pub mod Running
pub mod Accepting
pub mod Serving
pub mod Batches
pub mod Services
pub mod Order
pub mod Stepping
pub mod Linear
pub mod Starting
pub mod Interleaving
pub mod Advance
pub mod Prompt
pub mod Admitting
pub mod History
pub mod Session
pub mod Room
pub mod Visits
pub mod Serial
mod Crossing
pub mod Lifetime
pub mod Shutdown
pub mod Listening
pub mod Opening
pub mod Samples
mod Tests
use redis_in_c.Prelude.{
  ℕ, ◌==◌, Bool, true, false, if◌then◌else◌, Option, none, some, List, [], ◌∷◌, map,
}
use redis_in_c.Heap.{Heap, Rc, ok, fail, malloc}
use redis_in_c.Bytebuf
use redis_in_c.Hashtable.{Hashtable}
use redis_in_c.Connection.{Conn, epollin}

-- A node of the list `g_conns`: the descriptor and the rest of a `conn_t`. The pointer to it is
-- named by the descriptor.
pub record Client : Type 0 where
  pub fd : ℕ
  pub conn : Conn

-- The module's globals. `files` are the descriptors that the process has open, the newest first.
pub record Server : Type 0 where
  pub store : Hashtable
  pub heap : Heap
  pub listen_fd : Option ℕ
  pub epoll_fd : Option ℕ
  pub conns : List Client
  pub shutdown : Bool
  pub files : List ℕ

abbrev pub fds : List Client → List ℕ
fds = map (λ c. c.fd)

-- What `close` does to the open descriptors.
unfoldable pub close : ℕ → List ℕ → List ℕ
close fd [] = []
close fd (f ∷ fs) = let rest = close fd fs in if f == fd then fs else f ∷ rest

-- The walk of `close_conn` along the links, to the node of this descriptor.
unfoldable pub unlink : ℕ → List Client → List Client
unlink fd [] = []
unlink fd (c ∷ cs) = let rest = unlink fd cs in if c.fd == fd then cs else c ∷ rest

-- What the pointer to a connection leads to, and a write through it.
unfoldable pub conn_of : ℕ → List Client → Option Conn
conn_of fd [] = none
conn_of fd (c ∷ cs) = let rest = conn_of fd cs in if c.fd == fd then some c.conn else rest

unfoldable pub set_conn : ℕ → Conn → List Client → List Client
set_conn fd conn [] = []
set_conn fd conn (c ∷ cs) =
    let rest = set_conn fd conn cs in if c.fd == fd then record c { conn = conn } ∷ cs else c ∷ rest

-- The answers of its two calls of `fcntl`.
unfoldable pub set_nonblock : Rc → Rc → Rc
set_nonblock get set = elim get [ ok ↦ set | fail ↦ fail ]

-- Both buffers of the node go with it.
unfoldable pub close_conn : ℕ → Server → Server
unfolding close unlink
close_conn fd s = record s { files = close fd s.files; conns = unlink fd s.conns }

-- What `accept` answers; behind a descriptor, what `fcntl` and `epoll_ctl` answer for it.
pub data AcceptResult : Type 0 where
  accepted : Rc → Rc → Rc → AcceptResult
  accept_again : AcceptResult
  accept_interrupted : AcceptResult
  accept_failed : AcceptResult

-- `bytebuf_init` for both buffers; the mask is that of `epoll_ctl`, which the caller passes.
abbrev pub new_conn : ℕ → Conn
new_conn events = record {
  in_buf = redis_in_c.Bytebuf.init;
  out_buf = redis_in_c.Bytebuf.init;
  events = events;
  close_after_drain = false;
}

-- The node is linked in front, and is unlinked again where the registration fails.
unfoldable pub register_conn : ℕ → Rc → Server → Server
unfolding close
register_conn cfd add s =
    let linked : Server = record s { conns = record { fd = cfd; conn = new_conn 0 } ∷ s.conns } in
    elim add [
      | ok ↦ record linked { conns = set_conn cfd (new_conn epollin) linked.conns }
      | fail ↦ record s { files = close cfd s.files }
    ]

-- Behind `malloc`.
unfoldable pub on_block : ℕ → Rc → Server → Option (Unit {0}) × Heap → Server
unfolding register_conn close
on_block cfd add s (none, heap) = record s { heap = heap; files = close cfd s.files }
on_block cfd add s (some _, heap) = register_conn cfd add (record s { heap = heap })

unfoldable pub alloc_conn : ℕ → Rc → Server → Server
unfolding on_block
alloc_conn cfd add s = on_block cfd add s (malloc s.heap)

-- The body of the loop behind an `accept` that has returned this descriptor.
unfoldable pub admit : ℕ → Rc → Rc → Server → Server
unfolding alloc_conn close
admit cfd nonblock add s =
    let opened : Server = record s { files = cfd ∷ s.files } in
    elim nonblock [
      | ok ↦ alloc_conn cfd add opened
      | fail ↦ record opened { files = close cfd opened.files }
    ]

-- Past the end of the answers `accept` would block.
unfoldable pub accept_clients : (List ℕ → ℕ) → List AcceptResult → Server → Server
unfolding admit set_nonblock
accept_clients next_fd [] s = s
accept_clients next_fd (accepted get set add ∷ rs) s =
    accept_clients next_fd rs (admit (next_fd s.files) (set_nonblock get set) add s)
accept_clients next_fd (accept_again ∷ rs) s = s
accept_clients next_fd (accept_interrupted ∷ rs) s = accept_clients next_fd rs s
accept_clients next_fd (accept_failed ∷ rs) s = s
