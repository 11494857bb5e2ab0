-- ===== src/Server/Setup.antt =====
-- src/networking.c: `setup_listener` and `net_init`, as the chain of their system calls.
use redis_in_c.Prelude.{ℕ, Option, none, some, List, ◌∷◌}
use redis_in_c.Heap.{Rc, ok, fail}
use redis_in_c.Hashtable.{Hashtable}
use redis_in_c.Server.{Server, close, set_nonblock}

-- What the calls answer; `inet_pton` is `ok` where it answers 1.
pub record ListenAnswers : Type 0 where
  pub socket : Rc
  pub reuse_addr : Rc
  pub get_flags : Rc
  pub set_flags : Rc
  pub pton : Rc
  pub bind : Rc
  pub listen : Rc

-- A call behind which the function closes the socket and returns -1 where it has failed.
unfoldable pub or_close : Rc → ℕ → (List ℕ → Option ℕ × List ℕ) → List ℕ → Option ℕ × List ℕ
unfolding close
or_close ok fd k files = k files
or_close fail fd k files = (none, close fd files)

unfoldable pub configure : ListenAnswers → ℕ → List ℕ → Option ℕ × List ℕ
unfolding or_close set_nonblock
configure a fd = or_close a.reuse_addr fd (
    or_close (set_nonblock a.get_flags a.set_flags) fd
      (or_close a.pton fd (or_close a.bind fd (or_close a.listen fd (λ files. (some fd, files))))))

unfoldable pub setup_listener : (List ℕ → ℕ) → ListenAnswers → List ℕ → Option ℕ × List ℕ
unfolding configure
setup_listener next_fd a files = elim a.socket [
  | ok ↦ configure a (next_fd files) (next_fd files ∷ files)
  | fail ↦ (none, files)
]

pub record InitAnswers : Type 0 where
  pub listener : ListenAnswers
  pub create : Rc
  pub add : Rc

-- The listener is registered with the new epoll descriptor.
unfoldable pub register_listener : Rc → ℕ → ℕ → Server → Rc × Server
unfolding close
register_listener ok efd lfd s = (ok, record s { listen_fd = some lfd; epoll_fd = some efd })
register_listener fail efd lfd s =
    (fail, record s { listen_fd = none; epoll_fd = none; files = close lfd (close efd s.files) })

unfoldable pub create_epoll : (List ℕ → ℕ) → InitAnswers → ℕ → Server → Rc × Server
unfolding register_listener close
create_epoll next_fd a lfd s =
    let efd = next_fd s.files in
    elim a.create [
      | ok ↦ register_listener a.add efd lfd (record s { files = efd ∷ s.files })
      | fail ↦ (fail, record s { listen_fd = none; epoll_fd = none; files = close lfd s.files })
    ]

unfoldable pub with_listener : (List ℕ → ℕ) → InitAnswers → Server → Option ℕ × List ℕ → Rc × Server
unfolding create_epoll
with_listener next_fd a s (none, files) = (fail, record s { listen_fd = none; files = files })
with_listener next_fd a s (some lfd, files) =
    create_epoll next_fd a lfd (record s { files = files })

-- The handlers of the signals are not state of the model: see `signalled` in Loop.
unfoldable pub net_init : (List ℕ → ℕ) → InitAnswers → Hashtable → Server → Rc × Server
unfolding with_listener setup_listener
net_init next_fd a store s =
    with_listener next_fd a (record s { store = store }) (setup_listener next_fd a.listener s.files)
