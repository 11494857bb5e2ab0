-- ===== src/Main/Program.antt =====
-- src/main.c: `main`.
use redis_in_c.Prelude.{ℕ, Bool, false, none, List, []}
use redis_in_c.Heap.{Heap, Rc, ok, fail}
use redis_in_c.Hashtable.{Hashtable, init, destroy}
use redis_in_c.Command.Context.{Ctx}
use redis_in_c.Server.{Server}
use redis_in_c.Server.Loop.{Turn, on_signal, Looped, waiting, ended, fault, net_run}
use redis_in_c.Server.Setup.{InitAnswers, net_init}
use redis_in_c.Main.Table.{smoke_test}
use redis_in_c.Main.Commands.{command_smoke_test}

-- How the program stands: it serves its clients, has returned a status, or has used a freed node.
pub data Process : Type 0 where
  serving : Server → Process
  exited : ℕ → Server → Process
  crashed : Process

unfoldable pub destroy_store : Server → Server
unfolding destroy
destroy_store s = record s { store = destroy s.store }

unfoldable pub after_run : Looped → Process
unfolding destroy_store
after_run (waiting s) = serving s
after_run (ended s) = exited 0 (destroy_store s)
after_run fault = crashed

-- `early` says that a signal is handled between the installation of the handlers and the loop.
unfoldable pub after_init : (List ℕ → ℕ) → Bool → List Turn → Rc × Server → Process
unfolding after_run destroy_store net_run on_signal
after_init next_fd early turns (ok, s) = after_run (net_run next_fd turns (on_signal early s))
after_init next_fd early turns (fail, s) = exited 1 (destroy_store s)

-- The statics of the process at its start.
abbrev pub unopened : Hashtable → Heap → List ℕ → Server
unopened t h files = record {
  store = t;
  heap = h;
  listen_fd = none;
  epoll_fd = none;
  conns = [];
  shutdown = false;
  files = files;
}

-- The store and the allocator behind the self-tests.
unfoldable pub self_tested : Heap → Ctx
unfolding smoke_test command_smoke_test init
self_tested h =
    let (lines, t, h') = smoke_test h init in let (tally, c) = command_smoke_test h' t in c

unfoldable pub main : (List ℕ → ℕ) → InitAnswers → Bool → List Turn → Heap → List ℕ → Process
unfolding after_init net_init self_tested
main next_fd a early turns h files =
    let c = self_tested h in
    after_init next_fd early turns (net_init next_fd a c.store (unopened c.store c.heap files))
