-- ===== src/Main/Lifecycle.antt =====
-- src/main.c: from the start of the program to its exit.
use redis_in_c.Prelude.{ℕ, ◌≡◌, sym, subst, ◌⊎◌, inl, inr, refl, Bool, none, List, [], All}
use redis_in_c.Heap.{Heap, Rc, ok, fail}
use redis_in_c.Hashtable.{Hashtable, init, destroy}
use redis_in_c.Hashtable.Writes.{destroy-eq-init}
use redis_in_c.Server.{Server}
use redis_in_c.Server.Loop.{Turn, on_signal, Looped, waiting, ended, fault, net_run}
use redis_in_c.Server.Setup.{InitAnswers}
use redis_in_c.Server.Opening.{InitOpens, Opens, IsUnopened, net_init-Opens}
use redis_in_c.Server.Running.{IsRunning, IsFresh, Distinct}
use redis_in_c.Server.Lifetime.{IsHonest, IsSafe, signalled-IsRunning, net_run-IsSafe}
use redis_in_c.Main.Program.{
  Process, serving, exited, crashed, destroy_store, after_run, after_init, unopened, self_tested,
  main,
}
use redis_in_c.Main.Keeping.{self_tested-IsReady}
use redis_in_c.Hashtable.Inv

-- Nothing is held any more: no entry, no connection, and no descriptor that was not there.
pub record IsGivenBack (files : List ℕ) (s : Server) : Type 0 where
  pub no_entries : s.store ≡ init
  pub no_conns : s.conns ≡ []
  pub closed : s.files ≡ files
  pub no_epoll : s.epoll_fd ≡ none
  pub no_listener : s.listen_fd ≡ none

-- The ways in which the program may stand.
abbrev pub Lives : Type 0 → List ℕ → Process → Type 0
Lives opened files (serving s) = opened × ((efd : ℕ) × (lfd : ℕ) × IsRunning efd lfd files s)
Lives opened files (exited status s) =
    IsGivenBack files s × (((status ≡ 0) × opened) ⊎ ((status ≡ 1) × (¬ opened)))
Lives opened files crashed = ⊥

destroy_store-IsGivenBack :
    (files : List ℕ) (s : Server)
    → redis_in_c.Hashtable.Inv.IsValid s.store
    → s.conns ≡ []
    → s.files ≡ files
    → s.epoll_fd ≡ none
    → s.listen_fd ≡ none
    → IsGivenBack files (destroy_store s)
unfolding destroy_store
destroy_store-IsGivenBack files s v c f e l = record {
  no_entries = destroy-eq-init s.store v;
  no_conns = c;
  closed = f;
  no_epoll = e;
  no_listener = l;
}

after_run-Lives :
    (opened : Type 0) (efd lfd : ℕ) (files : List ℕ) (l : Looped)
    → opened
    → IsSafe efd lfd files l
    → Lives opened files (after_run l)
unfolding after_run
after_run-Lives opened efd lfd files (waiting s) o r = (o, (efd, lfd, r))
after_run-Lives opened efd lfd files (ended s) o r = (
  destroy_store-IsGivenBack files s r.table r.no_conns r.given_back r.no_epoll r.no_listener,
  inl (refl, o),
)
after_run-Lives opened efd lfd files fault o r = r

after_init-Lives :
    (opened : Type 0) (next_fd : List ℕ → ℕ) (early : Bool) (turns : List Turn)
    → (store : Hashtable) (h : Heap) (files : List ℕ) (out : Rc × Server) → IsFresh next_fd
    → All (λ (t : Turn). IsHonest t.wake) turns
    → Opens opened store (unopened store h files) out
    → redis_in_c.Hashtable.Inv.IsValid store
    → Lives opened files (after_init next_fd early turns out)
unfolding after_init
after_init-Lives opened next_fd early turns store h files (ok, s) f w (o, (efd, lfd, r, _, _, _))
      v =
    after_run-Lives opened efd lfd files (net_run next_fd turns (on_signal early s)) o (
      net_run-IsSafe efd lfd files next_fd f turns (on_signal early s)
        (signalled-IsRunning efd lfd files early s r) w)
after_init-Lives opened next_fd early turns store h files (fail, s) f w (n, (c, l, e, k, t)) v = (
  destroy_store-IsGivenBack files s (subst redis_in_c.Hashtable.Inv.IsValid (sym t) v) k c e l,
  inr (refl, n),
)

-- Whatever the allocator, the system calls, the clients and the signals do, as long as new
-- descriptors are fresh and epoll_wait reports watched descriptors, each once: the program never
-- uses a freed connection, and either still serves its clients with the server in order, or has
-- returned with the store emptied, no connection left and no descriptor open that was not open at
-- its start; it returns 1 only where a call of net_init has failed, and else 0.
pub main-Lives :
    (next_fd : List ℕ → ℕ) (a : InitAnswers) (early : Bool) (turns : List Turn) (h : Heap)
    → (files : List ℕ) → IsFresh next_fd
    → Distinct files
    → All (λ (t : Turn). IsHonest t.wake) turns
    → Lives (InitOpens a) files (main next_fd a early turns h files)
unfolding main
main-Lives next_fd a early turns h files f d w =
    let c = self_tested h in
    let r = self_tested-IsReady h in
    let start = unopened c.store c.heap files in
    let idle : IsUnopened start = record { no_conns = refl; no_epoll = refl; distinct = d } in
    after_init-Lives (InitOpens a) next_fd early turns c.store c.heap files _ f w
      (net_init-Opens next_fd a c.store start f idle r.table r.sized) r.table
