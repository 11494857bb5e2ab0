-- ===== src/Server/Lifetime.antt =====
-- src/networking.c: the whole of `net_run`, from a server in order to the closed descriptors.
use redis_in_c.Prelude.{
  ℕ, ◌≡◌, ◌∙◌, refl, ap, Bool, true, false, ◌⊎◌, none, List, [], ◌∷◌, ◌++◌, All, if◌then◌else◌,
}
use redis_in_c.Hashtable.Sizes.{IsSized}
use redis_in_c.Hashtable.Inv
use redis_in_c.Server.{Client, Server, fds, close}
use redis_in_c.Server.Loop.{
  Wake, interrupted, wait_failed, batch, Turn, on_signal, Looped, waiting, ended, fault,
  after_batch, on_wake, event_loop, close_all, close_held, teardown, after_loop, net_run,
}
use redis_in_c.Server.Clients.{close-head}
use redis_in_c.Server.Batches.{Reports, IsCalm, run_batch-Runs}
use redis_in_c.Server.Running.{IsRunning, IsFresh}

-- The events are of watched descriptors, and no descriptor has two.
abbrev pub IsHonest : Wake → Type 0
IsHonest interrupted = Unit
IsHonest wait_failed = Unit
IsHonest (batch report) = (watched : List ℕ) → Reports (report watched) watched

-- A turn in which nothing but the clients acts.
abbrev pub IsQuiet : Wake → Type 0
IsQuiet interrupted = Unit
IsQuiet wait_failed = ⊥
IsQuiet (batch report) = (watched : List ℕ) → IsCalm (report watched)

-- In some turn a signal is handled.
abbrev pub Signals : List Turn → Type 0
Signals [] = ⊥
Signals (t ∷ ts) = (t.signalled ≡ true) ⊎ Signals ts

-- Everything that the server held is given back, but for the store.
pub record IsClosed (base : List ℕ) (s : Server) : Type 0 where
  pub table : redis_in_c.Hashtable.Inv.IsValid s.store
  pub sized : IsSized s.store
  pub no_conns : s.conns ≡ []
  pub given_back : s.files ≡ base
  pub no_epoll : s.epoll_fd ≡ none
  pub no_listener : s.listen_fd ≡ none

close_all-fds : (cs : List Client) (files : List ℕ) → close_all cs (fds cs ++ files) ≡ files
unfolding close_all
close_all-fds [] files = refl
close_all-fds (c ∷ cs) files =
    ap (close_all cs) (close-head c.fd (fds cs ++ files)) ∙ close_all-fds cs files

pub pick :
    (P : Looped → Type 0) (b : Bool) (x y : Looped)
    → (b ≡ true → P x)
    → (b ≡ false → P y)
    → P (if b then x else y)
pick P true x y f g = f refl
pick P false x y f g = g refl

module _ (efd lfd : ℕ) (base : List ℕ) where
  abbrev KeepsOrder : Looped → Type 0
  KeepsOrder (waiting s) = IsRunning efd lfd base s
  KeepsOrder (ended s) = IsRunning efd lfd base s
  KeepsOrder fault = ⊥

  -- Where `net_run` has ended all is closed, where it waits it is in order, and it never faults.
  abbrev pub IsSafe : Looped → Type 0
  IsSafe (waiting s) = IsRunning efd lfd base s
  IsSafe (ended s) = IsClosed base s
  IsSafe fault = ⊥

  teardown-IsClosed : (s : Server) → IsRunning efd lfd base s → IsClosed base (teardown s)
  unfolding teardown close_held
  teardown-IsClosed s r = record {
    table = r.table;
    sized = r.sized;
    no_conns = refl;
    given_back =
        rw (r.epoll, r.listen)
          (ap (λ f. close lfd (close efd f))
              (ap (close_all s.conns) r.held ∙ close_all-fds s.conns (efd ∷ lfd ∷ base))
            ∙ ap (close lfd) (close-head efd (lfd ∷ base))
            ∙ close-head lfd base);
    no_epoll = refl;
    no_listener = refl;
  }

  pub signalled-IsRunning :
      (b : Bool) (s : Server) → IsRunning efd lfd base s → IsRunning efd lfd base (on_signal b s)
  unfolding on_signal
  signalled-IsRunning false s r = r
  signalled-IsRunning true s r = record {
    table = r.table;
    sized = r.sized;
    working = r.working;
    epoll = r.epoll;
    listen = r.listen;
    held = r.held;
    distinct = r.distinct;
  }

  module _ (next_fd : List ℕ → ℕ) (fresh : IsFresh next_fd) where
    -- What a turn goes on with.
    pub on_wake-cases :
        (P : Looped → Type 0) (signalled : Bool) (loop : Server → Looped) (s : Server) (w : Wake)
        → IsRunning efd lfd base s
        → IsHonest w
        → ((u : Server)
            → IsRunning efd lfd base u
            → (IsQuiet w → u.shutdown ≡ s.shutdown)
            → P (loop (on_signal signalled u)))
        → (w ≡ wait_failed → P (ended (on_signal signalled s)))
        → P (on_wake next_fd signalled loop s w)
    unfolding on_wake after_batch
    on_wake-cases P signalled loop s interrupted r h go failed = go s r (λ q. refl)
    on_wake-cases P signalled loop s wait_failed r h go failed = failed refl
    on_wake-cases P signalled loop s (batch report) r h go failed =
        let runs =
          run_batch-Runs efd lfd base next_fd (report (fds s.conns)) s fresh r (h (fds s.conns)) in
        rw runs.ran (go runs.final runs.running (λ q. runs.quiet (q (fds s.conns))))

    event_loop-KeepsOrder :
        (turns : List Turn) (s : Server)
        → IsRunning efd lfd base s
        → All (λ (t : Turn). IsHonest t.wake) turns
        → KeepsOrder (event_loop next_fd turns s)
    unfolding event_loop
    event_loop-KeepsOrder [] s r h =
        pick KeepsOrder s.shutdown (ended s) (waiting s) (λ t. r) (λ f. r)
    event_loop-KeepsOrder (t ∷ ts) s r h =
        pick KeepsOrder s.shutdown (ended s) _ (λ q. r)
          (λ f.
            on_wake-cases KeepsOrder t.signalled (event_loop next_fd ts) s t.wake r h.0
              (λ u ru q. event_loop-KeepsOrder ts _ (signalled-IsRunning t.signalled u ru) h.1)
              (λ e. signalled-IsRunning t.signalled s r))

    -- From a server in order, whatever the clients, the signals and the system calls do, net_run
    -- never uses a freed connection and keeps every connection and the store valid; and where it
    -- ends, no connection is left, and the descriptors of the process are those from before
    -- net_init.
    pub net_run-IsSafe :
        (turns : List Turn) (s : Server)
        → IsRunning efd lfd base s
        → All (λ (t : Turn). IsHonest t.wake) turns
        → IsSafe (net_run next_fd turns s)
    unfolding net_run
    net_run-IsSafe turns s r h =
        closing (event_loop next_fd turns s) (event_loop-KeepsOrder turns s r h)
      where
        closing : (l : Looped) → KeepsOrder l → IsSafe (after_loop l)
        closing (waiting s) r = r
        closing (ended s) r = teardown-IsClosed s r
        closing fault r = r
