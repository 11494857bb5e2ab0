-- ===== src/Server/Shutdown.antt =====
-- src/networking.c: when `net_run` ends. Only the test of `g_shutdown` at the head of its loop reads
-- what a signal has set.
use redis_in_c.Prelude.{ℕ, ◌≡◌, ◌∙◌, subst, refl, Bool, true, false, inl, inr, List, [], ◌∷◌, All}
use redis_in_c.Server.{Server}
use redis_in_c.Server.Loop.{
  Turn, on_signal, Looped, waiting, ended, fault, event_loop, teardown, after_loop, net_run,
}
use redis_in_c.Server.Running.{IsRunning, IsFresh}
use redis_in_c.Server.Lifetime.{
  IsHonest, IsQuiet, Signals, signalled-IsRunning, pick, on_wake-cases,
}

module _ (efd lfd : ℕ) (base : List ℕ) where
  module _ (next_fd : List ℕ → ℕ) (fresh : IsFresh next_fd) where
    abbrev Halts : Looped → Type 0
    Halts (waiting s) = ⊥
    Halts (ended s) = Unit
    Halts fault = ⊥

    halted :
        (turns : List Turn) (s : Server) → s.shutdown ≡ true → Halts (event_loop next_fd turns s)
    unfolding event_loop
    halted [] s e = pick Halts s.shutdown (ended s) (waiting s) (λ t. tt) (λ f. cc)
    halted (t ∷ ts) s e = pick Halts s.shutdown (ended s) _ (λ t. tt) (λ f. cc)

    event_loop-Halts :
        (turns : List Turn) (s : Server)
        → IsRunning efd lfd base s
        → All (λ (t : Turn). IsHonest t.wake) turns
        → Signals turns
        → Halts (event_loop next_fd turns s)
    unfolding event_loop on_signal
    event_loop-Halts [] s r h g = absurd g
    event_loop-Halts (t ∷ ts) s r h (inl e) =
        pick Halts s.shutdown (ended s) _ (λ q. tt)
          (λ f.
            on_wake-cases efd lfd base next_fd fresh Halts t.signalled (event_loop next_fd ts) s
              t.wake r h.0 (λ u ru q. halted ts (on_signal t.signalled u) (stopped t.signalled u e))
              (λ w. tt))
      where
        stopped : (b : Bool) (u : Server) → b ≡ true → (on_signal b u).shutdown ≡ true
        stopped true u e = refl
        stopped false u e = cc
    event_loop-Halts (t ∷ ts) s r h (inr g) =
        pick Halts s.shutdown (ended s) _ (λ q. tt)
          (λ f.
            on_wake-cases efd lfd base next_fd fresh Halts t.signalled (event_loop next_fd ts) s
              t.wake r h.0
              (λ u ru q.
                event_loop-Halts ts _ (signalled-IsRunning efd lfd base t.signalled u ru) h.1 g)
              (λ w. tt))

    -- From a server in order, where new descriptors are fresh and epoll_wait reports watched
    -- descriptors, each once, net_run returns within the turns that are given when a signal is
    -- handled in one of them.
    pub net_run-ended :
        (turns : List Turn) (s : Server)
        → IsRunning efd lfd base s
        → All (λ (t : Turn). IsHonest t.wake) turns
        → Signals turns
        → (t : Server) × (net_run next_fd turns s ≡ ended t)
    unfolding net_run
    net_run-ended turns s r h g =
        returned (event_loop next_fd turns s) (event_loop-Halts turns s r h g)
      where
        returned : (l : Looped) → Halts l → (t : Server) × (after_loop l ≡ ended t)
        returned (ended s) h = (teardown s, refl)
        returned (waiting s) h = absurd h
        returned fault h = absurd h

    abbrev Stays : Looped → Type 0
    Stays (waiting s) = Unit
    Stays (ended s) = ⊥
    Stays fault = ⊥

    event_loop-Stays :
        (turns : List Turn) (s : Server)
        → IsRunning efd lfd base s
        → s.shutdown ≡ false
        → All (λ (t : Turn). IsHonest t.wake × IsQuiet t.wake × (t.signalled ≡ false)) turns
        → Stays (event_loop next_fd turns s)
    unfolding event_loop on_signal
    event_loop-Stays [] s r e h = pick Stays s.shutdown (ended s) (waiting s) (λ t. cc) (λ f. tt)
    event_loop-Stays (t ∷ ts) s r e h =
        pick Stays s.shutdown (ended s) _ (λ q. cc)
          (λ f.
            on_wake-cases efd lfd base next_fd fresh Stays t.signalled (event_loop next_fd ts) s
              t.wake r h.0.0
              (λ u ru q.
                event_loop-Stays ts (on_signal t.signalled u)
                  (signalled-IsRunning efd lfd base t.signalled u ru)
                  (quiet t.signalled u h.0.2 (q h.0.1 ∙ e)) h.1)
              (λ w. absurd (subst IsQuiet w h.0.1)))
      where
        quiet :
            (b : Bool) (u : Server)
            → b ≡ false
            → u.shutdown ≡ false
            → (on_signal b u).shutdown ≡ false
        quiet true u e z = cc
        quiet false u e z = z

    -- From a server in order that has not been asked to shut down, where new descriptors are
    -- fresh and epoll_wait reports watched descriptors, each once, net_run goes on waiting,
    -- whatever the clients do, as long as no signal is handled and neither epoll_wait nor the
    -- listener fails.
    pub net_run-waiting :
        (turns : List Turn) (s : Server)
        → IsRunning efd lfd base s
        → s.shutdown ≡ false
        → All (λ (t : Turn). IsHonest t.wake × IsQuiet t.wake × (t.signalled ≡ false)) turns
        → (t : Server) × (net_run next_fd turns s ≡ waiting t)
    unfolding net_run
    net_run-waiting turns s r e h =
        stayed (event_loop next_fd turns s) (event_loop-Stays turns s r e h)
      where
        stayed : (l : Looped) → Stays l → (t : Server) × (after_loop l ≡ waiting t)
        stayed (waiting s) h = (s, refl)
        stayed (ended s) h = absurd h
        stayed fault h = absurd h
