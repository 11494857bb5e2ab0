-- ===== src/Server/Listening.antt =====
-- src/networking.c: `setup_listener` either opens the listener or closes its socket.
use redis_in_c.Prelude.{ℕ, ◌≡◌, refl, Option, none, some, List, ◌∷◌}
use redis_in_c.Heap.{Rc, ok, fail}
use redis_in_c.Server.{set_nonblock}
use redis_in_c.Server.Clients.{close-head}
use redis_in_c.Server.Setup.{ListenAnswers, or_close, configure, setup_listener}

-- The listener is open behind the descriptors that were, and `P` holds; or they are what they were.
abbrev pub Listens : Type 0 → ℕ → List ℕ → Option ℕ × List ℕ → Type 0
Listens P fd base (some g, files) = (g ≡ fd) × (files ≡ fd ∷ base) × P
Listens P fd base (none, files) = (files ≡ base) × ¬ P

Listens-map :
    (P Q : Type 0) (fd : ℕ) (base : List ℕ) (r : Option ℕ × List ℕ)
    → (P → Q)
    → (Q → P)
    → Listens P fd base r
    → Listens Q fd base r
Listens-map P Q fd base (some g, files) f b l = (l.0, l.1, f l.2)
Listens-map P Q fd base (none, files) f b l = (l.0, λ q. l.1 (b q))

or_close-Listens :
    (P : Type 0) (rc : Rc) (fd : ℕ) (base : List ℕ) (k : List ℕ → Option ℕ × List ℕ)
    → Listens P fd base (k (fd ∷ base))
    → Listens ((rc ≡ ok) × P) fd base (or_close rc fd k (fd ∷ base))
unfolding or_close
or_close-Listens P ok fd base k l =
    Listens-map P ((ok ≡ ok) × P) fd base (k (fd ∷ base)) (λ p. (refl, p)) (λ q. q.1) l
or_close-Listens P fail fd base k l = (close-head fd base, λ (e, p). cc)

-- Every call that `setup_listener` makes succeeds.
abbrev pub ListenerOpens : ListenAnswers → Type 0
ListenerOpens a =
    (a.socket ≡ ok)
    × (a.reuse_addr ≡ ok)
    × (a.get_flags ≡ ok)
    × (a.set_flags ≡ ok)
    × (a.pton ≡ ok)
    × (a.bind ≡ ok)
    × (a.listen ≡ ok)

nonblocking : (get set : Rc) → set_nonblock get set ≡ ok → (get ≡ ok) × (set ≡ ok)
unfolding set_nonblock
nonblocking ok ok e = (refl, refl)
nonblocking ok fail e = cc
nonblocking fail set e = cc

nonblocking_back : (get set : Rc) → get ≡ ok → set ≡ ok → set_nonblock get set ≡ ok
unfolding set_nonblock
nonblocking_back get set e f = rw (e, f) refl

abbrev Configured : ListenAnswers → Type 0
Configured a =
    (a.reuse_addr ≡ ok)
    × ((set_nonblock a.get_flags a.set_flags ≡ ok)
        × ((a.pton ≡ ok) × ((a.bind ≡ ok) × ((a.listen ≡ ok) × Unit {0}))))

configure-Listens :
    (a : ListenAnswers) (fd : ℕ) (base : List ℕ)
    → Listens (Configured a) fd base (configure a fd (fd ∷ base))
unfolding configure
configure-Listens a fd base = or_close-Listens _ a.reuse_addr fd base _ (
    or_close-Listens _ (set_nonblock a.get_flags a.set_flags) fd base _ (
      or_close-Listens _ a.pton fd base _ (
        or_close-Listens _ a.bind fd base _
          (or_close-Listens Unit a.listen fd base (λ files. (some fd, files)) (refl, refl, tt)))))

at_socket :
    (rc : Rc) (a : ListenAnswers) (fd : ℕ) (base : List ℕ)
    → Listens
        ((rc ≡ ok) × Configured a)
        fd
        base
        (elim rc [ ok ↦ configure a fd (fd ∷ base) | fail ↦ (none, base) ])
at_socket ok a fd base =
    Listens-map (Configured a) ((ok ≡ ok) × Configured a) fd base (configure a fd (fd ∷ base))
      (λ p. (refl, p)) (λ q. q.1) (configure-Listens a fd base)
at_socket fail a fd base = (refl, λ (e, p). cc)

pub setup_listener-Listens :
    (next_fd : List ℕ → ℕ) (a : ListenAnswers) (base : List ℕ)
    → Listens (ListenerOpens a) (next_fd base) base (setup_listener next_fd a base)
unfolding setup_listener
setup_listener-Listens next_fd a base =
    Listens-map ((a.socket ≡ ok) × Configured a) (ListenerOpens a) (next_fd base) base _
      (λ (s, (r, (n, (p, (b, (l, _)))))).
        let (g, f) = nonblocking a.get_flags a.set_flags n in (s, r, g, f, p, b, l))
      (λ (s, r, g, f, p, b, l).
        (s, (r, (nonblocking_back a.get_flags a.set_flags g f, (p, (b, (l, tt)))))))
      (at_socket a.socket a (next_fd base) base)
