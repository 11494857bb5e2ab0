-- ===== src/Server/Batches.antt =====
-- src/networking.c: the batches of `net_run`. No event of a batch uses a freed connection.
use redis_in_c.Prelude.{
  ℕ, ◌≡◌, ◌≢◌, ◌∙◌, refl, sym, ap, subst, arith, Bool, true, false, Option, some, List, [], ◌∷◌,
  ◌++◌, All, append_assoc, if◌then◌else◌,
}
use redis_in_c.Bytebuf.{live_len}
use redis_in_c.Bytebuf.Inv.{init-IsValid}
use redis_in_c.Connection.{Conn, epollin}
use redis_in_c.Connection.Writing.{IsWorking}
use redis_in_c.Server.{Client, Server, conn_of, fds, new_conn, AcceptResult, accept_clients}
use redis_in_c.Server.Loop.{Ready, Event, on_listener, on_client, client_event, run_batch}
use redis_in_c.Server.Accepting.{Accepts, accept_clients-Accepts, fds-append}
use redis_in_c.Server.Running.{IsRunning, Distinct, IsIn, IsFresh, conn_of-ne, conn_of-IsIn}
use redis_in_c.Server.Serving.{client_event-Keeps}

-- The connections that a batch has events of.
abbrev pub clients : List Event → List ℕ
clients [] = []
clients (on_listener ready answers ∷ events) = clients events
clients (on_client fd ready io ∷ events) = fd ∷ clients events

-- `epoll_wait` reports descriptors that it watches, and each of them once.
abbrev pub Reports : List Event → List ℕ → Type 0
Reports events watched = Distinct (clients events) × All (λ fd. IsIn fd watched) (clients events)

-- The listener is not in error.
abbrev pub IsCalm : List Event → Type 0
IsCalm [] = Unit
IsCalm (on_listener ready answers ∷ events) = (ready.failed ≡ false) × IsCalm events
IsCalm (on_client fd ready io ∷ events) = IsCalm events

abbrev IsLive : Server → ℕ → Type 0
IsLive s fd = (k : Conn) × (conn_of fd s.conns ≡ some k)

map-IsLive :
    (s t : Server) (P : ℕ → Type 0) (names : List ℕ)
    → ((g : ℕ) → P g → IsLive s g → IsLive t g)
    → All P names
    → All (IsLive s) names
    → All (IsLive t) names
map-IsLive s t P [] f p h = tt
map-IsLive s t P (g ∷ gs) f p h = (f g p.0 h.0, map-IsLive s t P gs f p.1 h.1)

All-IsLive :
    (s : Server) (names : List ℕ) → All (λ fd. IsIn fd (fds s.conns)) names → All (IsLive s) names
All-IsLive s [] h = tt
All-IsLive s (g ∷ gs) h = (conn_of-IsIn g s.conns h.0, All-IsLive s gs h.1)

pub new_conn-IsWorking : IsWorking (new_conn epollin)
unfolding live_len
new_conn-IsWorking = record {
  input = init-IsValid;
  output = init-IsValid;
  armed = (refl, omega arith);
}

All-IsWorking :
    (new cs : List Client)
    → All (λ (c : Client). c.conn ≡ new_conn epollin) new
    → All (λ (c : Client). IsWorking c.conn) cs
    → All (λ (c : Client). IsWorking c.conn) (new ++ cs)
All-IsWorking [] cs h w = w
All-IsWorking (c ∷ new) cs h w =
    (subst IsWorking (sym h.0) new_conn-IsWorking, All-IsWorking new cs h.1 w)

-- The new connections hide none of those that are there.
conn_of-behind :
    (new cs : List Client) (base : List ℕ) (g : ℕ) (k : Conn)
    → Distinct (fds (new ++ cs) ++ base)
    → conn_of g cs ≡ some k
    → conn_of g (new ++ cs) ≡ some k
unfolding conn_of
conn_of-behind [] cs base g k d e = e
conn_of-behind (c ∷ new) cs base g k d e =
    let found = conn_of-behind new cs base g k d.1 e in
    let ne = conn_of-ne g c.fd (new ++ cs) base k d.0 found in ground (arith, found, ne)

module _ (efd lfd : ℕ) (base : List ℕ) where
  pub accept-IsRunning :
      (next_fd : List ℕ → ℕ) (rs : List AcceptResult) (s t : Server)
      → Accepts next_fd rs s t
      → IsRunning efd lfd base s
      → IsRunning efd lfd base t
  accept-IsRunning next_fd rs s t a r = subst (IsRunning efd lfd base) (sym a.added) (record {
    table = r.table;
    sized = r.sized;
    working = All-IsWorking a.new s.conns a.opened r.working;
    epoll = r.epoll;
    listen = r.listen;
    held =
        ap (λ u. fds a.new ++ u) r.held
        ∙ sym (append_assoc (fds a.new) (fds s.conns) (efd ∷ lfd ∷ base))
        ∙ ap (λ u. u ++ efd ∷ lfd ∷ base) (sym (fds-append a.new s.conns));
    distinct = a.distinct r.distinct;
  })

  pub accept-IsLive :
      (next_fd : List ℕ → ℕ) (rs : List AcceptResult) (s t : Server)
      → Accepts next_fd rs s t
      → IsRunning efd lfd base s
      → (g : ℕ) (k : Conn) → conn_of g s.conns ≡ some k
      → conn_of g t.conns ≡ some k
  accept-IsLive next_fd rs s t a r g k e =
      let r' = accept-IsRunning next_fd rs s t a r in
      let cs : t.conns ≡ a.new ++ s.conns = ap (λ (u : Server). u.conns) a.added in
      let d = subst Distinct (r'.held ∙ ap (λ u. fds u ++ efd ∷ lfd ∷ base) cs) r'.distinct in
      ap (conn_of g) cs ∙ conn_of-behind a.new s.conns (efd ∷ lfd ∷ base) g k d e

  -- What a batch makes of the server.
  pub record Runs (events : List Event) (s : Server) (out : Option Server) : Type 0 where
    pub final : Server
    pub ran : out ≡ some final
    pub running : IsRunning efd lfd base final
    pub others :
        (g : ℕ) (k : Conn)
        → All (λ f. f ≢ g) (clients events)
        → conn_of g s.conns ≡ some k
        → conn_of g final.conns ≡ some k
    pub quiet : IsCalm events → final.shutdown ≡ s.shutdown

  stop-Runs :
      (ready : Ready) (rs : List AcceptResult) (events : List Event) (s u : Server)
      → (rest : Option Server)
      → ((g : ℕ) (k : Conn) → conn_of g s.conns ≡ some k → conn_of g u.conns ≡ some k)
      → IsRunning efd lfd base s
      → Runs events u rest
      → u.shutdown ≡ s.shutdown
      → (b : Bool) → ready.failed ≡ b
      → Runs
          (on_listener ready rs ∷ events)
          s
          (if b then some (record s { shutdown = true }) else rest)
  stop-Runs ready rs events s u rest keep r ih same true t = record {
    final = record s { shutdown = true };
    ran = refl;
    running = record {
      table = r.table;
      sized = r.sized;
      working = r.working;
      epoll = r.epoll;
      listen = r.listen;
      held = r.held;
      distinct = r.distinct;
    };
    others = λ g k n e. e;
    quiet = λ calm. cc (calm.0);
  }
  stop-Runs ready rs events s u rest keep r ih same false n = record {
    final = ih.final;
    ran = ih.ran;
    running = ih.running;
    others = λ g k n e. ih.others g k n (keep g k e);
    quiet = λ calm. ih.quiet calm.1 ∙ same;
  }

  run_batch-Live :
      (next_fd : List ℕ → ℕ) (events : List Event) (s : Server)
      → IsFresh next_fd
      → IsRunning efd lfd base s
      → Distinct (clients events)
      → All (IsLive s) (clients events)
      → Runs events s (run_batch next_fd events s)
  unfolding run_batch
  run_batch-Live next_fd [] s f r d live = record {
    final = s;
    ran = refl;
    running = r;
    others = λ g k n e. e;
    quiet = λ calm. refl;
  }
  run_batch-Live next_fd (on_listener ready rs ∷ events) s f r d live =
      let t = accept_clients next_fd rs s in
      let a = accept_clients-Accepts next_fd rs s f in
      let keep = accept-IsLive next_fd rs s t a r in
      stop-Runs ready rs events s t (run_batch next_fd events t) keep r
        (run_batch-Live next_fd events t f (accept-IsRunning next_fd rs s t a r) d
          (map-IsLive s t (IsLive s) (clients events) (λ g p (k, e). (k, keep g k e)) live live))
        (ap (λ (u : Server). u.shutdown) a.added) ready.failed refl
  run_batch-Live next_fd (on_client fd ready io ∷ events) s f r d live =
      let (k, e) = live.0 in
      let t = client_event fd ready io k s in
      let kept = client_event-Keeps efd lfd base fd ready io k s r e in
      let ih = run_batch-Live next_fd events t f kept.running d.1 (
        map-IsLive s t (λ g. g ≢ fd) (clients events)
          (λ g ne (k, e). (k, kept.others g (λ q. ne (sym q)) ∙ e)) d.0 live.1) in
      rw (e, run_batch)
        (record {
          final = ih.final;
          ran = ih.ran;
          running = ih.running;
          others = λ g k n e. ih.others g k n.1 (kept.others g n.0 ∙ e);
          quiet = λ calm. ih.quiet calm ∙ kept.quiet;
        })

  -- From a server in order, a batch of events of distinct live connections and of the listener
  -- never uses a connection that an earlier event has freed, leaves the server in order, does not
  -- touch the connections that were there and that it has no event of, and asks for no shutdown
  -- unless the listener is in error.
  pub run_batch-Runs :
      (next_fd : List ℕ → ℕ) (events : List Event) (s : Server)
      → IsFresh next_fd
      → IsRunning efd lfd base s
      → Reports events (fds s.conns)
      → Runs events s (run_batch next_fd events s)
  run_batch-Runs next_fd events s f r (d, watched) =
      run_batch-Live next_fd events s f r d (All-IsLive s (clients events) watched)
