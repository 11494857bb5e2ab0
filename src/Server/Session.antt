-- ===== src/Server/Session.antt =====
-- src/networking.c: `net_run` over turns that bring events of clients.
use redis_in_c.Prelude.{
  ℕ, ◌≡◌, ◌∙◌, refl, sym, ap, Bool, true, false, if◌then◌else◌, Bytes, inl, inr, Option,
  Option-cases, none, some, List, [], ◌∷◌, ◌++◌, All, map,
}
use redis_in_c.Heap.{Rc, ok, fail}
use redis_in_c.Resp.Outcome.{need_more}
use redis_in_c.Resp.Request.{parse_request}
use redis_in_c.Connection.{Conn}
use redis_in_c.Connection.Serial.{Command}
use redis_in_c.Server.{Server, fds, conn_of, close_conn, AcceptResult, accept_clients}
use redis_in_c.Server.Loop.{
  Ready, Io, Turn, batch, interrupted, Looped, waiting, ended, fault, after_write, write_event,
  after_read, client_event, run_batch, on_signal, after_batch, on_wake, event_loop, after_loop,
  net_run,
}
use redis_in_c.Server.Accepting.{accept_clients-Accepts}
use redis_in_c.Server.Running.{IsRunning, IsFresh}
use redis_in_c.Server.Services.{Occasion, serves, admits, occurs, services_of, IsFair, IsWatched}
use redis_in_c.Server.Linear.{AreOpen, Linear}
use redis_in_c.Server.History.{run_batch-Linear}

-- An event of a client does not ask for a shutdown.
abbrev IsQuiet : Server → Server → Type 0
IsQuiet s t = t.shutdown ≡ s.shutdown

IsQuiet-if :
    (b : Bool) (s x y : Server) → IsQuiet s x → IsQuiet s y → IsQuiet s (if b then x else y)
IsQuiet-if true s x y f g = f
IsQuiet-if false s x y f g = g

IsQuiet-rc :
    (rc : Rc) (s x y : Server)
    → IsQuiet s x
    → IsQuiet s y
    → IsQuiet s (elim rc [ ok ↦ x | fail ↦ y ])
IsQuiet-rc ok s x y f g = f
IsQuiet-rc fail s x y f g = g

after_write-IsQuiet : (fd : ℕ) (s : Server) (out : Rc × Conn) → IsQuiet s (after_write fd s out)
unfolding after_write close_conn
after_write-IsQuiet fd s (ok, c) = refl
after_write-IsQuiet fd s (fail, c) = refl

client_event-IsQuiet :
    (fd : ℕ) (ready : Ready) (io : Io) (k : Conn) (s : Server)
    → IsQuiet s (client_event fd ready io k s)
unfolding client_event after_read write_event close_conn
client_event-IsQuiet fd ready io k s = IsQuiet-if ready.failed s _ _ refl (
    IsQuiet-if ready.readable s _ _
      (IsQuiet-rc _ s _ _ (IsQuiet-if ready.writable s _ _ (after_write-IsQuiet fd _ _) refl) refl)
      (IsQuiet-if ready.writable s _ _ (after_write-IsQuiet fd s _) refl))

skip_if {ℓ} : {A : Type ℓ} (b : Bool) (x y : A) → b ≡ false → (if b then x else y) ≡ y
skip_if true x y e = cc
skip_if false x y e = refl

All-split : (P : Occasion → Type 0) (xs ys : List Occasion) → All P (xs ++ ys) → All P xs × All P ys
All-split P [] ys h = (tt, h)
All-split P (x ∷ xs) ys (p, h) = let (hx, hy) = All-split P xs ys h in ((p, hx), hy)

-- What an undisturbed turn brings: an interrupted wait, or these events.
abbrev pub Round : Type 0
Round = Option (List Occasion)

abbrev pub turn_of : Round → Turn
turn_of none = record { signalled = false; wake = interrupted }
turn_of (some es) = record { signalled = false; wake = batch (λ watched. map occurs es) }

abbrev pub all_of : List Round → List Occasion
all_of [] = []
all_of (none ∷ ts) = all_of ts
all_of (some es ∷ ts) = es ++ all_of ts

accept_clients-IsQuiet :
    (next_fd : List ℕ → ℕ) (answers : List AcceptResult) (s : Server)
    → IsFresh next_fd
    → IsQuiet s (accept_clients next_fd answers s)
accept_clients-IsQuiet next_fd answers s f =
    ap (λ (u : Server). u.shutdown) (accept_clients-Accepts next_fd answers s f).added

-- A run over two batches stops between them.
record Split (next_fd : List ℕ → ℕ) (es fs : List Occasion) (s t : Server) : Type 0 where
  stop : Server
  first : run_batch next_fd (map occurs es) s ≡ some stop
  then_on : run_batch next_fd (map occurs fs) stop ≡ some t
  quiet : IsQuiet s stop

module _ (IsClient : ℕ → Type 0) (next_fd : List ℕ → ℕ) (fresh : IsFresh next_fd) where
  between :
      (es fs : List Occasion) (s t : Server)
      → All (IsFair IsClient) es
      → run_batch next_fd (map occurs (es ++ fs)) s ≡ some t
      → Split next_fd es fs s t
  unfolding run_batch
  between [] fs s t h e = record { stop = s; first = refl; then_on = e; quiet = refl }
  between (serves v ∷ es) fs s t h e = elim (Option-cases (conn_of v.fd s.conns)) [
    | inl n ↦ cc (rw (n, run_batch) at e)
    | inr (k, here) ↦
        let u = client_event v.fd v.ready v.io k s in
        let x = between es fs u t h.1 (rw (here, run_batch) at e) in
        record {
          stop = x.stop;
          first = rw (here, run_batch) x.first;
          then_on = x.then_on;
          quiet = x.quiet ∙ client_event-IsQuiet v.fd v.ready v.io k s;
        }
  ]
  between (admits ready answers ∷ es) fs s t (healthy, h) e =
      let x =
        between es fs (accept_clients next_fd answers s) t h
          (sym (skip_if ready.failed _ _ healthy) ∙ e) in
      record {
        stop = x.stop;
        first = skip_if ready.failed _ _ healthy ∙ x.first;
        then_on = x.then_on;
        quiet = x.quiet ∙ accept_clients-IsQuiet next_fd answers s fresh;
      }

  event_loop_waits :
      (ts : List Round) (s t : Server)
      → All (IsFair IsClient) (all_of ts)
      → run_batch next_fd (map occurs (all_of ts)) s ≡ some t
      → s.shutdown ≡ false
      → event_loop next_fd (map turn_of ts) s ≡ waiting t
  unfolding event_loop on_wake after_batch on_signal run_batch
  event_loop_waits [] s t h e up =
      skip_if s.shutdown _ (waiting s) up ∙ ap waiting (let same : s ≡ t = cc in same)
  event_loop_waits (none ∷ ts) s t h e up =
      skip_if s.shutdown _ _ up ∙ event_loop_waits ts s t h e up
  event_loop_waits (some es ∷ ts) s t h e up =
      let (hes, hts) = All-split (IsFair IsClient) es (all_of ts) h in
      let x = between es (all_of ts) s t hes e in
      skip_if s.shutdown _ _ up
      ∙ ap (after_batch false (event_loop next_fd (map turn_of ts))) x.first
      ∙ event_loop_waits ts x.stop t hts x.then_on (x.quiet ∙ up)

-- The server that the loop waits with.
abbrev pub waited : Looped → Option Server
waited (waiting s) = some s
waited (ended s) = none
waited fault = none

module _ (IsClient : ℕ → Type 0) (rest : ℕ → Bytes)
    (waits : (g : ℕ) → IsClient g → parse_request (rest g) ≡ need_more) (next_fd : List ℕ → ℕ)
    (fresh : IsFresh next_fd) (efd lfd : ℕ) (base : List ℕ) where
  -- From a server in order that has not been asked to shut down, with no allocation refused and
  -- fresh descriptors, for clients that are connected and wait for the rest of a command, or are
  -- still to be accepted, and for turns of net_run that are interrupted or bring events of the
  -- listener, which is not in error, and of these clients, readable, writable or both, each of a
  -- descriptor that is watched by then, with no signal, no peer that hangs up or fails, and
  -- epoll_ctl successful: where all that each client has sent, wherever it is cut into events, is
  -- commands other than KEYS and DBSIZE with sendable arguments, one behind the other, and an
  -- unfinished rest, and what arrives for each, and the replies to whatever part of the commands
  -- comes first in whatever order, fit under 16 MiB, net_run waits for further events and no
  -- event has used a connection that is not there, and there is one order of the commands of all
  -- clients, and of no others, which keeps the order of each client and in which the commands
  -- that have arrived whole when an event is over come before those that have not, such that
  -- every lookup finds what a key-value machine holds behind them, what the socket of each client
  -- has taken and what is still to be sent to it are its old such bytes and the encoded replies
  -- of that machine to its commands, and its rest is unread.
  pub net_run-Linear :
      (ts : List Round) (s : Server) (conns : ℕ → Conn) (asks : ℕ → List Command)
      → s.shutdown ≡ false
      → All (IsFair IsClient) (all_of ts)
      → IsRunning efd lfd base s
      → IsWatched next_fd (efd ∷ lfd ∷ base) (fds s.conns) (all_of ts)
      → AreOpen IsClient rest s conns asks (services_of (all_of ts))
      → Linear IsClient rest next_fd s conns asks
          (all_of ts)
          (waited (net_run next_fd (map turn_of ts) s))
  unfolding net_run after_loop
  net_run-Linear ts s conns asks up h r w a =
      let x =
        run_batch-Linear IsClient rest waits next_fd fresh efd lfd base (all_of ts) s conns asks h r
          w a in
      let loop = event_loop_waits IsClient next_fd fresh ts s x.final h x.ran up in
      record {
        final = x.final;
        ran = ap (λ o. waited (after_loop o)) loop;
        order = x.order;
        whole = x.whole;
        owned = x.owned;
        prompt = x.prompt;
        store = x.store;
        told = x.told;
      }
