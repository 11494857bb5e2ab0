-- ===== src/Server/Samples.antt =====
-- src/networking.c: sample answers of the system calls, for the tests.
use redis_in_c.Prelude.{
  ℕ, suc, ◌+◌, ◌≤◌, ◌≡◌, ◌≢◌, refl, arith, inl, inr, true, false, codes, List, [], ◌∷◌, All,
}
use redis_in_c.Heap.{ok, fail}
use redis_in_c.Connection.{got, read_again, wrote}
use redis_in_c.Server.{AcceptResult, accepted, accept_interrupted, accept_again}
use redis_in_c.Server.Loop.{Ready, Io, Event, on_listener, on_client, Turn, batch, interrupted}
use redis_in_c.Server.Setup.{InitAnswers}
use redis_in_c.Server.Running.{IsFresh}
use redis_in_c.Server.Lifetime.{IsHonest, IsQuiet, Signals}

-- A descriptor above all those that are open.
abbrev pub spare : List ℕ → ℕ
spare [] = 3
spare (f ∷ fs) = suc (f + spare fs)

above_all : (n : ℕ) (files : List ℕ) → spare files ≤ n → All (λ g. g ≢ n) files
above_all n [] le = tt
above_all n (f ∷ fs) le = (λ e. absurd (omega arith), above_all n fs (omega arith))

pub spare-IsFresh : IsFresh spare
spare-IsFresh files = above_all (spare files) files (omega arith)

abbrev pub readable : Ready
readable = record { failed = false; readable = true; writable = true }

abbrev pub arrivals : List AcceptResult
arrivals = accepted ok ok ok ∷ accept_interrupted ∷ accepted ok fail ok ∷ accept_again ∷ []

abbrev pub ping_io : Io
ping_io = record {
  reads = got (codes "PING\r\n") ∷ read_again ∷ [];
  read_ctl = ok;
  writes = wrote 3 ∷ wrote 100 ∷ [];
  write_ctl = ok;
}

-- The newest connection, if there is one, sends a PING.
abbrev pub newest_pings : List ℕ → List Event
newest_pings [] = []
newest_pings (fd ∷ fds) = on_client fd readable ping_io ∷ []

abbrev pub calm_turns : List Turn
calm_turns =
    record { signalled = false; wake = batch (λ _. on_listener readable arrivals ∷ []) }
    ∷ record { signalled = false; wake = batch newest_pings }
    ∷ []

abbrev pub turns : List Turn
turns =
    record { signalled = false; wake = batch (λ _. on_listener readable arrivals ∷ []) }
    ∷ record { signalled = false; wake = batch newest_pings }
    ∷ record { signalled = true; wake = interrupted }
    ∷ []

pub pings-IsHonest : IsHonest (batch newest_pings)
pings-IsHonest [] = (tt, tt)
pings-IsHonest (fd ∷ fds) = ((tt, tt), (inl refl, tt))

pings-IsQuiet : IsQuiet (batch newest_pings)
pings-IsQuiet [] = tt
pings-IsQuiet (fd ∷ fds) = tt

pub turns-IsHonest : All (λ (t : Turn). IsHonest t.wake) turns
turns-IsHonest = (λ w. (tt, tt), (pings-IsHonest, (tt, tt)))

pub turns_signal : Signals turns
turns_signal = inr (inr (inl refl))

pub calm_turns-IsQuiet :
    All (λ (t : Turn). IsHonest t.wake × IsQuiet t.wake × (t.signalled ≡ false)) calm_turns
calm_turns-IsQuiet =
    ((λ w. (tt, tt), λ w. (refl, tt), refl), ((pings-IsHonest, pings-IsQuiet, refl), tt))

abbrev pub good_answers : InitAnswers
good_answers = record {
  listener = record {
    socket = ok;
    reuse_addr = ok;
    get_flags = ok;
    set_flags = ok;
    pton = ok;
    bind = ok;
    listen = ok;
  };
  create = ok;
  add = ok;
}
