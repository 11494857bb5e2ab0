-- ===== src/Server/Tests.antt =====
-- src/networking.c: the theorems about the event loop at concrete inputs.
use redis_in_c.Prelude.{◌≡◌, refl, arith, false, none, some, List, [], ◌∷◌}
use redis_in_c.Hashtable.{init}
use redis_in_c.Hashtable.Writes.{init-IsValid}
use redis_in_c.Hashtable.Sizes.{init-IsSized}
use redis_in_c.Server.{Server, accept_clients}
use redis_in_c.Server.Loop.{Event, on_listener, run_batch, ended, waiting, net_run}
use redis_in_c.Server.Setup.{net_init}
use redis_in_c.Server.Running.{IsRunning}
use redis_in_c.Server.Accepting.{Accepts, accept_clients-Accepts, new_client}
use redis_in_c.Server.Batches.{Runs, run_batch-Runs, new_conn-IsWorking}
use redis_in_c.Server.Shutdown.{net_run-ended, net_run-waiting}
use redis_in_c.Server.Opening.{InitOpens, Opens, net_init-Opens}
use redis_in_c.Server.Samples.{
  spare, spare-IsFresh, readable, arrivals, newest_pings, pings-IsHonest, calm_turns,
  calm_turns-IsQuiet, turns, turns-IsHonest, turns_signal, good_answers,
}

-- The server with one connection, 7, beside the listener 5, epoll 6 and the standard streams.
abbrev server : Server
server = record {
  store = init;
  heap = [];
  listen_fd = some 5;
  epoll_fd = some 6;
  conns = new_client 7 ∷ [];
  shutdown = false;
  files = 7 ∷ 6 ∷ 5 ∷ 2 ∷ 1 ∷ 0 ∷ [];
}

server-IsRunning : IsRunning 6 5 (2 ∷ 1 ∷ 0 ∷ []) server
server-IsRunning = record {
  table = init-IsValid;
  sized = init-IsSized;
  working = (new_conn-IsWorking, tt);
  epoll = refl;
  listen = refl;
  held = refl;
  distinct = omega arith;
}

accept_clients-Accepts_example :
    Accepts spare arrivals server (accept_clients spare arrivals server)
accept_clients-Accepts_example = accept_clients-Accepts spare arrivals server spare-IsFresh

abbrev events : List Event
events = on_listener readable arrivals ∷ newest_pings (7 ∷ [])

run_batch-Runs_example : Runs 6 5 (2 ∷ 1 ∷ 0 ∷ []) events server (run_batch spare events server)
run_batch-Runs_example =
    run_batch-Runs 6 5 (2 ∷ 1 ∷ 0 ∷ []) spare events server spare-IsFresh server-IsRunning
      (pings-IsHonest (7 ∷ []))

net_run-ended_example : (t : Server) × (net_run spare turns server ≡ ended t)
net_run-ended_example =
    net_run-ended 6 5 (2 ∷ 1 ∷ 0 ∷ []) spare spare-IsFresh turns server server-IsRunning
      turns-IsHonest turns_signal

net_run-waiting_example : (t : Server) × (net_run spare calm_turns server ≡ waiting t)
net_run-waiting_example =
    net_run-waiting 6 5 (2 ∷ 1 ∷ 0 ∷ []) spare spare-IsFresh calm_turns server server-IsRunning refl
      calm_turns-IsQuiet

-- The server at the start of the process.
abbrev unopened : Server
unopened = record {
  store = init;
  heap = [];
  listen_fd = none;
  epoll_fd = none;
  conns = [];
  shutdown = false;
  files = 2 ∷ 1 ∷ 0 ∷ [];
}

net_init-Opens_example :
    Opens (InitOpens good_answers) init unopened (net_init spare good_answers init unopened)
net_init-Opens_example =
    net_init-Opens spare good_answers init unopened spare-IsFresh
      (record { no_conns = refl; no_epoll = refl; distinct = omega arith }) init-IsValid
      init-IsSized
