-- ===== src/Server/Crossing.antt =====
-- src/networking.c: a SET of one client is cut between two turns, and a SETNX of another client to the
-- same key, and the coming of a new client, which sends a SETNX to
-- the key as well, come between.
use redis_in_c.Prelude.{
  ℕ, ◌+◌, ◌*◌, ◌≤◌, ◌≡◌, ◌⊎◌, refl, sym, subst, arith, inl, inr, false, true, Bytes, Option, none,
  some, List, [], ◌∷◌, length, All, codes, map, ◌==◌, if◌then◌else◌,
}
use redis_in_c.Heap.{ok}
use redis_in_c.Bytebuf
use redis_in_c.Bytebuf.{live, max_cap}
use redis_in_c.Bytebuf.Inv.{init-IsValid}
use redis_in_c.Hashtable.{init}
use redis_in_c.Hashtable.Writes.{init-IsValid as init_table-IsValid}
use redis_in_c.Hashtable.Sizes.{init-IsSized}
use redis_in_c.Decimal.{print_nat, print_int}
use redis_in_c.Resp.Outcome.{need_more}
use redis_in_c.Resp.Request.{parse_request}
use redis_in_c.Resp.RoundTrip.{encode_request}
use redis_in_c.Resp.Reply.{encode}
use redis_in_c.Command.Dispatch.{to_upper}
use redis_in_c.Command.Machine.{put, setnx, perform, put_missing}
use redis_in_c.Command.Refines.{view}
use redis_in_c.Command.Performs.{entry_of}
use redis_in_c.Connection.{Conn, got, read_again, WriteResult, wrote, epollin}
use redis_in_c.Connection.Conversation.{IsWaiting}
use redis_in_c.Connection.Serial.{Command, IsAsked}
use redis_in_c.Server.{Server, fds, new_conn, conn_of}
use redis_in_c.Server.Loop.{net_run}
use redis_in_c.Server.Accepting.{new_client}
use redis_in_c.Server.Samples.{spare, spare-IsFresh, readable, arrivals}
use redis_in_c.Server.Running.{IsRunning, Distinct}
use redis_in_c.Server.Batches.{new_conn-IsWorking}
use redis_in_c.Server.Services.{Service, serves, admits, services_of, IsFair, IsWatched}
use redis_in_c.Server.Stepping.{talk_of, Opens}
use redis_in_c.Server.Linear.{arrived_at, Stands, AreOpen, Linear}
use redis_in_c.Server.Room.{IsShort, short-AllFit}
use redis_in_c.Server.Session.{Round, turn_of, all_of, waited, net_run-Linear}

abbrev server : Server
server = record {
  store = init;
  heap = [];
  listen_fd = some 5;
  epoll_fd = some 6;
  conns = new_client 8 ∷ new_client 7 ∷ [];
  shutdown = false;
  files = 8 ∷ 7 ∷ 6 ∷ 5 ∷ 2 ∷ 1 ∷ 0 ∷ [];
}

abbrev IsClient : ℕ → Type 0
IsClient g = (g ≡ 7) ⊎ ((g ≡ 8) ⊎ (g ≡ 39))

abbrev nothing : ℕ → Bytes
nothing g = []

abbrev service : ℕ → Bytes → List WriteResult → Service
service fd text writes = record {
  fd = fd;
  ready = record { failed = false; readable = true; writable = true };
  io = record {
    reads = got text ∷ read_again ∷ [];
    read_ctl = ok;
    writes = writes;
    write_ctl = ok;
  };
}

abbrev setnx_text : Bytes
setnx_text = codes "*3\r\n$5\r\nsetnx\r\n$1\r\nk\r\n$1\r\nw\r\n"

abbrev rounds : List Round
rounds =
    some (
      serves (service 7 (codes "*3\r\n$3\r\nSET\r\n$1\r") [])
      ∷ admits readable arrivals
      ∷ serves (service 8 setnx_text (wrote 1 ∷ wrote 9 ∷ []))
      ∷ [])
    ∷ none
    ∷ some (
        serves (service 39 setnx_text (wrote 9 ∷ []))
        ∷ serves (service 7 (codes "\nk\r\n$1\r\nv\r\n") (wrote 3 ∷ []))
        ∷ [])
    ∷ []

abbrev set_k : Command
set_k = (codes "SET", put (codes "k") (codes "v"))

abbrev setnx_k : Command
setnx_k = (codes "setnx", setnx (codes "k") (codes "w"))

abbrev asks : ℕ → List Command
asks g = if g == 7 then set_k ∷ [] else setnx_k ∷ []

abbrev conns : ℕ → Conn
conns g = new_conn epollin

nothing_waits : parse_request [] ≡ need_more
unfolding parse_request
nothing_waits = refl

no_bytes : length (live redis_in_c.Bytebuf.init) ≡ 0
unfolding live
no_bytes = refl

waiting : IsWaiting (talk_of (new_conn epollin) server)
unfolding live
waiting = record {
  sound = record {
    table = init_table-IsValid;
    sized = init-IsSized;
    input = init-IsValid;
    output = init-IsValid;
  };
  calm = refl;
  still_open = refl;
  idle = nothing_waits;
}

set_k-IsAsked : IsAsked set_k
set_k-IsAsked = (
  unfold entry_of to_upper in refl,
  (omega arith, omega arith, (omega arith, (omega arith, (omega arith, tt)))),
)

setnx_k-IsAsked : IsAsked setnx_k
setnx_k-IsAsked = (
  unfold entry_of to_upper in refl,
  (omega arith, omega arith, (omega arith, (omega arith, (omega arith, tt)))),
)

set_k-IsShort : IsShort set_k
unfolding perform
set_k-IsShort m = omega arith

setnx_k-IsShort : IsShort setnx_k
unfolding perform put_missing print_nat print_int
setnx_k-IsShort m = either (m (codes "k"))
  where
    either : (o : Option Bytes) → length (encode (put_missing (codes "k") (codes "w") o m).0) ≤ 64
    either none = omega arith
    either (some old) = omega arith

-- Each of the clients.
each : (P : ℕ → Type 0) → P 7 → P 8 → P 39 → (g : ℕ) → IsClient g → P g
each P a b c g (inl e) = subst P (sym e) a
each P a b c g (inr (inl e)) = subst P (sym e) b
each P a b c g (inr (inr e)) = subst P (sym e) c

abbrev OpensAt : ℕ → Type 0
OpensAt g = Opens server (conns g) (asks g) [] (arrived_at g (services_of (all_of rounds)))

Opens-7 : OpensAt 7
Opens-7 = record {
  waiting = waiting;
  short = omega (arith, no_bytes);
  text = unfold live encode_request print_nat in refl;
  asked = (set_k-IsAsked, tt);
}

Opens-8 : OpensAt 8
Opens-8 = record {
  waiting = waiting;
  short = omega (arith, no_bytes);
  text = unfold live encode_request print_nat in refl;
  asked = (setnx_k-IsAsked, tt);
}

Opens-39 : OpensAt 39
Opens-39 = record {
  waiting = waiting;
  short = omega (arith, no_bytes);
  text = unfold live encode_request print_nat in refl;
  asked = (setnx_k-IsAsked, tt);
}

clients : AreOpen IsClient nothing server conns asks (services_of (all_of rounds))
unfolding conn_of
clients = record {
  calm = refl;
  places = each (λ g. Stands g server (conns g)) (inl refl) (inl refl) (inr (refl, refl));
  opens = each OpensAt Opens-7 Opens-8 Opens-39;
  room =
      short-AllFit IsClient nothing (view init) conns asks
        (each (λ g. All IsShort (asks g)) (set_k-IsShort, tt) (setnx_k-IsShort, tt)
          (setnx_k-IsShort, tt))
        (each (λ g. length (live (conns g).out_buf) + 64 * length (asks g) + 1 ≤ max_cap)
          (omega (arith, no_bytes)) (omega (arith, no_bytes)) (omega (arith, no_bytes)));
}

distinct : Distinct server.files
distinct = ground arith

running : IsRunning 6 5 (2 ∷ 1 ∷ 0 ∷ []) server
running = record {
  table = init_table-IsValid;
  sized = init-IsSized;
  working = (new_conn-IsWorking, (new_conn-IsWorking, tt));
  epoll = refl;
  listen = refl;
  held = refl;
  distinct = distinct;
}

net_run-Linear_example :
    Linear IsClient nothing spare server conns asks
      (all_of rounds)
      (waited (net_run spare (map turn_of rounds) server))
net_run-Linear_example =
    net_run-Linear IsClient nothing (λ g c. nothing_waits) spare spare-IsFresh 6 5 (2 ∷ 1 ∷ 0 ∷ [])
      rounds server conns asks refl fair running watched clients
  where
    fair : All (IsFair IsClient) (all_of rounds)
    fair = (
      ((refl, refl, refl, (omega arith, tt), tt), inl refl),
      (
        refl,
        (
          ((refl, refl, refl, (omega arith, tt), tt), inr (inl refl)),
          (
            ((refl, refl, refl, (omega arith, tt), tt), inr (inr refl)),
            (((refl, refl, refl, (omega arith, tt), tt), inl refl), tt),
          ),
        ),
      ),
    )

    watched : IsWatched spare (6 ∷ 5 ∷ 2 ∷ 1 ∷ 0 ∷ []) (fds server.conns) (all_of rounds)
    watched = (inr (inl refl), (inr (inl refl), (inl refl, (inr (inr (inl refl)), tt))))
