-- ===== src/Server/Linear.antt =====
-- src/networking.c: whatever the events of the clients and wherever their bytes are cut, the server
-- answers as a key-value machine that runs the commands of all clients in one order.
use redis_in_c.Prelude.{
  ℕ, ◌+◌, ◌≤◌, ◌≡◌, ◌≢◌, ◌⊎◌, subst, arith, Bool-cases, inl, inr, ◌==◌, ==_iff, if◌then◌else◌,
  Bytes, Option, none, some, List, [], ◌∷◌, ◌++◌, length, All, take,
}
use redis_in_c.Bytebuf.{live, max_cap}
use redis_in_c.Resp.Outcome.{need_more}
use redis_in_c.Resp.Request.{parse_request}
use redis_in_c.Resp.Streams.{encode_replies}
use redis_in_c.Command.Machine.{View}
use redis_in_c.Command.Refines.{view}
use redis_in_c.Connection.{Conn, epollin}
use redis_in_c.Connection.Conversation.{arrived}
use redis_in_c.Connection.Serial.{Command}
use redis_in_c.Connection.Splits.{text_of}
use redis_in_c.Server.{Server, conn_of, new_conn, accept_clients}
use redis_in_c.Server.Loop.{client_event}
use redis_in_c.Server.Services.{Service, calls_of, Occasion, serves, admits, services_of, handed}
use redis_in_c.Server.Order.{Order, commands_of, replies_to, outcome}
use redis_in_c.Server.Stepping.{Opens}

-- All that arrives for a client.
abbrev pub arrived_at : ℕ → List Service → Bytes
arrived_at g [] = []
arrived_at g (v ∷ vs) =
    let more = arrived_at g vs in if v.fd == g then arrived (calls_of v) ++ more else more

-- All that the socket of a client takes.
unfoldable pub taken_at : (List ℕ → ℕ) → ℕ → List Occasion → Server → Bytes
taken_at next_fd g [] s = []
taken_at next_fd g (serves v ∷ os) s = elim (conn_of v.fd s.conns) [
  | none ↦ []
  | some k ↦
      let more = taken_at next_fd g os (client_event v.fd v.ready v.io k s) in
      if v.fd == g then handed v k s ++ more else more
]
taken_at next_fd g (admits ready answers ∷ os) s =
    taken_at next_fd g os (accept_clients next_fd answers s)

-- A function with another value at one place.
abbrev pub put_at {ℓ} : {A : Type ℓ} → ℕ → A → (ℕ → A) → ℕ → A
put_at fd a f g = if fd == g then a else f g

by_fd : (fd g : ℕ) → (fd ≡ g) ⊎ (fd ≢ g)
by_fd fd g = elim (Bool-cases (fd == g)) [
  | inl t ↦ inl ((==_iff fd g).0 t)
  | inr f ↦ inr (ground arith)
]

-- The connection of a descriptor, or the one that it has as soon as it is accepted.
abbrev pub Stands : ℕ → Server → Conn → Type 0
Stands g s k = (conn_of g s.conns ≡ some k) ⊎ ((conn_of g s.conns ≡ none) × (k ≡ new_conn epollin))

-- What holds at one place and at all others.
pub everywhere : (fd : ℕ) (P : ℕ → Type 0) → P fd → ((g : ℕ) → fd ≢ g → P g) → (g : ℕ) → P g
everywhere fd P here there g = elim (by_fd fd g) [ inl e ↦ subst P e here | inr ne ↦ there g ne ]

-- The clients, each with the commands that it sends and with what it leaves unfinished.
module _ (IsClient : ℕ → Type 0) (rest : ℕ → Bytes) where
  abbrev pub IsOwned : Order → Type 0
  IsOwned os = All (λ (o : ℕ × Command). IsClient o.0) os

  -- Some of the commands of each client, from its first on, in one order.
  abbrev pub IsPart : Order → (ℕ → List Command) → Type 0
  IsPart os asks =
      (g : ℕ) → IsClient g → (left : List Command) × (asks g ≡ commands_of g os ++ left)

  -- Whatever part of the commands is run first, and in which order, there is room for its replies.
  abbrev pub AllFit : View → (ℕ → Conn) → (ℕ → List Command) → Type 0
  AllFit m conns asks =
      (os : Order)
      → IsOwned os
      → IsPart os asks
      → (g : ℕ) → IsClient g
      → length (live (conns g).out_buf) + length (encode_replies (replies_to g os m)) + 1 ≤ max_cap

  -- The clients' connections are open, or still to be accepted, and their bytes are their commands.
  pub record AreOpen (s : Server) (conns : ℕ → Conn) (asks : ℕ → List Command) (vs : List Service)
      : Type 0 where
    pub calm : s.heap ≡ []
    pub places : (g : ℕ) → IsClient g → Stands g s (conns g)
    pub opens : (g : ℕ) → IsClient g → Opens s (conns g) (asks g) (rest g) (arrived_at g vs)
    pub room : AllFit (view s.store) conns asks

  -- The commands that have arrived whole when these events are over come first, before all others.
  pub record Prompt (conns : ℕ → Conn) (order : Order) (es : List Occasion) : Type 0 where
    pub first : Order
    pub last : Order
    pub split : order ≡ first ++ last
    pub come :
        (g : ℕ)
        → IsClient g
        → (part : Bytes) × (live (conns g).in_buf ++ arrived_at g (services_of es)
            ≡ text_of (commands_of g first) part)
          × (parse_request part ≡ need_more)

  -- The run is that of the machine on one order of all commands, which keeps that of each client.
  pub record Linear (next_fd : List ℕ → ℕ) (s : Server) (conns : ℕ → Conn) (asks : ℕ → List Command)
      (os : List Occasion) (out : Option Server) : Type 0 where
    pub final : Server
    pub ran : out ≡ some final
    pub order : Order
    pub whole : (g : ℕ) → IsClient g → commands_of g order ≡ asks g
    pub owned : IsOwned order
    pub prompt : (n : ℕ) → Prompt conns order (take n os)
    pub store : view final.store ≡ outcome order (view s.store)
    pub told :
        (g : ℕ)
        → IsClient g
        → (k : Conn) × Stands g final k
          × (taken_at next_fd g os s ++ live k.out_buf
              ≡ live (conns g).out_buf ++ encode_replies (replies_to g order (view s.store)))
          × (live k.in_buf ≡ rest g)
