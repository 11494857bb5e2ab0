-- ===== src/Server/Running.antt =====
-- src/networking.c: the invariant of the event loop, between two events of a batch.
use redis_in_c.Prelude.{
  ℕ, ◌≡◌, ◌≢◌, refl, ◌⊎◌, inl, inr, some, List, [], ◌∷◌, ◌++◌, All, arith, Bool-cases, ◌==◌, Option,
}
use redis_in_c.Hashtable.{Hashtable}
use redis_in_c.Hashtable.Sizes.{IsSized}
use redis_in_c.Hashtable.Inv
use redis_in_c.Connection.{Conn}
use redis_in_c.Connection.Writing.{IsWorking}
use redis_in_c.Server.{Client, Server, fds, close, conn_of}

-- No descriptor twice.
abbrev pub Distinct : List ℕ → Type 0
Distinct [] = Unit
Distinct (f ∷ fs) = All (λ g. g ≢ f) fs × Distinct fs

abbrev pub IsIn : ℕ → List ℕ → Type 0
IsIn fd [] = ⊥
IsIn fd (f ∷ fs) = (f ≡ fd) ⊎ IsIn fd fs

-- `accept`, `socket` and `epoll_create1` return a descriptor that is not open.
abbrev pub IsFresh : (List ℕ → ℕ) → Type 0
IsFresh next_fd = (files : List ℕ) → All (λ g. g ≢ next_fd files) files

-- The store and every connection are valid, the connections wait for what they need, and the open
-- descriptors are theirs, those of epoll and of the listener, and those from before `net_init`.
pub record IsRunning (efd lfd : ℕ) (base : List ℕ) (s : Server) : Type 0 where
  pub table : redis_in_c.Hashtable.Inv.IsValid s.store
  pub sized : IsSized s.store
  pub working : All (λ (c : Client). IsWorking c.conn) s.conns
  pub epoll : s.epoll_fd ≡ some efd
  pub listen : s.listen_fd ≡ some lfd
  pub held : s.files ≡ fds s.conns ++ efd ∷ lfd ∷ base
  pub distinct : Distinct s.files

All-close : (g fd : ℕ) (files : List ℕ) → All (λ f. f ≢ g) files → All (λ f. f ≢ g) (close fd files)
unfolding close
All-close g fd [] h = tt
All-close g fd (f ∷ fs) h = ground (arith, All-close g fd fs)

pub close-Distinct : (fd : ℕ) (files : List ℕ) → Distinct files → Distinct (close fd files)
unfolding close
close-Distinct fd [] d = tt
close-Distinct fd (f ∷ fs) d = ground (arith, All-close f fd fs, close-Distinct fd fs)

-- A descriptor that is not open is none of a live connection.
pub conn_of-ne :
    (g f : ℕ) (cs : List Client) (base : List ℕ) (k : Conn)
    → All (λ x. x ≢ f) (fds cs ++ base)
    → conn_of g cs ≡ some k
    → f ≢ g
unfolding conn_of
conn_of-ne g f [] base k h e = cc
conn_of-ne g f (c ∷ cs) base k h e = elim (Bool-cases (c.fd == g)) [
  | inl t ↦ λ same. h.0 (ground arith)
  | inr n ↦ conn_of-ne g f cs base k h.1 (ground arith)
]

pub conn_of-IsIn :
    (fd : ℕ) (cs : List Client) → IsIn fd (fds cs) → (k : Conn) × (conn_of fd cs ≡ some k)
unfolding conn_of
conn_of-IsIn fd [] h = absurd h
conn_of-IsIn fd (c ∷ cs) (inl e) = ground (arith, found c.conn)
  where
    found : (k : Conn) → (k' : Conn) × ◌≡◌ {A = Option Conn} (some k) (some k')
    found k = (k, refl)
conn_of-IsIn fd (c ∷ cs) (inr h) = elim (Bool-cases (c.fd == fd)) [
  | inl t ↦ rw t (c.conn, refl)
  | inr n ↦ rw n (conn_of-IsIn fd cs h)
]
