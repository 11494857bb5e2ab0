-- ===== src/Server/Clients.antt =====
-- src/networking.c: the list of connections. A node is found by its descriptor; unlinking it and
-- writing to it leave the other nodes alone.
use redis_in_c.Prelude.{
  ℕ, ◌≡◌, ◌≢◌, refl, arith, ◌==◌, Bool-cases, inl, inr, some, List, [], ◌∷◌, ◌++◌, All,
}
use redis_in_c.Server.{Client, fds, close, unlink, conn_of, set_conn}
use redis_in_c.Connection.{Conn}

pub conn_of-unlink_ne :
    (fd g : ℕ) (cs : List Client) → fd ≢ g → conn_of g (unlink fd cs) ≡ conn_of g cs
unfolding conn_of unlink
conn_of-unlink_ne fd g [] ne = refl
conn_of-unlink_ne fd g (c ∷ cs) ne = ground (arith, conn_of-unlink_ne fd g cs ne)

pub conn_of-set_ne :
    (fd g : ℕ) (k : Conn) (cs : List Client) → fd ≢ g → conn_of g (set_conn fd k cs) ≡ conn_of g cs
unfolding conn_of set_conn
conn_of-set_ne fd g k [] ne = refl
conn_of-set_ne fd g k (c ∷ cs) ne = ground (arith, conn_of-set_ne fd g k cs ne)

pub conn_of-set_self :
    (fd : ℕ) (k k' : Conn) (cs : List Client)
    → conn_of fd cs ≡ some k
    → conn_of fd (set_conn fd k' cs) ≡ some k'
unfolding conn_of set_conn
conn_of-set_self fd k k' [] e = cc
conn_of-set_self fd k k' (c ∷ cs) e = ground (arith, conn_of-set_self fd k k' cs)

pub fds-set_conn : (fd : ℕ) (k : Conn) (cs : List Client) → fds (set_conn fd k cs) ≡ fds cs
unfolding set_conn
fds-set_conn fd k [] = refl
fds-set_conn fd k (c ∷ cs) = ground (arith, fds-set_conn fd k cs)

-- A connection that is unlinked takes exactly its descriptor with it.
pub close-fds :
    (fd : ℕ) (k : Conn) (cs : List Client) (base : List ℕ)
    → conn_of fd cs ≡ some k
    → close fd (fds cs ++ base) ≡ fds (unlink fd cs) ++ base
unfolding conn_of close unlink
close-fds fd k [] base e = cc
close-fds fd k (c ∷ cs) base e = ground (arith, close-fds fd k cs base)

pub close-head : (fd : ℕ) (files : List ℕ) → close fd (fd ∷ files) ≡ files
unfolding close
close-head fd files = ground arith

module _ {κ} (P : Conn → Type κ) where
  pub All-unlink :
      (fd : ℕ) (cs : List Client) → All (λ c. P c.conn) cs → All (λ c. P c.conn) (unlink fd cs)
  unfolding unlink
  All-unlink fd [] h = tt
  All-unlink fd (c ∷ cs) h = elim (Bool-cases (c.fd == fd)) [
    | inl e ↦ rw e h.1
    | inr f ↦ rw f (h.0, All-unlink fd cs h.1)
  ]

  pub All-set_conn :
      (fd : ℕ) (k : Conn) (cs : List Client)
      → P k
      → All (λ c. P c.conn) cs
      → All (λ c. P c.conn) (set_conn fd k cs)
  unfolding set_conn
  All-set_conn fd k [] p h = tt
  All-set_conn fd k (c ∷ cs) p h = elim (Bool-cases (c.fd == fd)) [
    | inl e ↦ rw e (p, h.1)
    | inr f ↦ rw f (h.0, All-set_conn fd k cs p h.1)
  ]

  pub All-conn_of :
      (fd : ℕ) (k : Conn) (cs : List Client) → All (λ c. P c.conn) cs → conn_of fd cs ≡ some k → P k
  unfolding conn_of
  All-conn_of fd k [] h e = cc
  All-conn_of fd k (c ∷ cs) h e = elim (Bool-cases (c.fd == fd)) [
    | inl t ↦ ground (arith, h.0)
    | inr f ↦ All-conn_of fd k cs h.1 (ground arith)
  ]

-- What was last written to a node is gone with it.
pub unlink-set_conn :
    (fd : ℕ) (k : Conn) (cs : List Client) → unlink fd (set_conn fd k cs) ≡ unlink fd cs
unfolding unlink set_conn
unlink-set_conn fd k [] = refl
unlink-set_conn fd k (c ∷ cs) = ground (arith, unlink-set_conn fd k cs)
