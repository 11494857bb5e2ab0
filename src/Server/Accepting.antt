-- ===== src/Server/Accepting.antt =====
-- src/networking.c: what `accept_clients` adds to the list of connections.
use redis_in_c.Prelude.{
  ℕ, ◌≡◌, ◌≢◌, ◌∙◌, refl, sym, subst, ap, ap₂, arith, inl, inr, ◌⊎◌, Option, none, some, List, [],
  ◌∷◌, ◌++◌, All, append_assoc, append-nil,
}
use redis_in_c.Heap.{Heap, Rc, ok, fail, malloc, malloc_calm}
use redis_in_c.Connection.{Conn, epollin}
use redis_in_c.Server.{
  Client, Server, fds, set_conn, set_nonblock, new_conn, register_conn, alloc_conn, on_block, admit,
  AcceptResult, accepted, accept_again, accept_interrupted, accept_failed, accept_clients,
}
use redis_in_c.Server.Clients.{close-head}
use redis_in_c.Server.Running.{Distinct, IsFresh}

abbrev pub new_client : ℕ → Client
new_client fd = record { fd = fd; conn = new_conn epollin }

-- The descriptor of an `accept`, where the calls behind it all succeed.
abbrev pub own : Rc → Rc → Rc → ℕ → List ℕ
own ok ok ok fd = fd ∷ []
own _ _ _ fd = []

-- The descriptors of the connections that a call accepts where no allocation is refused.
abbrev pub newcomers : (List ℕ → ℕ) → List AcceptResult → List ℕ → List ℕ
newcomers next_fd [] files = []
newcomers next_fd (accepted get set add ∷ rs) files =
    let fds = own get set add (next_fd files) in newcomers next_fd rs (fds ++ files) ++ fds
newcomers next_fd (accept_again ∷ rs) files = []
newcomers next_fd (accept_interrupted ∷ rs) files = newcomers next_fd rs files
newcomers next_fd (accept_failed ∷ rs) files = []

-- A descriptor is closed again, or belongs to a new connection at the head of the list.
abbrev Admitted : List ℕ → ℕ → Server → Server → Type 0
Admitted mine cfd s t =
    (h : Heap) × (s.heap ≡ [] → h ≡ [])
    × (((t ≡ record s { heap = h }) × (s.heap ≡ [] → mine ≡ []))
        ⊎ ((t ≡ record s { heap = h; conns = new_client cfd ∷ s.conns; files = cfd ∷ s.files })
            × (mine ≡ cfd ∷ [])))

set_conn-head :
    (fd : ℕ) (k k' : Conn) (cs : List Client)
    → set_conn fd k' (record { fd = fd; conn = k } ∷ cs) ≡ record { fd = fd; conn = k' } ∷ cs
unfolding set_conn
set_conn-head fd k k' cs = ground arith

malloc-none : (h h' : Heap) → malloc h ≡ (none, h') → h ≢ []
malloc-none h h' e z = cc (malloc_calm h z)

on_block-Admitted :
    (cfd : ℕ) (add : Rc) (s : Server) (r : Option (Unit {0}) × Heap)
    → malloc s.heap ≡ r
    → Admitted (own ok ok add cfd) cfd s (on_block cfd add (record s { files = cfd ∷ s.files }) r)
unfolding on_block register_conn
on_block-Admitted cfd add s (none, h) e = (
  h,
  λ z. absurd (malloc-none s.heap h e z),
  inl (
    ap (λ fs. record s { heap = h; files = fs }) (close-head cfd s.files),
    λ z. absurd (malloc-none s.heap h e z),
  ),
)
on_block-Admitted cfd fail s (some u, h) e = (
  h,
  λ z. cc (malloc_calm s.heap z),
  inl (ap (λ fs. record s { heap = h; files = fs }) (close-head cfd s.files), λ z. refl),
)
on_block-Admitted cfd ok s (some u, h) e = (
  h,
  λ z. cc (malloc_calm s.heap z),
  inr (
    ap (λ cs. record s { heap = h; conns = cs; files = cfd ∷ s.files })
        (set_conn-head cfd (new_conn 0) (new_conn epollin) s.conns),
    refl,
  ),
)

admit-Admitted :
    (cfd : ℕ) (nonblock add : Rc) (s : Server)
    → Admitted (own ok nonblock add cfd) cfd s (admit cfd nonblock add s)
unfolding admit alloc_conn
admit-Admitted cfd fail add s =
    (s.heap, λ z. z, inl (ap (λ fs. record s { files = fs }) (close-head cfd s.files), λ z. refl))
admit-Admitted cfd ok add s = on_block-Admitted cfd add s (malloc s.heap) refl

own-set_nonblock :
    (get set add : Rc) (fd : ℕ) → own get set add fd ≡ own ok (set_nonblock get set) add fd
unfolding set_nonblock
own-set_nonblock ok set add fd = refl
own-set_nonblock fail ok ok fd = refl
own-set_nonblock fail _ _ fd = refl

-- What a call of `accept_clients` makes of the server.
pub record Accepts (next_fd : List ℕ → ℕ) (rs : List AcceptResult) (s t : Server) : Type 0 where
  pub new : List Client
  pub heap : Heap
  pub added : t ≡ record s { heap = heap; conns = new ++ s.conns; files = fds new ++ s.files }
  pub opened : All (λ (c : Client). c.conn ≡ new_conn epollin) new
  pub distinct : Distinct s.files → Distinct (fds new ++ s.files)
  pub names : s.heap ≡ [] → fds new ≡ newcomers next_fd rs s.files
  pub calm : s.heap ≡ [] → heap ≡ []

nobody :
    (next_fd : List ℕ → ℕ) (rs : List AcceptResult) (s : Server)
    → newcomers next_fd rs s.files ≡ []
    → Accepts next_fd rs s s
nobody next_fd rs s e = record {
  new = [];
  heap = s.heap;
  added = refl;
  opened = tt;
  distinct = λ d. d;
  names = λ z. sym e;
  calm = λ z. z;
}

pub fds-append : (xs ys : List Client) → fds (xs ++ ys) ≡ fds xs ++ fds ys
fds-append [] ys = refl
fds-append (x ∷ xs) ys = ap (λ r. x.fd ∷ r) (fds-append xs ys)

All-append :
    (xs ys : List Client)
    → All (λ (c : Client). c.conn ≡ new_conn epollin) xs
    → All (λ (c : Client). c.conn ≡ new_conn epollin) ys
    → All (λ (c : Client). c.conn ≡ new_conn epollin) (xs ++ ys)
All-append [] ys hx hy = hy
All-append (x ∷ xs) ys hx hy = (hx.0, All-append xs ys hx.1 hy)

after_admit :
    (next_fd : List ℕ → ℕ) (cfd : ℕ) (mine : List ℕ) (rest rs : List AcceptResult) (s u t : Server)
    → All (λ g. g ≢ cfd) s.files
    → newcomers next_fd rs s.files ≡ newcomers next_fd rest (mine ++ s.files) ++ mine
    → Admitted mine cfd s u
    → Accepts next_fd rest u t
    → Accepts next_fd rs s t
after_admit next_fd cfd mine rest rs s u t fresh sum (h, calm, inl (e, none_new)) a =
    let a' = subst (λ w. Accepts next_fd rest w t) e a in
    record {
      new = a'.new;
      heap = a'.heap;
      added = a'.added;
      opened = a'.opened;
      distinct = a'.distinct;
      names = λ z.
          a'.names (calm z)
          ∙ sym (append-nil (newcomers next_fd rest s.files))
          ∙ ap (λ fs. newcomers next_fd rest (fs ++ s.files) ++ fs) (sym (none_new z))
          ∙ sym sum;
      calm = λ z. a'.calm (calm z);
    }
after_admit next_fd cfd mine rest rs s u t fresh sum (h, calm, inr (e, one)) a =
    let a' = subst (λ w. Accepts next_fd rest w t) e a in
    let c = new_client cfd ∷ [] in
    let shift = append_assoc a'.new c s.conns in
    let files : fds a'.new ++ (cfd ∷ s.files) ≡ fds (a'.new ++ c) ++ s.files =
      sym (append_assoc (fds a'.new) (cfd ∷ []) s.files)
      ∙ ap (λ fs. fs ++ s.files) (sym (fds-append a'.new c)) in
    record {
      new = a'.new ++ c;
      heap = a'.heap;
      added =
          a'.added
          ∙ ap₂ (λ cs fs. record s { heap = a'.heap; conns = cs; files = fs }) (sym shift) files;
      opened = All-append a'.new c a'.opened (refl, tt);
      distinct = λ d. subst Distinct files (a'.distinct (fresh, d));
      names = λ z.
          fds-append a'.new c
          ∙ ap (λ fs. fs ++ cfd ∷ []) (a'.names (calm z))
          ∙ ap (λ fs. newcomers next_fd rest (fs ++ s.files) ++ fs) (sym one)
          ∙ sym sum;
      calm = λ z. a'.calm (calm z);
    }

-- Whatever the calls answer and whatever allocations are refused, with fresh descriptors,
-- accept_clients leaves the store and the connections that were there as they are, and puts new
-- ones in front of them: each open and empty, waiting for reads, with a descriptor of its own.
-- The descriptors that it leaves open are those from before and those of the new connections, and
-- with no allocation refused the new connections are those of the accepted descriptors whose
-- calls all succeed, the last accepted first.
pub accept_clients-Accepts :
    (next_fd : List ℕ → ℕ) (rs : List AcceptResult) (s : Server)
    → IsFresh next_fd
    → Accepts next_fd rs s (accept_clients next_fd rs s)
unfolding accept_clients
accept_clients-Accepts next_fd [] s f = nobody next_fd [] s refl
accept_clients-Accepts next_fd (accept_again ∷ rs) s f = nobody next_fd (accept_again ∷ rs) s refl
accept_clients-Accepts next_fd (accept_failed ∷ rs) s f = nobody next_fd (accept_failed ∷ rs) s refl
accept_clients-Accepts next_fd (accept_interrupted ∷ rs) s f =
    let a = accept_clients-Accepts next_fd rs s f in
    record {
      new = a.new;
      heap = a.heap;
      added = a.added;
      opened = a.opened;
      distinct = a.distinct;
      names = a.names;
      calm = a.calm;
    }
accept_clients-Accepts next_fd (accepted get set add ∷ rs) s f =
    let cfd = next_fd s.files in
    let u = admit cfd (set_nonblock get set) add s in
    let mine = own ok (set_nonblock get set) add cfd in
    let sum =
      ap (λ fs. newcomers next_fd rs (fs ++ s.files) ++ fs) (own-set_nonblock get set add cfd) in
    after_admit next_fd cfd mine rs (accepted get set add ∷ rs) s u _ (f s.files) sum
      (admit-Admitted cfd (set_nonblock get set) add s) (accept_clients-Accepts next_fd rs u f)
