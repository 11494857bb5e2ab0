-- ===== src/Server/Opening.antt =====
-- src/networking.c: `net_init` either sets the server up or gives back what it has opened.
use redis_in_c.Prelude.{
  ℕ, ◌≡◌, ◌≢◌, refl, sym, subst, ap, ◌∙◌, Option, none, some, List, [], ◌∷◌, All,
}
use redis_in_c.Heap.{Rc, ok, fail}
use redis_in_c.Hashtable.{Hashtable}
use redis_in_c.Hashtable.Sizes.{IsSized}
use redis_in_c.Hashtable.Inv
use redis_in_c.Server.{Server, close}
use redis_in_c.Server.Clients.{close-head}
use redis_in_c.Server.Running.{IsRunning, IsFresh, Distinct}
use redis_in_c.Server.Setup.{InitAnswers, register_listener, create_epoll, with_listener, net_init}
use redis_in_c.Server.Listening.{Listens, ListenerOpens, setup_listener-Listens}

-- The calls of `net_init` that can fail all succeed.
abbrev pub InitOpens : InitAnswers → Type 0
InitOpens a = ListenerOpens a.listener × ((a.create ≡ ok) × (a.add ≡ ok))

-- The server before `net_init`.
pub record IsUnopened (s : Server) : Type 0 where
  pub no_conns : s.conns ≡ []
  pub no_epoll : s.epoll_fd ≡ none
  pub distinct : Distinct s.files

-- Success, with a server in order and no connection yet, exactly where all calls succeed; else no
-- descriptor is left open.
abbrev pub Opens : Type 0 → Hashtable → Server → Rc × Server → Type 0
Opens P store s (ok, t) =
    P
    × ((efd : ℕ) × (lfd : ℕ) × IsRunning efd lfd s.files t
        × (t.store ≡ store)
        × (t.conns ≡ [])
        × (t.shutdown ≡ s.shutdown))
Opens P store s (fail, t) =
    (¬ P)
    × ((t.files ≡ s.files)
        × (t.listen_fd ≡ none)
        × (t.epoll_fd ≡ none)
        × (t.conns ≡ [])
        × (t.store ≡ store))

Opens-map :
    (P Q : Type 0) (store : Hashtable) (s : Server) (r : Rc × Server)
    → (P → Q)
    → (Q → P)
    → Opens P store s r
    → Opens Q store s r
Opens-map P Q store s (ok, t) f b o = (f o.0, o.1)
Opens-map P Q store s (fail, t) f b o = (λ q. o.0 (b q), o.1)

module _ (store : Hashtable) (s : Server) (idle : IsUnopened s) where
  register_listener-Opens :
      (add : Rc) (efd lfd : ℕ)
      → redis_in_c.Hashtable.Inv.IsValid store
      → IsSized store
      → Distinct (efd ∷ lfd ∷ s.files)
      → Opens
          (add ≡ ok)
          store
          s
          (register_listener add efd lfd (record s { store = store; files = efd ∷ lfd ∷ s.files }))
  unfolding register_listener
  register_listener-Opens ok efd lfd v z d = (
    refl,
    (
      efd,
      lfd,
      record {
        table = v;
        sized = z;
        working = rw idle.no_conns tt;
        epoll = refl;
        listen = refl;
        held = rw idle.no_conns refl;
        distinct = d;
      },
      refl,
      idle.no_conns,
      refl,
    ),
  )
  register_listener-Opens fail efd lfd v z d = (
    λ e. cc,
    (
      ap (close lfd) (close-head efd (lfd ∷ s.files)) ∙ close-head lfd s.files,
      refl,
      refl,
      idle.no_conns,
      refl,
    ),
  )

  at_create :
      (rc add : Rc) (efd lfd : ℕ)
      → redis_in_c.Hashtable.Inv.IsValid store
      → IsSized store
      → Distinct (efd ∷ lfd ∷ s.files)
      → Opens ((rc ≡ ok) × (add ≡ ok)) store s (elim rc [
        | ok ↦
            register_listener add efd lfd (record s { store = store; files = efd ∷ lfd ∷ s.files })
        | fail ↦ (
          fail,
          record s {
            store = store;
            listen_fd = none;
            epoll_fd = none;
            files = close lfd (lfd ∷ s.files);
          },
        )
      ])
  at_create ok add efd lfd v z d =
      Opens-map (add ≡ ok) ((ok ≡ ok) × (add ≡ ok)) store s _ (λ p. (refl, p)) (λ q. q.1)
        (register_listener-Opens add efd lfd v z d)
  at_create fail add efd lfd v z d =
      (λ (e, _). cc, (close-head lfd s.files, refl, refl, idle.no_conns, refl))

  create_epoll-Opens :
      (next_fd : List ℕ → ℕ) (a : InitAnswers) (lfd : ℕ)
      → IsFresh next_fd
      → redis_in_c.Hashtable.Inv.IsValid store
      → IsSized store
      → Distinct (lfd ∷ s.files)
      → Opens
          ((a.create ≡ ok) × (a.add ≡ ok))
          store
          s
          (create_epoll next_fd a lfd (record s { store = store; files = lfd ∷ s.files }))
  unfolding create_epoll
  create_epoll-Opens next_fd a lfd f v z d =
      at_create a.create a.add (next_fd (lfd ∷ s.files)) lfd v z (f (lfd ∷ s.files), d)

  with_listener-Opens :
      (next_fd : List ℕ → ℕ) (a : InitAnswers) (r : Option ℕ × List ℕ)
      → IsFresh next_fd
      → redis_in_c.Hashtable.Inv.IsValid store
      → IsSized store
      → Listens (ListenerOpens a.listener) (next_fd s.files) s.files r
      → Opens (InitOpens a) store s (with_listener next_fd a (record s { store = store }) r)
  unfolding with_listener
  with_listener-Opens next_fd a (none, files) f v z (e, bad) =
      (λ q. bad q.0, (e, refl, idle.no_epoll, idle.no_conns, refl))
  with_listener-Opens next_fd a (some lfd, files) f v z (g, e, good) =
      let d : Distinct (lfd ∷ s.files) =
        (subst (λ n. All (λ x. x ≢ n) s.files) (sym g) (f s.files), idle.distinct) in
      subst
        (λ fs.
          Opens (InitOpens a) store s
            (create_epoll next_fd a lfd (record s { store = store; files = fs })))
        (ap (λ n. n ∷ s.files) g ∙ sym e)
        (Opens-map ((a.create ≡ ok) × (a.add ≡ ok)) (InitOpens a) store s _ (λ p. (good, p))
          (λ q. q.1) (create_epoll-Opens next_fd a lfd f v z d))

-- From a server that has nothing open, with a valid store of sized entries and fresh descriptors,
-- net_init succeeds exactly where all of its calls do, and then leaves the server in order for
-- that store, without connections; else it leaves no descriptor open that was not.
pub net_init-Opens :
    (next_fd : List ℕ → ℕ) (a : InitAnswers) (store : Hashtable) (s : Server)
    → IsFresh next_fd
    → IsUnopened s
    → redis_in_c.Hashtable.Inv.IsValid store
    → IsSized store
    → Opens (InitOpens a) store s (net_init next_fd a store s)
unfolding net_init
net_init-Opens next_fd a store s f idle v z =
    with_listener-Opens store s idle next_fd a _ f v z
      (setup_listener-Listens next_fd a.listener s.files)
