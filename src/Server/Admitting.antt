-- ===== src/Server/Admitting.antt =====
-- src/networking.c: an event of the listener leaves the clients as they are.
use redis_in_c.Prelude.{
  ℕ, ◌≡◌, ◌∙◌, refl, sym, subst, ap, Bytes, Option, some, none, inl, inr, ◌⊎◌, ◌==◌, Bool-cases,
  All, List, [], ◌∷◌, ◌++◌,
}
use redis_in_c.Bytebuf.{live}
use redis_in_c.Resp.Streams.{encode_replies}
use redis_in_c.Command.Refines.{view}
use redis_in_c.Connection.{Conn, epollin}
use redis_in_c.Connection.Serial.{Command}
use redis_in_c.Connection.Validity.{IsSound}
use redis_in_c.Server.{Client, Server, fds, conn_of, new_conn, AcceptResult, accept_clients}
use redis_in_c.Server.Loop.{Ready}
use redis_in_c.Server.Accepting.{Accepts, newcomers, fds-append}
use redis_in_c.Server.Batches.{accept-IsLive}
use redis_in_c.Server.Running.{IsRunning, IsIn, conn_of-IsIn}
use redis_in_c.Server.Services.{Service, Occasion, admits, services_of}
use redis_in_c.Server.Prompt.{Prompt-admit}
use redis_in_c.Server.Order.{replies_to, outcome}
use redis_in_c.Server.Stepping.{Opens}
use redis_in_c.Server.Linear.{taken_at, Stands, AllFit, AreOpen, Linear}

-- A watched descriptor is that of a connection.
pub present :
    (fd : ℕ) (s : Server) (k : Conn)
    → IsIn fd (fds s.conns)
    → Stands fd s k
    → conn_of fd s.conns ≡ some k
present fd s k h (inl e) = e
present fd s k h (inr (n, new)) = let (k', e) = conn_of-IsIn fd s.conns h in cc

-- A descriptor that is not accepted is there no more than before.
conn_of-new :
    (g : ℕ) (new cs : List Client)
    → All (λ (c : Client). c.conn ≡ new_conn epollin) new
    → conn_of g cs ≡ none
    → (conn_of g (new ++ cs) ≡ some (new_conn epollin)) ⊎ (conn_of g (new ++ cs) ≡ none)
unfolding conn_of
conn_of-new g [] cs h n = inr n
conn_of-new g (c ∷ new) cs (e, h) n = elim (Bool-cases (c.fd == g)) [
  | inl t ↦ inl (rw (t, e) refl)
  | inr f ↦ rw f (conn_of-new g new cs h n)
]

module _ (next_fd : List ℕ → ℕ) (efd lfd : ℕ) (base : List ℕ) (answers : List AcceptResult)
    (s t : Server) (r : IsRunning efd lfd base s) (a : Accepts next_fd answers s t) where
  conns_admitted : t.conns ≡ a.new ++ s.conns
  conns_admitted = ap (λ (u : Server). u.conns) a.added

  pub fds-admitted :
      s.heap ≡ []
      → fds t.conns ≡ newcomers next_fd answers (fds s.conns ++ efd ∷ lfd ∷ base) ++ fds s.conns
  fds-admitted calm =
      ap fds conns_admitted
      ∙ fds-append a.new s.conns
      ∙ ap (λ fs. fs ++ fds s.conns) (a.names calm ∙ ap (newcomers next_fd answers) r.held)

  Stands-admitted : (g : ℕ) (k : Conn) → Stands g s k → Stands g t k
  Stands-admitted g k (inl e) = inl (accept-IsLive efd lfd base next_fd answers s t a r g k e)
  Stands-admitted g k (inr (n, new)) = elim (conn_of-new g a.new s.conns a.opened n) [
    | inl e ↦ inl (ap (conn_of g) conns_admitted ∙ e ∙ ap some (sym new))
    | inr e ↦ inr (ap (conn_of g) conns_admitted ∙ e, new)
  ]

Opens-move :
    (s t : Server) (k : Conn) (cs : List Command) (rest more : Bytes)
    → t.store ≡ s.store
    → t.heap ≡ []
    → Opens s k cs rest more
    → Opens t k cs rest more
Opens-move s t k cs rest more store calm o = record {
  waiting = record {
    sound = subst (IsSound k) (sym store) o.waiting.sound;
    calm = calm;
    still_open = o.waiting.still_open;
    idle = o.waiting.idle;
  };
  short = o.short;
  text = o.text;
  asked = o.asked;
}

module _ (IsClient : ℕ → Type 0) (rest : ℕ → Bytes) (conns : ℕ → Conn) (asks : ℕ → List Command)
    (next_fd : List ℕ → ℕ) (answers : List AcceptResult) where
  pub admit_AreOpen :
      (efd lfd : ℕ) (base : List ℕ) (s t : Server) (vs : List Service)
      → IsRunning efd lfd base s
      → Accepts next_fd answers s t
      → AreOpen IsClient rest s conns asks vs
      → AreOpen IsClient rest t conns asks vs
  admit_AreOpen efd lfd base s t vs r a o =
      let store : t.store ≡ s.store = ap (λ (u : Server). u.store) a.added in
      let heap : t.heap ≡ a.heap = ap (λ (u : Server). u.heap) a.added in
      record {
        calm = heap ∙ a.calm o.calm;
        places =
            λ g c. Stands-admitted next_fd efd lfd base answers s t r a g (conns g) (o.places g c);
        opens = λ g c. Opens-move s t _ _ _ _ store (heap ∙ a.calm o.calm) (o.opens g c);
        room = subst (λ m. AllFit IsClient rest m conns asks) (ap view (sym store)) o.room;
      }

  pub Linear-admit :
      (s : Server) (ready : Ready) (es : List Occasion) (out out' : Option Server)
      → out' ≡ out
      → Accepts next_fd answers s (accept_clients next_fd answers s)
      → AreOpen IsClient rest s conns asks (services_of es)
      → Linear IsClient rest next_fd (accept_clients next_fd answers s) conns asks es out
      → Linear IsClient rest next_fd s conns asks (admits ready answers ∷ es) out'
  unfolding taken_at
  Linear-admit s ready es out out' e a o x =
      let seen = ap (λ (u : Server). view u.store) a.added in
      record {
        final = x.final;
        ran = e ∙ x.ran;
        order = x.order;
        whole = x.whole;
        owned = x.owned;
        prompt = Prompt-admit IsClient rest conns asks x.order ready answers es s o x.prompt;
        store = x.store ∙ ap (outcome x.order) seen;
        told = λ g c.
            let (k, here, told, unread) = x.told g c in
            (
              k,
              here,
              told
                  ∙ ap (λ m. live (conns g).out_buf ++ encode_replies (replies_to g x.order m))
                      seen,
              unread,
            );
      }
