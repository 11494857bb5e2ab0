-- ===== src/Server/History.antt =====
-- src/networking.c: the run behind an event, with the event in front of it.
use redis_in_c.Prelude.{
  ℕ, ◌≡◌, ◌≢◌, ◌∙◌, refl, sym, subst, ap, Bytes, Option, some, List, [], ◌∷◌, ◌++◌, All,
  append_assoc, map,
}
use redis_in_c.Bytebuf.{live}
use redis_in_c.Resp.Outcome.{need_more}
use redis_in_c.Resp.Request.{parse_request}
use redis_in_c.Resp.Streams.{encode_replies}
use redis_in_c.Command.Machine.{View}
use redis_in_c.Command.Refines.{view}
use redis_in_c.Connection.{Conn}
use redis_in_c.Connection.Appends.{encode_replies-append}
use redis_in_c.Connection.Serial.{Command, performed}
use redis_in_c.Server.{Server, fds, conn_of, accept_clients}
use redis_in_c.Server.Loop.{client_event, run_batch}
use redis_in_c.Server.Services.{
  Service, Occasion, serves, admits, occurs, services_of, IsFair, IsWatched, handed,
}
use redis_in_c.Server.Accepting.{accept_clients-Accepts}
use redis_in_c.Server.Running.{IsRunning, IsFresh}
use redis_in_c.Server.Serving.{client_event-Keeps}
use redis_in_c.Server.Batches.{accept-IsRunning}
use redis_in_c.Server.Prompt.{Prompt-cons}
use redis_in_c.Server.Admitting.{present, fds-admitted, admit_AreOpen, Linear-admit}
use redis_in_c.Server.Order.{
  Order, commands_of, replies_to, outcome, before, same, other, commands_of-before_self,
  commands_of-before_ne, replies_to-before_self, replies_to-before_ne, outcome-before,
}
use redis_in_c.Server.Stepping.{Step}
use redis_in_c.Server.Interleaving.{before-All, Linear-nil, step}
use redis_in_c.Server.Advance.{conns_then, asks_then, then_AreOpen}
use redis_in_c.Server.Linear.{arrived_at, taken_at, Stands, everywhere, AreOpen, Linear}

module _ (IsClient : ℕ → Type 0) (rest : ℕ → Bytes) (next_fd : List ℕ → ℕ) (v : Service)
    (es : List Occasion) (s t : Server) (conns : ℕ → Conn) (asks : ℕ → List Command)
    (a : AreOpen IsClient rest s conns asks (v ∷ services_of es)) (c : IsClient v.fd)
    (here : conn_of v.fd s.conns ≡ some (conns v.fd))
    (st : Step v s t (conns v.fd) (asks v.fd) (rest v.fd) (arrived_at v.fd (services_of es)))
    (e : client_event v.fd v.ready v.io (conns v.fd) s ≡ t) where
  taken_self :
      taken_at next_fd v.fd (serves v ∷ es) s
      ≡ handed v (conns v.fd) s ++ taken_at next_fd v.fd es t
  unfolding taken_at
  taken_self = rw (here, taken_at, same v.fd, e) refl

  taken_ne : (g : ℕ) → v.fd ≢ g → taken_at next_fd g (serves v ∷ es) s ≡ taken_at next_fd g es t
  unfolding taken_at
  taken_ne g ne = rw (here, taken_at, other v.fd g ne, e) refl

  abbrev Told : Server → Order → ℕ → Type 0
  Told final os g =
      (k : Conn) × Stands g final k
      × (taken_at next_fd g (serves v ∷ es) s ++ live k.out_buf
          ≡ live (conns g).out_buf ++ encode_replies (replies_to g os (view s.store)))
      × (live k.in_buf ≡ rest g)

  -- What is told behind the event, and before it, is told with it.
  joined :
      (os : Order) (m : View) (tail queue : Bytes)
      → tail ++ queue ≡ live st.conn.out_buf ++ encode_replies (replies_to v.fd os m)
      → m ≡ (performed st.done (view s.store)).1
      → (handed v (conns v.fd) s ++ tail) ++ queue
        ≡ live (conns v.fd).out_buf
          ++ encode_replies (replies_to v.fd (before v.fd st.done os) (view s.store))
  joined os m tail queue told seen =
      let sent = handed v (conns v.fd) s in
      let old = live (conns v.fd).out_buf in
      let ps = (performed st.done (view s.store)).0 in
      let qs = replies_to v.fd os (performed st.done (view s.store)).1 in
      append_assoc sent tail queue
      ∙ ap (λ b. sent ++ b)
          (told ∙ ap (λ u. live st.conn.out_buf ++ encode_replies (replies_to v.fd os u)) seen)
      ∙ sym (append_assoc sent (live st.conn.out_buf) (encode_replies qs))
      ∙ ap (λ b. b ++ encode_replies qs) st.told
      ∙ append_assoc old (encode_replies ps) (encode_replies qs)
      ∙ ap (λ b. old ++ b)
          (sym (encode_replies-append ps qs)
            ∙ ap encode_replies (sym (replies_to-before_self v.fd st.done os (view s.store))))

  pub Linear-cons :
      (out : Option Server)
      → Linear IsClient rest next_fd t
          (conns_then IsClient rest v (services_of es) s t conns asks a c st)
          (asks_then IsClient rest v (services_of es) s t conns asks a c st)
          es
          out
      → Linear IsClient rest next_fd s conns asks (serves v ∷ es) out
  Linear-cons out ih = record {
    final = ih.final;
    ran = ih.ran;
    order = before v.fd st.done ih.order;
    whole =
        everywhere v.fd (λ g. IsClient g → commands_of g (before v.fd st.done ih.order) ≡ asks g)
          (λ k.
            commands_of-before_self v.fd st.done ih.order
            ∙ ap (λ l. st.done ++ l) (rw (same v.fd) at (ih.whole v.fd k))
            ∙ sym st.whole)
          (λ g ne k.
            commands_of-before_ne v.fd g st.done ih.order ne
            ∙ (rw (other v.fd g ne) at (ih.whole g k)));
    owned = before-All IsClient v.fd st.done ih.order c ih.owned;
    prompt = Prompt-cons IsClient rest v es s t conns asks a c st ih.order ih.prompt;
    store =
        ih.store
        ∙ ap (outcome ih.order) st.seen
        ∙ sym (outcome-before v.fd st.done ih.order (view s.store));
    told =
        everywhere v.fd (λ g. IsClient g → Told ih.final (before v.fd st.done ih.order) g)
          (λ k.
            let (k', there, told, unread) = ih.told v.fd k in
            (
              k',
              there,
              ap (λ b. b ++ live k'.out_buf) taken_self
                  ∙ joined ih.order (view t.store) (taken_at next_fd v.fd es t) (live k'.out_buf)
                      (rw (same v.fd) at told) st.seen,
              unread,
            ))
          (λ g ne k.
            let (k', there, told, unread) = ih.told g k in
            (
              k',
              there,
              ap (λ b. b ++ live k'.out_buf) (taken_ne g ne)
                  ∙ (rw (other v.fd g ne) at told)
                  ∙ ap (λ u. live (conns g).out_buf ++ encode_replies (replies_to g ih.order u))
                      st.seen
                  ∙ ap (λ rs. live (conns g).out_buf ++ encode_replies rs)
                      (sym (replies_to-before_ne v.fd g st.done ih.order (view s.store) ne)),
              unread,
            ));
  }

module _ (IsClient : ℕ → Type 0) (rest : ℕ → Bytes)
    (waits : (g : ℕ) → IsClient g → parse_request (rest g) ≡ need_more) (next_fd : List ℕ → ℕ)
    (fresh : IsFresh next_fd) (efd lfd : ℕ) (base : List ℕ) where
  pub run_batch-Linear :
      (es : List Occasion) (s : Server) (conns : ℕ → Conn) (asks : ℕ → List Command)
      → All (IsFair IsClient) es
      → IsRunning efd lfd base s
      → IsWatched next_fd (efd ∷ lfd ∷ base) (fds s.conns) es
      → AreOpen IsClient rest s conns asks (services_of es)
      → Linear IsClient rest next_fd s conns asks es (run_batch next_fd (map occurs es) s)
  unfolding run_batch
  run_batch-Linear [] s conns asks h r w a = Linear-nil IsClient rest next_fd s conns asks a
  run_batch-Linear (serves v ∷ es) s conns asks ((smooth, c), h) r (live, w) a =
      let t = client_event v.fd v.ready v.io (conns v.fd) s in
      let vs = services_of es in
      let here = present v.fd s (conns v.fd) live (a.places v.fd c) in
      let st = step IsClient rest v vs s conns asks a c here smooth (waits v.fd c) in
      let kept = client_event-Keeps efd lfd base v.fd v.ready v.io (conns v.fd) s r here in
      let ih =
        run_batch-Linear es t _ _ h kept.running
          (subst (λ fs. IsWatched next_fd (efd ∷ lfd ∷ base) fs es) (sym st.names) w)
          (then_AreOpen IsClient rest v vs s t conns asks a c st) in
      rw (here, run_batch)
        (Linear-cons IsClient rest next_fd v es s t conns asks a c here st refl _ ih)
  run_batch-Linear (admits ready answers ∷ es) s conns asks (healthy, h) r w a =
      let t = accept_clients next_fd answers s in
      let x = accept_clients-Accepts next_fd answers s fresh in
      let ih =
        run_batch-Linear es t conns asks h (accept-IsRunning efd lfd base next_fd answers s t x r)
          (subst (λ fs. IsWatched next_fd (efd ∷ lfd ∷ base) fs es)
            (sym (fds-admitted next_fd efd lfd base answers s t r x a.calm)) w)
          (admit_AreOpen IsClient rest conns asks next_fd answers efd lfd base s t (services_of es)
            r x a) in
      Linear-admit IsClient rest conns asks next_fd answers s ready es _ _ (rw healthy refl) x a ih
