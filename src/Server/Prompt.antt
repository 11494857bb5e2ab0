-- ===== src/Server/Prompt.antt =====
-- src/networking.c: the order of the commands follows the order in which they arrive.
use redis_in_c.Prelude.{
  ℕ, zero, suc, ◌≡◌, ◌≢◌, ◌∙◌, sym, ap, Bytes, List, ◌∷◌, ◌++◌, append_assoc, take,
}
use redis_in_c.Bytebuf.{live}
use redis_in_c.Resp.Outcome.{need_more}
use redis_in_c.Resp.Request.{parse_request}
use redis_in_c.Connection.{Conn}
use redis_in_c.Connection.Conversation.{arrived}
use redis_in_c.Connection.Serial.{Command}
use redis_in_c.Connection.Splits.{text_of, text_of-append, text_of_join}
use redis_in_c.Server.{Server, AcceptResult}
use redis_in_c.Server.Loop.{Ready}
use redis_in_c.Server.Services.{Service, calls_of, Occasion, serves, admits, services_of}
use redis_in_c.Server.Order.{
  Order, commands_of, before, before-append, same, other, commands_of-before_self,
  commands_of-before_ne,
}
use redis_in_c.Server.Stepping.{Step}
use redis_in_c.Server.Advance.{conns_then}
use redis_in_c.Server.Starting.{Prompt-none}
use redis_in_c.Server.Linear.{arrived_at, everywhere, AreOpen, Prompt}

module _ (IsClient : ℕ → Type 0) (rest : ℕ → Bytes) where
  pub Prompt-admit :
      (conns : ℕ → Conn) (asks : ℕ → List Command) (order : Order) (ready : Ready)
      (answers : List AcceptResult) (es : List Occasion) (s : Server)
      → AreOpen IsClient rest s conns asks (services_of es)
      → ((n : ℕ) → Prompt IsClient rest conns order (take n es))
      → (n : ℕ) → Prompt IsClient rest conns order (take n (admits ready answers ∷ es))
  Prompt-admit conns asks order ready answers es s a h zero =
      Prompt-none IsClient rest conns asks s (services_of es) order a
  Prompt-admit conns asks order ready answers es s a h (suc n) =
      let x = h n in record { first = x.first; last = x.last; split = x.split; come = x.come }

  module _ (v : Service) (es : List Occasion) (s t : Server) (conns : ℕ → Conn)
      (asks : ℕ → List Command) (a : AreOpen IsClient rest s conns asks (v ∷ services_of es))
      (c : IsClient v.fd)
      (st : Step v s t
        (conns v.fd)
        (asks v.fd)
        (rest v.fd)
        (arrived_at v.fd (services_of es))) where
    abbrev later : ℕ → Conn
    later = conns_then IsClient rest v (services_of es) s t conns asks a c st

    abbrev Reached : (ℕ → Conn) → Order → List Service → ℕ → Type 0
    Reached ks first vs g =
        (part : Bytes) × (live (ks g).in_buf ++ arrived_at g vs
          ≡ text_of (commands_of g first) part)
        × (parse_request part ≡ need_more)

    -- The bytes of the event, and of those behind it.
    come_self :
        (first : Order) (vs : List Service)
        → Reached later first vs v.fd
        → Reached conns (before v.fd st.done first) (v ∷ vs) v.fd
    come_self first vs (part, e, idle) =
        let new = arrived (calls_of v) in
        let old = live (conns v.fd).in_buf in
        let more = arrived_at v.fd vs in
        let e' : live st.conn.in_buf ++ more ≡ text_of (commands_of v.fd first) part =
          rw (same v.fd) at e in
        (
          part,
          rw (same v.fd) (
              sym (append_assoc old new more)
              ∙ ap (λ b. b ++ more) st.front
              ∙ text_of-append st.done (live st.conn.in_buf) more
              ∙ ap (text_of st.done) e'
              ∙ text_of_join st.done (commands_of v.fd first) part
              ∙ ap (λ l. text_of l part) (sym (commands_of-before_self v.fd st.done first))),
          idle,
        )

    come_ne :
        (first : Order) (vs : List Service) (g : ℕ)
        → v.fd ≢ g
        → Reached later first vs g
        → Reached conns (before v.fd st.done first) (v ∷ vs) g
    come_ne first vs g ne (part, e, idle) = (
      part,
      rw (other v.fd g ne) (
          (rw (other v.fd g ne) at e)
          ∙ ap (λ l. text_of l part) (sym (commands_of-before_ne v.fd g st.done first ne))),
      idle,
    )

    pub Prompt-cons :
        (order : Order)
        → ((n : ℕ) → Prompt IsClient rest later order (take n es))
        → (n : ℕ) → Prompt IsClient rest conns (before v.fd st.done order) (take n (serves v ∷ es))
    Prompt-cons order h zero =
        Prompt-none IsClient rest conns asks s (v ∷ services_of es) (before v.fd st.done order) a
    Prompt-cons order h (suc n) =
        let x = h n in
        let vs = services_of (take n es) in
        record {
          first = before v.fd st.done x.first;
          last = x.last;
          split = ap (before v.fd st.done) x.split ∙ before-append v.fd st.done x.first x.last;
          come =
              everywhere v.fd
                (λ g. IsClient g → Reached conns (before v.fd st.done x.first) (v ∷ vs) g)
                (λ k. come_self x.first vs (x.come v.fd k))
                (λ g ne k. come_ne x.first vs g ne (x.come g k));
        }
