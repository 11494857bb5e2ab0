-- ===== src/Server/Interleaving.antt =====
-- src/networking.c: the events of several clients, one after the other, are a run of the machine.
use redis_in_c.Prelude.{
  ℕ, ◌+◌, ◌≡◌, ◌∙◌, refl, sym, subst, ap, arith, Bytes, some, List, [], ◌∷◌, ◌++◌, length,
  length-append, All, append-nil,
}
use redis_in_c.Bytebuf.{live}
use redis_in_c.Resp.Outcome.{need_more}
use redis_in_c.Resp.Request.{parse_request}
use redis_in_c.Resp.Streams.{encode_replies}
use redis_in_c.Command.Machine.{View}
use redis_in_c.Command.Refines.{view}
use redis_in_c.Connection.{Conn}
use redis_in_c.Connection.Appends.{encode_replies-append}
use redis_in_c.Connection.Conversation.{arrived}
use redis_in_c.Connection.Serial.{Command, performed}
use redis_in_c.Connection.Splits.{text_of}
use redis_in_c.Connection.Streaming.{no_command}
use redis_in_c.Server.{Server, conn_of}
use redis_in_c.Server.Loop.{client_event}
use redis_in_c.Server.Services.{Service, calls_of, IsSmooth}
use redis_in_c.Server.Order.{
  Order, commands_of, replies_to, outcome, before, same, commands_of-before_self,
  commands_of-before_ne, replies_to-before_self,
}
use redis_in_c.Server.Stepping.{Opens, Step, HasRoom, client_event-Step}
use redis_in_c.Server.Starting.{Prompt-nil}
use redis_in_c.Server.Linear.{arrived_at, taken_at, everywhere, IsPart, AreOpen, Linear}

-- The size of the replies to a client, of which the first are to commands of its own.
pub size_self :
    (g : ℕ) (cs : List Command) (os : Order) (m : View)
    → length (encode_replies (replies_to g (before g cs os) m))
      ≡ length (encode_replies (performed cs m).0)
        + length (encode_replies (replies_to g os (performed cs m).1))
size_self g cs os m =
    let (ps, m') = performed cs m in
    ap (λ rs. length (encode_replies rs)) (replies_to-before_self g cs os m)
    ∙ ap length (encode_replies-append ps (replies_to g os m'))
    ∙ length-append (encode_replies ps) (encode_replies (replies_to g os m'))

pub before-All :
    (P : ℕ → Type 0) (fd : ℕ) (cs : List Command) (os : Order)
    → P fd
    → All (λ (o : ℕ × Command). P o.0) os
    → All (λ (o : ℕ × Command). P o.0) (before fd cs os)
before-All P fd [] os p h = h
before-All P fd (c ∷ cs) os p h = (p, before-All P fd cs os p h)

module _ (IsClient : ℕ → Type 0) (rest : ℕ → Bytes) where
  -- No event: the clients have sent no whole command.
  pub Linear-nil :
      (next_fd : List ℕ → ℕ) (s : Server) (conns : ℕ → Conn) (asks : ℕ → List Command)
      → AreOpen IsClient rest s conns asks []
      → Linear IsClient rest next_fd s conns asks [] (some s)
  unfolding outcome replies_to taken_at
  Linear-nil next_fd s conns asks a = record {
    final = s;
    ran = refl;
    order = [];
    whole = λ g c. sym (nothing g c);
    owned = tt;
    prompt = Prompt-nil IsClient rest conns asks s a;
    store = refl;
    told = λ g c. (
      conns g,
      a.places g c,
      sym (append-nil (live (conns g).out_buf)),
      sym (append-nil (live (conns g).in_buf))
          ∙ (a.opens g c).text
          ∙ ap (λ l. text_of l (rest g)) (nothing g c),
    );
  }
    where
      nothing : (g : ℕ) → IsClient g → asks g ≡ []
      nothing g c =
          let o = a.opens g c in
          no_command (asks g) (live (conns g).in_buf) (rest g) o.waiting.idle o.text o.asked

  module _ (v : Service) (vs : List Service) (s : Server) (conns : ℕ → Conn)
      (asks : ℕ → List Command) (a : AreOpen IsClient rest s conns asks (v ∷ vs))
      (c : IsClient v.fd) (here : conn_of v.fd s.conns ≡ some (conns v.fd)) where
    abbrev StepOf : Server → Type 0
    StepOf t = Step v s t (conns v.fd) (asks v.fd) (rest v.fd) (arrived_at v.fd vs)

    first_part :
        (done left : List Command)
        → asks v.fd ≡ done ++ left
        → IsPart IsClient rest (before v.fd done []) asks
    first_part done left e =
        everywhere v.fd
          (λ g.
            IsClient g → (l : List Command) × (asks g ≡ commands_of g (before v.fd done []) ++ l))
          (λ k. (
            left,
            e ∙ ap (λ l. l ++ left) (sym (commands_of-before_self v.fd done [] ∙ append-nil done)),
          ))
          (λ g ne k.
            (asks g, ap (λ l. l ++ asks g) (sym (commands_of-before_ne v.fd g done [] ne))))

    room : HasRoom (view s.store) (conns v.fd) (asks v.fd)
    unfolding replies_to
    room done left e = omega (
      arith,
      a.room (before v.fd done []) (before-All IsClient v.fd done [] c tt) (first_part done left e)
          v.fd c,
      size_self v.fd done [] (view s.store),
    )

    pub step :
        IsSmooth v
        → parse_request (rest v.fd) ≡ need_more
        → StepOf (client_event v.fd v.ready v.io (conns v.fd) s)
    step smooth waits =
        let k = conns v.fd in
        let mine : arrived_at v.fd (v ∷ vs) ≡ arrived (calls_of v) ++ arrived_at v.fd vs =
          rw (same v.fd) refl in
        client_event-Step v s k (asks v.fd) (rest v.fd) (arrived_at v.fd vs) smooth here
          (subst (Opens s k (asks v.fd) (rest v.fd)) mine (a.opens v.fd c)) waits room
