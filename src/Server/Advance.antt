-- ===== src/Server/Advance.antt =====
-- src/networking.c: what an event of one client leaves to the events behind it.
use redis_in_c.Prelude.{
  ℕ, ◌+◌, ◌≤◌, ◌≡◌, ◌≢◌, ◌∙◌, refl, inl, inr, sym, subst, ap, arith, Bytes, List, ◌∷◌, ◌++◌, length,
  length-append, append_assoc,
}
use redis_in_c.Bytebuf.{live, max_cap}
use redis_in_c.Resp.Streams.{encode_replies}
use redis_in_c.Command.Machine.{View}
use redis_in_c.Command.Refines.{view}
use redis_in_c.Connection.{Conn}
use redis_in_c.Connection.Serial.{Command, performed}
use redis_in_c.Server.{Server}
use redis_in_c.Server.Services.{Service, handed}
use redis_in_c.Server.Order.{
  Order, commands_of, replies_to, before, same, other, commands_of-before_self,
  commands_of-before_ne, replies_to-before_ne,
}
use redis_in_c.Server.Stepping.{Opens, Step}
use redis_in_c.Server.Interleaving.{size_self, before-All}
use redis_in_c.Server.Linear.{arrived_at, put_at, Stands, everywhere, IsPart, AllFit, AreOpen}

module _ (IsClient : ℕ → Type 0) (rest : ℕ → Bytes) (v : Service) (vs : List Service) (s t : Server)
    (conns : ℕ → Conn) (asks : ℕ → List Command) (a : AreOpen IsClient rest s conns asks (v ∷ vs))
    (c : IsClient v.fd)
    (st : Step v s t (conns v.fd) (asks v.fd) (rest v.fd) (arrived_at v.fd vs)) where
  abbrev pub conns_then : ℕ → Conn
  conns_then = put_at v.fd st.conn conns

  abbrev pub asks_then : ℕ → List Command
  asks_then = put_at v.fd st.left asks

  still : (g : ℕ) → v.fd ≢ g → Stands g s (conns g) → Stands g t (conns g)
  still g ne (inl e) = inl (st.others g ne ∙ e)
  still g ne (inr (e, new)) = inr (st.others g ne ∙ e, new)

  places : (g : ℕ) → IsClient g → Stands g t (conns_then g)
  places =
      everywhere v.fd (λ g. IsClient g → Stands g t (conns_then g))
        (λ k. rw (same v.fd) (inl st.here))
        (λ g ne k. rw (other v.fd g ne) (still g ne (a.places g k)))

  -- Another connection, over the store that the event has left.
  kept : (g : ℕ) → v.fd ≢ g → IsClient g → Opens t (conns g) (asks g) (rest g) (arrived_at g vs)
  kept g ne k =
      let o = a.opens g k in
      let skip : arrived_at g (v ∷ vs) ≡ arrived_at g vs = rw (other v.fd g ne) refl in
      let w = st.opens.waiting in
      record {
        waiting = record {
          sound = record {
            table = w.sound.table;
            sized = w.sound.sized;
            input = o.waiting.sound.input;
            output = o.waiting.sound.output;
          };
          calm = w.calm;
          still_open = o.waiting.still_open;
          idle = o.waiting.idle;
        };
        short = omega (arith, o.short, ap length skip);
        text = ap (λ b. live (conns g).in_buf ++ b) (sym skip) ∙ o.text;
        asked = o.asked;
      }

  opens : (g : ℕ) → IsClient g → Opens t (conns_then g) (asks_then g) (rest g) (arrived_at g vs)
  opens =
      everywhere v.fd
        (λ g. IsClient g → Opens t (conns_then g) (asks_then g) (rest g) (arrived_at g vs))
        (λ k. rw (same v.fd) st.opens) (λ g ne k. rw (other v.fd g ne) (kept g ne k))

  parts :
      (os : Order)
      → IsPart IsClient rest os asks_then
      → IsPart IsClient rest (before v.fd st.done os) asks
  parts os part =
      everywhere v.fd
        (λ g.
          IsClient g → (l : List Command) × (asks g ≡ commands_of g (before v.fd st.done os) ++ l))
        (λ k.
          let (l, e) = part v.fd k in
          (
            l,
            st.whole
                ∙ ap (λ r. st.done ++ r) (rw (same v.fd) at e)
                ∙ sym (append_assoc st.done (commands_of v.fd os) l)
                ∙ ap (λ r. r ++ l) (sym (commands_of-before_self v.fd st.done os)),
          ))
        (λ g ne k.
          let (l, e) = part g k in
          (
            l,
            (rw (other v.fd g ne) at e)
                ∙ ap (λ r. r ++ l) (sym (commands_of-before_ne v.fd g st.done os ne)),
          ))

  abbrev Bound : Order → View → ℕ → Type 0
  Bound os m g =
      length (live (conns_then g).out_buf) + length (encode_replies (replies_to g os m)) + 1
      ≤ max_cap

  room : AllFit IsClient rest (view t.store) conns_then asks_then
  room os own part g k =
      let m = view s.store in
      let first =
        a.room (before v.fd st.done os) (before-All IsClient v.fd st.done os c own)
          (parts os part) in
      subst (λ u. Bound os u g) (sym st.seen)
        (everywhere v.fd (λ g. IsClient g → Bound os (performed st.done m).1 g)
          (λ k. rw (same v.fd) (
            omega (
              arith,
              first v.fd k,
              size_self v.fd st.done os m,
              ap length st.told,
              length-append (handed v (conns v.fd) s) (live st.conn.out_buf),
              length-append (live (conns v.fd).out_buf) (encode_replies (performed st.done m).0),
            )))
          (λ g ne k. rw (other v.fd g ne) (
            omega (
              arith,
              first g k,
              ap (λ rs. length (encode_replies rs)) (replies_to-before_ne v.fd g st.done os m ne),
            )))
          g k)

  pub then_AreOpen : AreOpen IsClient rest t conns_then asks_then vs
  then_AreOpen = record {
    calm = st.opens.waiting.calm;
    places = places;
    opens = opens;
    room = room;
  }
