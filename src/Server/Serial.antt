-- ===== src/Server/Serial.antt =====
-- src/networking.c: the clients of a batch are served one after the other, as by one key-value machine.
use redis_in_c.Prelude.{
  ℕ, ◌≡◌, ◌≢◌, ◌∙◌, refl, sym, subst, ap, Bool, true, false, if◌then◌else◌, Option, some, List, [],
  ◌∷◌, All, map,
}
use redis_in_c.Heap.{Rc, ok, fail}
use redis_in_c.Resp.Streams.{encode_replies}
use redis_in_c.Command.Machine.{perform_all}
use redis_in_c.Command.Refines.{view}
use redis_in_c.Connection.{Conn, State, handle_read, handle_write}
use redis_in_c.Connection.Serial.{performed, handle_read-Performs}
use redis_in_c.Connection.Appends.{performed-append}
use redis_in_c.Connection.Validity.{IsSound}
use redis_in_c.Connection.Writing.{IsWorking}
use redis_in_c.Server.{Server, conn_of, set_conn, close_conn}
use redis_in_c.Server.Loop.{
  Ready, Io, after_write, write_event, after_read, client_event, run_batch,
}
use redis_in_c.Server.Clients.{All-conn_of, conn_of-set_self}
use redis_in_c.Server.Running.{IsRunning, Distinct}
use redis_in_c.Server.Visits.{
  Visit, event_of, commands_of, Arrives, Visits, IsReadOnly, HasReplies, Replied, fds_of,
  Visits-move, untouched, Replied-move,
}
use redis_in_c.Server.Serving.{client_event-Keeps}

-- Writing leaves the store and the allocator.
abbrev Stays : State → Server → Type 0
Stays r t = (t.store ≡ r.store) × (t.heap ≡ r.heap)

after_write-Stays :
    (fd : ℕ) (r : State) (s : Server) (out : Rc × Conn) → Stays r s → Stays r (after_write fd s out)
unfolding after_write close_conn
after_write-Stays fd r s (ok, c) h = h
after_write-Stays fd r s (fail, c) h = h

pick : (b : Bool) (r : State) (x y : Server) → Stays r x → Stays r y → Stays r (if b then x else y)
pick true r x y f g = f
pick false r x y f g = g

pick_rc :
    (rc : Rc) (r : State) (x y : Server)
    → Stays r x
    → Stays r y
    → Stays r (elim rc [ ok ↦ x | fail ↦ y ])
pick_rc ok r x y f g = f
pick_rc fail r x y f g = g

after_read-Stays :
    (fd : ℕ) (ready : Ready) (io : Io) (s : Server) (r : State)
    → Stays r (after_read fd ready io s r)
unfolding after_read write_event close_conn
after_read-Stays fd ready io s r =
    let s' : Server = record s {
      store = r.store;
      heap = r.heap;
      conns = set_conn fd r.conn s.conns;
    } in
    pick_rc r.rc r (write_event fd ready io r.conn s') (close_conn fd s')
      (pick ready.writable r _ s'
        (after_write-Stays fd r s' (handle_write io.write_ctl io.writes r.conn) (refl, refl))
        (refl, refl))
      (refl, refl)

client_event-Performs :
    (v : Visit) (k : Conn) (s : Server)
    → IsSound k s.store
    → s.heap ≡ []
    → Arrives (view s.store) v k
    → let t = client_event v.fd v.ready v.io k s in
      (view t.store ≡ (performed v.asks (view s.store)).1) × (t.heap ≡ [])
unfolding client_event
client_event-Performs v k s sound calm a =
    let p =
      handle_read-Performs v.io.read_ctl v.io.reads k s.store v.asks v.rest sound a.live_on a.polite
        a.short a.room a.text a.asked a.waits in
    let (same, kept) =
      after_read-Stays v.fd v.ready v.io s (handle_read v.io.read_ctl v.io.reads k s.store []) in
    rw (a.healthy, a.readable, calm) (ap view same ∙ p.store, kept ∙ p.calm)

after_read-conn :
    (fd : ℕ) (ready : Ready) (io : Io) (k : Conn) (s : Server) (r : State)
    → r.rc ≡ ok
    → ready.writable ≡ false
    → conn_of fd s.conns ≡ some k
    → conn_of fd (after_read fd ready io s r).conns ≡ some r.conn
unfolding after_read write_event
after_read-conn fd ready io k s r good w e = rw (good, w) (conn_of-set_self fd k r.conn s.conns e)

client_event-HasReplies :
    (v : Visit) (k : Conn) (s : Server)
    → IsSound k s.store
    → s.heap ≡ []
    → Arrives (view s.store) v k
    → IsReadOnly v
    → conn_of v.fd s.conns ≡ some k
    → HasReplies v.fd
        (encode_replies (performed v.asks (view s.store)).0)
        s
        (client_event v.fd v.ready v.io k s)
unfolding client_event
client_event-HasReplies v k s sound calm a (ctl, w) e =
    let r = handle_read v.io.read_ctl v.io.reads k s.store [] in
    let p =
      handle_read-Performs v.io.read_ctl v.io.reads k s.store v.asks v.rest sound a.live_on a.polite
        a.short a.room a.text a.asked a.waits in
    (
      k,
      r.conn,
      e,
      rw (a.healthy, a.readable, calm) (after_read-conn v.fd v.ready v.io k s r (p.kept ctl) w e),
      p.queued,
    )

-- What a batch of visits makes of the server.
record Serves (vs : List Visit) (s : Server) (out : Option Server) : Type 0 where
  pub final : Server
  pub ran : out ≡ some final
  pub store : view final.store ≡ (performed (commands_of vs) (view s.store)).1
  pub others : (g : ℕ) → All (λ f. f ≢ g) (fds_of vs) → conn_of g final.conns ≡ conn_of g s.conns
  pub replied : All IsReadOnly vs → Replied (view s.store) vs s final

module _ (efd lfd : ℕ) (base : List ℕ) where
  serve :
      (next_fd : List ℕ → ℕ) (vs : List Visit) (s : Server)
      → IsRunning efd lfd base s
      → s.heap ≡ []
      → Distinct (fds_of vs)
      → Visits (λ fd. conn_of fd s.conns) (view s.store) vs
      → Serves vs s (run_batch next_fd (map (λ (v : Visit). event_of v) vs) s)
  unfolding run_batch
  serve next_fd [] s r calm d h = record {
    final = s;
    ran = refl;
    store = unfold perform_all in refl;
    others = λ g n. refl;
    replied = λ q. tt;
  }
  serve next_fd (v ∷ vs) s r calm d ((k, e, a), h) =
      let w = All-conn_of IsWorking v.fd k s.conns r.working e in
      let sound : IsSound k s.store = record {
        table = r.table;
        sized = r.sized;
        input = w.input;
        output = w.output;
      } in
      let t = client_event v.fd v.ready v.io k s in
      let kept = client_event-Keeps efd lfd base v.fd v.ready v.io k s r e in
      let (seen, calm') = client_event-Performs v k s sound calm a in
      let same = untouched (fds_of vs) v.fd _ kept.others d.0 in
      let h' =
        subst (λ m. Visits (λ fd. conn_of fd t.conns) m vs) (sym seen)
          (Visits-move vs _ (λ fd. conn_of fd t.conns) _ same h) in
      let ih = serve next_fd vs t kept.running calm' d.1 h' in
      record {
        final = ih.final;
        ran = rw (e, run_batch) ih.ran;
        store =
            ih.store
            ∙ ap (λ m. (performed (commands_of vs) m).1) seen
            ∙ sym (performed-append v.asks (commands_of vs) (view s.store)).1;
        others = λ g n. ih.others g n.1 ∙ kept.others g n.0;
        replied = λ q.
            let (k0, k', was, now, text) = client_event-HasReplies v k s sound calm a q.0 e in
            (
              (k0, k', was, ih.others v.fd d.0 ∙ now, text),
              Replied-move vs (performed v.asks (view s.store)).1 s t ih.final same
                  (subst (λ m. Replied m vs t ih.final) seen (ih.replied q.1)),
            );
      }

  -- From a server in order, with no allocation refused, for a batch of readable events of
  -- distinct live connections, open for reads, whose peers neither hang up nor fail and that are
  -- not reported writable, and where epoll_ctl succeeds and the bytes of each, with its replies,
  -- fit under 16 MiB: where the bytes of each client are commands other than KEYS and DBSIZE with
  -- sendable arguments, one behind the other, and an unfinished rest, the batch leaves a store in
  -- which every lookup finds what a key-value machine holds behind the commands of all of the
  -- clients in the order of the events, and behind the bytes that were to be sent to each client
  -- the encoded replies of that machine to the commands of this client at their turn.
  pub run_batch_serial :
      (next_fd : List ℕ → ℕ) (vs : List Visit) (s : Server)
      → IsRunning efd lfd base s
      → s.heap ≡ []
      → Distinct (fds_of vs)
      → Visits (λ fd. conn_of fd s.conns) (view s.store) vs
      → All IsReadOnly vs
      → (t : Server) × (run_batch next_fd (map (λ (v : Visit). event_of v) vs) s ≡ some t)
        × (view t.store ≡ (performed (commands_of vs) (view s.store)).1)
        × Replied (view s.store) vs s t
  run_batch_serial next_fd vs s r calm d h q =
      let x = serve next_fd vs s r calm d h in (x.final, x.ran, x.store, x.replied q)
