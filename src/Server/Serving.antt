-- ===== src/Server/Serving.antt =====
-- src/networking.c: what the event of one client does to the server.
use redis_in_c.Prelude.{
  ℕ, ◌≡◌, ◌≢◌, ◌∙◌, refl, sym, ap, Bool, true, false, if◌then◌else◌, some, List, ◌++◌, ◌∷◌,
}
use redis_in_c.Heap.{Heap, Rc, ok, fail}
use redis_in_c.Hashtable.{Hashtable}
use redis_in_c.Hashtable.Sizes.{IsSized}
use redis_in_c.Hashtable.Inv
use redis_in_c.Connection.{Conn, State, handle_write}
use redis_in_c.Connection.Validity.{IsSound, handle_read-IsSound}
use redis_in_c.Connection.Writing.{IsWorking, handle_write-IsWorking, handle_read-IsWorking}
use redis_in_c.Server.{Client, Server, close, close_conn, conn_of, set_conn, unlink, fds}
use redis_in_c.Server.Loop.{Ready, Io, after_write, write_event, after_read, client_event}
use redis_in_c.Server.Clients.{
  conn_of-unlink_ne, conn_of-set_ne, conn_of-set_self, fds-set_conn, close-fds, All-unlink,
  All-set_conn, All-conn_of, unlink-set_conn,
}
use redis_in_c.Server.Running.{IsRunning, close-Distinct}

module _ (efd lfd : ℕ) (base : List ℕ) where
  -- The server stays in order, and no connection but that of `fd` is touched.
  pub record Keeps (fd : ℕ) (s t : Server) : Type 0 where
    pub running : IsRunning efd lfd base t
    pub others : (g : ℕ) → fd ≢ g → conn_of g t.conns ≡ conn_of g s.conns
    pub quiet : t.shutdown ≡ s.shutdown

  -- The connection is closed, whatever was written to its node.
  close_conn-Keeps :
      (fd : ℕ) (k : Conn) (s : Server) (t : Hashtable) (h : Heap) (cs : List Client)
      → IsRunning efd lfd base s
      → conn_of fd s.conns ≡ some k
      → redis_in_c.Hashtable.Inv.IsValid t
      → IsSized t
      → unlink fd cs ≡ unlink fd s.conns
      → Keeps fd s (close_conn fd (record s { store = t; heap = h; conns = cs }))
  unfolding close_conn
  close_conn-Keeps fd k s t h cs r e v z same = record {
    running = record {
      table = v;
      sized = z;
      working = rw same (All-unlink IsWorking fd s.conns r.working);
      epoll = r.epoll;
      listen = r.listen;
      held =
          ap (close fd) r.held
          ∙ close-fds fd k s.conns (efd ∷ lfd ∷ base) e
          ∙ ap (λ u. fds u ++ efd ∷ lfd ∷ base) (sym same);
      distinct = close-Distinct fd s.files r.distinct;
    };
    others = λ g ne. ap (conn_of g) same ∙ conn_of-unlink_ne fd g s.conns ne;
    quiet = refl;
  }

  -- The connection is written back.
  set_conn-Keeps :
      (fd : ℕ) (k : Conn) (s : Server) (t : Hashtable) (h : Heap)
      → IsRunning efd lfd base s
      → redis_in_c.Hashtable.Inv.IsValid t
      → IsSized t
      → IsWorking k
      → Keeps fd s (record s { store = t; heap = h; conns = set_conn fd k s.conns })
  set_conn-Keeps fd k s t h r v z w = record {
    running = record {
      table = v;
      sized = z;
      working = All-set_conn IsWorking fd k s.conns w r.working;
      epoll = r.epoll;
      listen = r.listen;
      held = r.held ∙ ap (λ u. u ++ efd ∷ lfd ∷ base) (sym (fds-set_conn fd k s.conns));
      distinct = r.distinct;
    };
    others = λ g ne. conn_of-set_ne fd g k s.conns ne;
    quiet = refl;
  }

  Keeps-refl : (fd : ℕ) (s : Server) → IsRunning efd lfd base s → Keeps fd s s
  Keeps-refl fd s r = record { running = r; others = λ g ne. refl; quiet = refl }

  Keeps-trans : (fd : ℕ) (s t u : Server) → Keeps fd s t → Keeps fd t u → Keeps fd s u
  Keeps-trans fd s t u a b = record {
    running = b.running;
    others = λ g ne. b.others g ne ∙ a.others g ne;
    quiet = b.quiet ∙ a.quiet;
  }

  after_write-Keeps :
      (fd : ℕ) (k : Conn) (s : Server) (r : Rc × Conn)
      → IsRunning efd lfd base s
      → conn_of fd s.conns ≡ some k
      → (r.0 ≡ ok → IsWorking r.1)
      → Keeps fd s (after_write fd s r)
  unfolding after_write
  after_write-Keeps fd k s (ok, c) r e w =
      set_conn-Keeps fd c s s.store s.heap r r.table r.sized (w refl)
  after_write-Keeps fd k s (fail, c) r e w =
      close_conn-Keeps fd k s s.store s.heap _ r e r.table r.sized (unlink-set_conn fd c s.conns)

  pick :
      (b : Bool) (fd : ℕ) (s x y : Server)
      → Keeps fd s x
      → Keeps fd s y
      → Keeps fd s (if b then x else y)
  pick true fd s x y f g = f
  pick false fd s x y f g = g

  pick_rc :
      (rc : Rc) (fd : ℕ) (s x y : Server)
      → (rc ≡ ok → Keeps fd s x)
      → Keeps fd s y
      → Keeps fd s (elim rc [ ok ↦ x | fail ↦ y ])
  pick_rc ok fd s x y f g = f refl
  pick_rc fail fd s x y f g = g

  write_event-Keeps :
      (fd : ℕ) (ready : Ready) (io : Io) (k : Conn) (s : Server)
      → IsRunning efd lfd base s
      → conn_of fd s.conns ≡ some k
      → Keeps fd s (write_event fd ready io k s)
  unfolding write_event
  write_event-Keeps fd ready io k s r e =
      let w = All-conn_of IsWorking fd k s.conns r.working e in
      pick ready.writable fd s _ s
        (after_write-Keeps fd k s (handle_write io.write_ctl io.writes k) r e
          (handle_write-IsWorking io.write_ctl io.writes k w))
        (Keeps-refl fd s r)

  after_read-Keeps :
      (fd : ℕ) (ready : Ready) (io : Io) (k : Conn) (s : Server) (r : State)
      → IsRunning efd lfd base s
      → conn_of fd s.conns ≡ some k
      → IsSound r.conn r.store
      → (r.rc ≡ ok → IsWorking r.conn)
      → Keeps fd s (after_read fd ready io s r)
  unfolding after_read
  after_read-Keeps fd ready io k s r run e sound w =
      let s' : Server = record s {
        store = r.store;
        heap = r.heap;
        conns = set_conn fd r.conn s.conns;
      } in
      pick_rc r.rc fd s (write_event fd ready io r.conn s') (close_conn fd s')
        (λ good.
          let back =
            set_conn-Keeps fd r.conn s r.store r.heap run sound.table sound.sized (w good) in
          Keeps-trans fd s s' _ back (
            write_event-Keeps fd ready io r.conn s' back.running
              (conn_of-set_self fd k r.conn s.conns e)))
        (close_conn-Keeps fd k s r.store r.heap _ run e sound.table sound.sized
          (unlink-set_conn fd r.conn s.conns))

  -- The event of a live connection keeps the server in order and no other connection is touched.
  pub client_event-Keeps :
      (fd : ℕ) (ready : Ready) (io : Io) (k : Conn) (s : Server)
      → IsRunning efd lfd base s
      → conn_of fd s.conns ≡ some k
      → Keeps fd s (client_event fd ready io k s)
  unfolding client_event
  client_event-Keeps fd ready io k s r e =
      let w = All-conn_of IsWorking fd k s.conns r.working e in
      let sound : IsSound k s.store = record {
        table = r.table;
        sized = r.sized;
        input = w.input;
        output = w.output;
      } in
      pick ready.failed fd s _ _
        (close_conn-Keeps fd k s s.store s.heap s.conns r e r.table r.sized refl)
        (pick ready.readable fd s _ _
          (after_read-Keeps fd ready io k s _ r e
            (handle_read-IsSound io.read_ctl io.reads k s.store s.heap sound)
            (handle_read-IsWorking io.read_ctl io.reads k s.store s.heap sound))
          (write_event-Keeps fd ready io k s r e))
