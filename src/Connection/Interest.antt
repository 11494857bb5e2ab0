-- ===== src/Connection/Interest.antt =====
-- src/networking.c: the interest mask that `handle_read` and `handle_write` leave.
use redis_in_c.Prelude.{
  ℕ, ◌+◌, ◌<◌, ◌≡◌, refl, sym, ap, subst, arith, Bool, true, false, ◌&&◌, Bool-cases, inl, inr, ltb,
  ◌==◌, if◌then◌else◌, Bytes, Option, List,
}
use redis_in_c.Heap.{Heap, Rc, ok, fail, Rc-cases}
use redis_in_c.Bytebuf.{live_len}
use redis_in_c.Hashtable.{Hashtable}
use redis_in_c.Connection.{
  Conn, epollin, epollout, State, arm_events, rearm, queue_error, finish_read, after_drain,
  Dispatched, idle, broken, out_of_fuel, Drained, hung_up, stopped, drain, ReadResult, handle_read,
}

-- Reads are waited for unless the connection winds down, writes while there are bytes to be sent,
-- and at least one of both.
abbrev pub IsArmed : Conn → Type 0
IsArmed c =
    (c.events
      ≡ (if c.close_after_drain then 0 else epollin)
        + (if ltb 0 (live_len c.out_buf) then epollout else 0))
    × (0 < c.events)

pub arm_events_lem :
    (ctl : Rc) (c : Conn) (events : ℕ)
    → (arm_events ctl c events).0 ≡ ok
    → (arm_events ctl c events).1 ≡ record c { events = events }
unfolding arm_events
arm_events_lem ctl c events e = elim (Bool-cases (c.events == events)) [
  | inl t ↦
      let same : c.events ≡ events = ground arith in rw t (ap (λ n. record c { events = n }) same)
  | inr f ↦ elim (Rc-cases ctl) [ inl g ↦ rw (f, g) refl | inr g ↦ cc (rw (f, g) at e) ]
]

pick :
    (b : Bool) (x y : State)
    → (b ≡ true → x.rc ≡ ok → IsArmed x.conn)
    → (b ≡ false → y.rc ≡ ok → IsArmed y.conn)
    → (if b then x else y).rc ≡ ok
    → IsArmed (if b then x else y).conn
pick true x y f g e = f refl e
pick false x y f g e = g refl e

rearm-IsArmed :
    (ctl : Rc) (c : Conn) (t : Hashtable) (h : Heap)
    → (rearm ctl c t h).rc ≡ ok
    → IsArmed (rearm ctl c t h).conn
unfolding rearm
rearm-IsArmed ctl c t h e =
    let closed : State = record { rc = fail; conn = c; store = t; heap = h } in
    let want =
      (if c.close_after_drain then 0 else epollin)
      + (if ltb 0 (live_len c.out_buf) then epollout else 0) in
    pick (c.close_after_drain && live_len c.out_buf == 0) closed _ (λ t bad. cc)
      (λ f.
        pick (want == 0) closed _ (λ z bad. cc)
          (λ g good. subst IsArmed (sym (arm_events_lem ctl c want good)) (refl, positive want g)))
      e
  where
    positive : (n : ℕ) → n == 0 ≡ false → 0 < n
    positive n f = ground arith

finish_read-IsArmed :
    (ctl : Rc) (c : Conn) (msg : Option Bytes) (d : Dispatched)
    → (finish_read ctl c msg d).rc ≡ ok
    → IsArmed (finish_read ctl c msg d).conn
unfolding finish_read
finish_read-IsArmed ctl c msg (idle closing ctx b) e =
    let (ctx', closing') = queue_error msg ctx closing in
    rearm-IsArmed ctl (record c { in_buf = b; out_buf = ctx'.out; close_after_drain = closing' })
      ctx'.store ctx'.heap e
finish_read-IsArmed ctl c msg (broken ctx b) e = cc
finish_read-IsArmed ctl c msg (out_of_fuel ctx b) e = cc

after_drain-IsArmed :
    (ctl : Rc) (c : Conn) (t : Hashtable) (d : Drained)
    → (after_drain ctl c t d).rc ≡ ok
    → IsArmed (after_drain ctl c t d).conn
unfolding after_drain
after_drain-IsArmed ctl c t (hung_up h b) e = cc
after_drain-IsArmed ctl c t (stopped msg h b) e = finish_read-IsArmed ctl c msg _ e

-- A connection that winds down waits for the rest of its output to be sent.
winding_down :
    (closing : Bool) (n : ℕ)
    → closing ≡ true
    → n == 0 ≡ false
    → epollout ≡ (if closing then 0 else epollin) + (if ltb 0 n then epollout else 0)
winding_down closing n t f = ground arith

-- When handle_read succeeds, the interest mask has EPOLLIN exactly where the connection does not
-- wind down and EPOLLOUT exactly where there are bytes to be sent, and it is not empty.
pub handle_read-IsArmed :
    (ctl : Rc) (reads : List ReadResult) (c : Conn) (t : Hashtable) (h : Heap)
    → (handle_read ctl reads c t h).rc ≡ ok
    → IsArmed (handle_read ctl reads c t h).conn
unfolding handle_read
handle_read-IsArmed ctl reads c t h e =
    pick c.close_after_drain _ _
      (λ closing.
        pick (live_len c.out_buf == 0) (record { rc = fail; conn = c; store = t; heap = h }) _
          (λ z bad. cc)
          (λ f good.
            subst IsArmed (sym (arm_events_lem ctl c epollout good))
              (winding_down c.close_after_drain (live_len c.out_buf) closing f, omega arith)))
      (λ alive. after_drain-IsArmed ctl c t (drain reads h c.in_buf)) e
