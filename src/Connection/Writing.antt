-- ===== src/Connection/Writing.antt =====
-- src/networking.c: a connection that is not to be closed has valid buffers and waits for what it
-- needs. `handle_read` and `handle_write` keep it so.
use redis_in_c.Prelude.{
  ℕ, ◌+◌, ◌<◌, ◌≡◌, refl, sym, ap, ◌∙◌, ◌++◌, subst, arith, Bool, true, false, ltb, Bytes, List, [],
  ◌∷◌, length, length-append, if◌then◌else◌,
}
use redis_in_c.Heap.{Heap, Rc, ok, fail}
use redis_in_c.Bytebuf.{Bytebuf, live, live_len}
use redis_in_c.Bytebuf.Inv.{IsValid}
use redis_in_c.Bytebuf.Refine.{length-live}
use redis_in_c.Hashtable.{Hashtable}
use redis_in_c.Connection.{
  Conn, epollin, epollout, ReadResult, WriteResult, wrote, write_again, write_interrupted,
  write_failed, Flushed, drained, blocked, gone, on_write, flush, after_flush, arm_events,
  handle_read, handle_write,
}
use redis_in_c.Connection.Flushing.{Sends, flush-Sends}
use redis_in_c.Connection.Interest.{IsArmed, arm_events_lem, handle_read-IsArmed}
use redis_in_c.Connection.Validity.{IsSound, handle_read-IsSound}

pub record IsWorking (c : Conn) : Type 0 where
  pub input : IsValid c.in_buf
  pub output : IsValid c.out_buf
  pub armed : IsArmed c

-- The loop of `handle_write` blocks only with bytes left.
abbrev Pending : Flushed → Type 0
Pending (blocked sent b) = ltb 0 (live_len b) ≡ true
Pending (drained sent b) = Unit
Pending (gone sent b) = Unit

pick :
    (t : Bool) (x y : Flushed)
    → (t ≡ true → Pending x)
    → (t ≡ false → Pending y)
    → Pending (if t then x else y)
pick true x y f g = f refl
pick false x y f g = g refl

on_write-Pending :
    (r : WriteResult) (k : Bytes → Bytebuf → Flushed) (sent : Bytes) (b : Bytebuf)
    → ((sent : Bytes) (b : Bytebuf) → Pending (k sent b))
    → ltb 0 (live_len b) ≡ true
    → Pending (on_write r k sent b)
unfolding on_write
on_write-Pending (wrote n) k sent b ih t = ih _ _
on_write-Pending write_again k sent b ih t = t
on_write-Pending write_interrupted k sent b ih t = ih _ _
on_write-Pending write_failed k sent b ih t = tt

flush-Pending :
    (writes : List WriteResult) (sent : Bytes) (b : Bytebuf) → Pending (flush writes sent b)
unfolding flush
flush-Pending [] sent b =
    pick (ltb 0 (live_len b)) (blocked sent b) (drained sent b) (λ t. t) (λ f. tt)
flush-Pending (r ∷ rs) sent b =
    pick (ltb 0 (live_len b)) (on_write r (flush rs) sent b) (drained sent b)
      (on_write-Pending r (flush rs) sent b (flush-Pending rs)) (λ f. tt)

longer : (sent rest all : Bytes) → sent ++ rest ≡ all → 0 < length rest → 0 < length all
longer sent rest all e lt = omega (arith, ap length e, length-append sent rest)

-- Where the loop blocks there were bytes to be sent at its start, too.
unsent :
    (sent : Bytes) (a b : Bytebuf)
    → IsValid a
    → IsValid b
    → sent ++ live b ≡ live a
    → ltb 0 (live_len b) ≡ true
    → ltb 0 (live_len a) ≡ ltb 0 (live_len b)
unsent sent a b va vb e p =
    let lb = length-live b vb in
    let la = length-live a va in
    let lt = longer sent (live b) (live a) e (ground (arith, lb)) in
    positive (live_len a) (omega arith) ∙ sym p
  where
    positive : (n : ℕ) → 0 < n → ltb 0 n ≡ true
    positive n h = ground arith

idle_mask :
    (closing : Bool) (n : ℕ)
    → closing ≡ false
    → n ≡ 0
    → epollin ≡ (if closing then 0 else epollin) + (if ltb 0 n then epollout else 0)
idle_mask closing n f z = rw (f, z) refl

either :
    (t : Bool) (x y : Rc × Conn)
    → (t ≡ true → x.0 ≡ ok → IsWorking x.1)
    → (t ≡ false → y.0 ≡ ok → IsWorking y.1)
    → (if t then x else y).0 ≡ ok
    → IsWorking (if t then x else y).1
either true x y f g e = f refl e
either false x y f g e = g refl e

after_flush-IsWorking :
    (ctl : Rc) (c : Conn) (f : Flushed)
    → IsWorking c
    → Sends (live c.out_buf) f
    → Pending f
    → (after_flush ctl c f).0 ≡ ok
    → IsWorking (after_flush ctl c f).1
unfolding after_flush
after_flush-IsWorking ctl c (gone sent b) w s p e = cc
after_flush-IsWorking ctl c (blocked sent b) w s p e =
    let same = unsent sent c.out_buf b w.output s.0 s.1 p in
    let mask =
      ap (λ t. (if c.close_after_drain then 0 else epollin) + (if t then epollout else 0)) same in
    record { input = w.input; output = s.0; armed = (w.armed.0 ∙ mask, w.armed.1) }
after_flush-IsWorking ctl c (drained sent b) w s p e =
    let sentall : Conn = record c { out_buf = b } in
    let none_left : live_len b ≡ 0 = sym (length-live b s.0) ∙ ap length s.2 in
    either c.close_after_drain (fail, sentall) (arm_events ctl sentall epollin) (λ t bad. cc)
      (λ f good. subst IsWorking (sym (arm_events_lem ctl sentall epollin good)) (record {
        input = w.input;
        output = s.0;
        armed = (idle_mask c.close_after_drain (live_len b) f none_left, omega arith);
      }))
      e

-- From a connection with valid buffers and the interest mask that it needs, handle_write leaves,
-- unless the connection is to be closed, valid buffers and a mask that is not empty, with EPOLLIN
-- exactly where the connection does not wind down and EPOLLOUT exactly where there are bytes to
-- be sent.
pub handle_write-IsWorking :
    (ctl : Rc) (writes : List WriteResult) (c : Conn)
    → IsWorking c
    → (handle_write ctl writes c).0 ≡ ok
    → IsWorking (handle_write ctl writes c).1
unfolding handle_write
handle_write-IsWorking ctl writes c w e =
    after_flush-IsWorking ctl c (flush writes [] c.out_buf) w
      (flush-Sends writes c.out_buf w.output) (flush-Pending writes [] c.out_buf) e

pub handle_read-IsWorking :
    (ctl : Rc) (reads : List ReadResult) (c : Conn) (t : Hashtable) (h : Heap)
    → IsSound c t
    → (handle_read ctl reads c t h).rc ≡ ok
    → IsWorking (handle_read ctl reads c t h).conn
handle_read-IsWorking ctl reads c t h s e =
    let sound = handle_read-IsSound ctl reads c t h s in
    record {
      input = sound.input;
      output = sound.output;
      armed = handle_read-IsArmed ctl reads c t h e;
    }
