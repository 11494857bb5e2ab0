-- ===== src/Connection/Handing.antt =====
-- src/networking.c: `handle_write` on a connection that stays open, where the peer takes bytes or not
-- but does not fail.
use redis_in_c.Prelude.{
  ◌≡◌, ◌∙◌, refl, ap, Bool-cases, inl, inr, ltb, ◌==◌, Bool, true, false, if◌then◌else◌, Bytes,
  List, [], ◌∷◌, ◌++◌, append-nil,
}
use redis_in_c.Heap.{Rc, ok}
use redis_in_c.Bytebuf.{Bytebuf, live, live_len}
use redis_in_c.Bytebuf.Inv.{IsValid}
use redis_in_c.Connection.{
  Conn, epollin, WriteResult, wrote, write_again, write_interrupted, write_failed, Flushed, drained,
  blocked, gone, on_write, flush, arm_events, after_flush, handle_write,
}
use redis_in_c.Connection.Flushing.{Sends, flush-Sends}

-- The peer does not fail before the socket would block.
abbrev pub IsWilling : List WriteResult → Type 0
IsWilling [] = Unit
IsWilling (wrote n ∷ rs) = IsWilling rs
IsWilling (write_again ∷ rs) = Unit
IsWilling (write_interrupted ∷ rs) = IsWilling rs
IsWilling (write_failed ∷ rs) = ⊥

-- The bytes that the socket has taken.
abbrev pub taken : Flushed → Bytes
taken (drained sent b) = sent
taken (blocked sent b) = sent
taken (gone sent b) = sent

abbrev IsThere : Flushed → Type 0
IsThere (gone sent b) = ⊥
IsThere _ = Unit

on_write-IsThere :
    (r : WriteResult) (rs : List WriteResult) (k : Bytes → Bytebuf → Flushed) (sent : Bytes)
    (b : Bytebuf)
    → (IsWilling rs → (sent : Bytes) (b : Bytebuf) → IsThere (k sent b))
    → IsWilling (r ∷ rs)
    → IsThere (on_write r k sent b)
unfolding on_write
on_write-IsThere (wrote n) rs k sent b ih h = ih h _ _
on_write-IsThere write_again rs k sent b ih h = tt
on_write-IsThere write_interrupted rs k sent b ih h = ih h sent b
on_write-IsThere write_failed rs k sent b ih h = absurd h

flush-IsThere :
    (writes : List WriteResult) (sent : Bytes) (b : Bytebuf)
    → IsWilling writes
    → IsThere (flush writes sent b)
unfolding flush
flush-IsThere [] sent b h = elim (Bool-cases (ltb 0 (live_len b))) [
  | inl t ↦ rw t tt
  | inr f ↦ rw f tt
]
flush-IsThere (r ∷ rs) sent b h = elim (Bool-cases (ltb 0 (live_len b))) [
  | inl t ↦ rw t (on_write-IsThere r rs (flush rs) sent b (λ w s b'. flush-IsThere rs s b' w) h)
  | inr f ↦ rw f tt
]

-- What the socket has taken and what is left are the bytes that were to be sent; nothing else
-- changes but the interest mask.
pub record Hands (c : Conn) (sent : Bytes) (out : Rc × Conn) : Type 0 where
  pub good : out.0 ≡ ok
  pub input : out.1.in_buf ≡ c.in_buf
  pub still_open : out.1.close_after_drain ≡ false
  pub valid : IsValid out.1.out_buf
  pub split : sent ++ live out.1.out_buf ≡ live c.out_buf

stays :
    (b : Bool) (c : Conn) (sent : Bytes) (x y : Rc × Conn)
    → b ≡ false
    → Hands c sent y
    → Hands c sent (if b then x else y)
stays true c sent x y e h = cc
stays false c sent x y e h = h

after_flush-Hands :
    (c : Conn) (f : Flushed)
    → c.close_after_drain ≡ false
    → IsThere f
    → Sends (live c.out_buf) f
    → Hands c (taken f) (after_flush ok c f)
unfolding after_flush arm_events
after_flush-Hands c (gone sent b) o h s = absurd h
after_flush-Hands c (blocked sent b) o h s = record {
  good = refl;
  input = refl;
  still_open = o;
  valid = s.0;
  split = s.1;
}
after_flush-Hands c (drained sent b) o h (v, all, nil) =
    let rest = ap (λ r. sent ++ r) nil ∙ append-nil sent ∙ all in
    stays c.close_after_drain c sent _ _ o (elim (Bool-cases (c.events == epollin)) [
      | inl t ↦ rw t (record { good = refl; input = refl; still_open = o; valid = v; split = rest })
      | inr f ↦ rw f (record { good = refl; input = refl; still_open = o; valid = v; split = rest })
    ])

pub handle_write-Hands :
    (writes : List WriteResult) (c : Conn)
    → IsValid c.out_buf
    → c.close_after_drain ≡ false
    → IsWilling writes
    → Hands c (taken (flush writes [] c.out_buf)) (handle_write ok writes c)
unfolding handle_write
handle_write-Hands writes c v o h =
    after_flush-Hands c (flush writes [] c.out_buf) o (flush-IsThere writes [] c.out_buf h)
      (flush-Sends writes c.out_buf v)
