-- ===== src/Connection/Draining.antt =====
-- src/networking.c: the read loop of `handle_read` puts what arrives behind the unread bytes.
use redis_in_c.Prelude.{
  ◌+◌, ◌≤◌, ◌≡◌, ◌∙◌, refl, sym, ap, arith, Bool-cases, inl, inr, leb, Bytes, none, some, List, [],
  ◌∷◌, ◌++◌, length, take, length-take, append_assoc, append-nil,
}
use redis_in_c.Heap.{Heap, Rc-cases}
use redis_in_c.Bytebuf.{Bytebuf, live, live_len, reserve, max_cap}
use redis_in_c.Bytebuf.Inv.{IsValid}
use redis_in_c.Bytebuf.Ensure.{reserve-Ensured}
use redis_in_c.Bytebuf.Refine.{advance_lem}
use redis_in_c.Connection.{
  read_chunk, ReadResult, got, read_again, read_interrupted, read_failed, Drained, hung_up, stopped,
  with_tail, on_bytes, on_read, drain,
}

-- The bytes that the socket holds until it would block, hangs up or fails.
abbrev pub arriving : List ReadResult → Bytes
arriving [] = []
arriving (got bytes ∷ rs) = take read_chunk bytes ++ arriving rs
arriving (read_again ∷ rs) = []
arriving (read_interrupted ∷ rs) = arriving rs
arriving (read_failed ∷ rs) = []

-- Without an error all of them are behind the bytes that were there; else a first part of them is.
abbrev pub Receives : Bytes → Bytes → Drained → Type 0
Receives old new (stopped none h b) = IsValid b × (live b ≡ old ++ new)
Receives old new (stopped (some msg) h b) =
    IsValid b × ((done : Bytes) × (left : Bytes) × (done ++ left ≡ new) × (live b ≡ old ++ done))
Receives old new (hung_up h b) =
    IsValid b × ((done : Bytes) × (left : Bytes) × (done ++ left ≡ new) × (live b ≡ old ++ done))

-- Nothing is read: what was there stays.
abbrev nothing :
    (old new : Bytes) (b : Bytebuf)
    → live b ≡ old
    → (done : Bytes) × (left : Bytes) × (done ++ left ≡ new) × (live b ≡ old ++ done)
nothing old new b e = ([], new, refl, e ∙ sym (append-nil old))

with_tail-Receives :
    (h : Heap) (b : Bytebuf) (k : Heap → Bytebuf → Drained) (old new : Bytes)
    → IsValid b
    → live b ≡ old
    → ((h' : Heap) (b' : Bytebuf)
        → IsValid b'
        → live b' ≡ old
        → b'.len + read_chunk ≤ b'.cap
        → Receives old new (k h' b'))
    → Receives old new (with_tail h b k)
unfolding with_tail
with_tail-Receives h b k old new v e next = elim (Bool-cases (leb max_cap (live_len b))) [
  | inl t ↦ rw t (v, nothing old new b e)
  | inr f ↦
      let (rc, b', h') = reserve h b read_chunk in
      let s = reserve-Ensured h b read_chunk v in
      elim (Rc-cases rc) [
        | inl g ↦ rw (f, g) (next h' b' s.valid (s.same ∙ e) (s.room g))
        | inr g ↦ rw (f, g) (s.valid, nothing old new b' (s.same ∙ e))
      ]
]

-- More bytes in front of those that are yet to be read.
more :
    (old bytes new : Bytes) (d : Drained)
    → Receives (old ++ bytes) new d
    → Receives old (bytes ++ new) d
more old bytes new (stopped none h b) (v, e) = (v, e ∙ append_assoc old bytes new)
more old bytes new (stopped (some msg) h b) (v, (done, left, split, e)) = (
  v,
  (
    bytes ++ done,
    left,
    append_assoc bytes done left ∙ ap (λ r. bytes ++ r) split,
    e ∙ append_assoc old bytes done,
  ),
)
more old bytes new (hung_up h b) (v, (done, left, split, e)) = (
  v,
  (
    bytes ++ done,
    left,
    append_assoc bytes done left ∙ ap (λ r. bytes ++ r) split,
    e ∙ append_assoc old bytes done,
  ),
)

on_bytes-Receives :
    (bytes : Bytes) (k : Heap → Bytebuf → Drained) (h : Heap) (b : Bytebuf) (old new : Bytes)
    → length bytes ≤ read_chunk
    → IsValid b
    → live b ≡ old
    → b.len + read_chunk ≤ b.cap
    → ((b' : Bytebuf) → IsValid b' → live b' ≡ old ++ bytes → Receives (old ++ bytes) new (k h b'))
    → Receives old (bytes ++ new) (on_bytes bytes k h b)
unfolding on_bytes
on_bytes-Receives [] k h b old new le v e room next = (v, nothing old new b e)
on_bytes-Receives (x ∷ bytes) k h b old new le v e room next =
    let (v', now) = advance_lem b (x ∷ bytes) v (omega arith) in
    more old (x ∷ bytes) new _ (next _ v' (now ∙ ap (λ r. r ++ (x ∷ bytes)) e))

drain-Receives :
    (reads : List ReadResult) (h : Heap) (b : Bytebuf) (old : Bytes)
    → IsValid b
    → live b ≡ old
    → Receives old (arriving reads) (drain reads h b)
unfolding drain on_read
drain-Receives [] h b old v e =
    with_tail-Receives h b (stopped none) old [] v e
      (λ h' b' v' e' room. (v', e' ∙ sym (append-nil old)))
drain-Receives (read_again ∷ rs) h b old v e =
    with_tail-Receives h b (stopped none) old [] v e
      (λ h' b' v' e' room. (v', e' ∙ sym (append-nil old)))
drain-Receives (read_interrupted ∷ rs) h b old v e =
    with_tail-Receives h b (drain rs) old (arriving rs) v e
      (λ h' b' v' e' room. drain-Receives rs h' b' old v' e')
drain-Receives (read_failed ∷ rs) h b old v e =
    with_tail-Receives h b hung_up old [] v e (λ h' b' v' e' room. (v', nothing old [] b' e'))
drain-Receives (got bytes ∷ rs) h b old v e =
    let chunk = take read_chunk bytes in
    with_tail-Receives h b (on_bytes chunk (drain rs)) old (chunk ++ arriving rs) v e
      (λ h' b' v' e' room.
        on_bytes-Receives chunk (drain rs) h' b' old (arriving rs)
          (omega (arith, length-take read_chunk bytes)) v' e' room
          (λ b'' v'' e''. drain-Receives rs h' b'' (old ++ chunk) v'' e''))

-- From a valid buffer, the read loop of handle_read leaves a valid buffer in which the bytes that
-- arrived, in whatever pieces and with whatever interruptions, stand behind the unread ones in
-- their order: all of them when it stops without an error, else a first part of them.
pub drain_lem :
    (reads : List ReadResult) (h : Heap) (b : Bytebuf)
    → IsValid b
    → Receives (live b) (arriving reads) (drain reads h b)
drain_lem reads h b v = drain-Receives reads h b (live b) v refl
