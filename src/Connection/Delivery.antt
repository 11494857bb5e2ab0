-- ===== src/Connection/Delivery.antt =====
-- src/networking.c: with no allocation refused, the read loop of `handle_read` takes in all that a
-- well-behaved socket delivers.
use redis_in_c.Prelude.{
  ◌+◌, ◌≤◌, ◌<◌, ◌≡◌, ◌∙◌, refl, sym, ap, arith, inl, inr, leb, Bytes, none, List, [], ◌∷◌, ◌++◌,
  length, false, take, length-take, length-append, append-nil, append_assoc,
}
use redis_in_c.Heap.{Heap, Rc-cases}
use redis_in_c.Bytebuf.{Bytebuf, live, live_len, reserve, max_cap}
use redis_in_c.Bytebuf.Inv.{IsValid}
use redis_in_c.Bytebuf.Ensure.{reserve-Ensured}
use redis_in_c.Bytebuf.Refine.{advance_lem, length-live, live_len-eq}
use redis_in_c.Connection.{
  read_chunk, ReadResult, got, read_again, read_interrupted, read_failed, Drained, stopped,
  with_tail, on_bytes, on_read, drain,
}
use redis_in_c.Connection.Draining.{arriving}

-- The peer neither hangs up nor fails before the socket would block.
abbrev pub IsPolite : List ReadResult → Type 0
IsPolite [] = Unit
IsPolite (got bytes ∷ rs) = (0 < length bytes) × IsPolite rs
IsPolite (read_again ∷ rs) = Unit
IsPolite (read_interrupted ∷ rs) = IsPolite rs
IsPolite (read_failed ∷ rs) = ⊥

-- A round that goes on to its `read`.
record Goes (b : Bytebuf) (k : Heap → Bytebuf → Drained) : Type 0 where
  next : Bytebuf
  valid : IsValid next
  same : live next ≡ live b
  room : next.len + read_chunk ≤ next.cap
  goes : with_tail [] b k ≡ k [] next

with_tail-Goes :
    (b : Bytebuf) (k : Heap → Bytebuf → Drained)
    → IsValid b
    → length (live b) + read_chunk ≤ max_cap
    → Goes b k
unfolding with_tail
with_tail-Goes b k v le =
    let (rc, b', h') = reserve [] b read_chunk in
    let s = reserve-Ensured [] b read_chunk v in
    let small : leb max_cap (live_len b) ≡ false = ground (arith, length-live b v) in
    elim (Rc-cases rc) [
      | inl g ↦ record {
        next = b';
        valid = s.valid;
        same = s.same;
        room = s.room g;
        goes = rw (small, g, s.calm refl) refl;
      }
      | inr f ↦ absurd (omega (arith, s.full f refl, length-live b v, live_len-eq b v))
    ]

-- The loop has stopped without an error, with these bytes behind those that were there.
abbrev pub Delivers : Bytebuf → Bytes → Drained → Type 0
Delivers b new d =
    (b' : Bytebuf) × (d ≡ stopped none [] b') × IsValid b' × (live b' ≡ live b ++ new)

ends : (b : Bytebuf) (g : Goes b (stopped none)) → Delivers b [] (with_tail [] b (stopped none))
ends b g = (g.next, g.goes, g.valid, g.same ∙ sym (append-nil (live b)))

on_bytes-Delivers :
    (bytes new : Bytes) (k : Heap → Bytebuf → Drained) (b : Bytebuf)
    → 0 < length bytes
    → length bytes ≤ read_chunk
    → IsValid b
    → b.len + read_chunk ≤ b.cap
    → ((b' : Bytebuf) → IsValid b' → live b' ≡ live b ++ bytes → Delivers b' new (k [] b'))
    → Delivers b (bytes ++ new) (on_bytes bytes k [] b)
unfolding on_bytes
on_bytes-Delivers [] new k b some le v room next = absurd (omega arith)
on_bytes-Delivers (x ∷ bytes) new k b some le v room next =
    let (v', now) = advance_lem b (x ∷ bytes) v (omega arith) in
    let (b', e, w, all) = next _ v' now in
    (b', e, w, all ∙ ap (λ r. r ++ new) now ∙ append_assoc (live b) (x ∷ bytes) new)

Delivers-same :
    (a b : Bytebuf) (new : Bytes) (d e : Drained)
    → live a ≡ live b
    → d ≡ e
    → Delivers a new e
    → Delivers b new d
Delivers-same a b new d e same eq (b', f, w, all) = (b', eq ∙ f, w, all ∙ ap (λ r. r ++ new) same)

-- From a valid buffer and with no allocation refused, the read loop stops without an error and with
-- all that arrives behind the unread bytes, when the peer neither hangs up nor fails and the bytes
-- fit under 16 MiB with the room for one more read.
pub drain-Delivers :
    (reads : List ReadResult) (b : Bytebuf)
    → IsValid b
    → IsPolite reads
    → length (live b) + length (arriving reads) + read_chunk ≤ max_cap
    → Delivers b (arriving reads) (drain reads [] b)
unfolding drain on_read
drain-Delivers [] b v p le = ends b (with_tail-Goes b (stopped none) v (omega arith))
drain-Delivers (read_again ∷ rs) b v p le = ends b (with_tail-Goes b (stopped none) v (omega arith))
drain-Delivers (read_failed ∷ rs) b v p le = absurd p
drain-Delivers (read_interrupted ∷ rs) b v p le =
    let g = with_tail-Goes b (drain rs) v (omega arith) in
    Delivers-same g.next b (arriving rs) _ _ g.same g.goes
      (drain-Delivers rs g.next g.valid p (omega (arith, ap length g.same)))
drain-Delivers (got bytes ∷ rs) b v p le =
    let chunk = take read_chunk bytes in
    let sizes = length-append chunk (arriving rs) in
    let g = with_tail-Goes b (on_bytes chunk (drain rs)) v (omega (arith, sizes)) in
    Delivers-same g.next b (chunk ++ arriving rs) _ _ g.same g.goes (
      on_bytes-Delivers chunk (arriving rs) (drain rs) g.next
        (omega (arith, length-take read_chunk bytes, p.0))
        (omega (arith, length-take read_chunk bytes)) g.valid g.room
        (λ b' v' now. drain-Delivers rs b' v' p.1 (
          omega
            (arith, sizes, ap length now, ap length g.same, length-append (live g.next) chunk))))
