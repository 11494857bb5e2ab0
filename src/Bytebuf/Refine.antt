-- ===== src/Bytebuf/Refine.antt =====
-- src/bytebuf.c: a buffer behaves as the queue of its live bytes.
use redis_in_c.Prelude.{
  ℕ, ◌+◌, ◌-◌, ◌^◌, ◌≤◌, ◌<◌, ◌≡◌, refl, ◌∙◌, sym, ap, subst, arith, Bool-cases, inl, inr, ltb,
  Bytes, some, [], ◌∷◌, ◌++◌, length, take, drop, length-take, length-drop, append-nil,
}
use redis_in_c.Heap.{Heap, Rc, ok, fail}
use redis_in_c.Bytebuf.{
  Bytebuf, max_cap, sub_size, add_size, write_at, ensure_tail_cap, live, append, appendf, filled,
  put_tail, live_len, advance,
}
use redis_in_c.Bytebuf.Arrays.{length-write_at, take-write_at_front, drop-write_at}
use redis_in_c.Bytebuf.Inv.{IsValid, Ensured}
use redis_in_c.Bytebuf.Ensure.{ensure_tail_cap-Ensured}

pub live_len-eq : (b : Bytebuf) → IsValid b → live_len b ≡ b.len - b.off
unfolding live_len
live_len-eq b v = omega arith

-- The number of live bytes is `bytebuf_len`.
pub length-live : (b : Bytebuf) → IsValid b → length (live b) ≡ live_len b
unfolding live live_len
length-live b v =
    omega
      (arith, length-take (sub_size b.len b.off) (drop b.off b.bytes), length-drop b.off b.bytes)

put_tail-IsValid :
    (b : Bytebuf) (src : Bytes) (n : ℕ) → IsValid b → b.len + n ≤ b.cap → IsValid (put_tail b src n)
unfolding put_tail
put_tail-IsValid b src n v h = ground (arith, length-write_at b.bytes b.len src)

-- `memcpy` to the tail: the source may have bytes behind those that are counted.
live-put_tail :
    (b : Bytebuf) (src extra : Bytes)
    → IsValid b
    → b.len + length src ≤ b.cap
    → live (put_tail b (src ++ extra) (length src)) ≡ live b ++ src
unfolding put_tail live
live-put_tail b src extra v h =
    let k = b.len - b.off in
    let at : b.len ≡ b.off + k = omega arith in
    let upto : sub_size (add_size b.len (length src)) b.off ≡ k + length src = omega arith in
    let old : sub_size b.len b.off ≡ k = omega arith in
    rw (upto, old)
      (ap (λ i. take (k + length src) (drop b.off (write_at b.bytes i (src ++ extra)))) at
        ∙ ap (take (k + length src)) (drop-write_at b.off b.bytes k (src ++ extra))
        ∙ take-write_at_front (drop b.off b.bytes) k src extra
            (omega (arith, length-drop b.off b.bytes)))

-- What an append promises: on success the bytes are the new tail of the queue, on failure the queue
-- is unchanged, and with no allocation refused it fails only if the `need` bytes that it asks for do
-- not fit under the hard cap.
pub record Appended (h : Heap) (b : Bytebuf) (src : Bytes) (need : ℕ) (out : Rc × Bytebuf × Heap)
    : Type 0 where
  pub valid : IsValid out.1
  pub queued : out.0 ≡ ok → live out.1 ≡ live b ++ src
  pub kept : out.0 ≡ fail → live out.1 ≡ live b
  pub full : out.0 ≡ fail → h ≡ [] → max_cap < length (live b) + need
  pub calm : h ≡ [] → out.2 ≡ []

filled-Appended :
    (h : Heap) (b : Bytebuf) (src extra : Bytes) (need : ℕ) (out : Rc × Bytebuf × Heap)
    → IsValid b
    → length src ≤ need
    → Ensured h b need out
    → Appended h b src need (filled (src ++ extra) (length src) out)
filled-Appended h b src extra need (ok, b', h') v lo e = record {
  valid = put_tail-IsValid b' (src ++ extra) (length src) e.valid (omega (arith, e.room refl));
  queued = λ k.
      live-put_tail b' src extra e.valid (omega (arith, e.room refl)) ∙ ap (λ r. r ++ src) e.same;
  kept = λ k. cc;
  full = λ k z. cc;
  calm = e.calm;
}
filled-Appended h b src extra need (fail, b', h') v lo e = record {
  valid = e.valid;
  queued = λ k. cc;
  kept = λ k. e.same;
  full = λ k z. omega (arith, e.full refl z, length-live b v, live_len-eq b v);
  calm = e.calm;
}

-- On a valid buffer bytebuf_append puts the bytes behind the live ones when it succeeds and keeps
-- the live bytes when it fails; the buffer stays valid, and with no allocation refused it fails
-- only if the live and the new bytes exceed 16 MiB.
pub append-Appended :
    (h : Heap) (b : Bytebuf) (src : Bytes)
    → IsValid b
    → Appended h b src (length src) (append h b src)
unfolding append
append-Appended h b [] v = record {
  valid = v;
  queued = λ k. sym (append-nil (live b));
  kept = λ k. cc;
  full = λ k z. cc;
  calm = λ z. z;
}
append-Appended h b (c ∷ src) v =
    let n = length (c ∷ src) in
    subst (λ s. Appended h b (c ∷ src) n (filled s n (ensure_tail_cap h b n)))
      (append-nil (c ∷ src))
      (filled-Appended h b (c ∷ src) [] n _ v (omega arith) (ensure_tail_cap-Ensured h b n v))

Appended-more :
    (h : Heap) (b : Bytebuf) (src : Bytes) (n m : ℕ) (out : Rc × Bytebuf × Heap)
    → n ≤ m
    → Appended h b src n out
    → Appended h b src m out
Appended-more h b src n m out le a = record {
  valid = a.valid;
  queued = a.queued;
  kept = a.kept;
  full = λ k z. omega (arith, a.full k z);
  calm = a.calm;
}

-- On a valid buffer bytebuf_appendf of a text shorter than 2^31 bytes, through the stack or
-- straight into the buffer, puts the text without its NUL behind the live bytes or keeps them;
-- with no allocation refused it fails only if the live bytes, the text and one more byte exceed
-- 16 MiB.
pub appendf-Appended :
    (h : Heap) (b : Bytebuf) (text : Bytes)
    → IsValid b
    → length text < 2 ^ 31
    → Appended h b text (length text + 1) (appendf h b (some text))
unfolding appendf
appendf-Appended h b text v small = elim (Bool-cases (ltb (length text) 128)) [
  | inl t ↦ rw t (
      Appended-more h b text (length text) (length text + 1) _ (omega arith)
        (append-Appended h b text v))
  | inr f ↦
      let nul : add_size (length text) 1 ≡ length text + 1 = omega arith in
      rw (f, nul)
        (filled-Appended h b text (0 ∷ []) (length text + 1) _ v (omega arith)
          (ensure_tail_cap-Ensured h b (length text + 1) v))
]

-- `read` into the reserved tail and `bytebuf_advance` append the bytes that were read.
pub advance-eq-put_tail :
    (b : Bytebuf) (chunk : Bytes)
    → IsValid b
    → b.len + length chunk ≤ b.cap
    → advance (record b { bytes = write_at b.bytes b.len chunk }) (length chunk)
      ≡ put_tail b chunk (length chunk)
unfolding advance put_tail
advance-eq-put_tail b chunk v h = ground arith

-- On a valid buffer, writing bytes into the room behind len and calling bytebuf_advance with
-- their number puts them behind the live bytes, and the buffer stays valid.
pub advance_lem :
    (b : Bytebuf) (chunk : Bytes)
    → IsValid b
    → b.len + length chunk ≤ b.cap
    → let b' = advance (record b { bytes = write_at b.bytes b.len chunk }) (length chunk) in
      IsValid b' × (live b' ≡ live b ++ chunk)
advance_lem b chunk v h = rw (advance-eq-put_tail b chunk v h) (
  put_tail-IsValid b chunk (length chunk) v h,
  ap (λ s. live (put_tail b s (length chunk))) (sym (append-nil chunk))
      ∙ live-put_tail b chunk [] v h,
)
