-- ===== src/Resp/Emission.antt =====
-- src/resp.c: the bytes of each reply, and what becomes of the buffer when they cannot be appended.
use redis_in_c.Prelude.{
  ℕ, ◌+◌, ◌^◌, ◌≤◌, ◌<◌, ◌≡◌, refl, sym, ◌∙◌, ap, arith, Bytes, [], ◌++◌, append_assoc, append-nil,
  length, length-append,
}
use redis_in_c.Heap.{Heap, Rc, ok, fail}
use redis_in_c.Bytebuf.{Bytebuf, live, max_cap}
use redis_in_c.Bytebuf.Inv.{IsValid}
use redis_in_c.Bytebuf.Refine.{Appended, append-Appended, appendf-Appended}
use redis_in_c.Resp.Replies.{Writer, next_write, ◌>>◌, emit, emitf}

-- What a writer of `text` leaves: all of it in the queue on success, a first part of it on failure.
-- With no allocation refused it fails only if the text, and a byte more, does not fit.
pub record Emitted (text : Bytes) (h : Heap) (b : Bytebuf) (out : Rc × Bytebuf × Heap)
    : Type 0 where
  pub valid : IsValid out.1
  pub queued : out.0 ≡ ok → live out.1 ≡ live b ++ text
  pub partial :
      out.0 ≡ fail
      → (done : Bytes) × (left : Bytes) × (done ++ left ≡ text) × (live out.1 ≡ live b ++ done)
  pub full : out.0 ≡ fail → h ≡ [] → max_cap < length (live b) + length text + 1
  pub calm : h ≡ [] → out.2 ≡ []

pub record Emits (text : Bytes) (w : Writer) : Type 0 where
  pub at : (h : Heap) (b : Bytebuf) → IsValid b → Emitted text h b (w h b)

Appended-Emitted :
    (text : Bytes) (h : Heap) (b : Bytebuf) (need : ℕ) (out : Rc × Bytebuf × Heap)
    → need ≤ length text + 1
    → Appended h b text need out
    → Emitted text h b out
Appended-Emitted text h b need out le a = record {
  valid = a.valid;
  queued = a.queued;
  partial = λ k. ([], text, refl, a.kept k ∙ sym (append-nil (live b)));
  full = λ k z. omega (arith, a.full k z);
  calm = a.calm;
}

pub emit-Emits : (text : Bytes) → Emits text (emit text)
unfolding emit
emit-Emits text = record {
  at =
      λ h b v. Appended-Emitted text h b (length text) _ (omega arith) (append-Appended h b text v);
}

pub emitf-Emits : (text : Bytes) → length text < 2 ^ 31 → Emits text (emitf text)
unfolding emitf
emitf-Emits text small = record {
  at = λ h b v.
      Appended-Emitted text h b (length text + 1) _ (omega arith)
        (appendf-Appended h b text v small);
}

after_first :
    (s t : Bytes) (k : Writer) (h : Heap) (b : Bytebuf) (out : Rc × Bytebuf × Heap)
    → Emits t k
    → Emitted s h b out
    → Emitted (s ++ t) h b (next_write k out)
after_first s t k h b (fail, b', h') ek e =
    let (done, left, split, kept) = e.partial refl in
    record {
      valid = e.valid;
      queued = λ q. cc;
      partial =
          λ q. (done, left ++ t, sym (append_assoc done left t) ∙ ap (λ r. r ++ t) split, kept);
      full = λ q z. omega (arith, e.full refl z, length-append s t);
      calm = e.calm;
    }
after_first s t k h b (ok, b', h') ek e =
    let first : live b' ≡ live b ++ s = e.queued refl in
    let n = ek.at h' b' e.valid in
    record {
      valid = n.valid;
      queued = λ q. n.queued q ∙ ap (λ r. r ++ t) first ∙ append_assoc (live b) s t;
      partial = λ q.
          let (done, left, split, kept) = n.partial q in
          (
            s ++ done,
            left,
            append_assoc s done left ∙ ap (λ r. s ++ r) split,
            kept ∙ ap (λ r. r ++ done) first ∙ append_assoc (live b) s done,
          );
      full = λ q z. omega (
        arith,
        n.full q (e.calm z),
        length-append s t,
        ap (λ r. length r) first,
        length-append (live b) s,
      );
      calm = λ z. n.calm (e.calm z);
    }

-- One writer behind the other writes one text behind the other.
pub Emits-seq : (s t : Bytes) (m k : Writer) → Emits s m → Emits t k → Emits (s ++ t) (m >> k)
unfolding ◌>>◌
Emits-seq s t m k em ek = record { at = λ h b v. after_first s t k h b (m h b) ek (em.at h b v) }
