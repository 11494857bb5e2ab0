-- ===== src/Command/Answers.antt =====
-- src/command.c: what a handler leaves: the store, and one reply in the output buffer.
use redis_in_c.Prelude.{◌≡◌, ◌≢◌, ◌⊎◌, inl, inr, refl, sym, subst, Bytes, [], codes}
use redis_in_c.Heap.{Heap, Rc, Rc-cases}
use redis_in_c.Bytebuf.{Bytebuf}
use redis_in_c.Bytebuf.Inv
use redis_in_c.Hashtable.{Hashtable, set_key}
use redis_in_c.Hashtable.Inv.{IsValid}
use redis_in_c.Hashtable.Writes.{stored, set_key-Stores, set_key_calm}
use redis_in_c.Hashtable.Sizes.{IsSized}
use redis_in_c.Resp.Replies.{Writer}
use redis_in_c.Resp.Emission.{Emitted, Emits}
use redis_in_c.Resp.Reply.{Reply, error, encode, error-Emits}
use redis_in_c.Command.Context.{Ctx, send, put_key, out_of_memory, or_out_of_memory}

-- The state that `command_execute` expects and leaves.
pub record IsReady (c : Ctx) : Type 0 where
  pub table : IsValid c.store
  pub sized : IsSized c.store
  pub buffer : redis_in_c.Bytebuf.Inv.IsValid c.out

-- The store is `t`, and `text` is in the buffer, or a first part of it where it did not fit.
pub record Answered (c : Ctx) (t : Hashtable) (text : Bytes) (out : Rc × Ctx) : Type 0 where
  pub kept : out.1.store ≡ t
  pub sent : Emitted text c.heap c.out (out.0, out.1.out, out.1.heap)

-- The error that answers a refused allocation.
abbrev pub oom : Reply
oom = error (codes "ERR out of memory")

-- A write is done and answered by `text`, or it is not done, because of a refused allocation, and
-- this is answered.
abbrev pub Wrote : Ctx → Hashtable → Bytes → Rc × Ctx → Type 0
Wrote c t text out = Answered c t text out ⊎ (Answered c c.store (encode oom) out × (c.heap ≢ []))

pub send-Answered :
    (c : Ctx) (w : Writer) (text : Bytes)
    → IsReady c
    → Emits text w
    → Answered c c.store text (send w c)
unfolding send
send-Answered c w text r e = record { kept = refl; sent = e.at c.heap c.out r.buffer }

-- The same, from a state with another store and allocator.
pub send_later :
    (c : Ctx) (t : Hashtable) (h : Heap) (w : Writer) (text : Bytes)
    → IsReady c
    → (c.heap ≡ [] → h ≡ [])
    → Emits text w
    → Answered c t text (send w (record c { store = t; heap = h }))
unfolding send
send_later c t h w text r calm e =
    let s = e.at h c.out r.buffer in
    record {
      kept = refl;
      sent = record {
        valid = s.valid;
        queued = s.queued;
        partial = s.partial;
        full = λ k z. s.full k (calm z);
        calm = λ z. s.calm (calm z);
      };
    }

-- `ht_set` and the reply of its success or of its failure, where an earlier allocation of the handler
-- has left the allocator `h`.
pub put_later :
    (c : Ctx) (h : Heap) (key val : Bytes) (w : Writer) (text : Bytes)
    → IsReady c
    → (c.heap ≡ [] → h ≡ [])
    → Emits text w
    → Wrote c
        (stored c.store key val)
        text
        (or_out_of_memory w (put_key (record c { heap = h }) key val))
unfolding put_key or_out_of_memory out_of_memory
put_later c h key val w text r calm e =
    let s = set_key-Stores h c.store key val in
    let h' = (set_key h c.store key val).2 in
    let calm' : c.heap ≡ [] → h' ≡ [] = λ z. after h (calm z) in
    elim (Rc-cases (set_key h c.store key val).0) [
      | inl k ↦ rw (k, s.done k) (inl (send_later c (stored c.store key val) h' w text r calm' e))
      | inr k ↦
          rw (k, s.kept k)
            (inr (
              send_later c c.store h' out_of_memory (encode oom) r calm'
                  (error-Emits (codes "ERR out of memory")),
              λ z. cc (s.total (calm z)),
            ))
    ]
  where
    after : (h : Heap) → h ≡ [] → (set_key h c.store key val).2 ≡ []
    after h z = rw z (set_key_calm c.store key val)

pub put-Wrote :
    (c : Ctx) (key val : Bytes) (w : Writer) (text : Bytes)
    → IsReady c
    → Emits text w
    → Wrote c (stored c.store key val) text (or_out_of_memory w (put_key c key val))
put-Wrote c key val w text r e = put_later c c.heap key val w text r (λ z. z) e

-- The state is ready where the store is what it was.
pub Answered-IsReady :
    (c : Ctx) (text : Bytes) (out : Rc × Ctx)
    → IsReady c
    → Answered c c.store text out
    → IsReady out.1
Answered-IsReady c text out r a = record {
  table = subst IsValid (sym a.kept) r.table;
  sized = subst IsSized (sym a.kept) r.sized;
  buffer = a.sent.valid;
}
