-- ===== src/Connection/Flushing.antt =====
-- src/networking.c: `handle_write` sends the output buffer in order, without loss or repetition.
use redis_in_c.Prelude.{
  ◌≡◌, ◌∙◌, refl, sym, ap, arith, Bool-cases, inl, inr, ltb, Bytes, List, [], ◌∷◌, ◌++◌, length,
  take, min, append_assoc, append-nil, take-append-drop, false,
}
use redis_in_c.Bytebuf.{Bytebuf, live, live_len, consume}
use redis_in_c.Bytebuf.Inv.{IsValid}
use redis_in_c.Bytebuf.Refine.{length-live}
use redis_in_c.Bytebuf.Consume.{consume_lem}
use redis_in_c.Connection.{
  WriteResult, wrote, write_again, write_interrupted, write_failed, Flushed, drained, blocked, gone,
  on_write, flush,
}

-- What the socket has taken and what is left are, together, what there was; a drained buffer is
-- empty.
abbrev pub Sends : Bytes → Flushed → Type 0
Sends all (drained sent b) = IsValid b × (sent ≡ all) × (live b ≡ [])
Sends all (blocked sent b) = IsValid b × (sent ++ live b ≡ all)
Sends all (gone sent b) = IsValid b × (sent ++ live b ≡ all)

empty : (b : Bytebuf) → IsValid b → ltb 0 (live_len b) ≡ false → live b ≡ []
empty b v f = of_length (live b) (ground (arith, length-live b v))
  where
    of_length : (s : Bytes) → length s ≡ 0 → s ≡ []
    of_length [] e = refl
    of_length (x ∷ s) e = absurd (omega arith)

finished :
    (sent : Bytes) (b : Bytebuf) (all : Bytes)
    → IsValid b
    → ltb 0 (live_len b) ≡ false
    → sent ++ live b ≡ all
    → Sends all (drained sent b)
finished sent b all v f e =
    let nil = empty b v f in (v, sym (append-nil sent) ∙ ap (λ r. sent ++ r) (sym nil) ∙ e, nil)

on_write-Sends :
    (r : WriteResult) (k : Bytes → Bytebuf → Flushed) (sent : Bytes) (b : Bytebuf) (all : Bytes)
    → ((sent : Bytes) (b : Bytebuf) → IsValid b → sent ++ live b ≡ all → Sends all (k sent b))
    → IsValid b
    → sent ++ live b ≡ all
    → Sends all (on_write r k sent b)
unfolding on_write
on_write-Sends (wrote n) k sent b all ih v e =
    let m = min n (live_len b) in
    let (v', rest) = consume_lem b m v in
    ih (sent ++ take m (live b)) (consume b m) v' (
      append_assoc sent (take m (live b)) (live (consume b m))
      ∙ ap (λ r. sent ++ (take m (live b) ++ r)) rest
      ∙ ap (λ r. sent ++ r) (take-append-drop m (live b))
      ∙ e)
on_write-Sends write_again k sent b all ih v e = (v, e)
on_write-Sends write_interrupted k sent b all ih v e = ih sent b v e
on_write-Sends write_failed k sent b all ih v e = (v, e)

flush_step :
    (writes : List WriteResult) (all sent : Bytes) (b : Bytebuf)
    → IsValid b
    → sent ++ live b ≡ all
    → Sends all (flush writes sent b)
unfolding flush
flush_step [] all sent b v e = elim (Bool-cases (ltb 0 (live_len b))) [
  | inl t ↦ rw t (v, e)
  | inr f ↦ rw f (finished sent b all v f e)
]
flush_step (r ∷ rs) all sent b v e = elim (Bool-cases (ltb 0 (live_len b))) [
  | inl t ↦ rw t (on_write-Sends r (flush rs) sent b all (λ s b'. flush_step rs all s b') v e)
  | inr f ↦ rw f (finished sent b all v f e)
]

-- From a valid buffer, whatever the partial writes and interruptions, the bytes that the socket
-- has taken followed by those left are exactly the bytes that were to be sent, the buffer stays
-- valid, and the loop that ends as drained has sent them all.
pub flush-Sends :
    (writes : List WriteResult) (b : Bytebuf) → IsValid b → Sends (live b) (flush writes [] b)
flush-Sends writes b v = flush_step writes (live b) [] b v refl
