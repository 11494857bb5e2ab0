-- ===== src/Command/Values.antt =====
-- src/command.c: GET, SET, STRLEN, APPEND, SETNX and GETSET, by the store and the reply that they leave.
use redis_in_c.Prelude.{
  ◌-◌, ◌≤◌, ◌<◌, ◌≡◌, ◌⊎◌, inl, inr, refl, arith, Bool-cases, Option-cases, ltb, Bytes, Option,
  none, some, List, [], ◌∷◌, ◌++◌, length, length-append, codes, size_mod, IsWord,
}
use redis_in_c.Prelude.Int.{pos, int64_of}
use redis_in_c.Heap.{malloc, malloc_calm, Rc}
use redis_in_c.Hashtable.{get_key}
use redis_in_c.Hashtable.Writes.{stored}
use redis_in_c.Hashtable.Sizes.{get_key-IsWord}
use redis_in_c.Resp.Emission.{Emits}
use redis_in_c.Resp.Reply.{
  Reply, status, error, integer, bulk, nil, encode, simple_string-Emits, error-Emits, integer-Emits,
  length-Emits, bulk-Emits, nil-Emits,
}
use redis_in_c.Resp.Replies.{Writer}
use redis_in_c.Command.Context.{Ctx, arg, put_key, or_out_of_memory, out_of_memory}
use redis_in_c.Command.Answers.{
  IsReady, Answered, Wrote, oom, send-Answered, send_later, put-Wrote, put_later,
}
use redis_in_c.Command.Basic.{reply_value, cmd_get, cmd_set}
use redis_in_c.Command.Strings.{
  value_len, cmd_strlen, with_buffer, append_value, append_to, cmd_append, set_if_missing,
  cmd_setnx, swap_value, cmd_getset,
}

-- A value, or nil for a key that is missing.
abbrev pub value_reply : Option Bytes → Reply
value_reply none = nil
value_reply (some v) = bulk v

value-Emits :
    (o : Option Bytes)
    → ((v : Bytes) → o ≡ some v → IsWord (length v))
    → Emits (encode (value_reply o)) (reply_value o)
unfolding reply_value
value-Emits none w = nil-Emits
value-Emits (some v) w = bulk-Emits v (w v refl)

module _ (c : Ctx) (args : List Bytes) (r : IsReady c) where
  word : (v : Bytes) → get_key c.store (arg args 1) ≡ some v → IsWord (length v)
  word v e = get_key-IsWord c.store (arg args 1) v r.sized e

  pub cmd_get-Answered :
      Answered c c.store (encode (value_reply (get_key c.store (arg args 1)))) (cmd_get c args)
  unfolding cmd_get
  cmd_get-Answered = send-Answered c _ _ r (value-Emits (get_key c.store (arg args 1)) word)

  pub cmd_set-Wrote :
      Wrote c
        (stored c.store (arg args 1) (arg args 2))
        (encode (status (codes "OK")))
        (cmd_set c args)
  unfolding cmd_set
  cmd_set-Wrote = put-Wrote c (arg args 1) (arg args 2) _ _ r (simple_string-Emits (codes "OK"))

  pub cmd_strlen-Answered :
      Answered c c.store
        (encode (integer (int64_of (value_len (get_key c.store (arg args 1))))))
        (cmd_strlen c args)
  unfolding cmd_strlen
  cmd_strlen-Answered =
      send-Answered c _ _ r (length-Emits (value_len (get_key c.store (arg args 1))))

  -- What SETNX does by whether the key is there.
  abbrev pub SetNx : Option Bytes → Rc × Ctx → Type 0
  SetNx (some old) out = Answered c c.store (encode (integer (pos 0))) out
  SetNx none out = Wrote c (stored c.store (arg args 1) (arg args 2)) (encode (integer (pos 1))) out

  set_if_missing_lem : (o : Option Bytes) → SetNx o (set_if_missing c (arg args 1) (arg args 2) o)
  unfolding set_if_missing
  set_if_missing_lem (some old) = send-Answered c _ _ r (integer-Emits (pos 0) (omega arith))
  set_if_missing_lem none =
      put-Wrote c (arg args 1) (arg args 2) _ _ r (integer-Emits (pos 1) (omega arith))

  -- From a ready state, SETNX answers 0 and keeps the store where the key is there; where it is
  -- not it stores the argument and answers 1, or keeps the store and answers the out-of-memory
  -- error where an allocation is refused.
  pub cmd_setnx_lem : SetNx (get_key c.store (arg args 1)) (cmd_setnx c args)
  unfolding cmd_setnx
  cmd_setnx_lem = set_if_missing_lem (get_key c.store (arg args 1))

  -- A handler that allocates a buffer and goes on with a write.
  with_buffer-Wrote :
      (key val : Bytes) (w : Writer) (text : Bytes)
      → Emits text w
      → Wrote c
          (stored c.store key val)
          text
          (with_buffer c (λ c'. or_out_of_memory w (put_key c' key val)))
  unfolding with_buffer
  with_buffer-Wrote key val w text e = elim (Option-cases (malloc c.heap).0) [
    | inr (u, k) ↦ rw (k, with_buffer) (put_later c (malloc c.heap).1 key val w text r calm e)
    | inl k ↦
        rw (k, with_buffer)
          (inr (
            send_later c c.store (malloc c.heap).1 out_of_memory (encode oom) r calm
                (unfold out_of_memory in error-Emits (codes "ERR out of memory")),
            λ z. refused (malloc_calm c.heap z) k,
          ))
  ]
    where
      calm : c.heap ≡ [] → (malloc c.heap).1 ≡ []
      calm z = rw (malloc_calm c.heap z)

      refused : malloc c.heap ≡ (some tt, []) → (malloc c.heap).0 ≡ none → ⊥
      refused e k = cc (rw e at k)

  swap_value_lem :
      (o : Option Bytes)
      → ((v : Bytes) → o ≡ some v → IsWord (length v))
      → Wrote c
          (stored c.store (arg args 1) (arg args 2))
          (encode (value_reply o))
          (swap_value c (arg args 1) (arg args 2) o)
  unfolding swap_value
  swap_value_lem none w = put-Wrote c (arg args 1) (arg args 2) _ _ r nil-Emits
  swap_value_lem (some []) w =
      put-Wrote c (arg args 1) (arg args 2) _ _ r (bulk-Emits [] (omega arith))
  swap_value_lem (some (x ∷ old)) w =
      with_buffer-Wrote (arg args 1) (arg args 2) _ _ (bulk-Emits (x ∷ old) (w (x ∷ old) refl))

  -- From a ready state, GETSET stores the argument and answers the value that was there before,
  -- or nil; where an allocation is refused it keeps the store and answers the out-of-memory
  -- error.
  pub cmd_getset-Wrote :
      Wrote c
        (stored c.store (arg args 1) (arg args 2))
        (encode (value_reply (get_key c.store (arg args 1))))
        (cmd_getset c args)
  unfolding cmd_getset
  cmd_getset-Wrote = swap_value_lem (get_key c.store (arg args 1)) word

-- The value that APPEND adds to, empty for a key that is missing.
abbrev pub old_value : Option Bytes → Bytes
old_value none = []
old_value (some v) = v

module _ (c : Ctx) (args : List Bytes) (r : IsReady c) where
  -- What APPEND does by whether the length of the new value is a number of type `size_t`.
  abbrev pub Appends : Bytes → Rc × Ctx → Type 0
  Appends new out =
      ((length new < size_mod)
        × Wrote c (stored c.store (arg args 1) new) (encode (integer (int64_of (length new)))) out)
      ⊎ ((size_mod ≤ length new)
          × Answered c c.store (encode (error (codes "ERR string exceeds maximum allowed size")))
              out)

  append_value_lem :
      (old : Bytes)
      → IsWord (length old)
      → Appends (old ++ arg args 2) (append_value c (arg args 1) (arg args 2) old)
  unfolding append_value
  append_value_lem old w =
      elim (Bool-cases (ltb (size_mod - 1 - length old) (length (arg args 2)))) [
        | inl t ↦ rw t (
            inr (
              ground (arith, length-append old (arg args 2)),
              send-Answered c _ _ r (error-Emits (codes "ERR string exceeds maximum allowed size")),
            ))
        | inr f ↦
            let small : length (old ++ arg args 2) < size_mod =
              ground (arith, length-append old (arg args 2)) in
            rw f (
              inl (
                small,
                with_buffer-Wrote c args r (arg args 1) (old ++ arg args 2) _ _
                    (length-Emits (length (old ++ arg args 2))),
              ))
      ]

  append_to_lem :
      (o : Option Bytes)
      → IsWord (length (arg args 2))
      → ((v : Bytes) → o ≡ some v → IsWord (length v))
      → Appends (old_value o ++ arg args 2) (append_to c (arg args 1) (arg args 2) o)
  unfolding append_to
  append_to_lem none wv w =
      inl (wv, put-Wrote c (arg args 1) (arg args 2) _ _ r (length-Emits (length (arg args 2))))
  append_to_lem (some old) wv w = append_value_lem old (w old refl)

  -- From a ready state, for an argument of 64-bit length, APPEND stores the old value, empty for
  -- a missing key, with the argument behind it and answers the new length as an int64_t; where
  -- that length is 2^64 or more it keeps the store and answers the size error; a refused
  -- allocation keeps the store.
  pub cmd_append_lem :
      IsWord (length (arg args 2))
      → Appends (old_value (get_key c.store (arg args 1)) ++ arg args 2) (cmd_append c args)
  unfolding cmd_append
  cmd_append_lem wv =
      append_to_lem (get_key c.store (arg args 1)) wv
        (λ v e. get_key-IsWord c.store (arg args 1) v r.sized e)
