-- ===== src/Command/Keys.antt =====
-- src/command.c: KEYS lists the keys that match, and DBSIZE counts them all.
use redis_in_c.Prelude.{
  ℕ, suc, ◌+◌, ◌%◌, ◌<◌, ◌≡◌, ◌∙◌, refl, sym, ap, subst, arith, Bool, true, false, Bool-cases, inl,
  inr, Bytes, List, [], ◌∷◌, length, if◌then◌else◌, codes, size_mod, IsWord, All, append-nil,
}
use redis_in_c.Prelude.Int.{int64_of}
use redis_in_c.Heap.{Heap, Rc, ok, fail, Rc-cases}
use redis_in_c.Bytebuf.{Bytebuf, live}
use redis_in_c.Hashtable.{Chain, scan, init}
use redis_in_c.Hashtable.View.{entries, count-eq-length}
use redis_in_c.Hashtable.Sizes.{HasSizes, All-entries}
use redis_in_c.Hashtable.Scan.{walk, scan-walk}
use redis_in_c.Glob.{glob_match}
use redis_in_c.Resp.Replies.{
  Writer, next_write, ◌>>◌, reply_bulk, reply_array_header, reply_integer,
}
use redis_in_c.Resp.Emission.{Emits, Emits-seq}
use redis_in_c.Resp.Reply.{
  status, integer, bulks, encode, encode_bulks, simple_string-Emits, length-Emits, bulk-Emits,
  array_header-Emits,
}
use redis_in_c.Command.Context.{Ctx, arg, send}
use redis_in_c.Command.Answers.{IsReady, Answered, Answered-IsReady, send-Answered, send_later}
use redis_in_c.Command.Keyspace.{
  KeysCtx, emitted, keys_cb, keys_emit, cmd_keys, cmd_dbsize, cmd_flushdb,
}

-- The keys of the list that match, in its order.
abbrev pub matching : Bytes → Chain → List Bytes
matching pat [] = []
matching pat (e ∷ c) =
    let rest = matching pat c in if glob_match pat e.key then e.key ∷ rest else rest

abbrev pass : Bool → Bytebuf → Heap → ℕ → KeysCtx
pass write b h matched = record {
  out = b;
  heap = h;
  matched = matched;
  write = write;
  emit_failed = false;
}

-- The first pass counts them.
count_pass :
    (pat : Bytes) (c : Chain) (b : Bytebuf) (h : Heap) (n : ℕ)
    → n < size_mod
    → (walk (keys_cb pat) c (pass false b h n)).2
      ≡ pass false b h ((n + length (matching pat c)) % size_mod)
unfolding walk keys_cb
count_pass pat [] b h n lt =
    let same : n ≡ (n + 0) % size_mod = omega arith in ap (pass false b h) same
count_pass pat (e ∷ c) b h n lt = elim (Bool-cases (glob_match pat e.key)) [
  | inr f ↦ rw f (count_pass pat c b h n lt)
  | inl t ↦
      let k = length (matching pat c) in
      let sum : ((n + 1) % size_mod + k) % size_mod ≡ (n + suc k) % size_mod = omega arith in
      rw t (count_pass pat c b h ((n + 1) % size_mod) (omega arith) ∙ ap (pass false b h) sum)
]

abbrev skip : Writer
skip h b = (ok, b, h)

skip-Emits : Emits [] skip
skip-Emits = record {
  at = λ h b v. record {
    valid = v;
    queued = λ k. sym (append-nil (live b));
    partial = λ k. cc;
    full = λ k z. cc;
    calm = λ z. z;
  };
}

-- The second pass is a writer of their bulk strings.
unfoldable emit_keys : Bytes → Chain → Writer
emit_keys pat [] = skip
emit_keys pat (e ∷ c) =
    let rest = emit_keys pat c in if glob_match pat e.key then reply_bulk e.key >> rest else rest

emit_keys-Emits :
    (pat : Bytes) (c : Chain)
    → All HasSizes c
    → Emits (encode_bulks (matching pat c)) (emit_keys pat c)
unfolding emit_keys
emit_keys-Emits pat [] h = skip-Emits
emit_keys-Emits pat (e ∷ c) h = elim (Bool-cases (glob_match pat e.key)) [
  | inr f ↦ rw f (emit_keys-Emits pat c h.1)
  | inl t ↦ rw t (Emits-seq _ _ _ _ (bulk-Emits e.key h.0.0) (emit_keys-Emits pat c h.1))
]

abbrev result : KeysCtx → Rc × Bytebuf × Heap
result kc = (if kc.emit_failed then fail else ok, kc.out, kc.heap)

write_pass :
    (pat : Bytes) (c : Chain) (b : Bytebuf) (h : Heap) (n : ℕ)
    → result (walk (keys_cb pat) c (pass true b h n)).2 ≡ emit_keys pat c h b
unfolding walk keys_cb emitted emit_keys ◌>>◌
write_pass pat [] b h n = refl
write_pass pat (e ∷ c) b h n = elim (Bool-cases (glob_match pat e.key)) [
  | inr g ↦ rw g (write_pass pat c b h n)
  | inl t ↦
      let (rc, b', h') = reply_bulk e.key h b in
      rw t (elim (Rc-cases rc) [ inl k ↦ rw k (write_pass pat c b' h' n) | inr k ↦ rw k refl ])
]

-- KEYS behind its header.
keys_emit_lem :
    (pat : Bytes) (n : ℕ) (b : Bytebuf) (h : Heap) (c : Ctx) (rc : Rc)
    → let (rc', b', h') = next_write (emit_keys pat (entries c.store)) (rc, c.out, c.heap) in
      keys_emit pat (pass false b h n) (rc, c) ≡ (rc', record c { out = b'; heap = h' })
unfolding keys_emit
keys_emit_lem pat n b h c fail = refl
keys_emit_lem pat n b h c ok = rw (scan-walk (keys_cb pat) c.store (pass true c.out c.heap n)) (
    ap (λ (r : Rc × Bytebuf × Heap). (r.0, record c { out = r.1; heap = r.2 }))
      (write_pass pat (entries c.store) c.out c.heap n))

module _ (c : Ctx) (args : List Bytes) (r : IsReady c) where
  -- The number that KEYS announces is counted in `size_t`.
  abbrev keys_writer : Writer
  keys_writer =
      reply_array_header (length (matching (arg args 1) (entries c.store)) % size_mod)
      >> emit_keys (arg args 1) (entries c.store)

  cmd_keys-send : cmd_keys c args ≡ send keys_writer c
  unfolding cmd_keys send ◌>>◌
  cmd_keys-send =
      let pat = arg args 1 in
      let k = length (matching pat (entries c.store)) in
      let from_zero : (0 + k) % size_mod ≡ k % size_mod = omega arith in
      let counted : (scan (keys_cb pat) c.store (pass false c.out c.heap 0)).1
          ≡ pass false c.out c.heap (k % size_mod) =
        ap (λ (x : ℕ × KeysCtx). x.1) (scan-walk (keys_cb pat) c.store (pass false c.out c.heap 0))
        ∙ count_pass pat (entries c.store) c.out c.heap 0 (omega arith)
        ∙ ap (pass false c.out c.heap) from_zero in
      let (rc, c') = send (reply_array_header (k % size_mod)) c in
      ap (λ (kc : KeysCtx). keys_emit pat kc (send (reply_array_header kc.matched) c)) counted
      ∙ keys_emit_lem pat (k % size_mod) c.out c.heap c' rc

  -- From a ready state, with fewer than 2^64 matches, KEYS keeps the store and answers the array
  -- of exactly the keys that glob_match accepts, each once, in the order of the table, with their
  -- number in the header.
  pub cmd_keys-Answered :
      IsWord (length (matching (arg args 1) (entries c.store)))
      → Answered c c.store
          (encode (bulks (matching (arg args 1) (entries c.store))))
          (cmd_keys c args)
  cmd_keys-Answered w =
      let pat = arg args 1 in
      let n = length (matching pat (entries c.store)) in
      let all : n % size_mod ≡ n = omega arith in
      rw (cmd_keys-send, all)
        (send-Answered c _ _ r (
          Emits-seq _ _ _ _ (array_header-Emits n w)
            (emit_keys-Emits pat (entries c.store) (All-entries c.store r.sized))))

  -- The state that KEYS and DBSIZE leave, whatever the number of entries.
  pub cmd_keys-IsReady : IsReady (cmd_keys c args).1
  cmd_keys-IsReady =
      let n = length (matching (arg args 1) (entries c.store)) in
      rw cmd_keys-send (
        Answered-IsReady c _ _ r (
          send-Answered c _ _ r (
            Emits-seq _ _ _ _ (array_header-Emits (n % size_mod) (omega arith))
              (emit_keys-Emits (arg args 1) (entries c.store) (All-entries c.store r.sized)))))

  pub cmd_dbsize-IsReady : IsReady (cmd_dbsize c args).1
  unfolding cmd_dbsize
  cmd_dbsize-IsReady = Answered-IsReady c _ _ r (send-Answered c _ _ r (length-Emits c.store.count))

  -- From a ready state with fewer than 2^64 entries, DBSIZE keeps the store and answers the
  -- number of its entries.
  pub cmd_dbsize-Answered :
      IsWord (length (entries c.store))
      → Answered c c.store
          (encode (integer (int64_of (length (entries c.store)))))
          (cmd_dbsize c args)
  unfolding cmd_dbsize
  cmd_dbsize-Answered w =
      let all : c.store.count ≡ length (entries c.store) =
        omega (arith, count-eq-length c.store r.table) in
      subst
        (λ n.
          Answered c c.store (encode (integer (int64_of (length (entries c.store)))))
            (send (reply_integer (int64_of n)) c))
        (sym all) (send-Answered c _ _ r (length-Emits (length (entries c.store))))

  -- From a ready state, FLUSHDB leaves the table that ht_init makes and answers OK.
  pub cmd_flushdb-Answered : Answered c init (encode (status (codes "OK"))) (cmd_flushdb c args)
  unfolding cmd_flushdb
  cmd_flushdb-Answered = send_later c init c.heap _ _ r (λ z. z) (simple_string-Emits (codes "OK"))
