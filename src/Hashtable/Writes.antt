-- ===== src/Hashtable/Writes.antt =====
-- src/hashtable.c: `ht_set` and `ht_del` keep the invariant, and `ht_set` is all or nothing.
use redis_in_c.Prelude.{
  ℕ, zero, suc, ◌+◌, ◌%◌, ◌≡◌, refl, ◌∙◌, ap, arith, ◌⊎◌, Option-cases, inl, inr, Bytes, none, some,
  [], ◌∷◌, length, length-set, size_mod, length-replicate, replicate, List,
}
use redis_in_c.Heap.{Heap, Rc, ok, fail, malloc, Rc-cases}
use redis_in_c.Hashtable.{
  Chain, Hashtable, find, overwrite, unlink, slot, num_buckets, chain_of, with_chain, init, destroy,
  set_key, del_key, dup_bytes, replace, new_node, copy_key, link_node, destroy_buckets,
}
use redis_in_c.Hashtable.Chains.{Distinct, length-overwrite, length-unlink}
use redis_in_c.Hashtable.Inv.{
  IsHome, AreHomes, total, IsValid, AreHomes-get, AreHomes-set, total-set, slot-lt,
  IsHome-overwrite, IsHome-unlink, Distinct-overwrite, Distinct-unlink,
}

-- The table behind a successful `ht_set`.
unfoldable pub stored : Hashtable → Bytes → Bytes → Hashtable
stored t key val = elim (find key (chain_of t key)) [
  | some _ ↦ record t { buckets = with_chain t key (overwrite key val (chain_of t key)) }
  | none ↦ record {
    buckets = with_chain t key (record { key = key; val = val } ∷ chain_of t key);
    count = (t.count + 1) % size_mod;
  }
]

-- Success stores the pair, failure leaves the table as it was, and takes a refused allocation.
pub record Stores (h : Heap) (t : Hashtable) (key val : Bytes) (out : Rc × Hashtable × Heap)
    : Type 0 where
  pub done : out.0 ≡ ok → out.1 ≡ stored t key val
  pub kept : out.0 ≡ fail → out.1 ≡ t
  pub total : h ≡ [] → out.0 ≡ ok

dup_bytes-copy :
    (h : Heap) (src : Bytes) → ((dup_bytes h src).0 ≡ none) ⊎ ((dup_bytes h src).0 ≡ some src)
unfolding dup_bytes
dup_bytes-copy h src = elim (Option-cases (malloc h).0) [
  | inl e ↦ inl (rw (e, dup_bytes))
  | inr (u, e) ↦ inr (rw (e, dup_bytes))
]

replace-Stores :
    (h : Heap) (t : Hashtable) (key val old : Bytes)
    → find key (chain_of t key) ≡ some old
    → Stores h t key val (replace t key (dup_bytes h val))
unfolding replace stored
replace-Stores h t key val old f = record {
  done = λ k. ground (arith, dup_bytes-copy h val);
  kept = λ k. ground arith;
  total = λ z. rw z (unfold dup_bytes malloc in refl);
}

new_node-Stores :
    (h : Heap) (t : Hashtable) (key val : Bytes)
    → find key (chain_of t key) ≡ none
    → Stores h t key val (new_node t key val (malloc h))
unfolding new_node stored
new_node-Stores h t key val f = record {
  done = λ k.
      ground
        (arith, dup_bytes-copy (malloc h).1 key, dup_bytes-copy (dup_bytes (malloc h).1 key).1 val);
  kept = λ k. ground arith;
  total = λ z. rw z (unfold dup_bytes malloc in refl);
}

-- ht_set is all or nothing: on success it gives the table with the pair stored, on failure the
-- unchanged table, and with no allocation refused it succeeds.
pub set_key-Stores :
    (h : Heap) (t : Hashtable) (key val : Bytes) → Stores h t key val (set_key h t key val)
unfolding set_key
set_key-Stores h t key val = elim (Option-cases (find key (chain_of t key))) [
  | inl e ↦ rw (e, set_key) (new_node-Stores h t key val e)
  | inr (old, e) ↦ rw (e, set_key) (replace-Stores h t key val old e)
]

module _ (t : Hashtable) (key : Bytes) (v : IsValid t) where
  pub IsHome-chain_of : IsHome (slot key) (chain_of t key) × Distinct (chain_of t key)
  IsHome-chain_of =
      let z : 0 + slot key ≡ slot key = omega arith in
      rw z at (AreHomes-get t.buckets 0 (slot key) v.homes)

  with_chain_homes :
      (c : Chain) → IsHome (slot key) c → Distinct c → AreHomes 0 (with_chain t key c)
  with_chain_homes c h d =
      let z : 0 + slot key ≡ slot key = omega arith in
      AreHomes-set t.buckets 0 (slot key) c v.homes (rw z (h, d))

  pub total-with_chain :
      (c : Chain)
      → total (with_chain t key c) + length (chain_of t key) ≡ total t.buckets + length c
  total-with_chain c = total-set t.buckets (slot key) c (rw v.size (slot-lt key))

  -- A stored pair keeps the invariant.
  pub stored-IsValid : (val : Bytes) → IsValid (stored t key val)
  unfolding stored
  stored-IsValid val = elim (Option-cases (find key (chain_of t key))) [
    | inl e ↦
        rw (e, stored)
          (record {
            size = length-set t.buckets (slot key) _ ∙ v.size;
            homes =
                with_chain_homes (record { key = key; val = val } ∷ chain_of t key)
                  (refl, IsHome-chain_of.0) (e, IsHome-chain_of.1);
            counted = omega (
              arith,
              v.counted,
              total-with_chain (record { key = key; val = val } ∷ chain_of t key),
            );
          })
    | inr (old, e) ↦
        rw (e, stored)
          (record {
            size = length-set t.buckets (slot key) _ ∙ v.size;
            homes =
                with_chain_homes (overwrite key val (chain_of t key))
                  (IsHome-overwrite (slot key) key val (chain_of t key) IsHome-chain_of.0)
                  (Distinct-overwrite key val (chain_of t key) IsHome-chain_of.1);
            counted = omega (
              arith,
              v.counted,
              total-with_chain (overwrite key val (chain_of t key)),
              length-overwrite key val (chain_of t key),
            );
          })
  ]

  -- ht_set keeps a valid table valid, on success and on failure: every entry is in the bucket of
  -- its key, no key occurs twice, and count is the number of entries modulo 2^64.
  pub set_key-IsValid : (h : Heap) (val : Bytes) → IsValid (set_key h t key val).1
  set_key-IsValid h val =
      let s = set_key-Stores h t key val in
      elim (Rc-cases (set_key h t key val).0) [
        | inl e ↦ rw (s.done e) (stored-IsValid val)
        | inr e ↦ rw (s.kept e) v
      ]

  -- ht_del keeps a valid table valid.
  pub del_key-IsValid : IsValid (del_key t key).1
  unfolding del_key
  del_key-IsValid = elim (Option-cases (find key (chain_of t key))) [
    | inl e ↦ rw (e, del_key) v
    | inr (old, e) ↦
        rw (e, del_key)
          (record {
            size = length-set t.buckets (slot key) _ ∙ v.size;
            homes =
                with_chain_homes (unlink key (chain_of t key))
                  (IsHome-unlink (slot key) key (chain_of t key) IsHome-chain_of.0)
                  (Distinct-unlink key (chain_of t key) IsHome-chain_of.1);
            counted = omega (
              arith,
              v.counted,
              total-with_chain (unlink key (chain_of t key)),
              length-unlink key (chain_of t key) old e,
            );
          })
  ]

AreHomes-replicate : (n i : ℕ) → AreHomes i (replicate n [])
AreHomes-replicate zero i = tt
AreHomes-replicate (suc n) i = ((tt, tt), AreHomes-replicate n (i + 1))

pub total-replicate : (n : ℕ) → total (replicate n []) ≡ 0
total-replicate zero = refl
total-replicate (suc n) = omega (arith, total-replicate n)

-- `ht_init` makes a valid table.
pub init-IsValid : IsValid init
unfolding init
init-IsValid = record {
  size = length-replicate {A = Chain} num_buckets [];
  homes = AreHomes-replicate num_buckets 0;
  counted = omega (arith, total-replicate num_buckets);
}

destroy_buckets-eq : (cs : List Chain) → destroy_buckets cs ≡ replicate (length cs) []
unfolding destroy_buckets
destroy_buckets-eq [] = refl
destroy_buckets-eq (c ∷ cs) = ap (λ r. [] ∷ r) (destroy_buckets-eq cs)

-- ht_destroy turns a valid table into the one that ht_init makes.
pub destroy-eq-init : (t : Hashtable) → IsValid t → destroy t ≡ init
unfolding destroy init
destroy-eq-init t v =
    ap (λ b. let r : Hashtable = record { buckets = b; count = 0 } in r)
      (destroy_buckets-eq t.buckets ∙ ap (λ n. replicate n []) v.size)

-- Where no refusal is scheduled, none is scheduled after `ht_set`.
pub set_key_calm : (t : Hashtable) (key val : Bytes) → (set_key [] t key val).2 ≡ []
unfolding set_key
set_key_calm t key val = elim (Option-cases (find key (chain_of t key))) [
  | inl e ↦ rw (e, set_key) (unfold new_node copy_key link_node dup_bytes malloc in refl)
  | inr (old, e) ↦ rw (e, set_key) (unfold replace dup_bytes malloc in refl)
]
