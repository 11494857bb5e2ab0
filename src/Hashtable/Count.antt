-- ===== src/Hashtable/Count.antt =====
-- src/hashtable.c: the number of entries behind `ht_set` and `ht_del`.
use redis_in_c.Prelude.{
  ℕ, ◌+◌, ◌≡◌, refl, arith, Option-cases, inl, inr, Bytes, Option, none, some, ◌∷◌, length,
  if◌then◌else◌,
}
use redis_in_c.Hashtable.{
  init, num_buckets, Hashtable, find, overwrite, unlink, chain_of, with_chain, del_key, get_key,
}
use redis_in_c.Hashtable.Chains.{length-overwrite, length-unlink}
use redis_in_c.Hashtable.Inv.{IsValid}
use redis_in_c.Hashtable.Writes.{stored, total-with_chain, total-replicate}
use redis_in_c.Hashtable.View.{entries, length-entries_of}

-- 1 for a key that is there, 0 for one that is not.
abbrev pub held : Option Bytes → ℕ
held none = 0
held (some v) = 1

-- In a valid table a successful ht_set adds one entry for a key that is missing and none for a
-- key that is there.
pub length-entries-stored :
    (t : Hashtable) (key val : Bytes)
    → IsValid t
    → length (entries (stored t key val)) + held (get_key t key) ≡ length (entries t) + 1
unfolding stored entries get_key
length-entries-stored t key val v = elim (Option-cases (find key (chain_of t key))) [
  | inl e ↦
      rw (e, stored)
        (omega (
          arith,
          length-entries_of (with_chain t key (record { key = key; val = val } ∷ chain_of t key)),
          length-entries_of t.buckets,
          total-with_chain t key v (record { key = key; val = val } ∷ chain_of t key),
        ))
  | inr (old, e) ↦
      rw (e, stored)
        (omega (
          arith,
          length-entries_of (with_chain t key (overwrite key val (chain_of t key))),
          length-entries_of t.buckets,
          total-with_chain t key v (overwrite key val (chain_of t key)),
          length-overwrite key val (chain_of t key),
        ))
]

-- `ht_del` answers 1 and takes an entry off exactly for a key that is there.
pub length-entries-del_key :
    (t : Hashtable) (key : Bytes)
    → IsValid t
    → ((if (del_key t key).0 then 1 else 0) ≡ held (get_key t key))
      × (length (entries (del_key t key).1) + held (get_key t key) ≡ length (entries t))
unfolding del_key entries get_key
length-entries-del_key t key v = elim (Option-cases (find key (chain_of t key))) [
  | inl e ↦ rw (e, del_key) (refl, omega arith)
  | inr (old, e) ↦
      rw (e, del_key)
        (
          refl,
          omega (
            arith,
            length-entries_of (with_chain t key (unlink key (chain_of t key))),
            length-entries_of t.buckets,
            total-with_chain t key v (unlink key (chain_of t key)),
            length-unlink key (chain_of t key) old e,
          ),
        )
]

-- `ht_init` makes a table without entries.
pub length-entries-init : length (entries init) ≡ 0
unfolding entries init
length-entries-init = omega (arith, length-entries_of init.buckets, total-replicate num_buckets)
