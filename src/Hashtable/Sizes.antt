-- ===== src/Hashtable/Sizes.antt =====
-- src/hashtable.c: `klen` and `vlen` of every entry are numbers of type `size_t`.
use redis_in_c.Prelude.{
  ℕ, zero, suc, ◌≡◌, arith, Bool-cases, Option-cases, inl, inr, Bytes, some, List, [], ◌∷◌, ◌++◌,
  length, get_or, set, replicate, All, IsWord,
}
use redis_in_c.Heap.{Heap, Rc-cases}
use redis_in_c.Hashtable.{
  Entry, Chain, Hashtable, num_buckets, keys_equal, find, overwrite, unlink, slot, chain_of, init,
  set_key, del_key, get_key,
}
use redis_in_c.Hashtable.Writes.{stored, set_key-Stores}
use redis_in_c.Hashtable.View.{entries, entries_of}

abbrev pub HasSizes : Entry → Type 0
HasSizes e = IsWord (length e.key) × IsWord (length e.val)

abbrev pub IsSized : Hashtable → Type 0
IsSized t = All (All HasSizes) t.buckets

All-get_or : (cs : List Chain) (n : ℕ) → All (All HasSizes) cs → All HasSizes (get_or cs n [])
All-get_or [] n h = tt
All-get_or (c ∷ cs) zero h = h.0
All-get_or (c ∷ cs) (suc n) h = All-get_or cs n h.1

All-set :
    (cs : List Chain) (n : ℕ) (c : Chain)
    → All (All HasSizes) cs
    → All HasSizes c
    → All (All HasSizes) (set cs n c)
All-set [] n c h g = tt
All-set (d ∷ cs) zero c h g = (g, h.1)
All-set (d ∷ cs) (suc n) c h g = (h.0, All-set cs n c h.1 g)

All-overwrite :
    (k v : Bytes) (c : Chain) → IsWord (length v) → All HasSizes c → All HasSizes (overwrite k v c)
unfolding overwrite
All-overwrite k v [] w h = tt
All-overwrite k v (e ∷ c) w h = elim (Bool-cases (keys_equal e.key k)) [
  | inl t ↦ rw t ((h.0.0, w), h.1)
  | inr f ↦ rw f (h.0, All-overwrite k v c w h.1)
]

All-unlink : (k : Bytes) (c : Chain) → All HasSizes c → All HasSizes (unlink k c)
unfolding unlink
All-unlink k [] h = tt
All-unlink k (e ∷ c) h = elim (Bool-cases (keys_equal e.key k)) [
  | inl t ↦ rw t h.1
  | inr f ↦ rw f (h.0, All-unlink k c h.1)
]

All-find :
    (k : Bytes) (c : Chain) (v : Bytes) → All HasSizes c → find k c ≡ some v → IsWord (length v)
unfolding find
All-find k [] v h e = cc
All-find k (d ∷ c) v h e = ground (arith, All-find k c v h.1)

pub stored-IsSized :
    (t : Hashtable) (key val : Bytes)
    → IsWord (length key)
    → IsWord (length val)
    → IsSized t
    → IsSized (stored t key val)
unfolding stored
stored-IsSized t key val wk wv h =
    let here = All-get_or t.buckets (slot key) h in
    elim (Option-cases (find key (chain_of t key))) [
      | inl e ↦
          rw (e, stored)
            (All-set t.buckets (slot key) (record { key = key; val = val } ∷ chain_of t key) h
              ((wk, wv), here))
      | inr (old, e) ↦
          rw (e, stored)
            (All-set t.buckets (slot key) (overwrite key val (chain_of t key)) h
              (All-overwrite key val (chain_of t key) wv here))
    ]

pub set_key-IsSized :
    (h : Heap) (t : Hashtable) (key val : Bytes)
    → IsWord (length key)
    → IsWord (length val)
    → IsSized t
    → IsSized (set_key h t key val).1
set_key-IsSized h t key val wk wv z =
    let s = set_key-Stores h t key val in
    elim (Rc-cases (set_key h t key val).0) [
      | inl e ↦ rw (s.done e) (stored-IsSized t key val wk wv z)
      | inr e ↦ rw (s.kept e) z
    ]

pub del_key-IsSized : (t : Hashtable) (key : Bytes) → IsSized t → IsSized (del_key t key).1
unfolding del_key
del_key-IsSized t key h = elim (Option-cases (find key (chain_of t key))) [
  | inl e ↦ rw (e, del_key) h
  | inr (old, e) ↦
      rw (e, del_key)
        (All-set t.buckets (slot key) (unlink key (chain_of t key)) h
          (All-unlink key (chain_of t key) (All-get_or t.buckets (slot key) h)))
]

All-replicate : (n : ℕ) → All (All HasSizes) (replicate n [])
All-replicate zero = tt
All-replicate (suc n) = (tt, All-replicate n)

pub init-IsSized : IsSized init
unfolding init
init-IsSized = All-replicate num_buckets

-- A value that is found has a length of type `size_t`.
pub get_key-IsWord :
    (t : Hashtable) (key v : Bytes) → IsSized t → get_key t key ≡ some v → IsWord (length v)
unfolding get_key
get_key-IsWord t key v h e = All-find key (chain_of t key) v (All-get_or t.buckets (slot key) h) e

All-append : (a b : Chain) → All HasSizes a → All HasSizes b → All HasSizes (a ++ b)
All-append [] b h g = g
All-append (e ∷ a) b h g = (h.0, All-append a b h.1 g)

All-entries_of : (cs : List Chain) → All (All HasSizes) cs → All HasSizes (entries_of cs)
unfolding entries_of
All-entries_of [] h = tt
All-entries_of (c ∷ cs) h = All-append c (entries_of cs) h.0 (All-entries_of cs h.1)

pub All-entries : (t : Hashtable) → IsSized t → All HasSizes (entries t)
unfolding entries
All-entries t h = All-entries_of t.buckets h
