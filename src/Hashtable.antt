-- ===== src/Hashtable.antt =====
-- src/hashtable.c and src/hashtable.h: the chained hash table over byte strings.
-- A chain is the list of its entries, head first. The buffers that an entry owns are byte lists,
-- whose lengths are `klen` and `vlen`.
pub mod Keys
pub mod Chains
pub mod Inv
pub mod Writes
pub mod View
pub mod Sizes
pub mod Scan
pub mod Count
mod Tests
use redis_in_c.Prelude.{
  ℕ, ◌+◌, ◌-◌, ◌*◌, ◌%◌, bit_xor, Bool, true, false, ◌==◌, if◌then◌else◌, Bytes, not, Option, none,
  some, List, [], ◌∷◌, length, get_or, set, replicate, size_mod,
}
use redis_in_c.Heap.{Heap, Rc, ok, fail, malloc}

-- `ht_entry_t`, but for the link.
pub record Entry : Type 0 where
  pub key : Bytes
  pub val : Bytes

abbrev pub Chain : Type 0
Chain = List Entry

pub record Hashtable : Type 0 where
  pub buckets : List Chain
  pub count : ℕ

abbrev pub num_buckets : ℕ
num_buckets = 1024

-- `hash = ((hash << 5) + hash) ^ byte` in `uint64_t`
abbrev mix : ℕ → ℕ → ℕ
mix hash byte = bit_xor ((hash * 32 % size_mod + hash) % size_mod) byte

hash_from : ℕ → Bytes → ℕ
hash_from hash [] = hash
hash_from hash (byte ∷ rest) = hash_from (mix hash byte) rest

-- `ht_hash`
unfoldable pub hash : Bytes → ℕ
unfolding hash_from
hash key = hash_from 5381 key

unfoldable pub bucket_index : ℕ → ℕ
bucket_index h = h % num_buckets

-- `memcmp(a, b, n) == 0` over two buffers of one length
unfoldable pub memcmp_eq : Bytes → Bytes → Bool
memcmp_eq (x ∷ a) (y ∷ b) = if x == y then memcmp_eq a b else false
memcmp_eq _ _ = true

unfoldable pub keys_equal : Bytes → Bytes → Bool
unfolding memcmp_eq
keys_equal a b =
    if not (length a == length b) then false else if length a == 0 then true else memcmp_eq a b

-- `ht_init`; the struct it stamps is the caller's.
unfoldable pub init : Hashtable
init = record { buckets = replicate num_buckets []; count = 0 }

-- The loop of `ht_destroy`: every chain is freed, and its head set to NULL.
destroy_buckets : List Chain → List Chain
destroy_buckets [] = []
destroy_buckets (c ∷ cs) = [] ∷ destroy_buckets cs

unfoldable pub destroy : Hashtable → Hashtable
unfolding destroy_buckets
destroy t = record t { buckets = destroy_buckets t.buckets; count = 0 }

-- `dup_bytes`: a copy of the bytes, or NULL.
unfoldable pub dup_bytes : Heap → Bytes → Option Bytes × Heap
dup_bytes h src = let (p, h') = malloc h in elim p [ none ↦ (none, h') | some _ ↦ (some src, h') ]

-- The first pass of `ht_set`, and the walk of `ht_get`: the value of the first entry with the key.
unfoldable pub find : Bytes → Chain → Option Bytes
find k [] = none
find k (e ∷ c) = if keys_equal e.key k then some e.val else find k c

-- `cur->val = new_val` at the first entry with the key.
unfoldable pub overwrite : Bytes → Bytes → Chain → Chain
overwrite k v [] = []
overwrite k v (e ∷ c) = if keys_equal e.key k then record e { val = v } ∷ c else e ∷ overwrite k v c

-- `*link = cur->next` at the first entry with the key.
unfoldable pub unlink : Bytes → Chain → Chain
unlink k [] = []
unlink k (e ∷ c) = if keys_equal e.key k then c else e ∷ unlink k c

-- The index of the key's bucket, and its chain.
abbrev pub slot : Bytes → ℕ
slot key = bucket_index (hash key)

abbrev pub chain_of : Hashtable → Bytes → Chain
chain_of t key = get_or t.buckets (slot key) []

abbrev pub with_chain : Hashtable → Bytes → Chain → List Chain
with_chain t key c = set t.buckets (slot key) c

-- The end of `ht_set` for an existing entry, where `dup_bytes` has answered.
replace : Hashtable → Bytes → Option Bytes × Heap → Rc × Hashtable × Heap
replace t key (none, h) = (fail, t, h)
replace t key (some new_val, h) =
    (ok, record t { buckets = with_chain t key (overwrite key new_val (chain_of t key)) }, h)

-- The three allocations of a fresh node: the node, the key and the value.
link_node : Hashtable → Bytes → Bytes → Option Bytes × Heap → Rc × Hashtable × Heap
link_node t key key_copy (none, h) = (fail, t, h)
link_node t key key_copy (some val_copy, h) = (
  ok,
  record {
    buckets = with_chain t key (record { key = key_copy; val = val_copy } ∷ chain_of t key);
    count = (t.count + 1) % size_mod;
  },
  h,
)

copy_key : Hashtable → Bytes → Bytes → Option Bytes × Heap → Rc × Hashtable × Heap
unfolding link_node
copy_key t key val (none, h) = (fail, t, h)
copy_key t key val (some key_copy, h) = link_node t key key_copy (dup_bytes h val)

new_node : Hashtable → Bytes → Bytes → Option (Unit {0}) × Heap → Rc × Hashtable × Heap
unfolding copy_key
new_node t key val (none, h) = (fail, t, h)
new_node t key val (some _, h) = copy_key t key val (dup_bytes h key)

-- `ht_set`
unfoldable pub set_key : Heap → Hashtable → Bytes → Bytes → Rc × Hashtable × Heap
unfolding replace new_node
set_key h t key val = elim (find key (chain_of t key)) [
  | some _ ↦ replace t key (dup_bytes h val)
  | none ↦ new_node t key val (malloc h)
]

-- `ht_del`
unfoldable pub del_key : Hashtable → Bytes → Bool × Hashtable
del_key t key = elim (find key (chain_of t key)) [
  | some _ ↦ (
    true,
    record {
      buckets = with_chain t key (unlink key (chain_of t key));
      count = (t.count + size_mod - 1) % size_mod;
    },
  )
  | none ↦ (false, t)
]

-- `ht_get`: the borrowed value, `none` on a miss.
unfoldable pub get_key : Hashtable → Bytes → Option Bytes
get_key t key = find key (chain_of t key)

-- `ht_scan`. The callback gets a key and a value, updates what `ud` points to, and stops the scan
-- by `false`. The result says whether the scan goes on, and how many entries it has visited.
module _ {ℓ} {S : Type ℓ} (cb : Bytes → Bytes → S → Bool × S) where
  unfoldable pub scan_chain : Chain → ℕ → S → Bool × ℕ × S
  scan_chain [] visited s = (true, visited, s)
  scan_chain (e ∷ c) visited s =
      let (more, s') = cb e.key e.val s in
      let rest = scan_chain c ((visited + 1) % size_mod) s' in
      if more then rest else (false, (visited + 1) % size_mod, s')

  unfoldable pub scan_buckets : List Chain → ℕ → S → ℕ × S
  scan_buckets [] visited s = (visited, s)
  scan_buckets (c ∷ cs) visited s =
      let (more, visited', s') = scan_chain c visited s in
      let rest = scan_buckets cs visited' s' in if more then rest else (visited', s')

  unfoldable pub scan : Hashtable → S → ℕ × S
  scan t s = scan_buckets t.buckets 0 s
