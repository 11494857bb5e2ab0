-- ===== src/Hashtable/Inv.antt =====
-- src/hashtable.c: the invariant of `hashtable_t`. Every entry is in the bucket of its key, no key
-- occurs twice, and `count` is the number of entries (modulo the width of `size_t`).
use redis_in_c.Prelude.{
  ℕ, zero, suc, ◌+◌, ◌%◌, ◌<◌, ◌≡◌, refl, arith, Bytes, none, List, [], ◌∷◌, length, get_or, set,
  size_mod,
}
use redis_in_c.Hashtable.{
  Chain, Hashtable, find, overwrite, unlink, slot, num_buckets, bucket_index,
}
use redis_in_c.Hashtable.Chains.{Distinct}

-- Every entry of a chain belongs to bucket `i`.
abbrev pub IsHome : ℕ → Chain → Type 0
IsHome i [] = Unit
IsHome i (e ∷ c) = (slot e.key ≡ i) × IsHome i c

-- The chains from bucket `i` on.
abbrev pub AreHomes : ℕ → List Chain → Type 0
AreHomes i [] = Unit
AreHomes i (c ∷ cs) = (IsHome i c × Distinct c) × AreHomes (i + 1) cs

abbrev pub total : List Chain → ℕ
total [] = 0
total (c ∷ cs) = length c + total cs

pub record IsValid (t : Hashtable) : Type 0 where
  pub size : length t.buckets ≡ num_buckets
  pub homes : AreHomes 0 t.buckets
  pub counted : t.count ≡ total t.buckets % size_mod

pub AreHomes-get :
    (cs : List Chain) (i n : ℕ)
    → AreHomes i cs
    → IsHome (i + n) (get_or cs n []) × Distinct (get_or cs n [])
AreHomes-get [] i n h = (tt, tt)
AreHomes-get (c ∷ cs) i zero h = let e : i + 0 ≡ i = omega arith in rw e h.0
AreHomes-get (c ∷ cs) i (suc n) h =
    let e : i + suc n ≡ i + 1 + n = omega arith in rw e (AreHomes-get cs (i + 1) n h.1)

pub AreHomes-set :
    (cs : List Chain) (i n : ℕ) (c : Chain)
    → AreHomes i cs
    → IsHome (i + n) c × Distinct c
    → AreHomes i (set cs n c)
AreHomes-set [] i n c h g = tt
AreHomes-set (c' ∷ cs) i zero c h g = let e : i + 0 ≡ i = omega arith in ((rw e at g), h.1)
AreHomes-set (c' ∷ cs) i (suc n) c h g =
    let e : i + suc n ≡ i + 1 + n = omega arith in
    (h.0, AreHomes-set cs (i + 1) n c h.1 (rw e at g))

pub total-set :
    (cs : List Chain) (n : ℕ) (c : Chain)
    → n < length cs
    → total (set cs n c) + length (get_or cs n []) ≡ total cs + length c
total-set [] n c h = elim h [ ]
total-set (c' ∷ cs) zero c h = omega arith
total-set (c' ∷ cs) (suc n) c h = omega (arith, total-set cs n c (omega arith))

-- The bucket of a key is one of the table's.
pub slot-lt : (k : Bytes) → slot k < num_buckets
unfolding bucket_index
slot-lt k = omega arith

pub IsHome-overwrite : (i : ℕ) (k v : Bytes) (c : Chain) → IsHome i c → IsHome i (overwrite k v c)
unfolding overwrite
IsHome-overwrite i k v [] h = tt
IsHome-overwrite i k v (e ∷ c) h = ground (arith, IsHome-overwrite i k v c h.1)

pub IsHome-unlink : (i : ℕ) (k : Bytes) (c : Chain) → IsHome i c → IsHome i (unlink k c)
unfolding unlink
IsHome-unlink i k [] h = tt
IsHome-unlink i k (e ∷ c) h = ground (arith, IsHome-unlink i k c h.1)

find-none-overwrite :
    (k v j : Bytes) (c : Chain) → find j c ≡ none → find j (overwrite k v c) ≡ none
unfolding find overwrite
find-none-overwrite k v j [] h = refl
find-none-overwrite k v j (e ∷ c) h = ground (arith, find-none-overwrite k v j c)

pub Distinct-overwrite : (k v : Bytes) (c : Chain) → Distinct c → Distinct (overwrite k v c)
unfolding overwrite
Distinct-overwrite k v [] d = tt
Distinct-overwrite k v (e ∷ c) d =
    ground (arith, find-none-overwrite k v e.key c d.0, Distinct-overwrite k v c d.1)

find-none-unlink : (k j : Bytes) (c : Chain) → find j c ≡ none → find j (unlink k c) ≡ none
unfolding find unlink
find-none-unlink k j [] h = refl
find-none-unlink k j (e ∷ c) h = ground (arith, find-none-unlink k j c)

pub Distinct-unlink : (k : Bytes) (c : Chain) → Distinct c → Distinct (unlink k c)
unfolding unlink
Distinct-unlink k [] d = tt
Distinct-unlink k (e ∷ c) d =
    ground (arith, find-none-unlink k e.key c d.0, Distinct-unlink k c d.1)
