-- ===== src/Hashtable/View.antt =====
-- src/hashtable.c: the table as a finite map, and as the list of its entries.
use redis_in_c.Prelude.{
  ℕ, zero, suc, ◌+◌, ◌%◌, ◌<◌, ◌≡◌, ◌≢◌, refl, ◌∙◌, ap, arith, Bool-cases, Option-cases, inl, inr,
  Bytes, Option, none, some, List, [], ◌∷◌, ◌++◌, length, length-append, get_or, All, if◌then◌else◌,
  ◌==◌, ==_iff, get_or-set_self, get_or-set_ne, size_mod,
}
use redis_in_c.Heap.{Heap, ok}
use redis_in_c.Hashtable.{
  Chain, Hashtable, keys_equal, find, overwrite, unlink, slot, chain_of, with_chain, set_key,
  del_key, get_key,
}
use redis_in_c.Hashtable.Keys.{keys_equal_iff, keys_equal-eq_false}
use redis_in_c.Hashtable.Chains.{Distinct, find-overwrite, find-unlink, find-append, or_else}
use redis_in_c.Hashtable.Inv.{IsHome, AreHomes, total, IsValid, slot-lt}
use redis_in_c.Hashtable.Writes.{stored, set_key-Stores, IsHome-chain_of}

slot-ne : (k j : Bytes) → slot k ≢ slot j → k ≢ j
slot-ne k j ne e = ne (ap (λ x. slot x) e)

module _ (t : Hashtable) (v : IsValid t) where
  -- A write to a key's bucket, as a lookup sees it.
  find-with_chain :
      (k j : Bytes) (c : Chain) (r : Option Bytes)
      → find j c ≡ (if keys_equal k j then r else find j (chain_of t k))
      → find j (get_or (with_chain t k c) (slot j) [])
        ≡ (if keys_equal k j then r else find j (chain_of t j))
  find-with_chain k j c r h = elim (Bool-cases (slot k == slot j)) [
    | inl e ↦
        let same : slot k ≡ slot j = (==_iff (slot k) (slot j)).0 e in
        let here : get_or (with_chain t k c) (slot j) [] ≡ c =
          rw (← same) (get_or-set_self t.buckets (slot k) c [] (rw v.size (slot-lt k))) in
        rw here (h ∙ ap (λ n. if keys_equal k j then r else find j (get_or t.buckets n [])) same)
    | inr f ↦
        let apart : slot k ≢ slot j = ground arith in
        rw (
          get_or-set_ne t.buckets (slot k) (slot j) c [] apart,
          keys_equal-eq_false k j (slot-ne k j apart),
        )
  ]

  pub get-stored :
      (k val j : Bytes)
      → get_key (stored t k val) j ≡ (if keys_equal k j then some val else get_key t j)
  unfolding get_key stored
  get-stored k val j = elim (Option-cases (find k (chain_of t k))) [
    | inl e ↦
        rw (e, stored)
          (find-with_chain k j (record { key = k; val = val } ∷ chain_of t k) (some val)
            (unfold find in refl))
    | inr (old, e) ↦
        rw (e, stored)
          (find-with_chain k j (overwrite k val (chain_of t k)) (some val)
            (find-overwrite k val j (chain_of t k) old e))
  ]

  -- In a valid table, after a successful ht_set the value is found under its key, and every other
  -- key is looked up as before.
  pub get-set :
      (h : Heap) (k val j : Bytes)
      → (set_key h t k val).0 ≡ ok
      → get_key (set_key h t k val).1 j ≡ (if keys_equal k j then some val else get_key t j)
  get-set h k val j e = rw ((set_key-Stores h t k val).done e) (get-stored k val j)

  -- In a valid table, after ht_del its key is not found, and every other key is looked up as
  -- before.
  pub get-del :
      (k j : Bytes) → get_key (del_key t k).1 j ≡ (if keys_equal k j then none else get_key t j)
  unfolding get_key del_key
  get-del k j = elim (Option-cases (find k (chain_of t k))) [
    | inl e ↦ rw (e, del_key) (ground (arith, keys_equal_iff k j, absent k j e))
    | inr (old, e) ↦
        rw (e, del_key)
          (find-with_chain k j (unlink k (chain_of t k)) none
            (find-unlink k j (chain_of t k) (IsHome-chain_of t k v).1))
  ]
    where
      absent : (k j : Bytes) → find k (chain_of t k) ≡ none → k ≡ j → find j (chain_of t j) ≡ none
      absent k j e s = rw (← s) e

-- The entries in the order of the buckets, which is the order of `ht_scan`.
unfoldable pub entries_of : List Chain → Chain
entries_of [] = []
entries_of (c ∷ cs) = c ++ entries_of cs

unfoldable pub entries : Hashtable → Chain
unfolding entries_of
entries t = entries_of t.buckets

-- A chain of another bucket does not hold the key.
find-elsewhere : (k : Bytes) (i : ℕ) (c : Chain) → IsHome i c → slot k ≢ i → find k c ≡ none
unfolding find
find-elsewhere k i [] h ne = refl
find-elsewhere k i (e ∷ c) h ne =
    ground (arith, keys_equal_iff e.key k, slot_eq e.key k, find-elsewhere k i c h.1 ne)
  where
    slot_eq : (a b : Bytes) → a ≡ b → slot a ≡ slot b
    slot_eq a b e = ap (λ x. slot x) e

find-below :
    (k : Bytes) (i : ℕ) (cs : List Chain)
    → AreHomes i cs
    → slot k < i
    → find k (entries_of cs) ≡ none
unfolding entries_of
find-below k i [] h lt = unfold find in refl
find-below k i (c ∷ cs) h lt = rw (
  find-append k c (entries_of cs),
  find-elsewhere k i c h.0.0 (omega arith),
  find-below k (i + 1) cs h.1 (omega arith),
)

find-entries_of :
    (k : Bytes) (i n : ℕ) (cs : List Chain)
    → AreHomes i cs
    → slot k ≡ i + n
    → find k (entries_of cs) ≡ find k (get_or cs n [])
unfolding entries_of
find-entries_of k i n [] h e = refl
find-entries_of k i zero (c ∷ cs) h e =
    rw (find-append k c (entries_of cs), find-below k (i + 1) cs h.1 (omega arith))
      (or_none (find k c))
  where
    or_none : (o : Option Bytes) → or_else o none ≡ o
    or_none none = refl
    or_none (some x) = refl
find-entries_of k i (suc n) (c ∷ cs) h e =
    rw (find-append k c (entries_of cs), find-elsewhere k i c h.0.0 (omega arith))
      (find-entries_of k (i + 1) n cs h.1 (omega arith))

-- ht_get on a valid table finds what a search of the list of all entries finds.
pub find-entries : (t : Hashtable) (k : Bytes) → IsValid t → find k (entries t) ≡ get_key t k
unfolding entries get_key
find-entries t k v = find-entries_of k 0 (slot k) t.buckets v.homes (omega arith)

Distinct-append :
    (a b : Chain) → Distinct a → Distinct b → All (λ e. find e.key b ≡ none) a → Distinct (a ++ b)
Distinct-append [] b da db apart = db
Distinct-append (e ∷ a) b da db apart =
    (rw (find-append e.key a b, da.0) apart.0, Distinct-append a b da.1 db apart.1)

apart_of_home :
    (i : ℕ) (c : Chain) (cs : List Chain)
    → IsHome i c
    → AreHomes (i + 1) cs
    → All (λ e. find e.key (entries_of cs) ≡ none) c
apart_of_home i [] cs h g = tt
apart_of_home i (e ∷ c) cs h g =
    (find-below e.key (i + 1) cs g (omega arith), apart_of_home i c cs h.1 g)

Distinct-entries_of : (i : ℕ) (cs : List Chain) → AreHomes i cs → Distinct (entries_of cs)
unfolding entries_of
Distinct-entries_of i [] h = tt
Distinct-entries_of i (c ∷ cs) h =
    Distinct-append c (entries_of cs) h.0.1 (Distinct-entries_of (i + 1) cs h.1)
      (apart_of_home i c cs h.0.0 h.1)

-- No key occurs in two entries of a table.
pub Distinct-entries : (t : Hashtable) → IsValid t → Distinct (entries t)
unfolding entries
Distinct-entries t v = Distinct-entries_of 0 t.buckets v.homes

pub length-entries_of : (cs : List Chain) → length (entries_of cs) ≡ total cs
unfolding entries_of
length-entries_of [] = refl
length-entries_of (c ∷ cs) = omega (arith, length-append c (entries_of cs), length-entries_of cs)

-- In a valid table count is the number of entries modulo 2^64.
pub count-eq-length : (t : Hashtable) → IsValid t → t.count ≡ length (entries t) % size_mod
unfolding entries
count-eq-length t v = omega (arith, v.counted, length-entries_of t.buckets)
