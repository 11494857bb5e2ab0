-- ===== src/Hashtable/Chains.antt =====
-- src/hashtable.c: one bucket's chain.
use redis_in_c.Prelude.{
  suc, ◌≡◌, refl, arith, Bytes, Option, none, some, [], ◌∷◌, ◌++◌, length, if◌then◌else◌,
}
use redis_in_c.Hashtable.{Chain, keys_equal, find, overwrite, unlink}
use redis_in_c.Hashtable.Keys.{keys_equal_iff}

-- No key occurs twice.
abbrev pub Distinct : Chain → Type 0
Distinct [] = Unit
Distinct (e ∷ c) = (find e.key c ≡ none) × Distinct c

abbrev pub or_else : Option Bytes → Option Bytes → Option Bytes
or_else none o = o
or_else (some v) o = some v

pub find-append : (k : Bytes) (a b : Chain) → find k (a ++ b) ≡ or_else (find k a) (find k b)
unfolding find
find-append k [] b = refl
find-append k (e ∷ a) b = rw (find-append k a b) (ground arith)

pub find-overwrite :
    (k v j : Bytes) (c : Chain) (old : Bytes)
    → find k c ≡ some old
    → find j (overwrite k v c) ≡ (if keys_equal k j then some v else find j c)
unfolding find overwrite
find-overwrite k v j [] old h = cc
find-overwrite k v j (e ∷ c) old h = ground (
  arith,
  find-overwrite k v j c old,
  keys_equal_iff e.key k,
  keys_equal_iff e.key j,
  keys_equal_iff k j,
)

pub length-overwrite : (k v : Bytes) (c : Chain) → length (overwrite k v c) ≡ length c
unfolding overwrite
length-overwrite k v [] = refl
length-overwrite k v (e ∷ c) = ground (arith, length-overwrite k v c)

pub find-unlink :
    (k j : Bytes) (c : Chain)
    → Distinct c
    → find j (unlink k c) ≡ (if keys_equal k j then none else find j c)
unfolding find unlink
find-unlink k j [] d = ground arith
find-unlink k j (e ∷ c) (new, d) =
    ground (
      arith,
      find-unlink k j c d,
      keys_equal_iff e.key k,
      keys_equal_iff e.key j,
      keys_equal_iff k j,
    )

pub length-unlink :
    (k : Bytes) (c : Chain) (old : Bytes)
    → find k c ≡ some old
    → suc (length (unlink k c)) ≡ length c
unfolding find unlink
length-unlink k [] old h = cc
length-unlink k (e ∷ c) old h = ground (arith, length-unlink k c old)
