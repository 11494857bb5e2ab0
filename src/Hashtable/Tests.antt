-- ===== src/Hashtable/Tests.antt =====
-- src/hashtable.c: the theorems about the table at concrete inputs.
use redis_in_c.Prelude.{◌≡◌, refl, [], ◌∷◌, codes, Bytes, some, none, if◌then◌else◌}
use redis_in_c.Heap.{refused}
use redis_in_c.Hashtable.{Hashtable, keys_equal, init, set_key, del_key, get_key, hash}
use redis_in_c.Hashtable.Inv.{IsValid}
use redis_in_c.Hashtable.Writes.{
  Stores, stored, set_key-Stores, stored-IsValid, set_key-IsValid, init-IsValid,
}
use redis_in_c.Hashtable.View.{get-set, get-del}

abbrev k : Bytes
k = codes "k"

abbrev one : Bytes
one = codes "1"

-- A table of one entry.
abbrev single : Hashtable
single = stored init k one

single-IsValid : IsValid single
single-IsValid = stored-IsValid init k init-IsValid one

set_key-Stores_example :
    Stores (refused ∷ []) single k (codes "2") (set_key (refused ∷ []) single k (codes "2"))
set_key-Stores_example = set_key-Stores (refused ∷ []) single k (codes "2")

set_key-IsValid_example : IsValid (set_key [] single (codes "j") (codes "2")).1
set_key-IsValid_example = set_key-IsValid single (codes "j") single-IsValid [] (codes "2")

get-set_example :
    get_key (set_key [] single k (codes "2")).1 (codes "j")
    ≡ (if keys_equal k (codes "j") then some (codes "2") else get_key single (codes "j"))
get-set_example =
    get-set single single-IsValid [] k (codes "2") (codes "j")
      ((set_key-Stores [] single k (codes "2")).total refl)

get-del_example :
    get_key (del_key single k).1 (codes "j")
    ≡ (if keys_equal k (codes "j") then none else get_key single (codes "j"))
get-del_example = get-del single single-IsValid k (codes "j")

-- `hash` of the empty key is the seed, and one byte is mixed in.
hash_run : hash [] ≡ 5381
unfolding hash
hash_run = refl

hash_byte_run : hash (codes "a") ≡ 177604
unfolding hash
hash_byte_run = refl

-- A callback that counts, and stops at the first entry.
