-- ===== src/Command/Removal.antt =====
-- src/command.c: DEL and EXISTS over several keys.
use redis_in_c.Prelude.{
  ℕ, ◌+◌, ◌≤◌, ◌≡◌, ◌∙◌, refl, arith, Bool, false, ◌||◌, Option-cases, inl, inr, Bytes, Option,
  none, some, List, [], ◌∷◌, length, if◌then◌else◌, IsWord,
}
use redis_in_c.Prelude.Int.{pos}
use redis_in_c.Hashtable.{Hashtable, keys_equal, del_key, get_key}
use redis_in_c.Hashtable.Inv.{IsValid}
use redis_in_c.Hashtable.Writes.{del_key-IsValid}
use redis_in_c.Hashtable.View.{entries, get-del}
use redis_in_c.Hashtable.Sizes.{IsSized, del_key-IsSized}
use redis_in_c.Hashtable.Count.{held, length-entries-del_key}
use redis_in_c.Resp.Reply.{integer, encode, integer-Emits}
use redis_in_c.Command.Context.{Ctx}
use redis_in_c.Command.Answers.{IsReady, Answered, send-Answered, send_later}
use redis_in_c.Command.Basic.{operands, del_loop, cmd_del, exists_loop, cmd_exists}

abbrev pub is_named : Bytes → List Bytes → Bool
is_named j [] = false
is_named j (k ∷ ks) = keys_equal k j || is_named j ks

-- What DEL leaves: `n` entries fewer, the named keys gone, and all others as before.
pub record Removed (keys : List Bytes) (t : Hashtable) (n : ℕ) (t' : Hashtable) : Type 0 where
  pub valid : IsValid t'
  pub sized : IsSized t'
  pub lookup : (j : Bytes) → get_key t' j ≡ (if is_named j keys then none else get_key t j)
  pub counted : length (entries t') + n ≡ length (entries t)
  pub at_most : n ≤ length keys

pub del_loop_lem :
    (keys : List Bytes) (t : Hashtable) (deleted : ℕ)
    → IsValid t
    → IsSized t
    → (n : ℕ) × ((del_loop keys t deleted).0 ≡ deleted + n)
      × Removed keys t n (del_loop keys t deleted).1
unfolding del_loop
del_loop_lem [] t deleted v s = (
  0,
  omega arith,
  record { valid = v; sized = s; lookup = λ j. refl; counted = omega arith; at_most = omega arith },
)
del_loop_lem (k ∷ ks) t deleted v s =
    let (found, t') = del_key t k in
    let (was, fewer) = length-entries-del_key t k v in
    let (n, total, rest) =
      del_loop_lem ks t' (if found then deleted + 1 else deleted) (del_key-IsValid t k v)
        (del_key-IsSized t k s) in
    let (lo, hi) = held_bounds (get_key t k) in
    (
      held (get_key t k) + n,
      total ∙ step n found was,
      record {
        valid = rest.valid;
        sized = rest.sized;
        lookup = λ j. rest.lookup j ∙ ground (arith, get-del t v k j);
        counted = omega (arith, rest.counted, fewer);
        at_most = omega (arith, rest.at_most);
      },
    )
  where
    held_bounds : (o : Option Bytes) → (0 ≤ held o) × (held o ≤ 1)
    held_bounds none = omega arith
    held_bounds (some v) = omega arith

    step :
        (n : ℕ) (found : Bool)
        → (if found then 1 else 0) ≡ held (get_key t k)
        → (if found then deleted + 1 else deleted) + n ≡ deleted + (held (get_key t k) + n)
    step n found e = ground arith

pub length-operands-le : (args : List Bytes) → length (operands args) ≤ length args
length-operands-le [] = omega arith
length-operands-le (name ∷ rest) = omega arith

-- How many of the keys are there, a key that is named twice counted twice.
abbrev pub present : Hashtable → List Bytes → ℕ
present t [] = 0
present t (k ∷ ks) = held (get_key t k) + present t ks

exists_loop_lem :
    (keys : List Bytes) (t : Hashtable) (found : ℕ)
    → (exists_loop keys t found ≡ found + present t keys) × (present t keys ≤ length keys)
unfolding exists_loop
exists_loop_lem [] t found = (omega arith, omega arith)
exists_loop_lem (k ∷ ks) t found = elim (Option-cases (get_key t k)) [
  | inl e ↦
      let (sum, few) = exists_loop_lem ks t found in rw e (omega (arith, sum), omega (arith, few))
  | inr (v, e) ↦
      let (sum, few) = exists_loop_lem ks t (found + 1) in
      rw e (omega (arith, sum), omega (arith, few))
]

module _ (c : Ctx) (args : List Bytes) (r : IsReady c) (few : IsWord (length args)) where
  -- From a ready state with a 64-bit number of arguments, DEL leaves a valid table in which the
  -- named keys are gone and all others are as before, and answers by how many entries it has
  -- become shorter.
  pub cmd_del_lem :
      (n : ℕ) × (t : Hashtable) × Removed (operands args) c.store n t
      × Answered c t (encode (integer (pos n))) (cmd_del c args)
  unfolding cmd_del
  cmd_del_lem =
      let (n, total, rest) = del_loop_lem (operands args) c.store 0 r.table r.sized in
      let t = (del_loop (operands args) c.store 0).1 in
      let same : 0 + n ≡ n = omega arith in
      (
        n,
        t,
        rest,
        rw (total, same)
            (send_later c t c.heap _ _ r (λ z. z)
              (integer-Emits (pos n) (omega (arith, rest.at_most, length-operands-le args)))),
      )

  pub cmd_exists-Answered :
      Answered c c.store
        (encode (integer (pos (present c.store (operands args)))))
        (cmd_exists c args)
  unfolding cmd_exists
  cmd_exists-Answered =
      let (sum, few_present) = exists_loop_lem (operands args) c.store 0 in
      let n = present c.store (operands args) in
      let same : 0 + n ≡ n = omega arith in
      rw (sum, same)
        (send-Answered c _ _ r
          (integer-Emits (pos n) (omega (arith, few_present, length-operands-le args))))
