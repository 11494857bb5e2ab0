-- ===== src/Command/Listing.antt =====
-- src/command.c: KEYS and DBSIZE, by the keys that a lookup finds, in whatever order.
use redis_in_c.Prelude.{
  ◌≡◌, ◌∙◌, ◌⊎◌, refl, sym, subst, ap, arith, Bool, true, Bool-cases, inl, inr, if◌then◌else◌,
  Bytes, some, List, [], ◌∷◌, length, IsWord,
}
use redis_in_c.Prelude.Int.{int64_of}
use redis_in_c.Hashtable.{Entry, Chain, Hashtable, keys_equal, find}
use redis_in_c.Hashtable.Keys.{keys_equal_iff}
use redis_in_c.Hashtable.Chains.{Distinct}
use redis_in_c.Hashtable.Inv.{IsValid}
use redis_in_c.Hashtable.View.{entries, find-entries, Distinct-entries}
use redis_in_c.Glob.{glob_match}
use redis_in_c.Glob.Matching.{Matches}
use redis_in_c.Glob.Decision.{glob_match_iff}
use redis_in_c.Resp.Reply.{integer, bulks, encode}
use redis_in_c.Command.Context.{Ctx, arg}
use redis_in_c.Command.Answers.{IsReady, Answered}
use redis_in_c.Command.Keyspace.{cmd_keys, cmd_dbsize}
use redis_in_c.Command.Keys.{matching, cmd_keys-Answered, cmd_dbsize-Answered}
use redis_in_c.Command.Served.{length-matching-le}
use redis_in_c.Command.Machine.{View}
use redis_in_c.Command.Refines.{view}

abbrev pub IsOneOf : Bytes → List Bytes → Type 0
IsOneOf k [] = ⊥
IsOneOf k (x ∷ xs) = (x ≡ k) ⊎ IsOneOf k xs

abbrev pub NoTwice : List Bytes → Type 0
NoTwice [] = Unit
NoTwice (x ∷ xs) = (IsOneOf x xs → ⊥) × NoTwice xs

abbrev pub HasValue : View → Bytes → Type 0
HasValue m k = (v : Bytes) × (m k ≡ some v)

-- The list has the keys with a value that satisfy `P`, each once.
pub record Enumerates (P : Bytes → Type 0) (m : View) (ks : List Bytes) : Type 0 where
  pub distinct : NoTwice ks
  pub sound : (k : Bytes) → IsOneOf k ks → P k × HasValue m k
  pub complete : (k : Bytes) → P k → HasValue m k → IsOneOf k ks

abbrev select : (Bytes → Bool) → Chain → List Bytes
select f [] = []
select f (e ∷ c) = let rest = select f c in if f e.key then e.key ∷ rest else rest

found_below :
    (e : Entry) (k : Bytes) (c : Chain)
    → HasValue (λ j. find j c) k
    → HasValue (λ j. find j (e ∷ c)) k
unfolding find
found_below e k c (v, h) = elim (Bool-cases (keys_equal e.key k)) [
  | inl t ↦ (e.val, rw t refl)
  | inr f ↦ (v, rw f h)
]

found_here : (e : Entry) (k : Bytes) (c : Chain) → e.key ≡ k → HasValue (λ j. find j (e ∷ c)) k
unfolding find
found_here e k c same = (e.val, rw ((keys_equal_iff e.key k).1 same) refl)

abbrev Selected : (Bytes → Bool) → Chain → Bytes → Type 0
Selected f c k = (f k ≡ true) × HasValue (λ j. find j c) k

at_head :
    (f : Bytes → Bool) (e : Entry) (c : Chain) (k : Bytes)
    → f e.key ≡ true
    → (IsOneOf k (select f c) → Selected f c k)
    → (e.key ≡ k) ⊎ IsOneOf k (select f c)
    → Selected f (e ∷ c) k
at_head f e c k t ih (inl same) = (sym (ap f same) ∙ t, found_here e k c same)
at_head f e c k t ih (inr i) = let (hit, h) = ih i in (hit, found_below e k c h)

select_sound : (f : Bytes → Bool) (c : Chain) (k : Bytes) → IsOneOf k (select f c) → Selected f c k
select_sound f [] k i = absurd i
select_sound f (e ∷ c) k i = elim (Bool-cases (f e.key)) [
  | inl t ↦ at_head f e c k t (select_sound f c k) (rw t at i)
  | inr n ↦ let (hit, h) = select_sound f c k (rw n at i) in (hit, found_below e k c h)
]

select_complete :
    (f : Bytes → Bool) (c : Chain) (k v : Bytes)
    → f k ≡ true
    → find k c ≡ some v
    → IsOneOf k (select f c)
unfolding find
select_complete f [] k v t h = cc
select_complete f (e ∷ c) k v t h = elim (Bool-cases (keys_equal e.key k)) [
  | inl here ↦ let same = (keys_equal_iff e.key k).0 here in rw (ap f same ∙ t) (inl same)
  | inr below ↦
      let i = select_complete f c k v t (rw below at h) in
      elim (Bool-cases (f e.key)) [ inl y ↦ rw y (inr i) | inr n ↦ rw n i ]
]

select-NoTwice : (f : Bytes → Bool) (c : Chain) → Distinct c → NoTwice (select f c)
select-NoTwice f [] d = tt
select-NoTwice f (e ∷ c) d = elim (Bool-cases (f e.key)) [
  | inl t ↦
      rw t
        (λ i. let (hit, (v, h)) = select_sound f c e.key i in cc (d.0, h), select-NoTwice f c d.1)
  | inr n ↦ rw n (select-NoTwice f c d.1)
]

matching-select : (pat : Bytes) (c : Chain) → matching pat c ≡ select (λ k. glob_match pat k) c
matching-select pat [] = refl
matching-select pat (e ∷ c) =
    ap (λ r. if glob_match pat e.key then e.key ∷ r else r) (matching-select pat c)

select_all : (c : Chain) → length (select (λ k. true) c) ≡ length c
select_all [] = refl
select_all (e ∷ c) = omega (arith, select_all c)

select-Enumerates :
    (f : Bytes → Bool) (t : Hashtable)
    → IsValid t
    → Enumerates (λ k. f k ≡ true) (view t) (select f (entries t))
select-Enumerates f t v = record {
  distinct = select-NoTwice f (entries t) (Distinct-entries t v);
  sound = λ k i.
      let (hit, (w, h)) = select_sound f (entries t) k i in
      (hit, (w, sym (find-entries t k v) ∙ h));
  complete = λ k hit (w, h). select_complete f (entries t) k w hit (find-entries t k v ∙ h);
}

module _ (c : Ctx) (args : List Bytes) (r : IsReady c)
    (few : IsWord (length (entries c.store))) where
  -- From a ready state with fewer than 2^64 entries, KEYS keeps the store and answers an array of
  -- keys, each once, that are exactly those that a lookup finds and that the pattern matches.
  pub cmd_keys-Enumerates :
      (ks : List Bytes) × Enumerates (λ k. Matches (arg args 1) k) (view c.store) ks
      × Answered c c.store (encode (bulks ks)) (cmd_keys c args)
  cmd_keys-Enumerates =
      let pat = arg args 1 in
      let e = select-Enumerates (λ k. glob_match pat k) c.store r.table in
      let all = matching-select pat (entries c.store) in
      (
        matching pat (entries c.store),
        subst (Enumerates (λ k. Matches pat k) (view c.store)) (sym all) (record {
          distinct = e.distinct;
          sound = λ k i. let (hit, h) = e.sound k i in ((glob_match_iff pat k).0 hit, h);
          complete = λ k m h. e.complete k ((glob_match_iff pat k).1 m) h;
        }),
        cmd_keys-Answered c args r (omega (arith, few, length-matching-le pat (entries c.store))),
      )

  -- From a ready state with fewer than 2^64 entries, DBSIZE keeps the store and answers, as an
  -- int64_t, the length of a list that has exactly the keys that a lookup finds, each once.
  pub cmd_dbsize-Enumerates :
      (ks : List Bytes) × Enumerates (λ k. Unit) (view c.store) ks
      × Answered c c.store (encode (integer (int64_of (length ks)))) (cmd_dbsize c args)
  cmd_dbsize-Enumerates =
      let e = select-Enumerates (λ k. true) c.store r.table in
      let ks = select (λ k. true) (entries c.store) in
      (
        ks,
        record {
          distinct = e.distinct;
          sound = λ k i. let (hit, h) = e.sound k i in (tt, h);
          complete = λ k m h. e.complete k refl h;
        },
        subst (λ n. Answered c c.store (encode (integer (int64_of n))) (cmd_dbsize c args))
            (sym (select_all (entries c.store))) (cmd_dbsize-Answered c args r few),
      )
