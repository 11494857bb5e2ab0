-- ===== src/Command/Refines.antt =====
-- src/command.c: each handler does what the key-value machine does.
use redis_in_c.Prelude.{
  ℕ, ◌+◌, ◌≡◌, ◌∙◌, refl, subst, ap, arith, inl, inr, Bool, true, false, Bytes, Option, none, some,
  List, [], ◌∷◌, length, IsWord, ltb, if◌then◌else◌, size_mod, codes, get_or-replicate,
}
use mathlib.Core.Path.{fun_ext}
use redis_in_c.Prelude.Int.{ℤ, pos, int64_of, negsuc, ◌+ℤ◌}
use redis_in_c.Heap.{Rc}
use redis_in_c.Hashtable.{Chain, Hashtable, get_key, del_key, init, find, slot, num_buckets}
use redis_in_c.Hashtable.Inv.{IsValid}
use redis_in_c.Hashtable.Writes.{stored, del_key-IsValid}
use redis_in_c.Hashtable.View.{get-stored, get-del}
use redis_in_c.Hashtable.Count.{held, length-entries-del_key}
use redis_in_c.Decimal.{print_int}
use redis_in_c.Resp.Emission.{Emitted}
use redis_in_c.Resp.Reply.{Reply, error, encode, integer, integer-Emits}
use redis_in_c.Command.Context.{Ctx, arg}
use redis_in_c.Command.Answers.{IsReady, Answered, Wrote, send_later}
use redis_in_c.Command.Basic.{operands, del_loop, cmd_del}
use redis_in_c.Command.Numbers.{current}
use redis_in_c.Command.Strings.{value_len}
use redis_in_c.Command.Values.{old_value, SetNx, Appends}
use redis_in_c.Command.Counters.{IsInt64, AddsTo, AddsParsed}
use redis_in_c.Command.Removal.{present, del_loop_lem, length-operands-le}
use redis_in_c.Command.Machine.{
  View, with_value, without, nothing, count_held, remove, is_int64, number_of, add_to, add_parsed,
  put_missing,
}

-- What the machine sees of a table.
abbrev pub view : Hashtable → View
view t = λ j. get_key t j

-- The handler has answered as the machine has, and the table is seen as its state.
pub record Meets (c : Ctx) (r : Reply × View) (out : Rc × Ctx) : Type 0 where
  pub kept : view out.1.store ≡ r.1
  pub sent : Emitted (encode r.0) c.heap c.out (out.0, out.1.out, out.1.heap)

pub view-stored :
    (t : Hashtable) (key val : Bytes)
    → IsValid t
    → view (stored t key val) ≡ with_value key val (view t)
view-stored t key val v = fun_ext (λ j. get-stored t v key val j)

pub view-del_key :
    (t : Hashtable) (key : Bytes) → IsValid t → view (del_key t key).1 ≡ without key (view t)
view-del_key t key v = fun_ext (λ j. get-del t v key j)

pub view-init : view init ≡ nothing
unfolding get_key init
view-init =
    fun_ext (λ j. rw (get_or-replicate {A = Chain} num_buckets (slot j) []) (unfold find in refl))

pub Answered-Meets :
    (c : Ctx) (t : Hashtable) (p : Reply) (m : View) (out : Rc × Ctx)
    → view t ≡ m
    → Answered c t (encode p) out
    → Meets c (p, m) out
Answered-Meets c t p m out e a = record { kept = ap view a.kept ∙ e; sent = a.sent }

abbrev too_large : Reply
too_large = error (codes "ERR string exceeds maximum allowed size")

module _ (c : Ctx) (r : IsReady c) (calm : c.heap ≡ []) where
  pub same :
      (p : Reply) (out : Rc × Ctx)
      → Answered c c.store (encode p) out
      → Meets c (p, view c.store) out
  same p out a = Answered-Meets c c.store p (view c.store) out refl a

  -- With no allocation refused a write is done.
  pub wrote :
      (key val : Bytes) (p : Reply) (out : Rc × Ctx)
      → Wrote c (stored c.store key val) (encode p) out
      → Meets c (p, with_value key val (view c.store)) out
  wrote key val p out (inr (a, refused)) = absurd (refused calm)
  wrote key val p out (inl a) =
      Answered-Meets c (stored c.store key val) p _ out (view-stored c.store key val r.table) a

  is_int64-eq_true : (z : ℤ) → IsInt64 z → is_int64 z ≡ true
  is_int64-eq_true (pos n) h = ground arith
  is_int64-eq_true (negsuc n) h = ground arith

  is_int64-eq_false : (z : ℤ) → (IsInt64 z → ⊥) → is_int64 z ≡ false
  is_int64-eq_false (pos n) h = ground arith
  is_int64-eq_false (negsuc n) h = ground arith

  number_of-current : (o : Option Bytes) → current o ≡ number_of o
  unfolding current
  number_of-current none = refl
  number_of-current (some v) = refl

  adds_to :
      (key : Bytes) (o : Option ℤ) (delta : ℤ) (out : Rc × Ctx)
      → AddsTo c key r o delta out
      → Meets c (add_to key delta o (view c.store)) out
  unfolding add_to
  adds_to key none delta out a = same _ out a
  adds_to key (some n) delta out (inl (h, w)) =
      rw (is_int64-eq_true (n +ℤ delta) h) (wrote key (print_int (n +ℤ delta)) _ out w)
  adds_to key (some n) delta out (inr (h, a)) = rw (is_int64-eq_false (n +ℤ delta) h) (same _ out a)

  pub adds :
      (key : Bytes) (delta : ℤ) (out : Rc × Ctx)
      → AddsTo c key r (current (get_key c.store key)) delta out
      → Meets c (add_to key delta (number_of (get_key c.store key)) (view c.store)) out
  adds key delta out a =
      let e = number_of-current (get_key c.store key) in
      subst (λ o. Meets c (add_to key delta o (view c.store)) out) e
        (adds_to key (current (get_key c.store key)) delta out a)

  pub parsed :
      (args : List Bytes) (f : ℤ → ℤ) (o : Option ℤ) (out : Rc × Ctx)
      → AddsParsed c args r f o out
      → Meets c (add_parsed (arg args 1) f o (view c.store)) out
  unfolding add_parsed
  parsed args f none out a = same _ out a
  parsed args f (some delta) out a = adds (arg args 1) (f delta) out a

  pub appended :
      (args : List Bytes) (new : Bytes) (out : Rc × Ctx)
      → Appends c args r new out
      → Meets c
          (if ltb (length new) size_mod
            then (integer (int64_of (length new)), with_value (arg args 1) new (view c.store))
            else (too_large, view c.store))
          out
  appended args new out (inl (lt, w)) =
      let t : ltb (length new) size_mod ≡ true = ground arith in
      rw t (wrote (arg args 1) new _ out w)
  appended args new out (inr (ge, a)) =
      let f : ltb (length new) size_mod ≡ false = ground arith in rw f (same _ out a)

  pub set_nx :
      (args : List Bytes) (o : Option Bytes) (out : Rc × Ctx)
      → SetNx c args r o out
      → Meets c (put_missing (arg args 1) (arg args 2) o (view c.store)) out
  unfolding put_missing
  set_nx args (some old) out a = same _ out a
  set_nx args none out w = wrote (arg args 1) (arg args 2) _ out w

  value_len-old_value : (o : Option Bytes) → value_len o ≡ length (old_value o)
  value_len-old_value none = refl
  value_len-old_value (some v) = refl

  pub measured :
      (key : Bytes) (out : Rc × Ctx)
      → Answered c c.store (encode (integer (int64_of (value_len (get_key c.store key))))) out
      → Meets c (integer (int64_of (length (old_value (get_key c.store key)))), view c.store) out
  measured key out a =
      subst (λ n. Meets c (integer (int64_of n), view c.store) out)
        (value_len-old_value (get_key c.store key)) (same _ out a)

present-count : (t : Hashtable) (keys : List Bytes) → present t keys ≡ count_held keys (view t)
unfolding count_held
present-count t [] = refl
present-count t (k ∷ ks) = ap (λ n. held (get_key t k) + n) (present-count t ks)

pub counted :
    (c : Ctx) (keys : List Bytes) (out : Rc × Ctx)
    → Answered c c.store (encode (integer (pos (present c.store keys)))) out
    → Meets c (integer (pos (count_held keys (view c.store))), view c.store) out
counted c keys out a =
    subst (λ n. Meets c (integer (pos n), view c.store) out) (present-count c.store keys)
      (Answered-Meets c c.store _ (view c.store) out refl a)

-- The loop of DEL counts and removes as the machine does.
del_loop-remove :
    (keys : List Bytes) (t : Hashtable) (deleted : ℕ)
    → IsValid t
    → ((del_loop keys t deleted).0 ≡ deleted + (remove keys (view t)).0)
      × (view (del_loop keys t deleted).1 ≡ (remove keys (view t)).1)
unfolding del_loop remove
del_loop-remove [] t deleted v = (omega arith, refl)
del_loop-remove (k ∷ ks) t deleted v =
    let (found, t') = del_key t k in
    let (was, fewer) = length-entries-del_key t k v in
    let (n, m) =
      del_loop-remove ks t' (if found then deleted + 1 else deleted) (del_key-IsValid t k v) in
    let seen = view-del_key t k v in
    let rest = (remove ks (without k (view t))).0 in
    (
      n
          ∙ ap (λ u. (if found then deleted + 1 else deleted) + (remove ks u).0) seen
          ∙ step rest found (held (get_key t k)) was,
      m ∙ ap (λ u. (remove ks u).1) seen,
    )
  where
    step :
        (n : ℕ) (found : Bool) (h : ℕ)
        → (if found then 1 else 0) ≡ h
        → (if found then deleted + 1 else deleted) + n ≡ deleted + (h + n)
    step n found h e = ground arith

pub removed :
    (c : Ctx) (args : List Bytes)
    → IsReady c
    → IsWord (length args)
    → let (n, m) = remove (operands args) (view c.store) in
      Meets c (integer (pos n), m) (cmd_del c args)
unfolding cmd_del
removed c args r few =
    let (n, m) = del_loop-remove (operands args) c.store 0 r.table in
    let (k, total, rest) = del_loop_lem (operands args) c.store 0 r.table r.sized in
    let (deleted, t) = del_loop (operands args) c.store 0 in
    let same_count : deleted ≡ (remove (operands args) (view c.store)).0 = omega (arith, n) in
    let small : IsWord deleted = omega (arith, total, rest.at_most, length-operands-le args) in
    let a = send_later c t c.heap _ _ r (λ z. z) (integer-Emits (pos deleted) small) in
    subst
      (λ d. Meets c (integer (pos d), (remove (operands args) (view c.store)).1) (cmd_del c args))
      same_count (Answered-Meets c t (integer (pos deleted)) _ (cmd_del c args) m a)
