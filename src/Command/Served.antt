-- ===== src/Command/Served.antt =====
-- src/command.c: what it means that a handler serves a request: a valid store and buffer, and one reply.
use redis_in_c.Prelude.{
  ℕ, zero, suc, ◌≤◌, inl, inr, sym, subst, arith, Bool-cases, Bytes, Option, none, some, List, [],
  ◌∷◌, length, All, IsWord,
}
use redis_in_c.Prelude.Int.{ℤ, ◌+ℤ◌}
use redis_in_c.Heap.{Rc}
use redis_in_c.Hashtable.{Hashtable, Chain}
use redis_in_c.Hashtable.Inv.{IsValid}
use redis_in_c.Hashtable.Writes.{stored, stored-IsValid}
use redis_in_c.Hashtable.View.{entries}
use redis_in_c.Hashtable.Sizes.{IsSized, stored-IsSized}
use redis_in_c.Decimal.{print_int}
use redis_in_c.Glob.{glob_match}
use redis_in_c.Resp.Emission.{Emitted}
use redis_in_c.Resp.Plain.{IsPlain}
use redis_in_c.Resp.Reply.{Reply, integer, encode}
use redis_in_c.Command.Context.{Ctx, Handler, arg}
use redis_in_c.Command.Answers.{IsReady, Answered, Wrote, oom}
use redis_in_c.Command.Counters.{text_fits, bad_integer, overflow, Adds, AddsTo}
use redis_in_c.Command.Keys.{matching}

-- The state stays ready, and one reply is in the output buffer, or a first part of it where it does
-- not fit. Its text is without line breaks under the condition `safe`.
pub record Served (safe : Type 0) (c : Ctx) (out : Rc × Ctx) : Type 0 where
  pub ready : IsReady out.1
  pub reply : Reply
  pub plain : safe → IsPlain reply
  pub sent : Emitted (encode reply) c.heap c.out (out.0, out.1.out, out.1.heap)

pub Answered-Served :
    {safe : Type 0} (c : Ctx) (t : Hashtable) (p : Reply) (plain : safe → IsPlain p)
    (out : Rc × Ctx)
    → IsValid t
    → IsSized t
    → Answered c t (encode p) out
    → Served safe c out
Answered-Served c t p plain out v s a = record {
  ready = record {
    table = subst IsValid (sym a.kept) v;
    sized = subst IsSized (sym a.kept) s;
    buffer = a.sent.valid;
  };
  reply = p;
  plain = plain;
  sent = a.sent;
}

module _ (c : Ctx) (r : IsReady c) where
  pub same_store :
      {safe : Type 0} (p : Reply) (plain : safe → IsPlain p) (out : Rc × Ctx)
      → Answered c c.store (encode p) out
      → Served safe c out
  same_store p plain out a = Answered-Served c c.store p plain out r.table r.sized a

  pub wrote :
      {safe : Type 0} (key val : Bytes) (p : Reply) (plain : safe → IsPlain p) (out : Rc × Ctx)
      → IsWord (length key)
      → IsWord (length val)
      → Wrote c (stored c.store key val) (encode p) out
      → Served safe c out
  wrote key val p plain out wk wv (inl a) =
      Answered-Served c (stored c.store key val) p plain out
        (stored-IsValid c.store key r.table val) (stored-IsSized c.store key val wk wv r.sized) a
  wrote key val p plain out wk wv (inr (a, refused)) = same_store oom (λ _. omega arith) out a

  pub adds :
      (key : Bytes) (sum : ℤ) (out : Rc × Ctx)
      → IsWord (length key)
      → Adds c key r sum out
      → Served Unit c out
  adds key sum out wk (inl (fits, w)) =
      wrote key (print_int sum) (integer sum) (λ _. tt) out wk (omega (arith, text_fits sum fits)) w
  adds key sum out wk (inr (past, a)) = same_store overflow (λ _. omega arith) out a

  pub adds_to :
      (key : Bytes) (o : Option ℤ) (delta : ℤ) (out : Rc × Ctx)
      → IsWord (length key)
      → AddsTo c key r o delta out
      → Served Unit c out
  adds_to key none delta out wk a = same_store bad_integer (λ _. omega arith) out a
  adds_to key (some cur) delta out wk a = adds key (cur +ℤ delta) out wk a

pub arg-IsWord :
    (args : List Bytes) (i : ℕ) → All (λ a. IsWord (length a)) args → IsWord (length (arg args i))
arg-IsWord [] i w = omega arith
arg-IsWord (a ∷ args) zero w = w.0
arg-IsWord (a ∷ args) (suc i) w = arg-IsWord args i w.1

pub length-matching-le : (pat : Bytes) (c : Chain) → length (matching pat c) ≤ length c
length-matching-le pat [] = omega arith
length-matching-le pat (e ∷ c) = elim (Bool-cases (glob_match pat e.key)) [
  | inl t ↦ rw t (omega (arith, length-matching-le pat c))
  | inr f ↦ rw f (omega (arith, length-matching-le pat c))
]

-- What a handler gets: a ready state, and arguments whose lengths and whose number are numbers of 64
-- bits.
pub record IsServable (c : Ctx) (args : List Bytes) : Type 0 where
  pub ready : IsReady c
  pub words : All (λ a. IsWord (length a)) args
  pub argc : IsWord (length args)

-- The state stays ready in any case; the reply is right while there are fewer than 2^64 entries.
pub record Handled (safe : Type 0) (c : Ctx) (out : Rc × Ctx) : Type 0 where
  pub ready : IsReady out.1
  pub served : IsWord (length (entries c.store)) → Served safe c out

pub Served-Handled :
    {safe : Type 0} (c : Ctx) (out : Rc × Ctx) → Served safe c out → Handled safe c out
Served-Handled c out s = record { ready = s.ready; served = λ few. s }

-- A reply that is always plain is so under any condition.
pub Handled-any :
    (safe : Type 0) (c : Ctx) (out : Rc × Ctx) → Handled Unit c out → Handled safe c out
Handled-any safe c out h = record {
  ready = h.ready;
  served = λ few.
      let s = h.served few in
      record { ready = s.ready; reply = s.reply; plain = λ _. s.plain tt; sent = s.sent };
}

abbrev pub Serves : Handler → Type 0
Serves f = (c : Ctx) (args : List Bytes) → IsServable c args → Served Unit c (f c args)

abbrev pub Handles : Handler → Type 0
Handles f = (c : Ctx) (args : List Bytes) → IsServable c args → Handled Unit c (f c args)

pub Serves-Handles : (f : Handler) → Serves f → Handles f
Serves-Handles f h c args s = Served-Handled c (f c args) (h c args s)
