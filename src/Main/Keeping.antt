-- ===== src/Main/Keeping.antt =====
-- src/main.c: the self-tests leave a valid store, whatever allocations are refused.
use redis_in_c.Prelude.{
  arith, Bytes, codes, List, [], ◌∷◌, length, All, IsWord, Option-cases, inl, inr,
}
use redis_in_c.Heap.{Heap, Rc, ok, fail}
use redis_in_c.Bytebuf
use redis_in_c.Bytebuf.Inv
use redis_in_c.Hashtable.{Hashtable, set_key, get_key, init}
use redis_in_c.Hashtable.Inv.{IsValid}
use redis_in_c.Hashtable.Sizes.{IsSized, set_key-IsSized, del_key-IsSized, init-IsSized}
use redis_in_c.Hashtable.Writes.{set_key-IsValid, del_key-IsValid, init-IsValid}
use redis_in_c.Command.Context.{Ctx}
use redis_in_c.Command.Answers.{IsReady}
use redis_in_c.Command.Execute.{command_execute-IsReady}
use redis_in_c.Main.Checks.{Tally}
use redis_in_c.Main.Table.{
  Log, or_return, delete_part, overwrite_part, get_part, set_binary, set_name, smoke_test, bin_key,
  bin_val,
}
use redis_in_c.Main.Commands.{Case, expects, run_case, run_cases, all_cases, command_smoke_test}
use redis_in_c.Main.Program.{self_tested}

abbrev IsKept : Hashtable → Type 0
IsKept t = IsValid t × IsSized t

set_key-IsKept :
    (h : Heap) (t : Hashtable) (key val : Bytes)
    → IsWord (length key)
    → IsWord (length val)
    → IsKept t
    → IsKept (set_key h t key val).1
set_key-IsKept h t key val wk wv k =
    (set_key-IsValid t key k.0 h val, set_key-IsSized h t key val wk wv k.1)

or_return-IsKept :
    (msg : Bytes) (k : Hashtable → Heap → Log) (out : Rc × Hashtable × Heap)
    → ((t : Hashtable) (h : Heap) → IsKept t → IsKept (k t h).1)
    → IsKept out.1
    → IsKept (or_return msg k out).1
unfolding or_return
or_return-IsKept msg k (ok, t, h) go v = go t h v
or_return-IsKept msg k (fail, t, h) go v = v

delete_part-IsKept : (t : Hashtable) (h : Heap) → IsKept t → IsKept (delete_part t h).1
unfolding delete_part
delete_part-IsKept t h v =
    (del_key-IsValid t (codes "name") v.0, del_key-IsSized t (codes "name") v.1)

overwrite_part-IsKept : (out : Rc × Hashtable × Heap) → IsKept out.1 → IsKept (overwrite_part out).1
unfolding overwrite_part
overwrite_part-IsKept (fail, t, h) v = delete_part-IsKept t h v
overwrite_part-IsKept (ok, t, h) v = elim (Option-cases (get_key t (codes "hello"))) [
  | inl e ↦ rw (e, overwrite_part) (delete_part-IsKept t h v)
  | inr (val, e) ↦ rw (e, overwrite_part) (delete_part-IsKept t h v)
]

get_part-IsKept : (t : Hashtable) (h : Heap) → IsKept t → IsKept (get_part t h).1
unfolding get_part
get_part-IsKept t h v =
    overwrite_part-IsKept _
      (set_key-IsKept h t (codes "hello") (codes "WORLD!") (omega arith) (omega arith) v)

set_binary-IsKept : (t : Hashtable) (h : Heap) → IsKept t → IsKept (set_binary t h).1
unfolding set_binary
set_binary-IsKept t h v =
    or_return-IsKept (codes "[smoke] ht_set(binary) failed (OOM)\n") get_part
      (set_key h t bin_key bin_val) get_part-IsKept
      (set_key-IsKept h t bin_key bin_val (omega arith) (omega arith) v)

set_name-IsKept : (t : Hashtable) (h : Heap) → IsKept t → IsKept (set_name t h).1
unfolding set_name
set_name-IsKept t h v =
    or_return-IsKept (codes "[smoke] ht_set(name) failed (OOM)\n") set_binary
      (set_key h t (codes "name") (codes "redis-in-c")) set_binary-IsKept
      (set_key-IsKept h t (codes "name") (codes "redis-in-c") (omega arith) (omega arith) v)

smoke_test-IsKept : (h : Heap) (t : Hashtable) → IsKept t → IsKept (smoke_test h t).1
unfolding smoke_test
smoke_test-IsKept h t v =
    or_return-IsKept (codes "[smoke] ht_set(hello) failed (OOM)\n") set_name
      (set_key h t (codes "hello") (codes "world")) set_name-IsKept
      (set_key-IsKept h t (codes "hello") (codes "world") (omega arith) (omega arith) v)

-- The arguments of a case have sizes of 64 bits.
abbrev HasWords : Case → Type 0
HasWords k = All (λ (a : Bytes). IsWord (length a)) k.args × IsWord (length k.args)

reset-IsValid :
    (b : redis_in_c.Bytebuf.Bytebuf)
    → redis_in_c.Bytebuf.Inv.IsValid b
    → redis_in_c.Bytebuf.Inv.IsValid (redis_in_c.Bytebuf.reset b)
unfolding redis_in_c.Bytebuf.reset
reset-IsValid b v = record {
  alloc = v.alloc;
  small = v.small;
  len_in = omega arith;
  off_in = omega arith;
}

run_case-IsReady :
    (k : Case) (s : Tally × Ctx) → HasWords k → IsReady s.1 → IsReady (run_case k s).1
unfolding run_case
run_case-IsReady k (t, c) w r =
    let r' = command_execute-IsReady c (record { args = k.args; bytes_consumed = 0 }) r w.0 w.1 in
    record { table = r'.table; sized = r'.sized; buffer = reset-IsValid _ r'.buffer }

run_cases-IsReady :
    (ks : List Case) (s : Tally × Ctx) → All HasWords ks → IsReady s.1 → IsReady (run_cases ks s).1
unfolding run_cases
run_cases-IsReady [] s w r = r
run_cases-IsReady (k ∷ ks) s w r = run_cases-IsReady ks _ w.1 (run_case-IsReady k s w.0 r)

all_cases-HasWords : All HasWords all_cases
unfolding all_cases expects
all_cases-HasWords = omega arith

command_smoke_test-IsReady :
    (h : Heap) (t : Hashtable) → IsKept t → IsReady (command_smoke_test h t).1
unfolding command_smoke_test
command_smoke_test-IsReady h t v =
    run_cases-IsReady all_cases
      (
        record { total = 0; pass = 0 },
        record { store = t; out = redis_in_c.Bytebuf.init; heap = h },
      )
      all_cases-HasWords
      (record { table = v.0; sized = v.1; buffer = redis_in_c.Bytebuf.Inv.init-IsValid })

-- Whatever allocations are refused, the self-tests leave a valid store of sized entries.
pub self_tested-IsReady : (h : Heap) → IsReady (self_tested h)
unfolding self_tested
self_tested-IsReady h =
    command_smoke_test-IsReady _ _ (smoke_test-IsKept h init (init-IsValid, init-IsSized))
