-- ===== src/Command/Tests.antt =====
-- src/command.c: runs of commands, and the theorems about them at concrete inputs.
use redis_in_c.Prelude.{
  ℕ, ◌≡◌, ◌⊎◌, inl, inr, refl, arith, Bytes, some, List, [], ◌∷◌, ◌++◌, length, codes, IsWord,
}
use redis_in_c.Prelude.Int.{pos, int64_of, ◌+ℤ◌, ◌-ℤ◌}
use redis_in_c.Heap.{Heap, refused}
use redis_in_c.Bytebuf
use redis_in_c.Hashtable.{Hashtable, init, get_key, find, bucket_index, hash, keys_equal, memcmp_eq}
use redis_in_c.Hashtable.Writes.{stored, stored-IsValid, init-IsValid}
use redis_in_c.Hashtable.Sizes.{stored-IsSized, init-IsSized}
use redis_in_c.Hashtable.View.{entries}
use redis_in_c.Hashtable.Count.{length-entries-stored, length-entries-init}
use redis_in_c.Resp.Outcome.{Request}
use redis_in_c.Resp.Reply.{encode, integer, bulks}
use redis_in_c.Command.Context.{Ctx, send}
use redis_in_c.Command.Answers.{IsReady, Answered}
use redis_in_c.Command.Basic.{operands, cmd_get, cmd_del}
use redis_in_c.Command.Strings.{cmd_append}
use redis_in_c.Command.Keyspace.{cmd_keys, cmd_dbsize}
use redis_in_c.Command.Values.{old_value, Appends, cmd_append_lem}
use redis_in_c.Command.Removal.{Removed, cmd_del_lem}
use redis_in_c.Glob.Matching.{Matches}
use redis_in_c.Command.Listing.{Enumerates, cmd_keys-Enumerates, cmd_dbsize-Enumerates}
use redis_in_c.Command.Dispatch.{CmdEntry, row, commands, to_upper, command_execute, wrong_arity}
use redis_in_c.Command.Routing.{upper, IsRow, HasArity, command_execute-row}
use redis_in_c.Command.Served.{Served}
use redis_in_c.Decimal.{parse_int64}
use redis_in_c.Command.Machine.{decrby, perform}
use redis_in_c.Command.Refines.{Meets, view}
use redis_in_c.Command.Performs.{entry_of, command_execute-Meets}
use redis_in_c.Command.Execute.{command_execute-Served, NamesLine}

abbrev k : Bytes
k = codes "k"

-- A store with the number 41 under one key, an empty buffer, and one allocation that is refused.
abbrev ctx : Heap → Ctx
ctx h = record { store = stored init k (codes "41"); out = redis_in_c.Bytebuf.init; heap = h }

ready : (h : Heap) → IsReady (ctx h)
ready h = record {
  table = stored-IsValid init k init-IsValid (codes "41");
  sized = stored-IsSized init k (codes "41") (omega arith) (omega arith) init-IsSized;
  buffer = record { alloc = refl; small = omega arith; len_in = omega arith; off_in = omega arith };
}

few_entries : IsWord (length (entries (stored init k (codes "41"))))
few_entries =
    omega (arith, length-entries-stored init k (codes "41") init-IsValid, length-entries-init)

abbrev request : List Bytes → Request
request args = record { args = args; bytes_consumed = 0 }

command_execute-Served_example :
    Served
      (NamesLine (codes "set" ∷ k ∷ k ∷ []))
      (ctx (refused ∷ []))
      (command_execute (ctx (refused ∷ [])) (request (codes "set" ∷ k ∷ k ∷ [])))
command_execute-Served_example =
    command_execute-Served (ctx (refused ∷ [])) (request (codes "set" ∷ k ∷ k ∷ []))
      (ready (refused ∷ [])) few_entries (omega arith, (omega arith, (omega arith, tt)))
      (omega arith)

abbrev get_row : CmdEntry
get_row = row (codes "GET") 2 (some 2) cmd_get

get_row-IsRow : IsRow get_row commands
unfolding commands
get_row-IsRow = inr (inl refl)

upper_get : upper (codes "gEt") ≡ codes "GET"
unfolding to_upper
upper_get = refl

command_execute-row_example :
    (HasArity get_row (pos 2)
      × (command_execute (ctx []) (request (codes "gEt" ∷ k ∷ []))
          ≡ cmd_get (ctx []) (codes "gEt" ∷ k ∷ [])))
    ⊎ ((HasArity get_row (pos 2) → ⊥)
        × (command_execute (ctx []) (request (codes "gEt" ∷ k ∷ []))
            ≡ send (wrong_arity (codes "GET")) (ctx [])))
command_execute-row_example =
    command_execute-row (ctx []) get_row (codes "gEt") (k ∷ []) 0 get_row-IsRow upper_get

abbrev keys_args : List Bytes
keys_args = codes "KEYS" ∷ codes "*" ∷ []

cmd_keys-Enumerates_example :
    (ks : List Bytes) × Enumerates (λ j. Matches (codes "*") j) (view (ctx []).store) ks
    × Answered (ctx []) (ctx []).store (encode (bulks ks)) (cmd_keys (ctx []) keys_args)
cmd_keys-Enumerates_example = cmd_keys-Enumerates (ctx []) keys_args (ready []) few_entries

cmd_dbsize-Enumerates_example :
    (ks : List Bytes) × Enumerates (λ j. Unit) (view (ctx []).store) ks
    × Answered
        (ctx [])
        (ctx []).store
        (encode (integer (int64_of (length ks))))
        (cmd_dbsize (ctx []) (codes "DBSIZE" ∷ []))
cmd_dbsize-Enumerates_example =
    cmd_dbsize-Enumerates (ctx []) (codes "DBSIZE" ∷ []) (ready []) few_entries

abbrev del_args : List Bytes
del_args = codes "DEL" ∷ k ∷ codes "j" ∷ k ∷ []

cmd_del_example :
    (n : ℕ) × (t : Hashtable) × Removed (operands del_args) (ctx []).store n t
    × Answered (ctx []) t (encode (integer (pos n))) (cmd_del (ctx []) del_args)
cmd_del_example = cmd_del_lem (ctx []) del_args (ready []) (omega arith)

abbrev append_args : List Bytes
append_args = codes "APPEND" ∷ k ∷ codes "00" ∷ []

cmd_append_example :
    Appends
      (ctx [])
      append_args
      (ready [])
      (old_value (get_key (ctx []).store k) ++ codes "00")
      (cmd_append (ctx []) append_args)
cmd_append_example = cmd_append_lem (ctx []) append_args (ready []) (omega arith)

command_execute-Meets_example :
    Meets
      (ctx [])
      (perform (decrby k (codes "2")) (view (ctx []).store))
      (command_execute (ctx []) (request (codes "decrby" ∷ k ∷ codes "2" ∷ [])))
command_execute-Meets_example =
    command_execute-Meets (ctx []) (ready []) refl (codes "decrby") (decrby k (codes "2")) 0
      (unfold entry_of to_upper in refl) (omega arith, (omega arith, tt)) (omega arith)

-- The machine answers 39 to the 41 that is there.
decrby_run : (perform (decrby k (codes "2")) (view (ctx []).store)).0 ≡ integer (pos 39)
unfolding perform stored get_key find init bucket_index hash keys_equal memcmp_eq parse_int64 ◌+ℤ◌
    ◌-ℤ◌
decrby_run = refl
