-- ===== src/Command/Dispatch.antt =====
-- src/command.c: the dispatch table and `command_execute`.
use redis_in_c.Prelude.{
  ℕ, ◌+◌, ◌-◌, Bool, true, false, ◌&&◌, ◌||◌, ltb, leb, ◌==◌, if◌then◌else◌, Bytes, Option, none,
  some, List, [], ◌∷◌, ◌++◌, length, codes, take,
}
use redis_in_c.Prelude.Int.{ℤ, pos, ltb_ℤ, int_of}
use redis_in_c.Heap.{Rc}
use redis_in_c.Resp.Replies.{Writer, reply_error}
use redis_in_c.Resp.Outcome.{Request}
use redis_in_c.Command.Context.{Ctx, Handler, send}
use redis_in_c.Command.Basic.{cmd_ping, cmd_get, cmd_set, cmd_del, cmd_exists, cmd_command}
use redis_in_c.Command.Numbers.{cmd_incr, cmd_decr, cmd_incrby, cmd_decrby}
use redis_in_c.Command.Strings.{cmd_strlen, cmd_append, cmd_setnx, cmd_getset}
use redis_in_c.Command.Keyspace.{cmd_keys, cmd_dbsize, cmd_flushdb}

unfoldable pub to_upper : ℕ → ℕ
to_upper c = if leb b'a' c && leb c b'z' then c - b'a' + b'A' else c

-- `slice_eq_ci`; the second argument is the upper-case name.
unfoldable pub slice_eq_ci : Bytes → Bytes → Bool
unfolding to_upper
slice_eq_ci [] [] = true
slice_eq_ci (c ∷ s) [] = false
slice_eq_ci [] (u ∷ upper) = false
slice_eq_ci (c ∷ s) (u ∷ upper) = if to_upper c == u then slice_eq_ci s upper else false

-- `cmd_entry_t`; `none` is the -1 of an unbounded `max_argc`.
pub record CmdEntry : Type 0 where
  pub name : Bytes
  pub min_argc : ℕ
  pub max_argc : Option ℕ
  pub handler : Handler

abbrev pub row : Bytes → ℕ → Option ℕ → Handler → CmdEntry
row name lo hi handler = record { name = name; min_argc = lo; max_argc = hi; handler = handler }

unfoldable pub commands : List CmdEntry
commands =
    row (codes "PING") 1 (some 2) cmd_ping
    ∷ row (codes "GET") 2 (some 2) cmd_get
    ∷ row (codes "SET") 3 (some 3) cmd_set
    ∷ row (codes "DEL") 2 none cmd_del
    ∷ row (codes "EXISTS") 2 none cmd_exists
    ∷ row (codes "COMMAND") 1 none cmd_command
    ∷ row (codes "INCR") 2 (some 2) cmd_incr
    ∷ row (codes "DECR") 2 (some 2) cmd_decr
    ∷ row (codes "INCRBY") 3 (some 3) cmd_incrby
    ∷ row (codes "DECRBY") 3 (some 3) cmd_decrby
    ∷ row (codes "STRLEN") 2 (some 2) cmd_strlen
    ∷ row (codes "APPEND") 3 (some 3) cmd_append
    ∷ row (codes "KEYS") 2 (some 2) cmd_keys
    ∷ row (codes "DBSIZE") 1 (some 1) cmd_dbsize
    ∷ row (codes "FLUSHDB") 1 (some 1) cmd_flushdb
    ∷ row (codes "SETNX") 3 (some 3) cmd_setnx
    ∷ row (codes "GETSET") 3 (some 3) cmd_getset
    ∷ []

abbrev pub above : Option ℕ → ℤ → Bool
above none argc = false
above (some hi) argc = ltb_ℤ (pos hi) argc

unfoldable pub wrong_arity : Bytes → Writer
wrong_arity name = reply_error (codes "ERR wrong number of arguments for '" ++ (name ++ codes "'"))

-- A name as `%.*s` prints it: up to its first NUL.
unfoldable pub c_string : Bytes → Bytes
c_string [] = []
c_string (c ∷ s) = if c == 0 then [] else c ∷ c_string s

unfoldable pub unknown_command : Bytes → Writer
unfolding c_string
unknown_command name =
    let printable = if ltb (length name) 64 then length name else 64 in
    reply_error (codes "ERR unknown command '" ++ (c_string (take printable name) ++ codes "'"))

-- The entry that the loop stops at: the arity check, and the call.
unfoldable pub run_entry : CmdEntry → Handler
run_entry e c args =
    let argc = int_of (length args) in
    if ltb_ℤ argc (pos e.min_argc) || above e.max_argc argc
    then send (wrong_arity e.name) c
    else e.handler c args

-- `for (e = commands; e->name != NULL; ++e)`
unfoldable pub dispatch : List CmdEntry → Bytes → Handler
unfolding run_entry
dispatch [] name c args = send (unknown_command name) c
dispatch (e ∷ es) name c args =
    let rest = dispatch es name c args in
    if slice_eq_ci name e.name then run_entry e c args else rest

unfoldable pub execute_args : Handler
unfolding dispatch
execute_args c [] = send (reply_error (codes "ERR empty command")) c
execute_args c (name ∷ rest) = dispatch commands name c (name ∷ rest)

unfoldable pub command_execute : Ctx → Request → Rc × Ctx
unfolding execute_args
command_execute c req = execute_args c req.args
