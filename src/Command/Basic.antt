-- ===== src/Command/Basic.antt =====
-- src/command.c: PING, GET, SET, DEL, EXISTS and COMMAND.
use redis_in_c.Prelude.{
  ℕ, ◌+◌, ◌==◌, if◌then◌else◌, Bytes, Option, none, some, List, [], ◌∷◌, length, codes,
}
use redis_in_c.Prelude.Int.{pos}
use redis_in_c.Hashtable.{Hashtable, get_key, del_key}
use redis_in_c.Resp.Replies.{
  Writer, reply_simple_string, reply_integer, reply_bulk, reply_nil, reply_array_header,
}
use redis_in_c.Command.Context.{Handler, arg, send, put_key, or_out_of_memory}

unfoldable pub cmd_ping : Handler
cmd_ping c args =
    if length args == 1
    then send (reply_simple_string (codes "PONG")) c
    else send (reply_bulk (arg args 1)) c

unfoldable pub reply_value : Option Bytes → Writer
reply_value (some val) = reply_bulk val
reply_value none = reply_nil

unfoldable pub cmd_get : Handler
unfolding reply_value
cmd_get c args = send (reply_value (get_key c.store (arg args 1))) c

unfoldable pub cmd_set : Handler
cmd_set c args =
    or_out_of_memory (reply_simple_string (codes "OK")) (put_key c (arg args 1) (arg args 2))

-- `for (i = 1; i < req->argc; ++i)` of `cmd_del`
unfoldable pub del_loop : List Bytes → Hashtable → ℕ → ℕ × Hashtable
del_loop [] t deleted = (deleted, t)
del_loop (key ∷ keys) t deleted =
    let (found, t') = del_key t key in del_loop keys t' (if found then deleted + 1 else deleted)

-- `args[1 ..]`
abbrev pub operands : List Bytes → List Bytes
operands [] = []
operands (name ∷ rest) = rest

unfoldable pub cmd_del : Handler
unfolding del_loop
cmd_del c args =
    let (deleted, t) = del_loop (operands args) c.store 0 in
    send (reply_integer (pos deleted)) (record c { store = t })

-- `for (i = 1; i < req->argc; ++i)` of `cmd_exists`
unfoldable pub exists_loop : List Bytes → Hashtable → ℕ → ℕ
exists_loop [] t found = found
exists_loop (key ∷ keys) t found =
    exists_loop keys t (elim (get_key t key) [ some _ ↦ found + 1 | none ↦ found ])

unfoldable pub cmd_exists : Handler
unfolding exists_loop
cmd_exists c args = send (reply_integer (pos (exists_loop (operands args) c.store 0))) c

unfoldable pub cmd_command : Handler
cmd_command c args = send (reply_array_header 0) c
