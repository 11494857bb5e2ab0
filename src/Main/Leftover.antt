-- ===== src/Main/Leftover.antt =====
-- src/main.c: what the self-tests leave in the store that the server then serves.
use redis_in_c.Prelude.{
  ◌≡◌, refl, sym, ap, ◌∙◌, codes, Bytes, List, [], ◌∷◌, ◌++◌, Option, none, some, if◌then◌else◌,
}
use redis_in_c.Bytebuf
use redis_in_c.Command.Basic
use redis_in_c.Command.Context
use redis_in_c.Command.Dispatch
use redis_in_c.Command.Keyspace
use redis_in_c.Command.Numbers
use redis_in_c.Command.Strings
use redis_in_c.Decimal
use redis_in_c.Glob
use redis_in_c.Hashtable
use redis_in_c.Hashtable.View
use redis_in_c.Heap
use redis_in_c.Main.Commands
use redis_in_c.Main.Table
use redis_in_c.Prelude.Int
use redis_in_c.Resp.Replies
use redis_in_c.Hashtable.{Entry, get_key, keys_equal, find}
use redis_in_c.Hashtable.View.{entries, find-entries}
use redis_in_c.Main.Program.{self_tested}
use redis_in_c.Main.Program
use redis_in_c.Main.Keeping.{self_tested-IsReady}

abbrev left_behind : List Entry
left_behind =
    record { key = codes "sk"; val = codes "first" }
    ∷ record { key = codes "gs"; val = codes "v2" }
    ∷ []

entries-self_tested : entries (self_tested []).store ≡ left_behind
unfolding redis_in_c.Heap.malloc redis_in_c.Heap.realloc redis_in_c.Bytebuf.write_at
    redis_in_c.Bytebuf.grow_cap redis_in_c.Bytebuf.grow_tail redis_in_c.Bytebuf.ensure_tail_cap
    redis_in_c.Bytebuf.reset redis_in_c.Bytebuf.put_tail redis_in_c.Bytebuf.append
    redis_in_c.Bytebuf.appendf redis_in_c.Hashtable.hash redis_in_c.Hashtable.bucket_index
    redis_in_c.Hashtable.keys_equal redis_in_c.Hashtable.init redis_in_c.Hashtable.dup_bytes
    redis_in_c.Hashtable.find redis_in_c.Hashtable.overwrite redis_in_c.Hashtable.unlink
    redis_in_c.Hashtable.set_key redis_in_c.Hashtable.del_key redis_in_c.Hashtable.get_key
    redis_in_c.Hashtable.scan_chain redis_in_c.Hashtable.scan_buckets redis_in_c.Hashtable.scan
    redis_in_c.Decimal.print_int redis_in_c.Decimal.parse_int64 redis_in_c.Resp.Replies.◌>>◌
    redis_in_c.Resp.Replies.emit redis_in_c.Resp.Replies.emitf
    redis_in_c.Resp.Replies.reply_simple_string redis_in_c.Resp.Replies.reply_error
    redis_in_c.Resp.Replies.reply_integer redis_in_c.Resp.Replies.reply_bulk
    redis_in_c.Resp.Replies.reply_nil redis_in_c.Resp.Replies.reply_array_header
    redis_in_c.Glob.glob_match redis_in_c.Command.Context.send redis_in_c.Command.Context.put_key
    redis_in_c.Command.Context.or_out_of_memory redis_in_c.Command.Basic.cmd_ping
    redis_in_c.Command.Basic.cmd_get redis_in_c.Command.Basic.cmd_set
    redis_in_c.Command.Basic.cmd_del redis_in_c.Command.Basic.cmd_exists
    redis_in_c.Command.Basic.cmd_command redis_in_c.Command.Numbers.not_an_integer
    redis_in_c.Command.Numbers.cmd_incr redis_in_c.Command.Numbers.cmd_decr
    redis_in_c.Command.Numbers.cmd_incrby redis_in_c.Command.Numbers.cmd_decrby
    redis_in_c.Command.Strings.cmd_strlen redis_in_c.Command.Strings.cmd_append
    redis_in_c.Command.Strings.cmd_setnx redis_in_c.Command.Strings.cmd_getset
    redis_in_c.Command.Keyspace.cmd_keys redis_in_c.Command.Keyspace.cmd_dbsize
    redis_in_c.Command.Keyspace.cmd_flushdb redis_in_c.Command.Dispatch.slice_eq_ci
    redis_in_c.Command.Dispatch.commands redis_in_c.Command.Dispatch.wrong_arity
    redis_in_c.Command.Dispatch.unknown_command redis_in_c.Prelude.Int.◌+ℤ◌
    redis_in_c.Main.Table.smoke_test redis_in_c.Main.Commands.command_smoke_test
    redis_in_c.Main.Program.self_tested redis_in_c.Hashtable.View.entries
    redis_in_c.Hashtable.View.entries_of
entries-self_tested = refl

-- With no allocation refused, the store with which the server starts has the value first under
-- the key sk and the value v2 under the key gs, and no other key.
pub self_tested-leaves :
    (k : Bytes)
    → get_key (self_tested []).store k ≡ (
        if keys_equal (codes "sk") k
        then some (codes "first")
        else if keys_equal (codes "gs") k
        then some (codes "v2")
        else none)
unfolding find
self_tested-leaves k =
    sym (find-entries (self_tested []).store k (self_tested-IsReady []).table)
    ∙ ap (find k) entries-self_tested
