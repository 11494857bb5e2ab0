-- ===== src/Main/Tests.antt =====
-- src/main.c: the self-tests of the program, run on the model with no allocation refused.
use redis_in_c.Prelude.{◌≡◌, refl, codes, some, true, arith, List, [], ◌∷◌, ◌++◌, Bytes}
use redis_in_c.Bytebuf
use redis_in_c.Command.Basic
use redis_in_c.Command.Context
use redis_in_c.Command.Dispatch
use redis_in_c.Command.Keyspace
use redis_in_c.Command.Numbers
use redis_in_c.Command.Strings
use redis_in_c.Decimal
use redis_in_c.Glob
use redis_in_c.Hashtable
use redis_in_c.Heap
use redis_in_c.Main.Commands
use redis_in_c.Main.Parser
use redis_in_c.Main.Table
use redis_in_c.Prelude.Int
use redis_in_c.Resp.Bulk
use redis_in_c.Resp.Inline
use redis_in_c.Resp.Number
use redis_in_c.Resp.Replies
use redis_in_c.Resp.Request
use redis_in_c.Hashtable.{get_key, keys_equal, memcmp_eq}
use redis_in_c.Heap.{refused}
use redis_in_c.Server.Opening.{InitOpens}
use redis_in_c.Server.Samples.{spare, spare-IsFresh, turns, turns-IsHonest, good_answers}
use redis_in_c.Main.Program.{main}
use redis_in_c.Main.Lifecycle.{Lives, main-Lives}
use redis_in_c.Main.Table.{smoke_test}
use redis_in_c.Main.Parser.{resp_smoke_test}
use redis_in_c.Main.Commands.{command_smoke_test}

-- The eight cases of the parser pass.
resp_smoke_test_passes : resp_smoke_test ≡ record { total = 8; pass = 8 }
unfolding redis_in_c.Resp.Request.parse_request redis_in_c.Resp.Bulk.bulk_frame
    redis_in_c.Resp.Bulk.bulk_body redis_in_c.Resp.Bulk.parse_bulk redis_in_c.Resp.Bulk.bulks
    redis_in_c.Resp.Bulk.elements redis_in_c.Resp.Bulk.parse_multi_bulk
    redis_in_c.Resp.Number.number_loop redis_in_c.Resp.Number.parse_int_until_crlf
    redis_in_c.Resp.Inline.find_newline redis_in_c.Resp.Inline.skip_blanks
    redis_in_c.Resp.Inline.token redis_in_c.Resp.Inline.after_token redis_in_c.Resp.Inline.tokenize
    redis_in_c.Resp.Inline.inline_args redis_in_c.Resp.Inline.line_end
    redis_in_c.Resp.Inline.parse_inline redis_in_c.Main.Parser.resp_smoke_test
resp_smoke_test_passes = refl

-- The 41 cases of the commands pass, on the table that the first self-test leaves.
command_smoke_test_passes :
    (command_smoke_test [] (smoke_test [] redis_in_c.Hashtable.init).1).0
    ≡ record { total = 41; pass = 41 }
unfolding redis_in_c.Heap.malloc redis_in_c.Heap.realloc redis_in_c.Bytebuf.write_at
    redis_in_c.Bytebuf.grow_cap redis_in_c.Bytebuf.grow_tail redis_in_c.Bytebuf.ensure_tail_cap
    redis_in_c.Bytebuf.reset redis_in_c.Bytebuf.put_tail redis_in_c.Bytebuf.append
    redis_in_c.Bytebuf.appendf redis_in_c.Hashtable.hash redis_in_c.Hashtable.bucket_index
    redis_in_c.Hashtable.keys_equal redis_in_c.Hashtable.init redis_in_c.Hashtable.dup_bytes
    redis_in_c.Hashtable.find redis_in_c.Hashtable.overwrite redis_in_c.Hashtable.unlink
    redis_in_c.Hashtable.set_key redis_in_c.Hashtable.del_key redis_in_c.Hashtable.get_key
    redis_in_c.Hashtable.scan_chain redis_in_c.Hashtable.scan_buckets redis_in_c.Hashtable.scan
    redis_in_c.Decimal.print_int redis_in_c.Decimal.parse_int64 redis_in_c.Resp.Replies.◌>>◌
    redis_in_c.Resp.Replies.emit redis_in_c.Resp.Replies.emitf
    redis_in_c.Resp.Replies.reply_simple_string redis_in_c.Resp.Replies.reply_error
    redis_in_c.Resp.Replies.reply_integer redis_in_c.Resp.Replies.reply_bulk
    redis_in_c.Resp.Replies.reply_nil redis_in_c.Resp.Replies.reply_array_header
    redis_in_c.Glob.glob_match redis_in_c.Command.Context.send redis_in_c.Command.Context.put_key
    redis_in_c.Command.Context.or_out_of_memory redis_in_c.Command.Basic.cmd_ping
    redis_in_c.Command.Basic.cmd_get redis_in_c.Command.Basic.cmd_set
    redis_in_c.Command.Basic.cmd_del redis_in_c.Command.Basic.cmd_exists
    redis_in_c.Command.Basic.cmd_command redis_in_c.Command.Numbers.not_an_integer
    redis_in_c.Command.Numbers.cmd_incr redis_in_c.Command.Numbers.cmd_decr
    redis_in_c.Command.Numbers.cmd_incrby redis_in_c.Command.Numbers.cmd_decrby
    redis_in_c.Command.Strings.cmd_strlen redis_in_c.Command.Strings.cmd_append
    redis_in_c.Command.Strings.cmd_setnx redis_in_c.Command.Strings.cmd_getset
    redis_in_c.Command.Keyspace.cmd_keys redis_in_c.Command.Keyspace.cmd_dbsize
    redis_in_c.Command.Keyspace.cmd_flushdb redis_in_c.Command.Dispatch.slice_eq_ci
    redis_in_c.Command.Dispatch.commands redis_in_c.Command.Dispatch.wrong_arity
    redis_in_c.Command.Dispatch.unknown_command redis_in_c.Prelude.Int.◌+ℤ◌
    redis_in_c.Main.Table.smoke_test redis_in_c.Main.Commands.command_smoke_test
command_smoke_test_passes = refl

-- The first `malloc` is refused, and a client is served before the signal.
main-Lives_example :
    Lives
      (InitOpens good_answers)
      (2 ∷ 1 ∷ 0 ∷ [])
      (main spare good_answers true turns (refused ∷ []) (2 ∷ 1 ∷ 0 ∷ []))
main-Lives_example =
    main-Lives spare good_answers true turns (refused ∷ []) (2 ∷ 1 ∷ 0 ∷ []) spare-IsFresh
      (omega arith) turns-IsHonest
