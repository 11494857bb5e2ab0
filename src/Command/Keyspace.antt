-- ===== src/Command/Keyspace.antt =====
-- src/command.c: KEYS, DBSIZE and FLUSHDB.
use redis_in_c.Prelude.{size_mod, ◌%◌, ℕ, ◌+◌, Bool, true, false, not, if◌then◌else◌, Bytes, codes}
use redis_in_c.Prelude.Int.{int64_of}
use redis_in_c.Heap.{Heap, Rc, ok, fail}
use redis_in_c.Bytebuf.{Bytebuf}
use redis_in_c.Hashtable.{Hashtable, scan, destroy, init}
use redis_in_c.Glob.{glob_match}
use redis_in_c.Resp.Replies.{reply_array_header, reply_bulk, reply_integer, reply_simple_string}
use redis_in_c.Command.Context.{Ctx, Handler, arg, send}

-- `keys_ctx_t`, but for the pattern, with the allocator of the buffer. `write` is phase 1.
pub record KeysCtx : Type 0 where
  pub out : Bytebuf
  pub heap : Heap
  pub matched : ℕ
  pub write : Bool
  pub emit_failed : Bool

-- The write phase of `keys_cb`, where `resp_reply_bulk` has answered.
unfoldable pub emitted : KeysCtx → Rc × Bytebuf × Heap → Bool × KeysCtx
emitted kc (ok, b, h) = (true, record kc { out = b; heap = h })
emitted kc (fail, b, h) = (false, record kc { out = b; heap = h; emit_failed = true })

unfoldable pub keys_cb : Bytes → Bytes → Bytes → KeysCtx → Bool × KeysCtx
unfolding emitted
keys_cb pattern_bytes key val kc =
    if not (glob_match pattern_bytes key)
    then (true, kc)
    else if kc.write
    then emitted kc (reply_bulk key kc.heap kc.out)
    else (true, record kc { matched = (kc.matched + 1) % size_mod })

-- The second pass of `cmd_keys`, where the header has been appended.
unfoldable pub keys_emit : Bytes → KeysCtx → Rc × Ctx → Rc × Ctx
keys_emit pattern_bytes kc (fail, c) = (fail, c)
keys_emit pattern_bytes kc (ok, c) =
    let kc' =
      (scan (keys_cb pattern_bytes) c.store
        (record kc { out = c.out; heap = c.heap; write = true })).1 in
    (if kc'.emit_failed then fail else ok, record c { out = kc'.out; heap = kc'.heap })

unfoldable pub cmd_keys : Handler
unfolding keys_cb keys_emit
cmd_keys c args =
    let pattern_bytes = arg args 1 in
    let kc : KeysCtx = record {
      out = c.out;
      heap = c.heap;
      matched = 0;
      write = false;
      emit_failed = false;
    } in
    let counted = (scan (keys_cb pattern_bytes) c.store kc).1 in
    keys_emit pattern_bytes counted (send (reply_array_header counted.matched) c)

unfoldable pub cmd_dbsize : Handler
cmd_dbsize c args = send (reply_integer (int64_of c.store.count)) c

-- `ht_init` stamps the table that `ht_destroy` has emptied.
unfoldable pub cmd_flushdb : Handler
cmd_flushdb c args =
    let emptied = destroy c.store in
    let stamped : Hashtable = record emptied { buckets = init.buckets; count = init.count } in
    send (reply_simple_string (codes "OK")) (record c { store = stamped })
