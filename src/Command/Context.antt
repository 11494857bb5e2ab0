-- ===== src/Command/Context.antt =====
-- src/command.h: `command_ctx_t`, and the ways in which the handlers of src/command.c use it.
use redis_in_c.Prelude.{ℕ, Bytes, List, get_or, codes, []}
use redis_in_c.Heap.{Heap, Rc, ok, fail}
use redis_in_c.Bytebuf.{Bytebuf}
use redis_in_c.Hashtable.{Hashtable, set_key}
use redis_in_c.Resp.Replies.{Writer, reply_error}

-- `command_ctx_t`: the store and the buffer that it points to, with the allocator of both.
pub record Ctx : Type 0 where
  pub store : Hashtable
  pub out : Bytebuf
  pub heap : Heap

-- A handler gets the arguments of the request, and returns 0 or -1.
abbrev pub Handler : Type 0
Handler = Ctx → List Bytes → Rc × Ctx

-- `req->args[i]`; the arity check keeps `i` below `argc`.
abbrev pub arg : List Bytes → ℕ → Bytes
arg args i = get_or args i []

-- `return resp_reply_…(ctx->out, …);`
unfoldable pub send : Writer → Ctx → Rc × Ctx
send w c = let (rc, b, h) = w c.heap c.out in (rc, record c { out = b; heap = h })

-- `ht_set(ctx->store, …)`
unfoldable pub put_key : Ctx → Bytes → Bytes → Rc × Ctx
put_key c key val =
    let (rc, t, h) = set_key c.heap c.store key val in (rc, record c { store = t; heap = h })

unfoldable pub out_of_memory : Writer
out_of_memory = reply_error (codes "ERR out of memory")

-- `if (ht_set(…) != 0) return resp_reply_error(…);` and then the reply
unfoldable pub or_out_of_memory : Writer → Rc × Ctx → Rc × Ctx
or_out_of_memory w (ok, c) = send w c
or_out_of_memory w (fail, c) = send out_of_memory c
