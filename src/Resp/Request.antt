-- ===== src/Resp/Request.antt =====
-- src/resp.c: `resp_parse_request`.
use redis_in_c.Prelude.{◌==◌, if◌then◌else◌, Bytes, [], ◌∷◌}
use redis_in_c.Resp.Outcome.{Outcome, need_more, Request}
use redis_in_c.Resp.Bulk.{parse_multi_bulk}
use redis_in_c.Resp.Inline.{parse_inline}

unfoldable pub parse_request : Bytes → Outcome Request
parse_request [] = need_more
parse_request (c ∷ p) = if c == b'*' then parse_multi_bulk (c ∷ p) else parse_inline (c ∷ p)
