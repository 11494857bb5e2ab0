-- ===== src/Resp/Bulk.antt =====
-- src/resp.c: `parse_bulk` and `parse_multi_bulk`.
use redis_in_c.Prelude.{
  ℕ, zero, suc, ◌+◌, ◌%◌, not, ◌||◌, ltb, ◌==◌, if◌then◌else◌, Bytes, List, [], ◌∷◌, length, get_or,
  take, drop, cr, lf, size_mod,
}
use redis_in_c.Prelude.Int.{ℤ, pos, pos_part, ltb_ℤ}
use redis_in_c.Resp.Outcome.{
  Outcome, parsed, need_more, protocol_err, ◌>>=◌, Request, max_argc, max_bulk_len,
}
use redis_in_c.Resp.Number.{parse_int_until_crlf}

-- The end of `parse_bulk`, once `total` is known not to wrap.
unfoldable pub bulk_frame : Bytes → ℕ → ℕ → ℕ → Outcome (Bytes × ℕ)
bulk_frame input header_size body_size total =
    if ltb (length input) total
    then need_more
    else if not (get_or input (header_size + body_size) 0 == cr)
        || not (get_or input (header_size + body_size + 1) 0 == lf)
    then protocol_err
    else parsed (take body_size (drop header_size input), total)

-- The part of `parse_bulk` behind the header; `input` begins at the `$`.
unfoldable pub bulk_body : Bytes → ℤ × ℕ → Outcome (Bytes × ℕ)
bulk_body input (len, hdr_used) =
    let header_size = 1 + hdr_used in
    let body_size = pos_part len in
    let total = (header_size + body_size + 2) % size_mod in
    if ltb_ℤ len (pos 0) || ltb max_bulk_len (pos_part len)
    then protocol_err
    else if ltb total header_size
    then protocol_err
    else bulk_frame input header_size body_size total

-- The slice, and the number of bytes read.
unfoldable pub parse_bulk : Bytes → Outcome (Bytes × ℕ)
parse_bulk [] = need_more
parse_bulk (c ∷ p) =
    if not (c == b'$') then protocol_err else parse_int_until_crlf p >>= bulk_body (c ∷ p)

-- The loop over the elements, from `input + start` on: the slices, and the position behind them.
unfoldable pub bulks : ℕ → Bytes → ℕ → Outcome (List Bytes × ℕ)
bulks zero input start = parsed ([], start)
bulks (suc n) input start = do
  (slice, bulk_used) ← parse_bulk (drop start input)
  (slices, end) ← bulks n input (start + bulk_used)
  parsed (slice ∷ slices, end)

unfoldable pub elements : Bytes → ℤ × ℕ → Outcome Request
elements input (argc, hdr_used) =
    if ltb_ℤ argc (pos 1) || ltb max_argc (pos_part argc) then protocol_err else (do
      (args, end) ← bulks (pos_part argc) input (1 + hdr_used)
      parsed (record { args = args; bytes_consumed = end }))

-- `input[0]` is the `*`
unfoldable pub parse_multi_bulk : Bytes → Outcome Request
parse_multi_bulk input = parse_int_until_crlf (drop 1 input) >>= elements input
