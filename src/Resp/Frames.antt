-- ===== src/Resp/Frames.antt =====
-- src/resp.c: how much of the buffer a parsed request takes, and how many arguments it has.
use redis_in_c.Prelude.{
  ℕ, zero, suc, ◌+◌, ◌≤◌, ◌≡◌, refl, sym, ◌∙◌, ap, subst, arith, Bool, true, false, not, ◌||◌,
  Bool-cases, Option-cases, inl, inr, Bytes, List, [], ◌∷◌, length, length-drop, ltb, leb, ◌==◌,
  if◌then◌else◌, take, drop,
}
use redis_in_c.Prelude.Int.{ℤ, pos, pos_part, ltb_ℤ}
use redis_in_c.Resp.Outcome.{
  Outcome, parsed, need_more, protocol_err, ◌>>=◌, Request, max_argc, max_inline_len,
}
use redis_in_c.Resp.Number.{parse_int_until_crlf}
use redis_in_c.Resp.Bulk.{bulk_frame, bulk_body, parse_bulk, bulks, elements, parse_multi_bulk}
use redis_in_c.Resp.Inline.{find_newline, parse_inline, inline_args, line_end}
use redis_in_c.Resp.Request.{parse_request}
use redis_in_c.Resp.Reading.{Within, parse_int-Within}
use redis_in_c.Resp.Splitting.{words, tokenize_lem}
use redis_in_c.Resp.Lines.{
  find_newline_bounds, parse_inline-eq, parse_line-some, parse_line-none, scan_limit,
  inline_request, inline_args_lem,
}

pub parsed-bind {ℓ κ} :
    {A : Type ℓ} {B : Type κ} (m : Outcome A) (f : A → Outcome B) (b : B)
    → (m >>= f) ≡ parsed b
    → (a : A) × (m ≡ parsed a) × (f a ≡ parsed b)
parsed-bind (parsed a) f b e = (a, refl, e)
parsed-bind need_more f b e = cc
parsed-bind protocol_err f b e = cc

bulk_body_used :
    (input : Bytes) (r : ℤ × ℕ) (out : Bytes × ℕ)
    → bulk_body input r ≡ parsed out
    → (1 ≤ out.1) × (out.1 ≤ length input)
unfolding bulk_body bulk_frame
bulk_body_used input (len, used) out e = ground arith

parse_bulk_used :
    (p : Bytes) (out : Bytes × ℕ) → parse_bulk p ≡ parsed out → (1 ≤ out.1) × (out.1 ≤ length p)
unfolding parse_bulk
parse_bulk_used [] out e = cc
parse_bulk_used (c ∷ p) out e = elim (Bool-cases (not (c == b'$'))) [
  | inl t ↦ cc (rw t at e)
  | inr f ↦
      let (r, _, body) = parsed-bind (parse_int_until_crlf p) (bulk_body (c ∷ p)) out (rw f at e) in
      bulk_body_used (c ∷ p) r out body
]

bulks_used :
    (n : ℕ) (input : Bytes) (start : ℕ) (out : List Bytes × ℕ)
    → start ≤ length input
    → bulks n input start ≡ parsed out
    → (start ≤ out.1) × (out.1 ≤ length input) × (length out.0 ≡ n)
unfolding bulks
bulks_used zero input start out h e = ground arith
bulks_used (suc n) input start out h e =
    let ((slice, used), first, then_) = parsed-bind (parse_bulk (drop start input)) _ out e in
    let ((slices, end), later, done) = parsed-bind (bulks n input (start + used)) _ out then_ in
    let (lo, hi) = parse_bulk_used (drop start input) (slice, used) first in
    let ih =
      bulks_used n input (start + used) (slices, end) (omega (arith, length-drop start input))
        later in
    ground (arith, ih)

-- A request has 1 to 32 arguments, and takes part of the buffer, at least a byte.
abbrev pub Fits : Bytes → Request → Type 0
Fits input r =
    (1 ≤ length r.args)
    × (length r.args ≤ max_argc)
    × (1 ≤ r.bytes_consumed)
    × (r.bytes_consumed ≤ length input)

elements_used :
    (c : ℕ) (p : Bytes) (z : ℤ) (used : ℕ) (r : Request)
    → used ≤ length p
    → elements (c ∷ p) (z, used) ≡ parsed r
    → Fits (c ∷ p) r
unfolding elements
elements_used c p z used r h e = elim (Bool-cases (ltb_ℤ z (pos 1) || ltb max_argc (pos_part z))) [
  | inl t ↦ cc (rw t at e)
  | inr f ↦
      let (out, found, done) =
        parsed-bind (bulks (pos_part z) (c ∷ p) (1 + used)) _ r (rw f at e) in
      let b = bulks_used (pos_part z) (c ∷ p) (1 + used) out (omega arith) found in
      ground (arith, b)
]

parse_multi_bulk_used :
    (c : ℕ) (p : Bytes) (r : Request) → parse_multi_bulk (c ∷ p) ≡ parsed r → Fits (c ∷ p) r
unfolding parse_multi_bulk
parse_multi_bulk_used c p r e =
    let ((z, used), number, rest) = parsed-bind (parse_int_until_crlf p) (elements (c ∷ p)) r e in
    elements_used c p z used r (hdr number) rest
  where
    hdr : {z : ℤ} {used : ℕ} → parse_int_until_crlf p ≡ parsed (z, used) → used ≤ length p
    hdr k = let w = subst (Within 0 (length p)) k (parse_int-Within p) in omega (arith, w)

inline_request_used :
    (input : Bytes) (consumed : ℕ) (ws : List Bytes) (r : Request)
    → 1 ≤ consumed
    → consumed ≤ length input
    → inline_request consumed ws ≡ parsed r
    → Fits input r
inline_request_used input consumed [] r lo hi e = cc
inline_request_used input consumed (w ∷ ws) r lo hi e = ground arith

parse_inline_used : (input : Bytes) (r : Request) → parse_inline input ≡ parsed r → Fits input r
parse_inline_used input r e = elim (Option-cases (find_newline (scan_limit input) input 0)) [
  | inl miss ↦
      no_line (leb max_inline_len (length input))
        (rw (parse_inline-eq input, miss, parse_line-none input) at e)
  | inr (nl, found) ↦
      let line = take (line_end input nl) input in
      let (lo, hi, _) = find_newline_bounds (scan_limit input) input 0 nl found in
      inline_request_used input (nl + 1) (words line) r (omega arith) (omega arith) (
        sym (ap (inline_args nl) (tokenize_lem line) ∙ inline_args_lem nl (words line))
        ∙ (rw (parse_inline-eq input, found, parse_line-some input nl) at e))
]
  where
    no_line : (b : Bool) → (if b then protocol_err else need_more) ≡ parsed r → Fits input r
    no_line true k = cc
    no_line false k = cc

-- A request that the parser returns has 1 to 32 arguments and takes at least one byte and at most
-- the bytes of the buffer.
pub parse_request-Fits :
    (input : Bytes) (r : Request) → parse_request input ≡ parsed r → Fits input r
unfolding parse_request
parse_request-Fits [] r e = cc
parse_request-Fits (c ∷ p) r e = elim (Bool-cases (c == b'*')) [
  | inl t ↦ parse_multi_bulk_used c p r (rw t at e)
  | inr f ↦ parse_inline_used (c ∷ p) r (rw f at e)
]
