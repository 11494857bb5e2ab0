-- ===== src/Resp/Verdicts.antt =====
-- src/resp.c: the parser is safe to call on a buffer that is still filling up.
use redis_in_c.Prelude.{
  ◌≤◌, ◌<◌, ◌≡◌, ◌≢◌, refl, ◌∙◌, ap, arith, Bool-cases, inl, inr, Bytes, List, [], ◌∷◌, ◌++◌,
  length, length-append, ◌==◌, All,
}
use redis_in_c.Resp.Outcome.{
  Outcome, parsed, need_more, protocol_err, Request, max_bulk_len, max_argc,
}
use redis_in_c.Resp.Request.{parse_request}
use redis_in_c.Resp.Stable.{Stable, parse_multi_bulk-Stable}
use redis_in_c.Resp.Lines.{parse_inline-Stable}
use redis_in_c.Resp.Frames.{parse_request-Fits}
use redis_in_c.Resp.RoundTrip.{encode_request, parse-encode, request_size, length-encode_request}

-- The verdict of the parser on a buffer, when it is not NEED_MORE, is the verdict on the buffer
-- with any bytes added behind it: the same request and length, or the same error.
pub parse_request-Stable :
    (input more : Bytes) → Stable (parse_request input) (parse_request (input ++ more))
unfolding parse_request
parse_request-Stable [] more = tt
parse_request-Stable (c ∷ p) more = elim (Bool-cases (c == b'*')) [
  | inl t ↦ rw t (parse_multi_bulk-Stable c p more)
  | inr f ↦ rw f (parse_inline-Stable (c ∷ p) more)
]

-- What comes before a whole request is not refused and not cut short: the parser waits.
pub waits :
    (input more : Bytes) (r : Request)
    → parse_request (input ++ more) ≡ parsed r
    → length input < r.bytes_consumed
    → (o : Outcome Request) → parse_request input ≡ o
    → Stable o (parse_request (input ++ more))
    → o ≡ need_more
waits input more r e short need_more k s = refl
waits input more r e short protocol_err k s = cc
waits input more r e short (parsed q) k s =
    let same : q ≡ r = ground arith in
    let (_, _, _, fits) = parse_request-Fits input q k in
    absurd (omega (arith, fits, ap (λ (x : Request). x.bytes_consumed) same))

-- Every proper prefix of the encoding of a command of 1 to 32 arguments of at most 512 MiB each
-- gets NEED_MORE, never an error and never a shorter request.
pub parse_prefix :
    (args : List Bytes) (part more : Bytes)
    → 1 ≤ length args
    → length args ≤ max_argc
    → All (λ a. length a ≤ max_bulk_len) args
    → part ++ more ≡ encode_request args []
    → more ≢ []
    → parse_request part ≡ need_more
parse_prefix args part more lo hi small e ne =
    let whole = ap parse_request e ∙ parse-encode args [] lo hi small in
    waits part more _ whole (shorter more e ne) (parse_request part) refl
      (parse_request-Stable part more)
  where
    shorter :
        (more : Bytes)
        → part ++ more ≡ encode_request args []
        → more ≢ []
        → length part < request_size args
    shorter [] e ne = absurd (ne refl)
    shorter (c ∷ more) e ne =
        omega (
          arith,
          ap (λ x. length x) e,
          length-append part (c ∷ more),
          length-encode_request args [],
        )
