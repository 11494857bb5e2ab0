-- ===== src/Resp/Streams.antt =====
-- RESP2: a client reads replies that stand one behind the other.
use redis_in_c.Prelude.{
  ℕ, zero, suc, ◌≡◌, ◌∙◌, refl, ap, Bytes, Option, some, List, [], ◌∷◌, ◌++◌, length, All,
  append_assoc,
}
use redis_in_c.Resp.Reply.{Reply, encode}
use redis_in_c.Resp.Plain.{IsPlain}
use redis_in_c.Resp.Decode.{◌>>=◌, decode, decode-encode}

-- The first `n` replies, and what stands behind them.
unfoldable pub read_replies : ℕ → Bytes → Option (List Reply × Bytes)
unfolding decode
read_replies zero s = some ([], s)
read_replies (suc n) s =
    decode s >>= (λ (r, more). read_replies n more >>= (λ (rs, rest). some (r ∷ rs, rest)))

abbrev pub encode_replies : List Reply → Bytes
encode_replies [] = []
encode_replies (r ∷ rs) = encode r ++ encode_replies rs

pub read-encode_replies :
    (rs : List Reply) (rest : Bytes)
    → All IsPlain rs
    → read_replies (length rs) (encode_replies rs ++ rest) ≡ some (rs, rest)
unfolding read_replies
read-encode_replies [] rest h = refl
read-encode_replies (r ∷ rs) rest h =
    ap (read_replies (suc (length rs))) (append_assoc (encode r) (encode_replies rs) rest)
    ∙ rw (decode-encode r (encode_replies rs ++ rest) h.0)
        (rw (read-encode_replies rs rest h.1) refl)
