-- ===== src/Resp/Plain.antt =====
-- src/resp.h: replies whose text a client can tell where it ends.
use redis_in_c.Prelude.{ℕ, zero, suc, ◌≢◌, Bytes, [], ◌∷◌, ◌++◌, take, All, cr, lf}
use redis_in_c.Resp.Reply.{Reply, status, error, integer, bulk, nil, bulks}

-- No byte of a line break.
abbrev pub IsLine : Bytes → Type 0
IsLine = All (λ c. (c ≢ cr) × (c ≢ lf))

-- RESP2 ends the text of a status and of an error by the first CR LF.
abbrev pub IsPlain : Reply → Type 0
IsPlain (status s) = IsLine s
IsPlain (error s) = IsLine s
IsPlain (integer z) = Unit
IsPlain (bulk b) = Unit
IsPlain nil = Unit
IsPlain (bulks bs) = Unit

pub IsLine-append : (s t : Bytes) → IsLine s → IsLine t → IsLine (s ++ t)
IsLine-append [] t hs ht = ht
IsLine-append (c ∷ s) t hs ht = (hs.0, IsLine-append s t hs.1 ht)

pub IsLine-take : (n : ℕ) (s : Bytes) → IsLine s → IsLine (take n s)
IsLine-take zero s h = tt
IsLine-take (suc n) [] h = tt
IsLine-take (suc n) (c ∷ s) h = (h.0, IsLine-take n s h.1)
