-- ===== src/Resp/Decode.antt =====
-- RESP2 as a client reads it: one reply from the head of the bytes that it has received. An
-- independent description of the wire format that the serializers of src/resp.c write.
use redis_in_c.Prelude.{
  ℕ, zero, suc, ◌≡◌, ◌≢◌, ◌∙◌, refl, ap, arith, true, ◌==◌, if◌then◌else◌, Bytes, codes, Option,
  none, some, List, [], ◌∷◌, ◌++◌, length, take, drop, All, append_assoc, crlf, cr, lf,
  take-length-append, drop-length-append,
}
use redis_in_c.Prelude.Int.{ℤ, pos, negsuc}
use redis_in_c.Decimal.{print_nat, print_int, signed}
use redis_in_c.Decimal.Print.{IsDigit, value, value-print_nat, All-print_nat, print_nat-ne-nil}
use redis_in_c.Resp.Reply.{
  Reply, status, error, integer, bulk, nil, bulks, encode, encode_bulk, encode_bulks,
}
use redis_in_c.Resp.Plain.{IsLine, IsPlain}

infixl 5 ◌>>=◌
abbrev pub ◌>>=◌ {ℓ κ} : {A : Type ℓ} {B : Type κ} → Option A → (A → Option B) → Option B
none >>= f = none
some a >>= f = f a

-- What stands behind a LF.
abbrev after_cr : Bytes → Option (Bytes × Bytes)
after_cr [] = none
after_cr (c ∷ s) = if c == lf then some ([], s) else none

-- A line, without the CR LF that ends it, and what stands behind it.
unfoldable pub read_line : Bytes → Option (Bytes × Bytes)
read_line [] = none
read_line (c ∷ s) =
    let rest = read_line s >>= (λ (l, r). some (c ∷ l, r)) in if c == cr then after_cr s else rest

unfoldable pub read_int : Bytes → ℤ
read_int [] = pos 0
read_int (c ∷ s) = if c == b'-' then signed true (value 0 s) else pos (value 0 (c ∷ s))

abbrev at_end : Bytes → Bytes × Bytes → Option (Bytes × Bytes)
at_end b ([], r) = some (b, r)
at_end b (c ∷ l, r) = none

-- The bytes of a bulk string, which CR LF must follow.
unfoldable pub read_body : ℕ → Bytes → Option (Bytes × Bytes)
unfolding read_line
read_body n s = read_line (drop n s) >>= at_end (take n s)

unfoldable pub body_of : ℤ → Bytes → Option (Bytes × Bytes)
unfolding read_body
body_of (pos n) r = read_body n r
body_of (negsuc n) r = none

unfoldable pub read_bulk : Bytes → Option (Bytes × Bytes)
unfolding read_line read_int body_of
read_bulk [] = none
read_bulk (c ∷ s) = if c == b'$' then (read_line s >>= (λ (l, r). body_of (read_int l) r)) else none

unfoldable pub read_bulks : ℕ → Bytes → Option (List Bytes × Bytes)
unfolding read_bulk
read_bulks zero s = some ([], s)
read_bulks (suc n) s =
    read_bulk s >>= (λ (b, r). read_bulks n r >>= (λ (bs, r'). some (b ∷ bs, r')))

unfoldable pub decode_bulk : ℤ → Bytes → Option (Reply × Bytes)
unfolding read_body
decode_bulk (pos n) r = read_body n r >>= (λ (b, r'). some (bulk b, r'))
decode_bulk (negsuc n) r = some (nil, r)

unfoldable pub decode_array : ℤ → Bytes → Option (Reply × Bytes)
unfolding read_bulks
decode_array (pos n) r = read_bulks n r >>= (λ (bs, r'). some (bulks bs, r'))
decode_array (negsuc n) r = none

unfoldable pub decode_line : ℕ → Bytes → Bytes → Option (Reply × Bytes)
unfolding decode_bulk decode_array read_int
decode_line kind l r =
    if kind == b'+'
    then some (status l, r)
    else if kind == b'-'
    then some (error l, r)
    else if kind == b':'
    then some (integer (read_int l), r)
    else if kind == b'$'
    then decode_bulk (read_int l) r
    else if kind == b'*'
    then decode_array (read_int l) r
    else none

unfoldable pub decode : Bytes → Option (Reply × Bytes)
unfolding read_line decode_line
decode [] = none
decode (kind ∷ s) = read_line s >>= (λ (l, r). decode_line kind l r)

read_line_lem : (l rest : Bytes) → IsLine l → read_line (l ++ (crlf ++ rest)) ≡ some (l, rest)
unfolding read_line
read_line_lem [] rest h = refl
read_line_lem (c ∷ l) rest h = ground (arith, read_line_lem l rest h.1)

digit-IsLine : (s : Bytes) → All IsDigit s → IsLine s
digit-IsLine [] h = tt
digit-IsLine (c ∷ s) h =
    ((λ e. absurd (omega arith), λ e. absurd (omega arith)), digit-IsLine s h.1)

print_int-IsLine : (z : ℤ) → IsLine (print_int z)
unfolding print_int
print_int-IsLine (pos n) = digit-IsLine (print_nat n) (All-print_nat n)
print_int-IsLine (negsuc n) =
    (omega arith, digit-IsLine (print_nat (suc n)) (All-print_nat (suc n)))

read_digits : (s : Bytes) → All IsDigit s → s ≢ [] → read_int s ≡ pos (value 0 s)
unfolding read_int
read_digits [] h ne = absurd (ne refl)
read_digits (c ∷ s) h ne = ground (arith, h.0)

read-print_nat : (n : ℕ) → read_int (print_nat n) ≡ pos n
read-print_nat n =
    read_digits (print_nat n) (All-print_nat n) (print_nat-ne-nil n) ∙ ap pos (value-print_nat n)

read-print_int : (z : ℤ) → read_int (print_int z) ≡ z
unfolding print_int read_int
read-print_int (pos n) = read-print_nat n
read-print_int (negsuc n) = ap (signed true) (value-print_nat (suc n))

read_body_lem : (b rest : Bytes) → read_body (length b) (b ++ (crlf ++ rest)) ≡ some (b, rest)
unfolding read_body read_line
read_body_lem b rest =
    rw (drop-length-append b (crlf ++ rest), take-length-append b (crlf ++ rest)) refl

bulk_line :
    (b rest : Bytes)
    → read_bulk (b'$' ∷ (print_nat (length b) ++ (crlf ++ (b ++ (crlf ++ rest))))) ≡ some (b, rest)
unfolding read_bulk
bulk_line b rest =
    let ds = print_nat (length b) in
    rw (read_line_lem ds (b ++ (crlf ++ rest)) (digit-IsLine ds (All-print_nat (length b))))
      (ap (λ z. body_of z (b ++ (crlf ++ rest))) (read-print_nat (length b)) ∙ read_body_lem b rest)

-- A text in three parts, with what follows it.
regroup : (s t u rest : Bytes) → ((s ++ t) ++ u) ++ rest ≡ s ++ (t ++ (u ++ rest))
regroup s t u rest = simp append_assoc

read_bulk_lem : (b rest : Bytes) → read_bulk (encode_bulk b ++ rest) ≡ some (b, rest)
read_bulk_lem b rest =
    ap (λ t. read_bulk (b'$' ∷ t))
      (regroup (print_nat (length b)) crlf (b ++ crlf) rest
        ∙ ap (λ t. print_nat (length b) ++ (crlf ++ t)) (append_assoc b crlf rest))
    ∙ bulk_line b rest

read_bulks_lem :
    (bs : List Bytes) (rest : Bytes)
    → read_bulks (length bs) (encode_bulks bs ++ rest) ≡ some (bs, rest)
unfolding read_bulks
read_bulks_lem [] rest = refl
read_bulks_lem (b ∷ bs) rest =
    ap (read_bulks (suc (length bs))) (append_assoc (encode_bulk b) (encode_bulks bs) rest)
    ∙ rw (read_bulk_lem b (encode_bulks bs ++ rest)) (rw (read_bulks_lem bs rest) refl)

line :
    (kind : ℕ) (l rest : Bytes)
    → IsLine l
    → decode (kind ∷ ((l ++ crlf) ++ rest)) ≡ decode_line kind l rest
unfolding decode
line kind l rest h =
    ap (λ t. decode (kind ∷ t)) (append_assoc l crlf rest) ∙ rw (read_line_lem l rest h) refl

bulk_body :
    (b rest : Bytes) → decode_bulk (pos (length b)) (b ++ (crlf ++ rest)) ≡ some (bulk b, rest)
unfolding decode_bulk
bulk_body b rest = rw (read_body_lem b rest) refl

array_body :
    (bs : List Bytes) (rest : Bytes)
    → decode_array (pos (length bs)) (encode_bulks bs ++ rest) ≡ some (bulks bs, rest)
unfolding decode_array
array_body bs rest = rw (read_bulks_lem bs rest) refl

-- Whatever follows it, a plain reply is read back from its encoding, and exactly its bytes are.
pub decode-encode :
    (p : Reply) (rest : Bytes) → IsPlain p → decode (encode p ++ rest) ≡ some (p, rest)
unfolding decode_line
decode-encode (status s) rest h = line b'+' s rest h
decode-encode (error s) rest h = line b'-' s rest h
decode-encode (integer z) rest h =
    line b':' (print_int z) rest (print_int-IsLine z) ∙ rw (read-print_int z) refl
decode-encode nil rest h =
    line b'$' (codes "-1") rest (omega arith) ∙ (unfold decode_bulk read_int in refl)
decode-encode (bulk b) rest h =
    let ds = print_nat (length b) in
    let behind = (b ++ crlf) ++ rest in
    ap (λ t. decode (b'$' ∷ t)) (append_assoc (ds ++ crlf) (b ++ crlf) rest)
    ∙ line b'$' ds behind (digit-IsLine ds (All-print_nat (length b)))
    ∙ ap (λ z. decode_bulk z behind) (read-print_nat (length b))
    ∙ ap (decode_bulk (pos (length b))) (append_assoc b crlf rest)
    ∙ bulk_body b rest
decode-encode (bulks bs) rest h =
    let ds = print_nat (length bs) in
    let behind = encode_bulks bs ++ rest in
    ap (λ t. decode (b'*' ∷ t)) (append_assoc (ds ++ crlf) (encode_bulks bs) rest)
    ∙ line b'*' ds behind (digit-IsLine ds (All-print_nat (length bs)))
    ∙ ap (λ z. decode_array z behind) (read-print_nat (length bs))
    ∙ array_body bs rest
