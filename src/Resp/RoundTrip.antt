-- ===== src/Resp/RoundTrip.antt =====
-- src/resp.c: the parser reads the multi-bulk form of a command, the form of src/resp.h, back.
use redis_in_c.Prelude.{
  ℕ, zero, suc, ◌+◌, ◌%◌, ◌≤◌, ◌≡◌, refl, sym, ◌∙◌, ap, ap₂, arith, false, ◌||◌, Bytes, List, [],
  ◌∷◌, ◌++◌, length, length-append, ltb, cr, lf, get_or, take, drop, size_mod, drop-drop,
  take-length-append, drop-length-append, All,
}
use redis_in_c.Prelude.Int.{pos, ltb_ℤ}
use redis_in_c.Decimal.{print_nat}
use redis_in_c.Decimal.Print.{length-print_nat-le}
use redis_in_c.Resp.Outcome.{parsed, max_bulk_len, max_argc}
use redis_in_c.Resp.Bulk.{bulk_frame, bulk_body, parse_bulk, bulks, elements, parse_multi_bulk}
use redis_in_c.Resp.Request.{parse_request}
use redis_in_c.Resp.Reading.{parse_int-print_nat}

-- `$L\r\n<L bytes>\r\n`, in front of `rest`.
unfoldable pub encode_bulk : Bytes → Bytes → Bytes
encode_bulk a rest = b'$' ∷ (print_nat (length a) ++ (cr ∷ lf ∷ (a ++ (cr ∷ lf ∷ rest))))

unfoldable pub encode_bulks : List Bytes → Bytes → Bytes
encode_bulks [] rest = rest
encode_bulks (a ∷ args) rest = encode_bulk a (encode_bulks args rest)

-- `*N\r\n` and the N bulk strings, in front of `rest`: how a client sends a command.
unfoldable pub encode_request : List Bytes → Bytes → Bytes
unfolding encode_bulks encode_bulk
encode_request args rest = b'*' ∷ (print_nat (length args) ++ (cr ∷ lf ∷ encode_bulks args rest))

-- The length of a bulk string's frame, and of the whole request's.
abbrev pub header_len : ℕ → ℕ
header_len n = 1 + (length (print_nat n) + 2)

abbrev pub bulk_size : Bytes → ℕ
bulk_size a = header_len (length a) + length a + 2

abbrev pub bulks_size : List Bytes → ℕ
bulks_size [] = 0
bulks_size (a ∷ args) = bulk_size a + bulks_size args

abbrev pub request_size : List Bytes → ℕ
request_size args = header_len (length args) + bulks_size args

drop-header :
    (c : ℕ) (ds rest : Bytes) → drop (1 + (length ds + 2)) (c ∷ (ds ++ (cr ∷ lf ∷ rest))) ≡ rest
drop-header c ds rest =
    let one : 1 + (length ds + 2) ≡ suc (length ds + 2) = omega arith in
    ap (λ n. drop n (c ∷ (ds ++ (cr ∷ lf ∷ rest)))) one
    ∙ sym (drop-drop 2 (length ds) (ds ++ (cr ∷ lf ∷ rest)))
    ∙ ap (drop 2) (drop-length-append ds (cr ∷ lf ∷ rest))

get_or-drop : (xs : Bytes) (n i d : ℕ) → get_or xs (n + i) d ≡ get_or (drop n xs) i d
get_or-drop xs zero i d = let e : 0 + i ≡ i = omega arith in ap (λ j. get_or xs j d) e
get_or-drop [] (suc n) i d = refl
get_or-drop (x ∷ xs) (suc n) i d =
    let e : suc n + i ≡ suc (n + i) = omega arith in
    ap (λ j. get_or (x ∷ xs) j d) e ∙ get_or-drop xs n i d

get_or-after : (a rest : Bytes) (i d : ℕ) → get_or (a ++ rest) (length a + i) d ≡ get_or rest i d
get_or-after a rest i d =
    get_or-drop (a ++ rest) (length a) i d ∙ ap (λ r. get_or r i d) (drop-length-append a rest)

-- What `parse_bulk` finds at the end of a frame.
bulk_frame-body :
    (input a rest : Bytes) (header : ℕ)
    → drop header input ≡ a ++ (cr ∷ lf ∷ rest)
    → header + length a + 2 ≤ length input
    → bulk_frame input header (length a) (header + length a + 2) ≡ parsed (a, header + length a + 2)
unfolding bulk_frame
bulk_frame-body input a rest header e h =
    let long : ltb (length input) (header + length a + 2) ≡ false = ground arith in
    let plus : length a ≡ length a + 0 = omega arith in
    let at_cr : get_or input (header + length a) 0 ≡ cr =
      get_or-drop input header (length a) 0
      ∙ ap₂ (λ r i. get_or r i 0) e plus
      ∙ get_or-after a (cr ∷ lf ∷ rest) 0 0 in
    let assoc : header + length a + 1 ≡ header + (length a + 1) = omega arith in
    let at_lf : get_or input (header + length a + 1) 0 ≡ lf =
      ap (λ i. get_or input i 0) assoc
      ∙ get_or-drop input header (length a + 1) 0
      ∙ ap (λ r. get_or r (length a + 1) 0) e
      ∙ get_or-after a (cr ∷ lf ∷ rest) 1 0 in
    rw (long, at_cr, at_lf)
      (ap (λ s. parsed (s, header + length a + 2))
        (ap (take (length a)) e ∙ take-length-append a (cr ∷ lf ∷ rest)))

length-encode_bulk : (a rest : Bytes) → length (encode_bulk a rest) ≡ bulk_size a + length rest
unfolding encode_bulk
length-encode_bulk a rest = omega (
  arith,
  length-append (print_nat (length a)) (cr ∷ lf ∷ (a ++ (cr ∷ lf ∷ rest))),
  length-append a (cr ∷ lf ∷ rest),
)

header_len-le : (n : ℕ) → n ≤ max_bulk_len → header_len n ≤ 20
header_len-le n h = omega (arith, length-print_nat-le n 9 (omega arith) (omega arith))

bulk_body-frame :
    (input : Bytes) (n used : ℕ)
    → n ≤ max_bulk_len
    → used ≤ 20
    → bulk_body input (pos n, used) ≡ bulk_frame input (1 + used) n (1 + used + n + 2)
unfolding bulk_body
bulk_body-frame input n used h k =
    let small : (ltb_ℤ (pos n) (pos 0) || ltb max_bulk_len n) ≡ false = ground arith in
    let sum : (1 + used + n + 2) % size_mod ≡ 1 + used + n + 2 = omega arith in
    let no_wrap : ltb (1 + used + n + 2) (1 + used) ≡ false = ground arith in
    rw (small, sum, no_wrap)

-- A bulk string is read back from its frame, whatever follows.
pub parse_bulk-encode_bulk :
    (a rest : Bytes)
    → length a ≤ max_bulk_len
    → parse_bulk (encode_bulk a rest) ≡ parsed (a, bulk_size a)
unfolding parse_bulk encode_bulk
parse_bulk-encode_bulk a rest h =
    let ds = print_nat (length a) in
    let tail = a ++ (cr ∷ lf ∷ rest) in
    let input = b'$' ∷ (ds ++ (cr ∷ lf ∷ tail)) in
    rw (parse_int-print_nat (length a) tail (omega arith)) (
      bulk_body-frame input (length a) (length ds + 2) h (omega (arith, header_len-le (length a) h))
      ∙ bulk_frame-body input a rest (header_len (length a)) (drop-header b'$' ds tail)
          (omega (arith, length-encode_bulk a rest)))

drop-bulk : (a rest : Bytes) → drop (bulk_size a) (encode_bulk a rest) ≡ rest
unfolding encode_bulk
drop-bulk a rest =
    let ds = print_nat (length a) in
    let tail = a ++ (cr ∷ lf ∷ rest) in
    let input = b'$' ∷ (ds ++ (cr ∷ lf ∷ tail)) in
    sym (drop-drop 2 (header_len (length a) + length a) input)
    ∙ ap (drop 2) (
        sym (drop-drop (length a) (header_len (length a)) input)
        ∙ ap (drop (length a)) (drop-header b'$' ds tail)
        ∙ drop-length-append a (cr ∷ lf ∷ rest))

drop-bulks :
    (args : List Bytes) (rest : Bytes) → drop (bulks_size args) (encode_bulks args rest) ≡ rest
unfolding encode_bulks
drop-bulks [] rest = refl
drop-bulks (a ∷ args) rest =
    sym (drop-drop (bulks_size args) (bulk_size a) (encode_bulk a (encode_bulks args rest)))
    ∙ ap (drop (bulks_size args)) (drop-bulk a (encode_bulks args rest))
    ∙ drop-bulks args rest

bulks-encode :
    (args : List Bytes) (rest input : Bytes) (start : ℕ)
    → All (λ a. length a ≤ max_bulk_len) args
    → drop start input ≡ encode_bulks args rest
    → bulks (length args) input start ≡ parsed (args, start + bulks_size args)
unfolding bulks encode_bulks
bulks-encode [] rest input start h e = let z : start ≡ start + 0 = omega arith in rw (← z)
bulks-encode (a ∷ args) rest input start (ha, h) e =
    let here : parse_bulk (drop start input) ≡ parsed (a, bulk_size a) =
      ap parse_bulk e ∙ parse_bulk-encode_bulk a (encode_bulks args rest) ha in
    let there : drop (start + bulk_size a) input ≡ encode_bulks args rest =
      sym (drop-drop (bulk_size a) start input)
      ∙ ap (drop (bulk_size a)) e
      ∙ drop-bulk a (encode_bulks args rest) in
    let sum : start + bulk_size a + bulks_size args ≡ start + (bulk_size a + bulks_size args) =
      omega arith in
    rw (here, bulks-encode args rest input (start + bulk_size a) h there, sum)

elements-bulks :
    (input : Bytes) (args : List Bytes) (used end : ℕ)
    → 1 ≤ length args
    → length args ≤ max_argc
    → bulks (length args) input (1 + used) ≡ parsed (args, end)
    → elements input (pos (length args), used)
      ≡ parsed (record { args = args; bytes_consumed = end })
unfolding elements
elements-bulks input args used end lo hi e =
    let ok_count : (ltb_ℤ (pos (length args)) (pos 1) || ltb max_argc (length args)) ≡ false =
      ground arith in
    rw (ok_count, e)

-- A command of 1 to 32 arguments of at most 512 MiB each, encoded as an array of bulk strings, is
-- parsed back to its exact arguments, and the parser consumes exactly the frame, whatever bytes
-- follow.
pub parse-encode :
    (args : List Bytes) (rest : Bytes)
    → 1 ≤ length args
    → length args ≤ max_argc
    → All (λ a. length a ≤ max_bulk_len) args
    → parse_request (encode_request args rest)
      ≡ parsed (record { args = args; bytes_consumed = request_size args })
unfolding parse_request parse_multi_bulk encode_request
parse-encode args rest lo hi h =
    let ds = print_nat (length args) in
    let input = b'*' ∷ (ds ++ (cr ∷ lf ∷ encode_bulks args rest)) in
    rw (parse_int-print_nat (length args) (encode_bulks args rest) (omega arith)) (
      elements-bulks input args (length ds + 2) (request_size args) lo hi (
        bulks-encode args rest input (1 + (length ds + 2)) h
          (drop-header b'*' ds (encode_bulks args rest))))

length-encode_bulks :
    (args : List Bytes) (rest : Bytes)
    → length (encode_bulks args rest) ≡ bulks_size args + length rest
unfolding encode_bulks
length-encode_bulks [] rest = omega arith
length-encode_bulks (a ∷ args) rest =
    omega (arith, length-encode_bulk a (encode_bulks args rest), length-encode_bulks args rest)

-- The frame is `request_size` bytes long.
pub length-encode_request :
    (args : List Bytes) (rest : Bytes)
    → length (encode_request args rest) ≡ request_size args + length rest
unfolding encode_request
length-encode_request args rest = omega (
  arith,
  length-append (print_nat (length args)) (cr ∷ lf ∷ encode_bulks args rest),
  length-encode_bulks args rest,
)

-- What stands behind the frame.
pub drop-request :
    (args : List Bytes) (rest : Bytes) → drop (request_size args) (encode_request args rest) ≡ rest
unfolding encode_request
drop-request args rest =
    let ds = print_nat (length args) in
    let input = b'*' ∷ (ds ++ (cr ∷ lf ∷ encode_bulks args rest)) in
    sym (drop-drop (bulks_size args) (header_len (length args)) input)
    ∙ ap (drop (bulks_size args)) (drop-header b'*' ds (encode_bulks args rest))
    ∙ drop-bulks args rest
