-- ===== src/Resp/Reply.antt =====
-- src/resp.h: the replies of RESP2, and their text on the wire.
use redis_in_c.Prelude.{
  ℕ, suc, ◌+◌, ◌≤◌, arith, Bytes, List, [], ◌∷◌, ◌++◌, length, length-append, codes, crlf, IsWord,
}
use redis_in_c.Prelude.Int.{ℤ, pos, negsuc, int64_of}
use redis_in_c.Decimal.{print_nat, print_int}
use redis_in_c.Decimal.Print.{length-print_nat-le}
use redis_in_c.Decimal.Parse.{magnitude}
use redis_in_c.Resp.Replies.{
  reply_simple_string, reply_error, reply_integer, reply_bulk, reply_nil, reply_array_header,
}
use redis_in_c.Resp.Emission.{Emits, emit-Emits, emitf-Emits, Emits-seq}

pub data Reply : Type 0 where
  status : Bytes → Reply
  error : Bytes → Reply
  integer : ℤ → Reply
  bulk : Bytes → Reply
  nil : Reply
  bulks : List Bytes → Reply

abbrev pub encode_bulk : Bytes → Bytes
encode_bulk b = (b'$' ∷ (print_nat (length b) ++ crlf)) ++ (b ++ crlf)

abbrev pub encode_bulks : List Bytes → Bytes
encode_bulks [] = []
encode_bulks (b ∷ bs) = encode_bulk b ++ encode_bulks bs

abbrev pub encode : Reply → Bytes
encode (status s) = (b'+' ∷ []) ++ (s ++ crlf)
encode (error s) = (b'-' ∷ []) ++ (s ++ crlf)
encode (integer z) = b':' ∷ (print_int z ++ crlf)
encode (bulk b) = encode_bulk b
encode nil = codes "$-1" ++ crlf
encode (bulks bs) = (b'*' ∷ (print_nat (length bs) ++ crlf)) ++ encode_bulks bs

number_text : (n : ℕ) → IsWord n → length (print_nat n) ≤ 20
number_text n h = length-print_nat-le n 20 (omega arith) (omega arith)

line_text : (c : ℕ) (text : Bytes) (k : ℕ) → length text ≤ k → length (c ∷ (text ++ crlf)) ≤ k + 3
line_text c text k h = omega (arith, length-append text crlf)

int_text : (z : ℤ) → IsWord (magnitude z) → length (print_int z) ≤ 21
unfolding print_int
int_text (pos n) h = omega (arith, number_text n h)
int_text (negsuc n) h = omega (arith, number_text (suc n) h)

pub simple_string-Emits : (s : Bytes) → Emits (encode (status s)) (reply_simple_string s)
unfolding reply_simple_string
simple_string-Emits s =
    Emits-seq (b'+' ∷ []) (s ++ crlf) _ _ (emit-Emits (b'+' ∷ []))
      (Emits-seq s crlf _ _ (emit-Emits s) (emit-Emits crlf))

pub error-Emits : (s : Bytes) → Emits (encode (error s)) (reply_error s)
unfolding reply_error
error-Emits s =
    Emits-seq (b'-' ∷ []) (s ++ crlf) _ _ (emit-Emits (b'-' ∷ []))
      (Emits-seq s crlf _ _ (emit-Emits s) (emit-Emits crlf))

-- On a valid buffer, resp_reply_integer of a number with a magnitude below 2^64 appends its RESP
-- encoding to the live bytes, or fails with a first part of it appended; with no allocation
-- refused it fails only if the encoding and a byte more do not fit under 16 MiB.
pub integer-Emits : (z : ℤ) → IsWord (magnitude z) → Emits (encode (integer z)) (reply_integer z)
unfolding reply_integer
integer-Emits z h =
    emitf-Emits (b':' ∷ (print_int z ++ crlf))
      (omega (arith, line_text b':' (print_int z) 21 (int_text z h)))

magnitude-int64_of : (n : ℕ) → IsWord (magnitude (int64_of n))
magnitude-int64_of n = ground arith

-- A number of type `size_t` that is answered as an `int64_t`.
pub length-Emits : (n : ℕ) → Emits (encode (integer (int64_of n))) (reply_integer (int64_of n))
length-Emits n = integer-Emits (int64_of n) (magnitude-int64_of n)

-- On a valid buffer, resp_reply_bulk of a text with a length below 2^64 appends its RESP encoding
-- to the live bytes, or fails with a first part of it appended; with no allocation refused it
-- fails only if the encoding and a byte more do not fit under 16 MiB.
pub bulk-Emits : (b : Bytes) → IsWord (length b) → Emits (encode (bulk b)) (reply_bulk b)
unfolding reply_bulk
bulk-Emits b h =
    let header = b'$' ∷ (print_nat (length b) ++ crlf) in
    Emits-seq header (b ++ crlf) _ _
      (emitf-Emits header
        (omega (arith, line_text b'$' (print_nat (length b)) 20 (number_text (length b) h))))
      (Emits-seq b crlf _ _ (emit-Emits b) (emit-Emits crlf))

pub nil-Emits : Emits (encode nil) reply_nil
unfolding reply_nil
nil-Emits = emit-Emits (codes "$-1" ++ crlf)

pub array_header-Emits :
    (n : ℕ) → IsWord n → Emits (b'*' ∷ (print_nat n ++ crlf)) (reply_array_header n)
unfolding reply_array_header
array_header-Emits n h =
    emitf-Emits (b'*' ∷ (print_nat n ++ crlf))
      (omega (arith, line_text b'*' (print_nat n) 20 (number_text n h)))
