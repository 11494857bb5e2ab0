-- ===== src/Resp/Lengths.antt =====
-- src/resp.c: the arguments of a parsed request are parts of the buffer.
use redis_in_c.Prelude.{
  ℕ, zero, suc, ◌+◌, ◌≤◌, ◌≡◌, sym, ◌∙◌, ap, arith, Bool, true, false, not, ◌||◌, Bool-cases,
  Option-cases, inl, inr, Bytes, List, [], ◌∷◌, length, size_mod, ◌%◌, length-take, length-drop,
  ltb, leb, ◌==◌, if◌then◌else◌, take, drop, All,
}
use redis_in_c.Prelude.Int.{ℤ, pos, pos_part, ltb_ℤ}
use redis_in_c.Resp.Outcome.{parsed, need_more, protocol_err, Request, max_argc, max_inline_len}
use redis_in_c.Resp.Number.{parse_int_until_crlf}
use redis_in_c.Resp.Bulk.{bulk_frame, bulk_body, parse_bulk, bulks, elements, parse_multi_bulk}
use redis_in_c.Resp.Inline.{is_blank, find_newline, parse_inline, inline_args, line_end}
use redis_in_c.Resp.Request.{parse_request}
use redis_in_c.Resp.Splitting.{attach, words, words-blank, words-cons, tokenize_lem}
use redis_in_c.Resp.Lines.{
  parse_inline-eq, parse_line-some, parse_line-none, scan_limit, inline_request, inline_args_lem,
}
use redis_in_c.Resp.Frames.{parsed-bind}

abbrev AllShort : ℕ → List Bytes → Type 0
AllShort n = All (λ a. length a ≤ n)

AllShort-mono : (n m : ℕ) (ws : List Bytes) → n ≤ m → AllShort n ws → AllShort m ws
AllShort-mono n m [] le h = tt
AllShort-mono n m (w ∷ ws) le h = (omega (arith, h.0), AllShort-mono n m ws le h.1)

part_short : (n k : ℕ) (xs : Bytes) → length (take n (drop k xs)) ≤ length xs
part_short n k xs = omega (arith, length-take n (drop k xs), length-drop k xs)

bulk_frame_short :
    (input : Bytes) (header n total : ℕ) (out : Bytes × ℕ)
    → bulk_frame input header n total ≡ parsed out
    → length out.0 ≤ length input
unfolding bulk_frame
bulk_frame_short input header n total out e = ground (arith, part_short n header input)

bulk_body_short :
    (input : Bytes) (r : ℤ × ℕ) (out : Bytes × ℕ)
    → bulk_body input r ≡ parsed out
    → length out.0 ≤ length input
unfolding bulk_body
bulk_body_short input (len, used) out e = ground (
  arith,
  bulk_frame_short input (1 + used) (pos_part len) ((1 + used + pos_part len + 2) % size_mod) out,
)

parse_bulk_short :
    (p : Bytes) (out : Bytes × ℕ) → parse_bulk p ≡ parsed out → length out.0 ≤ length p
unfolding parse_bulk
parse_bulk_short [] out e = cc
parse_bulk_short (c ∷ p) out e = elim (Bool-cases (not (c == b'$'))) [
  | inl t ↦ cc (rw t at e)
  | inr f ↦
      let (r, _, body) = parsed-bind (parse_int_until_crlf p) (bulk_body (c ∷ p)) out (rw f at e) in
      bulk_body_short (c ∷ p) r out body
]

bulks_short :
    (n : ℕ) (input : Bytes) (start : ℕ) (out : List Bytes × ℕ)
    → bulks n input start ≡ parsed out
    → AllShort (length input) out.0
unfolding bulks
bulks_short zero input start out e = let nil : out ≡ ([], start) = cc in rw nil tt
bulks_short (suc n) input start out e =
    let ((slice, used), first, then_) = parsed-bind (parse_bulk (drop start input)) _ out e in
    let ((slices, end), later, done) = parsed-bind (bulks n input (start + used)) _ out then_ in
    let short = parse_bulk_short (drop start input) (slice, used) first in
    let rest = bulks_short n input (start + used) (slices, end) later in
    let is : out ≡ (slice ∷ slices, end) = cc in
    rw is (omega (arith, short, length-drop start input), rest)

elements_short :
    (input : Bytes) (z : ℤ) (used : ℕ) (r : Request)
    → elements input (z, used) ≡ parsed r
    → AllShort (length input) r.args
unfolding elements
elements_short input z used r e = elim (Bool-cases (ltb_ℤ z (pos 1) || ltb max_argc (pos_part z))) [
  | inl t ↦ cc (rw t at e)
  | inr f ↦
      let (out, found, done) = parsed-bind (bulks (pos_part z) input (1 + used)) _ r (rw f at e) in
      let is : r.args ≡ out.0 = sym (args_of done) in
      rw is (bulks_short (pos_part z) input (1 + used) out found)
]
  where
    args_of : {q r : Request} → parsed q ≡ parsed r → q.args ≡ r.args
    args_of k = cc

parse_multi_bulk_short :
    (c : ℕ) (p : Bytes) (r : Request)
    → parse_multi_bulk (c ∷ p) ≡ parsed r
    → AllShort (length (c ∷ p)) r.args
unfolding parse_multi_bulk
parse_multi_bulk_short c p r e =
    let ((z, used), number, rest) = parsed-bind (parse_int_until_crlf p) (elements (c ∷ p)) r e in
    elements_short (c ∷ p) z used r rest

attach_short :
    (c : ℕ) (s : Bytes) (ws : List Bytes)
    → AllShort (length s) ws
    → AllShort (suc (length s)) (attach c s ws)
attach_short c [] ws h = (omega arith, AllShort-mono 0 1 ws (omega arith) h)
attach_short c (d ∷ s) [] h = (omega arith, tt)
attach_short c (d ∷ s) (w ∷ ws) h =
    let n = length (d ∷ s) in
    elim (Bool-cases (is_blank d)) [
      | inl t ↦ rw t (omega arith, AllShort-mono n (suc n) (w ∷ ws) (omega arith) h)
      | inr f ↦ rw f (omega (arith, h.0), AllShort-mono n (suc n) ws (omega arith) h.1)
    ]

words_short : (s : Bytes) → AllShort (length s) (words s)
words_short [] = unfold words in tt
words_short (c ∷ s) = elim (Bool-cases (is_blank c)) [
  | inl t ↦
      rw (words-blank c s t)
        (AllShort-mono (length s) (suc (length s)) (words s) (omega arith) (words_short s))
  | inr f ↦ rw (words-cons c s f) (attach_short c s (words s) (words_short s))
]

inline_request_short :
    (n consumed : ℕ) (ws : List Bytes) (r : Request)
    → AllShort n ws
    → inline_request consumed ws ≡ parsed r
    → AllShort n r.args
inline_request_short n consumed [] r h e = cc
inline_request_short n consumed (w ∷ ws) r h e =
    elim (Bool-cases (leb (length (w ∷ ws)) max_argc)) [
      | inr f ↦ cc (rw f at e)
      | inl t ↦ let is : r.args ≡ w ∷ ws = args_of (rw t at e) in rw is h
    ]
  where
    args_of :
        parsed (record { args = w ∷ ws; bytes_consumed = consumed }) ≡ parsed r → r.args ≡ w ∷ ws
    args_of k = cc

parse_inline_short :
    (input : Bytes) (r : Request) → parse_inline input ≡ parsed r → AllShort (length input) r.args
parse_inline_short input r e = elim (Option-cases (find_newline (scan_limit input) input 0)) [
  | inl miss ↦
      no_line (leb max_inline_len (length input))
        (rw (parse_inline-eq input, miss, parse_line-none input) at e)
  | inr (nl, found) ↦
      let line = take (line_end input nl) input in
      let within : length line ≤ length input =
        omega (arith, length-take (line_end input nl) input) in
      inline_request_short (length input) (nl + 1) (words line) r
        (AllShort-mono (length line) (length input) (words line) within (words_short line))
        (sym (ap (inline_args nl) (tokenize_lem line) ∙ inline_args_lem nl (words line))
          ∙ (rw (parse_inline-eq input, found, parse_line-some input nl) at e))
]
  where
    no_line :
        (b : Bool)
        → (if b then protocol_err else need_more) ≡ parsed r
        → AllShort (length input) r.args
    no_line true k = cc
    no_line false k = cc

-- No argument is longer than the buffer.
pub parse_request_short :
    (input : Bytes) (r : Request)
    → parse_request input ≡ parsed r
    → All (λ a. length a ≤ length input) r.args
unfolding parse_request
parse_request_short [] r e = cc
parse_request_short (c ∷ p) r e = elim (Bool-cases (c == b'*')) [
  | inl t ↦ parse_multi_bulk_short c p r (rw t at e)
  | inr f ↦ parse_inline_short (c ∷ p) r (rw f at e)
]
