-- ===== src/Resp/Lines.antt =====
-- src/resp.c: `parse_inline` on a whole line, and its verdicts as more bytes arrive.
use redis_in_c.Prelude.{
  ℕ, zero, suc, ◌+◌, ◌-◌, ◌≤◌, ◌<◌, ◌≡◌, ◌≢◌, refl, ◌∙◌, ap, arith, true, false, Bool-cases,
  Option-cases, inl, inr, Bytes, none, some, List, [], ◌∷◌, ◌++◌, length, length-append, take,
  take-append, ltb, leb, if◌then◌else◌, ◌==◌, cr, lf, All,
}
use redis_in_c.Resp.Outcome.{
  Outcome, parsed, need_more, protocol_err, Request, max_argc, max_inline_len,
}
use redis_in_c.Resp.Inline.{
  find_newline, line_end, parse_line, parse_inline, inline_args, tokenize, tokens, too_many,
}
use redis_in_c.Resp.Splitting.{words, tokenize_lem}
use redis_in_c.Resp.Stable.{Stable, Stable-refl, get_or-append}

-- More rounds over more bytes find the same newline.
find_newline-more :
    (rounds rounds' : ℕ) (p more : Bytes) (i nl : ℕ)
    → rounds ≤ rounds'
    → find_newline rounds p i ≡ some nl
    → find_newline rounds' (p ++ more) i ≡ some nl
unfolding find_newline
find_newline-more zero rounds' p more i nl le e = cc
find_newline-more (suc rounds) rounds' [] more i nl le e = cc
find_newline-more (suc rounds) zero (c ∷ p) more i nl le e = absurd (omega arith)
find_newline-more (suc rounds) (suc rounds') (c ∷ p) more i nl le e =
    ground (arith, find_newline-more rounds rounds' p more (i + 1) nl)

-- No newline in the bytes that are looked at: the bytes behind them do not matter.
find_newline-none :
    (rounds : ℕ) (p more : Bytes) (i : ℕ)
    → rounds ≤ length p
    → find_newline rounds p i ≡ none
    → find_newline rounds (p ++ more) i ≡ none
unfolding find_newline
find_newline-none zero p more i le e = refl
find_newline-none (suc rounds) [] more i le e = elim le [ ]
find_newline-none (suc rounds) (c ∷ p) more i le e =
    ground (arith, find_newline-none rounds p more (i + 1))

pub find_newline_bounds :
    (rounds : ℕ) (p : Bytes) (i nl : ℕ)
    → find_newline rounds p i ≡ some nl
    → (i ≤ nl) × (nl < i + length p) × (nl < i + rounds)
unfolding find_newline
find_newline_bounds zero p i nl e = cc
find_newline_bounds (suc rounds) [] i nl e = cc
find_newline_bounds (suc rounds) (c ∷ p) i nl e =
    ground (arith, find_newline_bounds rounds p (i + 1) nl)

line_end-le : (input : Bytes) (nl : ℕ) → line_end input nl ≤ nl
unfolding line_end
line_end-le input nl = ground arith

line_end-append :
    (input more : Bytes) (nl : ℕ)
    → nl < length input
    → line_end (input ++ more) nl ≡ line_end input nl
unfolding line_end
line_end-append input more nl h = rw (get_or-append input more (nl - 1) 0 (omega arith))

parse_line-append :
    (input more : Bytes) (nl : ℕ)
    → nl < length input
    → parse_line (input ++ more) (some nl) ≡ parse_line input (some nl)
unfolding parse_line
parse_line-append input more nl h =
    let same : take (line_end (input ++ more) nl) (input ++ more) ≡ take (line_end input nl) input =
      ap (λ n. take n (input ++ more)) (line_end-append input more nl h)
      ∙ take-append (line_end input nl) input more (omega (arith, line_end-le input nl)) in
    ap (λ line. inline_args nl (tokenize (length line + 1) line 0)) same

abbrev pub scan_limit : Bytes → ℕ
scan_limit input = if ltb (length input) max_inline_len then length input else max_inline_len

scan_limit_bounds :
    (input more : Bytes)
    → (scan_limit input ≤ length input) × (scan_limit input ≤ scan_limit (input ++ more))
scan_limit_bounds input more = ground (arith, length-append input more)

pub parse_inline-eq :
    (input : Bytes)
    → parse_inline input ≡ parse_line input (find_newline (scan_limit input) input 0)
unfolding parse_inline
parse_inline-eq input = refl

pub parse_line-none :
    (input : Bytes)
    → parse_line input none
      ≡ (if leb max_inline_len (length input) then protocol_err else need_more)
unfolding parse_line
parse_line-none input = refl

pub parse_line-some :
    (input : Bytes) (nl : ℕ)
    → let line = take (line_end input nl) input in
      parse_line input (some nl) ≡ inline_args nl (tokenize (length line + 1) line 0)
unfolding parse_line
parse_line-some input nl = refl

too_long-Stable :
    (input more : Bytes)
    → find_newline (scan_limit input) input 0 ≡ none
    → Stable (parse_line input none) (parse_inline (input ++ more))
too_long-Stable input more e = elim (Bool-cases (leb max_inline_len (length input))) [
  | inr f ↦ rw (parse_line-none input, f) tt
  | inl t ↦
      let limit : scan_limit (input ++ more) ≡ scan_limit input =
        ground (arith, length-append input more) in
      let long : leb max_inline_len (length (input ++ more)) ≡ true =
        ground (arith, length-append input more) in
      rw (
        parse_line-none input,
        t,
        parse_inline-eq (input ++ more),
        limit,
        find_newline-none (scan_limit input) input more 0 (scan_limit_bounds input more).0 e,
        parse_line-none (input ++ more),
        long,
      )
]

-- An inline verdict other than NEED_MORE stands, whatever bytes follow.
pub parse_inline-Stable :
    (input more : Bytes) → Stable (parse_inline input) (parse_inline (input ++ more))
parse_inline-Stable input more = elim (Option-cases (find_newline (scan_limit input) input 0)) [
  | inr (nl, e) ↦
      let (limit, wider) = scan_limit_bounds input more in
      let found =
        find_newline-more (scan_limit input) (scan_limit (input ++ more)) input more 0 nl wider e in
      let (lo, hi, hi') = find_newline_bounds (scan_limit input) input 0 nl e in
      rw
        (
          parse_inline-eq input,
          e,
          parse_inline-eq (input ++ more),
          found,
          parse_line-append input more nl (omega arith),
        )
        (Stable-refl _)
  | inl e ↦ rw (parse_inline-eq input, e) (too_long-Stable input more e)
]

-- The line without a CR at its end.
abbrev pub trim_cr : Bytes → Bytes
trim_cr [] = []
trim_cr (c ∷ []) = if c == cr then [] else c ∷ []
trim_cr (c ∷ d ∷ s) = c ∷ trim_cr (d ∷ s)

-- What an inline request asks for, by its words.
abbrev pub inline_request : ℕ → List Bytes → Outcome Request
inline_request consumed [] = protocol_err
inline_request consumed (w ∷ ws) =
    if leb (length (w ∷ ws)) max_argc
    then parsed (record { args = w ∷ ws; bytes_consumed = consumed })
    else protocol_err

find_newline-line :
    (rounds : ℕ) (line rest : Bytes) (i : ℕ)
    → All (λ c. c ≢ lf) line
    → length line < rounds
    → find_newline rounds (line ++ (lf ∷ rest)) i ≡ some (i + length line)
unfolding find_newline
find_newline-line zero line rest i clean h = absurd (omega arith)
find_newline-line (suc rounds) [] rest i clean h = let e : i ≡ i + 0 = omega arith in ap some e
find_newline-line (suc rounds) (c ∷ line) rest i (ne, clean) h =
    let f : c == lf ≡ false = ground arith in
    rw f (
      find_newline-line rounds line rest (i + 1) clean (omega arith)
      ∙ ap some (shift i (length line)))
  where
    shift : (i n : ℕ) → i + 1 + n ≡ i + suc n
    shift i n = omega arith

line_end-cons :
    (c : ℕ) (input : Bytes) (k : ℕ)
    → line_end (c ∷ input) (suc (suc k)) ≡ suc (line_end input (suc k))
unfolding line_end
line_end-cons c input k =
    let one : suc (suc k) - 1 ≡ suc k = omega arith in
    let two : suc k - 1 ≡ k = omega arith in rw (one, two) (ground arith)

take-line_end_one :
    (c : ℕ) (rest : Bytes) → take (line_end (c ∷ lf ∷ rest) 1) (c ∷ lf ∷ rest) ≡ trim_cr (c ∷ [])
unfolding line_end
take-line_end_one c rest = ground arith

-- Taking the line off, up to `line_end`.
take-line_end :
    (line rest : Bytes)
    → take (line_end (line ++ (lf ∷ rest)) (length line)) (line ++ (lf ∷ rest)) ≡ trim_cr line
take-line_end [] rest = unfold line_end in ground arith
take-line_end (c ∷ []) rest = take-line_end_one c rest
take-line_end (c ∷ d ∷ s) rest =
    ap (λ n. take n (c ∷ d ∷ (s ++ (lf ∷ rest))))
      (line_end-cons c (d ∷ (s ++ (lf ∷ rest))) (length s))
    ∙ ap (λ r. c ∷ r) (take-line_end (d ∷ s) rest)

pub inline_args_lem :
    (nl : ℕ) (ws : List Bytes)
    → inline_args nl (if leb (length ws) max_argc then tokens ws else too_many)
      ≡ inline_request (nl + 1) ws
unfolding inline_args
inline_args_lem nl [] = ground arith
inline_args_lem nl (w ∷ ws) = ground arith

-- An inline line without a newline inside and shorter than 8 KiB, ended by LF or CRLF, is the
-- request of its words, whatever bytes follow; no words or more than 32 are a protocol error.
pub parse_inline-line :
    (line rest : Bytes)
    → All (λ c. c ≢ lf) line
    → length line < max_inline_len
    → parse_inline (line ++ (lf ∷ rest)) ≡ inline_request (length line + 1) (words (trim_cr line))
parse_inline-line line rest clean h =
    let input = line ++ (lf ∷ rest) in
    let room : length line < scan_limit input = ground (arith, length-append line (lf ∷ rest)) in
    let at : 0 + length line ≡ length line = omega arith in
    parse_inline-eq input
    ∙ ap (parse_line input)
        (find_newline-line (scan_limit input) line rest 0 clean room ∙ ap some at)
    ∙ parse_line-some input (length line)
    ∙ ap (λ l. inline_args (length line) (tokenize (length l + 1) l 0)) (take-line_end line rest)
    ∙ ap (inline_args (length line)) (tokenize_lem (trim_cr line))
    ∙ inline_args_lem (length line) (words (trim_cr line))
