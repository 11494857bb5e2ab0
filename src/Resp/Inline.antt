-- ===== src/Resp/Inline.antt =====
-- src/resp.c: `parse_inline`.
use redis_in_c.Prelude.{
  ℕ, zero, suc, ◌+◌, ◌-◌, Bool, ◌&&◌, ◌||◌, ltb, leb, ◌==◌, if◌then◌else◌, Bytes, Option, none,
  some, List, [], ◌∷◌, length, get_or, take, cr, lf,
}
use redis_in_c.Resp.Outcome.{
  Outcome, parsed, need_more, protocol_err, Request, max_argc, max_inline_len,
}

-- `for (i = 0; i < scan_limit; ++i)`, with the rounds left; `none` is the sentinel.
unfoldable pub find_newline : ℕ → Bytes → ℕ → Option ℕ
find_newline zero p i = none
find_newline (suc rounds) [] i = none
find_newline (suc rounds) (c ∷ p) i = if c == lf then some i else find_newline rounds p (i + 1)

abbrev pub is_blank : ℕ → Bool
is_blank c = c == b' ' || c == 9

unfoldable pub skip_blanks : Bytes → Bytes
skip_blanks [] = []
skip_blanks (c ∷ s) = if is_blank c then skip_blanks s else c ∷ s

-- The bytes up to the next blank, and those from there on.
unfoldable pub token : Bytes → Bytes
token [] = []
token (c ∷ s) = if is_blank c then [] else c ∷ token s

unfoldable pub after_token : Bytes → Bytes
after_token [] = []
after_token (c ∷ s) = if is_blank c then c ∷ s else after_token s

-- How the tokenizer ends. `out_of_fuel` belongs to the model only.
pub data Tokens : Type 0 where
  tokens : List Bytes → Tokens
  too_many : Tokens
  out_of_fuel : Tokens

abbrev pub cons_token : Bytes → Tokens → Tokens
cons_token t (tokens ts) = tokens (t ∷ ts)
cons_token t too_many = too_many
cons_token t out_of_fuel = out_of_fuel

-- One round of the outer loop behind the blanks, with the loop for the rounds that follow.
unfoldable pub next_token : (Bytes → ℕ → Tokens) → Bytes → ℕ → Tokens
next_token loop [] argc = tokens []
next_token loop (c ∷ s) argc =
    if leb max_argc argc
    then too_many
    else cons_token (token (c ∷ s)) (loop (after_token (c ∷ s)) (argc + 1))

unfoldable pub tokenize : ℕ → Bytes → ℕ → Tokens
unfolding next_token
tokenize zero line argc = out_of_fuel
tokenize (suc fuel) line argc = next_token (tokenize fuel) (skip_blanks line) argc

unfoldable pub inline_args : ℕ → Tokens → Outcome Request
inline_args nl (tokens []) = protocol_err
inline_args nl (tokens (t ∷ ts)) = parsed (record { args = t ∷ ts; bytes_consumed = nl + 1 })
inline_args nl too_many = protocol_err
inline_args nl out_of_fuel = protocol_err

-- The end of the line whose newline is at `nl`.
unfoldable pub line_end : Bytes → ℕ → ℕ
line_end input nl = if ltb 0 nl && get_or input (nl - 1) 0 == cr then nl - 1 else nl

-- A round takes a byte at least, so the length of the line is enough fuel.
unfoldable pub parse_line : Bytes → Option ℕ → Outcome Request
parse_line input none = if leb max_inline_len (length input) then protocol_err else need_more
parse_line input (some nl) =
    let line = take (line_end input nl) input in inline_args nl (tokenize (length line + 1) line 0)

unfoldable pub parse_inline : Bytes → Outcome Request
unfolding parse_line
parse_inline input =
    let len = length input in
    let scan_limit = if ltb len max_inline_len then len else max_inline_len in
    parse_line input (find_newline scan_limit input 0)
