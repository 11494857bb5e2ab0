-- ===== src/Resp/Splitting.antt =====
-- src/resp.c: the tokenizer of `parse_inline` splits a line into its words.
use redis_in_c.Prelude.{
  ℕ, zero, suc, ◌+◌, ◌≤◌, ◌<◌, ◌≡◌, refl, ◌∙◌, ap, arith, true, false, Bool-cases, inl, inr, Bytes,
  List, [], ◌∷◌, length, leb, if◌then◌else◌,
}
use redis_in_c.Resp.Outcome.{max_argc}
use redis_in_c.Resp.Inline.{
  Tokens, tokens, too_many, cons_token, is_blank, skip_blanks, token, after_token, next_token,
  tokenize,
}

-- `c` in front of the words of `s`: it begins a word of its own before a blank.
abbrev pub attach : ℕ → Bytes → List Bytes → List Bytes
attach c [] ws = (c ∷ []) ∷ ws
attach c (d ∷ s) [] = (c ∷ []) ∷ []
attach c (d ∷ s) (w ∷ ws) = if is_blank d then (c ∷ []) ∷ w ∷ ws else (c ∷ w) ∷ ws

-- The words of a line: its longest runs of bytes that are not blank.
unfoldable pub words : Bytes → List Bytes
words [] = []
words (c ∷ s) = let ws = words s in if is_blank c then ws else attach c s ws

-- The word list, as far as it is within the limit on arguments.
pub limited : ℕ → List Bytes → Tokens
limited argc [] = tokens []
limited argc (w ∷ ws) =
    let rest = limited (argc + 1) ws in if leb max_argc argc then too_many else cons_token w rest

pub words-blank : (c : ℕ) (s : Bytes) → is_blank c ≡ true → words (c ∷ s) ≡ words s
unfolding words
words-blank c s t = rw t

pub words-cons : (c : ℕ) (s : Bytes) → is_blank c ≡ false → words (c ∷ s) ≡ attach c s (words s)
unfolding words
words-cons c s f = rw f

token_cons :
    (c : ℕ) (s : Bytes)
    → is_blank c ≡ false
    → (token (c ∷ s) ≡ c ∷ token s) × (after_token (c ∷ s) ≡ after_token s)
unfolding token after_token
token_cons c s f = rw f (refl, refl)

token_blank :
    (c : ℕ) (s : Bytes) → is_blank c ≡ true → (token (c ∷ s) ≡ []) × (after_token (c ∷ s) ≡ c ∷ s)
unfolding token after_token
token_blank c s t = rw t (refl, refl)

skip_blanks-cons :
    (c : ℕ) (s : Bytes) → skip_blanks (c ∷ s) ≡ (if is_blank c then skip_blanks s else c ∷ s)
unfolding skip_blanks
skip_blanks-cons c s = refl

words-skip_blanks : (s : Bytes) → words (skip_blanks s) ≡ words s
words-skip_blanks [] = unfold skip_blanks in refl
words-skip_blanks (c ∷ s) = elim (Bool-cases (is_blank c)) [
  | inl t ↦ rw (skip_blanks-cons, t, words-blank c s t) (words-skip_blanks s)
  | inr f ↦ rw (skip_blanks-cons, f)
]

length-skip_blanks-le : (s : Bytes) → length (skip_blanks s) ≤ length s
unfolding skip_blanks
length-skip_blanks-le [] = omega arith
length-skip_blanks-le (c ∷ s) = ground (arith, length-skip_blanks-le s)

length-after_token-le : (s : Bytes) → length (after_token s) ≤ length s
unfolding after_token
length-after_token-le [] = omega arith
length-after_token-le (c ∷ s) = ground (arith, length-after_token-le s)

skip_blanks_head : (s : Bytes) (c : ℕ) (r : Bytes) → skip_blanks s ≡ c ∷ r → is_blank c ≡ false
unfolding skip_blanks
skip_blanks_head [] c r e = cc
skip_blanks_head (d ∷ s) c r e = ground (arith, skip_blanks_head s c r)

token_nil : (token [] ≡ []) × (after_token [] ≡ [])
unfolding token after_token
token_nil = (refl, refl)

attach-blank :
    (c d : ℕ) (s : Bytes) (ws : List Bytes)
    → is_blank d ≡ true
    → attach c (d ∷ s) ws ≡ (c ∷ []) ∷ ws
attach-blank c d s [] t = refl
attach-blank c d s (w ∷ ws) t = rw t

attach-word :
    (c d : ℕ) (s w : Bytes) (ws : List Bytes)
    → is_blank d ≡ false
    → attach c (d ∷ s) (w ∷ ws) ≡ (c ∷ w) ∷ ws
attach-word c d s w ws f = rw f

words-token :
    (c : ℕ) (s : Bytes)
    → is_blank c ≡ false
    → words (c ∷ s) ≡ token (c ∷ s) ∷ words (after_token (c ∷ s))
words-token c [] f =
    rw (words-cons c [] f, (token_cons c [] f).0, (token_cons c [] f).1, token_nil.0, token_nil.1)
words-token c (d ∷ s) f = elim (Bool-cases (is_blank d)) [
  | inl t ↦
      rw
        (
          words-cons c (d ∷ s) f,
          (token_cons c (d ∷ s) f).0,
          (token_cons c (d ∷ s) f).1,
          (token_blank d s t).0,
          (token_blank d s t).1,
        )
        (attach-blank c d s (words (d ∷ s)) t)
  | inr g ↦
      rw
        (
          words-cons c (d ∷ s) f,
          (token_cons c (d ∷ s) f).0,
          (token_cons c (d ∷ s) f).1,
          words-token d s g,
        )
        (attach-word c d s (token (d ∷ s)) (words (after_token (d ∷ s))) g)
]

-- The rest behind a word is shorter.
after_token-lt : (c : ℕ) (s : Bytes) → is_blank c ≡ false → length (after_token (c ∷ s)) ≤ length s
after_token-lt c s f = rw (token_cons c s f).1 (length-after_token-le s)

next_token-limited :
    (loop : Bytes → ℕ → Tokens) (s : Bytes) (argc : ℕ)
    → ((c : ℕ) (r : Bytes) → s ≡ c ∷ r → is_blank c ≡ false)
    → ((r : Bytes) (n : ℕ) → length r < length s → loop r n ≡ limited n (words r))
    → next_token loop s argc ≡ limited argc (words s)
unfolding next_token
next_token-limited loop [] argc head ih = unfold words limited in refl
next_token-limited loop (c ∷ s) argc head ih =
    let f = head c s refl in
    let shorter : length (after_token (c ∷ s)) < length (c ∷ s) =
      omega (arith, after_token-lt c s f) in
    rw (words-token c s f, ih (after_token (c ∷ s)) (argc + 1) shorter) (unfold limited in refl)

tokenize-suc :
    (fuel : ℕ) (s : Bytes) (argc : ℕ)
    → tokenize (suc fuel) s argc ≡ next_token (tokenize fuel) (skip_blanks s) argc
unfolding tokenize
tokenize-suc fuel s argc = refl

tokenize_round :
    (fuel : ℕ) (s : Bytes) (argc : ℕ)
    → ((r : Bytes) (n : ℕ)
        → length r < length (skip_blanks s)
        → tokenize fuel r n ≡ limited n (words r))
    → tokenize (suc fuel) s argc ≡ limited argc (words s)
tokenize_round fuel s argc later =
    tokenize-suc fuel s argc
    ∙ next_token-limited (tokenize fuel) (skip_blanks s) argc (skip_blanks_head s) later
    ∙ ap (limited argc) (words-skip_blanks s)

tokenize-limited :
    (fuel : ℕ) (s : Bytes) (argc : ℕ)
    → length s ≤ fuel
    → tokenize (suc fuel) s argc ≡ limited argc (words s)
tokenize-limited zero s argc h =
    tokenize_round zero s argc (λ r n lt. absurd (omega (arith, length-skip_blanks-le s)))
tokenize-limited (suc fuel) s argc h =
    tokenize_round (suc fuel) s argc
      (λ r n lt. tokenize-limited fuel r n (omega (arith, length-skip_blanks-le s)))

limited_lem :
    (argc : ℕ) (ws : List Bytes)
    → argc ≤ max_argc
    → limited argc ws ≡ (if leb (argc + length ws) max_argc then tokens ws else too_many)
unfolding limited
limited_lem argc [] h = let t : leb (argc + 0) max_argc ≡ true = ground arith in rw t
limited_lem argc (w ∷ ws) h = ground (arith, limited_lem (argc + 1) ws)

-- The tokenizer of parse_inline, with its fuel, returns the maximal runs of non-blank bytes of
-- the line, and gives up exactly where there are more than 32 of them.
pub tokenize_lem :
    (line : Bytes)
    → tokenize (length line + 1) line 0
      ≡ (if leb (length (words line)) max_argc then tokens (words line) else too_many)
tokenize_lem line =
    let fuel : length line + 1 ≡ suc (length line) = omega arith in
    let count : 0 + length (words line) ≡ length (words line) = omega arith in
    ap (λ f. tokenize f line 0) fuel
    ∙ tokenize-limited (length line) line 0 (omega arith)
    ∙ limited_lem 0 (words line) (omega arith)
    ∙ ap (λ n. if leb n max_argc then tokens (words line) else too_many) count
