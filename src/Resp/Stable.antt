-- ===== src/Resp/Stable.antt =====
-- src/resp.c: a verdict on a multi-bulk request does not change when more bytes arrive.
use redis_in_c.Prelude.{
  ℕ, zero, suc, ◌+◌, ◌-◌, ◌*◌, ◌%◌, ◌≤◌, ◌<◌, ◌≡◌, refl, ◌∙◌, ap, arith, Bool, true, false, not,
  ◌||◌, Bool-cases, inl, inr, Bytes, [], ◌∷◌, ◌++◌, length, length-append, length-drop, ltb, leb,
  ◌==◌, cr, get_or, take, drop, drop-append, take-append, drop-all, size_mod,
}
use redis_in_c.Prelude.Int.{ℤ, pos, pos_part, ltb_ℤ}
use redis_in_c.Decimal.{not_digit, max_before_digit}
use redis_in_c.Resp.Outcome.{
  Outcome, parsed, need_more, protocol_err, ◌>>=◌, max_bulk_len, max_argc,
}
use redis_in_c.Resp.Number.{number_end, number_loop, parse_int_until_crlf}
use redis_in_c.Resp.Bulk.{bulk_frame, bulk_body, parse_bulk, bulks, elements, parse_multi_bulk}

-- The second verdict, given on more bytes, is the first one, unless that was to wait.
abbrev pub Stable {ℓ} : {A : Type ℓ} → Outcome A → Outcome A → Type ℓ
Stable (parsed a) o = o ≡ parsed a
Stable need_more o = Unit
Stable protocol_err o = o ≡ protocol_err

pub Stable-refl {ℓ} : {A : Type ℓ} (o : Outcome A) → Stable o o
Stable-refl (parsed a) = refl
Stable-refl need_more = tt
Stable-refl protocol_err = refl

pub Stable-bind {ℓ κ} :
    {A : Type ℓ} {B : Type κ} (m m' : Outcome A) (f f' : A → Outcome B)
    → Stable m m'
    → ((a : A) → m ≡ parsed a → Stable (f a) (f' a))
    → Stable (m >>= f) (m' >>= f')
Stable-bind (parsed a) m' f f' s k = rw s (k a refl)
Stable-bind need_more m' f f' s k = tt
Stable-bind protocol_err m' f f' s k = rw s

number_end-Stable :
    (p more : Bytes) (i at : ℕ) (b : Bool) (v : ℕ)
    → Stable (number_end p i at b v) (number_end (p ++ more) i at b v)
unfolding number_end
number_end-Stable [] more i at b v = tt
number_end-Stable (c ∷ p) more i at b v = Stable-refl _

number_loop-Stable :
    (p more : Bytes) (i at : ℕ) (b : Bool) (v : ℕ)
    → Stable (number_loop p i at b v) (number_loop (p ++ more) i at b v)
unfolding number_loop
number_loop-Stable [] more i at b v = tt
number_loop-Stable (c ∷ p) more i at b v = elim (Bool-cases (c == cr)) [
  | inl t ↦ rw t (number_end-Stable p more i at b v)
  | inr f ↦ rw f (elim (Bool-cases (not_digit c)) [
    | inl t ↦ rw t
    | inr g ↦ rw g (elim (Bool-cases (ltb max_before_digit v)) [
      | inl t ↦ rw t
      | inr k ↦ rw k (number_loop-Stable p more (i + 1) at b (v * 10 + (c - b'0')))
    ])
  ])
]

parse_int-Stable :
    (p more : Bytes) → Stable (parse_int_until_crlf p) (parse_int_until_crlf (p ++ more))
unfolding parse_int_until_crlf
parse_int-Stable [] more = tt
parse_int-Stable (c ∷ p) more = elim (Bool-cases (c == b'-')) [
  | inl t ↦ rw t (number_loop-Stable p more 1 1 true 0)
  | inr f ↦ rw f (number_loop-Stable (c ∷ p) more 0 0 false 0)
]

pub get_or-append :
    (xs ys : Bytes) (i d : ℕ) → i < length xs → get_or (xs ++ ys) i d ≡ get_or xs i d
get_or-append [] ys i d h = elim h [ ]
get_or-append (x ∷ xs) ys zero d h = refl
get_or-append (x ∷ xs) ys (suc i) d h = get_or-append xs ys i d (omega arith)

bulk_frame-Stable :
    (input more : Bytes) (header body total : ℕ)
    → header + body + 2 ≡ total
    → Stable (bulk_frame input header body total) (bulk_frame (input ++ more) header body total)
unfolding bulk_frame
bulk_frame-Stable input more header body total e = elim (Bool-cases (ltb (length input) total)) [
  | inl t ↦ rw t tt
  | inr f ↦
      let long : total ≤ length input = ground arith in
      let f' : ltb (length (input ++ more)) total ≡ false =
        ground (arith, length-append input more) in
      let slice : take body (drop header (input ++ more)) ≡ take body (drop header input) =
        ap (take body) (drop-append header input more (omega arith))
        ∙ take-append body (drop header input) more (omega (arith, length-drop header input)) in
      rw
        (
          f,
          f',
          slice,
          get_or-append input more (header + body) 0 (omega arith),
          get_or-append input more (header + body + 1) 0 (omega arith),
        )
        (Stable-refl _)
]

bulk_body-Stable :
    (input more : Bytes) (r : ℤ × ℕ) → Stable (bulk_body input r) (bulk_body (input ++ more) r)
unfolding bulk_body
bulk_body-Stable input more (len, used) =
    elim (Bool-cases (ltb_ℤ len (pos 0) || ltb max_bulk_len (pos_part len))) [
      | inl t ↦ rw t
      | inr f ↦
          let total = (1 + used + pos_part len + 2) % size_mod in
          rw f (elim (Bool-cases (ltb total (1 + used))) [
            | inl t ↦ rw t
            | inr g ↦ rw g (
                bulk_frame-Stable input more (1 + used) (pos_part len) total (no_wrap len used f g))
          ])
    ]
  where
    no_wrap :
        (len : ℤ) (used : ℕ)
        → (ltb_ℤ len (pos 0) || ltb max_bulk_len (pos_part len)) ≡ false
        → ltb ((1 + used + pos_part len + 2) % size_mod) (1 + used) ≡ false
        → 1 + used + pos_part len + 2 ≡ (1 + used + pos_part len + 2) % size_mod
    no_wrap len used f g = ground arith

parse_bulk-Stable : (p more : Bytes) → Stable (parse_bulk p) (parse_bulk (p ++ more))
unfolding parse_bulk
parse_bulk-Stable [] more = tt
parse_bulk-Stable (c ∷ p) more = elim (Bool-cases (not (c == b'$'))) [
  | inl t ↦ rw t
  | inr f ↦ rw f (
      Stable-bind (parse_int_until_crlf p) (parse_int_until_crlf (p ++ more)) _ _
        (parse_int-Stable p more) (λ r e. bulk_body-Stable (c ∷ p) more r))
]

parse_bulk_at-Stable :
    (input more : Bytes) (start : ℕ)
    → Stable (parse_bulk (drop start input)) (parse_bulk (drop start (input ++ more)))
parse_bulk_at-Stable input more start = elim (Bool-cases (leb start (length input))) [
  | inl t ↦
      rw (drop-append start input more (ground arith)) (parse_bulk-Stable (drop start input) more)
  | inr f ↦ rw (drop-all start input (ground arith)) (unfold parse_bulk in tt)
]

bulks-Stable :
    (n : ℕ) (input more : Bytes) (start : ℕ)
    → Stable (bulks n input start) (bulks n (input ++ more) start)
unfolding bulks
bulks-Stable zero input more start = refl
bulks-Stable (suc n) input more start =
    Stable-bind (parse_bulk (drop start input)) _ _ _ (parse_bulk_at-Stable input more start) λ r e.
      Stable-bind (bulks n input (start + r.1)) _ _ _ (bulks-Stable n input more (start + r.1))
        λ s e'. refl

elements-Stable :
    (input more : Bytes) (r : ℤ × ℕ) → Stable (elements input r) (elements (input ++ more) r)
unfolding elements
elements-Stable input more (argc, used) =
    elim (Bool-cases (ltb_ℤ argc (pos 1) || ltb max_argc (pos_part argc))) [
      | inl t ↦ rw t
      | inr f ↦ rw f (
          Stable-bind (bulks (pos_part argc) input (1 + used)) _ _ _
            (bulks-Stable (pos_part argc) input more (1 + used)) (λ s e. refl))
    ]

-- A multi-bulk verdict other than NEED_MORE stands, whatever bytes follow.
pub parse_multi_bulk-Stable :
    (c : ℕ) (p more : Bytes)
    → Stable (parse_multi_bulk (c ∷ p)) (parse_multi_bulk ((c ∷ p) ++ more))
unfolding parse_multi_bulk
parse_multi_bulk-Stable c p more =
    Stable-bind (parse_int_until_crlf p) (parse_int_until_crlf (p ++ more)) _ _
      (parse_int-Stable p more) (λ r e. elements-Stable (c ∷ p) more r)
