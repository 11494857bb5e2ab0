-- ===== src/Decimal/Parse.antt =====
-- src/command.c: exactly which texts `parse_int64` accepts, and the round trip with `%PRId64`.
use redis_in_c.Prelude.{
  ℕ, zero, suc, ◌+◌, ◌-◌, ◌*◌, ◌≤◌, ◌≡◌, ◌≢◌, ◌⊎◌, ◌↔◌, refl, ◌∙◌, sym, ap, subst, arith, Bool,
  true, false, Bool-cases, Option-cases, inl, inr, Bytes, Option, none, some, [], ◌∷◌, leb, ==_iff,
  ◌==◌, if◌then◌else◌, All,
}
use redis_in_c.Prelude.Int.{ℤ, pos, negsuc}
use redis_in_c.Decimal.{
  print_nat, print_int, signed, scan_digits, scan_signed, scan_negative, parse_int64,
}
use redis_in_c.Decimal.Print.{IsDigit, value, value-print_nat, All-print_nat, print_nat-ne-nil}

-- The largest magnitude that the overflow guard lets through. `INT64_MAX` is 8 more.
abbrev pub max_parsed : ℕ
max_parsed = 9223372036854775799

pub le-value : (s : Bytes) (v : ℕ) → v ≤ value v s
le-value [] v = omega arith
le-value (c ∷ s) v = omega (arith, le-value s (v * 10 + (c - b'0')))

pub scan_digits_sound :
    (s : Bytes) (v r : ℕ)
    → v ≤ max_parsed
    → scan_digits s v ≡ some r
    → All IsDigit s × (r ≡ value v s) × (r ≤ max_parsed)
unfolding scan_digits
scan_digits_sound [] v r fits h = ground arith
scan_digits_sound (c ∷ s) v r fits h = ground (arith, scan_digits_sound s (v * 10 + (c - b'0')) r)

pub scan_digits_complete :
    (s : Bytes) (v : ℕ)
    → All IsDigit s
    → value v s ≤ max_parsed
    → scan_digits s v ≡ some (value v s)
unfolding scan_digits
scan_digits_complete [] v d fits = refl
scan_digits_complete (c ∷ s) v (d, ds) fits =
    let v' = v * 10 + (c - b'0') in ground (arith, scan_digits_complete s v' ds fits, le-value s v')

abbrev pub magnitude : ℤ → ℕ
magnitude (pos n) = n
magnitude (negsuc n) = suc n

magnitude-signed : (b : Bool) (n : ℕ) → magnitude (signed b n) ≡ n
magnitude-signed true zero = refl
magnitude-signed true (suc n) = refl
magnitude-signed false n = refl

-- The text is `-?[0-9]+`, and denotes the number.
abbrev pub Denotes : Bytes → ℤ → Type 0
Denotes [] z = ⊥
Denotes (c ∷ s) z =
    (All IsDigit (c ∷ s) × (z ≡ signed false (value 0 (c ∷ s))))
    ⊎ ((c ≡ b'-') × (s ≢ []) × All IsDigit s × (z ≡ signed true (value 0 s)))

scan_signed_sound :
    (b : Bool) (s : Bytes) (z : ℤ)
    → scan_signed b s ≡ some z
    → All IsDigit s × (z ≡ signed b (value 0 s)) × (magnitude z ≤ max_parsed)
scan_signed_sound b s z h = elim (Option-cases (scan_digits s 0)) [
  | inl e ↦ cc (rw (e, scan_signed) at h)
  | inr (r, e) ↦
      let (ds, exact, fits) = scan_digits_sound s 0 r (omega arith) e in
      let is : z ≡ signed b r = ground arith in
      (ds, is ∙ ap (signed b) exact, rw (is, magnitude-signed b r) fits)
]

scan_signed_complete :
    (b : Bool) (s : Bytes)
    → All IsDigit s
    → value 0 s ≤ max_parsed
    → scan_signed b s ≡ some (signed b (value 0 s))
scan_signed_complete b s ds fits = rw (scan_digits_complete s 0 ds fits, scan_signed)

-- What `parse_int64` accepts denotes the number that it returns, and is within the guard.
pub parse_int64_sound :
    (s : Bytes) (z : ℤ) → parse_int64 s ≡ some z → Denotes s z × (magnitude z ≤ max_parsed)
unfolding parse_int64
parse_int64_sound [] z h = cc
parse_int64_sound (c ∷ s) z h = elim (Bool-cases (c == b'-')) [
  | inr f ↦
      let (ds, is, fits) = scan_signed_sound false (c ∷ s) z (rw f at h) in (inl (ds, is), fits)
  | inl t ↦ minus ((==_iff c b'-').0 t) s (rw t at h)
]
  where
    minus :
        c ≡ b'-'
        → (s : Bytes) → scan_negative s ≡ some z
        → Denotes (c ∷ s) z × (magnitude z ≤ max_parsed)
    minus m [] k = cc
    minus m (d ∷ s) k =
        let (ds, is, fits) = scan_signed_sound true (d ∷ s) z k in (inr (m, λ e. cc, ds, is), fits)

-- `parse_int64` accepts every text that denotes a number within the guard.
pub parse_int64_complete :
    (s : Bytes) (z : ℤ) → Denotes s z → magnitude z ≤ max_parsed → parse_int64 s ≡ some z
unfolding parse_int64
parse_int64_complete [] z d fits = absurd d
parse_int64_complete (c ∷ s) z (inl (ds, is)) fits =
    let f : c == b'-' ≡ false = ground arith in
    rw f (
      scan_signed_complete false (c ∷ s) ds
        (omega (arith, ap magnitude is, magnitude-signed false (value 0 (c ∷ s))))
      ∙ ap some (sym is))
parse_int64_complete (c ∷ []) z (inr (e, ne, ds, is)) fits = absurd (ne refl)
parse_int64_complete (c ∷ d ∷ s) z (inr (e, ne, ds, is)) fits =
    let t : c == b'-' ≡ true = ground arith in
    rw t (
      scan_signed_complete true (d ∷ s) ds
        (omega (arith, ap magnitude is, magnitude-signed true (value 0 (d ∷ s))))
      ∙ ap some (sym is))

-- parse_int64 accepts exactly the texts of an optional minus and at least one digit whose
-- magnitude is at most 9223372036854775799, and returns the number that they denote.
pub parse_int64_iff :
    (s : Bytes) (z : ℤ) → (parse_int64 s ≡ some z) ↔ (Denotes s z × (magnitude z ≤ max_parsed))
parse_int64_iff s z = (parse_int64_sound s z, λ d. parse_int64_complete s z d.0 d.1)

value-print : (n : ℕ) (b : Bool) → signed b (value 0 (print_nat n)) ≡ signed b n
value-print n b = ap (signed b) (value-print_nat n)

Denotes-digits : (s : Bytes) → s ≢ [] → All IsDigit s → Denotes s (signed false (value 0 s))
Denotes-digits [] ne ds = absurd (ne refl)
Denotes-digits (c ∷ s) ne ds = inl (ds, refl)

-- The text that is stored for a number denotes it.
pub Denotes-print_int : (z : ℤ) → Denotes (print_int z) z
unfolding print_int
Denotes-print_int (pos n) =
    subst (Denotes (print_nat n)) (value-print n false)
      (Denotes-digits (print_nat n) (print_nat-ne-nil n) (All-print_nat n))
Denotes-print_int (negsuc n) =
    inr (refl, print_nat-ne-nil (suc n), All-print_nat (suc n), sym (value-print (suc n) true))

-- A text denotes one number.
pub Denotes-unique : (s : Bytes) (y z : ℤ) → Denotes s y → Denotes s z → y ≡ z
Denotes-unique [] y z d e = absurd d
Denotes-unique (c ∷ s) y z (inl d) (inl e) = d.1 ∙ sym e.1
Denotes-unique (c ∷ s) y z (inl d) (inr e) = absurd (omega arith)
Denotes-unique (c ∷ s) y z (inr d) (inl e) = absurd (omega arith)
Denotes-unique (c ∷ s) y z (inr d) (inr e) = d.3 ∙ sym e.3

-- parse_int64 reads the printed text of a number back when its magnitude is at most
-- 9223372036854775799, and refuses it otherwise.
pub parse_int64-print_int :
    (z : ℤ) → parse_int64 (print_int z) ≡ (if leb (magnitude z) max_parsed then some z else none)
parse_int64-print_int z = elim (Bool-cases (leb (magnitude z) max_parsed)) [
  | inl t ↦ rw t (parse_int64_complete (print_int z) z (Denotes-print_int z) (ground arith))
  | inr f ↦ rw f (refused f (parse_int64 (print_int z)) refl)
]
  where
    refused :
        leb (magnitude z) max_parsed ≡ false
        → (o : Option ℤ) → parse_int64 (print_int z) ≡ o
        → o ≡ none
    refused f none e = refl
    refused f (some y) e =
        let (d, fits) = parse_int64_sound (print_int z) y e in
        let same : y ≡ z = Denotes-unique (print_int z) y z d (Denotes-print_int z) in
        let small : magnitude z ≤ max_parsed = rw same at fits in absurd (ground (arith, f, small))
