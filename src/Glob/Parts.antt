-- ===== src/Glob/Parts.antt =====
-- src/command.c: the stars and the classes of `glob_match`, each against its meaning.
use redis_in_c.Prelude.{
  ℕ, ◌≤◌, ◌≡◌, ◌↔◌, inl, inr, refl, arith, Bool, true, false, ◌||◌, ◌==◌, Bool-cases, Option-cases,
  Bytes, Option, none, some, [], ◌∷◌, length,
}
use redis_in_c.Glob.{skip_stars, any_suffix, class_loop, class_end, class, hits}
use redis_in_c.Glob.Matching.{
  Class, list_byte, listing, is_listed, accepts, Matches, done, leave, take, AtSuffix, star_inv,
}

pub length-skip_stars-le : (p : Bytes) → length (skip_stars p) ≤ length p
unfolding skip_stars
length-skip_stars-le [] = omega arith
length-skip_stars-le (c ∷ p) = ground (arith, length-skip_stars-le p)

-- One star has the meaning of a run of stars.
pub skip_stars_lem :
    (c : ℕ) (p s : Bytes) → c ≡ b'*' → Matches (c ∷ skip_stars p) s ↔ Matches (c ∷ p) s
unfolding skip_stars
skip_stars_lem c [] s h = (λ m. m, λ m. m)
skip_stars_lem c (d ∷ p) s h = elim (Bool-cases (d == b'*')) [
  | inr f ↦ rw f (λ m. m, λ m. m)
  | inl t ↦
      let e : d ≡ b'*' = ground arith in
      let ih = skip_stars_lem d p s e in
      let same : c ≡ d = omega arith in
      rw (t, same) (λ m. leave e (ih.0 m), λ m. ih.1 (merge d p s e (star_inv e m)))
]
  where
    merge : (d : ℕ) (p s : Bytes) → d ≡ b'*' → AtSuffix (Matches (d ∷ p)) s → Matches (d ∷ p) s
    merge d p [] e m = m
    merge d p (b ∷ s) e (inl m) = m
    merge d p (b ∷ s) e (inr m) = take e (merge d p s e m)

-- What is left over where the pattern is a star alone.
pub star_all : (c : ℕ) (s : Bytes) → c ≡ b'*' → Matches (c ∷ []) s
star_all c [] h = leave h done
star_all c (d ∷ s) h = take h (star_all c s h)

pub any_suffix_iff :
    (m : Bytes → Bool) (Q : Bytes → Type 0) (s : Bytes)
    → ((t : Bytes) → (m t ≡ true) ↔ Q t)
    → (any_suffix m s ≡ true) ↔ AtSuffix Q s
unfolding any_suffix
any_suffix_iff m Q [] h = h []
any_suffix_iff m Q (d ∷ s) h =
    let ih = any_suffix_iff m Q s h in
    let here = h (d ∷ s) in
    elim (Bool-cases (m (d ∷ s))) [
      | inl t ↦ rw t (λ e. inl (here.0 t), λ q. refl)
      | inr f ↦
          rw f
            (λ e. inr (ih.0 e), λ q. elim q [ inl q ↦ absurd (ne f (here.1 q)) | inr q ↦ ih.1 q ])
    ]
  where
    ne : {b : Bool} → b ≡ false → b ≡ true → ⊥
    ne e k = cc

-- The loop over a class, for a byte that is there, tests whether the byte is listed.
abbrev pub tested : ℕ → Bool → Option (Bytes × Bytes) → Option (Bool × Bytes)
tested d matched none = none
tested d matched (some (cs, rest)) = some (matched || is_listed d cs, rest)

pub class_loop_lem :
    (p : Bytes) (d : ℕ) (s : Bytes) (matched : Bool)
    → class_loop p (d ∷ s) matched ≡ tested d matched (listing p)
unfolding class_loop listing hits
class_loop_lem [] d s matched = refl
class_loop_lem (c ∷ []) d s matched = ground arith
class_loop_lem (c ∷ b ∷ p) d s matched =
    let escaped = class_loop_lem p d s (matched || (b == d)) in
    let plain = class_loop_lem (b ∷ p) d s (matched || (c == d)) in
    rw (escaped, plain) (ground (arith, Option-cases (listing p), Option-cases (listing (b ∷ p))))

-- What is behind a class is no longer than the pattern.
abbrev pub rest_len : Option (Bytes × Bytes) → ℕ
rest_len none = 0
rest_len (some (cs, rest)) = length rest

rest_len-list_byte : (c : ℕ) (o : Option (Bytes × Bytes)) → rest_len (list_byte c o) ≡ rest_len o
rest_len-list_byte c none = refl
rest_len-list_byte c (some (cs, rest)) = refl

pub rest_len-listing : (p : Bytes) → rest_len (listing p) ≤ length p
unfolding listing
rest_len-listing [] = omega arith
rest_len-listing (c ∷ []) = ground arith
rest_len-listing (c ∷ b ∷ p) = ground (
  arith,
  rest_len-listing p,
  rest_len-listing (b ∷ p),
  rest_len-list_byte b (listing p),
  rest_len-list_byte c (listing (b ∷ p)),
)

-- The byte `d` is in the class in front of the pattern, and the rest matches.
abbrev pub InClass : Option Class → ℕ → Bytes → Type 0
InClass o d s = (k : Class) × (o ≡ some k) × (accepts k d ≡ true) × Matches k.rest s

pub class_nil : (loop : Bytes → Bytes → Bool) (p : Bytes) → class loop p [] ≡ false
unfolding class class_end
class_nil loop [] = unfold class_loop in refl
class_nil loop (c ∷ p) =
    ground (arith, Option-cases (class_loop p [] false), Option-cases (class_loop (c ∷ p) [] false))
