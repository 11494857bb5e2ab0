-- ===== src/Glob/Matching.antt =====
-- src/command.c: what the patterns of `glob_match` mean, byte by byte.
use redis_in_c.Prelude.{
  ℕ, ◌≡◌, ◌≢◌, ◌⊎◌, inl, inr, refl, arith, Bool, true, false, not, ◌||◌, ◌==◌, if◌then◌else◌, Bytes,
  Option, none, some, [], ◌∷◌,
}
use redis_in_c.Glob.{backslash}

-- A class: whether it is negated, the bytes that it lists, and the pattern behind its `]`.
pub record Class : Type 0 where
  pub negated : Bool
  pub listed : Bytes
  pub rest : Bytes

abbrev pub list_byte : ℕ → Option (Bytes × Bytes) → Option (Bytes × Bytes)
list_byte c none = none
list_byte c (some (cs, rest)) = some (c ∷ cs, rest)

-- The bytes up to the first `]` that is not escaped, and the pattern behind it.
unfoldable pub listing : Bytes → Option (Bytes × Bytes)
listing [] = none
listing (c ∷ []) = if c == b']' then some ([], []) else none
listing (c ∷ d ∷ p) =
    let escaped = listing p in
    let plain = listing (d ∷ p) in
    if c == b']'
    then some ([], d ∷ p)
    else if c == backslash
    then list_byte d escaped
    else list_byte c plain

abbrev pub class_with : Bool → Option (Bytes × Bytes) → Option Class
class_with negated none = none
class_with negated (some (listed, rest)) =
    some (record { negated = negated; listed = listed; rest = rest })

-- The class whose `[` stands in front of the pattern; `none` where its `]` is missing.
unfoldable pub class_of : Bytes → Option Class
class_of [] = none
class_of (c ∷ p) =
    if c == b'^' || c == b'!'
    then class_with true (listing p)
    else class_with false (listing (c ∷ p))

abbrev pub is_listed : ℕ → Bytes → Bool
is_listed d [] = false
is_listed d (c ∷ cs) = c == d || is_listed d cs

abbrev pub accepts : Class → ℕ → Bool
accepts k d = if k.negated then not (is_listed d k.listed) else is_listed d k.listed

-- A byte of a pattern that stands for itself; a backslash does so at the end of the pattern.
abbrev pub IsPlain : ℕ → Bytes → Type 0
IsPlain c p = (c ≢ b'*') × (c ≢ b'?') × (c ≢ b'[') × ((c ≢ backslash) ⊎ (p ≡ []))

-- The pattern matches the whole string.
pub data Matches : Bytes → Bytes → Type 0 where
  done : Matches [] []
  leave : {c : ℕ} {p s : Bytes} → c ≡ b'*' → Matches p s → Matches (c ∷ p) s
  take : {c d : ℕ} {p s : Bytes} → c ≡ b'*' → Matches (c ∷ p) s → Matches (c ∷ p) (d ∷ s)
  any : {c d : ℕ} {p s : Bytes} → c ≡ b'?' → Matches p s → Matches (c ∷ p) (d ∷ s)
  class :
      {c d : ℕ} {p s : Bytes} {k : Class}
      → c ≡ b'['
      → class_of p ≡ some k
      → accepts k d ≡ true
      → Matches k.rest s
      → Matches (c ∷ p) (d ∷ s)
  quoted : {c d : ℕ} {p s : Bytes} → c ≡ backslash → Matches p s → Matches (c ∷ d ∷ p) (d ∷ s)
  literal : {c : ℕ} {p s : Bytes} → IsPlain c p → Matches p s → Matches (c ∷ p) (c ∷ s)

-- Only a star matches the empty string.
pub nil_inv : {c : ℕ} {p : Bytes} → Matches (c ∷ p) [] → c ≡ b'*'
nil_inv (leave e m) = e

pub any_inv : {c d : ℕ} {p s : Bytes} → c ≡ b'?' → Matches (c ∷ p) (d ∷ s) → Matches p s
any_inv h (leave e m) = absurd (omega arith)
any_inv h (take e m) = absurd (omega arith)
any_inv h (any e m) = m
any_inv h (class e k a m) = absurd (omega arith)
any_inv h (quoted e m) = absurd (omega arith)
any_inv h (literal i m) = absurd (i.1 h)

pub class_inv :
    {c d : ℕ} {p s : Bytes}
    → c ≡ b'['
    → Matches (c ∷ p) (d ∷ s)
    → (k : Class) × (class_of p ≡ some k) × (accepts k d ≡ true) × Matches k.rest s
class_inv h (leave e m) = absurd (omega arith)
class_inv h (take e m) = absurd (omega arith)
class_inv h (any e m) = absurd (omega arith)
class_inv h (class {k = k} e is a m) = (k, is, a, m)
class_inv h (quoted e m) = absurd (omega arith)
class_inv h (literal i m) = absurd (i.2 h)

pub quoted_inv :
    {c b d : ℕ} {p s : Bytes} → c ≡ backslash → Matches (c ∷ b ∷ p) (d ∷ s) → (b ≡ d) × Matches p s
quoted_inv h (leave e m) = absurd (omega arith)
quoted_inv h (take e m) = absurd (omega arith)
quoted_inv h (any e m) = absurd (omega arith)
quoted_inv h (class e k a m) = absurd (omega arith)
quoted_inv h (quoted e m) = (refl, m)
quoted_inv h (literal (s, q, b, inl n) m) = absurd (n h)
quoted_inv h (literal (s, q, b, inr n) m) = cc

pub literal_inv :
    {c d : ℕ} {p s : Bytes} → IsPlain c p → Matches (c ∷ p) (d ∷ s) → (c ≡ d) × Matches p s
literal_inv h (leave e m) = absurd (h.0 e)
literal_inv h (take e m) = absurd (h.0 e)
literal_inv h (any e m) = absurd (h.1 e)
literal_inv h (class e k a m) = absurd (h.2 e)
literal_inv (s, q, b, inl n) (quoted e m) = absurd (n e)
literal_inv (s, q, b, inr n) (quoted e m) = cc
literal_inv h (literal i m) = (refl, m)

-- The string has a suffix with the property.
abbrev pub AtSuffix : (Bytes → Type 0) → Bytes → Type 0
AtSuffix Q [] = Q []
AtSuffix Q (d ∷ s) = Q (d ∷ s) ⊎ AtSuffix Q s

-- A star matches exactly what ends in a match of the rest of the pattern.
pub star_intro : (c : ℕ) (p s : Bytes) → c ≡ b'*' → AtSuffix (Matches p) s → Matches (c ∷ p) s
star_intro c p [] h m = leave h m
star_intro c p (d ∷ s) h (inl m) = leave h m
star_intro c p (d ∷ s) h (inr m) = take h (star_intro c p s h m)

at_whole : (p s : Bytes) → Matches p s → AtSuffix (Matches p) s
at_whole p [] m = m
at_whole p (d ∷ s) m = inl m

pub star_inv : {c : ℕ} {p s : Bytes} → c ≡ b'*' → Matches (c ∷ p) s → AtSuffix (Matches p) s
star_inv {p = p} {s = s} h (leave e m) = at_whole p s m
star_inv h (take e m) = inr (star_inv e m)
star_inv h (any e m) = absurd (omega arith)
star_inv h (class e k a m) = absurd (omega arith)
star_inv h (quoted e m) = absurd (omega arith)
star_inv h (literal i m) = absurd (i.0 h)
