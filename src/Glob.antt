-- ===== src/Glob.antt =====
-- src/command.c: `glob_match`. A pattern and a string are lists of bytes.
pub mod Matching
pub mod Parts
pub mod Decision
mod Tests
use redis_in_c.Prelude.{
  ℕ, zero, suc, Bool, true, false, not, ◌&&◌, ◌||◌, ◌==◌, if◌then◌else◌, Bytes, Option, none, some,
  [], ◌∷◌, length,
}

abbrev pub backslash : ℕ
backslash = 92

-- Collapses a run of stars behind a star.
unfoldable pub skip_stars : Bytes → Bytes
skip_stars [] = []
skip_stars (c ∷ p) = if c == b'*' then skip_stars p else c ∷ p

-- `for (k = 0; k <= slen; ++k)`: some suffix of the string matches.
unfoldable pub any_suffix : (Bytes → Bool) → Bytes → Bool
any_suffix m [] = m []
any_suffix m (c ∷ s) = m (c ∷ s) || any_suffix m s

-- The branch of `*`; `p` is what follows the run of stars.
unfoldable pub star : (Bytes → Bytes → Bool) → Bytes → Bytes → Bool
unfolding any_suffix
star loop [] str = true
star loop (c ∷ p) str = any_suffix (loop (c ∷ p)) str

-- `slen > 0 && c == str[0]`
unfoldable pub hits : ℕ → Bytes → Bool
hits c [] = false
hits c (d ∷ s) = c == d

-- The loop over a class: whether a listed byte was hit, and the pattern behind the `]`; `none` for
-- a class without its `]`.
unfoldable pub class_loop : Bytes → Bytes → Bool → Option (Bool × Bytes)
class_loop [] str matched = none
class_loop (c ∷ []) str matched = if c == b']' then some (matched, []) else none
class_loop (c ∷ d ∷ p) str matched =
    let escaped = class_loop p str (matched || hits d str) in
    let plain = class_loop (d ∷ p) str (matched || hits c str) in
    if c == b']' then some (matched, d ∷ p) else if c == backslash then escaped else plain

-- The end of the branch of `[`.
unfoldable pub class_end : (Bytes → Bytes → Bool) → Bool → Option (Bool × Bytes) → Bytes → Bool
class_end loop negate none str = false
class_end loop negate (some (matched, p)) [] = false
class_end loop negate (some (matched, p)) (d ∷ s) =
    if (if negate then not matched else matched) then loop p s else false

unfoldable pub class : (Bytes → Bytes → Bool) → Bytes → Bytes → Bool
class loop [] str = class_end loop false (class_loop [] str false) str
class loop (c ∷ p) str =
    if c == b'^' || c == b'!'
    then class_end loop true (class_loop p str false) str
    else class_end loop false (class_loop (c ∷ p) str false) str

unfoldable pub any_byte : (Bytes → Bytes → Bool) → Bytes → Bytes → Bool
any_byte loop p [] = false
any_byte loop p (d ∷ s) = loop p s

unfoldable pub literal : (Bytes → Bytes → Bool) → ℕ → Bytes → Bytes → Bool
literal loop pc p [] = false
literal loop pc p (d ∷ s) = if pc == d then loop p s else false

-- The last branches: an escape with a byte behind it, and a byte that stands for itself.
unfoldable pub plain_byte : (Bytes → Bytes → Bool) → ℕ → Bytes → Bytes → Bool
unfolding literal
plain_byte loop pc [] str = literal loop pc [] str
plain_byte loop pc (c ∷ p) str =
    if pc == backslash then literal loop c p str else literal loop pc (c ∷ p) str

unfoldable pub is_empty : Bytes → Bool
is_empty [] = true
is_empty (d ∷ s) = false

-- A round of the loop, with the function for the rounds and calls that follow.
unfoldable pub round : (Bytes → Bytes → Bool) → ℕ → Bytes → Bytes → Bool
unfolding skip_stars star class class_end class_loop hits any_byte plain_byte
round loop pc p str =
    if pc == b'*'
    then star loop (skip_stars p) str
    else if pc == b'?'
    then any_byte loop p str
    else if pc == b'['
    then class loop p str
    else plain_byte loop pc p str

-- A round takes a byte of the pattern at least, so its length is enough fuel.
unfoldable pub glob_loop : ℕ → Bytes → Bytes → Bool
unfolding round is_empty
glob_loop fuel [] str = is_empty str
glob_loop zero (pc ∷ p) str = false
glob_loop (suc fuel) (pc ∷ p) str = round (glob_loop fuel) pc p str

unfoldable pub glob_match : Bytes → Bytes → Bool
unfolding glob_loop
glob_match pat str = glob_loop (length pat) pat str
