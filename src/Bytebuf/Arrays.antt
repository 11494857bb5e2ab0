-- ===== src/Bytebuf/Arrays.antt =====
-- src/bytebuf.c: what `memcpy` and `memmove` do to an array.
use redis_in_c.Prelude.{
  ℕ, zero, suc, ◌+◌, ◌≤◌, ◌≡◌, refl, sym, ap, ◌∙◌, append-nil, Bytes, [], ◌∷◌, ◌++◌, length, take,
  drop, arith,
}
use redis_in_c.Bytebuf.{write_at}

pub length-write_at : (d : Bytes) (i : ℕ) (src : Bytes) → length (write_at d i src) ≡ length d
unfolding write_at
length-write_at [] i src = refl
length-write_at (y ∷ d) zero [] = refl
length-write_at (y ∷ d) zero (x ∷ src) = ap suc (length-write_at d zero src)
length-write_at (y ∷ d) (suc i) src = ap suc (length-write_at d i src)

zero-add : (j : ℕ) → 0 + j ≡ j
zero-add j = omega arith

suc-add : (m n : ℕ) → suc m + n ≡ suc (m + n)
suc-add m n = omega arith

pub drop-write_at :
    (k : ℕ) (d : Bytes) (i : ℕ) (src : Bytes)
    → drop k (write_at d (k + i) src) ≡ write_at (drop k d) i src
unfolding write_at
drop-write_at zero d i src = ap (λ j. write_at d j src) (zero-add i)
drop-write_at (suc k) [] i src = refl
drop-write_at (suc k) (y ∷ d) i src =
    ap (λ j. drop (suc k) (write_at (y ∷ d) j src)) (suc-add k i) ∙ drop-write_at k d i src

take-write_at_zero :
    (d src extra : Bytes)
    → length src ≤ length d
    → take (length src) (write_at d 0 (src ++ extra)) ≡ src
unfolding write_at
take-write_at_zero d [] extra h = refl
take-write_at_zero [] (x ∷ src) extra h = elim h [ ]
take-write_at_zero (y ∷ d) (x ∷ src) extra h =
    ap (λ r. x ∷ r) (take-write_at_zero d src extra (omega arith))

-- Writing right behind the first `i` bytes extends them, whatever is written behind that.
pub take-write_at_front :
    (d : Bytes) (i : ℕ) (src extra : Bytes)
    → i + length src ≤ length d
    → take (i + length src) (write_at d i (src ++ extra)) ≡ take i d ++ src
unfolding write_at
take-write_at_front d zero src extra h =
    ap (λ n. take n (write_at d 0 (src ++ extra))) (zero-add (length src))
    ∙ take-write_at_zero d src extra (omega arith)
take-write_at_front [] (suc i) src extra h = absurd (omega arith)
take-write_at_front (y ∷ d) (suc i) src extra h =
    ap (λ n. take n (write_at (y ∷ d) (suc i) (src ++ extra))) (suc-add i (length src))
    ∙ ap (λ r. y ∷ r) (take-write_at_front d i src extra (omega arith))

pub take-write_at :
    (d : Bytes) (i : ℕ) (src : Bytes)
    → i + length src ≤ length d
    → take (i + length src) (write_at d i src) ≡ take i d ++ src
take-write_at d i src h =
    ap (λ s. take (i + length src) (write_at d i s)) (sym (append-nil src))
    ∙ take-write_at_front d i src [] h
