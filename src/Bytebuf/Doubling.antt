-- ===== src/Bytebuf/Doubling.antt =====
-- src/bytebuf.c: the doubling loop of `ensure_tail_cap`.
use native.Mathlib.Nat.{pow-suc}
use redis_in_c.Prelude.{
  ℕ, zero, suc, ◌+◌, ◌*◌, ◌/◌, ◌^◌, ◌≤◌, ◌<◌, ◌≡◌, ◌≢◌, arith, Bool-cases, inl, inr, ltb,
}
use redis_in_c.Bytebuf.{fits, too_big, out_of_fuel, grow_cap, max_cap, next_cap}

one-le-pow : (f : ℕ) → 1 ≤ 2 ^ f
one-le-pow zero = omega arith
one-le-pow (suc f) = omega (arith, pow-suc 2 f, one-le-pow f)

next_cap-reaches :
    (new_cap p q : ℕ) → 1 ≤ p → q ≡ p * 2 → max_cap ≤ new_cap * q → max_cap ≤ next_cap new_cap * p
next_cap-reaches new_cap p q pos e k =
    let h : max_cap ≤ new_cap * (p * 2) = rw e at k in
    elim (Bool-cases (ltb (max_cap / 2) new_cap)) [
      | inl t ↦ rw t (grind arith)
      | inr f ↦ rw f (omega arith)
    ]

-- The doubling loop of ensure_tail_cap ends by its own tests within fuel + 1 rounds when the
-- starting capacity times 2^fuel is at least BYTEBUF_MAX.
pub grow_cap-ne-out_of_fuel :
    (fuel new_cap len need : ℕ)
    → max_cap ≤ new_cap * 2 ^ fuel
    → grow_cap (suc fuel) new_cap len need ≢ out_of_fuel
unfolding grow_cap
grow_cap-ne-out_of_fuel zero new_cap len need big = ground arith
grow_cap-ne-out_of_fuel (suc fuel) new_cap len need big =
    let ih =
      grow_cap-ne-out_of_fuel fuel (next_cap new_cap) len need (
        next_cap-reaches new_cap (2 ^ fuel) (2 ^ suc fuel) (one-le-pow fuel) (pow-suc 2 fuel)
          big) in
    ground (arith, ih)

next_cap-le :
    (new_cap : ℕ) → new_cap ≤ max_cap → (new_cap ≤ next_cap new_cap) × (next_cap new_cap ≤ max_cap)
next_cap-le new_cap h = ground arith

-- Where the loop finds a capacity, it is one that has room and is within the hard cap.
pub grow_cap-fits :
    (fuel new_cap len need c : ℕ)
    → grow_cap fuel new_cap len need ≡ fits c
    → len ≤ new_cap
    → new_cap ≤ max_cap
    → (new_cap ≤ c) × (c ≤ max_cap) × (len + need ≤ c)
unfolding grow_cap
grow_cap-fits zero new_cap len need c e h small = cc
grow_cap-fits (suc fuel) new_cap len need c e h small =
    ground (arith, next_cap-le new_cap small, grow_cap-fits fuel (next_cap new_cap) len need c)

-- The loop gives up only if the bytes do not fit under the hard cap.
pub grow_cap-too_big :
    (fuel new_cap len need : ℕ)
    → grow_cap fuel new_cap len need ≡ too_big
    → len ≤ new_cap
    → new_cap ≤ max_cap
    → max_cap < len + need
unfolding grow_cap
grow_cap-too_big zero new_cap len need e h small = cc
grow_cap-too_big (suc fuel) new_cap len need e h small =
    ground (arith, next_cap-le new_cap small, grow_cap-too_big fuel (next_cap new_cap) len need)
