-- ===== src/Bytebuf/Consume.antt =====
-- src/bytebuf.c: `bytebuf_consume`, and how much of the array it leaves unused at the head.
use redis_in_c.Prelude.{
  ℕ, ◌+◌, ◌-◌, ◌&&◌, ◌/◌, ◌≤◌, ◌≡◌, refl, ◌∙◌, sym, ap, arith, Bool-cases, inl, inr, ltb, [], take,
  drop, ◌==◌, ◌⊎◌, drop-drop, drop-take, drop-all,
}
use redis_in_c.Bytebuf.{
  Bytebuf, max_cap, compact_min, sub_size, add_size, compact_in_place, live, settle, consume,
}
use redis_in_c.Bytebuf.Inv.{IsValid, compact-IsValid}
use redis_in_c.Bytebuf.Ensure.{live-compact}
use redis_in_c.Bytebuf.Refine.{live_len-eq, length-live}

settle-IsValid : (b : Bytebuf) → IsValid b → IsValid (settle b)
unfolding settle
settle-IsValid b v = ground (arith, compact-IsValid b v)

live_drained : (b : Bytebuf) → b.off ≡ b.len → b.len ≤ max_cap → live b ≡ []
unfolding live
live_drained b e h = let n : sub_size b.len b.off ≡ 0 = omega arith in rw n

live-settle : (b : Bytebuf) → IsValid b → live (settle b) ≡ live b
unfolding settle
live-settle b v = elim (Bool-cases (b.off == b.len)) [
  | inl t ↦ rw t (
      live_drained (record b { len = 0; off = 0 }) refl (omega arith)
      ∙ sym (live_drained b (ground arith) (omega arith)))
  | inr f ↦ rw f (elim (Bool-cases (ltb compact_min b.off && ltb (b.cap / 2) b.off)) [
    | inl t ↦ rw t (live-compact b v)
    | inr g ↦ rw g
  ])
]

live_moved :
    (b : Bytebuf) (n : ℕ)
    → IsValid b
    → n ≤ b.len - b.off
    → live (record b { off = b.off + n }) ≡ drop n (live b)
unfolding live
live_moved b n v h =
    let old : sub_size b.len b.off ≡ b.len - b.off = omega arith in
    let new : sub_size b.len (b.off + n) ≡ b.len - b.off - n = omega arith in
    rw (old, new)
      (sym (
        drop-take n (b.len - b.off) (drop b.off b.bytes) h
        ∙ ap (take (b.len - b.off - n)) (drop-drop n b.off b.bytes)))

-- On a valid buffer bytebuf_consume drops the given number of bytes from the head of the live
-- ones, or all where there are fewer, and the buffer stays valid.
pub consume_lem :
    (b : Bytebuf) (n : ℕ)
    → IsValid b
    → IsValid (consume b n) × (live (consume b n) ≡ drop n (live b))
unfolding consume
consume_lem b n v = elim (Bool-cases (ltb (sub_size b.len b.off) n)) [
  | inl over ↦
      let all : add_size b.off (sub_size b.len b.off) ≡ b.len = omega arith in
      let b' = record b { off = b.len } in
      let v' : IsValid b' = omega arith in
      rw (over, all)
        (
          settle-IsValid b' v',
          live-settle b' v'
              ∙ live_drained b' refl (omega arith)
              ∙ sym (drop-all n (live b) (ground (arith, length-live b v, live_len-eq b v))),
        )
  | inr within ↦
      let sum : add_size b.off n ≡ b.off + n = ground arith in
      let b' = record b { off = b.off + n } in
      let v' : IsValid b' = ground arith in
      rw (within, sum) (settle-IsValid b' v', live-settle b' v' ∙ live_moved b n v (ground arith))
]

waste-settle :
    (b : Bytebuf) → ((settle b).off ≤ compact_min) ⊎ ((settle b).off ≤ (settle b).cap / 2)
unfolding settle compact_in_place
waste-settle b = ground arith

-- After bytebuf_consume the wasted bytes before the head are at most BYTEBUF_COMPACT_MIN or at
-- most half of the capacity.
pub waste-consume :
    (b : Bytebuf) (n : ℕ)
    → ((consume b n).off ≤ compact_min) ⊎ ((consume b n).off ≤ (consume b n).cap / 2)
unfolding consume
waste-consume b n = waste-settle _
