-- ===== src/Bytebuf/Ensure.antt =====
-- src/bytebuf.c: `compact_in_place` and `ensure_tail_cap` keep the live bytes.
use redis_in_c.Prelude.{
  ℕ, zero, suc, ◌+◌, ◌-◌, ◌&&◌, ◌≤◌, ◌≡◌, ◌≢◌, refl, ◌∙◌, sym, ap, arith, Bool-cases, inl, inr, ltb,
  leb, Bytes, Option, none, some, [], ◌++◌, length, take, drop, length-take, length-drop,
  if◌then◌else◌, ◌⊎◌,
}
use redis_in_c.Heap.{Heap, Rc, ok, realloc, realloc-cases, realloc_calm}
use redis_in_c.Bytebuf.{
  reserve, Bytebuf, Growth, sub_size, write_at, compact_in_place, grow_tail, ensure_tail_cap, live,
  fits, too_big, out_of_fuel, enlarge, resized,
}
use redis_in_c.Bytebuf.Arrays.{take-write_at}
use redis_in_c.Bytebuf.Inv.{
  IsValid, compact-IsValid, Ensured, Fitting, grown-Fitting, live-append_rest,
}

resized-Ensured :
    (h : Heap) (b : Bytebuf) (need c : ℕ) (answer : Option Bytes × Heap)
    → IsValid b
    → (h ≡ [] → answer.1 ≡ [])
    → Fitting b need (fits c)
    → ((answer.0 ≡ none) × (h ≢ []))
      ⊎ ((rest : Bytes) × (answer.0 ≡ some (b.bytes ++ rest)) × (length (b.bytes ++ rest) ≡ c))
    → Ensured h b need (resized b c answer)
unfolding resized
resized-Ensured h b need c (none, h') v cl f (inl (e, ne)) = record {
  valid = v;
  same = refl;
  room = λ k. cc;
  full = λ k z. absurd (ne z);
  calm = cl;
}
resized-Ensured h b need c (none, h') v cl f (inr (rest, e, l)) = cc
resized-Ensured h b need c (some d, h') v cl f (inl (e, ne)) = cc
resized-Ensured h b need c (some d, h') v cl f (inr (rest, e, l)) =
    let same_bytes : d ≡ b.bytes ++ rest = ground arith in
    record {
      valid = rw same_bytes (ground arith);
      same = rw same_bytes (live-append_rest b rest c v);
      room = λ k. omega arith;
      full = λ k z. cc;
      calm = cl;
    }

enlarge-Ensured :
    (h : Heap) (b : Bytebuf) (need : ℕ) (g : Growth)
    → IsValid b
    → Fitting b need g
    → b.off ≡ 0
    → Ensured h b need (enlarge h b g)
unfolding enlarge
enlarge-Ensured h b need (fits c) v f z =
    resized-Ensured h b need c (realloc h b.bytes c) v (realloc_calm h b.bytes c) f
      (realloc-cases h b.bytes c (omega arith))
enlarge-Ensured h b need too_big v f z = record {
  valid = v;
  same = refl;
  room = λ k. cc;
  full = λ k e. omega arith;
  calm = λ z. z;
}
enlarge-Ensured h b need out_of_fuel v f z = absurd f

grow_tail-Ensured :
    (h : Heap) (b : Bytebuf) (need : ℕ)
    → IsValid b
    → b.off ≡ 0
    → Ensured h b need (grow_tail h b need)
unfolding grow_tail
grow_tail-Ensured h b need v z = enlarge-Ensured h b need _ v (grown-Fitting b need _ v refl) z

take-moved :
    (d : Bytes) (off n : ℕ)
    → off + n ≤ length d
    → take n (write_at d 0 (take n (drop off d))) ≡ take n (drop off d)
take-moved d off n h =
    let src = take n (drop off d) in
    let l : length src ≡ n = omega (arith, length-take n (drop off d), length-drop off d) in
    let m : 0 + length src ≡ n = omega (arith, l) in
    ap (λ k. take k (write_at d 0 src)) (sym m) ∙ take-write_at d 0 src (omega (arith, l))

take-compacted :
    (d : Bytes) (off n : ℕ)
    → off + n ≤ length d
    → take n (if ltb 0 n && ltb 0 off then write_at d 0 (take n (drop off d)) else d)
      ≡ take n (drop off d)
take-compacted d off zero h = refl
take-compacted d zero (suc n) h = ground arith
take-compacted d (suc off) (suc n) h = ground (arith, take-moved d (suc off) (suc n) h)

-- Compaction keeps the live bytes.
pub live-compact : (b : Bytebuf) → IsValid b → live (compact_in_place b) ≡ live b
unfolding compact_in_place live
live-compact b v =
    let n = sub_size b.len b.off in
    let whole : sub_size n 0 ≡ n = omega arith in
    rw whole (take-compacted b.bytes b.off n (omega arith))

-- Compaction moves the indices down, and keeps the capacity.
pub compact_fields :
    (b : Bytebuf)
    → IsValid b
    → ((compact_in_place b).len ≡ b.len - b.off)
      × ((compact_in_place b).off ≡ 0)
      × ((compact_in_place b).cap ≡ b.cap)
unfolding compact_in_place
compact_fields b v = omega arith

Ensured-compacted :
    (h : Heap) (b : Bytebuf) (need : ℕ) (out : Rc × Bytebuf × Heap)
    → IsValid b
    → Ensured h (compact_in_place b) need out
    → Ensured h b need out
Ensured-compacted h b need out v e = record {
  valid = e.valid;
  same = e.same ∙ live-compact b v;
  room = e.room;
  full = λ k z. let bound = e.full k z in omega (arith, compact_fields b v, bound);
  calm = e.calm;
}

after_compaction :
    (h : Heap) (b : Bytebuf) (need : ℕ)
    → IsValid b
    → let b' = compact_in_place b in
      Ensured h b' need
        (if leb need (sub_size b'.cap b'.len) then (ok, b', h) else grow_tail h b' need)
after_compaction h b need v =
    let b' = compact_in_place b in
    let v' = compact-IsValid b v in
    elim (Bool-cases (leb need (sub_size b'.cap b'.len))) [
      | inl t ↦ rw t (record {
        valid = v';
        same = refl;
        room = λ k. ground arith;
        full = λ k z. cc;
        calm = λ z. z;
      })
      | inr f ↦ rw f (grow_tail-Ensured h b' need v' (compact_fields b v).1)
    ]

-- `ensure_tail_cap` on every path.
pub ensure_tail_cap-Ensured :
    (h : Heap) (b : Bytebuf) (need : ℕ) → IsValid b → Ensured h b need (ensure_tail_cap h b need)
unfolding ensure_tail_cap
ensure_tail_cap-Ensured h b need v = elim (Bool-cases (leb need (sub_size b.cap b.len))) [
  | inl t ↦
      rw t (record {
        valid = v;
        same = refl;
        room = λ k. ground arith;
        full = λ k z. cc;
        calm = λ z. z;
      })
  | inr f ↦ rw f (elim (Bool-cases (ltb 0 b.off)) [
    | inr g ↦ rw g (grow_tail-Ensured h b need v (ground arith))
    | inl g ↦ rw g (Ensured-compacted h b need _ v (after_compaction h b need v))
  ])
]

-- `bytebuf_reserve` on every path.
pub reserve-Ensured : (h : Heap) (b : Bytebuf) (n : ℕ) → IsValid b → Ensured h b n (reserve h b n)
unfolding reserve
reserve-Ensured h b n v = ensure_tail_cap-Ensured h b n v
