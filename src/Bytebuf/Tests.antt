-- ===== src/Bytebuf/Tests.antt =====
-- src/bytebuf.c: runs of the buffer, and the theorems about it at concrete inputs.
use redis_in_c.Prelude.{◌≡◌, ◌≢◌, refl, arith, some, [], ◌∷◌, codes, drop}
use redis_in_c.Heap.{fail, refused, realloc}
use redis_in_c.Bytebuf.{
  Bytebuf, compact_in_place, put_tail, grow_tail, append, appendf, consume, live, write_at,
  ensure_tail_cap, grow_cap, out_of_fuel,
}
use redis_in_c.Bytebuf.Doubling.{grow_cap-ne-out_of_fuel}
use redis_in_c.Bytebuf.Inv.{IsValid}
use redis_in_c.Bytebuf.Refine.{Appended, append-Appended, appendf-Appended}
use redis_in_c.Bytebuf.Consume.{consume_lem}

-- Eight bytes, of which the second to the fifth are live.
abbrev half_read : Bytebuf
half_read = record { bytes = codes "abcdexyz"; cap = 8; len = 5; off = 1 }

half_read-IsValid : IsValid half_read
half_read-IsValid = record {
  alloc = refl;
  small = omega arith;
  len_in = omega arith;
  off_in = omega arith;
}

grow_cap_example : grow_cap 26 256 250 100 ≢ out_of_fuel
grow_cap_example = grow_cap-ne-out_of_fuel 25 256 250 100 (omega arith)

append_example : Appended [] half_read (codes "1234") 4 (append [] half_read (codes "1234"))
append_example = append-Appended [] half_read (codes "1234") half_read-IsValid

appendf_example : Appended [] half_read (codes ":17") 4 (appendf [] half_read (some (codes ":17")))
appendf_example = appendf-Appended [] half_read (codes ":17") half_read-IsValid (omega arith)

consume_example :
    IsValid (consume half_read 3) × (live (consume half_read 3) ≡ drop 3 (live half_read))
consume_example = consume_lem half_read 3 half_read-IsValid

-- A run: the array is moved to make room, so that nothing is allocated.
moved_run : (append (refused ∷ []) half_read (codes "1234")).1.bytes ≡ codes "bcde1234"
unfolding append ensure_tail_cap compact_in_place put_tail write_at
moved_run = refl

moved_run_live : live (append (refused ∷ []) half_read (codes "1234")).1 ≡ codes "bcde1234"
unfolding append live ensure_tail_cap compact_in_place put_tail write_at
moved_run_live = refl

-- A run in which the buffer would have to grow, and cannot.
refused_run : (append (refused ∷ []) half_read (codes "12345")).0 ≡ fail
unfolding append ensure_tail_cap compact_in_place grow_tail grow_cap realloc
refused_run = refl
