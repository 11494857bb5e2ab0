-- ===== src/Bytebuf/Inv.antt =====
-- src/bytebuf.c: the representation invariant of `bytebuf_t`.
use redis_in_c.Prelude.{
  ℕ, ◌+◌, ◌-◌, ◌≤◌, ◌<◌, ◌≡◌, refl, arith, Bytes, [], ◌++◌, length, take, drop, length-drop,
  drop-append, take-append, ◌==◌, if◌then◌else◌,
}
use redis_in_c.Heap.{Heap, Rc, ok, fail}
use redis_in_c.Bytebuf.{
  Bytebuf, init, max_cap, init_cap, grow_fuel, sub_size, compact_in_place, grow_cap, live, fits,
  too_big, out_of_fuel, Growth,
}
use redis_in_c.Bytebuf.Arrays.{length-write_at}
use redis_in_c.Bytebuf.Doubling.{grow_cap-fits, grow_cap-too_big, grow_cap-ne-out_of_fuel}

-- No index is past the array, and the array is within the hard cap.
pub record IsValid (b : Bytebuf) : Type 0 where
  pub alloc : length b.bytes ≡ b.cap
  pub small : b.cap ≤ max_cap
  pub len_in : b.len ≤ b.cap
  pub off_in : b.off ≤ b.len

pub init-IsValid : IsValid init
init-IsValid = record {
  alloc = refl;
  small = omega arith;
  len_in = omega arith;
  off_in = omega arith;
}

pub compact-IsValid : (b : Bytebuf) → IsValid b → IsValid (compact_in_place b)
unfolding compact_in_place
compact-IsValid b v =
    ground (arith, length-write_at b.bytes 0 (take (sub_size b.len b.off) (drop b.off b.bytes)))

-- What `ensure_tail_cap` promises: the live bytes are kept, success leaves room, and where no
-- allocation is refused failure means that the bytes do not fit under the hard cap.
pub record Ensured (h : Heap) (b : Bytebuf) (need : ℕ) (out : Rc × Bytebuf × Heap) : Type 0 where
  pub valid : IsValid out.1
  pub same : live out.1 ≡ live b
  pub room : out.0 ≡ ok → out.1.len + need ≤ out.1.cap
  pub full : out.0 ≡ fail → h ≡ [] → max_cap < b.len - b.off + need
  pub calm : h ≡ [] → out.2 ≡ []

-- What the doubling loop finds out about `need` bytes behind `len`.
abbrev pub Fitting : Bytebuf → ℕ → Growth → Type 0
Fitting b need (fits c) = (b.cap ≤ c) × (c ≤ max_cap) × (b.len + need ≤ c)
Fitting b need too_big = max_cap < b.len + need
Fitting b need out_of_fuel = ⊥

pub grown-Fitting :
    (b : Bytebuf) (need : ℕ) (g : Growth)
    → IsValid b
    → grow_cap grow_fuel (if b.cap == 0 then init_cap else b.cap) b.len need ≡ g
    → Fitting b need g
grown-Fitting b need (fits c) v e =
    ground (arith, grow_cap-fits grow_fuel (if b.cap == 0 then init_cap else b.cap) b.len need c e)
grown-Fitting b need too_big v e =
    ground (arith, grow_cap-too_big grow_fuel (if b.cap == 0 then init_cap else b.cap) b.len need e)
grown-Fitting b need out_of_fuel v e =
    grow_cap-ne-out_of_fuel 31 (if b.cap == 0 then init_cap else b.cap) b.len need (ground arith) e

pub live-append_rest :
    (b : Bytebuf) (rest : Bytes) (c : ℕ)
    → IsValid b
    → live (record b { bytes = b.bytes ++ rest; cap = c }) ≡ live b
unfolding live
live-append_rest b rest c v = rw (drop-append b.off b.bytes rest (omega arith)) (
    take-append (sub_size b.len b.off) (drop b.off b.bytes) rest
      (omega (arith, length-drop b.off b.bytes)))
