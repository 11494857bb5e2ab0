-- ===== src/Bytebuf.antt =====
-- src/bytebuf.c and src/bytebuf.h: the growable byte buffer with FIFO consumption.
-- A function that updates `*b` returns the new buffer beside its result; one that may call
-- `realloc` takes and returns the allocator too. `size_t` differences are written with their wrap.
pub mod Arrays
pub mod Doubling
pub mod Inv
pub mod Ensure
pub mod Refine
pub mod Consume
mod Tests
use redis_in_c.Prelude.{
  ℕ, zero, suc, ◌+◌, ◌-◌, ◌*◌, ◌/◌, ◌%◌, ◌&&◌, ltb, leb, ◌==◌, if◌then◌else◌, Bytes, Option, none,
  some, [], ◌∷◌, ◌++◌, length, take, drop, size_mod,
}
use redis_in_c.Heap.{Heap, Rc, ok, fail, realloc}

-- `bytebuf_t`. `bytes` is the array behind `data`, `[]` for NULL.
pub record Bytebuf : Type 0 where
  pub bytes : Bytes
  pub cap : ℕ
  pub len : ℕ
  pub off : ℕ

abbrev pub init_cap : ℕ
init_cap = 256

abbrev pub max_cap : ℕ
max_cap = 16777216

abbrev pub compact_min : ℕ
compact_min = 4096

-- a - b in `size_t`
abbrev pub sub_size : ℕ → ℕ → ℕ
sub_size a b = (a + size_mod - b) % size_mod

-- a + b in `size_t`
abbrev pub add_size : ℕ → ℕ → ℕ
add_size a b = (a + b) % size_mod

-- `memcpy(d + i, src, n)` and `memmove`: bytes past the end of the array are not written.
unfoldable pub write_at : Bytes → ℕ → Bytes → Bytes
write_at [] i src = []
write_at (y ∷ d) zero [] = y ∷ d
write_at (y ∷ d) zero (x ∷ src) = x ∷ write_at d zero src
write_at (y ∷ d) (suc i) src = y ∷ write_at d i src

unfoldable pub compact_in_place : Bytebuf → Bytebuf
compact_in_place b =
    let live = sub_size b.len b.off in
    record b {
      bytes =
          if ltb 0 live && ltb 0 b.off
          then write_at b.bytes 0 (take live (drop b.off b.bytes))
          else b.bytes;
      len = live;
      off = 0;
    }

-- How the loop of `ensure_tail_cap` ends. `out_of_fuel` belongs to the model only.
pub data Growth : Type 0 where
  fits : ℕ → Growth
  too_big : Growth
  out_of_fuel : Growth

abbrev pub next_cap : ℕ → ℕ
next_cap new_cap = if ltb (max_cap / 2) new_cap then max_cap else new_cap * 2

-- `while (new_cap - b->len < need) …`
unfoldable pub grow_cap : ℕ → ℕ → ℕ → ℕ → Growth
grow_cap zero new_cap len need = out_of_fuel
grow_cap (suc fuel) new_cap len need =
    let rest = grow_cap fuel (next_cap new_cap) len need in
    if ltb (sub_size new_cap len) need
    then (if leb max_cap new_cap then too_big else rest)
    else fits new_cap

-- From 1 byte, 25 doublings pass `max_cap`.
abbrev pub grow_fuel : ℕ
grow_fuel = 32

-- The end of `ensure_tail_cap`, where `realloc` has answered.
resized : Bytebuf → ℕ → Option Bytes × Heap → Rc × Bytebuf × Heap
resized b new_cap (none, h) = (fail, b, h)
resized b new_cap (some new_bytes, h) = (ok, record b { bytes = new_bytes; cap = new_cap }, h)

enlarge : Heap → Bytebuf → Growth → Rc × Bytebuf × Heap
unfolding resized
enlarge h b (fits new_cap) = resized b new_cap (realloc h b.bytes new_cap)
enlarge h b _ = (fail, b, h)

-- The part of `ensure_tail_cap` behind the compaction.
unfoldable pub grow_tail : Heap → Bytebuf → ℕ → Rc × Bytebuf × Heap
unfolding enlarge
grow_tail h b need =
    enlarge h b (grow_cap grow_fuel (if b.cap == 0 then init_cap else b.cap) b.len need)

unfoldable pub ensure_tail_cap : Heap → Bytebuf → ℕ → Rc × Bytebuf × Heap
ensure_tail_cap h b need =
    if leb need (sub_size b.cap b.len)
    then (ok, b, h)
    else if ltb 0 b.off
    then (let b' = compact_in_place b in
        if leb need (sub_size b'.cap b'.len) then (ok, b', h) else grow_tail h b' need)
    else grow_tail h b need

abbrev pub init : Bytebuf
init = record { bytes = []; cap = 0; len = 0; off = 0 }

-- `bytebuf_free`
abbrev pub release : Bytebuf → Bytebuf
release b = record { bytes = []; cap = 0; len = 0; off = 0 }

unfoldable pub reset : Bytebuf → Bytebuf
reset b = record b { len = 0; off = 0 }

-- `memcpy(b->data + b->len, src, n); b->len += n;`
unfoldable pub put_tail : Bytebuf → Bytes → ℕ → Bytebuf
put_tail b src n = record b { bytes = write_at b.bytes b.len src; len = add_size b.len n }

abbrev filled : Bytes → ℕ → Rc × Bytebuf × Heap → Rc × Bytebuf × Heap
filled src n (ok, b, h) = (ok, put_tail b src n, h)
filled src n (fail, b, h) = (fail, b, h)

unfoldable pub append : Heap → Bytebuf → Bytes → Rc × Bytebuf × Heap
append h b [] = (ok, b, h)
append h b (c ∷ src) = let n = length (c ∷ src) in filled (c ∷ src) n (ensure_tail_cap h b n)

-- The argument is what `vsnprintf` prints, or `none` where it reports an error. The text that does
-- not fit in the 128 bytes on the stack is printed into the buffer with its NUL.
unfoldable pub appendf : Heap → Bytebuf → Option Bytes → Rc × Bytebuf × Heap
appendf h b none = (fail, b, h)
appendf h b (some text) =
    let n = length text in
    if ltb n 128
    then append h b text
    else filled (text ++ 0 ∷ []) n (ensure_tail_cap h b (add_size n 1))

-- A pointer to the tail is the index `len`, which the returned buffer has.
unfoldable pub reserve : Heap → Bytebuf → ℕ → Rc × Bytebuf × Heap
reserve h b n = ensure_tail_cap h b n

unfoldable pub advance : Bytebuf → ℕ → Bytebuf
advance b n =
    let room = sub_size b.cap b.len in
    record b { len = add_size b.len (if ltb room n then room else n) }

-- `bytebuf_len`
unfoldable pub live_len : Bytebuf → ℕ
live_len b = sub_size b.len b.off

-- The bytes from `bytebuf_data(b)` on, to the end of the array.
unfoldable pub from_head : Bytebuf → Bytes
from_head b = drop b.off b.bytes

-- The live bytes, `bytebuf_data(b)[0 .. bytebuf_len(b))`.
unfoldable pub live : Bytebuf → Bytes
unfolding live_len from_head
live b = take (live_len b) (from_head b)

-- The test at the end of `bytebuf_consume`, which decides on compaction.
unfoldable pub settle : Bytebuf → Bytebuf
settle b =
    if b.off == b.len
    then record b { len = 0; off = 0 }
    else if ltb compact_min b.off && ltb (b.cap / 2) b.off
    then compact_in_place b
    else b

unfoldable pub consume : Bytebuf → ℕ → Bytebuf
consume b n =
    let live = sub_size b.len b.off in
    settle (record b { off = add_size b.off (if ltb live n then live else n) })
