-- ===== src/Heap.antt =====
-- The C allocator, as src/bytebuf.c, src/hashtable.c and src/command.c use it. What `malloc` and
-- `realloc` answer is the environment's choice: a list of answers, one for each call in turn. Past
-- the end of the list every call succeeds.
use redis_in_c.Prelude.{
  ℕ, zero, suc, ◌+◌, ◌-◌, Bytes, Option, none, some, List, [], ◌∷◌, ◌++◌, take,
}
use redis_in_c.Prelude.{
  length, ◌≡◌, ◌≢◌, ◌≤◌, ◌⊎◌, inl, inr, refl, ap, arith, take-all, length-append,
}

-- `granted junk` is a fresh block whose bytes are unspecified: `junk i` stands at index `i`.
pub data Grant : Type 0 where
  refused : Grant
  granted : (ℕ → ℕ) → Grant

abbrev pub Heap : Type 0
Heap = List Grant

-- The `int` that most functions return: 0 is `ok`, -1 is `fail`.
pub data Rc : Type 0 where
  ok fail : Rc

pub Rc-cases : (r : Rc) → (r ≡ ok) ⊎ (r ≡ fail)
Rc-cases ok = inl refl
Rc-cases fail = inr refl

unfoldable pub answer : Heap → Grant × Heap
answer [] = (granted (λ _. 0), [])
answer (g ∷ h) = (g, h)

-- The `n` bytes of a block from index `i` on.
unfoldable pub fill : (ℕ → ℕ) → ℕ → ℕ → Bytes
fill junk i zero = []
fill junk i (suc n) = junk i ∷ fill junk (i + 1) n

-- `malloc`, for a caller that overwrites the whole block: only the null test is left.
unfoldable pub malloc : Heap → Option (Unit {0}) × Heap
unfolding answer
malloc h = let (g, h') = answer h in elim g [ refused ↦ (none, h') | granted _ ↦ (some tt, h') ]

-- `realloc(data, n)`: the old bytes are kept, and those behind them are unspecified.
unfoldable pub realloc : Heap → Bytes → ℕ → Option Bytes × Heap
unfolding answer fill
realloc h bytes n =
    let (g, h') = answer h in
    elim g [
      | refused ↦ (none, h')
      | granted junk ↦ (some (take n bytes ++ fill junk (length bytes) (n - length bytes)), h')
    ]

pub length-fill : (junk : ℕ → ℕ) (i n : ℕ) → length (fill junk i n) ≡ n
unfolding fill
length-fill junk i zero = refl
length-fill junk i (suc n) = ap suc (length-fill junk (i + 1) n)

fresh_block :
    (junk : ℕ → ℕ) (d : Bytes) (n : ℕ)
    → length d ≤ n
    → (rest : Bytes) × ◌≡◌ {A = Option Bytes}
        (some (take n d ++ fill junk (length d) (n - length d)))
        (some (d ++ rest))
      × (length (d ++ rest) ≡ n)
fresh_block junk d n le =
    let rest = fill junk (length d) (n - length d) in
    (
      rest,
      ap (λ r. some (r ++ rest)) (take-all n d le),
      omega (arith, length-append d rest, length-fill junk (length d) (n - length d)),
    )

-- `realloc` to a larger size answers NULL, which takes a refusal, or a block of that size that
-- begins with the old bytes.
pub realloc-cases :
    (h : Heap) (d : Bytes) (n : ℕ)
    → length d ≤ n
    → (((realloc h d n).0 ≡ none) × (h ≢ []))
      ⊎ ((rest : Bytes) × ((realloc h d n).0 ≡ some (d ++ rest)) × (length (d ++ rest) ≡ n))
unfolding realloc
realloc-cases [] d n le = inr (fresh_block (λ _. 0) d n le)
realloc-cases (refused ∷ h) d n le = inl (refl, λ e. cc)
realloc-cases (granted junk ∷ h) d n le = inr (fresh_block junk d n le)

-- Where no refusal is scheduled, none is scheduled after a call.
pub realloc_calm : (h : Heap) (d : Bytes) (n : ℕ) → h ≡ [] → (realloc h d n).1 ≡ []
unfolding realloc
realloc_calm h d n z = rw z

pub malloc_calm : (h : Heap) → h ≡ [] → malloc h ≡ (some tt, [])
unfolding malloc
malloc_calm h z = rw z
