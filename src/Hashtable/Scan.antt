-- ===== src/Hashtable/Scan.antt =====
-- src/hashtable.c: `ht_scan` walks the list of entries.
use redis_in_c.Prelude.{
  ℕ, ◌+◌, ◌%◌, ◌<◌, ◌≡◌, refl, ap, arith, Bool, true, false, Bool-cases, inl, inr, Bytes, List, [],
  ◌∷◌, ◌++◌, if◌then◌else◌, size_mod, ◌∙◌,
}
use redis_in_c.Hashtable.{Chain, Hashtable, scan_chain, scan_buckets, scan}
use redis_in_c.Hashtable.View.{entries, entries_of}

module _ {ℓ} {S : Type ℓ} (cb : Bytes → Bytes → S → Bool × S) where
  -- The walk over a list, up to the first entry at which the callback answers false: whether there is
  -- none, how many entries are visited, and the state.
  unfoldable pub walk : Chain → S → Bool × ℕ × S
  walk [] s = (true, 0, s)
  walk (e ∷ c) s =
      let (more, s') = cb e.key e.val s in
      let (more', n, s'') = walk c s' in if more then (more', n + 1, s'') else (false, 1, s')

  scan_chain_lem :
      (c : Chain) (visited : ℕ) (s : S)
      → visited < size_mod
      → let (more, n, s') = walk c s in
        scan_chain cb c visited s ≡ (more, (visited + n) % size_mod, s')
  unfolding walk scan_chain
  scan_chain_lem [] visited s h =
      let same : visited ≡ (visited + 0) % size_mod = omega arith in ap (λ n. (true, n, s)) same
  scan_chain_lem (e ∷ c) visited s h = elim (Bool-cases (cb e.key e.val s).0) [
    | inr f ↦ rw f refl
    | inl t ↦
        let s' = (cb e.key e.val s).1 in
        let (more', n, s'') = walk c s' in
        let sum : ((visited + 1) % size_mod + n) % size_mod ≡ (visited + (n + 1)) % size_mod =
          omega arith in
        rw t (
          scan_chain_lem c ((visited + 1) % size_mod) s' (omega arith)
          ∙ ap (λ m. (more', m, s'')) sum)
  ]

  walk-append :
      (a b : Chain) (s : S)
      → let (more, n, s') = walk a s in
        let (more', n', s'') = walk b s' in
        walk (a ++ b) s ≡ (if more then (more', n + n', s'') else (false, n, s'))
  unfolding walk
  walk-append [] b s =
      let z : (walk b s).1 ≡ 0 + (walk b s).1 = omega arith in
      ap (λ n. ((walk b s).0, n, (walk b s).2)) z
  walk-append (e ∷ a) b s = elim (Bool-cases (cb e.key e.val s).0) [
    | inr f ↦ rw f refl
    | inl t ↦
        let s' = (cb e.key e.val s).1 in
        let (more, n, s'') = walk a s' in
        let (more', n', end) = walk b s'' in
        let sum : n + n' + 1 ≡ n + 1 + n' = omega arith in
        rw (t, walk-append a b s')
          (elim (Bool-cases more) [
            | inl u ↦ rw u (ap (λ m. (more', m, end)) sum)
            | inr g ↦ rw g refl
          ])
  ]

  scan_buckets_lem :
      (cs : List Chain) (visited : ℕ) (s : S)
      → visited < size_mod
      → let (more, n, s') = walk (entries_of cs) s in
        scan_buckets cb cs visited s ≡ ((visited + n) % size_mod, s')
  unfolding scan_buckets entries_of
  scan_buckets_lem [] visited s h =
      unfold walk in
      let same : visited ≡ (visited + 0) % size_mod = omega arith in ap (λ n. (n, s)) same
  scan_buckets_lem (c ∷ cs) visited s h =
      let (more, n, s') = walk c s in
      let rest = scan_buckets_lem cs ((visited + n) % size_mod) s' (omega arith) in
      let (more', n', end) = walk (entries_of cs) s' in
      let sum : ((visited + n) % size_mod + n') % size_mod ≡ (visited + (n + n')) % size_mod =
        omega arith in
      rw (scan_chain_lem c visited s h, walk-append c (entries_of cs) s)
        (elim (Bool-cases more) [
          | inl u ↦ rw u (rest ∙ ap (λ m. (m, end)) sum)
          | inr g ↦ rw g refl
        ])

  -- ht_scan calls the callback on the entries of the table in their order, up to the first on
  -- which it answers 0, and returns the number of those visited modulo 2^64.
  pub scan-walk :
      (t : Hashtable) (s : S)
      → let (more, n, s') = walk (entries t) s in scan cb t s ≡ (n % size_mod, s')
  unfolding scan entries
  scan-walk t s =
      let (more, n, s') = walk (entries_of t.buckets) s in
      let sum : (0 + n) % size_mod ≡ n % size_mod = omega arith in
      scan_buckets_lem t.buckets 0 s (omega arith) ∙ ap (λ m. (m, s')) sum
