-- ===== src/Glob/Decision.antt =====
-- src/command.c: `glob_match` decides the matching relation of its patterns.
use redis_in_c.Prelude.{
  ℕ, zero, suc, ◌≤◌, ◌≡◌, ◌≢◌, ◌↔◌, inl, inr, refl, subst, arith, Bool, true, false, ◌||◌, ◌==◌,
  Bool-cases, Bytes, Option, none, some, [], ◌∷◌, length,
}
use redis_in_c.Glob.{
  backslash, skip_stars, star, class_loop, class_end, class, any_byte, literal, plain_byte,
  is_empty, round, glob_loop, glob_match,
}
use redis_in_c.Glob.Matching.{
  Class, listing, class_with, class_of, accepts, IsPlain, Matches, done, any, quoted, nil_inv,
  any_inv, class_inv, quoted_inv, literal_inv, star_intro, star_inv,
}
use redis_in_c.Glob.Parts.{
  length-skip_stars-le, skip_stars_lem, star_all, any_suffix_iff, tested, class_loop_lem, rest_len,
  rest_len-listing, InClass, class_nil,
}

module _ (loop : Bytes → Bytes → Bool) (p : Bytes)
    (ih : (q s : Bytes) → length q ≤ length p → (loop q s ≡ true) ↔ Matches q s) where
  star_case :
      (c : ℕ) (q s : Bytes)
      → c ≡ b'*'
      → length q ≤ length p
      → (star loop q s ≡ true) ↔ Matches (c ∷ q) s
  unfolding star
  star_case c [] s h le = (λ e. star_all c s h, λ m. refl)
  star_case c (b ∷ q) s h le =
      let some_suffix = any_suffix_iff (loop (b ∷ q)) (Matches (b ∷ q)) s (λ t. ih (b ∷ q) t le) in
      (λ e. star_intro c (b ∷ q) s h (some_suffix.0 e), λ m. some_suffix.1 (star_inv h m))

  star_iff :
      (c : ℕ) (s : Bytes) → c ≡ b'*' → (star loop (skip_stars p) s ≡ true) ↔ Matches (c ∷ p) s
  star_iff c s h =
      let one = star_case c (skip_stars p) s h (length-skip_stars-le p) in
      let run = skip_stars_lem c p s h in (λ e. run.0 (one.0 e), λ m. one.1 (run.1 m))

  any_iff : (c : ℕ) (s : Bytes) → c ≡ b'?' → (any_byte loop p s ≡ true) ↔ Matches (c ∷ p) s
  unfolding any_byte
  any_iff c [] h = (λ e. cc, λ m. absurd (omega (arith, nil_inv m)))
  any_iff c (d ∷ s) h =
      let rest = ih p s (omega arith) in (λ e. any h (rest.0 e), λ m. rest.1 (any_inv h m))

  class_end_iff :
      (negated : Bool) (o : Option (Bytes × Bytes)) (d : ℕ) (s : Bytes)
      → rest_len o ≤ length p
      → (class_end loop negated (tested d false o) (d ∷ s) ≡ true)
        ↔ InClass (class_with negated o) d s
  unfolding class_end
  class_end_iff negated none d s le = (λ e. cc, λ m. cc (m.1))
  class_end_iff negated (some (cs, rest)) d s le =
      let k : Class = record { negated = negated; listed = cs; rest = rest } in
      let there = ih rest s le in
      elim (Bool-cases (accepts k d)) [
        | inl t ↦ rw t (
          λ e. (k, refl, t, there.0 e),
          λ m. there.1 (subst (λ (x : Class). Matches x.rest s) (same k m.0 m.1) m.3),
        )
        | inr f ↦ rw f (
          λ e. cc,
          λ m. absurd (clash (subst (λ (x : Class). accepts x d ≡ true) (same k m.0 m.1) m.2) f),
        )
      ]
    where
      same : (k x : Class) → ◌≡◌ {A = Option Class} (some k) (some x) → x ≡ k
      same k x e = cc

      clash : {b : Bool} → b ≡ true → b ≡ false → ⊥
      clash e f = cc

  listed_iff :
      (negated : Bool) (q : Bytes) (d : ℕ) (s : Bytes)
      → length q ≤ length p
      → (class_end loop negated (class_loop q (d ∷ s) false) (d ∷ s) ≡ true)
        ↔ InClass (class_with negated (listing q)) d s
  listed_iff negated q d s le =
      rw (class_loop_lem q d s false)
        (class_end_iff negated (listing q) d s (omega (arith, rest_len-listing q)))

  found_iff :
      (q : Bytes) (d : ℕ) (s : Bytes)
      → length q ≤ length p
      → (class loop q (d ∷ s) ≡ true) ↔ InClass (class_of q) d s
  unfolding class class_of
  found_iff [] d s le = unfold class_loop class_end in (λ e. cc, λ m. cc (m.1))
  found_iff (c ∷ q) d s le = elim (Bool-cases (c == b'^' || c == b'!')) [
    | inl t ↦ rw t (listed_iff true q d s (omega arith))
    | inr f ↦ rw f (listed_iff false (c ∷ q) d s le)
  ]

  class_iff : (c : ℕ) (s : Bytes) → c ≡ b'[' → (class loop p s ≡ true) ↔ Matches (c ∷ p) s
  class_iff c [] h = rw (class_nil loop p) (λ e. cc, λ m. absurd (omega (arith, nil_inv m)))
  class_iff c (d ∷ s) h =
      let found = found_iff p d s (omega arith) in
      (λ e. let (k, is, a, m) = found.0 e in Matches.class h is a m, λ m. found.1 (class_inv h m))

  literal_iff : (c : ℕ) (s : Bytes) → IsPlain c p → (literal loop c p s ≡ true) ↔ Matches (c ∷ p) s
  unfolding literal
  literal_iff c [] h = (λ e. cc, λ m. absurd (h.0 (nil_inv m)))
  literal_iff c (d ∷ s) h =
      let rest = ih p s (omega arith) in
      elim (Bool-cases (c == d)) [
        | inl t ↦
            let same : c ≡ d = ground arith in
            rw (t, ← same) (λ e. Matches.literal h (rest.0 e), λ m. rest.1 (literal_inv h m).1)
        | inr f ↦ rw f (λ e. cc, λ m. absurd (ground (arith, literal_inv h m)))
      ]

-- A pattern's last byte, or one that no branch but the last takes.
plain_iff :
    (loop : Bytes → Bytes → Bool) (p : Bytes)
    → ((q s : Bytes) → length q ≤ length p → (loop q s ≡ true) ↔ Matches q s)
    → (c : ℕ) (s : Bytes) → c ≢ b'*'
    → c ≢ b'?'
    → c ≢ b'['
    → (plain_byte loop c p s ≡ true) ↔ Matches (c ∷ p) s
unfolding plain_byte literal
plain_iff loop [] ih c s n1 n2 n3 = literal_iff loop [] ih c s (n1, n2, n3, inr refl)
plain_iff loop (b ∷ p) ih c s n1 n2 n3 = elim (Bool-cases (c == backslash)) [
  | inr f ↦ rw f (literal_iff loop (b ∷ p) ih c s (n1, n2, n3, inl (ground arith)))
  | inl t ↦ rw t (quoted_iff c s (ground arith))
]
  where
    quoted_iff :
        (c : ℕ) (s : Bytes) → c ≡ backslash → (literal loop b p s ≡ true) ↔ Matches (c ∷ b ∷ p) s
    quoted_iff c [] h = (λ e. cc, λ m. absurd (omega (arith, nil_inv m)))
    quoted_iff c (d ∷ s) h =
        let rest = ih p s (omega arith) in
        elim (Bool-cases (b == d)) [
          | inl t ↦
              let same : b ≡ d = ground arith in
              rw (t, ← same) (λ e. quoted h (rest.0 e), λ m. rest.1 (quoted_inv h m).1)
          | inr f ↦ rw f (λ e. cc, λ m. absurd (ground (arith, quoted_inv h m)))
        ]

-- A round of the loop, where the rounds that follow decide shorter patterns.
round_iff :
    (loop : Bytes → Bytes → Bool) (p : Bytes)
    → ((q s : Bytes) → length q ≤ length p → (loop q s ≡ true) ↔ Matches q s)
    → (c : ℕ) (s : Bytes) → (round loop c p s ≡ true) ↔ Matches (c ∷ p) s
unfolding round
round_iff loop p ih c s = elim (Bool-cases (c == b'*')) [
  | inl t ↦ rw t (star_iff loop p ih c s (ground arith))
  | inr f ↦ rw f (elim (Bool-cases (c == b'?')) [
    | inl t ↦ rw t (any_iff loop p ih c s (ground arith))
    | inr g ↦ rw g (elim (Bool-cases (c == b'[')) [
      | inl t ↦ rw t (class_iff loop p ih c s (ground arith))
      | inr k ↦ rw k (plain_iff loop p ih c s (ground arith) (ground arith) (ground arith))
    ])
  ])
]

-- Fuel for each byte of the pattern is enough.
glob_loop_iff :
    (fuel : ℕ) (p s : Bytes) → length p ≤ fuel → (glob_loop fuel p s ≡ true) ↔ Matches p s
unfolding glob_loop is_empty
glob_loop_iff fuel [] [] le = (λ e. done, λ m. refl)
glob_loop_iff fuel [] (d ∷ s) le = (λ e. cc, λ m. elim m [ ])
glob_loop_iff zero (c ∷ p) s le = absurd (omega arith)
glob_loop_iff (suc fuel) (c ∷ p) s le =
    round_iff (glob_loop fuel) p (λ q t sh. glob_loop_iff fuel q t (omega arith)) c s

-- glob_match returns 1 exactly on the strings that the pattern matches by the relation of its
-- bytes: stars, question marks, classes and their negations, escapes and literals.
pub glob_match_iff : (pat str : Bytes) → (glob_match pat str ≡ true) ↔ Matches pat str
unfolding glob_match
glob_match_iff pat str = glob_loop_iff (length pat) pat str (omega arith)
