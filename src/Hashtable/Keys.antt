-- ===== src/Hashtable/Keys.antt =====
-- src/hashtable.c: `keys_equal` decides equality of byte strings.
use redis_in_c.Prelude.{◌≡◌, ◌≢◌, ◌↔◌, refl, subst, arith, true, false, Bytes, [], ◌∷◌, length}
use redis_in_c.Hashtable.{memcmp_eq, keys_equal}

memcmp_eq_sound : (a b : Bytes) → length a ≡ length b → memcmp_eq a b ≡ true → a ≡ b
unfolding memcmp_eq
memcmp_eq_sound [] [] l h = refl
memcmp_eq_sound [] (y ∷ b) l h = absurd (omega arith)
memcmp_eq_sound (x ∷ a) [] l h = absurd (omega arith)
memcmp_eq_sound (x ∷ a) (y ∷ b) l h = ground (arith, memcmp_eq_sound a b)

memcmp_eq_refl : (a : Bytes) → memcmp_eq a a ≡ true
unfolding memcmp_eq
memcmp_eq_refl [] = refl
memcmp_eq_refl (x ∷ a) = ground (arith, memcmp_eq_refl a)

pub keys_equal_refl : (a : Bytes) → keys_equal a a ≡ true
unfolding keys_equal
keys_equal_refl a = ground (arith, memcmp_eq_refl a)

keys_equal_sound : (a b : Bytes) → keys_equal a b ≡ true → a ≡ b
unfolding keys_equal
keys_equal_sound a b h = ground (arith, memcmp_eq_sound a b, empty_eq a b)
  where
    empty_eq : (a b : Bytes) → length a ≡ length b → length a ≡ 0 → a ≡ b
    empty_eq [] [] l z = refl
    empty_eq [] (y ∷ b) l z = absurd (omega arith)
    empty_eq (x ∷ a) b l z = absurd (omega arith)

-- keys_equal answers 1 exactly on equal byte strings.
pub keys_equal_iff : (a b : Bytes) → (keys_equal a b ≡ true) ↔ (a ≡ b)
keys_equal_iff a b =
    (keys_equal_sound a b, λ e. subst (λ c. keys_equal a c ≡ true) e (keys_equal_refl a))

pub keys_equal-eq_false : (a b : Bytes) → a ≢ b → keys_equal a b ≡ false
keys_equal-eq_false a b ne = ground (arith, keys_equal_iff a b)
