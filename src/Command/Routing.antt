-- ===== src/Command/Routing.antt =====
-- src/command.c: which handler `command_execute` calls.
use redis_in_c.Prelude.{
  ℕ, ◌≡◌, ◌≢◌, ◌↔◌, ◌⊎◌, ◌∙◌, refl, sym, ap, arith, Bool, true, false, Bool-cases, inl, inr, ◌==◌,
  Bytes, Option, none, some, List, [], ◌∷◌, length, map, if◌then◌else◌, ==_iff, All, subst,
}
use redis_in_c.Prelude.Int.{ℤ, pos, ltb_ℤ, ◌≤ℤ◌, int_of}
use redis_in_c.Hashtable.{keys_equal}
use redis_in_c.Hashtable.Keys.{keys_equal_iff}
use redis_in_c.Resp.Outcome.{Request}
use redis_in_c.Command.Context.{Ctx, send}
use redis_in_c.Command.Dispatch.{
  to_upper, slice_eq_ci, CmdEntry, commands, above, run_entry, dispatch, execute_args,
  command_execute, unknown_command, wrong_arity,
}

-- The name in upper case.
abbrev pub upper : Bytes → Bytes
upper s = map (λ c. to_upper c) s

-- `slice_eq_ci` compares the name in upper case.
pub slice_eq_ci_iff : (s u : Bytes) → (slice_eq_ci s u ≡ true) ↔ (upper s ≡ u)
unfolding slice_eq_ci
slice_eq_ci_iff [] [] = (λ e. refl, λ e. refl)
slice_eq_ci_iff (c ∷ s) [] = (λ e. cc, λ e. cc)
slice_eq_ci_iff [] (d ∷ u) = (λ e. cc, λ e. cc)
slice_eq_ci_iff (c ∷ s) (d ∷ u) =
    let ih = slice_eq_ci_iff s u in
    elim (Bool-cases (to_upper c == d)) [
      | inl t ↦
          let e : to_upper c ≡ d = (==_iff (to_upper c) d).0 t in
          rw t (λ k. cc (e, ih.0 k), λ k. ih.1 (cc k))
      | inr f ↦ rw f (λ k. cc, λ k. mismatch f (cc k))
    ]
  where
    mismatch : {a b : ℕ} → a == b ≡ false → a ≡ b → false ≡ true
    mismatch f e = absurd (ground arith)

-- The entry is a row of the table.
abbrev pub IsRow : CmdEntry → List CmdEntry → Type 0
IsRow e [] = ⊥
IsRow e (f ∷ es) = (f ≡ e) ⊎ IsRow e es

abbrev pub is_fresh : Bytes → List CmdEntry → Bool
is_fresh name [] = true
is_fresh name (e ∷ es) =
    let rest = is_fresh name es in if keys_equal e.name name then false else rest

abbrev all_fresh : List CmdEntry → Bool
all_fresh [] = true
all_fresh (e ∷ es) = let rest = all_fresh es in if is_fresh e.name es then rest else false

-- The names of the table are distinct.
abbrev AreDistinct : List CmdEntry → Type 0
AreDistinct [] = Unit
AreDistinct (e ∷ es) = All (λ f. f.name ≢ e.name) es × AreDistinct es

pub is_fresh_sound :
    (name : Bytes) (es : List CmdEntry) → is_fresh name es ≡ true → All (λ f. f.name ≢ name) es
is_fresh_sound name [] h = tt
is_fresh_sound name (e ∷ es) h = elim (Bool-cases (keys_equal e.name name)) [
  | inl t ↦ cc (rw t at h)
  | inr f ↦
      (λ k. absurd (ground (arith, keys_equal_iff e.name name)), is_fresh_sound name es (rw f at h))
]

all_fresh_sound : (es : List CmdEntry) → all_fresh es ≡ true → AreDistinct es
all_fresh_sound [] h = tt
all_fresh_sound (e ∷ es) h = elim (Bool-cases (is_fresh e.name es)) [
  | inl t ↦ (is_fresh_sound e.name es t, all_fresh_sound es (rw t at h))
  | inr f ↦ cc (rw f at h)
]

commands-AreDistinct : AreDistinct commands
commands-AreDistinct = all_fresh_sound commands (unfold commands keys_equal in refl)

row-apart :
    (e : CmdEntry) (P : CmdEntry → Type 0) (es : List CmdEntry) → IsRow e es → All P es → P e
row-apart e P [] i h = absurd i
row-apart e P (f ∷ es) (inl s) h = subst P s h.0
row-apart e P (f ∷ es) (inr i) h = row-apart e P es i h.1

dispatch_row :
    (e : CmdEntry) (es : List CmdEntry) (name : Bytes) (c : Ctx) (args : List Bytes)
    → IsRow e es
    → AreDistinct es
    → upper name ≡ e.name
    → dispatch es name c args ≡ run_entry e c args
unfolding dispatch
dispatch_row e [] name c args i d u = absurd i
dispatch_row e (f ∷ es) name c args (inl s) d u =
    let t : slice_eq_ci name f.name ≡ true =
      (slice_eq_ci_iff name f.name).1 (u ∙ ap (λ (x : CmdEntry). x.name) (sym s)) in
    rw t (ap (λ (x : CmdEntry). run_entry x c args) s)
dispatch_row e (f ∷ es) name c args (inr i) d u = elim (Bool-cases (slice_eq_ci name f.name)) [
  | inr g ↦ rw g (dispatch_row e es name c args i d.1 u)
  | inl t ↦
      absurd
        (row-apart e (λ x. x.name ≢ f.name) es i d.0 (sym u ∙ (slice_eq_ci_iff name f.name).0 t))
]

dispatch_unknown :
    (es : List CmdEntry) (name : Bytes) (c : Ctx) (args : List Bytes)
    → All (λ f. f.name ≢ upper name) es
    → dispatch es name c args ≡ send (unknown_command name) c
unfolding dispatch
dispatch_unknown [] name c args h = refl
dispatch_unknown (f ∷ es) name c args h = elim (Bool-cases (slice_eq_ci name f.name)) [
  | inr g ↦ rw g (dispatch_unknown es name c args h.1)
  | inl t ↦ absurd (h.0 (sym ((slice_eq_ci_iff name f.name).0 t)))
]

-- The number of arguments, which the code takes as an `int`, is within the row's bounds.
abbrev pub AtMost : Option ℕ → ℤ → Type 0
AtMost none z = Unit
AtMost (some hi) z = z ≤ℤ pos hi

abbrev pub HasArity : CmdEntry → ℤ → Type 0
HasArity e z = (pos e.min_argc ≤ℤ z) × AtMost e.max_argc z

above_lem :
    (o : Option ℕ) (z : ℤ)
    → ((above o z ≡ true) × (AtMost o z → ⊥)) ⊎ ((above o z ≡ false) × AtMost o z)
above_lem none z = inr (refl, tt)
above_lem (some hi) z = ground arith

run_entry_lem :
    (e : CmdEntry) (c : Ctx) (args : List Bytes)
    → (HasArity e (int_of (length args)) × (run_entry e c args ≡ e.handler c args))
      ⊎ ((HasArity e (int_of (length args)) → ⊥)
          × (run_entry e c args ≡ send (wrong_arity e.name) c))
unfolding run_entry
run_entry_lem e c args = elim (Bool-cases (ltb_ℤ (int_of (length args)) (pos e.min_argc))) [
  | inl t ↦ rw t (inr (λ h. absurd (ground arith), refl))
  | inr f ↦ elim (above_lem e.max_argc (int_of (length args))) [
    | inl (t, out) ↦ rw (f, t) (inr (λ h. out h.1, refl))
    | inr (g, fits) ↦ rw (f, g) (inl ((ground arith, fits), refl))
  ]
]

-- A request whose name is, in upper case, the name of a row of the table is run by the handler of
-- that row when the number of arguments, taken as an int, is within its bounds, and is answered
-- by the arity error otherwise.
pub command_execute-row :
    (c : Ctx) (e : CmdEntry) (name : Bytes) (rest : List Bytes) (used : ℕ)
    → IsRow e commands
    → upper name ≡ e.name
    → let req : Request = record { args = name ∷ rest; bytes_consumed = used } in
      (HasArity e (int_of (length req.args)) × (command_execute c req ≡ e.handler c req.args))
      ⊎ ((HasArity e (int_of (length req.args)) → ⊥)
          × (command_execute c req ≡ send (wrong_arity e.name) c))
unfolding command_execute execute_args
command_execute-row c e name rest used i u =
    rw (dispatch_row e commands name c (name ∷ rest) i commands-AreDistinct u)
      (run_entry_lem e c (name ∷ rest))

-- A request whose name, in upper case, is the name of no row of the table keeps the store and is
-- answered by the unknown-command error.
pub command_execute_unknown :
    (c : Ctx) (name : Bytes) (rest : List Bytes) (used : ℕ)
    → All (λ f. f.name ≢ upper name) commands
    → command_execute c (record { args = name ∷ rest; bytes_consumed = used })
      ≡ send (unknown_command name) c
unfolding command_execute execute_args
command_execute_unknown c name rest used h = dispatch_unknown commands name c (name ∷ rest) h
