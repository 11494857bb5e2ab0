-- ===== src/Server/Order.antt =====
-- src/command.h: the commands of several clients in one order, as a key-value machine runs them.
use redis_in_c.Prelude.{
  ℕ, ◌≡◌, ◌≢◌, refl, ap, arith, true, false, ◌==◌, if◌then◌else◌, List, [], ◌∷◌, ◌++◌,
}
use redis_in_c.Resp.Reply.{Reply}
use redis_in_c.Command.Machine.{View, perform, perform_all}
use redis_in_c.Connection.Serial.{Command, performed}

-- The commands, each with the descriptor of its client.
abbrev pub Order : Type 0
Order = List (ℕ × Command)

abbrev pub commands_of : ℕ → Order → List Command
commands_of g [] = []
commands_of g ((fd, c) ∷ os) = let rest = commands_of g os in if fd == g then c ∷ rest else rest

-- The replies to the commands of one client, where all are run one after the other.
unfoldable pub replies_to : ℕ → Order → View → List Reply
unfolding perform
replies_to g [] m = []
replies_to g ((fd, c) ∷ os) m =
    let (p, m') = perform c.1 m in
    let rest = replies_to g os m' in if fd == g then p ∷ rest else rest

-- The state behind all of them.
unfoldable pub outcome : Order → View → View
unfolding perform
outcome [] m = m
outcome ((fd, c) ∷ os) m = outcome os (perform c.1 m).1

-- Commands of one client, in front of others.
abbrev pub before : ℕ → List Command → Order → Order
before fd [] os = os
before fd (c ∷ cs) os = (fd, c) ∷ before fd cs os

pub before-append :
    (fd : ℕ) (cs : List Command) (xs ys : Order) → before fd cs (xs ++ ys) ≡ before fd cs xs ++ ys
before-append fd [] xs ys = refl
before-append fd (c ∷ cs) xs ys = ap (λ r. (fd, c) ∷ r) (before-append fd cs xs ys)

pub same : (g : ℕ) → g == g ≡ true
same g = ground arith

pub other : (fd g : ℕ) → fd ≢ g → fd == g ≡ false
other fd g ne = ground arith

pub commands_of-before_self :
    (g : ℕ) (cs : List Command) (os : Order)
    → commands_of g (before g cs os) ≡ cs ++ commands_of g os
commands_of-before_self g [] os = refl
commands_of-before_self g (c ∷ cs) os =
    rw (same g) (ap (λ r. c ∷ r) (commands_of-before_self g cs os))

pub commands_of-before_ne :
    (fd g : ℕ) (cs : List Command) (os : Order)
    → fd ≢ g
    → commands_of g (before fd cs os) ≡ commands_of g os
commands_of-before_ne fd g [] os ne = refl
commands_of-before_ne fd g (c ∷ cs) os ne = rw (other fd g ne) (commands_of-before_ne fd g cs os ne)

pub replies_to-before_self :
    (g : ℕ) (cs : List Command) (os : Order) (m : View)
    → replies_to g (before g cs os) m ≡ (performed cs m).0 ++ replies_to g os (performed cs m).1
unfolding replies_to perform_all
replies_to-before_self g [] os m = refl
replies_to-before_self g (c ∷ cs) os m =
    let (p, m') = perform c.1 m in rw (same g) (ap (λ r. p ∷ r) (replies_to-before_self g cs os m'))

pub replies_to-before_ne :
    (fd g : ℕ) (cs : List Command) (os : Order) (m : View)
    → fd ≢ g
    → replies_to g (before fd cs os) m ≡ replies_to g os (performed cs m).1
unfolding replies_to perform_all
replies_to-before_ne fd g [] os m ne = refl
replies_to-before_ne fd g (c ∷ cs) os m ne =
    rw (other fd g ne) (replies_to-before_ne fd g cs os (perform c.1 m).1 ne)

pub outcome-before :
    (fd : ℕ) (cs : List Command) (os : Order) (m : View)
    → outcome (before fd cs os) m ≡ outcome os (performed cs m).1
unfolding outcome perform_all
outcome-before fd [] os m = refl
outcome-before fd (c ∷ cs) os m = outcome-before fd cs os (perform c.1 m).1
