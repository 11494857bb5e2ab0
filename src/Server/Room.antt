-- ===== src/Server/Room.antt =====
-- src/networking.c: commands with short replies, which fit in whatever order they are run.
use redis_in_c.Prelude.{
  ℕ, ◌+◌, ◌*◌, ◌≤◌, subst, ap, arith, Bool-cases, inl, inr, ◌==◌, Bytes, List, [], ◌∷◌, ◌++◌,
  length, length-append, All,
}
use redis_in_c.Bytebuf.{live, max_cap}
use redis_in_c.Resp.Reply.{encode}
use redis_in_c.Resp.Streams.{encode_replies}
use redis_in_c.Command.Machine.{View, perform}
use redis_in_c.Connection.{Conn}
use redis_in_c.Connection.Serial.{Command}
use redis_in_c.Server.Order.{Order, commands_of, replies_to}
use redis_in_c.Server.Linear.{AllFit}

-- The reply has 64 bytes at most, whatever the machine holds.
abbrev pub IsShort : Command → Type 0
IsShort x = (m : View) → length (encode (perform x.1 m).0) ≤ 64

All-front : (xs ys : List Command) → All IsShort (xs ++ ys) → All IsShort xs
All-front [] ys h = tt
All-front (x ∷ xs) ys h = (h.0, All-front xs ys h.1)

length-replies_to-le :
    (g : ℕ) (os : Order) (m : View)
    → All IsShort (commands_of g os)
    → length (encode_replies (replies_to g os m)) ≤ 64 * length (commands_of g os)
unfolding replies_to
length-replies_to-le g [] m h = omega arith
length-replies_to-le g ((fd, x) ∷ os) m h =
    let (p, m') = perform x.1 m in
    elim (Bool-cases (fd == g)) [
      | inr f ↦ rw f (length-replies_to-le g os m' (rw f at h))
      | inl t ↦
          let shorts : IsShort x × All IsShort (commands_of g os) = rw t at h in
          rw t (
            omega (
              arith,
              shorts.0 m,
              length-append (encode p) (encode_replies (replies_to g os m')),
              length-replies_to-le g os m' shorts.1,
            ))
    ]

-- Short replies fit where 64 bytes for each command do.
pub short-AllFit :
    (IsClient : ℕ → Type 0) (rest : ℕ → Bytes) (m : View) (conns : ℕ → Conn)
    (asks : ℕ → List Command)
    → ((g : ℕ) → IsClient g → All IsShort (asks g))
    → ((g : ℕ) → IsClient g → length (live (conns g).out_buf) + 64 * length (asks g) + 1 ≤ max_cap)
    → AllFit IsClient rest m conns asks
short-AllFit IsClient rest m conns asks small le os own part g c =
    let (left, e) = part g c in
    let front = All-front (commands_of g os) left (subst (All IsShort) e (small g c)) in
    omega (
      arith,
      le g c,
      length-replies_to-le g os m front,
      ap length e,
      length-append (commands_of g os) left,
    )
