-- ===== src/Connection/Appends.antt =====
-- src/command.h: what the key-value machine makes of commands behind other commands.
use redis_in_c.Prelude.{◌≡◌, ◌∙◌, refl, sym, ap, List, [], ◌∷◌, ◌++◌, append_assoc}
use redis_in_c.Resp.Reply.{Reply, encode}
use redis_in_c.Resp.Streams.{encode_replies}
use redis_in_c.Command.Machine.{View, perform, perform_all}
use redis_in_c.Connection.Serial.{Command, performed}

pub encode_replies-append :
    (ps qs : List Reply) → encode_replies (ps ++ qs) ≡ encode_replies ps ++ encode_replies qs
encode_replies-append [] qs = refl
encode_replies-append (p ∷ ps) qs =
    ap (λ r. encode p ++ r) (encode_replies-append ps qs)
    ∙ sym (append_assoc (encode p) (encode_replies ps) (encode_replies qs))

-- The machine goes on from where the first commands have left it.
abbrev pub GoesOn : List Command → List Command → View → Type 0
GoesOn xs ys m =
    let (ps, m') = performed xs m in
    let (qs, m'') = performed ys m' in
    ((performed (xs ++ ys) m).0 ≡ ps ++ qs) × ((performed (xs ++ ys) m).1 ≡ m'')

pub performed-append : (xs ys : List Command) (m : View) → GoesOn xs ys m
unfolding perform_all
performed-append [] ys m = (refl, refl)
performed-append (x ∷ xs) ys m =
    let (p, m') = perform x.1 m in
    let (replies, last) = performed-append xs ys m' in (ap (λ r. p ∷ r) replies, last)
