-- ===== src/Connection/Splits.antt =====
-- src/networking.c: wherever the stream of a client is cut, what is there in front of the cut is
-- whole commands and an unfinished one, for which the parser waits.
use redis_in_c.Prelude.{
  ◌≤◌, ◌≡◌, ◌∙◌, refl, sym, ap, arith, inl, inr, Bool-cases, ltb, Bytes, List, [], ◌∷◌, ◌++◌,
  length, map, All, append_assoc, take, drop, take-append-drop, take-append, drop-append, ap₂,
  take-length-append,
}
use redis_in_c.Resp.Outcome.{Outcome, parsed, need_more, protocol_err, Request}
use redis_in_c.Resp.Request.{parse_request}
use redis_in_c.Resp.RoundTrip.{
  encode_bulk, encode_bulks, encode_request, request_size, parse-encode, drop-request,
  length-encode_request,
}
use redis_in_c.Resp.Stable.{Stable}
use redis_in_c.Resp.Verdicts.{parse_request-Stable, waits}
use redis_in_c.Connection.Pipeline.{encode_all}
use redis_in_c.Connection.Serial.{Command, args_of, IsAsked}

-- The bytes of the commands, in front of `rest`.
abbrev pub text_of : List Command → Bytes → Bytes
text_of cs rest = encode_all (map (λ (c : Command). args_of c) cs) rest

encode_bulks-append :
    (args : List Bytes) (rest : Bytes) → encode_bulks args rest ≡ encode_bulks args [] ++ rest
unfolding encode_bulks encode_bulk
encode_bulks-append [] rest = refl
encode_bulks-append (a ∷ args) rest = rw (encode_bulks-append args rest) (simp (append_assoc))

encode_request-append :
    (args : List Bytes) (rest : Bytes) → encode_request args rest ≡ encode_request args [] ++ rest
unfolding encode_request
encode_request-append args rest = rw (encode_bulks-append args rest) (simp (append_assoc))

pub text_of-append :
    (cs : List Command) (rest more : Bytes) → text_of cs rest ++ more ≡ text_of cs (rest ++ more)
text_of-append [] rest more = refl
text_of-append (c ∷ cs) rest more =
    let tail = text_of cs rest in
    let head = encode_request (args_of c) [] in
    ap (λ b. b ++ more) (encode_request-append (args_of c) tail)
    ∙ append_assoc head tail more
    ∙ ap (λ b. head ++ b) (text_of-append cs rest more)
    ∙ sym (encode_request-append (args_of c) (text_of cs (rest ++ more)))

pub text_of_join :
    (cs ds : List Command) (rest : Bytes) → text_of cs (text_of ds rest) ≡ text_of (cs ++ ds) rest
text_of_join [] ds rest = refl
text_of_join (c ∷ cs) ds rest = ap (encode_request (args_of c)) (text_of_join cs ds rest)

-- A part of an unfinished command is unfinished.
unfinished :
    (p q : Bytes) (o o' : Outcome Request)
    → parse_request p ≡ o
    → Stable o o'
    → o' ≡ need_more
    → parse_request p ≡ need_more
unfinished p q need_more o' e s w = e
unfinished p q (parsed r) o' e s w = cc
unfinished p q protocol_err o' e s w = cc

-- The commands in front of the cut, those that it is in or in front of, and what is there of these.
pub record Split (p q : Bytes) (cs : List Command) (rest : Bytes) : Type 0 where
  pub done : List Command
  pub left : List Command
  pub part : Bytes
  pub whole : cs ≡ done ++ left
  pub front : p ≡ text_of done part
  pub back : part ++ q ≡ text_of left rest
  pub idle : parse_request part ≡ need_more

whole_text :
    (args : List Bytes) (rest : Bytes)
    → take (request_size args) (encode_request args rest) ≡ encode_request args []
whole_text args rest =
    let enc = encode_request args [] in
    let size : request_size args ≡ length enc = omega (arith, length-encode_request args []) in
    ap (take (request_size args)) (encode_request-append args rest)
    ∙ ap (λ n. take n (enc ++ rest)) size
    ∙ take-length-append enc rest

-- A cut behind the end of the first command.
cut :
    (args : List Bytes) (p q rest : Bytes)
    → request_size args ≤ length p
    → p ++ q ≡ encode_request args rest
    → (take (request_size args) p ≡ encode_request args [])
      × (drop (request_size args) p ++ q ≡ rest)
cut args p q rest le e =
    let n = request_size args in
    (
      sym (take-append n p q le) ∙ ap (take n) e ∙ whole_text args rest,
      sym (drop-append n p q le) ∙ ap (drop n) e ∙ drop-request args rest,
    )

pub split :
    (cs : List Command) (p q rest : Bytes)
    → All IsAsked cs
    → parse_request rest ≡ need_more
    → p ++ q ≡ text_of cs rest
    → Split p q cs rest
split [] p q rest h n e = record {
  done = [];
  left = [];
  part = p;
  whole = refl;
  front = refl;
  back = e;
  idle =
      unfinished p q (parse_request p) _ refl (parse_request-Stable p q) (ap parse_request e ∙ n);
}
split (x ∷ cs) p q rest h n e =
    let args = args_of x in
    let s = h.0.1 in
    elim (Bool-cases (ltb (length p) (request_size args))) [
      | inl t ↦ record {
        done = [];
        left = x ∷ cs;
        part = p;
        whole = refl;
        front = refl;
        back = e;
        idle =
            waits p q (record { args = args; bytes_consumed = request_size args })
              (ap parse_request e ∙ parse-encode args (text_of cs rest) s.0 s.1 s.2) (ground arith)
              (parse_request p) refl (parse_request-Stable p q);
      }
      | inr f ↦
          let (head, tail) = cut args p q (text_of cs rest) (ground arith) e in
          let ih = split cs (drop (request_size args) p) q rest h.1 n tail in
          record {
            done = x ∷ ih.done;
            left = ih.left;
            part = ih.part;
            whole = ap (λ l. x ∷ l) ih.whole;
            front =
                sym (take-append-drop (request_size args) p)
                ∙ ap₂ ◌++◌ head ih.front
                ∙ sym (encode_request-append args (text_of ih.done ih.part));
            back = ih.back;
            idle = ih.idle;
          }
    ]
