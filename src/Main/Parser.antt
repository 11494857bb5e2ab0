-- ===== src/Main/Parser.antt =====
-- src/main.c: `resp_smoke_test`.
use redis_in_c.Prelude.{
  ℕ, Bool, true, false, ◌&&◌, ◌==◌, Bytes, codes, List, [], ◌∷◌, ◌++◌, length, get_or,
}
use redis_in_c.Resp.Outcome.{Outcome, parsed, need_more, protocol_err, Request}
use redis_in_c.Resp.Request.{parse_request}
use redis_in_c.Main.Checks.{slice_eq, Tally, check}

-- `st == RESP_OK && …`, over the request that the parser has written.
unfoldable pub on_ok : (Request → Bool) → Outcome Request → Bool
on_ok p (parsed r) = p r
on_ok p need_more = false
on_ok p protocol_err = false

-- `st == RESP_NEED_MORE`: the parser has not written a request.
unfoldable pub is_need_more : Outcome Request → Bool
is_need_more (parsed r) = false
is_need_more need_more = true
is_need_more protocol_err = false

unfoldable pub is_protocol_err : Outcome Request → Bool
is_protocol_err (parsed r) = false
is_protocol_err need_more = false
is_protocol_err protocol_err = true

-- `slice_eq(&r.args[i], …)`
abbrev pub arg_eq : Request → ℕ → Bytes → ℕ → Bool
arg_eq r i expected n = slice_eq (get_or r.args i []) expected n

abbrev pub is_set : Request → Bytes → ℕ → Bool
is_set r val n =
    length r.args == 3
    && arg_eq r 0 (codes "SET") 3
    && arg_eq r 1 (codes "foo") 3
    && arg_eq r 2 val n

abbrev pub is_ping : Request → Bool
is_ping r = length r.args == 1 && arg_eq r 0 (codes "PING") 4

abbrev pub set_frame : Bytes
set_frame = codes "*3\r\n$3\r\nSET\r\n$3\r\nfoo\r\n$3\r\nbar\r\n"

abbrev pub binary : Bytes
binary = 97 ∷ 0 ∷ 98 ∷ 255 ∷ 99 ∷ []

-- The eight cases, in their order.
unfoldable pub resp_cases : List Bool
unfolding on_ok is_need_more is_protocol_err slice_eq
resp_cases =
    on_ok (λ r. is_set r (codes "bar") 3 && r.bytes_consumed == length set_frame)
      (parse_request set_frame)
    ∷ on_ok is_ping (parse_request (codes "*1\r\n$4\r\nPING\r\n"))
    ∷ on_ok is_ping (parse_request (codes "PING\r\n"))
    ∷ on_ok (λ r. is_set r (codes "bar") 3) (parse_request (codes "SET\tfoo  bar\n"))
    ∷ on_ok (λ r. is_set r binary 5)
        (parse_request (codes "*3\r\n$3\r\nSET\r\n$3\r\nfoo\r\n$5\r\n" ++ (binary ++ codes "\r\n")))
    ∷ is_need_more (parse_request (codes "*3\r\n$3\r\nSET\r\n$3\r\nfoo\r\n$3\r\nbar"))
    ∷ is_protocol_err (parse_request (codes "*-1\r\n"))
    ∷ is_protocol_err (parse_request (codes "*1\r\n$2\r\nABCD\r\n"))
    ∷ []

unfoldable pub check_all : List Bool → Tally → Tally
unfolding check
check_all [] t = t
check_all (c ∷ cs) t = check_all cs (check c t)

unfoldable pub resp_smoke_test : Tally
unfolding check_all resp_cases
resp_smoke_test = check_all resp_cases (record { total = 0; pass = 0 })
