-- ===== src/Resp/Tests.antt =====
-- src/resp.c: runs of the parser, and the theorems about it at concrete inputs.
use redis_in_c.Prelude.{◌+◌, ◌≡◌, refl, arith, List, [], ◌∷◌, ◌++◌, Bytes, codes, length, crlf, lf}
use redis_in_c.Resp.Outcome.{parsed, need_more, protocol_err}
use redis_in_c.Decimal.{print_nat}
use redis_in_c.Resp.Number.{parse_int_until_crlf, number_loop}
use redis_in_c.Resp.Bulk.{parse_multi_bulk, elements, bulks, parse_bulk}
use redis_in_c.Resp.Inline.{
  find_newline, inline_args, line_end, skip_blanks, after_token, token, parse_inline, tokenize,
}
use redis_in_c.Resp.Request.{parse_request}
use redis_in_c.Resp.Splitting.{words}
use redis_in_c.Resp.Stable.{Stable}
use redis_in_c.Resp.Lines.{trim_cr, inline_request, parse_inline-line}
use redis_in_c.Resp.Frames.{Fits, parse_request-Fits}
use redis_in_c.Resp.RoundTrip.{encode_request, request_size, parse-encode}
use redis_in_c.Resp.Verdicts.{parse_request-Stable, parse_prefix}

abbrev get_k : List Bytes
get_k = codes "GET" ∷ codes "k" ∷ []

parse-encode_example :
    parse_request (encode_request get_k (codes "PING"))
    ≡ parsed (record { args = get_k; bytes_consumed = request_size get_k })
parse-encode_example =
    parse-encode get_k (codes "PING") (omega arith) (omega arith) (omega arith, (omega arith, tt))

abbrev short_line : Bytes
short_line = codes "GET k"

parse_request-Stable_example :
    Stable (parse_request (short_line ++ crlf)) (parse_request (short_line ++ crlf ++ codes "PI"))
parse_request-Stable_example = parse_request-Stable (short_line ++ crlf) (codes "PI")

encoded :
    encode_request get_k []
    ≡ codes "*2"
      ++ crlf
      ++ codes "$3"
      ++ crlf
      ++ codes "GET"
      ++ crlf
      ++ codes "$1"
      ++ crlf
      ++ codes "k"
      ++ crlf
unfolding encode_request print_nat
encoded = refl

parse_prefix_example :
    parse_request (codes "*2" ++ crlf ++ codes "$3" ++ crlf ++ codes "GE") ≡ need_more
parse_prefix_example =
    parse_prefix get_k (codes "*2" ++ crlf ++ codes "$3" ++ crlf ++ codes "GE")
      (codes "T" ++ crlf ++ codes "$1" ++ crlf ++ codes "k" ++ crlf) (omega arith) (omega arith)
      (omega arith, (omega arith, tt)) (unfold encode_request print_nat in refl) (λ e. cc)

short_run :
    parse_request (short_line ++ crlf) ≡ parsed (record { args = get_k; bytes_consumed = 7 })
unfolding parse_request parse_inline find_newline inline_args tokenize line_end skip_blanks
    after_token token
short_run = refl

parse_request-Fits_example : Fits (short_line ++ crlf) (record { args = get_k; bytes_consumed = 7 })
parse_request-Fits_example =
    parse_request-Fits (short_line ++ crlf) (record { args = get_k; bytes_consumed = 7 }) short_run

parse_inline-line_example :
    parse_inline (short_line ++ (lf ∷ codes "PING"))
    ≡ inline_request (length short_line + 1) (words (trim_cr short_line))
parse_inline-line_example =
    parse_inline-line short_line (codes "PING")
      (omega arith, (omega arith, (omega arith, (omega arith, (omega arith, tt))))) (omega arith)

-- A negative count, a nested frame of the wrong type, and a wrong terminator are refused.
bad_count_run : parse_request (codes "*0" ++ crlf) ≡ protocol_err
unfolding parse_request parse_multi_bulk parse_int_until_crlf number_loop elements
bad_count_run = refl

bad_type_run : parse_request (codes "*1" ++ crlf ++ codes "+OK" ++ crlf) ≡ protocol_err
unfolding parse_request parse_multi_bulk parse_int_until_crlf number_loop elements bulks parse_bulk
bad_type_run = refl

blank_line_run : parse_request (codes "  " ++ crlf) ≡ protocol_err
unfolding parse_request parse_inline find_newline inline_args tokenize line_end skip_blanks
blank_line_run = refl
