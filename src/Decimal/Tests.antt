-- ===== src/Decimal/Tests.antt =====
-- src/command.c: runs of `parse_int64`, and the theorems about it at concrete inputs.
use redis_in_c.Prelude.{◌≤◌, ◌≡◌, ◌↔◌, refl, some, none, codes, leb, if◌then◌else◌}
use redis_in_c.Prelude.Int.{negsuc, int64_max}
use redis_in_c.Decimal.{parse_int64, print_int}
use redis_in_c.Decimal.Parse.{
  max_parsed, magnitude, Denotes, parse_int64_iff, parse_int64-print_int,
}

parse_int64_iff_example :
    (parse_int64 (codes "-42") ≡ some (negsuc 41))
    ↔ (Denotes (codes "-42") (negsuc 41) × (magnitude (negsuc 41) ≤ max_parsed))
parse_int64_iff_example = parse_int64_iff (codes "-42") (negsuc 41)

parse_int64-print_int_example :
    parse_int64 (print_int int64_max)
    ≡ (if leb (magnitude int64_max) max_parsed then some int64_max else none)
parse_int64-print_int_example = parse_int64-print_int int64_max

minus_run : parse_int64 (codes "-42") ≡ some (negsuc 41)
unfolding parse_int64
minus_run = refl

lone_minus_run : parse_int64 (codes "-") ≡ none
unfolding parse_int64
lone_minus_run = refl

-- The largest `int64_t` in its own text is refused.
int64_max_run : parse_int64 (codes "9223372036854775807") ≡ none
unfolding parse_int64
int64_max_run = refl

print_run : print_int int64_max ≡ codes "9223372036854775807"
unfolding print_int
print_run = refl
