-- ===== src/Glob/Tests.antt =====
-- src/command.c: runs of `glob_match`, and the theorem about it at a concrete input.
use redis_in_c.Prelude.{◌≡◌, ◌↔◌, refl, true, false, codes}
use redis_in_c.Glob.{glob_match}
use redis_in_c.Glob.Matching.{Matches}
use redis_in_c.Glob.Decision.{glob_match_iff}

glob_match_iff_example :
    (glob_match (codes "h*[^a-]?") (codes "hello") ≡ true)
    ↔ Matches (codes "h*[^a-]?") (codes "hello")
glob_match_iff_example = glob_match_iff (codes "h*[^a-]?") (codes "hello")

star_run : glob_match (codes "h**o") (codes "hello") ≡ true
unfolding glob_match
star_run = refl

-- A hyphen in a class is a byte like any other.
range_run : glob_match (codes "[a-c]") (codes "b") ≡ false
unfolding glob_match
range_run = refl

open_class_run : glob_match (codes "[ab") (codes "a") ≡ false
unfolding glob_match
open_class_run = refl
