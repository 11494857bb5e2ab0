-- ===== src/Main/Table.antt =====
-- src/main.c: `smoke_test`, with the lines that it prints.
use redis_in_c.Prelude.{if◌then◌else◌, Bytes, codes, Option, none, some, List, [], ◌∷◌, ◌++◌}
use redis_in_c.Heap.{Heap, Rc, ok, fail}
use redis_in_c.Hashtable.{Hashtable, set_key, get_key, del_key}
use redis_in_c.Decimal.{print_nat}
use redis_in_c.Main.Checks.{dump_value}

-- What the test leaves: its lines, the table and the allocator.
abbrev pub Log : Type 0
Log = List Bytes × Hashtable × Heap

abbrev pub say : Bytes → Log → Log
say line (lines, t, h) = (line ∷ lines, t, h)

-- `if (ht_set(…) != 0) { …; return; }`
unfoldable pub or_return : Bytes → (Hashtable → Heap → Log) → Rc × Hashtable × Heap → Log
or_return msg k (ok, t, h) = k t h
or_return msg k (fail, t, h) = (msg ∷ [], t, h)

-- The line of a `ht_get`.
unfoldable pub shown : Bytes → Bytes → Option Bytes → Bytes
unfolding dump_value
shown label missing (some val) = dump_value label val
shown label missing none = missing

abbrev pub bin_key : Bytes
bin_key = 97 ∷ 0 ∷ 98 ∷ []

abbrev pub bin_val : Bytes
bin_val = 1 ∷ 2 ∷ 0 ∷ 255 ∷ []

-- The deletion, the lookup behind it, and the number of entries.
unfoldable pub delete_part : Hashtable → Heap → Log
unfolding print_nat
delete_part t h =
    let (deleted, t') = del_key t (codes "name") in
    (
      (codes "  ht_del(name): " ++ (if deleted then codes "ok\n" else codes "miss\n"))
          ∷ (codes "  ht_get(name) after delete: " ++ (elim (get_key t' (codes "name")) [
            | some _ ↦ codes "FOUND (bug!)\n"
            | none ↦ codes "miss (expected)\n"
          ]))
          ∷ (codes "[smoke] live entries: " ++ (print_nat t'.count ++ codes "\n"))
          ∷ [],
      t',
      h,
    )

-- The value that the overwritten key has, where `ht_set` has succeeded and `ht_get` finds one.
unfoldable pub overwrite_part : Rc × Hashtable × Heap → Log
unfolding delete_part dump_value
overwrite_part (fail, t, h) = delete_part t h
overwrite_part (ok, t, h) = elim (get_key t (codes "hello")) [
  | some val ↦ say (dump_value (codes "hello (overwritten)") val) (delete_part t h)
  | none ↦ delete_part t h
]

unfoldable pub get_part : Hashtable → Heap → Log
unfolding overwrite_part shown
get_part t h =
    say (shown (codes "hello") (codes "  hello: <missing>\n") (get_key t (codes "hello"))) (
      say (shown (codes "name") (codes "  name: <missing>\n") (get_key t (codes "name"))) (
        say (shown (codes "a\\x00b") (codes "  a\\x00b: <missing>\n") (get_key t bin_key))
          (overwrite_part (set_key h t (codes "hello") (codes "WORLD!")))))

unfoldable pub set_binary : Hashtable → Heap → Log
unfolding or_return get_part
set_binary t h =
    or_return (codes "[smoke] ht_set(binary) failed (OOM)\n") get_part (set_key h t bin_key bin_val)

unfoldable pub set_name : Hashtable → Heap → Log
unfolding or_return set_binary
set_name t h =
    or_return (codes "[smoke] ht_set(name) failed (OOM)\n") set_binary
      (set_key h t (codes "name") (codes "redis-in-c"))

unfoldable pub smoke_test : Heap → Hashtable → Log
unfolding or_return set_name
smoke_test h t = say (codes "[smoke] running Phase 1 hashtable smoke test...\n") (
    or_return (codes "[smoke] ht_set(hello) failed (OOM)\n") set_name
      (set_key h t (codes "hello") (codes "world")))
