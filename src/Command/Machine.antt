-- ===== src/Command/Machine.antt =====
-- src/command.h: what the commands promise. A key-value machine that knows nothing of buckets,
-- buffers and allocators, for every command but KEYS and DBSIZE.
use redis_in_c.Prelude.{
  ℕ, ◌+◌, Bool, ltb, not, ◌&&◌, if◌then◌else◌, Bytes, Option, none, some, List, [], ◌∷◌, ◌++◌,
  length, codes, size_mod,
}
use redis_in_c.Prelude.Int.{ℤ, pos, int64_of, negsuc, ◌+ℤ◌, ◌-ℤ◌, ltb_ℤ, int64_max, int64_min}
use redis_in_c.Hashtable.{keys_equal}
use redis_in_c.Decimal.{print_int, parse_int64}
use redis_in_c.Hashtable.Count.{held}
use redis_in_c.Resp.Reply.{Reply, status, error, integer, bulk, bulks}
use redis_in_c.Command.Values.{value_reply, old_value}
use redis_in_c.Command.Counters.{bad_integer, overflow}

-- A command with its arguments.
pub data Op : Type 0 where
  ping : Op
  echo : Bytes → Op
  get : Bytes → Op
  put : Bytes → Bytes → Op
  del : Bytes → List Bytes → Op
  exists : Bytes → List Bytes → Op
  command : List Bytes → Op
  incr : Bytes → Op
  decr : Bytes → Op
  incrby : Bytes → Bytes → Op
  decrby : Bytes → Bytes → Op
  strlen : Bytes → Op
  append : Bytes → Bytes → Op
  flushdb : Op
  setnx : Bytes → Bytes → Op
  getset : Bytes → Bytes → Op

abbrev pub operands_of : Op → List Bytes
operands_of ping = []
operands_of (echo msg) = msg ∷ []
operands_of (get key) = key ∷ []
operands_of (put key val) = key ∷ val ∷ []
operands_of (del key keys) = key ∷ keys
operands_of (exists key keys) = key ∷ keys
operands_of (command topics) = topics
operands_of (incr key) = key ∷ []
operands_of (decr key) = key ∷ []
operands_of (incrby key delta) = key ∷ delta ∷ []
operands_of (decrby key delta) = key ∷ delta ∷ []
operands_of (strlen key) = key ∷ []
operands_of (append key val) = key ∷ val ∷ []
operands_of flushdb = []
operands_of (setnx key val) = key ∷ val ∷ []
operands_of (getset key val) = key ∷ val ∷ []

-- The row of the command table.
abbrev pub row_of : Op → ℕ
row_of ping = 0
row_of (echo msg) = 0
row_of (get key) = 1
row_of (put key val) = 2
row_of (del key keys) = 3
row_of (exists key keys) = 4
row_of (command topics) = 5
row_of (incr key) = 6
row_of (decr key) = 7
row_of (incrby key delta) = 8
row_of (decrby key delta) = 9
row_of (strlen key) = 10
row_of (append key val) = 11
row_of flushdb = 14
row_of (setnx key val) = 15
row_of (getset key val) = 16

-- The state of the machine: the value of each key.
abbrev pub View : Type 0
View = Bytes → Option Bytes

abbrev pub with_value : Bytes → Bytes → View → View
with_value key val m = λ j. if keys_equal key j then some val else m j

abbrev pub without : Bytes → View → View
without key m = λ j. if keys_equal key j then none else m j

abbrev pub nothing : View
nothing = λ j. none

-- How many of the keys are there, one that is named twice counted twice.
unfoldable pub count_held : List Bytes → View → ℕ
count_held [] m = 0
count_held (k ∷ ks) m = held (m k) + count_held ks m

-- The keys are removed one after the other, and those that were there are counted.
unfoldable pub remove : List Bytes → View → ℕ × View
remove [] m = (0, m)
remove (k ∷ ks) m = let (n, m') = remove ks (without k m) in (held (m k) + n, m')

abbrev pub is_int64 : ℤ → Bool
is_int64 z = not (ltb_ℤ z int64_min) && not (ltb_ℤ int64_max z)

abbrev pub number_of : Option Bytes → Option ℤ
number_of none = some (pos 0)
number_of (some v) = parse_int64 v

unfoldable pub add_to : Bytes → ℤ → Option ℤ → View → Reply × View
add_to key delta none m = (bad_integer, m)
add_to key delta (some n) m =
    if is_int64 (n +ℤ delta)
    then (integer (n +ℤ delta), with_value key (print_int (n +ℤ delta)) m)
    else (overflow, m)

unfoldable pub add_parsed : Bytes → (ℤ → ℤ) → Option ℤ → View → Reply × View
unfolding add_to
add_parsed key f none m = (bad_integer, m)
add_parsed key f (some delta) m = add_to key (f delta) (number_of (m key)) m

unfoldable pub put_missing : Bytes → Bytes → Option Bytes → View → Reply × View
put_missing key val (some old) m = (integer (pos 0), m)
put_missing key val none m = (integer (pos 1), with_value key val m)

-- The reply, and the state behind it. A length is answered as an `int64_t`.
unfoldable pub perform : Op → View → Reply × View
unfolding count_held remove add_parsed put_missing
perform ping m = (status (codes "PONG"), m)
perform (echo msg) m = (bulk msg, m)
perform (get key) m = (value_reply (m key), m)
perform (put key val) m = (status (codes "OK"), with_value key val m)
perform (del key keys) m = let (n, m') = remove (key ∷ keys) m in (integer (pos n), m')
perform (exists key keys) m = (integer (pos (count_held (key ∷ keys) m)), m)
perform (command topics) m = (bulks [], m)
perform (incr key) m = add_to key (pos 1) (number_of (m key)) m
perform (decr key) m = add_to key (negsuc 0) (number_of (m key)) m
perform (incrby key delta) m = add_parsed key (λ z. z) (parse_int64 delta) m
perform (decrby key delta) m = add_parsed key (λ z. pos 0 -ℤ z) (parse_int64 delta) m
perform (strlen key) m = (integer (int64_of (length (old_value (m key)))), m)
perform (append key val) m =
    let new = old_value (m key) ++ val in
    if ltb (length new) size_mod
    then (integer (int64_of (length new)), with_value key new m)
    else (error (codes "ERR string exceeds maximum allowed size"), m)
perform flushdb m = (status (codes "OK"), nothing)
perform (setnx key val) m = put_missing key val (m key) m
perform (getset key val) m = (value_reply (m key), with_value key val m)

-- The commands one after the other: their replies in their order, and the last state.
unfoldable pub perform_all : List Op → View → List Reply × View
unfolding perform
perform_all [] m = ([], m)
perform_all (op ∷ ops) m =
    let (p, m') = perform op m in let (ps, m'') = perform_all ops m' in (p ∷ ps, m'')
