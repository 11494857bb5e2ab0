-- ===== src/Main/Commands.antt =====
-- src/main.c: `command_smoke_test`.
use redis_in_c.Prelude.{ℕ, Bool, ◌&&◌, ◌==◌, Bytes, codes, List, [], ◌∷◌, ◌++◌}
use redis_in_c.Heap.{Heap}
use redis_in_c.Bytebuf.{Bytebuf, init, reset, live_len}
use redis_in_c.Hashtable.{Hashtable}
use redis_in_c.Command.Context.{Ctx}
use redis_in_c.Command.Dispatch.{command_execute}
use redis_in_c.Main.Checks.{is_ok, bytebuf_eq, bytebuf_starts_with, Tally, check}

-- A block of the test: the arguments of its request, and its test of the reply.
pub record Case : Type 0 where
  pub args : List Bytes
  pub passes : Bytebuf → Bool

-- A reply that is to be these bytes, with their number as the source writes it.
unfoldable pub expects : List Bytes → Bytes → ℕ → Case
unfolding bytebuf_eq
expects args reply n = record { args = args; passes = λ b. bytebuf_eq b reply n }

-- Cases 1 to 11: the first commands, and the errors of the dispatcher.
unfoldable pub basic_cases : List Case
unfolding expects
basic_cases =
    expects (codes "PING" ∷ []) (codes "+PONG\r\n") 7
    ∷ expects (codes "PING" ∷ codes "hello" ∷ []) (codes "$5\r\nhello\r\n") 11
    ∷ expects (codes "SET" ∷ codes "smoke_foo" ∷ codes "bar" ∷ []) (codes "+OK\r\n") 5
    ∷ expects (codes "GET" ∷ codes "smoke_foo" ∷ []) (codes "$3\r\nbar\r\n") 9
    ∷ expects (codes "GET" ∷ codes "smoke_nope" ∷ []) (codes "$-1\r\n") 5
    ∷ expects (codes "EXISTS" ∷ codes "smoke_foo" ∷ codes "smoke_nope" ∷ codes "smoke_foo" ∷ [])
        (codes ":2\r\n") 4
    ∷ expects (codes "DEL" ∷ codes "smoke_foo" ∷ []) (codes ":1\r\n") 4
    ∷ expects (codes "GET" ∷ codes "smoke_foo" ∷ []) (codes "$-1\r\n") 5
    ∷ expects (codes "COMMAND" ∷ []) (codes "*0\r\n") 4
    ∷ expects (codes "XYZ" ∷ []) (codes "-ERR unknown command 'XYZ'\r\n") 28
    ∷ expects (codes "SET" ∷ codes "only_key" ∷ [])
        (codes "-ERR wrong number of arguments for 'SET'\r\n") 42
    ∷ []

-- Cases 12 to 19: the counters, behind a FLUSHDB.
unfoldable pub counter_cases : List Case
unfolding expects
counter_cases =
    expects (codes "FLUSHDB" ∷ []) (codes "+OK\r\n") 5
    ∷ expects (codes "INCR" ∷ codes "counter" ∷ []) (codes ":1\r\n") 4
    ∷ expects (codes "INCR" ∷ codes "counter" ∷ []) (codes ":2\r\n") 4
    ∷ expects (codes "INCRBY" ∷ codes "counter" ∷ codes "10" ∷ []) (codes ":12\r\n") 5
    ∷ expects (codes "DECRBY" ∷ codes "counter" ∷ codes "5" ∷ []) (codes ":7\r\n") 4
    ∷ expects (codes "DECR" ∷ codes "counter" ∷ []) (codes ":6\r\n") 4
    ∷ expects (codes "SET" ∷ codes "not_int" ∷ codes "hello" ∷ []) (codes "+OK\r\n") 5
    ∷ expects (codes "INCR" ∷ codes "not_int" ∷ [])
        (codes "-ERR value is not an integer or out of range\r\n") 46
    ∷ []

-- Cases 20 to 24: STRLEN and APPEND.
unfoldable pub string_cases : List Case
unfolding expects
string_cases =
    expects (codes "STRLEN" ∷ codes "counter" ∷ []) (codes ":1\r\n") 4
    ∷ expects (codes "STRLEN" ∷ codes "missing" ∷ []) (codes ":0\r\n") 4
    ∷ expects (codes "APPEND" ∷ codes "greeting" ∷ codes "Hello" ∷ []) (codes ":5\r\n") 4
    ∷ expects (codes "APPEND" ∷ codes "greeting" ∷ codes " World" ∷ []) (codes ":11\r\n") 5
    ∷ expects (codes "GET" ∷ codes "greeting" ∷ []) (codes "$11\r\nHello World\r\n") 18
    ∷ []

-- Cases 25 to 35: KEYS, DBSIZE and FLUSHDB.
unfoldable pub keyspace_cases : List Case
unfolding expects bytebuf_starts_with live_len
keyspace_cases =
    expects (codes "FLUSHDB" ∷ []) (codes "+OK\r\n") 5
    ∷ expects (codes "DBSIZE" ∷ []) (codes ":0\r\n") 4
    ∷ expects (codes "SET" ∷ codes "k1" ∷ codes "v1" ∷ []) (codes "+OK\r\n") 5
    ∷ expects (codes "SET" ∷ codes "k2" ∷ codes "v2" ∷ []) (codes "+OK\r\n") 5
    ∷ expects (codes "SET" ∷ codes "k3" ∷ codes "v3" ∷ []) (codes "+OK\r\n") 5
    ∷ expects (codes "DBSIZE" ∷ []) (codes ":3\r\n") 4
    ∷ expects (codes "KEYS" ∷ codes "k1" ∷ []) (codes "*1\r\n$2\r\nk1\r\n") 12
    ∷ expects (codes "KEYS" ∷ codes "nope*" ∷ []) (codes "*0\r\n") 4
    ∷ record {
      args = codes "KEYS" ∷ codes "*" ∷ [];
      passes = λ b. bytebuf_starts_with b (codes "*3\r\n") 4 && live_len b == 28;
    }
    ∷ expects (codes "FLUSHDB" ∷ []) (codes "+OK\r\n") 5
    ∷ expects (codes "DBSIZE" ∷ []) (codes ":0\r\n") 4
    ∷ []

-- Cases 36 to 41: SETNX and GETSET.
unfoldable pub atomic_cases : List Case
unfolding expects
atomic_cases =
    expects (codes "SETNX" ∷ codes "sk" ∷ codes "first" ∷ []) (codes ":1\r\n") 4
    ∷ expects (codes "SETNX" ∷ codes "sk" ∷ codes "second" ∷ []) (codes ":0\r\n") 4
    ∷ expects (codes "GET" ∷ codes "sk" ∷ []) (codes "$5\r\nfirst\r\n") 11
    ∷ expects (codes "GETSET" ∷ codes "gs" ∷ codes "v1" ∷ []) (codes "$-1\r\n") 5
    ∷ expects (codes "GETSET" ∷ codes "gs" ∷ codes "v2" ∷ []) (codes "$2\r\nv1\r\n") 8
    ∷ expects (codes "GET" ∷ codes "gs" ∷ []) (codes "$2\r\nv2\r\n") 8
    ∷ []

-- A request is run, its reply is tested, and the buffer is emptied.
unfoldable pub run_case : Case → Tally × Ctx → Tally × Ctx
unfolding command_execute is_ok check
run_case k (t, c) =
    let (rc, c') = command_execute c (record { args = k.args; bytes_consumed = 0 }) in
    (check (is_ok rc && k.passes c'.out) t, record c' { out = reset c'.out })

unfoldable pub run_cases : List Case → Tally × Ctx → Tally × Ctx
unfolding run_case
run_cases [] s = s
run_cases (k ∷ ks) s = run_cases ks (run_case k s)

unfoldable pub all_cases : List Case
unfolding basic_cases counter_cases string_cases keyspace_cases atomic_cases
all_cases = basic_cases ++ (counter_cases ++ (string_cases ++ (keyspace_cases ++ atomic_cases)))

-- The buffer is freed at the end.
unfoldable pub command_smoke_test : Heap → Hashtable → Tally × Ctx
unfolding run_cases all_cases
command_smoke_test h t =
    run_cases all_cases (record { total = 0; pass = 0 }, record { store = t; out = init; heap = h })
