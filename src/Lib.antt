-- ===== src/Lib.antt =====
-- A Redis clone in C: a single-threaded server that reads RESP2 requests from its clients, runs them
-- on one in-memory table, and writes the replies back.
--
-- The parts, and how they interact. The event loop (src/networking.c) reads a client's bytes into an
-- input buffer (src/bytebuf.c), has src/resp.c parse the requests in it, and gives each to
-- `command_execute` (src/command.c), which reads and writes the hash table (src/hashtable.c) and
-- appends its reply, by the serializers of src/resp.c, to the output buffer of the connection. What
-- that buffer holds is written to the client as the socket takes it.
--
-- The files, each with child modules for its lemmas and a module Tests with runs:
--   Heap         the C allocator, as a list of the answers of `malloc` and `realloc`
--   Bytebuf      src/bytebuf.c: `bytebuf_t` is the record Bytebuf, with the array as the list `bytes`;
--                `compact_in_place`, `ensure_tail_cap`, `bytebuf_append` (append), `bytebuf_appendf`
--                (appendf), `bytebuf_reserve`, `bytebuf_advance`, `bytebuf_consume`, ...; `live` is
--                the queue that the buffer stands for
--   Hashtable    src/hashtable.c: `hashtable_t` is the record Hashtable, a chain a list of entries;
--                `ht_set` (set_key), `ht_del` (del_key), `ht_get` (get_key), `ht_scan` (scan),
--                `ht_init`, `ht_destroy`
--   Decimal      printing by `%zu` and `%PRId64`, and `parse_int64` of src/command.c
--   Resp         src/resp.c: Number, Bulk, Inline and Request are the parser, where Outcome is
--                `resp_status_t`; Replies are the serializers
--   Glob         `glob_match` of src/command.c
--   Command      src/command.c: Context is `command_ctx_t`; Basic, Numbers, Strings and Keyspace are
--                the handlers, and Dispatch is the table and `command_execute`
--   Connection   src/networking.c: `conn_t`, `arm_events`, `handle_read` and `handle_write`
--   Server       src/networking.c: the globals and the list of connections, `accept_clients` and
--                `close_conn`; Setup is `net_init`, Loop is `net_run`
--   Main         src/main.c: Table, Parser and Commands are the self-tests, Checks is what they
--                compare with, Program is `main`
--
-- Numbers of C are native natural numbers. `size_t` and `uint64_t` are written with their
-- wrap-around; `int64_t` is an exact integer, with the range stated where it matters. The casts of a
-- `size_t` to `int64_t` and to `int` are `int64_of` and `int_of` of Prelude.Int. A function that
-- returns 0 or -1 returns `ok` or `fail`. A byte is a number, and slices are the bytes that they
-- borrow: the handlers do not write to the input buffer while a request is run.
--
-- Fuel. The doubling loop of `ensure_tail_cap` has 32 rounds: 25 doublings pass the cap from any
-- positive capacity. `glob_match` has a round for each byte of the pattern, the tokenizer of inline
-- requests one for each byte of the line and one more, and the dispatch loop of `handle_read` one for
-- each unread byte and one more: each round takes a byte at least.
--
-- The event loop recurs on the list of its turns, and waits at the end of it; the self-tests are
-- lists of cases.
--
-- References. Command.Machine is the key-value machine that the commands are held against: a function
-- from keys to values, and one clause for each command but KEYS and DBSIZE, which Command.Listing
-- holds against the keys of that function in any order. Server.Order runs the commands of several
-- clients on that machine in one order, which Server.Prompt compares with the order in which they
-- arrive. Resp.Decode and Resp.Streams are a client's reader of replies, written from the wire format
-- and not from the serializers; Resp.Plain says which replies it can read.
--
-- Parameters. What the allocator and the system calls answer is given by lists of answers for each
-- call in turn, or by one answer; a theorem that needs calls to succeed says so. That no allocation is
-- refused is the empty list, behind which every call succeeds. Which descriptor a call opens, and
-- which events `epoll_wait` reports, are functions of the open and of the watched descriptors; a
-- theorem names as a hypothesis that a new descriptor is not open already, and that only watched
-- descriptors are reported, each once in a batch. `vsnprintf` is the printing of Decimal; it is taken
-- to report no error. A pointer to a connection is named by its descriptor, which no other live
-- connection has.
--
-- Not modelled: the messages on the error stream, but for those of `smoke_test`; the addresses of
-- the peers; and how the kernel delivers signals, of which a turn of the loop says only whether one
-- is handled in it.
pub mod Prelude
pub mod Heap
pub mod Bytebuf
pub mod Hashtable
pub mod Decimal
pub mod Resp
pub mod Glob
pub mod Command
pub mod Connection
pub mod Server
pub mod Main
