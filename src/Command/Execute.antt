-- ===== src/Command/Execute.antt =====
-- src/command.c: `command_execute` leaves a valid store and buffer, and answers by one reply.
use redis_in_c.Prelude.{
  inl, inr, arith, Bool-cases, Bytes, List, [], ◌∷◌, length, codes, All, IsWord, ltb, ◌||◌, ◌==◌,
  take, if◌then◌else◌,
}
use redis_in_c.Hashtable.View.{entries}
use redis_in_c.Resp.Replies.{reply_error}
use redis_in_c.Resp.Outcome.{Request}
use redis_in_c.Resp.Plain.{IsLine, IsLine-append, IsLine-take}
use redis_in_c.Resp.Reply.{error, error-Emits}
use redis_in_c.Command.Context.{Ctx, send}
use redis_in_c.Command.Answers.{IsReady, send-Answered}
use redis_in_c.Prelude.Int.{pos, ltb_ℤ, int_of}
use redis_in_c.Command.Dispatch.{
  CmdEntry, commands, above, run_entry, dispatch, execute_args, command_execute, unknown_command,
  wrong_arity, slice_eq_ci, c_string,
}
use redis_in_c.Command.Served.{
  Served, same_store, Handled, Served-Handled, Handled-any, Handles, IsServable, Serves-Handles,
}
use redis_in_c.Command.Serving.{
  cmd_ping-Served, cmd_get-Served, cmd_set-Served, cmd_del-Served, cmd_exists-Served,
  cmd_command-Served, cmd_incr-Served, cmd_decr-Served, cmd_incrby-Served, cmd_decrby-Served,
  cmd_strlen-Served, cmd_append-Served, cmd_setnx-Served, cmd_getset-Served, cmd_keys-Handled,
  cmd_dbsize-Handled, cmd_flushdb-Served,
}

commands-IsLine : All (λ e. IsLine e.name) commands
unfolding commands
commands-IsLine = omega arith

commands-Handled : All (λ e. Handles e.handler) commands
unfolding commands
commands-Handled = (
  Serves-Handles _ cmd_ping-Served,
  (
    Serves-Handles _ cmd_get-Served,
    (
      Serves-Handles _ cmd_set-Served,
      (
        Serves-Handles _ cmd_del-Served,
        (
          Serves-Handles _ cmd_exists-Served,
          (
            Serves-Handles _ cmd_command-Served,
            (
              Serves-Handles _ cmd_incr-Served,
              (
                Serves-Handles _ cmd_decr-Served,
                (
                  Serves-Handles _ cmd_incrby-Served,
                  (
                    Serves-Handles _ cmd_decrby-Served,
                    (
                      Serves-Handles _ cmd_strlen-Served,
                      (
                        Serves-Handles _ cmd_append-Served,
                        (
                          cmd_keys-Handled,
                          (
                            cmd_dbsize-Handled,
                            (
                              Serves-Handles _ cmd_flushdb-Served,
                              (
                                Serves-Handles _ cmd_setnx-Served,
                                (Serves-Handles _ cmd_getset-Served, tt),
                              ),
                            ),
                          ),
                        ),
                      ),
                    ),
                  ),
                ),
              ),
            ),
          ),
        ),
      ),
    ),
  ),
)

error-Handled :
    (safe : Type 0) (c : Ctx) (msg : Bytes)
    → IsReady c
    → (safe → IsLine msg)
    → Handled safe c (send (reply_error msg) c)
error-Handled safe c msg r plain =
    Served-Handled c _
      (same_store c r (error msg) plain _ (send-Answered c _ _ r (error-Emits msg)))

run_entry-Handled : (e : CmdEntry) → IsLine e.name → Handles e.handler → Handles (run_entry e)
unfolding run_entry wrong_arity
run_entry-Handled e line h c args s =
    elim (Bool-cases
      (ltb_ℤ (int_of (length args)) (pos e.min_argc) || above e.max_argc (int_of (length args)))) [
        | inl t ↦ rw t (
            error-Handled Unit c _ s.ready (λ _.
              IsLine-append (codes "ERR wrong number of arguments for '") _ (omega arith)
                (IsLine-append e.name (codes "'") line (omega arith))))
        | inr f ↦ rw f (h c args s)
      ]

c_string-IsLine : (s : Bytes) → IsLine s → IsLine (c_string s)
unfolding c_string
c_string-IsLine [] h = tt
c_string-IsLine (c ∷ s) h = elim (Bool-cases (c == 0)) [
  | inl t ↦ rw t tt
  | inr f ↦ rw f (h.0, c_string-IsLine s h.1)
]

dispatch-Handled :
    (es : List CmdEntry) (name : Bytes)
    → All (λ e. IsLine e.name × Handles e.handler) es
    → (c : Ctx) (args : List Bytes) → IsServable c args
    → Handled (IsLine name) c (dispatch es name c args)
unfolding dispatch unknown_command
dispatch-Handled [] name h c args s = error-Handled (IsLine name) c _ s.ready (λ line.
    IsLine-append (codes "ERR unknown command '") _ (omega arith) (
      IsLine-append _ (codes "'")
        (c_string-IsLine (take (if ltb (length name) 64 then length name else 64) name)
          (IsLine-take (if ltb (length name) 64 then length name else 64) name line))
        (omega arith)))
dispatch-Handled (e ∷ es) name h c args s = elim (Bool-cases (slice_eq_ci name e.name)) [
  | inl t ↦ rw t (Handled-any (IsLine name) c _ (run_entry-Handled e h.0.0 h.0.1 c args s))
  | inr f ↦ rw f (dispatch-Handled es name h.1 c args s)
]

-- The name of a command has no line break.
abbrev pub NamesLine : List Bytes → Type 0
NamesLine [] = Unit
NamesLine (name ∷ rest) = IsLine name

execute_args-Handled :
    (c : Ctx) (args : List Bytes)
    → IsServable c args
    → Handled (NamesLine args) c (execute_args c args)
unfolding execute_args
execute_args-Handled c [] s =
    error-Handled Unit c (codes "ERR empty command") s.ready (λ _. omega arith)
execute_args-Handled c (name ∷ rest) s =
    dispatch-Handled commands name (named commands commands-IsLine commands-Handled) c (name ∷ rest)
      s
  where
    named :
        (es : List CmdEntry)
        → All (λ e. IsLine e.name) es
        → All (λ e. Handles e.handler) es
        → All (λ e. IsLine e.name × Handles e.handler) es
    named [] l h = tt
    named (e ∷ es) l h = ((l.0, h.0), named es l.1 h.1)

-- On a valid store of sized entries fewer than 2^64 and a valid buffer, every request of 64-bit
-- sizes leaves a valid store and buffer and appends exactly one encoded reply, whose status or
-- error text has no CR and no LF where the name of the command has none: all of it on success, a
-- first part where the buffer fails; with no allocation refused it fails only if the reply and a
-- byte more do not fit under 16 MiB.
pub command_execute-Served :
    (c : Ctx) (req : Request)
    → IsReady c
    → IsWord (length (entries c.store))
    → All (λ a. IsWord (length a)) req.args
    → IsWord (length req.args)
    → Served (NamesLine req.args) c (command_execute c req)
unfolding command_execute
command_execute-Served c req r few words argc =
    (execute_args-Handled c req.args (record { ready = r; words = words; argc = argc })).served few

-- A request leaves a valid store and buffer, whatever the number of entries.
pub command_execute-IsReady :
    (c : Ctx) (req : Request)
    → IsReady c
    → All (λ a. IsWord (length a)) req.args
    → IsWord (length req.args)
    → IsReady (command_execute c req).1
unfolding command_execute
command_execute-IsReady c req r words argc =
    (execute_args-Handled c req.args (record { ready = r; words = words; argc = argc })).ready
