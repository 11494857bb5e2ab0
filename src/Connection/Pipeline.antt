-- ===== src/Connection/Pipeline.antt =====
-- src/networking.c: the dispatch loop of `handle_read` ends, and runs the requests in their order.
use redis_in_c.Prelude.{
  ℕ, zero, suc, ◌+◌, ◌<◌, ◌≤◌, ◌≡◌, ◌∙◌, refl, ap, arith, inl, inr, Bytes, List, [], ◌∷◌, length,
  drop, length-drop, All,
}
use redis_in_c.Heap.{Rc, ok, fail, Rc-cases}
use redis_in_c.Bytebuf.{Bytebuf, live, consume}
use redis_in_c.Bytebuf.Inv.{IsValid}
use redis_in_c.Bytebuf.Consume.{consume_lem}
use redis_in_c.Resp.Outcome.{
  Outcome, parsed, need_more, protocol_err, Request, max_argc, max_bulk_len,
}
use redis_in_c.Resp.Request.{parse_request}
use redis_in_c.Resp.Frames.{parse_request-Fits}
use redis_in_c.Resp.RoundTrip.{encode_request, request_size, parse-encode, drop-request}
use redis_in_c.Command.Context.{Ctx}
use redis_in_c.Command.Dispatch.{execute_args, command_execute}
use redis_in_c.Connection.{Dispatched, out_of_fuel, after_command, on_frame, dispatch_frames}

abbrev pub HasEnded : Dispatched → Type 0
HasEnded (out_of_fuel c b) = ⊥
HasEnded _ = Unit

on_frame-HasEnded :
    (loop : Ctx → Bytebuf → Dispatched) (c : Ctx) (b : Bytebuf) (o : Outcome Request)
    → ((q : Request) (c' : Ctx) → o ≡ parsed q → HasEnded (loop c' (consume b q.bytes_consumed)))
    → HasEnded (on_frame loop c b o)
unfolding on_frame after_command
on_frame-HasEnded loop c b need_more h = tt
on_frame-HasEnded loop c b protocol_err h = tt
on_frame-HasEnded loop c b (parsed q) h = elim (Rc-cases (command_execute c q).0) [
  | inl e ↦ rw e (h q (command_execute c q).1 refl)
  | inr e ↦ rw e tt
]

-- On a valid buffer the dispatch loop ends by its own tests with more fuel than there are unread
-- bytes.
pub dispatch_frames-HasEnded :
    (fuel : ℕ) (c : Ctx) (b : Bytebuf)
    → IsValid b
    → length (live b) < fuel
    → HasEnded (dispatch_frames fuel c b)
unfolding dispatch_frames
dispatch_frames-HasEnded zero c b v lt = absurd (omega arith)
dispatch_frames-HasEnded (suc fuel) c b v lt =
    on_frame-HasEnded (dispatch_frames fuel) c b (parse_request (live b)) (λ q c' e.
      let (v', rest) = consume_lem b q.bytes_consumed v in
      let (some_args, few_args, some_bytes, within) = parse_request-Fits (live b) q e in
      dispatch_frames-HasEnded fuel c' (consume b q.bytes_consumed) v'
        (omega (arith, ap (λ s. length s) rest, length-drop q.bytes_consumed (live b))))

-- What `parse-encode` asks of a command.
abbrev pub IsSendable : List Bytes → Type 0
IsSendable args =
    (1 ≤ length args) × (length args ≤ max_argc) × All (λ a. length a ≤ max_bulk_len) args

-- Commands one behind the other, in front of `rest`.
abbrev pub encode_all : List (List Bytes) → Bytes → Bytes
encode_all [] rest = rest
encode_all (args ∷ more) rest = encode_request args (encode_all more rest)

abbrev next_run : (Ctx → Rc × Ctx) → Rc × Ctx → Rc × Ctx
next_run k (ok, c) = k c
next_run k (fail, c) = (fail, c)

-- The commands one after the other, up to one whose reply fails.
unfoldable pub run_all : List (List Bytes) → Ctx → Rc × Ctx
run_all [] c = (ok, c)
run_all (args ∷ more) c = next_run (run_all more) (execute_args c args)

after_ok :
    (loop : Ctx → Bytebuf → Dispatched) (b : Bytebuf) (used : ℕ) (out : Rc × Ctx)
    → out.0 ≡ ok
    → after_command loop b used out ≡ loop out.1 (consume b used)
unfolding after_command
after_ok loop b used (ok, c) e = refl
after_ok loop b used (fail, c) e = cc

dispatch_frames_step :
    (n : ℕ) (c : Ctx) (b : Bytebuf) (args : List Bytes) (used : ℕ)
    → parse_request (live b) ≡ parsed (record { args = args; bytes_consumed = used })
    → (execute_args c args).0 ≡ ok
    → dispatch_frames (suc n) c b ≡ dispatch_frames n (execute_args c args).1 (consume b used)
unfolding dispatch_frames on_frame command_execute
dispatch_frames_step n c b args used e g =
    rw e (after_ok (dispatch_frames n) b used (execute_args c args) g)

-- On a valid buffer that holds the encodings of commands of 1 to 32 arguments of at most 512 MiB
-- each, one behind the other, in front of further bytes, the dispatch loop runs these commands in
-- their order when no reply of theirs fails, and goes on with the bytes that are left, with one
-- round of fuel used for each command.
pub dispatch_frames_pipeline :
    (commands : List (List Bytes)) (rest : Bytes) (fuel : ℕ) (c : Ctx) (b : Bytebuf)
    → All IsSendable commands
    → IsValid b
    → live b ≡ encode_all commands rest
    → (run_all commands c).0 ≡ ok
    → (b' : Bytebuf) × IsValid b'
      × (live b' ≡ rest)
      × (dispatch_frames (length commands + fuel) c b
          ≡ dispatch_frames fuel (run_all commands c).1 b')
unfolding run_all
dispatch_frames_pipeline [] rest fuel c b h v e good =
    let same : 0 + fuel ≡ fuel = omega arith in (b, v, e, ap (λ n. dispatch_frames n c b) same)
dispatch_frames_pipeline (args ∷ more) rest fuel c b (s, h) v e good =
    let used = request_size args in
    let whole : parse_request (live b) ≡ parsed (record { args = args; bytes_consumed = used }) =
      ap parse_request e ∙ parse-encode args (encode_all more rest) s.0 s.1 s.2 in
    let (v', left) = consume_lem b used v in
    let behind : live (consume b used) ≡ encode_all more rest =
      left ∙ ap (drop used) e ∙ drop-request args (encode_all more rest) in
    let fuel_step : length (args ∷ more) + fuel ≡ suc (length more + fuel) = omega arith in
    elim (Rc-cases (execute_args c args).0) [
      | inr f ↦ cc (rw f at good)
      | inl g ↦
          let (b', v'', end, run) =
            dispatch_frames_pipeline more rest fuel (execute_args c args).1 (consume b used) h v'
              behind (rw g at good) in
          (
            b',
            v'',
            end,
            rw g (
                ap (λ n. dispatch_frames n c b) fuel_step
                ∙ dispatch_frames_step (length more + fuel) c b args used whole g
                ∙ run),
          )
    ]
