-- ===== src/Worker.antt =====
-- internal/worker: one worker process, its request/response exchange and its death.
pub mod Life
pub mod Death
pub mod Match
pub mod Tests
use serify.Base.{
  ℕ, Bool, true, false, not, ◌&&◌, ◌||◌, Option, none, some, List, [], ◌∷◌, ◌++◌, if◌then◌else◌,
  ◌==◌, Str, lit, str_eq, is_empty, decimal, quote,
}
use serify.Conf.{Field}
use serify.Proto.{
  Request, ping, bind, serialize, deserialize, exit, request_op, Response, op_ping, op_bind,
  status_ok, status_error, status_skipped, protocol_version,
}

-- What `errors.Is` tells apart of an error.
pub data Kind : Type 0 where
  timeout id_mismatch op_mismatch canceled deadline_exceeded not_supported other : Kind

pub record Error : Type 0 where
  pub kind : Kind
  pub text : Str

-- The case of the `select` of `readWithTimeout` that fires: a line was read and parsed, reading or
-- parsing failed, the timer ran out, or the context was cancelled or expired.
pub data Delivery : Type 0 where
  message : Response → Delivery
  read_error : Str → Delivery
  timed_out : Delivery
  ctx_canceled : Delivery
  ctx_expired : Delivery

-- The operating system's side: a process, its pipes and its exit.
pub record Process : Type 1 where
  pub State : Type 0
  pub start : Str → List Str → Option State  -- `none` when the pipes or the command cannot start
  pub write : State → Request → State × Option Str  -- an error of the pipe
  pub read : State → State × Delivery
  pub kill : State → State
  pub close : State → State  -- stdin closed
  pub wait : State → State × Option Str × Bool  -- the exit error, and whether it came in time

pub data Outcome {ℓ} (A : Type ℓ) : Type ℓ where
  ok : A → Outcome A
  failed : Error → Outcome A

abbrev pub plain : Str → Error
plain text = record { kind = other; text = text }

unfoldable pub err_timeout : Str
err_timeout = lit "timeout"

unfoldable pub err_id_mismatch : Str
err_id_mismatch = lit "response id mismatch"

unfoldable pub err_op_mismatch : Str
err_op_mismatch = lit "response op mismatch"

unfoldable pub err_type_not_supported : Str
err_type_not_supported = lit "worker does not support this type/format"

-- `fmt.Errorf("%w (got %q, want %q)", …)`
unfoldable pub mismatch : Kind → Str → Str → Str → Error
mismatch kind base got want = record {
  kind = kind;
  text = base ++ (lit " (got " ++ (quote got ++ (lit ", want " ++ (quote want ++ lit ")"))));
}

-- the tests behind `case r := <-ch`
unfoldable pub accept : Str → Str → Response → Outcome Response
accept expect_op expect_id resp =
    if not (is_empty expect_id) && not (str_eq resp.id expect_id)
    then failed (mismatch id_mismatch err_id_mismatch resp.id expect_id)
    else if not (is_empty expect_op) && not (str_eq resp.op expect_op)
    then failed (mismatch op_mismatch err_op_mismatch resp.op expect_op)
    else ok resp

-- the `select` of `readWithTimeout`
unfoldable pub judge_delivery : Delivery → Str → Str → ℕ → Outcome Response
unfolding accept
judge_delivery (message resp) expect_op expect_id sec = accept expect_op expect_id resp
judge_delivery (read_error text) expect_op expect_id sec = failed (plain text)
judge_delivery timed_out expect_op expect_id sec =
    failed
      (record { kind = timeout; text = err_timeout ++ (lit " after " ++ (decimal sec ++ lit "s")) })
judge_delivery ctx_canceled expect_op expect_id sec =
    failed (record { kind = canceled; text = lit "context cancelled: context canceled" })
judge_delivery ctx_expired expect_op expect_id sec =
    failed (record {
      kind = deadline_exceeded;
      text = lit "context cancelled: context deadline exceeded";
    })

-- the five tests of `markFatal`
unfoldable pub is_fatal : Kind → Bool
is_fatal timeout = true
is_fatal id_mismatch = true
is_fatal op_mismatch = true
is_fatal canceled = true
is_fatal deadline_exceeded = true
is_fatal not_supported = false
is_fatal other = false

-- `extractOp` and `extractID`
unfoldable pub extract_op : Request → Str
extract_op (serialize id content) = request_op (serialize id content)
extract_op (deserialize id hex) = request_op (deserialize id hex)
extract_op _ = []

unfoldable pub extract_id : Request → Str
extract_id (serialize id content) = id
extract_id (deserialize id hex) = id
extract_id _ = []

unfoldable pub dead_error : Str → Error
dead_error reason = plain (lit "worker is dead: " ++ reason)

abbrev em_dash : Str
em_dash = 226 ∷ 128 ∷ 148 ∷ []

-- the tests of `ping` on its response
unfoldable pub judge_version : Option ℕ → Option Error
judge_version none = some (plain (lit "worker reported no protocol_version in its ping response"))
judge_version (some v) =
    if v == protocol_version
    then none
    else some (
        plain (
          lit "protocol version mismatch: worker library speaks "
          ++ (decimal v
              ++ (lit ", this serify needs "
                  ++ (decimal protocol_version
                      ++ (lit " "
                          ++ (em_dash
                              ++ lit " rebuild the worker against the appropriate library")))))))

unfoldable pub judge_ping : Response → Option Error
unfolding judge_version
judge_ping resp =
    if str_eq resp.status status_error
    then some (plain resp.error)
    else if not (str_eq resp.status status_ok)
    then some (
        plain (
          lit "ping answered with status "
          ++ (quote resp.status ++ (lit "; only " ++ (quote status_ok ++ lit " is valid")))))
    else judge_version resp.version

-- the tests of `Bind` on its response
unfoldable pub judge_bind : Response → Option Error
judge_bind resp =
    if str_eq resp.status status_error
    then some (plain resp.error)
    else if str_eq resp.status status_skipped
    then some (record {
      kind = not_supported;
      text =
          if is_empty resp.reason
          then err_type_not_supported
          else err_type_not_supported ++ (lit ": " ++ resp.reason);
    })
    else none

module _ (os : Process) where
  open os use {State, start, write, read, kill, close, wait}

  -- The mutex is not a field: each operation below is one critical section.
  pub record Worker : Type 0 where
    pub language : Str
    pub dir : Str
    pub process : State
    pub stderr_lines : List Str
    pub dead : Bool
    pub dead_reason : Str

  abbrev Reply : Type 0
  Reply = Worker × Outcome Response

  -- `killAndMark`
  unfoldable pub kill_and_mark : Str → Worker → Worker
  kill_and_mark reason w =
      if w.dead then w else record w { dead = true; dead_reason = reason; process = kill w.process }

  -- `markFatal`
  unfoldable pub mark_fatal : Error → Worker → Worker
  unfolding kill_and_mark is_fatal
  mark_fatal err w = if is_fatal err.kind then kill_and_mark err.text w else w

  -- the end of an exchange: the error, if any, is judged by `markFatal`
  unfoldable pub settle : Worker → Outcome Response → Reply
  unfolding mark_fatal
  settle w (ok resp) = (w, ok resp)
  settle w (failed err) = (mark_fatal err w, failed err)

  -- `readWithTimeout`, then `markFatal` on its error
  unfoldable pub read_with_timeout : Worker → Str → Str → ℕ → Reply
  unfolding settle
  read_with_timeout w expect_op expect_id sec =
      let (process, delivery) = read w.process in
      settle (record w { process = process }) (judge_delivery delivery expect_op expect_id sec)

  unfoldable pub after_write : Worker → Option Str → (Str → Str) → (Worker → Reply) → Reply
  after_write w (some text) wrap next = (w, failed (plain (wrap text)))
  after_write w none wrap next = next w

  -- A request is written and, unless that fails, its response awaited.
  unfoldable pub exchange : Worker → Request → (Str → Str) → Str → Str → ℕ → Reply
  unfolding after_write read_with_timeout
  exchange w req wrap expect_op expect_id sec =
      let (process, err) = write w.process req in
      after_write (record w { process = process }) err wrap
        (λ v. read_with_timeout v expect_op expect_id sec)

  -- `Send`
  unfoldable pub send : Worker → Request → ℕ → Reply
  unfolding exchange
  send w req sec =
      if w.dead
      then (w, failed (dead_error w.dead_reason))
      else exchange w req (λ text. w.language ++ (lit " worker write: " ++ text)) (extract_op req)
          (extract_id req) sec

  unfoldable pub judged : (Response → Option Error) → Reply → Worker × Option Error
  judged judge (w, ok resp) = (w, judge resp)
  judged judge (w, failed err) = (w, some err)

  -- `Bind`
  unfoldable pub bind_to : Worker → List Field → Str → Str → ℕ → Bool → Worker × Option Error
  unfolding exchange judged
  bind_to w schema typ format sec audit =
      if w.dead
      then (w, some (dead_error w.dead_reason))
      else if is_empty typ
      then (w, some (plain (lit "bind requires a type")))
      else if is_empty format
      then (w, some (plain (lit "bind requires a format")))
      else judged judge_bind
          (exchange w (bind schema typ format audit) (λ text. text) op_bind [] sec)
