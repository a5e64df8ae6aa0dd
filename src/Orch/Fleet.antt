-- ===== src/Orch/Fleet.antt =====
-- The workers of internal/worker/worker.go as the orchestrator calls them.
use serify.Base.{Bool, true, false, Option, none, some, Str}
use serify.Proto.{Response}
use serify.Orch.{Reply, WorkerApi}
use serify.Worker.{Outcome, ok, failed, Process, Worker, Error, Kind, send, bind_to}

-- the two results of `Send`
abbrev pub reply_of : Outcome Response → Reply
reply_of (ok resp) = record { response = some resp; error = none }
reply_of (failed err) = record { response = none; error = some err.text }

-- `err.Error()`, and `errors.Is(err, worker.ErrTypeNotSupported)`
abbrev pub bind_reply : Option Error → Option Str × Bool
bind_reply none = (none, false)
bind_reply (some err) = (
  some err.text,
  elim err.kind [
    | Kind.not_supported ↦ true
    | Kind.timeout ↦ false
    | Kind.id_mismatch ↦ false
    | Kind.op_mismatch ↦ false
    | Kind.canceled ↦ false
    | Kind.deadline_exceeded ↦ false
    | Kind.other ↦ false
  ],
)

module _ (os : Process) (interrupted : Worker os → Bool) where
  -- `interrupted` says whether the context of the round is done after a call.
  abbrev pub fleet : WorkerApi
  fleet = record {
    W = Worker os;
    send = λ w req sec. let (w', o) = send os w req sec in (w', reply_of o);
    bind = λ w schema type_name format sec audit.
        let (w', e) = bind_to os w schema type_name format sec audit in
        (w', (bind_reply e).0, (bind_reply e).1);
    done = interrupted;
  }
