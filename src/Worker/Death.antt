-- ===== src/Worker/Death.antt =====
-- When a worker of internal/worker/worker.go is killed, and what a dead one still does.
use serify.Base.{Bool, false, Option, none, some, ◌≡◌, refl}
use serify.Proto.{Response}
use serify.Worker.{
  Kind, timeout, id_mismatch, op_mismatch, canceled, deadline_exceeded, Outcome, ok, failed,
  Process, Worker, Error, is_fatal, settle,
}

abbrev pub fatal_outcome {ℓ} : {A : Type ℓ} → Outcome A → Bool
fatal_outcome (ok a) = false
fatal_outcome (failed err) = is_fatal err.kind

abbrev pub fatal_error : Option Error → Bool
fatal_error none = false
fatal_error (some err) = is_fatal err.kind

-- The errors after which the two sides of the pipes are out of step.
pub data IsDesync : Kind → Type 0 where
  late : IsDesync timeout
  other_id : IsDesync id_mismatch
  other_op : IsDesync op_mismatch
  given_up : IsDesync canceled
  expired : IsDesync deadline_exceeded

abbrev pub Desynced {ℓ} : {A : Type ℓ} → Outcome A → Type 0
Desynced (ok a) = ⊥
Desynced (failed err) = IsDesync err.kind

abbrev pub DesyncedError : Option Error → Type 0
DesyncedError none = ⊥
DesyncedError (some err) = IsDesync err.kind

module _ (os : Process) where
  outcome-settle : (w : Worker os) (o : Outcome Response) → (settle os w o).1 ≡ o
  unfolding settle
  outcome-settle w (ok resp) = refl
  outcome-settle w (failed err) = refl

  -- the state after an exchange is dead exactly when its outcome is a fatal error
  abbrev Settled : Worker os × Outcome Response → Type 0
  Settled r = r.0.dead ≡ fatal_outcome r.1
