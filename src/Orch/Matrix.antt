-- ===== src/Orch/Matrix.antt =====
-- The verdicts of the matrix of internal/orch/orch.go beside those of the deserialize round.
use serify.Base.{
  true, false, Option, none, some, ◌∷◌, [], ◌≡◌, refl, arith, Str, lit, str_eq, is_empty, Assoc,
  List, inl, inr, Bool-cases,
}
use serify.Cmp.{GoCmp, data_diff}
use serify.Conf.{Field, Value}
use serify.Proto.{Response, status_ok}
use serify.Proto.Encode.{Floats}
use serify.Report.{pass, x_fail, error}
use serify.Orch.{Options, Reply, WorkerApi, known_reason, verdict, resolve_result, resolve_status}
use serify.Orch.Rounds.{field_names, float_fields, deserialize_verdict}
use serify.Orch.Case.{matrix_check, matrix_verdict}

verdict-known :
    (diff reason : Str) → is_empty diff ≡ false → verdict diff (some reason) ≡ (x_fail, reason)
unfolding verdict
verdict-known [] reason h = cc
verdict-known (c ∷ diff) reason h = refl

status_of_response :
    (known : Option Str) (reply : Reply) (resp : Response)
    → reply.error ≡ none
    → reply.response ≡ some resp
    → resolve_result known reply ≡ resolve_status known resp
unfolding resolve_result
status_of_response known reply resp e r = ground (arith, e, r)

resolve_status-ok :
    (resp : Response) → str_eq resp.status status_ok ≡ true → resolve_status none resp ≡ (pass, [])
unfolding resolve_status
resolve_status-ok resp s = rw s refl

no_answer :
    (known : Option Str) (reply : Reply)
    → reply.error ≡ none
    → reply.response ≡ none
    → resolve_result known reply ≡ (error, lit "no response")
unfolding resolve_result
no_answer known reply e r = ground (arith, e, r)

module _ (api : WorkerApi) (go_cmp : GoCmp) (floats : Floats) where
  matrix_check-pass :
      (diff : Str) → matrix_check api go_cmp floats (pass, []) diff ≡ verdict diff none
  unfolding matrix_check verdict
  matrix_check-pass [] = refl
  matrix_check-pass (c ∷ diff) = refl

  matrix_check-resolve_status :
      (resp : Response) (diff : Str)
      → str_eq resp.status status_ok ≡ false
      → matrix_check api go_cmp floats (resolve_status none resp) diff ≡ resolve_status none resp
  unfolding matrix_check resolve_status
  matrix_check-resolve_status resp diff h = ground (arith, h)

  -- Where the worker has no known failure for the case, the matrix judges a reply that is no
  -- transport error as the deserialize round judges it.
  pub matrix_verdict-unknown :
      (opts : Options) (schema : List Field) (id dst : Str) (encoded : Assoc Value) (reply : Reply)
      → reply.error ≡ none
      → known_reason opts.known_fails dst id ≡ none
      → matrix_verdict api go_cmp floats opts schema id dst encoded reply
        ≡ deserialize_verdict api go_cmp floats opts schema id dst encoded reply
  unfolding matrix_verdict deserialize_verdict
  matrix_verdict-unknown opts schema id dst encoded reply e k = go reply.response refl
    where
      go :
          (r : Option Response)
          → reply.response ≡ r
          → matrix_verdict api go_cmp floats opts schema id dst encoded reply
            ≡ deserialize_verdict api go_cmp floats opts schema id dst encoded reply
      go none r = ground (arith, r, no_answer (known_reason opts.known_fails dst id) reply e r)
      go (some resp) r = elim (Bool-cases (str_eq resp.status status_ok)) [
        | inl s ↦ ground (
          arith,
          r,
          s,
          k,
          status_of_response (known_reason opts.known_fails dst id) reply resp e r,
          resolve_status-ok resp s,
          matrix_check-pass
              (data_diff go_cmp encoded resp.content (field_names schema) (float_fields schema)),
        )
        | inr s ↦ ground (
          arith,
          r,
          s,
          k,
          status_of_response (known_reason opts.known_fails dst id) reply resp e r,
          matrix_check-resolve_status resp
              (data_diff go_cmp encoded resp.content (field_names schema) (float_fields schema)) s,
        )
      ]
