-- ===== src/Orch/Verdict.antt =====
-- When a verdict of internal/orch/orch.go counts as a failure.
use serify.Base.{
  Bool, true, false, ◌&&◌, ◌||◌, not, Option, none, some, is_some, [], ◌∷◌, ◌≡◌, ◌↔◌, refl, arith,
  Str, str_eq, is_empty,
}
use serify.Proto.{status_ok, status_skipped, status_error}
use serify.Report.{x_pass}
use serify.Report.Failures.{is_failure}
use serify.Orch.{Reply, verdict, resolve_result}

-- The answers that are no failure by themselves: OK, SKIPPED, and an ERROR that is known.
unfoldable pub tolerated : Option Str → Reply → Bool
tolerated known reply = elim reply.error [
  | some text ↦ false
  | none ↦ elim reply.response [
    | none ↦ false
    | some resp ↦
        str_eq resp.status status_ok
        || (str_eq resp.status status_skipped || (str_eq resp.status status_error && is_some known))
  ]
]

-- After a comparison, FAIL is given exactly to a difference that no known failure covers; a known
-- failure without a difference is XPASS, never PASS.
pub failure-verdict :
    (diff : Str) (known : Option Str)
    → (is_failure (verdict diff known).0 ≡ (not (is_empty diff) && not (is_some known)))
      × (((verdict diff known).0 ≡ x_pass) ↔ ((is_empty diff && is_some known) ≡ true))
unfolding verdict
failure-verdict [] none = (refl, (λ h. cc, λ h. cc))
failure-verdict [] (some r) = (refl, (λ h. refl, λ h. refl))
failure-verdict (c ∷ d) none = (refl, (λ h. cc, λ h. cc))
failure-verdict (c ∷ d) (some r) = (refl, (λ h. cc, λ h. cc))

-- A reply is judged a failure exactly when it is not tolerated: a transport error, no response, an
-- unknown status, or an ERROR that is not a known failure.
pub failure-resolve_result :
    (known : Option Str) (reply : Reply)
    → is_failure (resolve_result known reply).0 ≡ not (tolerated known reply)
unfolding resolve_result tolerated
failure-resolve_result known reply = ground arith
