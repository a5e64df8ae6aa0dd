-- ===== src/Orch.antt =====
-- internal/orch: the rounds of a test case, and their verdicts. `Run` is in Orch/Case, the loop over
-- types and formats in Orch/Suite, the check of declared skips in Orch/Skips.
pub mod Verdict
pub mod Rounds
pub mod Case
pub mod Pending
pub mod Complete
pub mod Suite
pub mod Placed
pub mod Coverage
pub mod Ids
pub mod Skips
pub mod Declared
pub mod Tests
pub mod Untouched
pub mod Compared
pub mod Exit
pub mod Matrix
pub mod Fleet
use serify.Base.{
  ℕ, Bool, true, false, not, Option, none, some, List, [], ◌∷◌, ◌++◌, if◌then◌else◌, Str, lit,
  str_eq, is_empty, Assoc, lookup, sub_map, join, quote,
}
use serify.Conf.{Field, Value}
use serify.Proto.{Request, Response, AuditReport, status_ok, status_skipped, status_error}
use serify.Report.{
  is_nil, Status, pass, fail, x_fail, x_pass, skip, error, warn, Result, op_audit_mutation,
  op_audit_stability, op_audit_output_zero_copy, op_audit_zero_copy, op_audit_input_mut,
  op_audit_deser_stability,
}

-- `Options`
pub record Options : Type 0 where
  pub full_matrix : Bool
  pub timeout_sec : ℕ
  pub known_fails : Assoc (Assoc Str)
  pub audit : Bool
  pub oracle : Str

-- What `Send` returns, the error as its text.
pub record Reply : Type 0 where
  pub response : Option Response
  pub error : Option Str

-- What the orchestrator calls of a worker. `done` is the state of the round's context after a call.
pub record WorkerApi : Type 1 where
  pub W : Type 0
  pub send : W → Request → ℕ → W × Reply
  pub bind : W → List Field → Str → Str → ℕ → Bool → W × Option Str × Bool  -- error; is it ErrTypeNotSupported
  pub done : W → Bool

-- `opts.KnownFails[lang][testID]`
unfoldable pub known_reason : Assoc (Assoc Str) → Str → Str → Option Str
known_reason known_fails lang test_id = lookup test_id (sub_map lang known_fails)

unfoldable pub xpass_detail : Str → Str
xpass_detail reason = lit "expected to fail (" ++ (reason ++ lit ") but passed")

-- `verdict`; the reason and the flag `known` are one option
unfoldable pub verdict : Str → Option Str → Status × Str
verdict [] none = (pass, [])
verdict [] (some reason) = (x_pass, xpass_detail reason)
verdict (c ∷ diff) none = (fail, c ∷ diff)
verdict (c ∷ diff) (some reason) = (x_fail, reason)

-- the switch of `resolveResult`
unfoldable pub resolve_status : Option Str → Response → Status × Str
resolve_status known resp =
    if str_eq resp.status status_ok
    then elim known [ some reason ↦ (x_pass, xpass_detail reason) | none ↦ (pass, []) ]
    else if str_eq resp.status status_skipped
    then (skip, resp.reason)
    else if str_eq resp.status status_error
    then elim known [
      | some reason ↦ (x_fail, reason)
      | none ↦ (fail, lit "Status: " ++ (resp.status ++ (lit "\nError: " ++ quote resp.error)))
    ]
    else (error, lit "unexpected status " ++ quote resp.status)

-- `resolveResult`
unfoldable pub resolve_result : Option Str → Reply → Status × Str
unfolding resolve_status
resolve_result known reply = elim reply.error [
  | some text ↦ (error, text)
  | none ↦ elim reply.response [
    | none ↦ (error, lit "no response")
    | some resp ↦ resolve_status known resp
  ]
]

-- `resp != nil && resp.Status == proto.StatusOK`
unfoldable pub ok_now : Reply → Bool
ok_now reply = elim reply.response [ none ↦ false | some resp ↦ str_eq resp.status status_ok ]

abbrev pub row : Str → Str → Str → Status × Str → Result
row test_id lang op (status, detail) = record {
  test_id = test_id;
  language = lang;
  operation = op;
  status = status;
  detail = detail;
}

-- `warn`
abbrev pub warning : Str → Str → Str → Str → Result
warning test_id lang op detail = row test_id lang op (warn, detail)

-- a `*bool` that is set to false
abbrev pub is_false : Option Bool → Bool
is_false (some false) = true
is_false _ = false

-- the audit findings of a serialize response
unfoldable pub serialize_warnings : Str → Str → AuditReport → List Result
serialize_warnings id lang a =
    (if is_nil a.mutations
      then []
      else warning id lang op_audit_mutation (lit "mutated fields: " ++ join (lit ", ") a.mutations)
        ∷ [])
    ++ ((if is_false a.stable
          then warning id lang op_audit_stability
              (lit "serializer produced different output on repeat call")
            ∷ []
          else [])
        ++ (if is_nil a.output_zero_copy_fields
            then []
            else warning id lang op_audit_output_zero_copy
                (lit "output aliases model fields: " ++ join (lit ", ") a.output_zero_copy_fields)
              ∷ []))

-- the audit findings of a deserialize response
unfoldable pub deserialize_warnings : Str → Str → AuditReport → List Result
deserialize_warnings id lang a =
    (if is_nil a.zero_copy_fields
      then []
      else warning id lang op_audit_zero_copy
          (lit "zero-copy fields: " ++ join (lit ", ") a.zero_copy_fields)
        ∷ [])
    ++ ((if a.input_mutated
          then warning id lang op_audit_input_mut (lit "deserializer modified input buffer") ∷ []
          else [])
        ++ (if is_false a.deser_stable
            then warning id lang op_audit_deser_stability
                (lit "deserializer produced different result on repeat call")
              ∷ []
            else []))

-- `opts.Audit && resp != nil && resp.Audit != nil`
unfoldable pub audit_warnings : Bool → Option Response → (AuditReport → List Result) → List Result
audit_warnings audit none warnings = []
audit_warnings audit (some resp) warnings =
    if audit then elim resp.audit [ none ↦ [] | some a ↦ warnings a ] else []

unfoldable pub skip_ref_serialize_failed : Str
skip_ref_serialize_failed = lit "reference serialize failed"

unfoldable pub skip_ref_unsupported : Str
skip_ref_unsupported = lit "reference worker does not support this type/format"
