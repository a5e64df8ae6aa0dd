-- ===== src/Orch/Tests.antt =====
-- A run of the orchestrator with two workers.
use serify.Base.{
  true, false, ◌&&◌, none, some, List, [], ◌∷◌, ◌++◌, ◌≡◌, refl, if◌then◌else◌, All, Str, lit,
  str_eq, Assoc, lookup, sub_map, join, sort,
}
use serify.Conf.{
  CasesFile, CasesSet, TestCase, ExpectedSkips, Value, oracle_bytes, oracle_semantic, test_ids,
}
use serify.Proto.{serialize, Response, status_ok, op_serialize}
use serify.Proto.Encode.{Floats, ok}
use serify.Cmp.{
  diff_decoded, hex_offset_diff, offset_report, first_divergence, hex_diff, data_diff, field_diffs,
  extra_diffs, field_order,
}
use serify.Cmp.Tests.{string_cmp}
use serify.Report
use serify.Report.{Report, Result, new, add_all, cell, success, skip, x_pass, x_fail}
use serify.Worker.{message, Worker, send}
use serify.Worker.Tests.{scripted, live, stopped, answer}
use serify.Orch.{
  Options, Reply, WorkerApi, row, verdict, known_reason, resolve_result, ok_now, xpass_detail,
}
use serify.Orch.Rounds.{
  Workers, put_worker, serialize_round, serialize_task, hex_of, deserialize_verdict, field_names,
}
use serify.Orch.Case.{run_encoded, run_cases, matrix_verdict}
use serify.Orch.Complete.{Judged, Judged-run_cases}
use serify.Orch.Compared.{serialize_cell-run_encoded}
use serify.Orch.Exit.{success-run_encoded}
use serify.Base.Hex.{decode_hex}
use serify.Orch.Matrix.{matrix_verdict-unknown}
use serify.Orch.Fleet.{fleet}
use serify.Orch.Case.{matrix_check}
use serify.Orch.{resolve_status}
use serify.Worker.{dead_error}
use serify.Orch.Suite.{run_suite}
use serify.Orch.Ids.{Judged-test_ids}
use serify.Orch.Skips.{check_expected_skips}
use serify.Orch.Declared.{all_allowed, success-check_expected_skips}

abbrev ok_response : Str → Response
ok_response hex = record {
  id = [];
  op = [];
  status = status_ok;
  hex = hex;
  content = [];
  version = none;
  error = [];
  reason = [];
  audit = none;
}

abbrev fleet_api : WorkerApi
fleet_api = fleet scripted (λ w. false)

abbrev answering : Worker scripted
answering = live (message (answer (lit "a") op_serialize status_ok) ∷ [])

-- a worker is the hex that it serializes everything to
abbrev hex_workers : WorkerApi
hex_workers = record {
  W = Str;
  send = λ w req sec. (w, record { response = some (ok_response w); error = none });
  bind = λ w schema type_name format sec audit. (w, none, false);
  done = λ w. false;
}

abbrev no_floats : Floats
no_floats = record {
  narrow = λ n. n;
  widen = λ n. n;
  of_int = λ n. 0;
  exact_int = λ n. none;
  parse = λ s. ok 0;
  show = λ v. [];
}

abbrev opts : Options
opts = record {
  full_matrix = true;
  timeout_sec = 10;
  known_fails = [];
  audit = false;
  oracle = oracle_bytes;
}

abbrev hexes : Workers hex_workers string_cmp no_floats
hexes l = if str_eq l (lit "go") then lit "00" else lit "01"

abbrev langs : List Str
langs = lit "go" ∷ lit "rust" ∷ []

abbrev rep : Report
rep = new langs (lit "T/json/a" ∷ []) (lit "table")

abbrev tc : TestCase
tc = record { name = lit "a"; description = []; content = [] }

abbrev ty : CasesFile
ty = record {
  name = lit "T";
  formats = lit "json" ∷ [];
  reference_language = lit "go";
  schema = [];
  cases = tc ∷ [];
  oracles = [];
}

abbrev suite : CasesSet
suite = record { reference_language = lit "go"; types = ty ∷ [] }

Judged-run_cases_example :
    All
      (λ c.
        Judged hex_workers string_cmp no_floats
          (run_cases hex_workers string_cmp no_floats opts []
            (lit "go")
            (tc ∷ [])
            langs
            hexes
            rep).report
          c.name
          (lit "rust"))
      (tc ∷ [])
unfolding str_eq lit
Judged-run_cases_example =
    Judged-run_cases hex_workers string_cmp no_floats opts [] (lit "go") (lit "rust") (tc ∷ [])
      langs hexes rep (λ w. refl) refl

serialize_cell-run_encoded_example :
    cell
      (run_encoded hex_workers string_cmp no_floats opts []
        (lit "go")
        (lit "a")
        []
        langs
        hexes
        rep).1.results
      (lit "a")
      (lit "rust")
      Report.op_serialize
    ≡ some (
        row (lit "a") (lit "rust") Report.op_serialize (
          verdict
            (hex_diff (lit "00") (lit "01"))
            (known_reason opts.known_fails (lit "rust") (lit "a"))))
unfolding str_eq lit oracle_bytes oracle_semantic serialize_round serialize_task hex_of put_worker
    ok_now status_ok
serialize_cell-run_encoded_example =
    serialize_cell-run_encoded hex_workers string_cmp no_floats opts [] (lit "go") (lit "a") []
      (lit "00") (lit "01") (lit "rust") langs hexes rep refl refl refl refl refl

abbrev skipped : Result
skipped = row (lit "T/json/a") (lit "rust") Report.op_serialize (skip, lit "not supported")

abbrev expected : Assoc ExpectedSkips
expected = (lit "rust", record { types = lit "U" ∷ []; operations = [] }) ∷ []

success-check_expected_skips_example :
    success (check_expected_skips (add_all rep (skipped ∷ [])) expected) ≡ (
      success (add_all rep (skipped ∷ []))
      && all_allowed expected (add_all rep (skipped ∷ [])).results)
success-check_expected_skips_example =
    success-check_expected_skips (add_all rep (skipped ∷ [])) expected

abbrev broken : Reply
broken = record { response = none; error = some (lit "EOF") }

-- a reply with a field that the case does not have
abbrev surplus : Response
surplus = record (ok_response []) { content = (lit "x", Value.null) ∷ [] }

abbrev lenient : Options
lenient = record opts { known_fails = (lit "rust", (lit "a", lit "issue 1") ∷ []) ∷ [] }

-- an OK reply with wrong data, of a worker with a known failure
known_failure_in_matrix :
    (matrix_verdict hex_workers string_cmp no_floats lenient []
        (lit "a")
        (lit "rust")
        []
        (record { response = some surplus; error = none })
      ≡ (x_pass, xpass_detail (lit "issue 1")))
    × (deserialize_verdict hex_workers string_cmp no_floats lenient []
          (lit "a")
          (lit "rust")
          []
          (record { response = some surplus; error = none })
        ≡ (x_fail, lit "issue 1"))
unfolding str_eq lit status_ok known_reason lookup sub_map data_diff field_diffs extra_diffs
    field_order join sort field_names matrix_verdict deserialize_verdict matrix_check resolve_result
    resolve_status verdict
known_failure_in_matrix = (refl, refl)

matrix_verdict-unknown_example :
    matrix_verdict hex_workers string_cmp no_floats opts []
      (lit "a")
      (lit "rust")
      []
      (record { response = some surplus; error = none })
    ≡ deserialize_verdict hex_workers string_cmp no_floats opts []
        (lit "a")
        (lit "rust")
        []
        (record { response = some surplus; error = none })
unfolding known_reason lookup sub_map
matrix_verdict-unknown_example =
    matrix_verdict-unknown hex_workers string_cmp no_floats opts [] (lit "a") (lit "rust") []
      (record { response = some surplus; error = none }) refl refl

-- a dead worker, with a known failure
dead_is_error :
    resolve_result (some (lit "issue 1")) (fleet_api.send stopped (serialize (lit "a") []) 10).1
    ≡ (Report.error, lit "worker is dead: " ++ lit "stopped")
unfolding resolve_result dead_error send
dead_is_error = refl

Judged-test_ids_example :
    All
      (λ id.
        Judged hex_workers string_cmp no_floats
          (run_suite hex_workers string_cmp no_floats opts suite langs hexes rep).report
          id
          (lit "rust"))
      (test_ids suite)
unfolding str_eq lit
Judged-test_ids_example =
    Judged-test_ids hex_workers string_cmp no_floats opts suite (lit "rust") langs hexes rep
      (λ w. refl) refl

success-run_encoded_example :
    success
      (run_encoded hex_workers string_cmp no_floats opts []
        (lit "go")
        (lit "a")
        []
        langs
        hexes
        (add_all (new langs (lit "a" ∷ []) (lit "table")) [])).1
    ≡ false
unfolding str_eq lit oracle_bytes oracle_semantic serialize_round serialize_task hex_of put_worker
    ok_now status_ok known_reason lookup sub_map hex_diff diff_decoded decode_hex hex_offset_diff
    offset_report first_divergence
success-run_encoded_example =
    success-run_encoded hex_workers string_cmp no_floats opts [] (lit "go") (lit "a") [] (lit "00")
      (lit "01") (lit "rust") langs langs (lit "a" ∷ []) (lit "table") [] hexes refl refl refl refl
      refl refl refl
