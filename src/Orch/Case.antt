-- ===== src/Orch/Case.antt =====
-- One test case of `Run` in internal/orch/orch.go, with the full matrix, and the loop over the cases.
use serify.Base.{
  Option, none, some, List, [], ◌∷◌, ◌++◌, flatten, if◌then◌else◌, Str, lit, is_empty, Assoc,
}
use serify.Cmp.{GoCmp, data_diff}
use serify.Conf.{Field, Value, TestCase}
use serify.Proto.{deserialize}
use serify.Proto.Encode.{Floats, ok, err, encode_case}
use serify.Orch.Rounds.{
  field_names, float_fields, HexResults, hex_of, arrow, rows_for, Workers, put_worker,
  serialize_round, compare_round, deserialize_round,
}
use serify.Report.{
  Status, pass, fail, skip, error, Result, Report, add_all, op_serialize, op_deserialize, op_matrix,
}
use serify.Orch.{
  Options, Reply, WorkerApi, known_reason, resolve_result, row, skip_ref_serialize_failed,
}

module _ (api : WorkerApi) (go_cmp : GoCmp) (floats : Floats) where
  open api use {W, send, done}

  unfoldable pub matrix_check : Status × Str → Str → Status × Str
  matrix_check (pass, detail) (c ∷ diff) = (fail, c ∷ diff)
  matrix_check judged _ = judged

  -- a PASS of the matrix is checked once more against the case data
  unfoldable pub matrix_verdict :
      Options → List Field → Str → Str → Assoc Value → Reply → Status × Str
  unfolding matrix_check
  matrix_verdict opts schema id dst encoded reply =
      matrix_check (resolve_result (known_reason opts.known_fails dst id) reply)
        (elim reply.response [
          | none ↦ []
          | some resp ↦
              data_diff go_cmp encoded resp.content (field_names schema) (float_fields schema)
        ])

  abbrev pub hex_text : Option Str → Str
  hex_text none = []
  hex_text (some hex) = hex

  -- one cell of the matrix; its label is "src→dst"
  unfoldable pub matrix_cell :
      Options
      → List Field
      → Str
      → Assoc Value
      → Str
      → Str
      → Str
      → Workers api go_cmp floats
      → Workers api go_cmp floats × Result
  unfolding matrix_verdict put_worker
  matrix_cell opts schema id encoded src dst src_hex workers =
      let label = src ++ (arrow ++ dst) in
      if is_empty src_hex
      then (workers, row id label op_matrix (skip, lit "source serialize failed"))
      else (let req = deserialize (id ++ (lit "/matrix-" ++ label)) src_hex in
          let (w, reply) = send (workers dst) req opts.timeout_sec in
          (
            put_worker api go_cmp floats dst w workers,
            row id label op_matrix (matrix_verdict opts schema id dst encoded reply),
          ))

  -- the inner loop of `runMatrix`
  unfoldable pub matrix_row :
      Options
      → List Field
      → Str
      → Assoc Value
      → Str
      → Str
      → List Str
      → Workers api go_cmp floats
      → Workers api go_cmp floats × List Result
  unfolding matrix_cell
  matrix_row opts schema id encoded src src_hex [] workers = (workers, [])
  matrix_row opts schema id encoded src src_hex (dst ∷ dsts) workers =
      let (workers₁, first) = matrix_cell opts schema id encoded src dst src_hex workers in
      let (workers₂, rest) = matrix_row opts schema id encoded src src_hex dsts workers₁ in
      (workers₂, first ∷ rest)

  -- `runMatrix`, with its goroutines one after the other
  unfoldable pub run_matrix :
      Options
      → List Field
      → Str
      → Assoc Value
      → HexResults
      → List Str
      → List Str
      → Workers api go_cmp floats
      → Workers api go_cmp floats × List Result
  unfolding matrix_row
  run_matrix opts schema id encoded hexes langs [] workers = (workers, [])
  run_matrix opts schema id encoded hexes langs (src ∷ srcs) workers =
      let (workers₁, first) =
        matrix_row opts schema id encoded src (hex_text (hex_of src hexes)) langs workers in
      let (workers₂, rest) = run_matrix opts schema id encoded hexes langs srcs workers₁ in
      (workers₂, first ++ rest)

  pub record CaseEnd : Type 0 where
    pub fleet : Workers api go_cmp floats
    pub report : Report
    pub failure : Option Str  -- what `firstErr` is set to, if it is not set

  -- rounds 2 and 3
  unfoldable pub after_compare :
      Options
      → List Field
      → Str
      → Assoc Value
      → List Str
      → HexResults
      → Option Str
      → Workers api go_cmp floats
      → Report
      → Workers api go_cmp floats × Report
  unfolding deserialize_round run_matrix rows_for
  after_compare opts schema id encoded langs hexes none workers rep = (
    workers,
    add_all rep (rows_for id (op_deserialize ∷ []) langs (skip, skip_ref_serialize_failed)),
  )
  after_compare opts schema id encoded langs hexes (some ref_hex) workers rep =
      let (workers₁, tasks) =
        deserialize_round api go_cmp floats opts schema id encoded ref_hex langs workers in
      let rep₁ = add_all rep (flatten tasks) in
      if opts.full_matrix
      then (let (workers₂, cells) = run_matrix opts schema id encoded hexes langs langs workers₁ in
          (workers₂, add_all rep₁ cells))
      else (workers₁, rep₁)

  -- the rounds of a case whose data could be encoded
  unfoldable pub run_encoded :
      Options
      → List Field
      → Str
      → Str
      → Assoc Value
      → List Str
      → Workers api go_cmp floats
      → Report
      → Workers api go_cmp floats × Report
  unfolding serialize_round compare_round after_compare
  run_encoded opts schema ref id encoded langs workers rep =
      let r = serialize_round api go_cmp floats opts ref id encoded langs workers in
      let rep₁ = add_all rep (flatten r.tasks) in
      let (workers₂, compared) =
        compare_round api go_cmp floats opts schema ref id encoded r.hexes langs r.workers in
      after_compare opts schema id encoded langs r.hexes (hex_of ref r.hexes) workers₂
        (add_all rep₁ compared)

  -- the body of the loop over the cases
  unfoldable pub run_case :
      Options
      → List Field
      → Str
      → TestCase
      → List Str
      → Workers api go_cmp floats
      → Report
      → CaseEnd
  unfolding run_encoded rows_for
  run_case opts schema ref tc langs workers rep = elim (encode_case floats tc.content schema) [
    | err text ↦ record {
      fleet = workers;
      report =
          add_all rep (rows_for tc.name (op_serialize ∷ op_deserialize ∷ []) langs (error, text));
      failure = some (lit "test case " ++ (tc.name ++ (lit ": " ++ text)));
    }
    | ok encoded ↦
        let (fleet, report) = run_encoded opts schema ref tc.name encoded langs workers rep in
        record { fleet = fleet; report = report; failure = none }
  ]

  -- `firstErr`
  abbrev pub first_of : Option Str → Option Str → Option Str
  first_of none later = later
  first_of (some text) later = some text

  -- `Run`
  unfoldable pub run_cases :
      Options
      → List Field
      → Str
      → List TestCase
      → List Str
      → Workers api go_cmp floats
      → Report
      → CaseEnd
  unfolding run_case
  run_cases opts schema ref [] langs workers rep = record {
    fleet = workers;
    report = rep;
    failure = none;
  }
  run_cases opts schema ref (tc ∷ tcs) langs workers rep =
      let e = run_case opts schema ref tc langs workers rep in
      let rest = run_cases opts schema ref tcs langs e.fleet e.report in
      record rest { failure = first_of e.failure rest.failure }
