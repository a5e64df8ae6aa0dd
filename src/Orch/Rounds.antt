-- ===== src/Orch/Rounds.antt =====
-- The rounds of a test case in `Run` of internal/orch/orch.go: serialize, compare, deserialize. The
-- goroutines of a round each act on their own worker; a round lists the results of each, and adds
-- them to the report in the order of the languages. Report/Interleave shows that another
-- interleaving gives the same table.
use serify.Base.{
  Bool, true, false, not, ◌&&◌, Option, none, some, List, [], ◌∷◌, ◌++◌, if◌then◌else◌, Str, lit,
  str_eq, is_empty, Assoc,
}
use serify.Cmp.{GoCmp, hex_diff, data_diff}
use serify.Conf.{Field, FieldType, scalar, Value, oracle_semantic}
use serify.Kind
use serify.Proto.{serialize, deserialize, status_ok}
use serify.Proto.Encode.{Floats}
use serify.Report.{Status, pass, Result, op_serialize, op_deserialize}
use serify.Orch.{
  Options, Reply, WorkerApi, known_reason, verdict, resolve_result, ok_now, row, serialize_warnings,
  deserialize_warnings, audit_warnings,
}

-- `fieldNames` and `floatFields`
unfoldable pub field_names : List Field → List Str
field_names [] = []
field_names (f ∷ fs) = f.name ∷ field_names fs

abbrev is_float : FieldType → Bool
is_float (scalar Kind.Scalar.float32) = true
is_float (scalar Kind.Scalar.float64) = true
is_float _ = false

unfoldable pub float_fields : List Field → Assoc Bool
float_fields [] = []
float_fields (f ∷ fs) =
    if is_float f.type then (f.name, true) ∷ float_fields fs else float_fields fs

-- The bytes that the workers serialized: a worker that did not answer OK has no entry, both in
-- `hexResults` and in `serializedOK`.
abbrev pub HexResults : Type 0
HexResults = List (Str × Option Str)

unfoldable pub hex_of : Str → HexResults → Option Str
hex_of lang [] = none
hex_of lang ((l, h) ∷ rest) = if str_eq l lang then h else hex_of lang rest

abbrev pub arrow : Str
arrow = 226 ∷ 134 ∷ 146 ∷ []

unfoldable pub rows_of : Str → List Str → Str → Status × Str → List Result
rows_of id [] lang judged = []
rows_of id (op ∷ ops) lang judged = row id lang op judged ∷ rows_of id ops lang judged

-- the same row for every language and operation
unfoldable pub rows_for : Str → List Str → List Str → Status × Str → List Result
unfolding rows_of
rows_for id ops [] judged = []
rows_for id ops (lang ∷ langs) judged = rows_of id ops lang judged ++ rows_for id ops langs judged

module _ (api : WorkerApi) (go_cmp : GoCmp) (floats : Floats) where
  open api use {W, send, done}

  -- the workers by language; calls go to languages of the round only
  abbrev pub Workers : Type 0
  Workers = Str → W

  unfoldable pub put_worker : Str → W → Workers → Workers
  put_worker lang w workers l = if str_eq lang l then w else workers l

  -- the hex of an OK response
  abbrev hex_now : Reply → Option Str
  hex_now reply =
      if ok_now reply then elim reply.response [ none ↦ none | some resp ↦ some resp.hex ] else none

  -- What the goroutine of one language adds to the report in the serialize round: the audit
  -- findings, and a verdict unless it must wait for the comparison.
  unfoldable pub serialize_rows : Options → Str → Str → Str → Reply → List Result
  serialize_rows opts ref id lang reply =
      audit_warnings opts.audit reply.response (serialize_warnings id lang)
      ++ (if ok_now reply && not (str_eq lang ref)
          then []
          else row id lang op_serialize
              (resolve_result (known_reason opts.known_fails lang id) reply)
            ∷ [])

  pub record Round : Type 0 where
    pub workers : Workers
    pub tasks : List (List Result)
    pub hexes : HexResults

  unfoldable pub serialize_task : Options → Str → Str → Str → W → Reply → Round → Round
  unfolding serialize_rows
  serialize_task opts ref id lang w reply r =
      if done w
      then record r { tasks = [] ∷ r.tasks; hexes = (lang, none) ∷ r.hexes }
      else record r {
        tasks = serialize_rows opts ref id lang reply ∷ r.tasks;
        hexes = (lang, hex_now reply) ∷ r.hexes;
      }

  -- Round 1
  unfoldable pub serialize_round : Options → Str → Str → Assoc Value → List Str → Workers → Round
  unfolding serialize_task put_worker
  serialize_round opts ref id encoded [] workers = record {
    workers = workers;
    tasks = [];
    hexes = [];
  }
  serialize_round opts ref id encoded (lang ∷ langs) workers =
      let (w, reply) = send (workers lang) (serialize id encoded) opts.timeout_sec in
      serialize_task opts ref id lang w reply
        (serialize_round opts ref id encoded langs (put_worker lang w workers))

  -- what `semanticSerializeDiff` makes of the reference's answer
  unfoldable pub semantic_judge : Str → Assoc Value → List Str → Assoc Bool → Reply → Str
  semantic_judge src encoded names float_names reply = elim reply.error [
    | some text ↦ lit "reference could not deserialize " ++ (src ++ (lit " output: " ++ text))
    | none ↦ elim reply.response [
      | none ↦ lit "reference could not deserialize " ++ (src ++ lit " output")
      | some resp ↦
          if str_eq resp.status status_ok
          then data_diff go_cmp encoded resp.content names float_names
          else lit "reference could not deserialize "
            ++ (src
                ++ (lit " output" ++ (if is_empty resp.error then [] else lit ": " ++ resp.error)))
    ]
  ]

  -- `semanticSerializeDiff`
  unfoldable pub semantic_diff : Options → List Field → Str → Str → Str → Assoc Value → W → W × Str
  unfolding semantic_judge
  semantic_diff opts schema id src hex encoded ref_worker =
      let req = deserialize (id ++ (lit "/semantic-" ++ src)) hex in
      let (w, reply) = send ref_worker req opts.timeout_sec in
      (w, semantic_judge src encoded (field_names schema) (float_fields schema) reply)

  -- The difference between a candidate's bytes and the reference's, by the oracle of the format.
  unfoldable pub serialize_diff :
      Options → List Field → Str → Str → Str → Str → Assoc Value → Str → Workers → Workers × Str
  unfolding semantic_diff put_worker
  serialize_diff opts schema ref id lang hex encoded ref_hex workers =
      if str_eq opts.oracle oracle_semantic
      then (let (w, diff) = semantic_diff opts schema id lang hex encoded (workers ref) in
          (put_worker ref w workers, diff))
      else (workers, hex_diff ref_hex hex)

  -- the comparison of one language; nothing where it is the reference or did not serialize
  unfoldable pub compare_one :
      Options
      → List Field
      → Str
      → Str
      → Assoc Value
      → Option Str
      → Str
      → Option Str
      → Workers
      → Workers × List Result
  unfolding serialize_diff
  compare_one opts schema ref id encoded ref_hex lang none workers = (workers, [])
  compare_one opts schema ref id encoded none lang (some hex) workers =
      (workers, if str_eq lang ref then [] else row id lang op_serialize (pass, []) ∷ [])
  compare_one opts schema ref id encoded (some ref_hex) lang (some hex) workers =
      if str_eq lang ref
      then (workers, [])
      else (let (workers', diff) =
            serialize_diff opts schema ref id lang hex encoded ref_hex workers in
          (
            workers',
            row id lang op_serialize (verdict diff (known_reason opts.known_fails lang id)) ∷ [],
          ))

  -- the loop over the languages after round 1
  unfoldable pub compare_round :
      Options
      → List Field
      → Str
      → Str
      → Assoc Value
      → HexResults
      → List Str
      → Workers
      → Workers × List Result
  unfolding compare_one
  compare_round opts schema ref id encoded hexes [] workers = (workers, [])
  compare_round opts schema ref id encoded hexes (lang ∷ langs) workers =
      let (workers₁, first) =
        compare_one opts schema ref id encoded (hex_of ref hexes) lang (hex_of lang hexes)
          workers in
      let (workers₂, rest) = compare_round opts schema ref id encoded hexes langs workers₁ in
      (workers₂, first ++ rest)

  -- the verdict of the deserialize round
  unfoldable pub deserialize_verdict :
      Options → List Field → Str → Str → Assoc Value → Reply → Status × Str
  deserialize_verdict opts schema id lang encoded reply =
      let known = known_reason opts.known_fails lang id in
      elim reply.response [
        | none ↦ resolve_result known reply
        | some resp ↦
            if str_eq resp.status status_ok
            then verdict
                (data_diff go_cmp encoded resp.content (field_names schema) (float_fields schema))
                known
            else resolve_result known reply
      ]

  unfoldable pub deserialize_rows :
      Options → List Field → Str → Str → Assoc Value → Reply → List Result
  unfolding deserialize_verdict
  deserialize_rows opts schema id lang encoded reply =
      row id lang op_deserialize (deserialize_verdict opts schema id lang encoded reply)
      ∷ audit_warnings opts.audit reply.response (deserialize_warnings id lang)

  -- Round 2, on the reference's bytes
  unfoldable pub deserialize_round :
      Options
      → List Field
      → Str
      → Assoc Value
      → Str
      → List Str
      → Workers
      → Workers × List (List Result)
  unfolding deserialize_rows put_worker
  deserialize_round opts schema id encoded ref_hex [] workers = (workers, [])
  deserialize_round opts schema id encoded ref_hex (lang ∷ langs) workers =
      let (w, reply) = send (workers lang) (deserialize id ref_hex) opts.timeout_sec in
      let (workers', tasks) =
        deserialize_round opts schema id encoded ref_hex langs (put_worker lang w workers) in
      (
        workers',
        (if done w then [] else deserialize_rows opts schema id lang encoded reply) ∷ tasks,
      )
