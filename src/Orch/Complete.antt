-- ===== src/Orch/Complete.antt =====
-- Every language gets a verdict for every case: no row of the table of internal/orch/orch.go is
-- left out, as long as the run is not cancelled.
use serify.Base.{
  is_some, All, true, Option, none, some, List, [], ◌∷◌, flatten, ◌≡◌, refl, arith, inl, inr,
  Bool-cases, Str, str_eq_refl, Assoc,
}
use serify.Cmp.{GoCmp}
use serify.Conf.{Field, Value, TestCase}
use serify.Proto.Encode.{Floats, Encoded, ok, err, encode_case}
use serify.Report.{Report, add_all, cell, op_serialize, op_deserialize, error}
use serify.Report.Cells.{cell-hits, cell-keeps}
use serify.Orch.{Options, WorkerApi}
use serify.Orch.Rounds.{
  HexResults, hex_of, Workers, serialize_round, compare_round, deserialize_round,
}
use serify.Orch.Case.{after_compare, run_encoded, run_case, run_cases}
use serify.Orch.Pending.{
  Uncancelled, Pending-serialize_round, hits-compare_round, hits-deserialize_round, Among,
  hits-rows_for,
}

module _ (api : WorkerApi) (go_cmp : GoCmp) (floats : Floats) where
  open api use {W, send, done}

  -- the cell of the table is filled
  abbrev pub Filled : Report → Str → Str → Str → Type 0
  Filled rep id lang op = is_some (cell rep.results id lang op) ≡ true

  keeps-after_compare :
      (opts : Options) (schema : List Field) (id : Str) (encoded : Assoc Value) (langs : List Str)
      (hexes : HexResults) (ref_hex : Option Str) (workers : Workers api go_cmp floats)
      (rep : Report) (t l o : Str)
      → Filled rep t l o
      → Filled
          (after_compare api go_cmp floats opts schema id encoded langs hexes ref_hex workers rep).1
          t
          l
          o
  unfolding after_compare
  keeps-after_compare opts schema id encoded langs hexes none workers rep t l o h =
      cell-keeps rep _ t l o h
  keeps-after_compare opts schema id encoded langs hexes (some ref_hex) workers rep t l o h =
      let first =
        cell-keeps rep
          (flatten
            (deserialize_round api go_cmp floats opts schema id encoded ref_hex langs workers).1)
          t l o h in
      elim (Bool-cases opts.full_matrix) [
        | inl full ↦ rw full (cell-keeps _ _ t l o first)
        | inr plain ↦ rw plain first
      ]

  fills-after_compare :
      (opts : Options) (schema : List Field) (id : Str) (encoded : Assoc Value) (lang : Str)
      (langs : List Str) (hexes : HexResults) (ref_hex : Option Str)
      (workers : Workers api go_cmp floats) (rep : Report)
      → Uncancelled api go_cmp floats
      → Among lang langs
      → Filled
          (after_compare api go_cmp floats opts schema id encoded langs hexes ref_hex workers rep).1
          id
          lang
          op_deserialize
  unfolding after_compare
  fills-after_compare opts schema id encoded lang langs hexes none workers rep u h =
      cell-hits rep _ id lang op_deserialize (
        hits-rows_for id lang op_deserialize (op_deserialize ∷ []) langs _ h
          (ground (arith, str_eq_refl op_deserialize)))
  fills-after_compare opts schema id encoded lang langs hexes (some ref_hex) workers rep u h =
      let hit =
        hits-deserialize_round api go_cmp floats opts schema id encoded ref_hex lang langs workers u
          h in
      let first = cell-hits rep _ id lang op_deserialize hit in
      elim (Bool-cases opts.full_matrix) [
        | inl full ↦ rw full (cell-keeps _ _ id lang op_deserialize first)
        | inr plain ↦ rw plain first
      ]

  -- both rows of the language are there
  abbrev pub Judged : Report → Str → Str → Type 0
  Judged rep id lang = Filled rep id lang op_serialize × Filled rep id lang op_deserialize

  Judged-run_encoded :
      (opts : Options) (schema : List Field) (ref id : Str) (encoded : Assoc Value) (lang : Str)
      (langs : List Str) (workers : Workers api go_cmp floats) (rep : Report)
      → Uncancelled api go_cmp floats
      → Among lang langs
      → Judged
          (run_encoded api go_cmp floats opts schema ref id encoded langs workers rep).1
          id
          lang
  unfolding run_encoded
  Judged-run_encoded opts schema ref id encoded lang langs workers rep u h =
      let r = serialize_round api go_cmp floats opts ref id encoded langs workers in
      let compared =
        compare_round api go_cmp floats opts schema ref id encoded r.hexes langs r.workers in
      let rep₁ = add_all rep (flatten r.tasks) in
      let serialized : Filled (add_all rep₁ compared.1) id lang op_serialize =
        elim (Pending-serialize_round api go_cmp floats opts ref id encoded lang langs workers u
          h) [
            | inl hit ↦
                cell-keeps rep₁ compared.1 id lang op_serialize
                  (cell-hits rep (flatten r.tasks) id lang op_serialize hit)
            | inr (s, n) ↦ cell-hits rep₁ compared.1 id lang op_serialize (
                hits-compare_round api go_cmp floats opts schema ref id encoded r.hexes lang langs
                  r.workers s n h)
          ] in
      (
        keeps-after_compare opts schema id encoded langs r.hexes (hex_of ref r.hexes) compared.0 _
            id lang op_serialize serialized,
        fills-after_compare opts schema id encoded lang langs r.hexes (hex_of ref r.hexes)
            compared.0 _ u h,
      )

  Judged-run_case :
      (opts : Options) (schema : List Field) (ref : Str) (tc : TestCase) (lang : Str)
      (langs : List Str) (workers : Workers api go_cmp floats) (rep : Report)
      → Uncancelled api go_cmp floats
      → Among lang langs
      → Judged (run_case api go_cmp floats opts schema ref tc langs workers rep).report tc.name lang
  unfolding run_case
  Judged-run_case opts schema ref tc lang langs workers rep u h =
      go (encode_case floats tc.content schema) refl
    where
      go :
          (e : Encoded (Assoc Value))
          → encode_case floats tc.content schema ≡ e
          → Judged
              (run_case api go_cmp floats opts schema ref tc langs workers rep).report
              tc.name
              lang
      go (err text) e =
          rw (e, run_case)
            (
              cell-hits rep _ tc.name lang op_serialize (
                  hits-rows_for tc.name lang op_serialize (op_serialize ∷ op_deserialize ∷ []) langs
                    (error, text) h (ground (arith, str_eq_refl op_serialize))),
              cell-hits rep _ tc.name lang op_deserialize (
                  hits-rows_for tc.name lang op_deserialize (op_serialize ∷ op_deserialize ∷ [])
                    langs (error, text) h (ground (arith, str_eq_refl op_deserialize))),
            )
      go (ok encoded) e =
          rw (e, run_case)
            (Judged-run_encoded opts schema ref tc.name encoded lang langs workers rep u h)

  keeps-run_case :
      (opts : Options) (schema : List Field) (ref : Str) (tc : TestCase) (langs : List Str)
      (workers : Workers api go_cmp floats) (rep : Report) (t l o : Str)
      → Filled rep t l o
      → Filled (run_case api go_cmp floats opts schema ref tc langs workers rep).report t l o
  unfolding run_case run_encoded
  keeps-run_case opts schema ref tc langs workers rep t l o h =
      go (encode_case floats tc.content schema) refl
    where
      go :
          (e : Encoded (Assoc Value))
          → encode_case floats tc.content schema ≡ e
          → Filled (run_case api go_cmp floats opts schema ref tc langs workers rep).report t l o
      go (err text) e = rw (e, run_case) (cell-keeps rep _ t l o h)
      go (ok encoded) e =
          rw (e, run_case)
            (keeps-after_compare opts schema tc.name encoded langs _ _ _ _ t l o
              (cell-keeps _ _ t l o (cell-keeps rep _ t l o h)))

  pub keeps-run_cases :
      (opts : Options) (schema : List Field) (ref : Str) (tcs : List TestCase) (langs : List Str)
      (workers : Workers api go_cmp floats) (rep : Report) (t l o : Str)
      → Filled rep t l o
      → Filled (run_cases api go_cmp floats opts schema ref tcs langs workers rep).report t l o
  unfolding run_cases
  keeps-run_cases opts schema ref [] langs workers rep t l o h = h
  keeps-run_cases opts schema ref (tc ∷ tcs) langs workers rep t l o h =
      let e = run_case api go_cmp floats opts schema ref tc langs workers rep in
      keeps-run_cases opts schema ref tcs langs e.fleet e.report t l o
        (keeps-run_case opts schema ref tc langs workers rep t l o h)

  -- Every language gets a serialize row and a deserialize row for every case, whatever the workers
  -- answer, also where a case cannot be encoded or the reference fails, when no context is cancelled.
  pub Judged-run_cases :
      (opts : Options) (schema : List Field) (ref lang : Str) (tcs : List TestCase)
      (langs : List Str) (workers : Workers api go_cmp floats) (rep : Report)
      → Uncancelled api go_cmp floats
      → Among lang langs
      → All
          (λ tc.
            Judged
              (run_cases api go_cmp floats opts schema ref tcs langs workers rep).report
              tc.name
              lang)
          tcs
  unfolding run_cases
  Judged-run_cases opts schema ref lang [] langs workers rep u h = tt
  Judged-run_cases opts schema ref lang (tc ∷ tcs) langs workers rep u h =
      let e = run_case api go_cmp floats opts schema ref tc langs workers rep in
      let (s, d) = Judged-run_case opts schema ref tc lang langs workers rep u h in
      (
        (
          keeps-run_cases opts schema ref tcs langs e.fleet e.report tc.name lang op_serialize s,
          keeps-run_cases opts schema ref tcs langs e.fleet e.report tc.name lang op_deserialize d,
        ),
        Judged-run_cases opts schema ref lang tcs langs e.fleet e.report u h,
      )
