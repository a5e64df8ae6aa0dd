-- ===== src/Orch/Exit.antt =====
-- Wrong bytes make the run of internal/orch/orch.go fail.
use serify.Base.{
  false, Option, none, some, List, ◌++◌, flatten, ◌≡◌, refl, sym, ap, ◌∙◌, inl, inr, Bool-cases,
  Str, str_eq, is_empty, Assoc,
}
use serify.Cmp.{GoCmp, hex_diff}
use serify.Conf.{Field, Value, oracle_semantic}
use serify.Proto.Encode.{Floats}
use serify.Report.{Result, Report, new, add_all, cell, success, op_serialize}
use serify.Report.Cells.{add_all-append}
use serify.Report.Failures.{success-cell}
use serify.Orch.{Options, WorkerApi, known_reason}
use serify.Orch.Verdict.{failure-verdict}
use serify.Orch.Rounds.{
  HexResults, Workers, hex_of, serialize_round, compare_round, deserialize_round,
}
use serify.Orch.Case.{after_compare, run_encoded, run_matrix}
use serify.Orch.Pending.{Among}
use serify.Orch.Compared.{serialize_cell-run_encoded}

-- the second report is the first with more rows
abbrev pub Adds : Report → Report → Type 0
Adds r s = (rows : List Result) × (s ≡ add_all r rows)

Adds-trans : (r s u : Report) → Adds r s → Adds s u → Adds r u
Adds-trans r s u (xs, e) (ys, f) =
    (xs ++ ys, f ∙ ap (λ q. add_all q ys) e ∙ sym (add_all-append xs ys r))

module _ (api : WorkerApi) (go_cmp : GoCmp) (floats : Floats) where
  Adds-after_compare :
      (opts : Options) (schema : List Field) (id : Str) (encoded : Assoc Value) (langs : List Str)
      (hexes : HexResults) (ref_hex : Option Str) (workers : Workers api go_cmp floats)
      (rep : Report)
      → Adds rep
          (after_compare api go_cmp floats opts schema id encoded langs hexes ref_hex workers rep).1
  unfolding after_compare
  Adds-after_compare opts schema id encoded langs hexes none workers rep = (_, refl)
  Adds-after_compare opts schema id encoded langs hexes (some ref_hex) workers rep =
      let round =
        deserialize_round api go_cmp floats opts schema id encoded ref_hex langs workers in
      let cells = run_matrix api go_cmp floats opts schema id encoded hexes langs langs round.0 in
      elim (Bool-cases opts.full_matrix) [
        | inl full ↦
            Adds-trans rep (add_all rep (flatten round.1)) _ (flatten round.1, refl)
              (cells.1, rw full refl)
        | inr plain ↦ (flatten round.1, rw plain refl)
      ]

  Adds-run_encoded :
      (opts : Options) (schema : List Field) (ref id : Str) (encoded : Assoc Value)
      (langs : List Str) (workers : Workers api go_cmp floats) (rep : Report)
      → Adds rep (run_encoded api go_cmp floats opts schema ref id encoded langs workers rep).1
  unfolding run_encoded
  Adds-run_encoded opts schema ref id encoded langs workers rep =
      let r = serialize_round api go_cmp floats opts ref id encoded langs workers in
      let compared =
        compare_round api go_cmp floats opts schema ref id encoded r.hexes langs r.workers in
      let first = add_all rep (flatten r.tasks) in
      Adds-trans rep first _ (flatten r.tasks, refl)
        (Adds-trans first (add_all first compared.1) _ (compared.1, refl)
          (Adds-after_compare opts schema id encoded langs r.hexes (hex_of ref r.hexes) compared.0
            (add_all first compared.1)))

  -- With the bytes oracle, a worker whose bytes differ from the reference's and whose case is no known
  -- failure makes `Success` false, whatever rows the report had before.
  pub success-run_encoded :
      (opts : Options) (schema : List Field) (ref id : Str) (encoded : Assoc Value)
      (ref_hex hex lang : Str) (langs all_langs ids : List Str) (fmt : Str) (before : List Result)
      (workers : Workers api go_cmp floats)
      → str_eq opts.oracle oracle_semantic ≡ false
      → str_eq lang ref ≡ false
      → Among lang langs
      → hex_of ref (serialize_round api go_cmp floats opts ref id encoded langs workers).hexes
        ≡ some ref_hex
      → hex_of lang (serialize_round api go_cmp floats opts ref id encoded langs workers).hexes
        ≡ some hex
      → known_reason opts.known_fails lang id ≡ none
      → is_empty (hex_diff ref_hex hex) ≡ false
      → success
          (run_encoded api go_cmp floats opts schema ref id encoded langs workers
            (add_all (new all_langs ids fmt) before)).1
        ≡ false
  success-run_encoded opts schema ref id encoded ref_hex hex lang langs all_langs ids fmt before
        workers o n among r h k d =
      let rep = add_all (new all_langs ids fmt) before in
      let (rows, e) = Adds-run_encoded opts schema ref id encoded langs workers rep in
      let whole = e ∙ sym (add_all-append before rows (new all_langs ids fmt)) in
      let standing =
        serialize_cell-run_encoded api go_cmp floats opts schema ref id encoded ref_hex hex lang
          langs workers rep o n among r h in
      ap success whole
      ∙ success-cell all_langs ids fmt (before ++ rows) id lang op_serialize
          (ap (λ q. cell q.results id lang op_serialize) (sym whole) ∙ standing)
          ((failure-verdict (hex_diff ref_hex hex) (known_reason opts.known_fails lang id)).0
            ∙ rw (k, d) refl)
