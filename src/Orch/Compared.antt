-- ===== src/Orch/Compared.antt =====
-- What stands in the serialize cell of a worker of internal/orch/orch.go that was compared with the
-- reference by the bytes oracle.
use mathlib.Core.Path.{subst}
use serify.Base.{
  false, Option, none, some, List, [], ◌∷◌, All-append, ◌≡◌, refl, sym, ◌∙◌, arith, inl, inr,
  Bool-cases, Str, str_eq, str_eq_iff, Assoc,
}
use serify.Cmp.{GoCmp, hex_diff}
use serify.Conf.{Field, Value, oracle_semantic}
use serify.Proto.Encode.{Floats}
use serify.Report.{Status, Result, Report, cell, op_serialize}
use serify.Report.Cells.{cell-add_all}
use serify.Orch.{Options, WorkerApi, row, verdict, known_reason}
use serify.Orch.Rounds.{
  HexResults, hex_of, Workers, serialize_diff, serialize_round, compare_one, compare_round,
}
use serify.Orch.Case.{run_encoded}
use serify.Orch.Pending.{Among, hits-compare_round}
use serify.Orch.Untouched.{serialize_cell-after_compare, OnlyIs, last_at-OnlyIs}

module _ (api : WorkerApi) (go_cmp : GoCmp) (floats : Floats) where
  open api use {W, send, done}

  -- a row of another language
  OnlyIs-elsewhere :
      (id lang l o : Str) (x : Result) (judged : Status × Str)
      → str_eq l lang ≡ false
      → OnlyIs id lang o x (row id l o judged ∷ [])
  OnlyIs-elsewhere id lang l o x judged other = ((λ k. ground (arith, other, k)), tt)

  OnlyIs-compare_one-other :
      (opts : Options) (schema : List Field) (ref id : Str) (encoded : Assoc Value)
      (ref_hex lang l : Str) (h : Option Str) (workers : Workers api go_cmp floats) (x : Result)
      → str_eq l lang ≡ false
      → OnlyIs id lang op_serialize x
          (compare_one api go_cmp floats opts schema ref id encoded (some ref_hex) l h workers).1
  unfolding compare_one
  OnlyIs-compare_one-other opts schema ref id encoded ref_hex lang l none workers x other = tt
  OnlyIs-compare_one-other opts schema ref id encoded ref_hex lang l (some hex) workers x other =
      elim (Bool-cases (str_eq l ref)) [
        | inl e ↦ rw e tt
        | inr e ↦ rw e (OnlyIs-elsewhere id lang l op_serialize x _ other)
      ]

  OnlyIs-compare_one-same :
      (opts : Options) (schema : List Field) (ref id : Str) (encoded : Assoc Value)
      (ref_hex lang hex : Str) (workers : Workers api go_cmp floats)
      → str_eq opts.oracle oracle_semantic ≡ false
      → OnlyIs id lang op_serialize
          (row id lang op_serialize
            (verdict (hex_diff ref_hex hex) (known_reason opts.known_fails lang id)))
          (compare_one api go_cmp floats opts schema ref id encoded
            (some ref_hex)
            lang
            (some hex)
            workers).1
  unfolding compare_one serialize_diff
  OnlyIs-compare_one-same opts schema ref id encoded ref_hex lang hex workers o =
      elim (Bool-cases (str_eq lang ref)) [ inl e ↦ rw e tt | inr e ↦ rw (e, o) ((λ k. refl), tt) ]

  OnlyIs-compare_round :
      (opts : Options) (schema : List Field) (ref id : Str) (encoded : Assoc Value)
      (hexes : HexResults) (ref_hex hex lang : Str) (langs : List Str)
      (workers : Workers api go_cmp floats)
      → str_eq opts.oracle oracle_semantic ≡ false
      → hex_of ref hexes ≡ some ref_hex
      → hex_of lang hexes ≡ some hex
      → OnlyIs id lang op_serialize
          (row id lang op_serialize
            (verdict (hex_diff ref_hex hex) (known_reason opts.known_fails lang id)))
          (compare_round api go_cmp floats opts schema ref id encoded hexes langs workers).1
  unfolding compare_round
  OnlyIs-compare_round opts schema ref id encoded hexes ref_hex hex lang [] workers o r h = tt
  OnlyIs-compare_round opts schema ref id encoded hexes ref_hex hex lang (l ∷ langs) workers o r h =
      let one =
        compare_one api go_cmp floats opts schema ref id encoded (hex_of ref hexes) l
          (hex_of l hexes) workers in
      All-append _ one.1 _
        (rw r (elim (Bool-cases (str_eq l lang)) [
          | inl same ↦
              subst
                (λ m.
                  OnlyIs id lang op_serialize
                    (row id lang op_serialize
                      (verdict (hex_diff ref_hex hex) (known_reason opts.known_fails lang id)))
                    (compare_one api go_cmp floats opts schema ref id encoded (some ref_hex) m
                      (hex_of m hexes) workers).1)
                (sym ((str_eq_iff l lang).0 same))
                (rw h
                  (OnlyIs-compare_one-same opts schema ref id encoded ref_hex lang hex workers o))
          | inr other ↦
              OnlyIs-compare_one-other opts schema ref id encoded ref_hex lang l (hex_of l hexes)
                workers _ other
        ]))
        (OnlyIs-compare_round opts schema ref id encoded hexes ref_hex hex lang langs one.0 o r h)

  -- With the bytes oracle, a worker of the round other than the reference that serialized the case,
  -- as the reference did, has in its serialize cell the verdict of the difference of its bytes to
  -- the reference's: no audit finding and no later round replaces it.
  pub serialize_cell-run_encoded :
      (opts : Options) (schema : List Field) (ref id : Str) (encoded : Assoc Value)
      (ref_hex hex lang : Str) (langs : List Str) (workers : Workers api go_cmp floats)
      (rep : Report)
      → str_eq opts.oracle oracle_semantic ≡ false
      → str_eq lang ref ≡ false
      → Among lang langs
      → hex_of ref (serialize_round api go_cmp floats opts ref id encoded langs workers).hexes
        ≡ some ref_hex
      → hex_of lang (serialize_round api go_cmp floats opts ref id encoded langs workers).hexes
        ≡ some hex
      → cell
          (run_encoded api go_cmp floats opts schema ref id encoded langs workers rep).1.results
          id
          lang
          op_serialize
        ≡ some (
            row id lang op_serialize
              (verdict (hex_diff ref_hex hex) (known_reason opts.known_fails lang id)))
  unfolding run_encoded
  serialize_cell-run_encoded opts schema ref id encoded ref_hex hex lang langs workers rep o n among
        r h =
      let round = serialize_round api go_cmp floats opts ref id encoded langs workers in
      let compared =
        compare_round api go_cmp floats opts schema ref id encoded round.hexes langs
          round.workers in
      rw r (
        serialize_cell-after_compare api go_cmp floats opts schema id encoded langs round.hexes
          ref_hex compared.0 _ id lang
        ∙ cell-add_all compared.1 _ id lang op_serialize
        ∙ last_at-OnlyIs id lang op_serialize _ compared.1 _
            (OnlyIs-compare_round opts schema ref id encoded round.hexes ref_hex hex lang langs
              round.workers o r h)
            (inl (
              hits-compare_round api go_cmp floats opts schema ref id encoded round.hexes lang langs
                round.workers (rw h refl) n among)))
