-- ===== src/Orch/Untouched.antt =====
-- The later rounds of internal/orch/orch.go leave the serialize cells as they are.
use serify.Base.{
  Bool, true, false, Option, none, some, List, [], ◌∷◌, ◌++◌, flatten, All, All-append, ◌≡◌, refl,
  ap, ◌∙◌, arith, ◌⊎◌, inl, inr, if◌then◌else◌, Bool-cases, Str, lit, str_eq, Assoc, is_empty,
}
use serify.Cmp.{GoCmp}
use serify.Conf.{Field, Value}
use serify.Proto.{Response, AuditReport, deserialize}
use serify.Proto.Encode.{Floats}
use serify.Report.{
  Result, Report, add_all, cell, op_serialize, op_deserialize, op_matrix, op_audit_zero_copy,
  op_audit_input_mut, op_audit_deser_stability, is_nil,
}
use serify.Report.Cells.{at_key, hits, last_at, cell-add_all}
use serify.Report.Interleave.{Misses, last_at-Misses}
use serify.Orch.{Options, WorkerApi, audit_warnings, deserialize_warnings, is_false}
use serify.Orch.Rounds.{
  HexResults, hex_of, Workers, put_worker, deserialize_rows, deserialize_round,
}
use serify.Orch.Case.{hex_text, matrix_cell, matrix_row, run_matrix, after_compare}

-- every result of the list for the cell is `x`
abbrev pub OnlyIs : Str → Str → Str → Result → List Result → Type 0
OnlyIs t l o x = All (λ y. at_key y t l o ≡ true → y ≡ x)

pub last_at-OnlyIs :
    (t l o : Str) (x : Result) (rs : List Result) (b : Option Result)
    → OnlyIs t l o x rs
    → (hits t l o rs ≡ true) ⊎ (b ≡ some x)
    → last_at t l o rs b ≡ some x
unfolding last_at
last_at-OnlyIs t l o x [] b h (inl k) = cc
last_at-OnlyIs t l o x [] b h (inr k) = k
last_at-OnlyIs t l o x (y ∷ rs) b h k = elim (Bool-cases (at_key y t l o)) [
  | inl same ↦ rw same (last_at-OnlyIs t l o x rs (some y) h.1 (inr (ap some (h.0 same))))
  | inr other ↦ rw other (last_at-OnlyIs t l o x rs b h.1 (rw other at k))
]

-- no result of the list is one of the operation
abbrev Avoids : Str → List Result → Type 0
Avoids op = All (λ y. str_eq y.operation op ≡ false)

Misses-Avoids : (t l o : Str) (rs : List Result) → Avoids o rs → Misses t l o rs
Misses-Avoids t l o [] h = tt
Misses-Avoids t l o (y ∷ rs) h = (ground (arith, h.0), Misses-Avoids t l o rs h.1)

Avoids-if :
    (o : Str) (b : Bool) (xs ys : List Result)
    → Avoids o xs
    → Avoids o ys
    → Avoids o (if b then xs else ys)
Avoids-if o true xs ys h k = h
Avoids-if o false xs ys h k = k

Avoids-append : (o : Str) (xs ys : List Result) → Avoids o xs → Avoids o ys → Avoids o (xs ++ ys)
Avoids-append o = All-append (λ y. str_eq y.operation o ≡ false)

deserialize-ne : str_eq op_deserialize op_serialize ≡ false
unfolding str_eq lit op_deserialize op_serialize
deserialize-ne = refl

matrix-ne : str_eq op_matrix op_serialize ≡ false
unfolding str_eq lit op_matrix op_serialize
matrix-ne = refl

Avoids-deserialize_warnings :
    (id lang : Str) (a : AuditReport) → Avoids op_serialize (deserialize_warnings id lang a)
unfolding deserialize_warnings str_eq lit op_serialize op_audit_zero_copy op_audit_input_mut
    op_audit_deser_stability
Avoids-deserialize_warnings id lang a =
    Avoids-append op_serialize _ _
      (Avoids-if op_serialize (is_nil a.zero_copy_fields) _ _ tt (refl, tt))
      (Avoids-append op_serialize _ _ (Avoids-if op_serialize a.input_mutated _ _ (refl, tt) tt)
        (Avoids-if op_serialize (is_false a.deser_stable) _ _ (refl, tt) tt))

Avoids-audit_warnings :
    (o : Str) (audit : Bool) (resp : Option Response) (f : AuditReport → List Result)
    → ((a : AuditReport) → Avoids o (f a))
    → Avoids o (audit_warnings audit resp f)
unfolding audit_warnings
Avoids-audit_warnings o audit none f h = tt
Avoids-audit_warnings o false (some resp) f h = tt
Avoids-audit_warnings o true (some resp) f h = go resp.audit
  where
    go : (a : Option AuditReport) → Avoids o (elim a [ none ↦ [] | some a ↦ f a ])
    go none = tt
    go (some a) = h a

module _ (api : WorkerApi) (go_cmp : GoCmp) (floats : Floats) where
  open api use {W, send, done}

  Avoids-deserialize_round :
      (opts : Options) (schema : List Field) (id : Str) (encoded : Assoc Value) (ref_hex : Str)
      (langs : List Str) (workers : Workers api go_cmp floats)
      → Avoids op_serialize (
          flatten
            (deserialize_round api go_cmp floats opts schema id encoded ref_hex langs workers).1)
  unfolding deserialize_round deserialize_rows
  Avoids-deserialize_round opts schema id encoded ref_hex [] workers = tt
  Avoids-deserialize_round opts schema id encoded ref_hex (l ∷ langs) workers =
      let sent = send (workers l) (deserialize id ref_hex) opts.timeout_sec in
      Avoids-append op_serialize
        (if done sent.0
          then []
          else deserialize_rows api go_cmp floats opts schema id l encoded sent.1)
        _
        (Avoids-if op_serialize (done sent.0) _ _ tt (
          deserialize-ne,
          Avoids-audit_warnings op_serialize opts.audit sent.1.response _
              (Avoids-deserialize_warnings id l),
        ))
        (Avoids-deserialize_round opts schema id encoded ref_hex langs
          (put_worker api go_cmp floats l sent.0 workers))

  off_serialize-matrix_cell :
      (opts : Options) (schema : List Field) (id : Str) (encoded : Assoc Value) (src dst hex : Str)
      (workers : Workers api go_cmp floats)
      → str_eq
          (matrix_cell api go_cmp floats opts schema id encoded src dst hex workers).1.operation
          op_serialize
        ≡ false
  unfolding matrix_cell
  off_serialize-matrix_cell opts schema id encoded src dst hex workers =
      elim (Bool-cases (is_empty hex)) [ inl e ↦ rw e matrix-ne | inr e ↦ rw e matrix-ne ]

  Avoids-matrix_row :
      (opts : Options) (schema : List Field) (id : Str) (encoded : Assoc Value) (src hex : Str)
      (dsts : List Str) (workers : Workers api go_cmp floats)
      → Avoids op_serialize
          (matrix_row api go_cmp floats opts schema id encoded src hex dsts workers).1
  unfolding matrix_row
  Avoids-matrix_row opts schema id encoded src hex [] workers = tt
  Avoids-matrix_row opts schema id encoded src hex (dst ∷ dsts) workers =
      let cell = matrix_cell api go_cmp floats opts schema id encoded src dst hex workers in
      (
        off_serialize-matrix_cell opts schema id encoded src dst hex workers,
        Avoids-matrix_row opts schema id encoded src hex dsts cell.0,
      )

  Avoids-run_matrix :
      (opts : Options) (schema : List Field) (id : Str) (encoded : Assoc Value) (hexes : HexResults)
      (langs srcs : List Str) (workers : Workers api go_cmp floats)
      → Avoids op_serialize
          (run_matrix api go_cmp floats opts schema id encoded hexes langs srcs workers).1
  unfolding run_matrix
  Avoids-run_matrix opts schema id encoded hexes langs [] workers = tt
  Avoids-run_matrix opts schema id encoded hexes langs (src ∷ srcs) workers =
      let first =
        matrix_row api go_cmp floats opts schema id encoded src
          (hex_text api go_cmp floats (hex_of src hexes)) langs workers in
      Avoids-append op_serialize first.1 _
        (Avoids-matrix_row opts schema id encoded src
          (hex_text api go_cmp floats (hex_of src hexes)) langs workers)
        (Avoids-run_matrix opts schema id encoded hexes langs srcs first.0)

  -- the later rounds leave the serialize cells alone
  pub serialize_cell-after_compare :
      (opts : Options) (schema : List Field) (id : Str) (encoded : Assoc Value) (langs : List Str)
      (hexes : HexResults) (ref_hex : Str) (workers : Workers api go_cmp floats) (rep : Report)
      (t l : Str)
      → cell
          (after_compare api go_cmp floats opts schema id encoded langs hexes
            (some ref_hex)
            workers
            rep).1.results
          t
          l
          op_serialize
        ≡ cell rep.results t l op_serialize
  unfolding after_compare
  serialize_cell-after_compare opts schema id encoded langs hexes ref_hex workers rep t l =
      let round =
        deserialize_round api go_cmp floats opts schema id encoded ref_hex langs workers in
      let quiet =
        cell-add_all (flatten round.1) rep t l op_serialize
        ∙ last_at-Misses t l op_serialize (flatten round.1) _ (
            Misses-Avoids t l op_serialize _
              (Avoids-deserialize_round opts schema id encoded ref_hex langs workers)) in
      elim (Bool-cases opts.full_matrix) [
        | inl full ↦
            let cells =
              run_matrix api go_cmp floats opts schema id encoded hexes langs langs round.0 in
            rw full (
              cell-add_all cells.1 (add_all rep (flatten round.1)) t l op_serialize
              ∙ last_at-Misses t l op_serialize cells.1 _ (
                  Misses-Avoids t l op_serialize _
                    (Avoids-run_matrix opts schema id encoded hexes langs langs round.0))
              ∙ quiet)
        | inr plain ↦ rw plain quiet
      ]
