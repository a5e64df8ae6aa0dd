-- ===== src/Orch/Pending.antt =====
-- The rounds of a case in internal/orch/orch.go add a row for each language, or leave its bytes to the
-- comparison.
use mathlib.Core.Path.{subst}
use serify.Base.{
  is_some, true, false, not, ◌&&◌, Option, none, some, List, [], ◌∷◌, flatten, ◌≡◌, sym, arith, ◌⊎◌,
  inl, inr, Bool-cases, Str, str_eq, str_eq_iff, str_eq_refl, Assoc, any,
}
use serify.Cmp.{GoCmp}
use serify.Conf.{Field, Value}
use serify.Proto.{serialize, deserialize}
use serify.Proto.Encode.{Floats}
use serify.Report.{Status, op_serialize, op_deserialize}
use serify.Report.Cells.{at_key, hits, hits-left, hits-right}
use serify.Orch.{
  Options, Reply, WorkerApi, ok_now, row, resolve_result, known_reason, audit_warnings,
  serialize_warnings,
}
use serify.Orch.Rounds.{
  HexResults, hex_of, rows_of, rows_for, Workers, put_worker, Round, serialize_rows, serialize_task,
  serialize_round, compare_one, compare_round, deserialize_rows, deserialize_round,
}

hits-own_row :
    (id lang op : Str) (judged : Status × Str) → at_key (row id lang op judged) id lang op ≡ true
hits-own_row id lang op (s, d) = ground (arith, str_eq_refl id, str_eq_refl lang, str_eq_refl op)

at_key-row :
    (id lang l op : Str) (judged : Status × Str)
    → str_eq l lang ≡ true
    → at_key (row id l op judged) id lang op ≡ true
at_key-row id lang l op (s, d) h = ground (arith, str_eq_refl id, h, str_eq_refl op)

-- `langs` names the language
abbrev pub Among : Str → List Str → Type 0
Among lang langs = any (λ l. str_eq l lang) langs ≡ true

pub hits-rows_of :
    (id lang l op : Str) (ops : List Str) (judged : Status × Str)
    → str_eq l lang ≡ true
    → any (λ x. str_eq x op) ops ≡ true
    → hits id lang op (rows_of id ops l judged) ≡ true
unfolding rows_of
hits-rows_of id lang l op [] judged h k = cc
hits-rows_of id lang l op (x ∷ ops) (s, d) h k = elim (Bool-cases (str_eq x op)) [
  | inl same ↦ ground (arith, str_eq_refl id)
  | inr other ↦ ground (arith, hits-rows_of id lang l op ops (s, d) h)
]

pub hits-rows_for :
    (id lang op : Str) (ops langs : List Str) (judged : Status × Str)
    → Among lang langs
    → any (λ x. str_eq x op) ops ≡ true
    → hits id lang op (rows_for id ops langs judged) ≡ true
unfolding rows_for
hits-rows_for id lang op ops [] judged h k = cc
hits-rows_for id lang op ops (l ∷ langs) judged h k = elim (Bool-cases (str_eq l lang)) [
  | inl same ↦ hits-left id lang op _ _ (hits-rows_of id lang l op ops judged same k)
  | inr other ↦
      hits-right id lang op (rows_of id ops l judged) _
        (hits-rows_for id lang op ops langs judged (rw other at h) k)
]

module _ (api : WorkerApi) (go_cmp : GoCmp) (floats : Floats) where
  open api use {W, send, done}

  -- the context of the run is never cancelled
  abbrev pub Uncancelled : Type 0
  Uncancelled = (w : W) → done w ≡ false

  -- the row of a language was added, or it has bytes that wait for the comparison
  abbrev Pending : Str → Str → Str → Round api go_cmp floats → Type 0
  Pending ref id lang r =
      (hits id lang op_serialize (flatten r.tasks) ≡ true)
      ⊎ ((is_some (hex_of lang r.hexes) ≡ true) × (str_eq lang ref ≡ false))

  own_row :
      (opts : Options) (ref id lang : Str) (reply : Reply)
      → (ok_now reply && not (str_eq lang ref)) ≡ false
      → hits id lang op_serialize (serialize_rows api go_cmp floats opts ref id lang reply) ≡ true
  unfolding serialize_rows
  own_row opts ref id lang reply judged = rw judged (
      hits-right id lang op_serialize
        (audit_warnings opts.audit reply.response (serialize_warnings id lang))
        (row id lang op_serialize (resolve_result (known_reason opts.known_fails lang id) reply)
          ∷ [])
        (ground (
          arith,
          hits-own_row id lang op_serialize
              (resolve_result (known_reason opts.known_fails lang id) reply),
        )))

  Pending-own :
      (opts : Options) (ref id lang : Str) (w : W) (reply : Reply) (r : Round api go_cmp floats)
      → done w ≡ false
      → Pending ref id lang (serialize_task api go_cmp floats opts ref id lang w reply r)
  unfolding serialize_task hex_of
  Pending-own opts ref id lang w reply r live =
      elim (Bool-cases (ok_now reply && not (str_eq lang ref))) [
        | inl waits ↦ rw live (inr (rw str_eq_refl (unfold ok_now in ground arith), ground arith))
        | inr judged ↦
            rw live
              (inl (hits-left id lang op_serialize _ _ (own_row opts ref id lang reply judged)))
      ]

  Pending-later :
      (opts : Options) (ref id lang l : Str) (w : W) (reply : Reply) (r : Round api go_cmp floats)
      → str_eq l lang ≡ false
      → Pending ref id lang r
      → Pending ref id lang (serialize_task api go_cmp floats opts ref id l w reply r)
  unfolding serialize_task hex_of
  Pending-later opts ref id lang l w reply r other h = elim (Bool-cases (done w)) [
    | inl gone ↦ rw gone (rw other h)
    | inr live ↦ rw live (
        rw other (elim h [
          | inl hit ↦ inl (
              hits-right id lang op_serialize (serialize_rows api go_cmp floats opts ref id l reply)
                _ hit)
          | inr waits ↦ inr waits
        ]))
  ]

  pub Pending-serialize_round :
      (opts : Options) (ref id : Str) (encoded : Assoc Value) (lang : Str) (langs : List Str)
      (workers : Workers api go_cmp floats)
      → Uncancelled
      → Among lang langs
      → Pending ref id lang (serialize_round api go_cmp floats opts ref id encoded langs workers)
  unfolding serialize_round
  Pending-serialize_round opts ref id encoded lang [] workers u h = cc
  Pending-serialize_round opts ref id encoded lang (l ∷ langs) workers u h =
      let sent = send (workers l) (serialize id encoded) opts.timeout_sec in
      let workers' = put_worker api go_cmp floats l sent.0 workers in
      let rest = serialize_round api go_cmp floats opts ref id encoded langs workers' in
      elim (Bool-cases (str_eq l lang)) [
        | inl same ↦
            subst
              (λ x.
                Pending ref id lang
                  (serialize_task api go_cmp floats opts ref id x sent.0 sent.1 rest))
              (sym ((str_eq_iff l lang).0 same))
              (Pending-own opts ref id lang sent.0 sent.1 rest (u sent.0))
        | inr other ↦
            Pending-later opts ref id lang l sent.0 sent.1 rest other
              (Pending-serialize_round opts ref id encoded lang langs workers' u (rw other at h))
      ]

  hits-compare_one :
      (opts : Options) (schema : List Field) (ref id : Str) (encoded : Assoc Value)
      (ref_hex : Option Str) (lang : Str) (hex : Option Str) (workers : Workers api go_cmp floats)
      → is_some hex ≡ true
      → str_eq lang ref ≡ false
      → hits id lang op_serialize
          (compare_one api go_cmp floats opts schema ref id encoded ref_hex lang hex workers).1
        ≡ true
  unfolding compare_one
  hits-compare_one opts schema ref id encoded ref_hex lang none workers h n = cc
  hits-compare_one opts schema ref id encoded none lang (some hex) workers h n =
      rw n (ground (arith, str_eq_refl id, str_eq_refl lang, str_eq_refl op_serialize))
  hits-compare_one opts schema ref id encoded (some ref_hex) lang (some hex) workers h n =
      rw n (ground (arith, str_eq_refl id, str_eq_refl lang, str_eq_refl op_serialize))

  pub hits-compare_round :
      (opts : Options) (schema : List Field) (ref id : Str) (encoded : Assoc Value)
      (hexes : HexResults) (lang : Str) (langs : List Str) (workers : Workers api go_cmp floats)
      → is_some (hex_of lang hexes) ≡ true
      → str_eq lang ref ≡ false
      → Among lang langs
      → hits id lang op_serialize
          (compare_round api go_cmp floats opts schema ref id encoded hexes langs workers).1
        ≡ true
  unfolding compare_round
  hits-compare_round opts schema ref id encoded hexes lang [] workers s n h = cc
  hits-compare_round opts schema ref id encoded hexes lang (l ∷ langs) workers s n h =
      let one = λ (x : Str).
        compare_one api go_cmp floats opts schema ref id encoded (hex_of ref hexes) x
          (hex_of x hexes) workers in
      elim (Bool-cases (str_eq l lang)) [
        | inl same ↦ hits-left id lang op_serialize (one l).1 _ (
            subst (λ x. hits id lang op_serialize (one x).1 ≡ true)
              (sym ((str_eq_iff l lang).0 same))
              (hits-compare_one opts schema ref id encoded (hex_of ref hexes) lang
                (hex_of lang hexes) workers s n))
        | inr other ↦ hits-right id lang op_serialize (one l).1 _ (
            hits-compare_round opts schema ref id encoded hexes lang langs (one l).0 s n
              (rw other at h))
      ]

  pub hits-deserialize_round :
      (opts : Options) (schema : List Field) (id : Str) (encoded : Assoc Value) (ref_hex lang : Str)
      (langs : List Str) (workers : Workers api go_cmp floats)
      → Uncancelled
      → Among lang langs
      → hits id lang op_deserialize (
          flatten
            (deserialize_round api go_cmp floats opts schema id encoded ref_hex langs workers).1)
        ≡ true
  unfolding deserialize_round deserialize_rows
  hits-deserialize_round opts schema id encoded ref_hex lang [] workers u h = cc
  hits-deserialize_round opts schema id encoded ref_hex lang (l ∷ langs) workers u h =
      let sent = send (workers l) (deserialize id ref_hex) opts.timeout_sec in
      let workers' = put_worker api go_cmp floats l sent.0 workers in
      elim (Bool-cases (str_eq l lang)) [
        | inl same ↦ rw (u sent.0) (
            hits-left id lang op_deserialize
              (deserialize_rows api go_cmp floats opts schema id l encoded sent.1) _
              (ground (arith, str_eq_refl id, same, str_eq_refl op_deserialize)))
        | inr other ↦ rw (u sent.0) (
            hits-right id lang op_deserialize
              (deserialize_rows api go_cmp floats opts schema id l encoded sent.1) _
              (hits-deserialize_round opts schema id encoded ref_hex lang langs workers' u
                (rw other at h)))
      ]
