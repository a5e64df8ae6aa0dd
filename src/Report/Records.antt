-- ===== src/Report/Records.antt =====
-- internal/report/records.go: the flat rows of a report.
use serify.Base.{
  ℕ, suc, Bool, true, false, ◌&&◌, Option, none, some, List, [], ◌∷◌, ◌++◌, if◌then◌else◌, ◌==◌,
  ltb, leb, Str, str_eq, Assoc, lookup, keys, sub_map, cut,
}
use serify.Base.Sort.{str_le}
use serify.Report.{
  Status, Result, Results, Report, op_serialize, op_deserialize, op_matrix, op_audit_mutation,
  op_audit_stability, op_audit_output_zero_copy, op_audit_zero_copy, op_audit_input_mut,
  op_audit_deser_stability,
}

-- `Record`
pub record Record : Type 0 where
  pub test_id : Str
  pub type_name : Str
  pub format : Str
  pub case_name : Str
  pub language : Str
  pub operation : Str
  pub status : Status
  pub detail : Str

-- `splitTestID3`: two cuts at the first slashes
unfoldable pub split_test_id : Str → Option (Str × Str × Str)
split_test_id tid =
    let (type_name, rest, one) = cut b'/' tid in
    let (format, case_name, two) = cut b'/' rest in
    if one && two then some (type_name, format, case_name) else none

-- `rank[s] = i` for each of a list; the last of two equal strings wins
unfoldable pub rank_from : ℕ → List Str → Str → Option ℕ
rank_from i [] s = none
rank_from i (l ∷ ls) s = elim (rank_from (suc i) ls s) [
  | some r ↦ some r
  | none ↦ if str_eq l s then some i else none
]

-- the comparison of two languages is at most 0
unfoldable pub lang_le : List Str → Str → Str → Bool
unfolding rank_from
lang_le langs a b = elim (rank_from 0 langs a) [
  | none ↦ elim (rank_from 0 langs b) [ none ↦ str_le a b | some j ↦ false ]
  | some i ↦ elim (rank_from 0 langs b) [
    | none ↦ true
    | some j ↦ if i == j then str_le a b else ltb i j
  ]
]

-- `opDisplayOrder`
unfoldable pub op_display_order : List Str
op_display_order =
    op_serialize ∷ op_deserialize ∷ op_matrix ∷ op_audit_mutation ∷ op_audit_stability
    ∷ op_audit_output_zero_copy ∷ op_audit_zero_copy ∷ op_audit_input_mut ∷ op_audit_deser_stability
    ∷ []

-- the comparison of two operations is at most 0
unfoldable pub op_le : Str → Str → Bool
unfolding rank_from op_display_order
op_le a b = elim (rank_from 0 op_display_order a) [
  | none ↦ elim (rank_from 0 op_display_order b) [ none ↦ str_le a b | some j ↦ false ]
  | some i ↦ elim (rank_from 0 op_display_order b) [ none ↦ true | some j ↦ leb i j ]
]

-- `slices.SortFunc`
unfoldable pub insert_by : (Str → Str → Bool) → Str → List Str → List Str
insert_by le s [] = s ∷ []
insert_by le s (t ∷ rest) = if le s t then s ∷ t ∷ rest else t ∷ insert_by le s rest

unfoldable pub sort_by : (Str → Str → Bool) → List Str → List Str
unfolding insert_by
sort_by le [] = []
sort_by le (s ∷ rest) = insert_by le s (sort_by le rest)

-- the loop over the operations of a language
unfoldable pub op_records : Str → Str × Str × Str → Str → Assoc Result → List Str → List Record
op_records tid parts lang by_op [] = []
op_records tid parts lang by_op (op ∷ ops) = elim (lookup op by_op) [
  | none ↦ op_records tid parts lang by_op ops
  | some res ↦
      record {
        test_id = tid;
        type_name = parts.0;
        format = parts.1;
        case_name = parts.2;
        language = lang;
        operation = op;
        status = res.status;
        detail = res.detail;
      }
      ∷ op_records tid parts lang by_op ops
]

-- the loop over the languages of a test
unfoldable pub lang_records : Str → Str × Str × Str → Assoc (Assoc Result) → List Str → List Record
unfolding op_records sort_by op_le
lang_records tid parts by_lang [] = []
lang_records tid parts by_lang (lang ∷ langs) =
    let by_op = sub_map lang by_lang in
    op_records tid parts lang by_op (sort_by op_le (keys by_op))
    ++ lang_records tid parts by_lang langs

-- the loop over the test ids; `none` for the error of an invalid one
unfoldable pub id_records : List Str → Results → List Str → Option (List Record)
unfolding lang_records lang_le split_test_id
id_records langs results [] = some []
id_records langs results (tid ∷ tids) =
    let rest = id_records langs results tids in
    elim (split_test_id tid) [
      | none ↦ none
      | some parts ↦
          let by_lang = sub_map tid results in
          elim rest [
            | none ↦ none
            | some recs ↦
                some
                  (lang_records tid parts by_lang (sort_by (lang_le langs) (keys by_lang)) ++ recs)
          ]
    ]

-- `Records`
unfoldable pub records : Report → Option (List Record)
unfolding id_records
records r = id_records r.languages r.results r.test_ids
