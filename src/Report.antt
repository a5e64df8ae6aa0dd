-- ===== src/Report.antt =====
-- internal/report: the results of a run, kept per test, language and operation, with the lists of
-- failures and warnings that decide the exit code.
pub mod Cells
pub mod Failures
pub mod Interleave
pub mod Types
pub mod Records
pub mod Grid
pub mod Tests
use serify.Base.{
  ℕ, suc, ◌+◌, Bool, true, false, ◌&&◌, not, Option, List, [], ◌∷◌, ◌++◌, if◌then◌else◌, any, ltb,
  Str, lit, str_eq, Assoc, lookup, insert, values, sub_map,
}

-- `Status`; the values are the strings PASS, FAIL, XFAIL, XPASS, SKIP, ERROR and WARN.
pub data Status : Type 0 where
  pass fail x_fail x_pass skip error warn : Status

unfoldable pub op_serialize : Str
op_serialize = lit "serialize"

unfoldable pub op_deserialize : Str
op_deserialize = lit "deserialize"

unfoldable pub op_matrix : Str
op_matrix = lit "matrix"

unfoldable pub op_audit_mutation : Str
op_audit_mutation = lit "audit-mutation"

unfoldable pub op_audit_zero_copy : Str
op_audit_zero_copy = lit "audit-zero-copy"

unfoldable pub op_audit_stability : Str
op_audit_stability = lit "audit-stability"

unfoldable pub op_audit_input_mut : Str
op_audit_input_mut = lit "audit-input-mutation"

unfoldable pub op_audit_output_zero_copy : Str
op_audit_output_zero_copy = lit "audit-output-zero-copy"

unfoldable pub op_audit_deser_stability : Str
op_audit_deser_stability = lit "audit-deser-stability"

pub record Result : Type 0 where
  pub test_id : Str
  pub language : Str
  pub operation : Str
  pub status : Status
  pub detail : Str

-- testID → lang → operation → result
abbrev pub Results : Type 0
Results = Assoc (Assoc (Assoc Result))

-- The mutex is not a field: each `add` below is one critical section.
pub record Report : Type 0 where
  pub languages : List Str
  pub test_ids : List Str
  pub results : Results
  pub failures : List Result
  pub warnings : List Result
  pub output_fmt : Str

unfoldable pub new : List Str → List Str → Str → Report
new langs test_ids output_fmt = record {
  languages = langs;
  test_ids = test_ids;
  results = [];
  failures = [];
  warnings = [];
  output_fmt = output_fmt;
}

-- the closure `sameKey`
unfoldable pub same_key : Result → Result → Bool
same_key o res =
    str_eq o.test_id res.test_id
    && (str_eq o.language res.language && str_eq o.operation res.operation)

-- `r.Results[t][l][o] = res`, the missing maps made on the way
unfoldable pub record_result : Result → Results → Results
record_result res m =
    let by_lang = sub_map res.test_id m in
    let by_op = sub_map res.language by_lang in
    insert res.test_id (insert res.language (insert res.operation res by_op) by_lang) m

-- one entry for each key
unfoldable pub append_once : Result → List Result → List Result
append_once res filed = if any (λ o. same_key o res) filed then filed else filed ++ res ∷ []

-- the switch of `Add`
unfoldable pub file_result : Status → Result → Report → Report
unfolding append_once
file_result fail res r = record r { failures = append_once res r.failures }
file_result error res r = record r { failures = append_once res r.failures }
file_result warn res r = record r { warnings = append_once res r.warnings }
file_result x_pass res r = record r { warnings = append_once res r.warnings }
file_result _ res r = r

unfoldable pub add : Report → Result → Report
add r res = file_result res.status res (record r { results = record_result res r.results })

-- a sequence of `Add` calls
unfoldable pub add_all : Report → List Result → Report
add_all r [] = r
add_all r (res ∷ rest) = add_all (add r res) rest

unfoldable pub cell : Results → Str → Str → Str → Option Result
cell m t l o = lookup o (sub_map l (sub_map t m))

abbrev pub is_nil {ℓ} : {A : Type ℓ} → List A → Bool
is_nil [] = true
is_nil (x ∷ xs) = false

unfoldable pub success : Report → Bool
success r = is_nil r.failures

-- The counters of `printTable`; ERROR counts as a failure.
pub record Tally : Type 0 where
  pub passes : ℕ
  pub fails : ℕ
  pub x_fails : ℕ
  pub x_passes : ℕ
  pub skips : ℕ
  pub warns : ℕ

unfoldable pub count_status : Status → Tally → Tally
count_status pass t = record t { passes = suc t.passes }
count_status fail t = record t { fails = suc t.fails }
count_status error t = record t { fails = suc t.fails }
count_status x_fail t = record t { x_fails = suc t.x_fails }
count_status x_pass t = record t { x_passes = suc t.x_passes }
count_status skip t = record t { skips = suc t.skips }
count_status warn t = record t { warns = suc t.warns }

unfoldable pub tally_ops : List Result → Tally → Tally
unfolding count_status
tally_ops [] t = t
tally_ops (res ∷ rest) t = tally_ops rest (count_status res.status t)

unfoldable pub tally_langs : List (Assoc Result) → Tally → Tally
unfolding tally_ops
tally_langs [] t = t
tally_langs (by_op ∷ rest) t = tally_langs rest (tally_ops (values by_op) t)

unfoldable pub tally_tests : List (Assoc (Assoc Result)) → Tally → Tally
unfolding tally_langs
tally_tests [] t = t
tally_tests (by_lang ∷ rest) t = tally_tests rest (tally_langs (values by_lang) t)

unfoldable pub tally : Report → Tally
unfolding tally_tests
tally r =
    tally_tests (values r.results)
      (record { passes = 0; fails = 0; x_fails = 0; x_passes = 0; skips = 0; warns = 0 })

-- The exit code that the last line of the table announces.
unfoldable pub announced_exit : Report → ℕ
unfolding tally
announced_exit r = if ltb 0 (tally r).fails then 1 else 0
