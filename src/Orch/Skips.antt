-- ===== src/Orch/Skips.antt =====
-- internal/orch/coverage.go: the skips that a worker declares, and the check of them after a run.
use serify.Base.{
  Bool, true, false, not, ◌||◌, none, some, List, [], ◌∷◌, ◌++◌, if◌then◌else◌, Str, lit, str_eq,
  Assoc, lookup, insert, sub_map, cut, quote,
}
use serify.Conf.{ExpectedSkips, contains_str}
use serify.Report.{Status, skip, fail, warn, Result, Report, add_all, op_serialize}
use serify.Orch.{row, skip_ref_serialize_failed, skip_ref_unsupported}

-- `isCascadeSkip`
unfoldable pub is_cascade_skip : Str → Bool
unfolding skip_ref_serialize_failed skip_ref_unsupported
is_cascade_skip detail =
    str_eq detail skip_ref_serialize_failed || str_eq detail skip_ref_unsupported

-- lang → declared entry → is it used
abbrev pub Used : Type 0
Used = Assoc (Assoc Bool)

-- `op + "/" + t`
abbrev pub op_key : Str → Str → Str
op_key op t = op ++ (b'/' ∷ t)

unfoldable pub declare_types : List Str → Assoc Bool → Assoc Bool
declare_types [] m = m
declare_types (t ∷ ts) m = declare_types ts (insert t false m)

unfoldable pub declare_op : Str → List Str → Assoc Bool → Assoc Bool
declare_op op [] m = m
declare_op op (t ∷ ts) m = declare_op op ts (insert (op_key op t) false m)

unfoldable pub declare_ops : Assoc (List Str) → Assoc Bool → Assoc Bool
unfolding declare_op
declare_ops [] m = m
declare_ops ((op, ts) ∷ rest) m = declare_ops rest (declare_op op ts m)

-- the first loop, over the languages that declare skips
unfoldable pub declared : Assoc ExpectedSkips → Used
unfolding declare_types declare_ops
declared [] = []
declared ((lang, es) ∷ rest) =
    (lang, declare_ops es.operations (declare_types es.types [])) ∷ declared rest

-- `used[lang][key] = true`; the inner map is there, since the language declares the entry
abbrev mark_used : Str → Str → Used → Used
mark_used lang key used = insert lang (insert key true (sub_map lang used)) used

-- a missing language reads as the zero `ExpectedSkips`
abbrev pub skips_of : Str → Assoc ExpectedSkips → ExpectedSkips
skips_of lang expected = elim (lookup lang expected) [
  | none ↦ record { types = []; operations = [] }
  | some es ↦ es
]

-- `typeName, rest, _ := strings.Cut(testID, "/")`
abbrev pub type_of_id : Str → Str
type_of_id test_id = (cut b'/' test_id).0

abbrev pub format_of_id : Str → Str
format_of_id test_id = (cut b'/' (cut b'/' test_id).1).0

unfoldable pub undeclared_detail : Str → Str → Str → Str
undeclared_detail test_id lang op =
    lit "undeclared skip: "
    ++ (quote (type_of_id test_id)
        ++ (b'/'
            ∷ (format_of_id test_id
                ++ (b'/'
                    ∷ (op
                        ++ (lit " is not covered by expected-skips for "
                            ++ (lang
                                ++ lit
                                    " (a real gap must be declared; otherwise coverage regressed)")))))))

unfoldable pub is_status_skip : Status → Bool
is_status_skip skip = true
is_status_skip _ = false

-- The body of the loop over the cells: the entries used so far, and the undeclared skips.
unfoldable pub check_cell :
    Assoc ExpectedSkips → Str → Str → Str → Result → Used × List Result → Used × List Result
unfolding is_cascade_skip undeclared_detail is_status_skip contains_str
check_cell expected test_id lang op res (used, undeclared) =
    let es = skips_of lang expected in
    let t = type_of_id test_id in
    if not (is_status_skip res.status) || is_cascade_skip res.detail
    then (used, undeclared)
    else if contains_str es.types t
    then (mark_used lang t used, undeclared)
    else if contains_str (sub_map op es.operations) t
    then (mark_used lang (op_key op t) used, undeclared)
    else (used, undeclared ++ row test_id lang op (fail, undeclared_detail test_id lang op) ∷ [])

unfoldable pub check_ops :
    Assoc ExpectedSkips → Str → Str → Assoc Result → Used × List Result → Used × List Result
unfolding check_cell
check_ops expected test_id lang [] acc = acc
check_ops expected test_id lang ((op, res) ∷ rest) acc =
    check_ops expected test_id lang rest (check_cell expected test_id lang op res acc)

unfoldable pub check_langs :
    Assoc ExpectedSkips → Str → Assoc (Assoc Result) → Used × List Result → Used × List Result
unfolding check_ops
check_langs expected test_id [] acc = acc
check_langs expected test_id ((lang, by_op) ∷ rest) acc =
    check_langs expected test_id rest (check_ops expected test_id lang by_op acc)

-- the loop over the table
unfoldable pub check_tests :
    Assoc ExpectedSkips → Assoc (Assoc (Assoc Result)) → Used × List Result → Used × List Result
unfolding check_langs
check_tests expected [] acc = acc
check_tests expected ((test_id, by_lang) ∷ rest) acc =
    check_tests expected rest (check_langs expected test_id by_lang acc)

unfoldable pub stale_detail : Str → Str → Str
stale_detail lang key =
    lit "stale expected-skip "
    ++ (quote key ++ (lit " for " ++ (lang ++ lit ": nothing skipped, remove it")))

unfoldable pub stale_keys : Str → Assoc Bool → List Result
unfolding stale_detail
stale_keys lang [] = []
stale_keys lang ((key, seen) ∷ rest) =
    let others = stale_keys lang rest in
    if seen then others else row key lang op_serialize (warn, stale_detail lang key) ∷ others

-- the last loop
unfoldable pub stale_rows : Used → List Result
unfolding stale_keys
stale_rows [] = []
stale_rows ((lang, seen) ∷ rest) = stale_keys lang seen ++ stale_rows rest

-- `CheckExpectedSkips`
unfoldable pub check_expected_skips : Report → Assoc ExpectedSkips → Report
unfolding declared check_tests stale_rows
check_expected_skips rep expected =
    let (used, undeclared) = check_tests expected rep.results (declared expected, []) in
    add_all (add_all rep undeclared) (stale_rows used)
