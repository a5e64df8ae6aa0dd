-- ===== src/Report/Failures.antt =====
-- The failure list of internal/report/report.go against the table: `Success` decides the exit code
-- by the list, `printTable` announces one by the table.
use mathlib.Core.Bool.{false≢true}
use mathlib.Core.Path.{subst}
use serify.Base.{
  Bool, true, false, Option, none, some, List, [], ◌∷◌, ◌++◌, ◌≡◌, refl, ◌∙◌, arith, inl, inr, any,
  Bool-cases, Str, str_eq, str_eq_refl, Assoc, lookup, insert, values, or_empty, sub_map, All,
}
use serify.Report.{
  Result, Results, Report, Status, pass, fail, x_fail, x_pass, skip, error, warn, Tally, new,
  same_key, record_result, append_once, add, file_result, add_all, is_nil, cell, success,
  count_status, tally_ops, tally_langs, tally_tests, tally, announced_exit,
}

abbrev pub is_failure : Status → Bool
is_failure fail = true
is_failure error = true
is_failure _ = false

same_key_refl : (res : Result) → same_key res res ≡ true
unfolding same_key
same_key_refl res =
    ground (arith, str_eq_refl res.test_id, str_eq_refl res.language, str_eq_refl res.operation)

-- a failing result has an entry of its key in the list
abbrev pub Filed : List Result → Result → Type 0
Filed failures res = is_failure res.status ≡ true → any (λ o. same_key o res) failures ≡ true

any-append_left :
    (p : Result → Bool) (xs ys : List Result) → any p xs ≡ true → any p (xs ++ ys) ≡ true
any-append_left p [] ys h = cc
any-append_left p (x ∷ xs) ys h = ground (arith, any-append_left p xs ys)

any-append_last :
    (p : Result → Bool) (xs : List Result) (y : Result) → p y ≡ true → any p (xs ++ y ∷ []) ≡ true
any-append_last p [] y h = ground arith
any-append_last p (x ∷ xs) y h = ground (arith, any-append_last p xs y h)

any-append_once :
    (p : Result → Bool) (res : Result) (xs : List Result)
    → any p xs ≡ true
    → any p (append_once res xs) ≡ true
unfolding append_once
any-append_once p res xs h = elim (Bool-cases (any (λ o. same_key o res) xs)) [
  | inl old ↦ rw old h
  | inr fresh ↦ rw fresh (any-append_left p xs (res ∷ []) h)
]

any-append_once_self :
    (res : Result) (xs : List Result) → any (λ o. same_key o res) (append_once res xs) ≡ true
unfolding append_once
any-append_once_self res xs = elim (Bool-cases (any (λ o. same_key o res) xs)) [
  | inl old ↦ rw old old
  | inr fresh ↦ rw fresh (any-append_last (λ o. same_key o res) xs res (same_key_refl res))
]

module _ {ℓ} {V : Type ℓ} (P : V → Type 0) where
  All-values-insert :
      (k : Str) (v : V) (m : Assoc V) → P v → All P (values m) → All P (values (insert k v m))
  unfolding insert
  All-values-insert k v [] pv h = (pv, tt)
  All-values-insert k v ((j, w) ∷ m) pv h = elim (Bool-cases (str_eq j k)) [
    | inl same ↦ rw same (pv, h.1)
    | inr other ↦ rw other (h.0, All-values-insert k v m pv h.1)
  ]

  All-values-lookup : (k : Str) (m : Assoc V) {v : V} → All P (values m) → lookup k m ≡ some v → P v
  unfolding lookup
  All-values-lookup k [] h e = cc
  All-values-lookup k ((j, w) ∷ m) {v} h e = elim (Bool-cases (str_eq j k)) [
    | inl same ↦ subst P (ground arith) h.0
    | inr other ↦ All-values-lookup k m h.1 (ground arith)
  ]

All-mono {ℓ} :
    {V : Type ℓ} {P Q : V → Type 0} (xs : List V) → ((x : V) → P x → Q x) → All P xs → All Q xs
All-mono [] f h = tt
All-mono (x ∷ xs) f h = (f x h.0, All-mono xs f h.1)

All-sub_map {ℓ} :
    {V : Type ℓ} (P : V → Type 0) (k : Str) (m : Assoc (Assoc V))
    → All (λ s. All P (values s)) (values m)
    → All P (values (sub_map k m))
unfolding sub_map
All-sub_map {V} P k m h = go (lookup k m) refl
  where
    go : (o : Option (Assoc V)) → lookup k m ≡ o → All P (values (or_empty o))
    go none e = tt
    go (some s) e = All-values-lookup (λ s. All P (values s)) k m h e

-- every result of the table satisfies `P`
abbrev pub AllResults : (Result → Type 0) → Results → Type 0
AllResults P m = All (λ by_lang. All (λ by_op. All P (values by_op)) (values by_lang)) (values m)

AllResults-record_result :
    (P : Result → Type 0) (res : Result) (m : Results)
    → P res
    → AllResults P m
    → AllResults P (record_result res m)
unfolding record_result
AllResults-record_result P res m p h =
    let langs = All-sub_map (λ by_op. All P (values by_op)) res.test_id m h in
    let ops = All-sub_map P res.language (sub_map res.test_id m) langs in
    All-values-insert _ res.test_id _ m
      (All-values-insert _ res.language _ (sub_map res.test_id m)
        (All-values-insert P res.operation res _ p ops) langs)
      h

AllResults-mono :
    {P Q : Result → Type 0} (m : Results)
    → ((x : Result) → P x → Q x)
    → AllResults P m
    → AllResults Q m
AllResults-mono m f =
    All-mono (values m) (λ by_lang. All-mono (values by_lang) (λ by_op. All-mono (values by_op) f))

-- Every failing result of the table has its key in the list of failures.
abbrev pub IsCovered : Report → Type 0
IsCovered r = AllResults (Filed r.failures) r.results

Filed-append_once : (res x : Result) (fs : List Result) → Filed fs x → Filed (append_once res fs) x
Filed-append_once res x fs h f = any-append_once (λ o. same_key o x) res fs (h f)

covered_by_list :
    (res : Result) (r : Report)
    → IsCovered r
    → AllResults (Filed (append_once res r.failures)) (record_result res r.results)
covered_by_list res r h =
    AllResults-record_result (Filed (append_once res r.failures)) res r.results
      (λ _. any-append_once_self res r.failures)
      (AllResults-mono r.results (λ x. Filed-append_once res x r.failures) h)

covered_by_status :
    (res : Result) (r : Report)
    → is_failure res.status ≡ false
    → IsCovered r
    → AllResults (Filed r.failures) (record_result res r.results)
covered_by_status res r calm h =
    AllResults-record_result (Filed r.failures) res r.results (λ f. cc) h

file_result-IsCovered :
    (s : Status) (res : Result) (r : Report)
    → res.status ≡ s
    → IsCovered r
    → IsCovered (file_result s res (record r { results = record_result res r.results }))
unfolding file_result
file_result-IsCovered fail res r e h = covered_by_list res r h
file_result-IsCovered error res r e h = covered_by_list res r h
file_result-IsCovered pass res r e h = covered_by_status res r (rw e) h
file_result-IsCovered x_fail res r e h = covered_by_status res r (rw e) h
file_result-IsCovered x_pass res r e h = covered_by_status res r (rw e) h
file_result-IsCovered skip res r e h = covered_by_status res r (rw e) h
file_result-IsCovered warn res r e h = covered_by_status res r (rw e) h

pub add-IsCovered : (r : Report) (res : Result) → IsCovered r → IsCovered (add r res)
unfolding add
add-IsCovered r res h = file_result-IsCovered res.status res r refl h

pub add_all-IsCovered : (rs : List Result) (r : Report) → IsCovered r → IsCovered (add_all r rs)
unfolding add_all
add_all-IsCovered [] r h = h
add_all-IsCovered (res ∷ rest) r h = add_all-IsCovered rest (add r res) (add-IsCovered r res h)

-- with no failure filed, no result is a failure
abbrev Calm : Result → Type 0
Calm res = is_failure res.status ≡ false

Calm-Filed : (x : Result) → Filed [] x → Calm x
Calm-Filed x h = elim (Bool-cases (is_failure x.status)) [
  | inl f ↦ absurd (false≢true (h f))
  | inr calm ↦ calm
]

fails-count_status :
    (s : Status) (t : Tally) → is_failure s ≡ false → (count_status s t).fails ≡ t.fails
unfolding count_status
fails-count_status s t h = ground arith

fails-tally_ops : (rs : List Result) (t : Tally) → All Calm rs → (tally_ops rs t).fails ≡ t.fails
unfolding tally_ops
fails-tally_ops [] t h = refl
fails-tally_ops (x ∷ rs) t h =
    fails-tally_ops rs (count_status x.status t) h.1 ∙ fails-count_status x.status t h.0

fails-tally_langs :
    (ms : List (Assoc Result)) (t : Tally)
    → All (λ by_op. All Calm (values by_op)) ms
    → (tally_langs ms t).fails ≡ t.fails
unfolding tally_langs
fails-tally_langs [] t h = refl
fails-tally_langs (m ∷ ms) t h =
    fails-tally_langs ms (tally_ops (values m) t) h.1 ∙ fails-tally_ops (values m) t h.0

fails-tally_tests :
    (ms : List (Assoc (Assoc Result))) (t : Tally)
    → All (λ by_lang. All (λ by_op. All Calm (values by_op)) (values by_lang)) ms
    → (tally_tests ms t).fails ≡ t.fails
unfolding tally_tests
fails-tally_tests [] t h = refl
fails-tally_tests (m ∷ ms) t h =
    fails-tally_tests ms (tally_langs (values m) t) h.1 ∙ fails-tally_langs (values m) t h.0

fails-tally : (r : Report) → IsCovered r → success r ≡ true → (tally r).fails ≡ 0
unfolding tally success
fails-tally r h s =
    fails-tally_tests (values r.results) _
      (AllResults-mono r.results (λ x f. Calm-Filed x (λ e. ground (arith, f e))) h)

-- A run that `Success` accepts announces exit code 0, whatever results were added to a new report
-- and in whatever order: the table of such a run holds no FAIL and no ERROR.
pub announced_exit-success :
    (langs ids : List Str) (fmt : Str) (rs : List Result)
    → success (add_all (new langs ids fmt) rs) ≡ true
    → ((tally (add_all (new langs ids fmt) rs)).fails ≡ 0)
      × (announced_exit (add_all (new langs ids fmt) rs) ≡ 0)
unfolding announced_exit new
announced_exit-success langs ids fmt rs s =
    let h = fails-tally _ (add_all-IsCovered rs (new langs ids fmt) tt) s in (h, rw h)

AllResults-cell :
    (P : Result → Type 0) (m : Results) (t l o : Str) {x : Result}
    → AllResults P m
    → cell m t l o ≡ some x
    → P x
unfolding cell
AllResults-cell P m t l o h e =
    All-values-lookup P o (sub_map l (sub_map t m))
      (All-sub_map P l (sub_map t m) (All-sub_map (λ by_op. All P (values by_op)) t m h)) e

-- A failing result in a cell makes `Success` false, whatever was added before and after it.
pub success-cell :
    (langs ids : List Str) (fmt : Str) (rs : List Result) (t l o : Str) {x : Result}
    → cell (add_all (new langs ids fmt) rs).results t l o ≡ some x
    → is_failure x.status ≡ true
    → success (add_all (new langs ids fmt) rs) ≡ false
unfolding success new
success-cell langs ids fmt rs t l o e f =
    let r = add_all (new langs ids fmt) rs in
    let filed =
      AllResults-cell (Filed r.failures) r.results t l o
        (add_all-IsCovered rs (new langs ids fmt) tt) e f in
    go _ r.failures filed
  where
    go : (p : Result → Bool) (fs : List Result) → any p fs ≡ true → is_nil fs ≡ false
    go p [] h = cc
    go p (y ∷ fs) h = refl
