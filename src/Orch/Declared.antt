-- ===== src/Orch/Declared.antt =====
-- `CheckExpectedSkips` of internal/orch/coverage.go against the skips that the workers declare.
use serify.Base.{
  Bool, true, false, not, ◌&&◌, ◌||◌, List, [], ◌∷◌, ◌++◌, ◌≡◌, refl, ap, ◌∙◌, arith, if◌then◌else◌,
  All, All-append, Str, Assoc, sub_map,
}
use serify.Conf.{ExpectedSkips, contains_str, covers}
use serify.Report.{
  fail, warn, Result, Report, add, add_all, append_once, file_result, success, is_nil,
}
use serify.Orch.{row}
use serify.Orch.Skips.{
  Used, is_cascade_skip, skips_of, type_of_id, is_status_skip, check_cell, check_ops, check_langs,
  check_tests, declared, stale_keys, stale_rows, check_expected_skips, undeclared_detail,
}

-- A cell is in order unless it is a skip that is no consequence of the reference's failure and that
-- the language does not declare.
abbrev pub is_allowed : Assoc ExpectedSkips → Str → Str → Str → Result → Bool
is_allowed expected test_id lang op res =
    not (is_status_skip res.status)
    || (is_cascade_skip res.detail || covers (skips_of lang expected) (type_of_id test_id) op)

unfoldable pub every {ℓ} : {A : Type ℓ} → (Str → A → Bool) → Assoc A → Bool
every p [] = true
every p ((k, x) ∷ rest) = p k x && every p rest

-- every cell of the table is in order
unfoldable pub all_allowed : Assoc ExpectedSkips → Assoc (Assoc (Assoc Result)) → Bool
all_allowed expected = every (λ test_id by_lang.
    every (λ lang by_op. every (λ op res. is_allowed expected test_id lang op res) by_op) by_lang)

is_nil-append_last : (xs : List Result) (x : Result) → is_nil (xs ++ x ∷ []) ≡ false
is_nil-append_last [] x = refl
is_nil-append_last (y ∷ xs) x = refl

is_nil-check_cell :
    (expected : Assoc ExpectedSkips) (t l o : Str) (res : Result) (acc : Used × List Result)
    → is_nil (check_cell expected t l o res acc).1 ≡ (is_nil acc.1 && is_allowed expected t l o res)
unfolding check_cell covers contains_str
is_nil-check_cell expected t l o res (used, undeclared) =
    ground (arith, is_nil-append_last undeclared (row t l o (fail, undeclared_detail t l o)))

is_nil-check_ops :
    (expected : Assoc ExpectedSkips) (t l : Str) (m : Assoc Result) (acc : Used × List Result)
    → is_nil (check_ops expected t l m acc).1
      ≡ (is_nil acc.1 && every (λ o res. is_allowed expected t l o res) m)
unfolding check_ops every
is_nil-check_ops expected t l [] acc = ground arith
is_nil-check_ops expected t l ((o, res) ∷ m) acc = ground (
  arith,
  is_nil-check_ops expected t l m (check_cell expected t l o res acc),
  is_nil-check_cell expected t l o res acc,
)

is_nil-check_langs :
    (expected : Assoc ExpectedSkips) (t : Str) (m : Assoc (Assoc Result)) (acc : Used × List Result)
    → is_nil (check_langs expected t m acc).1
      ≡ (is_nil acc.1 && every (λ l by_op. every (λ o res. is_allowed expected t l o res) by_op) m)
unfolding check_langs every
is_nil-check_langs expected t [] acc = ground arith
is_nil-check_langs expected t ((l, by_op) ∷ m) acc = ground (
  arith,
  is_nil-check_langs expected t m (check_ops expected t l by_op acc),
  is_nil-check_ops expected t l by_op acc,
)

is_nil-check_tests :
    (expected : Assoc ExpectedSkips) (m : Assoc (Assoc (Assoc Result))) (acc : Used × List Result)
    → is_nil (check_tests expected m acc).1 ≡ (is_nil acc.1 && all_allowed expected m)
unfolding check_tests all_allowed every
is_nil-check_tests expected [] acc = ground arith
is_nil-check_tests expected ((t, by_lang) ∷ m) acc = ground (
  arith,
  is_nil-check_tests expected m (check_langs expected t by_lang acc),
  is_nil-check_langs expected t by_lang acc,
)

-- the undeclared skips are recorded as failures
abbrev AllFail : List Result → Type 0
AllFail = All (λ res. res.status ≡ fail)

abbrev AllWarn : List Result → Type 0
AllWarn = All (λ res. res.status ≡ warn)

AllFail-if :
    (b : Bool) (x y : Used × List Result)
    → AllFail x.1
    → AllFail y.1
    → AllFail (if b then x else y).1
AllFail-if true x y h k = h
AllFail-if false x y h k = k

AllFail-check_cell :
    (expected : Assoc ExpectedSkips) (t l o : Str) (res : Result) (acc : Used × List Result)
    → AllFail acc.1
    → AllFail (check_cell expected t l o res acc).1
unfolding check_cell
AllFail-check_cell expected t l o res (used, undeclared) h =
    AllFail-if (not (is_status_skip res.status) || is_cascade_skip res.detail) _ _ h (
      AllFail-if (contains_str (skips_of l expected).types (type_of_id t)) _ _ h (
        AllFail-if (contains_str (sub_map o (skips_of l expected).operations) (type_of_id t)) _ _ h
          (All-append (λ r. r.status ≡ fail) undeclared _ h (refl, tt))))

AllFail-check_ops :
    (expected : Assoc ExpectedSkips) (t l : Str) (m : Assoc Result) (acc : Used × List Result)
    → AllFail acc.1
    → AllFail (check_ops expected t l m acc).1
unfolding check_ops
AllFail-check_ops expected t l [] acc h = h
AllFail-check_ops expected t l ((o, res) ∷ m) acc h =
    AllFail-check_ops expected t l m (check_cell expected t l o res acc)
      (AllFail-check_cell expected t l o res acc h)

AllFail-check_langs :
    (expected : Assoc ExpectedSkips) (t : Str) (m : Assoc (Assoc Result)) (acc : Used × List Result)
    → AllFail acc.1
    → AllFail (check_langs expected t m acc).1
unfolding check_langs
AllFail-check_langs expected t [] acc h = h
AllFail-check_langs expected t ((l, by_op) ∷ m) acc h =
    AllFail-check_langs expected t m (check_ops expected t l by_op acc)
      (AllFail-check_ops expected t l by_op acc h)

AllFail-check_tests :
    (expected : Assoc ExpectedSkips) (m : Assoc (Assoc (Assoc Result))) (acc : Used × List Result)
    → AllFail acc.1
    → AllFail (check_tests expected m acc).1
unfolding check_tests
AllFail-check_tests expected [] acc h = h
AllFail-check_tests expected ((t, by_lang) ∷ m) acc h =
    AllFail-check_tests expected m (check_langs expected t by_lang acc)
      (AllFail-check_langs expected t by_lang acc h)

AllWarn-stale_keys : (lang : Str) (m : Assoc Bool) → AllWarn (stale_keys lang m)
unfolding stale_keys
AllWarn-stale_keys lang [] = tt
AllWarn-stale_keys lang ((key, true) ∷ m) = AllWarn-stale_keys lang m
AllWarn-stale_keys lang ((key, false) ∷ m) = (refl, AllWarn-stale_keys lang m)

AllWarn-stale_rows : (m : Used) → AllWarn (stale_rows m)
unfolding stale_rows
AllWarn-stale_rows [] = tt
AllWarn-stale_rows ((lang, seen) ∷ m) =
    All-append (λ res. res.status ≡ warn) (stale_keys lang seen) (stale_rows m)
      (AllWarn-stale_keys lang seen) (AllWarn-stale_rows m)

is_nil-append_once : (res : Result) (xs : List Result) → is_nil (append_once res xs) ≡ false
unfolding append_once
is_nil-append_once res [] = refl
is_nil-append_once res (x ∷ xs) = ground arith

success-add-fail : (r : Report) (res : Result) → res.status ≡ fail → success (add r res) ≡ false
unfolding success add file_result
success-add-fail r res h = rw h (is_nil-append_once _ r.failures)

success-add-warn : (r : Report) (res : Result) → res.status ≡ warn → success (add r res) ≡ success r
unfolding success add file_result
success-add-warn r res h = rw h refl

success-add_all-fail :
    (r : Report) (rs : List Result) → AllFail rs → success (add_all r rs) ≡ (success r && is_nil rs)
unfolding add_all
success-add_all-fail r [] h = ground arith
success-add_all-fail r (res ∷ rs) h =
    ground (arith, success-add_all-fail (add r res) rs h.1, success-add-fail r res h.0)

success-add_all-warn :
    (r : Report) (rs : List Result) → AllWarn rs → success (add_all r rs) ≡ success r
unfolding add_all
success-add_all-warn r [] h = refl
success-add_all-warn r (res ∷ rs) h =
    success-add_all-warn (add r res) rs h.1 ∙ success-add-warn r res h.0

-- The check of declared skips leaves the run successful exactly where it was successful and every
-- skip of the table is declared for its type or its operation, or has the detail of a skip that
-- follows from the reference's failure. A stale declaration does not make the run fail.
pub success-check_expected_skips :
    (rep : Report) (expected : Assoc ExpectedSkips)
    → success (check_expected_skips rep expected)
      ≡ (success rep && all_allowed expected rep.results)
unfolding check_expected_skips
success-check_expected_skips rep expected =
    let checked = check_tests expected rep.results (declared expected, []) in
    success-add_all-warn (add_all rep checked.1) (stale_rows checked.0)
      (AllWarn-stale_rows checked.0)
    ∙ success-add_all-fail rep checked.1
        (AllFail-check_tests expected rep.results (declared expected, []) tt)
    ∙ ap (λ b. success rep && b) (is_nil-check_tests expected rep.results (declared expected, []))
