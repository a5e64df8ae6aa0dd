-- ===== src/Report/Types.antt =====
-- `unimplementedTypes` of internal/report/report.go: the types that no worker implements.
use serify.Base.{
  Bool, true, false, not, ◌&&◌, ◌||◌, List, [], ◌∷◌, ◌≡◌, refl, ap, ◌∙◌, arith, inl, inr,
  if◌then◌else◌, Bool-cases, any, Str, str_eq, str_eq_iff, Assoc, lookup, insert, lookup-insert,
  keys, values, cut, sort, any-sort,
}
use serify.Cmp.{flag}
use serify.Report.{Status, skip, Result, Results, Report}

-- `typ, _, _ := strings.Cut(testID, "/")`
abbrev pub type_of : Str → Str
type_of test_id = (cut b'/' test_id).0

unfoldable pub is_skip : Status → Bool
is_skip skip = true
is_skip _ = false

-- the loop over the operations of a language: `live[typ]` is set where a result is no SKIP
unfoldable pub mark_ops : Str → List Result → Assoc Bool → Assoc Bool
unfolding is_skip
mark_ops typ [] live = live
mark_ops typ (res ∷ rest) live =
    mark_ops typ rest (if is_skip res.status then live else insert typ true live)

unfoldable pub mark_langs : Str → List (Assoc Result) → Assoc Bool → Assoc Bool
unfolding mark_ops
mark_langs typ [] live = live
mark_langs typ (by_op ∷ rest) live = mark_langs typ rest (mark_ops typ (values by_op) live)

-- the two maps after the loop over the tests
unfoldable pub mark_tests : Results → Assoc Bool → Assoc Bool → Assoc Bool × Assoc Bool
unfolding mark_langs
mark_tests [] seen live = (seen, live)
mark_tests ((test_id, by_lang) ∷ rest) seen live =
    mark_tests rest (insert (type_of test_id) true seen)
      (mark_langs (type_of test_id) (values by_lang) live)

unfoldable pub not_live : List Str → Assoc Bool → List Str
unfolding flag
not_live [] live = []
not_live (typ ∷ types) live =
    let rest = not_live types live in if flag typ live then rest else typ ∷ rest

-- `unimplementedTypes`
unfoldable pub unimplemented_types : Report → List Str
unfolding mark_tests not_live
unimplemented_types r =
    let (seen, live) = mark_tests r.results [] [] in sort (not_live (keys seen) live)

-- a result of the test is no SKIP
abbrev pub runs_test : Assoc (Assoc Result) → Bool
runs_test by_lang =
    any (λ by_op. any (λ res. not (is_skip res.status)) (values by_op)) (values by_lang)

-- the table has a test of the type
unfoldable pub occurs : Str → Results → Bool
occurs typ [] = false
occurs typ ((test_id, by_lang) ∷ rest) = str_eq (type_of test_id) typ || occurs typ rest

-- the table has a result of the type that is no SKIP
unfoldable pub is_implemented : Str → Results → Bool
is_implemented typ [] = false
is_implemented typ ((test_id, by_lang) ∷ rest) =
    str_eq (type_of test_id) typ && runs_test by_lang || is_implemented typ rest

flag-insert : (k j : Str) (m : Assoc Bool) → flag j (insert k true m) ≡ (str_eq k j || flag j m)
unfolding flag
flag-insert k j m = ground (arith, lookup-insert k j true m)

-- the list has the string
abbrev pub lists : Str → List Str → Bool
lists t = any (λ x. str_eq x t)

lists-keys-insert :
    (k t : Str) (m : Assoc Bool)
    → lists t (keys (insert k true m)) ≡ (str_eq k t || lists t (keys m))
unfolding insert
lists-keys-insert k t [] = refl
lists-keys-insert k t ((j, v) ∷ m) =
    ground (arith, str_eq_iff j k, str_eq_iff j t, str_eq_iff k t, lists-keys-insert k t m)

lists-not_live :
    (t : Str) (types : List Str) (live : Assoc Bool)
    → lists t (not_live types live) ≡ (lists t types && not (flag t live))
unfolding not_live
lists-not_live t [] live = refl
lists-not_live t (typ ∷ types) live = elim (Bool-cases (str_eq typ t)) [
  | inr other ↦ ground (arith, other, lists-not_live t types live)
  | inl same ↦
      let e = (str_eq_iff typ t).0 same in
      ground (arith, same, lists-not_live t types live, ap (λ x. flag x live) e)
]

flag-mark_ops :
    (typ t : Str) (rs : List Result) (live : Assoc Bool)
    → flag t (mark_ops typ rs live)
      ≡ (str_eq typ t && any (λ res. not (is_skip res.status)) rs || flag t live)
unfolding mark_ops
flag-mark_ops typ t [] live = ground arith
flag-mark_ops typ t (res ∷ rs) live = ground (
  arith,
  flag-mark_ops typ t rs live,
  flag-mark_ops typ t rs (insert typ true live),
  flag-insert typ t live,
)

flag-mark_langs :
    (typ t : Str) (ms : List (Assoc Result)) (live : Assoc Bool)
    → flag t (mark_langs typ ms live) ≡ (
        str_eq typ t && any (λ by_op. any (λ res. not (is_skip res.status)) (values by_op)) ms
        || flag t live)
unfolding mark_langs
flag-mark_langs typ t [] live = ground arith
flag-mark_langs typ t (by_op ∷ ms) live = ground (
  arith,
  flag-mark_langs typ t ms (mark_ops typ (values by_op) live),
  flag-mark_ops typ t (values by_op) live,
)

flag-mark_tests :
    (t : Str) (m : Results) (seen live : Assoc Bool)
    → (lists t (keys (mark_tests m seen live).0) ≡ (occurs t m || lists t (keys seen)))
      × (flag t (mark_tests m seen live).1 ≡ (is_implemented t m || flag t live))
unfolding mark_tests occurs is_implemented
flag-mark_tests t [] seen live = (refl, refl)
flag-mark_tests t ((test_id, by_lang) ∷ m) seen live =
    let later =
      flag-mark_tests t m (insert (type_of test_id) true seen)
        (mark_langs (type_of test_id) (values by_lang) live) in
    (
      ground (arith, later.0, lists-keys-insert (type_of test_id) t seen),
      ground (arith, later.1, flag-mark_langs (type_of test_id) t (values by_lang) live),
    )

flag-nil : (t : Str) → flag t [] ≡ false
unfolding flag lookup
flag-nil t = refl

-- A type is listed as one that no worker implements exactly where the table has a test of it and
-- every result of its tests is a SKIP.
pub lists-unimplemented_types :
    (r : Report) (t : Str)
    → lists t (unimplemented_types r) ≡ (occurs t r.results && not (is_implemented t r.results))
unfolding unimplemented_types
lists-unimplemented_types r t =
    let marked = mark_tests r.results [] [] in
    let (seen, live) = flag-mark_tests t r.results [] [] in
    any-sort (λ x. str_eq x t) (not_live (keys marked.0) marked.1)
    ∙ lists-not_live t (keys marked.0) marked.1
    ∙ rw (seen, live, flag-nil t) (ground arith)
