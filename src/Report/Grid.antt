-- ===== src/Report/Grid.antt =====
-- The rows of internal/report/records.go against the table of the report.
use mathlib.Core.Path.{subst}
use serify.Base.{
  Bool, true, not, ◌&&◌, ◌||◌, Option, none, some, is_some, List, [], ◌∷◌, ◌++◌, ◌≡◌, refl, sym, ap,
  ◌∙◌, arith, inl, inr, Bool-cases, any, ◌==◌, Str, str_eq, str_eq_iff, str_eq_refl, Assoc, lookup,
  keys, sub_map, cut,
}
use serify.Conf.{test_id_fmt}
use serify.Report.{Result, Results, Report, cell}
use serify.Report.Records.{
  Record, split_test_id, lang_le, op_le, insert_by, sort_by, op_records, lang_records, id_records,
  records,
}

-- the string has no slash
abbrev pub slashless : Str → Bool
slashless s = not (any (λ c. c == b'/') s)

cut-append : (s rest : Str) → slashless s ≡ true → cut b'/' (s ++ (b'/' ∷ rest)) ≡ (s, rest, true)
unfolding cut
cut-append [] rest h = refl
cut-append (c ∷ s) rest h = ground (arith, cut-append s rest, h)

-- A test id of a type and a format without a slash is split into the type, the format and the case
-- that it was made of, also where the name of the case has slashes.
pub split_test_id-test_id_fmt :
    (type_name format case_name : Str)
    → slashless type_name ≡ true
    → slashless format ≡ true
    → split_test_id (test_id_fmt type_name format case_name) ≡ some (type_name, format, case_name)
unfolding split_test_id test_id_fmt
split_test_id-test_id_fmt type_name format case_name h k =
    rw (cut-append type_name (format ++ (b'/' ∷ case_name)) h, cut-append format case_name k) refl

any-insert_by :
    (le : Str → Str → Bool) (p : Str → Bool) (s : Str) (l : List Str)
    → any p (insert_by le s l) ≡ (p s || any p l)
unfolding insert_by
any-insert_by le p s [] = refl
any-insert_by le p s (t ∷ rest) = ground (arith, any-insert_by le p s rest)

any-sort_by :
    (le : Str → Str → Bool) (p : Str → Bool) (l : List Str) → any p (sort_by le l) ≡ any p l
unfolding sort_by
any-sort_by le p [] = refl
any-sort_by le p (s ∷ rest) =
    any-insert_by le p s (sort_by le rest) ∙ ap (λ b. p s || b) (any-sort_by le p rest)

module _ {V : Type 0} where
  any-keys :
      (k : Str) (m : Assoc V) → is_some (lookup k m) ≡ true → any (λ x. str_eq x k) (keys m) ≡ true
  unfolding lookup
  any-keys k [] h = cc
  any-keys k ((j, v) ∷ m) h = ground (arith, any-keys k m)

-- the row of a cell
abbrev pub records_cell : Str → Str → Str → Record → Bool
records_cell t l o rec = str_eq rec.test_id t && (str_eq rec.language l && str_eq rec.operation o)

any-append_left :
    (p : Record → Bool) (xs ys : List Record) → any p xs ≡ true → any p (xs ++ ys) ≡ true
any-append_left p [] ys h = cc
any-append_left p (x ∷ xs) ys h = ground (arith, any-append_left p xs ys)

any-append_right :
    (p : Record → Bool) (xs ys : List Record) → any p ys ≡ true → any p (xs ++ ys) ≡ true
any-append_right p [] ys h = h
any-append_right p (x ∷ xs) ys h = ground (arith, any-append_right p xs ys h)

any-op_records :
    (tid : Str) (parts : Str × Str × Str) (lang : Str) (by_op : Assoc Result) (o : Str)
    (ops : List Str)
    → is_some (lookup o by_op) ≡ true
    → any (λ x. str_eq x o) ops ≡ true
    → any (records_cell tid lang o) (op_records tid parts lang by_op ops) ≡ true
unfolding op_records
any-op_records tid parts lang by_op o [] h k = cc
any-op_records tid parts lang by_op o (op ∷ ops) h k = elim (Bool-cases (str_eq op o)) [
  | inl same ↦
      let e = ap (λ x. is_some (lookup x by_op)) ((str_eq_iff op o).0 same) ∙ h in
      ground (arith, e, same, str_eq_refl tid, str_eq_refl lang)
  | inr other ↦ ground (arith, other, k, any-op_records tid parts lang by_op o ops h)
]

is_some-sub_map :
    (l o : Str) (m : Assoc (Assoc Result))
    → is_some (lookup o (sub_map l m)) ≡ true
    → is_some (lookup l m) ≡ true
unfolding sub_map lookup
is_some-sub_map l o m h = ground (arith, h)

any-lang_records :
    (tid : Str) (parts : Str × Str × Str) (by_lang : Assoc (Assoc Result)) (l o : Str)
    (langs : List Str)
    → is_some (lookup o (sub_map l by_lang)) ≡ true
    → any (λ x. str_eq x l) langs ≡ true
    → any (records_cell tid l o) (lang_records tid parts by_lang langs) ≡ true
unfolding lang_records
any-lang_records tid parts by_lang l o [] h k = cc
any-lang_records tid parts by_lang l o (lang ∷ langs) h k = elim (Bool-cases (str_eq lang l)) [
  | inl same ↦ any-append_left (records_cell tid l o) _ _ (
      subst
        (λ x.
          any (records_cell tid l o)
            (op_records tid parts x (sub_map x by_lang) (sort_by op_le (keys (sub_map x by_lang))))
          ≡ true)
        (sym ((str_eq_iff lang l).0 same))
        (any-op_records tid parts l (sub_map l by_lang) o (sort_by op_le (keys (sub_map l by_lang)))
          h
          (any-sort_by op_le (λ x. str_eq x o) (keys (sub_map l by_lang))
            ∙ any-keys o (sub_map l by_lang) h)))
  | inr other ↦
      any-append_right (records_cell tid l o)
        (op_records tid parts lang (sub_map lang by_lang)
          (sort_by op_le (keys (sub_map lang by_lang))))
        _ (any-lang_records tid parts by_lang l o langs h (rw other at k))
]

abbrev from_some : List Record → Option (List Record) → List Record
from_some d none = d
from_some d (some x) = x

any-id_records :
    (langs : List Str) (m : Results) (tids : List Str) (t l o : Str) {recs : List Record}
    → id_records langs m tids ≡ some recs
    → is_some (cell m t l o) ≡ true
    → any (λ x. str_eq x t) tids ≡ true
    → any (records_cell t l o) recs ≡ true
unfolding id_records cell
any-id_records langs m [] t l o e h k = cc
any-id_records langs m (tid ∷ tids) t l o {recs} e h k =
    go (split_test_id tid) (id_records langs m tids) refl refl
      (λ r f j. any-id_records langs m tids t l o f h j)
  where
    go :
        (p : Option (Str × Str × Str)) (rest : Option (List Record))
        → split_test_id tid ≡ p
        → id_records langs m tids ≡ rest
        → ((r : List Record)
            → id_records langs m tids ≡ some r
            → any (λ x. str_eq x t) tids ≡ true
            → any (records_cell t l o) r ≡ true)
        → any (records_cell t l o) recs ≡ true
    go none rest p q later = cc (rw (p, id_records) at e)
    go (some parts) none p q later = cc (rw (p, q, id_records) at e)
    go (some parts) (some rs) p q later =
        let rows = λ (x : Str).
          lang_records x parts (sub_map x m) (sort_by (lang_le langs) (keys (sub_map x m))) in
        let made : rows tid ++ rs ≡ recs = ap (from_some []) (rw (p, q, id_records) at e) in
        subst (λ r. any (records_cell t l o) r ≡ true) made
          (elim (Bool-cases (str_eq tid t)) [
            | inl same ↦ any-append_left (records_cell t l o) (rows tid) rs (
                subst (λ x. any (records_cell t l o) (rows x) ≡ true)
                  (sym ((str_eq_iff tid t).0 same))
                  (any-lang_records t parts (sub_map t m) l o
                    (sort_by (lang_le langs) (keys (sub_map t m))) h
                    (any-sort_by (lang_le langs) (λ x. str_eq x l) (keys (sub_map t m))
                      ∙ any-keys l (sub_map t m) (is_some-sub_map l o (sub_map t m) h))))
            | inr other ↦
                any-append_right (records_cell t l o) (rows tid) rs (later rs q (rw other at k))
          ])

-- The flat rows leave out no cell of a test of the report: each one that is filled has its row.
pub any-records :
    (r : Report) (t l o : Str) {recs : List Record}
    → records r ≡ some recs
    → is_some (cell r.results t l o) ≡ true
    → any (λ x. str_eq x t) r.test_ids ≡ true
    → any (records_cell t l o) recs ≡ true
unfolding records
any-records r t l o e h k = any-id_records r.languages r.results r.test_ids t l o e h k
