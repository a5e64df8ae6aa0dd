-- ===== src/Report/Cells.antt =====
-- What `Add` of internal/report/report.go does to the table of results, one cell at a time.
use serify.Base.{
  is_some, Bool, true, ◌&&◌, ◌||◌, inl, inr, Bool-cases, any, Option, none, some, List, [], ◌∷◌,
  ◌++◌, ◌≡◌, refl, arith, if◌then◌else◌, Str, str_eq, str_eq_iff, insert, lookup-insert, sub_map,
  sub_map-insert,
}
use serify.Report.{Result, Results, Report, Status, record_result, add, file_result, add_all, cell}

-- the cell that a result is recorded in
abbrev pub at_key : Result → Str → Str → Str → Bool
at_key res t l o = str_eq res.test_id t && (str_eq res.language l && str_eq res.operation o)

pub cell-record_result :
    (res : Result) (m : Results) (t l o : Str)
    → cell (record_result res m) t l o ≡ (if at_key res t l o then some res else cell m t l o)
unfolding cell record_result
cell-record_result res m t l o = simp sub_map-insert (
    ground (
      arith,
      str_eq_iff res.test_id t,
      str_eq_iff res.language l,
      str_eq_iff res.operation o,
      sub_map-insert res.test_id t
          (insert res.language
            (insert res.operation res (sub_map res.language (sub_map res.test_id m)))
            (sub_map res.test_id m))
          m,
      sub_map-insert res.language l
          (insert res.operation res (sub_map res.language (sub_map res.test_id m)))
          (sub_map res.test_id m),
      lookup-insert res.operation o res (sub_map res.language (sub_map res.test_id m)),
    ))

results-file_result :
    (s : Status) (res : Result) (r : Report) → (file_result s res r).results ≡ r.results
unfolding file_result
results-file_result s res r = ground arith

-- `Add` sets the cell of its own test, language and operation and no other.
pub cell-add :
    (r : Report) (res : Result) (t l o : Str)
    → cell (add r res).results t l o ≡ (if at_key res t l o then some res else cell r.results t l o)
unfolding add
cell-add r res t l o = rw results-file_result (cell-record_result res r.results t l o)

-- The last result of a list for a cell.
unfoldable pub last_at : Str → Str → Str → List Result → Option Result → Option Result
last_at t l o [] before = before
last_at t l o (res ∷ rest) before =
    last_at t l o rest (if at_key res t l o then some res else before)

pub cell-add_all :
    (rs : List Result) (r : Report) (t l o : Str)
    → cell (add_all r rs).results t l o ≡ last_at t l o rs (cell r.results t l o)
unfolding add_all last_at
cell-add_all [] r t l o = refl
cell-add_all (res ∷ rest) r t l o = rw (cell-add_all rest) (rw cell-add)

-- a list holds a result for the cell
abbrev pub hits : Str → Str → Str → List Result → Bool
hits t l o = any (λ res. at_key res t l o)

last_at-some :
    (t l o : Str) (rs : List Result) (x : Result) → is_some (last_at t l o rs (some x)) ≡ true
unfolding last_at
last_at-some t l o [] x = refl
last_at-some t l o (res ∷ rest) x = elim (Bool-cases (at_key res t l o)) [
  | inl same ↦ rw same (last_at-some t l o rest res)
  | inr other ↦ rw other (last_at-some t l o rest x)
]

last_at-hits :
    (t l o : Str) (rs : List Result) (b : Option Result)
    → hits t l o rs ≡ true
    → is_some (last_at t l o rs b) ≡ true
unfolding last_at
last_at-hits t l o [] b h = cc
last_at-hits t l o (res ∷ rest) b h = elim (Bool-cases (at_key res t l o)) [
  | inl same ↦ rw same (last_at-some t l o rest res)
  | inr other ↦ last_at-hits t l o rest _ (rw other at h)
]

last_at-keeps :
    (t l o : Str) (rs : List Result) (b : Option Result)
    → is_some b ≡ true
    → is_some (last_at t l o rs b) ≡ true
last_at-keeps t l o rs none h = cc
last_at-keeps t l o rs (some x) h = last_at-some t l o rs x

-- A cell is filled by a list of additions that holds a result for it.
pub cell-hits :
    (r : Report) (rs : List Result) (t l o : Str)
    → hits t l o rs ≡ true
    → is_some (cell (add_all r rs).results t l o) ≡ true
cell-hits r rs t l o h = rw cell-add_all (last_at-hits t l o rs _ h)

-- A filled cell stays filled.
pub cell-keeps :
    (r : Report) (rs : List Result) (t l o : Str)
    → is_some (cell r.results t l o) ≡ true
    → is_some (cell (add_all r rs).results t l o) ≡ true
cell-keeps r rs t l o h = rw cell-add_all (last_at-keeps t l o rs _ h)

pub hits-append :
    (t l o : Str) (xs ys : List Result) → hits t l o (xs ++ ys) ≡ (hits t l o xs || hits t l o ys)
hits-append t l o [] ys = refl
hits-append t l o (x ∷ xs) ys = ground (arith, hits-append t l o xs ys)

pub add_all-append :
    (xs ys : List Result) (r : Report) → add_all r (xs ++ ys) ≡ add_all (add_all r xs) ys
unfolding add_all
add_all-append [] ys r = refl
add_all-append (x ∷ xs) ys r = add_all-append xs ys (add r x)

pub hits-left :
    (t l o : Str) (xs ys : List Result) → hits t l o xs ≡ true → hits t l o (xs ++ ys) ≡ true
hits-left t l o xs ys h = ground (arith, hits-append t l o xs ys)

pub hits-right :
    (t l o : Str) (xs ys : List Result) → hits t l o ys ≡ true → hits t l o (xs ++ ys) ≡ true
hits-right t l o xs ys h = ground (arith, hits-append t l o xs ys)
