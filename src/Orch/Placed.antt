-- ===== src/Orch/Placed.antt =====
-- What the binds of a type and format in internal/orch/orch.go leave in the table: a worker is bound or
-- has its rows.
use mathlib.Core.Path.{subst}
use serify.Base.{
  Bool, true, ◌||◌, Option, none, some, List, [], ◌∷◌, ◌++◌, ◌≡◌, refl, sym, ap, ◌∙◌, arith, ◌⊎◌,
  inl, inr, Bool-cases, any, any-sort, sort, All, Str, str_eq, str_eq_iff, str_eq_refl,
}
use serify.Cmp.{GoCmp}
use serify.Conf.{CasesFile, TestCase, test_id_fmt}
use serify.Proto.Encode.{Floats}
use serify.Report.{Status, Result, Report, add_all, op_serialize, op_deserialize}
use serify.Report.Cells.{hits, hits-left, hits-right, cell-hits, cell-keeps}
use serify.Orch.{Options, WorkerApi}
use serify.Orch.Rounds.{rows_of}
use serify.Orch.Complete.{Filled, Judged}
use serify.Orch.Pending.{Among, hits-rows_of}
use serify.Orch.Suite.{
  type_rows, mark_type, mark_all, without, ordered_langs, bind_status, BindEnd, bind_one, bind_all,
}

any-without :
    (p : Str → Bool) (ref : Str) (langs : List Str)
    → (p ref || any p (without ref langs)) ≡ (p ref || any p langs)
any-without p ref [] = refl
any-without p ref (l ∷ langs) = elim (Bool-cases (str_eq l ref)) [
  | inl same ↦ rw same (
      subst (λ x. (p ref || any p (without ref langs)) ≡ (p ref || (p x || any p langs)))
        (sym ((str_eq_iff l ref).0 same)) (ground (arith, any-without p ref langs)))
  | inr other ↦ rw other (ground (arith, any-without p ref langs))
]

-- The languages of a round are the reference and the workers of the round, no others: `OrderedLangs`
-- loses none when it sorts them and takes the reference first.
pub any-ordered_langs :
    (p : Str → Bool) (langs : List Str) (ref : Str)
    → any p (ordered_langs langs ref) ≡ (p ref || any p langs)
unfolding ordered_langs
any-ordered_langs p langs ref =
    any-without p ref (sort langs) ∙ ap (λ b. p ref || b) (any-sort p langs)

-- the languages of a round are the bound ones and the reference
pub Among-ordered_langs :
    (lang ref : Str) (langs : List Str) → Among lang langs → Among lang (ordered_langs langs ref)
Among-ordered_langs lang ref langs h =
    any-ordered_langs (λ l. str_eq l lang) langs ref ∙ ground (arith, h)

Among-append_left : (lang : Str) (xs ys : List Str) → Among lang xs → Among lang (xs ++ ys)
Among-append_left lang [] ys h = cc
Among-append_left lang (x ∷ xs) ys h = ground (arith, Among-append_left lang xs ys)

Among-append_last :
    (lang l : Str) (xs : List Str) → str_eq l lang ≡ true → Among lang (xs ++ l ∷ [])
Among-append_last lang l [] h = ground arith
Among-append_last lang l (x ∷ xs) h = ground (arith, Among-append_last lang l xs h)

hits-type_rows :
    (op lang l type_name format : Str) (tcs : List TestCase) (judged : Status × Str)
    → str_eq l lang ≡ true
    → any (λ x. str_eq x op) (op_serialize ∷ op_deserialize ∷ []) ≡ true
    → All
        (λ tc.
          hits
            (test_id_fmt type_name format tc.name)
            lang
            op
            (type_rows l type_name format tcs judged)
          ≡ true)
        tcs
unfolding type_rows
hits-type_rows op lang l type_name format [] judged h k = tt
hits-type_rows op lang l type_name format (tc ∷ tcs) judged h k =
    let id = test_id_fmt type_name format tc.name in
    let own = rows_of id (op_serialize ∷ op_deserialize ∷ []) l judged in
    (
      hits-left id lang op own _
          (hits-rows_of id lang l op (op_serialize ∷ op_deserialize ∷ []) judged h k),
      later own tcs (hits-type_rows op lang l type_name format tcs judged h k),
    )
  where
    later :
        (own : List Result) (all : List TestCase)
        → All
            (λ c.
              hits
                (test_id_fmt type_name format c.name)
                lang
                op
                (type_rows l type_name format tcs judged)
              ≡ true)
            all
        → All
            (λ c.
              hits
                (test_id_fmt type_name format c.name)
                lang
                op
                (own ++ type_rows l type_name format tcs judged)
              ≡ true)
            all
    later own [] h = tt
    later own (c ∷ all) h =
        (hits-right (test_id_fmt type_name format c.name) lang op own _ h.0, later own all h.1)

module _ (api : WorkerApi) (go_cmp : GoCmp) (floats : Floats) where
  open api use {W, bind}

  -- every cell that was filled still is
  abbrev pub Keeps : Report → Report → Type 0
  Keeps r s = (t l o : Str) → Filled api go_cmp floats r t l o → Filled api go_cmp floats s t l o

  -- both rows of the language, for every case of the type
  abbrev pub AllJudged : Str → Str → Str → List TestCase → Report → Type 0
  AllJudged lang type_name format tcs rep =
      All (λ tc. Judged api go_cmp floats rep (test_id_fmt type_name format tc.name) lang) tcs

  pub AllJudged-Keeps :
      (lang type_name format : Str) (tcs : List TestCase) (r s : Report)
      → Keeps r s
      → AllJudged lang type_name format tcs r
      → AllJudged lang type_name format tcs s
  AllJudged-Keeps lang type_name format [] r s k h = tt
  AllJudged-Keeps lang type_name format (tc ∷ tcs) r s k h =
      let id = test_id_fmt type_name format tc.name in
      (
        (k id lang op_serialize h.0.0, k id lang op_deserialize h.0.1),
        AllJudged-Keeps lang type_name format tcs r s k h.1,
      )

  Keeps-mark_type :
      (rep : Report) (l : Str) (ty : CasesFile) (format : Str) (judged : Status × Str)
      → Keeps rep (mark_type rep l ty format judged)
  unfolding mark_type
  Keeps-mark_type rep l ty format judged t l' o h = cell-keeps rep _ t l' o h

  AllJudged-mark_type :
      (rep : Report) (lang l : Str) (ty : CasesFile) (format : Str) (judged : Status × Str)
      → str_eq l lang ≡ true
      → AllJudged lang ty.name format ty.cases (mark_type rep l ty format judged)
  unfolding mark_type
  AllJudged-mark_type rep lang l ty format judged h =
      both ty.cases
        (hits-type_rows op_serialize lang l ty.name format ty.cases judged h
          (ground (arith, str_eq_refl op_serialize)))
        (hits-type_rows op_deserialize lang l ty.name format ty.cases judged h
          (ground (arith, str_eq_refl op_deserialize)))
    where
      both :
          (tcs : List TestCase)
          → All
              (λ c.
                hits
                  (test_id_fmt ty.name format c.name)
                  lang
                  op_serialize
                  (type_rows l ty.name format ty.cases judged)
                ≡ true)
              tcs
          → All
              (λ c.
                hits
                  (test_id_fmt ty.name format c.name)
                  lang
                  op_deserialize
                  (type_rows l ty.name format ty.cases judged)
                ≡ true)
              tcs
          → AllJudged lang ty.name format tcs
              (add_all rep (type_rows l ty.name format ty.cases judged))
      both [] h k = tt
      both (c ∷ tcs) h k =
          let id = test_id_fmt ty.name format c.name in
          (
            (cell-hits rep _ id lang op_serialize h.0, cell-hits rep _ id lang op_deserialize k.0),
            both tcs h.1 k.1,
          )

  pub Keeps-mark_all :
      (rep : Report) (langs : List Str) (ty : CasesFile) (format : Str) (judged : Status × Str)
      → Keeps rep (mark_all rep langs ty format judged)
  unfolding mark_all
  Keeps-mark_all rep [] ty format judged t l o h = h
  Keeps-mark_all rep (m ∷ langs) ty format judged t l o h =
      Keeps-mark_all (mark_type rep m ty format judged) langs ty format judged t l o
        (Keeps-mark_type rep m ty format judged t l o h)

  pub AllJudged-mark_all :
      (rep : Report) (lang : Str) (langs : List Str) (ty : CasesFile) (format : Str)
      (judged : Status × Str)
      → Among lang langs
      → AllJudged lang ty.name format ty.cases (mark_all rep langs ty format judged)
  unfolding mark_all
  AllJudged-mark_all rep lang [] ty format judged h = cc
  AllJudged-mark_all rep lang (m ∷ langs) ty format judged h =
      let marked = mark_type rep m ty format judged in
      elim (Bool-cases (str_eq m lang)) [
        | inl same ↦
            AllJudged-Keeps lang ty.name format ty.cases marked
              (mark_all marked langs ty format judged)
              (Keeps-mark_all marked langs ty format judged)
              (AllJudged-mark_type rep lang m ty format judged same)
        | inr other ↦ AllJudged-mark_all marked lang langs ty format judged (rw other at h)
      ]

  Keeps-bind_one :
      (l : Str) (ty : CasesFile) (format : Str) (w : W) (failure : Option Str) (unsupported : Bool)
      (e : BindEnd api go_cmp floats)
      → Keeps e.report (bind_one api go_cmp floats l ty format w failure unsupported e).report
  unfolding bind_one
  Keeps-bind_one l ty format w none unsupported e t l' o h = h
  Keeps-bind_one l ty format w (some text) unsupported e t l' o h =
      Keeps-mark_type e.report l ty format (bind_status unsupported text) t l' o h

  pub Keeps-bind_all :
      (opts : Options) (ty : CasesFile) (format : Str) (langs : List Str)
      (e : BindEnd api go_cmp floats)
      → Keeps e.report (bind_all api go_cmp floats opts ty format langs e).report
  unfolding bind_all
  Keeps-bind_all opts ty format [] e t l o h = h
  Keeps-bind_all opts ty format (m ∷ langs) e t l o h =
      let answer = bind (e.fleet m) ty.schema ty.name format opts.timeout_sec opts.audit in
      let next = bind_one api go_cmp floats m ty format answer.0 answer.1 answer.2 e in
      Keeps-bind_all opts ty format langs next t l o
        (Keeps-bind_one m ty format answer.0 answer.1 answer.2 e t l o h)

  -- a language of the loop is bound, or has its rows
  abbrev pub Placed : Str → CasesFile → Str → BindEnd api go_cmp floats → Type 0
  Placed lang ty format e = Among lang e.bound ⊎ AllJudged lang ty.name format ty.cases e.report

  Placed-bind_one :
      (lang l : Str) (ty : CasesFile) (format : Str) (w : W) (failure : Option Str)
      (unsupported : Bool) (e : BindEnd api go_cmp floats)
      → (str_eq l lang ≡ true) ⊎ Placed lang ty format e
      → Placed lang ty format (bind_one api go_cmp floats l ty format w failure unsupported e)
  unfolding bind_one
  Placed-bind_one lang l ty format w none unsupported e (inl same) =
      inl (Among-append_last lang l e.bound same)
  Placed-bind_one lang l ty format w none unsupported e (inr (inl h)) =
      inl (Among-append_left lang e.bound _ h)
  Placed-bind_one lang l ty format w none unsupported e (inr (inr h)) = inr h
  Placed-bind_one lang l ty format w (some text) unsupported e (inl same) =
      inr (AllJudged-mark_type e.report lang l ty format (bind_status unsupported text) same)
  Placed-bind_one lang l ty format w (some text) unsupported e (inr (inl h)) = inl h
  Placed-bind_one lang l ty format w (some text) unsupported e (inr (inr h)) = inr (
      AllJudged-Keeps lang ty.name format ty.cases e.report
        (mark_type e.report l ty format (bind_status unsupported text))
        (Keeps-mark_type e.report l ty format (bind_status unsupported text)) h)

  pub Placed-bind_all :
      (opts : Options) (lang : Str) (ty : CasesFile) (format : Str) (langs : List Str)
      (e : BindEnd api go_cmp floats)
      → Among lang langs ⊎ Placed lang ty format e
      → Placed lang ty format (bind_all api go_cmp floats opts ty format langs e)
  unfolding bind_all
  Placed-bind_all opts lang ty format [] e (inl h) = cc
  Placed-bind_all opts lang ty format [] e (inr h) = h
  Placed-bind_all opts lang ty format (m ∷ langs) e h =
      let answer = bind (e.fleet m) ty.schema ty.name format opts.timeout_sec opts.audit in
      let next = bind_one api go_cmp floats m ty format answer.0 answer.1 answer.2 e in
      let placed = Placed-bind_one lang m ty format answer.0 answer.1 answer.2 e in
      Placed-bind_all opts lang ty format langs next (elim h [
        | inr now ↦ inr (placed (inr now))
        | inl among ↦ elim (Bool-cases (str_eq m lang)) [
          | inl same ↦ inr (placed (inl same))
          | inr other ↦ inl (rw other at among)
        ]
      ])
