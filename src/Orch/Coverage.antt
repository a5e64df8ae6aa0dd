-- ===== src/Orch/Coverage.antt =====
-- `RunSuite` of internal/orch/orch.go leaves no cell of the table empty.
use serify.Base.{List, [], ◌∷◌, inl, inr, Bool-cases, any, All, Str, str_eq}
use serify.Cmp.{GoCmp}
use serify.Conf.{CasesFile, CasesSet, TestCase, oracle_for}
use serify.Proto.Encode.{Floats}
use serify.Report.{skip, Report}
use serify.Orch.{Options, WorkerApi, skip_ref_unsupported}
use serify.Orch.Rounds.{Workers}
use serify.Orch.Case.{run_cases}
use serify.Orch.Complete.{Judged, Judged-run_cases, keeps-run_cases}
use serify.Orch.Pending.{Among, Uncancelled}
use serify.Orch.Suite.{
  namespaced_cases, ordered_langs, BindEnd, bind_all, run_bound, run_type_format, run_formats,
  run_types, run_suite,
}
use serify.Orch.Placed.{
  Keeps, AllJudged, AllJudged-Keeps, Keeps-mark_all, AllJudged-mark_all, Keeps-bind_all, Placed,
  Placed-bind_all, Among-ordered_langs,
}

module _ (api : WorkerApi) (go_cmp : GoCmp) (floats : Floats) where
  open api use {W, bind}

  All-namespaced :
      (lang type_name format : Str) (rep : Report) (tcs : List TestCase)
      → All
          (λ tc. Judged api go_cmp floats rep tc.name lang)
          (namespaced_cases type_name format tcs)
      → AllJudged api go_cmp floats lang type_name format tcs rep
  unfolding namespaced_cases
  All-namespaced lang type_name format rep [] h = tt
  All-namespaced lang type_name format rep (tc ∷ tcs) h =
      (h.0, All-namespaced lang type_name format rep tcs h.1)

  Keeps-run_bound :
      (opts : Options) (ref : Str) (ty : CasesFile) (format : Str) (e : BindEnd api go_cmp floats)
      → Keeps api go_cmp floats e.report (run_bound api go_cmp floats opts ref ty format e).report
  unfolding run_bound
  Keeps-run_bound opts ref ty format e t l o h =
      elim (Bool-cases (any (λ m. str_eq m ref) e.bound)) [
        | inl has ↦ rw has (
            keeps-run_cases api go_cmp floats opts ty.schema ref
              (namespaced_cases ty.name format ty.cases) (ordered_langs e.bound ref) e.fleet
              e.report t l o h)
        | inr lacks ↦ rw lacks (
            Keeps-mark_all api go_cmp floats e.report e.bound ty format (skip, skip_ref_unsupported)
              t l o h)
      ]

  AllJudged-run_bound :
      (opts : Options) (ref lang : Str) (ty : CasesFile) (format : Str)
      (e : BindEnd api go_cmp floats)
      → Uncancelled api go_cmp floats
      → Placed api go_cmp floats lang ty format e
      → AllJudged api go_cmp floats lang ty.name format ty.cases
          (run_bound api go_cmp floats opts ref ty format e).report
  unfolding run_bound
  AllJudged-run_bound opts ref lang ty format e u (inr h) =
      AllJudged-Keeps api go_cmp floats lang ty.name format ty.cases e.report
        (run_bound api go_cmp floats opts ref ty format e).report
        (Keeps-run_bound opts ref ty format e) h
  AllJudged-run_bound opts ref lang ty format e u (inl among) =
      elim (Bool-cases (any (λ m. str_eq m ref) e.bound)) [
        | inl has ↦ rw has (
            All-namespaced lang ty.name format
              (run_cases api go_cmp floats opts ty.schema ref
                (namespaced_cases ty.name format ty.cases) (ordered_langs e.bound ref) e.fleet
                e.report).report
              ty.cases
              (Judged-run_cases api go_cmp floats opts ty.schema ref lang
                (namespaced_cases ty.name format ty.cases) (ordered_langs e.bound ref) e.fleet
                e.report u (Among-ordered_langs lang ref e.bound among)))
        | inr lacks ↦ rw lacks (
            AllJudged-mark_all api go_cmp floats e.report lang e.bound ty format
              (skip, skip_ref_unsupported) among)
      ]

  Keeps-run_formats :
      (opts : Options) (ref : Str) (ty : CasesFile) (formats langs : List Str)
      (workers : Workers api go_cmp floats) (rep : Report)
      → Keeps api go_cmp floats rep
          (run_formats api go_cmp floats opts ref ty formats langs workers rep).report
  unfolding run_formats run_type_format
  Keeps-run_formats opts ref ty [] langs workers rep t l o h = h
  Keeps-run_formats opts ref ty (format ∷ formats) langs workers rep t l o h =
      let now = record opts { oracle = oracle_for ty format } in
      let start : BindEnd api go_cmp floats = record {
        fleet = workers;
        bound = [];
        report = rep;
      } in
      let first = run_type_format api go_cmp floats now ref ty format langs workers rep in
      Keeps-run_formats opts ref ty formats langs first.fleet first.report t l o (
        Keeps-run_bound now ref ty format (bind_all api go_cmp floats now ty format langs start) t l
          o (Keeps-bind_all api go_cmp floats now ty format langs start t l o h))

  AllJudged-run_formats :
      (opts : Options) (ref lang : Str) (ty : CasesFile) (formats langs : List Str)
      (workers : Workers api go_cmp floats) (rep : Report)
      → Uncancelled api go_cmp floats
      → Among lang langs
      → All
          (λ format.
            AllJudged api go_cmp floats lang ty.name format ty.cases
              (run_formats api go_cmp floats opts ref ty formats langs workers rep).report)
          formats
  unfolding run_formats run_type_format
  AllJudged-run_formats opts ref lang ty [] langs workers rep u h = tt
  AllJudged-run_formats opts ref lang ty (format ∷ formats) langs workers rep u h =
      let now = record opts { oracle = oracle_for ty format } in
      let start : BindEnd api go_cmp floats = record {
        fleet = workers;
        bound = [];
        report = rep;
      } in
      let first = run_type_format api go_cmp floats now ref ty format langs workers rep in
      (
        AllJudged-Keeps api go_cmp floats lang ty.name format ty.cases first.report
            (run_formats api go_cmp floats opts ref ty formats langs first.fleet
              first.report).report
            (Keeps-run_formats opts ref ty formats langs first.fleet first.report)
            (AllJudged-run_bound now ref lang ty format
              (bind_all api go_cmp floats now ty format langs start) u
              (Placed-bind_all api go_cmp floats now lang ty format langs start (inl h))),
        AllJudged-run_formats opts ref lang ty formats langs first.fleet first.report u h,
      )

  Keeps-run_types :
      (opts : Options) (ref : Str) (types : List CasesFile) (langs : List Str)
      (workers : Workers api go_cmp floats) (rep : Report)
      → Keeps api go_cmp floats rep
          (run_types api go_cmp floats opts ref types langs workers rep).report
  unfolding run_types
  Keeps-run_types opts ref [] langs workers rep t l o h = h
  Keeps-run_types opts ref (ty ∷ types) langs workers rep t l o h =
      let first = run_formats api go_cmp floats opts ref ty ty.formats langs workers rep in
      Keeps-run_types opts ref types langs first.fleet first.report t l o
        (Keeps-run_formats opts ref ty ty.formats langs workers rep t l o h)

  -- the rows of a language for every format of a type
  abbrev pub TypeJudged : Str → Report → CasesFile → Type 0
  TypeJudged lang rep ty =
      All (λ format. AllJudged api go_cmp floats lang ty.name format ty.cases rep) ty.formats

  TypeJudged-Keeps :
      (lang : Str) (ty : CasesFile) (r s : Report)
      → Keeps api go_cmp floats r s
      → TypeJudged lang r ty
      → TypeJudged lang s ty
  TypeJudged-Keeps lang ty r s k h = go ty.formats h
    where
      go :
          (formats : List Str)
          → All (λ format. AllJudged api go_cmp floats lang ty.name format ty.cases r) formats
          → All (λ format. AllJudged api go_cmp floats lang ty.name format ty.cases s) formats
      go [] h = tt
      go (format ∷ formats) h =
          (AllJudged-Keeps api go_cmp floats lang ty.name format ty.cases r s k h.0, go formats h.1)

  TypeJudged-run_types :
      (opts : Options) (ref lang : Str) (types : List CasesFile) (langs : List Str)
      (workers : Workers api go_cmp floats) (rep : Report)
      → Uncancelled api go_cmp floats
      → Among lang langs
      → All
          (TypeJudged lang (run_types api go_cmp floats opts ref types langs workers rep).report)
          types
  unfolding run_types
  TypeJudged-run_types opts ref lang [] langs workers rep u h = tt
  TypeJudged-run_types opts ref lang (ty ∷ types) langs workers rep u h =
      let first = run_formats api go_cmp floats opts ref ty ty.formats langs workers rep in
      (
        TypeJudged-Keeps lang ty first.report
            (run_types api go_cmp floats opts ref types langs first.fleet first.report).report
            (Keeps-run_types opts ref types langs first.fleet first.report)
            (AllJudged-run_formats opts ref lang ty ty.formats langs workers rep u h),
        TypeJudged-run_types opts ref lang types langs first.fleet first.report u h,
      )

  -- When no context is cancelled, after a run of the suite every worker has a serialize row and a
  -- deserialize row in the table for every case of every type in every format, whether its bind
  -- succeeds, is declined or fails, and whatever the reference and the workers answer.
  pub TypeJudged-run_suite :
      (opts : Options) (set : CasesSet) (lang : Str) (langs : List Str)
      (workers : Workers api go_cmp floats) (rep : Report)
      → Uncancelled api go_cmp floats
      → Among lang langs
      → All
          (TypeJudged lang (run_suite api go_cmp floats opts set langs workers rep).report)
          set.types
  unfolding run_suite
  TypeJudged-run_suite opts set lang langs workers rep u h =
      TypeJudged-run_types opts set.reference_language lang set.types langs workers rep u h
