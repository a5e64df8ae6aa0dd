-- ===== src/Orch/Ids.antt =====
-- The ids of `TestIDs` in internal/conf/conf.go after a run of internal/orch/orch.go: they are the rows
-- that the report prints.
use serify.Base.{List, [], ◌∷◌, All, All-append, Str}
use serify.Cmp.{GoCmp}
use serify.Conf.{
  CasesFile, CasesSet, TestCase, test_id_fmt, format_ids, case_ids, type_ids, test_ids,
}
use serify.Proto.Encode.{Floats}
use serify.Report.{Report}
use serify.Orch.{Options, WorkerApi}
use serify.Orch.Rounds.{Workers}
use serify.Orch.Pending.{Among, Uncancelled}
use serify.Orch.Complete.{Judged}
use serify.Orch.Suite.{run_suite}
use serify.Orch.Coverage.{TypeJudged-run_suite}

module _ (P : Str → Type 0) where
  -- for every format, every case: the order of the run
  abbrev ByFormat : Str → List Str → List TestCase → Type 0
  ByFormat type_name formats tcs =
      All (λ f. All (λ tc. P (test_id_fmt type_name f tc.name)) tcs) formats

  All-format_ids :
      (type_name : Str) (tc : TestCase) (tcs : List TestCase) (formats : List Str)
      → ByFormat type_name formats (tc ∷ tcs)
      → All P (format_ids type_name tc.name formats)
  unfolding format_ids
  All-format_ids type_name tc tcs [] h = tt
  All-format_ids type_name tc tcs (f ∷ formats) h =
      (h.0.0, All-format_ids type_name tc tcs formats h.1)

  ByFormat-rest :
      (type_name : Str) (tc : TestCase) (tcs : List TestCase) (formats : List Str)
      → ByFormat type_name formats (tc ∷ tcs)
      → ByFormat type_name formats tcs
  ByFormat-rest type_name tc tcs [] h = tt
  ByFormat-rest type_name tc tcs (f ∷ formats) h =
      (h.0.1, ByFormat-rest type_name tc tcs formats h.1)

  All-case_ids :
      (type_name : Str) (formats : List Str) (tcs : List TestCase)
      → ByFormat type_name formats tcs
      → All P (case_ids type_name formats tcs)
  unfolding case_ids
  All-case_ids type_name formats [] h = tt
  All-case_ids type_name formats (tc ∷ tcs) h =
      All-append P (format_ids type_name tc.name formats) _
        (All-format_ids type_name tc tcs formats h)
        (All-case_ids type_name formats tcs (ByFormat-rest type_name tc tcs formats h))

  All-type_ids :
      (types : List CasesFile)
      → All (λ ty. ByFormat ty.name ty.formats ty.cases) types
      → All P (type_ids types)
  unfolding type_ids
  All-type_ids [] h = tt
  All-type_ids (ty ∷ types) h =
      All-append P (case_ids ty.name ty.formats ty.cases) _
        (All-case_ids ty.name ty.formats ty.cases h.0) (All-type_ids types h.1)

module _ (api : WorkerApi) (go_cmp : GoCmp) (floats : Floats) where
  -- When no context is cancelled, after a run of the suite every worker has a serialize row and a
  -- deserialize row for each id that `TestIDs` lists, which are the ids that the report prints.
  pub Judged-test_ids :
      (opts : Options) (set : CasesSet) (lang : Str) (langs : List Str)
      (workers : Workers api go_cmp floats) (rep : Report)
      → Uncancelled api go_cmp floats
      → Among lang langs
      → All
          (λ id.
            Judged api go_cmp floats
              (run_suite api go_cmp floats opts set langs workers rep).report
              id
              lang)
          (test_ids set)
  unfolding test_ids
  Judged-test_ids opts set lang langs workers rep u h =
      All-type_ids
        (λ id.
          Judged api go_cmp floats (run_suite api go_cmp floats opts set langs workers rep).report
            id lang)
        set.types (TypeJudged-run_suite api go_cmp floats opts set lang langs workers rep u h)
