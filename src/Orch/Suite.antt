-- ===== src/Orch/Suite.antt =====
-- `RunSuite` of internal/orch/orch.go: every type in every format. A Go map of workers is the list
-- of its languages, in the order in which `range` takes them, with the worker of each.
use serify.Base.{
  Bool, Option, none, some, List, [], ◌∷◌, ◌++◌, if◌then◌else◌, any, Str, lit, str_eq, sort,
}
use serify.Cmp.{GoCmp}
use serify.Conf.{CasesFile, CasesSet, TestCase, oracle_for, test_id_fmt}
use serify.Proto.Encode.{Floats}
use serify.Report.{Status, skip, error, Result, Report, add_all, op_serialize, op_deserialize}
use serify.Orch.{Options, WorkerApi, skip_ref_unsupported}
use serify.Orch.Rounds.{rows_of, Workers, put_worker}
use serify.Orch.Case.{CaseEnd, first_of, run_cases}

-- `namespacedCases`
unfoldable pub namespaced_cases : Str → Str → List TestCase → List TestCase
namespaced_cases type_name format [] = []
namespaced_cases type_name format (tc ∷ tcs) =
    record tc { name = test_id_fmt type_name format tc.name }
    ∷ namespaced_cases type_name format tcs

-- the rows that `markType` adds
unfoldable pub type_rows : Str → Str → Str → List TestCase → Status × Str → List Result
unfolding rows_of
type_rows lang type_name format [] judged = []
type_rows lang type_name format (tc ∷ tcs) judged =
    rows_of (test_id_fmt type_name format tc.name) (op_serialize ∷ op_deserialize ∷ []) lang judged
    ++ type_rows lang type_name format tcs judged

-- `markType`, with `markTypeSkipped` and `markTypeErrored` for the statuses
unfoldable pub mark_type : Report → Str → CasesFile → Str → Status × Str → Report
unfolding type_rows
mark_type rep lang ty format judged = add_all rep (type_rows lang ty.name format ty.cases judged)

-- `markTypeSkipped` for each language of a list
unfoldable pub mark_all : Report → List Str → CasesFile → Str → Status × Str → Report
unfolding mark_type
mark_all rep [] ty format judged = rep
mark_all rep (lang ∷ langs) ty format judged =
    mark_all (mark_type rep lang ty format judged) langs ty format judged

abbrev pub without : Str → List Str → List Str
without ref [] = []
without ref (lang ∷ langs) = if str_eq lang ref then without ref langs else lang ∷ without ref langs

-- `OrderedLangs`
unfoldable pub ordered_langs : List Str → Str → List Str
ordered_langs langs ref = ref ∷ without ref (sort langs)

-- the status of a failed bind: SKIP for `ErrTypeNotSupported`, ERROR for any other error
unfoldable pub bind_status : Bool → Str → Status × Str
bind_status unsupported text = (if unsupported then skip else error, text)

module _ (api : WorkerApi) (go_cmp : GoCmp) (floats : Floats) where
  open api use {W, bind}

  pub record BindEnd : Type 0 where
    pub fleet : Workers api go_cmp floats
    pub bound : List Str  -- the keys of `sub`
    pub report : Report

  -- a language after its bind
  unfoldable pub bind_one : Str → CasesFile → Str → W → Option Str → Bool → BindEnd → BindEnd
  unfolding put_worker mark_type bind_status
  bind_one lang ty format w none unsupported e = record e {
    fleet = put_worker api go_cmp floats lang w e.fleet;
    bound = e.bound ++ lang ∷ [];
  }
  bind_one lang ty format w (some text) unsupported e = record e {
    fleet = put_worker api go_cmp floats lang w e.fleet;
    report = mark_type e.report lang ty format (bind_status unsupported text);
  }

  -- the first loop of `runTypeFormat`
  unfoldable pub bind_all : Options → CasesFile → Str → List Str → BindEnd → BindEnd
  unfolding bind_one
  bind_all opts ty format [] e = e
  bind_all opts ty format (lang ∷ langs) e =
      let (w, failure, unsupported) =
        bind (e.fleet lang) ty.schema ty.name format opts.timeout_sec opts.audit in
      bind_all opts ty format langs (bind_one lang ty format w failure unsupported e)

  abbrev wrapped : Str → Str → Option Str → Option Str
  wrapped type_name format none = none
  wrapped type_name format (some text) =
      some (lit "type " ++ (type_name ++ (lit " (" ++ (format ++ (lit "): " ++ text)))))

  -- what follows the binds
  unfoldable pub run_bound : Options → Str → CasesFile → Str → BindEnd → CaseEnd api go_cmp floats
  unfolding run_cases namespaced_cases ordered_langs mark_all
  run_bound opts ref ty format e =
      if any (λ l. str_eq l ref) e.bound
      then (let end =
            run_cases api go_cmp floats opts ty.schema ref
              (namespaced_cases ty.name format ty.cases) (ordered_langs e.bound ref) e.fleet
              e.report in
          record end { failure = wrapped ty.name format end.failure })
      else record {
        fleet = e.fleet;
        report = mark_all e.report e.bound ty format (skip, skip_ref_unsupported);
        failure = none;
      }

  -- `runTypeFormat`
  unfoldable pub run_type_format :
      Options
      → Str
      → CasesFile
      → Str
      → List Str
      → Workers api go_cmp floats
      → Report
      → CaseEnd api go_cmp floats
  unfolding bind_all run_bound
  run_type_format opts ref ty format langs workers rep =
      run_bound opts ref ty format
        (bind_all opts ty format langs (record { fleet = workers; bound = []; report = rep }))

  -- the inner loop of `RunSuite`
  unfoldable pub run_formats :
      Options
      → Str
      → CasesFile
      → List Str
      → List Str
      → Workers api go_cmp floats
      → Report
      → CaseEnd api go_cmp floats
  unfolding run_type_format
  run_formats opts ref ty [] langs workers rep = record {
    fleet = workers;
    report = rep;
    failure = none;
  }
  run_formats opts ref ty (format ∷ formats) langs workers rep =
      let first =
        run_type_format (record opts { oracle = oracle_for ty format }) ref ty format langs workers
          rep in
      let rest = run_formats opts ref ty formats langs first.fleet first.report in
      record rest { failure = first_of api go_cmp floats first.failure rest.failure }

  unfoldable pub run_types :
      Options
      → Str
      → List CasesFile
      → List Str
      → Workers api go_cmp floats
      → Report
      → CaseEnd api go_cmp floats
  unfolding run_formats
  run_types opts ref [] langs workers rep = record { fleet = workers; report = rep; failure = none }
  run_types opts ref (ty ∷ types) langs workers rep =
      let first = run_formats opts ref ty ty.formats langs workers rep in
      let rest = run_types opts ref types langs first.fleet first.report in
      record rest { failure = first_of api go_cmp floats first.failure rest.failure }

  -- `RunSuite`
  unfoldable pub run_suite :
      Options → CasesSet → List Str → Workers api go_cmp floats → Report → CaseEnd api go_cmp floats
  unfolding run_types
  run_suite opts set langs workers rep =
      run_types opts set.reference_language set.types langs workers rep
