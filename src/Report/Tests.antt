-- ===== src/Report/Tests.antt =====
-- The report at concrete results.
use serify.Base.{
  not, ◌&&◌, false, some, [], ◌∷◌, flatten, ◌≡◌, refl, inr, lit, lookup, sub_map, insert, str_eq,
  any, cut, true,
}
use serify.Report.{
  pass, fail, skip, Result, Report, new, add, add_all, cell, success, tally, announced_exit,
  file_result, record_result, op_serialize, op_deserialize,
}
use serify.Report.Failures.{announced_exit-success, success-cell}
use serify.Conf.{test_id_fmt}
use serify.Report.Records.{
  records, id_records, split_test_id, lang_records, op_records, sort_by, insert_by,
}
use serify.Report.Grid.{split_test_id-test_id_fmt, records_cell, any-records}
use serify.Report.Types.{
  lists, unimplemented_types, occurs, is_implemented, lists-unimplemented_types,
}
use serify.Report.Interleave.{
  Interleaving, none_left, merge, done, left, right, Apart-OfLanguage, cell_of_Interleaving,
  AllApart,
}

abbrev passed : Result
passed = record {
  test_id = lit "T/json/a";
  language = lit "go";
  operation = op_serialize;
  status = pass;
  detail = [];
}

abbrev failed_row : Result
failed_row = record {
  test_id = lit "T/json/a";
  language = lit "rust";
  operation = op_serialize;
  status = fail;
  detail = lit "x";
}

abbrev skipped : Result
skipped = record {
  test_id = lit "T/json/a";
  language = lit "rust";
  operation = op_deserialize;
  status = skip;
  detail = [];
}

abbrev empty_report : Report
empty_report = new (lit "go" ∷ lit "rust" ∷ []) (lit "T/json/a" ∷ []) (lit "table")

success-cell_example : success (add_all empty_report (passed ∷ failed_row ∷ skipped ∷ [])) ≡ false
unfolding new add_all add success cell op_serialize op_deserialize lit lookup sub_map file_result
    record_result insert str_eq
success-cell_example =
    success-cell (lit "go" ∷ lit "rust" ∷ []) (lit "T/json/a" ∷ []) (lit "table")
      (passed ∷ failed_row ∷ skipped ∷ []) (lit "T/json/a") (lit "rust") op_serialize refl refl

announced_exit-success_example :
    ((tally (add_all empty_report (passed ∷ skipped ∷ []))).fails ≡ 0)
    × (announced_exit (add_all empty_report (passed ∷ skipped ∷ [])) ≡ 0)
unfolding new add_all add success op_serialize op_deserialize lit file_result
announced_exit-success_example =
    announced_exit-success (lit "go" ∷ lit "rust" ∷ []) (lit "T/json/a" ∷ []) (lit "table")
      (passed ∷ skipped ∷ []) refl

interleaved :
    Interleaving
      ((passed ∷ []) ∷ (failed_row ∷ skipped ∷ []) ∷ [])
      (failed_row ∷ passed ∷ skipped ∷ [])
interleaved = merge (merge none_left (left (left done))) (right (left (right done)))

apart : AllApart ((passed ∷ []) ∷ (failed_row ∷ skipped ∷ []) ∷ [])
unfolding str_eq lit
apart = (
  Apart-OfLanguage (lit "go") (lit "rust") (passed ∷ []) (failed_row ∷ skipped ∷ []) refl (refl, tt)
      (refl, (refl, tt)),
  (λ t l o. inr tt, tt),
)

cell_of_Interleaving_example :
    cell
      (add_all empty_report (failed_row ∷ passed ∷ skipped ∷ [])).results
      (lit "T/json/a")
      (lit "go")
      op_serialize
    ≡ cell
        (add_all empty_report (flatten ((passed ∷ []) ∷ (failed_row ∷ skipped ∷ []) ∷ []))).results
        (lit "T/json/a")
        (lit "go")
        op_serialize
cell_of_Interleaving_example =
    cell_of_Interleaving empty_report ((passed ∷ []) ∷ (failed_row ∷ skipped ∷ []) ∷ [])
      (failed_row ∷ passed ∷ skipped ∷ []) (lit "T/json/a") (lit "go") op_serialize interleaved
      apart

lists-unimplemented_types_example :
    lists (lit "T") (unimplemented_types (add_all empty_report (skipped ∷ []))) ≡ (
      occurs (lit "T") (add_all empty_report (skipped ∷ [])).results
      && not (is_implemented (lit "T") (add_all empty_report (skipped ∷ [])).results))
lists-unimplemented_types_example =
    lists-unimplemented_types (add_all empty_report (skipped ∷ [])) (lit "T")

split_test_id-test_id_fmt_example :
    split_test_id (test_id_fmt (lit "T") (lit "json") (lit "a/b"))
    ≡ some (lit "T", lit "json", lit "a/b")
unfolding lit
split_test_id-test_id_fmt_example =
    split_test_id-test_id_fmt (lit "T") (lit "json") (lit "a/b") refl refl

abbrev one_result : Report
one_result = add_all empty_report (passed ∷ [])

any-records_example :
    any (records_cell (lit "T/json/a") (lit "go") op_serialize) (
      record {
        test_id = lit "T/json/a";
        type_name = lit "T";
        format = lit "json";
        case_name = lit "a";
        language = lit "go";
        operation = op_serialize;
        status = pass;
        detail = [];
      }
      ∷ [])
    ≡ true
unfolding records id_records new add_all add file_result record_result insert lookup sub_map str_eq
    lit split_test_id cut lang_records op_records sort_by insert_by cell op_serialize
any-records_example = any-records one_result (lit "T/json/a") (lit "go") op_serialize refl refl refl
