-- ===== src/Schema/Validate.antt =====
-- internal/conf/conf.go: `validate` and `validateEnum`, and the error they give, if there is one.
use serify.Base.{
  Bool, not, ◌&&◌, Option, none, some, List, [], ◌∷◌, ◌++◌, if◌then◌else◌, is_empty, Str, lit,
  str_eq, Assoc, quote, join,
}
use serify.Report.{is_nil}
use serify.Conf.{FieldType, enum, Field, TestCase, CasesFile, Value, string, contains_str}
use serify.Proto.Encode.{type_name}

-- the second check after the first
abbrev pub first_error : Option Str → Option Str → Option Str
first_error (some e) next = some e
first_error none next = next

-- `fmt.Errorf("…: %w", err)`
abbrev pub in_context : Str → Option Str → Option Str
in_context prefix (some e) = some (prefix ++ e)
in_context prefix none = none

-- `fieldTypes[k]`, where the last field of a name is kept
abbrev pub or_last : Option FieldType → Bool → FieldType → Option FieldType
or_last (some t) here own = some t
or_last none here own = if here then some own else none

unfoldable pub field_type_of : Str → List Field → Option FieldType
field_type_of key [] = none
field_type_of key (f ∷ schema) = or_last (field_type_of key schema) (str_eq f.name key) f.type

unfoldable pub validate_variant : List Str → Value → Option Str
unfolding contains_str
validate_variant values (string s) =
    if contains_str values s
    then none
    else some (quote s ++ (lit " is not one of [" ++ (join (lit ", ") values ++ lit "]")))
validate_variant values v =
    some (lit "expected one of [" ++ (join (lit ", ") values ++ (lit "], got " ++ type_name v)))

-- `validateEnum`
unfoldable pub validate_enum : FieldType → Value → Option Str
unfolding validate_variant
validate_enum (enum values) v = validate_variant values v
validate_enum _ v = none

abbrev pub case_text : Str → Str → Str
case_text case_name key = lit "test case " ++ (quote case_name ++ (lit ": field " ++ quote key))

abbrev pub validate_field : Str → Str → Option FieldType → Value → Option Str
validate_field case_name key none v = some (case_text case_name key ++ lit " not in schema")
validate_field case_name key (some t) v =
    in_context (case_text case_name key ++ lit ": ") (validate_enum t v)

-- the loop over a case's data
unfoldable pub validate_content : List Field → Str → Assoc Value → Option Str
unfolding validate_enum field_type_of
validate_content schema case_name [] = none
validate_content schema case_name ((key, v) ∷ m) =
    first_error (validate_field case_name key (field_type_of key schema) v)
      (validate_content schema case_name m)

-- the loop over the cases
unfoldable pub validate_cases : List Field → List TestCase → Option Str
unfolding validate_content
validate_cases schema [] = none
validate_cases schema (tc ∷ cases) =
    if is_empty tc.name
    then some (lit "test case missing name")
    else first_error (validate_content schema tc.name tc.content) (validate_cases schema cases)

-- `CasesFile.validate`
unfoldable pub validate : CasesFile → Option Str
unfolding validate_cases
validate cf =
    if is_nil cf.schema
    then some (lit "type " ++ (quote cf.name ++ lit ": schema must have at least one field"))
    else if not (is_nil cf.cases) && is_nil cf.formats
    then some (
        lit "type "
        ++ (quote cf.name
            ++ lit
                ": must declare at least one format (add a `formats:` list, e.g. `formats: [binary]`)"))
    else validate_cases cf.schema cf.cases
