-- ===== src/Schema/Tests.antt =====
-- Type expressions at concrete texts, and a cycle of two transparent types.
use mathlib.Core.Path.{subst}
use serify.Base.{
  true, false, Bool, ◌↔◌, [], ◌∷◌, List, Option, none, some, ℤ, pos, Assoc, ◌^◌, ◌≡◌, refl, sym,
  ◌⊎◌, inl, inr, arith, Str, lit, str_eq, lookup, decimal_ℤ, quote, join,
}
use serify.Kind.{Scalar, spell}
use serify.Conf.{
  CasesFile, contains_str, string, FieldType, scalar, list, array, map, enum, struct, field,
  no_fields, Value, null, object, entry, no_entries, slice, value, no_values, uint64,
}
use serify.Proto.Encode.{Encoded, ok, err}
use serify.Wire.{kind_of, trim_space}
use serify.Wire.Schema.{type_text}
use serify.Schema.{RawType, Resolver, done, spent, canonical}
use serify.Schema.Resolve.{type_of, parse_type, new_resolver}
use serify.Schema.Text.{IsWord}
use serify.Schema.Parse
use serify.Schema.Parse.{IsSpelled}
use serify.Schema.Read.{parse_type-type_text}
use serify.Schema.Loops.{Inlines, type_of-cycle}
use serify.Schema.Data.{
  Yaml, decode_data_value, decode_data_scalar, decode_exact_int, ranged, target,
}
use serify.Schema.Validate.{
  validate, validate_cases, validate_content, validate_enum, validate_variant, field_type_of,
}
use serify.Schema.Valid.{IsValid, validate-none_iff}

abbrev a_type : FieldType
a_type = map (scalar Scalar.string) (list (array (enum (lit "on" ∷ lit "off" ∷ [])) 12))

reads_spaces :
    parse_type 5 (lit " map< string, list<array<enum<on,off>,12>> > ")
    ≡ done a_type (new_resolver [])
unfolding parse_type lit str_eq spell lookup
reads_spaces = refl

on_IsWord : IsWord (lit "on")
unfolding lit
on_IsWord = record { letters = refl; full = refl }

off-IsWord : IsWord (lit "off")
unfolding lit
off-IsWord = record { letters = refl; full = refl }

a_type-IsSpelled : IsSpelled a_type
a_type-IsSpelled = Parse.map_text Parse.scalar_text (
    Parse.list_text
      (Parse.array_text (Parse.enum_text (on_IsWord, (off-IsWord, tt))) (omega arith)))

parse_type-type_text_example : parse_type 4 (type_text a_type) ≡ done a_type (new_resolver [])
parse_type-type_text_example = parse_type-type_text a_type 4 a_type-IsSpelled (omega arith)

abbrev wrapper : Str → RawType
wrapper typ = record {
  fields = record { name = lit "x"; typ = typ } ∷ [];
  transparent = true;
  is_sum = false;
}

abbrev two_names : Resolver
two_names = new_resolver ((lit "a", wrapper (lit " b")) ∷ (lit "b", wrapper (lit "a")) ∷ [])

abbrev IsOne : Str → Type 0
IsOne name = (name ≡ lit "a") ⊎ (name ≡ lit "b")

a-Inlines : Inlines IsOne two_names (lit "a")
unfolding lit str_eq lookup kind_of canonical trim_space
a-Inlines = record {
  type = wrapper (lit " b");
  rf = record { name = lit "x"; typ = lit " b" };
  others = [];
  no_kind = refl;
  no_struct = refl;
  found = refl;
  no_sum = refl;
  transparent = refl;
  only_field = refl;
  next = inr refl;
}

b-Inlines : Inlines IsOne two_names (lit "b")
unfolding lit str_eq lookup kind_of canonical trim_space
b-Inlines = record {
  type = wrapper (lit "a");
  rf = record { name = lit "x"; typ = lit "a" };
  others = [];
  no_kind = refl;
  no_struct = refl;
  found = refl;
  no_sum = refl;
  transparent = refl;
  only_field = refl;
  next = inl refl;
}

all_inline : (name : Str) → IsOne name → Inlines IsOne two_names name
all_inline name (inl e) = subst (λ n. Inlines IsOne two_names n) (sym e) a-Inlines
all_inline name (inr e) = subst (λ n. Inlines IsOne two_names n) (sym e) b-Inlines

starts_cycle : IsOne (canonical (trim_space (lit "a")))
unfolding lit str_eq canonical trim_space
starts_cycle = inl refl

type_of-cycle_example : type_of 1000 (lit "a") two_names ≡ spent
type_of-cycle_example = type_of-cycle IsOne two_names all_inline 1000 (lit "a") starts_cycle

-- nodes of case data: null, an integer, a sequence of two, a map of one key
data Tree : Type 0 where
  nothing : Tree
  whole : ℤ → Tree
  two : Tree → Tree → Tree
  under : Str → Tree → Tree

abbrev is_nothing : Tree → Bool
is_nothing nothing = true
is_nothing _ = false

abbrev is_whole : Tree → Bool
is_whole (whole z) = true
is_whole _ = false

abbrev whole_of : Tree → Option ℤ
whole_of (whole z) = some z
whole_of _ = none

abbrev items_of : Tree → Encoded (List Tree)
items_of (two a b) = ok (a ∷ b ∷ [])
items_of _ = err (lit "not a sequence")

abbrev map_of_tree : Tree → Encoded (Assoc Tree)
map_of_tree (under k t) = ok ((k, t) ∷ [])
map_of_tree _ = err (lit "not a map")

abbrev trees : Yaml
trees = record {
  Node = Tree;
  alias = λ n. none;
  is_null = is_nothing;
  is_scalar = is_whole;
  text_of = λ n. [];
  as_int = whole_of;
  as_text = λ n. ok [];
  as_items = items_of;
  as_map = map_of_tree;
  as_any = λ n. ok null;
}

abbrev data_type : FieldType
data_type = struct (field (lit "u") (list (scalar Scalar.uint64)) no_fields)

abbrev data_node : Tree
data_node = under (lit "u") (two (whole (pos 5)) nothing)

abbrev data_value : Value
data_value = object (entry (lit "u") (slice (value (uint64 5) (value null no_values))) no_entries)

rejects_large :
    decode_data_value trees (scalar Scalar.uint64) (whole (pos (2 ^ 64)))
    ≡ err (lit "value 18446744073709551616 out of range for uint64")
unfolding decode_data_value decode_data_scalar decode_exact_int ranged target lit decimal_ℤ
rejects_large = refl

-- a type with one enum field and one case
abbrev switch_type : Str → CasesFile
switch_type chosen = record {
  name = lit "switch";
  formats = lit "json" ∷ [];
  reference_language = lit "go";
  schema = record { name = lit "state"; type = enum (lit "on" ∷ lit "off" ∷ []); tags = [] } ∷ [];
  cases =
      record { name = lit "a"; description = []; content = (lit "state", string chosen) ∷ [] } ∷ [];
  oracles = [];
}

rejects_variant :
    validate (switch_type (lit "of"))
    ≡ some (lit "test case \"a\": field \"state\": \"of\" is not one of [on, off]")
unfolding validate validate_cases validate_content validate_enum validate_variant field_type_of
    contains_str lit str_eq quote join
rejects_variant = refl

validate-none_iff_example :
    (validate (switch_type (lit "off")) ≡ none) ↔ IsValid (switch_type (lit "off"))
validate-none_iff_example = validate-none_iff (switch_type (lit "off"))
