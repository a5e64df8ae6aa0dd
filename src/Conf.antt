-- ===== src/Conf.antt =====
-- internal/conf: the types of a schema and the cases of a type.
use serify.Base.{ℕ, ℤ, Bool, List, [], ◌∷◌, ◌++◌, ◌||◌, any, Str, lit, str_eq, Assoc, sub_map}
use serify.Kind.{Scalar}

-- `FieldType`, one constructor for each base. `Fields` and `Variants` are the lists inside a struct
-- and a sum; the tags of a nested field are left out, since nothing nested carries any.
mutual
  pub data FieldType : Type 0 where
    scalar : Scalar → FieldType
    optional : FieldType → FieldType
    list : FieldType → FieldType
    array : FieldType → ℕ → FieldType
    map : FieldType → FieldType → FieldType
    struct : Fields → FieldType
    enum : List Str → FieldType
    sum : Variants → FieldType

  pub data Fields : Type 0 where
    no_fields : Fields
    field : Str → FieldType → Fields → Fields

  pub data Variants : Type 0 where
    no_variants : Variants
    unit_variant : Str → Variants → Variants
    variant : Str → FieldType → Variants → Variants

-- A field of a schema, with its metadata tags.
pub record Field : Type 0 where
  pub name : Str
  pub type : FieldType
  pub tags : Assoc Str

-- A Go value of type `any`, as case data and decoded JSON hold it; floats are their IEEE 754 bits.
mutual
  pub data Value : Type 0 where
    null : Value
    bool : Bool → Value
    int : ℤ → Value
    int64 : ℤ → Value
    uint64 : ℕ → Value
    big : ℤ → Value
    float32 : ℕ → Value
    float64 : ℕ → Value
    string : Str → Value
    slice : Values → Value
    object : Entries → Value

  pub data Values : Type 0 where
    no_values : Values
    value : Value → Values → Values

  pub data Entries : Type 0 where
    no_entries : Entries
    entry : Str → Value → Entries → Entries

-- `TestCase`
pub record TestCase : Type 0 where
  pub name : Str
  pub description : Str
  pub content : Assoc Value

-- `CasesFile`: one type under test
pub record CasesFile : Type 0 where
  pub name : Str
  pub formats : List Str
  pub reference_language : Str
  pub schema : List Field
  pub cases : List TestCase
  pub oracles : Assoc Str

-- `CasesSet`
pub record CasesSet : Type 0 where
  pub reference_language : Str
  pub types : List CasesFile

-- `ExpectedSkips`
pub record ExpectedSkips : Type 0 where
  pub types : List Str
  pub operations : Assoc (List Str)

unfoldable pub oracle_bytes : Str
oracle_bytes = lit "bytes"

unfoldable pub oracle_semantic : Str
oracle_semantic = lit "semantic"

-- a missing key of a `map[string]string` reads as ""
unfoldable pub oracle_for : CasesFile → Str → Str
oracle_for cf format = sub_map format cf.oracles

-- `TestIDFmt`: "type/format/case"
unfoldable pub test_id_fmt : Str → Str → Str → Str
test_id_fmt type_name format case_name = type_name ++ (b'/' ∷ (format ++ (b'/' ∷ case_name)))

-- `slices.Contains`, and `containsStr` of the orchestrator
unfoldable pub contains_str : List Str → Str → Bool
contains_str strs v = any (λ s. str_eq s v) strs

-- `Covers`
unfoldable pub covers : ExpectedSkips → Str → Str → Bool
unfolding contains_str
covers e type_name op =
    contains_str e.types type_name || contains_str (sub_map op e.operations) type_name

-- the ids of a case in each format
unfoldable pub format_ids : Str → Str → List Str → List Str
unfolding test_id_fmt
format_ids type_name case_name [] = []
format_ids type_name case_name (format ∷ formats) =
    test_id_fmt type_name format case_name ∷ format_ids type_name case_name formats

unfoldable pub case_ids : Str → List Str → List TestCase → List Str
unfolding format_ids
case_ids type_name formats [] = []
case_ids type_name formats (tc ∷ tcs) =
    format_ids type_name tc.name formats ++ case_ids type_name formats tcs

unfoldable pub type_ids : List CasesFile → List Str
unfolding case_ids
type_ids [] = []
type_ids (ty ∷ types) = case_ids ty.name ty.formats ty.cases ++ type_ids types

-- `TestIDs`
unfoldable pub test_ids : CasesSet → List Str
unfolding type_ids
test_ids set = type_ids set.types
