-- ===== src/Wire.antt =====
-- lib/go/serify/protocol.go: the schema that a worker is bound to, and the Go values that its field
-- maps hold. Decoding is in Wire/Decode, encoding in Wire/Encode.
pub mod Json
pub mod Decode
pub mod Encode
pub mod Schema
pub mod Text
pub mod Scalars
pub mod Typed
pub mod Elems
pub mod Forms
pub mod Sizes
pub mod Fresh
pub mod Slices
pub mod Structs
pub mod Shapes
pub mod Arms
pub mod RoundTrip
pub mod Ranges
pub mod Collect
pub mod Sound
pub mod Types
pub mod Lost
pub mod Access
pub mod Kept
pub mod Utf8
pub mod Tests
use serify.Base.{
  ℕ, ℤ, Bool, true, false, ◌&&◌, ◌||◌, Option, none, some, List, [], ◌∷◌, ◌++◌, if◌then◌else◌, ◌==◌,
  leb, is_empty, Str, lit, str_eq, Assoc,
}
use serify.Kind.{Scalar, spell, scalars}

-- `SchemaField`: name, type, nested fields, key type, variants, tags. `SchemaVariant`: a variant
-- whose payload is nil, or one with its payload.
mutual
  pub data SchemaField : Type 0 where
    schema_field : Str → Str → SchemaFields → Str → SchemaVariants → Assoc Str → SchemaField

  pub data SchemaFields : Type 0 where
    no_schema : SchemaFields
    then_field : SchemaField → SchemaFields → SchemaFields

  pub data SchemaVariants : Type 0 where
    no_schema_variants : SchemaVariants
    unit_arm : Str → SchemaVariants → SchemaVariants
    arm : Str → SchemaField → SchemaVariants → SchemaVariants

unfoldable pub schema_name : SchemaField → Str
schema_name (schema_field name typ fields key variants tags) = name

-- The Go types of the elements of a stored slice.
pub data GoType : Type 0 where
  uint8 uint16 uint32 uint64 int8 int16 int32 int64 : GoType
  big_int float32 float64 bool string bytes field_map : GoType

-- `%T`
unfoldable pub go_name : GoType → Str
go_name uint8 = lit "uint8"
go_name uint16 = lit "uint16"
go_name uint32 = lit "uint32"
go_name uint64 = lit "uint64"
go_name int8 = lit "int8"
go_name int16 = lit "int16"
go_name int32 = lit "int32"
go_name int64 = lit "int64"
go_name big_int = lit "*big.Int"
go_name float32 = lit "float32"
go_name float64 = lit "float64"
go_name bool = lit "bool"
go_name string = lit "string"
go_name bytes = lit "[]uint8"
go_name field_map = lit "*serify.FieldMap"

-- A Go value of a field map, with its dynamic type: an integer of a fixed width, floats as their
-- bits, a slice of each element type but uint8, whose slices are the byte slices.
mutual
  pub data Stored : Type 0 where
    nil : Stored
    num : GoType → ℤ → Stored
    big : Option ℤ → Stored
    f32 : ℕ → Stored
    f64 : ℕ → Stored
    truth : Bool → Stored
    text : Str → Stored
    text_pointer : Option Str → Stored
    blob : Str → Stored
    slice_of : GoType → Stores → Stored
    nested : Pairs → Stored
    go_map : Pairs → Stored
    variant_of : Str → Stored → Stored

  pub data Stores : Type 0 where
    no_stores : Stores
    store : Stored → Stores → Stores

  -- a `map[string]any`: the fields of a `FieldMap`
  pub data Pairs : Type 0 where
    no_pairs : Pairs
    pair : Str → Stored → Pairs → Pairs

-- `%T` of a stored value
unfoldable pub go_type_of : Stored → Str
unfolding go_name
go_type_of nil = lit "<nil>"
go_type_of (num t n) = go_name t
go_type_of (big n) = lit "*big.Int"
go_type_of (f32 x) = lit "float32"
go_type_of (f64 x) = lit "float64"
go_type_of (truth b) = lit "bool"
go_type_of (text s) = lit "string"
go_type_of (text_pointer s) = lit "*string"
go_type_of (blob bs) = lit "[]uint8"
go_type_of (slice_of t vs) = lit "[]" ++ go_name t
go_type_of (nested ps) = lit "*serify.FieldMap"
go_type_of (go_map ps) = lit "map[string]interface {}"
go_type_of (variant_of tag v) = lit "*serify.Variant"

-- f.fields[key]
unfoldable pub find_pair : Str → Pairs → Option Stored
find_pair k no_pairs = none
find_pair k (pair j v ps) = if str_eq j k then some v else find_pair k ps

-- f.fields[key] = v
unfoldable pub set_pair : Str → Stored → Pairs → Pairs
set_pair k v no_pairs = pair k v no_pairs
set_pair k v (pair j w ps) = if str_eq j k then pair k v ps else pair j w (set_pair k v ps)

-- f.fields[key] = v, before the writes that made the map
unfoldable pub add_missing : Str → Stored → Pairs → Pairs
unfolding find_pair
add_missing k v ps = elim (find_pair k ps) [ none ↦ pair k v ps | some w ↦ ps ]

unfoldable pub find_kind : Str → List Scalar → Option Scalar
find_kind typ [] = none
find_kind typ (k ∷ ks) = if str_eq (spell k) typ then some k else find_kind typ ks

-- the cases of `switch typ` on the scalar kinds
unfoldable pub kind_of : Str → Option Scalar
unfolding find_kind spell
kind_of typ = find_kind typ scalars

-- s[:len(s)-1]
unfoldable pub drop_last : Str → Option Str
drop_last [] = none
drop_last (c ∷ []) = some []
drop_last (c ∷ d ∷ s) = elim (drop_last (d ∷ s)) [ none ↦ none | some t ↦ some (c ∷ t) ]

-- `strings.HasPrefix`
unfoldable pub has_prefix : Str → Str → Bool
has_prefix [] s = true
has_prefix (p ∷ ps) [] = false
has_prefix (p ∷ ps) (c ∷ s) = c == p && has_prefix ps s

-- `strings.TrimSpace` of ASCII text
abbrev pub is_space : ℕ → Bool
is_space c = c == 32 || (leb 9 c && leb c 13)

unfoldable pub trim_left : Str → Str
trim_left [] = []
trim_left (c ∷ s) = if is_space c then trim_left s else c ∷ s

unfoldable pub trim_right : Str → Str
trim_right [] = []
trim_right (c ∷ s) = let rest = trim_right s in if is_empty rest && is_space c then [] else c ∷ rest

unfoldable pub trim_space : Str → Str
unfolding trim_left trim_right
trim_space s = trim_left (trim_right s)

-- the text before and after the last `c`: `strings.LastIndex`
unfoldable pub last_cut : ℕ → Str → Option (Str × Str)
last_cut c [] = none
last_cut c (x ∷ s) = elim (last_cut c s) [
  | some (a, b) ↦ some (x ∷ a, b)
  | none ↦ if x == c then some ([], s) else none
]
