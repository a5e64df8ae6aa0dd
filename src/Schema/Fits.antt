-- ===== src/Schema/Fits.antt =====
-- The form of case data of a type of internal/conf/conf.go, with the ranges of internal/conf/casedata.go.
use serify.Base.{ℕ, ◌<◌, ◌-◌, ◌^◌, ℤ, pos, negsuc, true, false, List, ◌≡◌, Str, str_eq}
use serify.Kind.{Scalar}
use serify.Conf.{
  FieldType, scalar, optional, list, array, map, struct, enum, sum, Fields, field, Variants,
  unit_variant, variant, Value, null, uint64, int64, big, slice, object, Values, no_values, value,
  Entries, no_entries, entry,
}
use serify.Wire.Json.{in_range, min_i128, max_i128, max_u128}
use serify.Schema.Data.{has_field}

-- a scalar of case data; the kinds of at most 32 bits, floats, text and bytes are left as they are
pub data IsDatum : Scalar → Value → Type 0 where
  uint64_datum : {n : ℕ} → n < 2 ^ 64 → IsDatum Scalar.uint64 (uint64 n)
  int64_datum :
      {z : ℤ}
      → in_range (negsuc (2 ^ 63 - 1)) (pos (2 ^ 63 - 1)) z ≡ true
      → IsDatum Scalar.int64 (int64 z)
  uint128_datum : {z : ℤ} → in_range (pos 0) max_u128 z ≡ true → IsDatum Scalar.uint128 (big z)
  int128_datum : {z : ℤ} → in_range min_i128 max_i128 z ≡ true → IsDatum Scalar.int128 (big z)
  int8_datum : {v : Value} → IsDatum Scalar.int8 v
  int16_datum : {v : Value} → IsDatum Scalar.int16 v
  int32_datum : {v : Value} → IsDatum Scalar.int32 v
  uint8_datum : {v : Value} → IsDatum Scalar.uint8 v
  uint16_datum : {v : Value} → IsDatum Scalar.uint16 v
  uint32_datum : {v : Value} → IsDatum Scalar.uint32 v
  float32_datum : {v : Value} → IsDatum Scalar.float32 v
  float64_datum : {v : Value} → IsDatum Scalar.float64 v
  bool_datum : {v : Value} → IsDatum Scalar.bool v
  string_datum : {v : Value} → IsDatum Scalar.string v
  bytes_datum : {v : Value} → IsDatum Scalar.bytes v

mutual
  -- A value of case data has the form of its type.
  pub data FitsType : FieldType → Value → Type 0 where
    missing : {t : FieldType} → FitsType t null
    datum : {k : Scalar} {v : Value} → IsDatum k v → FitsType (scalar k) v
    present : {t : FieldType} {v : Value} → FitsType t v → FitsType (optional t) v
    list_fits : {t : FieldType} {vs : Values} → FitAll t vs → FitsType (list t) (slice vs)
    array_fits :
        {t : FieldType} {n : ℕ} {vs : Values} → FitAll t vs → FitsType (array t n) (slice vs)
    map_fits : {k t : FieldType} {es : Entries} → FitKeys t es → FitsType (map k t) (object es)
    struct_fits : {fs : Fields} {es : Entries} → FitFields fs es → FitsType (struct fs) (object es)
    enum_fits : {names : List Str} {v : Value} → FitsType (enum names) v
    sum_fits :
        {vs : Variants} {tag : Str} {v : Value}
        → FitsArm vs tag v
        → FitsType (sum vs) (object (entry tag v no_entries))

  pub data FitAll : FieldType → Values → Type 0 where
    fit_none : {t : FieldType} → FitAll t no_values
    fit_next :
        {t : FieldType} {v : Value} {vs : Values}
        → FitsType t v
        → FitAll t vs
        → FitAll t (value v vs)

  pub data FitKeys : FieldType → Entries → Type 0 where
    no_key : {t : FieldType} → FitKeys t no_entries
    next_key :
        {t : FieldType} {k : Str} {v : Value} {es : Entries}
        → FitsType t v
        → FitKeys t es
        → FitKeys t (entry k v es)

  pub data FitFields : Fields → Entries → Type 0 where
    no_given : {fs : Fields} → FitFields fs no_entries
    next_given :
        {fs : Fields} {k : Str} {v : Value} {es : Entries}
        → FitsField fs k v
        → FitFields fs es
        → FitFields fs (entry k v es)

  -- the value of a key of a struct: of the last field of that name, or of any form without one
  pub data FitsField : Fields → Str → Value → Type 0 where
    unknown : {fs : Fields} {key : Str} {v : Value} → has_field key fs ≡ false → FitsField fs key v
    later_field :
        {name key : Str} {t : FieldType} {fs : Fields} {v : Value}
        → has_field key fs ≡ true
        → FitsField fs key v
        → FitsField (field name t fs) key v
    this_field :
        {name key : Str} {t : FieldType} {fs : Fields} {v : Value}
        → has_field key fs ≡ false
        → str_eq name key ≡ true
        → FitsType t v
        → FitsField (field name t fs) key v

  -- the payload of the first variant of the tag
  pub data FitsArm : Variants → Str → Value → Type 0 where
    unit_arm :
        {name tag : Str} {vs : Variants}
        → str_eq name tag ≡ true
        → FitsArm (unit_variant name vs) tag null
    this_arm :
        {name tag : Str} {t : FieldType} {vs : Variants} {v : Value}
        → str_eq name tag ≡ true
        → FitsType t v
        → FitsArm (variant name t vs) tag v
    past_unit :
        {name tag : Str} {vs : Variants} {v : Value}
        → str_eq name tag ≡ false
        → FitsArm vs tag v
        → FitsArm (unit_variant name vs) tag v
    past_arm :
        {name tag : Str} {t : FieldType} {vs : Variants} {v : Value}
        → str_eq name tag ≡ false
        → FitsArm vs tag v
        → FitsArm (variant name t vs) tag v
