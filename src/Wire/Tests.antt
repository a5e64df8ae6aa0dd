-- ===== src/Wire/Tests.antt =====
-- The wire at concrete values: a schema with a scalar, a list, an optional struct, a map, an array
-- and a sum.
use serify.Wire.Utf8.{AreTextPairs}
use serify.Base.{
  as_utf8, ℕ, some, ◌↔◌, ◌+◌, ◌*◌, ◌/◌, ◌%◌, ℤ, pos, negsuc, true, List, [], ◌∷◌, ◌≡◌, refl, arith,
  inl, inr, Bool-cases, ◌==◌, if◌then◌else◌, Str, lit, str_eq,
}
use serify.Kind.{Scalar, spell}
use serify.Conf.{
  Value, null, FieldType, scalar, optional, array, map, struct, sum, no_fields, field, no_variants,
  unit_variant, variant, Field, no_values, value, Entries, no_entries, entry,
}
use serify.Proto.Encode.{Floats, ok, find_entry}
use serify.Wire.{
  GoType, find_pair, go_type_of, Stored, nil, num, blob, nested, variant_of, go_map, slice_of,
  Stores, no_stores, store, Pairs, no_pairs, pair,
}
use serify.Wire.Json.{Go}
use serify.Wire.Decode.{decode_field, decode_fields}
use serify.Wire.Schema.{schema_field_of_type, schema_fields}
use serify.Wire.Scalars
use serify.Wire.Scalars.{fits, IsExact}
use serify.Wire.Typed
use serify.Wire.Typed.{AreWire}
use serify.Wire.RoundTrip.{fields_of}
use serify.Wire.Ranges.{IsRanged}
use serify.Wire.Access.{
  optional_in, typed_optional, set_field, get_typed, set_optional, get_optional,
}
use serify.Wire.Kept.{get_typed-set_field}
use serify.Wire.Lost
use serify.Wire.Lost.{AreObjects, empty_maps, decode_field-array_struct}
use serify.Proto.Tests.{zero_floats}

-- Floats that stand for integers: an even number for one that is not negative.
pub of_integer : ℤ → ℕ
of_integer (pos n) = 2 * n
of_integer (negsuc n) = 2 * n + 1

pub to_integer : ℕ → ℤ
to_integer x = if x % 2 == 0 then pos (x / 2) else negsuc (x / 2)

to_integer-of_integer : (n : ℤ) → to_integer (of_integer n) ≡ n
unfolding to_integer of_integer
to_integer-of_integer (pos n) = ground arith
to_integer-of_integer (negsuc n) = ground arith

pub clip : GoType → ℤ → ℤ
clip t n = if fits t n then n else pos 0

abbrev pub integer_floats : Floats
integer_floats = record zero_floats { of_int = of_integer }

abbrev pub integer_go : Go
integer_go = record { convert = λ t x. clip t (to_integer x); other = λ v. null }

exact_clip : (t : GoType) (n : ℤ) → fits t n ≡ true → clip t (to_integer (of_integer n)) ≡ n
unfolding clip
exact_clip t n h = rw (to_integer-of_integer n, h)

pub IsExact-law : IsExact integer_floats integer_go
IsExact-law = record { exact = λ t n h. exact_clip t n h }

clip-fits : (t : GoType) (n : ℤ) → fits t (pos 0) ≡ true → fits t (clip t n) ≡ true
unfolding clip
clip-fits t n z = elim (Bool-cases (fits t n)) [ inl e ↦ rw e e | inr e ↦ rw e z ]

pub IsRanged-law : IsRanged integer_go
IsRanged-law = record {
  ranged_uint8 = λ x. clip-fits GoType.uint8 (to_integer x) refl;
  ranged_uint16 = λ x. clip-fits GoType.uint16 (to_integer x) refl;
  ranged_uint32 = λ x. clip-fits GoType.uint32 (to_integer x) refl;
  ranged_int8 = λ x. clip-fits GoType.int8 (to_integer x) refl;
  ranged_int16 = λ x. clip-fits GoType.int16 (to_integer x) refl;
  ranged_int32 = λ x. clip-fits GoType.int32 (to_integer x) refl;
}

abbrev plain_field : Str → FieldType → Field
plain_field name t = record { name = name; type = t; tags = [] }

abbrev pub a_schema : List Field
a_schema =
    plain_field (lit "id") (scalar Scalar.int64)
    ∷ plain_field (lit "pin") (array (scalar Scalar.uint8) 2)
    ∷ plain_field (lit "at") (optional (struct (field (lit "x") (scalar Scalar.int8) no_fields)))
    ∷ plain_field (lit "by") (map (scalar Scalar.string) (scalar Scalar.bool))
    ∷ plain_field (lit "way")
        (sum (unit_variant (lit "up") (variant (lit "to") (scalar Scalar.bytes) no_variants)))
    ∷ []

abbrev pin_stores : Stores
pin_stores = store (num GoType.uint8 (pos 7)) (store (num GoType.uint8 (pos 255)) no_stores)

abbrev a_map : Pairs
a_map = pair (lit "id") (num GoType.int64 (negsuc 4)) (
    pair (lit "pin") (blob (7 ∷ 255 ∷ [])) (
      pair (lit "at") (nested (pair (lit "x") (num GoType.int8 (negsuc 127)) no_pairs)) (
        pair (lit "by") (go_map (pair (lit "k") (Stored.truth true) no_pairs))
          (pair (lit "way") (variant_of (lit "to") (blob (1 ∷ []))) no_pairs))))

-- The schema is one that the wire carries.
pub a_schema-AreWire : AreWire (fields_of a_schema)
unfolding str_eq lit
a_schema-AreWire =
    Typed.one_more (refl, (refl, (refl, (refl, tt)))) (Typed.wire_elem Typed.wire_scalar)
      (Typed.one_more (refl, (refl, (refl, tt))) (Typed.wire_array (omega arith))
        (Typed.one_more (refl, (refl, tt))
          (Typed.wire_optional (
            Typed.wire_struct
              (Typed.one_more tt (Typed.wire_elem Typed.wire_scalar) Typed.end_of_fields)))
          (Typed.one_more (refl, tt) (Typed.wire_map Typed.wire_scalar)
            (Typed.one_more tt
              (Typed.wire_sum (
                Typed.one_unit
                  (Typed.one_arm (Typed.wire_elem Typed.wire_scalar) Typed.end_of_arms)))
              Typed.end_of_fields))))

abbrev pub a_message : Entries
a_message =
    entry (lit "id") (Value.string (lit "-12"))
      (entry (lit "way") (Value.object (entry (lit "up") null no_entries)) no_entries)

abbrev pub the_answer : Pairs
the_answer =
    pair (lit "id") (num GoType.int64 (negsuc 11))
      (pair (lit "way") (variant_of (lit "up") nil) no_pairs)

pub reads_message :
    decode_fields integer_go (schema_fields a_schema) (λ k. find_entry k a_message) ≡ ok the_answer
unfolding decode_fields schema_fields schema_field_of_type spell find_entry lit str_eq
reads_message = refl

pub the_answer-AreTextPairs : AreTextPairs the_answer
unfolding AreTextPairs as_utf8 lit
the_answer-AreTextPairs = (refl, tt, (refl, (refl, tt), tt))

decode_field-array_struct_example :
    decode_field integer_go
      (schema_field_of_type
        (lit "points")
        (array (struct (field (lit "x") (scalar Scalar.int8) no_fields)) 1))
      (Value.slice (value (Value.object (entry (lit "x") (Value.float64 6) no_entries)) no_values))
    ≡ ok (slice_of GoType.field_map (store (nested no_pairs) no_stores))
decode_field-array_struct_example =
    decode_field-array_struct integer_go (lit "points")
      (field (lit "x") (scalar Scalar.int8) no_fields)
      (value (Value.object (entry (lit "x") (Value.float64 6) no_entries)) no_values) (omega arith)
      (Lost.one_object Lost.no_objects)

get_typed-set_field_example :
    ((get_typed
          (lit "int64")
          (set_field (lit "id") (num GoType.int64 (pos 4)) the_answer)
          (lit "id")
        ≡ ok (num GoType.int64 (pos 4)))
      ↔ ((go_type_of (num GoType.int64 (pos 4)) ≡ lit "int64")
          × (num GoType.int64 (pos 4) ≡ num GoType.int64 (pos 4))))
    × (get_typed
          (lit "int64")
          (set_field (lit "id") (num GoType.int64 (pos 4)) the_answer)
          (lit "way")
        ≡ get_typed (lit "int64") the_answer (lit "way"))
unfolding lit str_eq
get_typed-set_field_example =
    get_typed-set_field (lit "id") (lit "way") (lit "int64") (num GoType.int64 (pos 4))
      (num GoType.int64 (pos 4)) the_answer refl

-- a pointer to the type, as `GetOptional[big.Int]` takes it
reads_pointer :
    get_optional
      (lit "big.Int")
      (set_optional (lit "id") (some (Stored.big (some (pos 7)))) the_answer)
      (lit "id")
    ≡ ok (some (Stored.big (some (pos 7))))
unfolding get_optional set_optional set_field find_pair optional_in typed_optional go_type_of lit
    str_eq
reads_pointer = refl
