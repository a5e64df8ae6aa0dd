-- ===== src/Wire/Types.antt =====
-- Whatever JSON a worker receives, what it decodes is of the schema's types.
use mathlib.Core.Path.{subst}
use serify.Wire.Utf8.{AreTextPairs}
use serify.Base.{ℕ, ◌<◌, ◌^◌, List, ◌++◌, ◌≡◌, sym, ◌∙◌, Str, lit}
use serify.Kind.{Scalar}
use serify.Conf.{
  Value, Entries, FieldType, scalar, optional, list, array, map, struct, enum, sum, Fields,
  no_fields, Variants, no_variants, Field,
}
use serify.Proto.Encode.{Floats, ok, json_entries, find_entry}
use serify.Wire.{Stored, Pairs, no_pairs, no_schema, text, has_prefix}
use serify.Wire.Json.{Go, as_string}
use serify.Wire.Decode.{Raw, decode_field, decode_fields, decode_arm, decode_typed}
use serify.Wire.Encode.{encode_fields}
use serify.Wire.Schema.{
  schema_field_of_type, schema_of_fields, schema_arms, elem_schema, schema_fields, type_text,
}
use serify.Wire.Scalars.{IsExact}
use serify.Wire.Typed
use serify.Wire.Typed.{
  HasType, HasFields, IsElem, IsWire, WireElem, AreWire, ArmsWire, WireElem-IsElem,
}
use serify.Wire.Forms
use serify.Wire.Fresh.{decode_none}
use serify.Wire.Ranges.{IsRanged, made, ok_inj}
use serify.Wire.Collect.{GivesElem}
use serify.Wire.RoundTrip.{fields_of, decode_fields-tagged, decode_fields-encode_fields}
use serify.Wire.Sound.{
  give_scalar, give_struct, optional-HasType, list-HasType, array-HasType, map-HasType, sum-HasType,
  fields_step, unit_step, arm_step, ArmSound, sd, ad,
}

module _ (go : Go) (law : IsRanged go) where
  decode_enum :
      (name s : Str) (names : List Str) (r : Value) (v : Stored)
      → decode_typed go (sd go law no_schema) (ad go law) name (lit "enum<" ++ s) r ≡ ok v
      → HasType (enum names) v
  unfolding decode_typed has_prefix lit
  decode_enum name s names r v h =
      let (t, _, e) = made (as_string r) text h in
      subst (HasType (enum names)) (sym e) Typed.enum_value

  plain_scalar :
      (name : Str) (k : Scalar) (r : Value) (v : Stored)
      → decode_field go (schema_field_of_type name (scalar k)) r ≡ ok v
      → HasType (scalar k) v
  unfolding decode_field schema_field_of_type type_text
  plain_scalar name k r v h = Typed.plain (
      give_scalar go law (sd go law no_schema) k r v
        (sym (Forms.decode_typed-spell go (sd go law no_schema) (ad go law) name k r) ∙ h))

  plain_struct :
      (name : Str) (fs : Fields) (r : Value) (v : Stored)
      → ((raw : Raw) (fm : Pairs)
          → decode_fields go (schema_of_fields fs) raw ≡ ok fm
          → HasFields fs fm)
      → decode_field go (schema_field_of_type name (struct fs)) r ≡ ok v
      → HasType (struct fs) v
  unfolding decode_field schema_field_of_type type_text
  plain_struct name fs r v give h = Typed.plain (
      give_struct go law (sd go law (schema_of_fields fs)) fs give r v (
        sym (Forms.decode_typed-struct go (sd go law (schema_of_fields fs)) (ad go law) name r)
        ∙ h))

  field_optional :
      (name : Str) (t : FieldType) (r : Value) (v : Stored)
      → IsElem t
      → GivesElem go (sd go law (elem_schema t)) t
      → decode_field go (schema_field_of_type name (optional t)) r ≡ ok v
      → HasType (optional t) v
  unfolding decode_field schema_field_of_type type_text
  field_optional name t r v i give h =
      optional-HasType go law (sd go law (elem_schema t)) t r v i give (
        sym (
          Forms.decode_typed-optional go (sd go law (elem_schema t)) (ad go law) name (type_text t)
            r)
        ∙ h)

  field_list :
      (name : Str) (t : FieldType) (r : Value) (v : Stored)
      → IsElem t
      → GivesElem go (sd go law (elem_schema t)) t
      → decode_field go (schema_field_of_type name (list t)) r ≡ ok v
      → HasType (list t) v
  unfolding decode_field schema_field_of_type type_text
  field_list name t r v i give h = list-HasType go law (sd go law (elem_schema t)) t r v i give (
      sym (Forms.decode_typed-list go (sd go law (elem_schema t)) (ad go law) name (type_text t) r)
      ∙ h)

  field_array :
      (name : Str) (k : Scalar) (n : ℕ) (r : Value) (v : Stored)
      → n < 2 ^ 63
      → decode_field go (schema_field_of_type name (array (scalar k) n)) r ≡ ok v
      → HasType (array (scalar k) n) v
  unfolding decode_field schema_field_of_type type_text
  field_array name k n r v small h =
      array-HasType go law (sd go law no_schema) name k n r v small
        (sym (Forms.decode_typed-array go (sd go law no_schema) (ad go law) name _ r) ∙ h)

  field_map :
      (name : Str) (k : Scalar) (t : FieldType) (r : Value) (v : Stored)
      → IsElem t
      → GivesElem go (sd go law (elem_schema t)) t
      → decode_field go (schema_field_of_type name (map (scalar k) t)) r ≡ ok v
      → HasType (map (scalar k) t) v
  unfolding decode_field schema_field_of_type type_text
  field_map name k t r v i give h =
      map-HasType go law (sd go law (elem_schema t)) k t r v i give
        (sym (Forms.decode_typed-map go (sd go law (elem_schema t)) (ad go law) name _ r) ∙ h)

  field_sum :
      (name : Str) (vs : Variants) (r : Value) (v : Stored)
      → ((tag : Str) (r : Value) (w : Stored)
          → decode_arm go (schema_arms vs) tag r ≡ ok w
          → ArmSound go law vs tag w)
      → decode_field go (schema_field_of_type name (sum vs)) r ≡ ok v
      → HasType (sum vs) v
  unfolding decode_field schema_field_of_type type_text
  field_sum name vs r v give h =
      sum-HasType go law (λ tag r. decode_arm go (schema_arms vs) tag r) vs r v give
        (sym (
            Forms.decode_typed-sum go (sd go law no_schema)
              (λ tag r. decode_arm go (schema_arms vs) tag r) name _ r)
          ∙ h)

  field_enum :
      (name : Str) (names : List Str) (r : Value) (v : Stored)
      → decode_field go (schema_field_of_type name (enum names)) r ≡ ok v
      → HasType (enum names) v
  unfolding decode_field schema_field_of_type type_text
  field_enum name names r v h = decode_enum name _ names r v h

  no_fields_inv :
      (raw : Raw) (fm : Pairs)
      → decode_fields go (schema_of_fields no_fields) raw ≡ ok fm
      → no_pairs ≡ fm
  unfolding schema_of_fields
  no_fields_inv raw fm h = ok_inj (sym (decode_none go raw) ∙ h)

  no_arms_inv :
      (tag : Str) (r : Value) (v : Stored)
      → decode_arm go (schema_arms no_variants) tag r ≡ ok v
      → ArmSound go law no_variants tag v
  unfolding schema_arms decode_arm
  no_arms_inv tag r v h = cc

  elem_struct :
      (fs : Fields)
      → ((raw : Raw) (fm : Pairs)
          → decode_fields go (schema_of_fields fs) raw ≡ ok fm
          → HasFields fs fm)
      → GivesElem go (sd go law (elem_schema (struct fs))) (struct fs)
  unfolding elem_schema
  elem_struct fs give r v h = give_struct go law (sd go law (schema_of_fields fs)) fs give r v h

  mutual
    field_sound :
        {t : FieldType}
        → IsWire t
        → (name : Str) (r : Value) (v : Stored)
        → decode_field go (schema_field_of_type name t) r ≡ ok v
        → HasType t v
    field_sound (Typed.wire_elem (Typed.wire_scalar {k})) name r v h = plain_scalar name k r v h
    field_sound (Typed.wire_elem (Typed.wire_struct {fs} w)) name r v h =
        plain_struct name fs r v (λ raw fm k. fields_sound w raw fm k) h
    field_sound (Typed.wire_optional {t} w) name r v h =
        field_optional name t r v (WireElem-IsElem w) (λ x y k. elem_sound w x y k) h
    field_sound (Typed.wire_list {t} w) name r v h =
        field_list name t r v (WireElem-IsElem w) (λ x y k. elem_sound w x y k) h
    field_sound (Typed.wire_array {k} {n} small) name r v h = field_array name k n r v small h
    field_sound (Typed.wire_map {k} {t} w) name r v h =
        field_map name k t r v (WireElem-IsElem w) (λ x y l. elem_sound w x y l) h
    field_sound (Typed.wire_enum {names}) name r v h = field_enum name names r v h
    field_sound (Typed.wire_sum {vs} w) name r v h =
        field_sum name vs r v (λ tag x y k. arms_sound w tag x y k) h

    elem_sound : {t : FieldType} → WireElem t → GivesElem go (sd go law (elem_schema t)) t
    elem_sound (Typed.wire_scalar {k}) r v h =
        give_scalar go law (sd go law (elem_schema (scalar k))) k r v h
    elem_sound (Typed.wire_struct {fs} w) r v h =
        elem_struct fs (λ raw fm k. fields_sound w raw fm k) r v h

    fields_sound :
        {fs : Fields}
        → AreWire fs
        → (raw : Raw) (fm : Pairs) → decode_fields go (schema_of_fields fs) raw ≡ ok fm
        → HasFields fs fm
    fields_sound Typed.end_of_fields raw fm h =
        subst (HasFields no_fields) (no_fields_inv raw fm h) Typed.none_left
    fields_sound (Typed.one_more {name} {t} {fs} fresh w ws) raw fm h =
        fields_step go law name t fs raw fm fresh (λ r v k. field_sound w name r v k)
          (λ ps k. fields_sound ws raw ps k) h

    arms_sound :
        {vs : Variants}
        → ArmsWire vs
        → (tag : Str) (r : Value) (v : Stored) → decode_arm go (schema_arms vs) tag r ≡ ok v
        → ArmSound go law vs tag v
    arms_sound Typed.end_of_arms tag r v h = no_arms_inv tag r v h
    arms_sound (Typed.one_unit {name} {vs} w) tag r v h =
        unit_step go law name tag vs r v (λ k. arms_sound w tag r v k) h
    arms_sound (Typed.one_arm {name} {t} {vs} w ws) tag r v h =
        arm_step go law name tag t vs r v (λ u k. field_sound w name r u k)
          (λ k. arms_sound ws tag r v k) h

pub decode_fields-HasFields :
    (go : Go) (schema : List Field) (raw : Raw) (fm : Pairs)
    → IsRanged go
    → AreWire (fields_of schema)
    → decode_fields go (schema_fields schema) raw ≡ ok fm
    → HasFields (fields_of schema) fm
decode_fields-HasFields go schema raw fm law w h =
    fields_sound go law w raw fm (sym (decode_fields-tagged go schema raw) ∙ h)

-- A worker that returns what it was given: a message that a worker can decode, for a schema of types
-- that the wire carries, is encoded again, what is sent is JSON, and its decoding gives the field map
-- of the first message, where the strings, keys and tags of the field map are valid UTF-8.
pub encode_fields-decode_fields :
    (floats : Floats) (go : Go) (schema : List Field) (raw : Raw) (fm : Pairs)
    → IsExact floats go
    → IsRanged go
    → AreWire (fields_of schema)
    → decode_fields go (schema_fields schema) raw ≡ ok fm
    → AreTextPairs fm
    → (sent : Entries) × (again : Entries) × (encode_fields go (schema_fields schema) fm ≡ ok sent)
      × (json_entries floats sent ≡ ok again)
      × (decode_fields go (schema_fields schema) (λ k. find_entry k again) ≡ ok fm)
encode_fields-decode_fields floats go schema raw fm exact ranged w h valid =
    decode_fields-encode_fields floats go schema fm exact
      (decode_fields-HasFields go schema raw fm ranged w h) valid
