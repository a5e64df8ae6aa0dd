-- ===== src/Wire/Arms.antt =====
-- The variants of a sum travel: the first one of the tag.
use serify.Proto.Encode.{utf8_value}
use serify.Base.{true, false, ◌≡◌, refl, ◌∙◌, Str, str_eq}
use serify.Conf.{Value, null, object, no_entries, entry, FieldType, Variants, unit_variant, variant}
use serify.Proto.Encode.{Floats, ok, normalize}
use serify.Wire.{SchemaField, SchemaVariants, unit_arm, arm, Stored, nil, variant_of}
use serify.Wire.Json.{Go}
use serify.Wire.Decode.{decode_field, decode_arm}
use serify.Wire.Encode.{encode_field, encode_arm}
use serify.Wire.Schema.{schema_field_of_type, schema_arms}
use serify.Wire.Structs.{TypeTrip}
use serify.Wire.Shapes.{ArmOk}

module _ (go : Go) (name tag : Str) (vs : SchemaVariants) where
  encode_unit :
      (v : Stored)
      → str_eq name tag ≡ true
      → encode_arm go (unit_arm name vs) tag v ≡ ok (object (entry tag null no_entries))
  unfolding encode_arm
  encode_unit v h = rw h

  pub decode_unit :
      (r : Value)
      → str_eq name tag ≡ true
      → decode_arm go (unit_arm name vs) tag r ≡ ok (variant_of tag nil)
  unfolding decode_arm
  decode_unit r h = rw h

  encode_payload :
      (sf : SchemaField) (v : Stored) (s : Value)
      → str_eq name tag ≡ true
      → encode_field go sf v ≡ ok s
      → encode_arm go (arm name sf vs) tag v ≡ ok (object (entry tag s no_entries))
  unfolding encode_arm
  encode_payload sf v s h e = rw (h, e)

  decode_payload :
      (sf : SchemaField) (r : Value) (v : Stored)
      → str_eq name tag ≡ true
      → decode_field go sf r ≡ ok v
      → decode_arm go (arm name sf vs) tag r ≡ ok (variant_of tag v)
  unfolding decode_arm
  decode_payload sf r v h e = rw (h, e)

  encode_past_unit :
      (v : Stored)
      → str_eq name tag ≡ false
      → encode_arm go (unit_arm name vs) tag v ≡ encode_arm go vs tag v
  unfolding encode_arm
  encode_past_unit v h = rw h

  pub decode_past_unit :
      (r : Value)
      → str_eq name tag ≡ false
      → decode_arm go (unit_arm name vs) tag r ≡ decode_arm go vs tag r
  unfolding decode_arm
  decode_past_unit r h = rw h

  encode_past_arm :
      (sf : SchemaField) (v : Stored)
      → str_eq name tag ≡ false
      → encode_arm go (arm name sf vs) tag v ≡ encode_arm go vs tag v
  unfolding encode_arm
  encode_past_arm sf v h = rw h

  pub decode_past_arm :
      (sf : SchemaField) (r : Value)
      → str_eq name tag ≡ false
      → decode_arm go (arm name sf vs) tag r ≡ decode_arm go vs tag r
  unfolding decode_arm
  decode_past_arm sf r h = rw h

module _ (floats : Floats) (go : Go) (name tag : Str) (vs : Variants) where
  pub unit_here_ok : str_eq name tag ≡ true → ArmOk floats go (unit_variant name vs) tag nil
  unfolding schema_arms
  unit_here_ok h = record {
    sent = null;
    raw = null;
    encodes = encode_unit go name tag (schema_arms vs) nil h;
    travels = unfold normalize in refl;
    decodes = decode_unit go name tag (schema_arms vs) null h;
    clean = λ c. unfold utf8_value in refl;
  }

  pub arm_here_ok :
      (t : FieldType) (v : Stored)
      → str_eq name tag ≡ true
      → TypeTrip floats go name t v
      → ArmOk floats go (variant name t vs) tag v
  unfolding schema_arms
  arm_here_ok t v h x = record {
    sent = x.sent;
    raw = x.raw;
    encodes =
        encode_payload go name tag (schema_arms vs) (schema_field_of_type name t) v x.sent h
          x.encodes;
    travels = x.travels;
    clean = x.clean;
    decodes =
        decode_payload go name tag (schema_arms vs) (schema_field_of_type name t) x.raw v h
          x.decodes;
  }

  pub past_unit_ok :
      (v : Stored)
      → str_eq name tag ≡ false
      → ArmOk floats go vs tag v
      → ArmOk floats go (unit_variant name vs) tag v
  unfolding schema_arms
  past_unit_ok v h x = record {
    sent = x.sent;
    raw = x.raw;
    encodes = encode_past_unit go name tag (schema_arms vs) v h ∙ x.encodes;
    travels = x.travels;
    clean = x.clean;
    decodes = decode_past_unit go name tag (schema_arms vs) x.raw h ∙ x.decodes;
  }

  pub past-ArmOk :
      (t : FieldType) (v : Stored)
      → str_eq name tag ≡ false
      → ArmOk floats go vs tag v
      → ArmOk floats go (variant name t vs) tag v
  unfolding schema_arms
  past-ArmOk t v h x = record {
    sent = x.sent;
    raw = x.raw;
    encodes =
        encode_past_arm go name tag (schema_arms vs) (schema_field_of_type name t) v h ∙ x.encodes;
    travels = x.travels;
    clean = x.clean;
    decodes =
        decode_past_arm go name tag (schema_arms vs) (schema_field_of_type name t) x.raw h
        ∙ x.decodes;
  }
