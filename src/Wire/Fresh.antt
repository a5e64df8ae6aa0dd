-- ===== src/Wire/Fresh.antt =====
-- The fields of a struct do not disturb each other: a pair under another name is not read.
use serify.Base.{false, none, ◌≡◌, refl, ap, sym, ◌∙◌, arith, Str, str_eq, str_eq_iff}
use serify.Conf.{Value, FieldType, scalar, Fields, no_fields, field, Entries, no_entries, entry}
use serify.Proto.Encode.{ok, find_entry}
use serify.Wire.{
  SchemaField, SchemaFields, no_schema, then_field, schema_name, Stored, Pairs, no_pairs, pair,
  find_pair,
}
use serify.Wire.Json.{Go}
use serify.Wire.Decode.{Raw, decode_fields}
use serify.Wire.Encode.{encode_fields}
use serify.Wire.Schema.{schema_of_fields, schema_field_of_type}
use serify.Wire.Typed.{IsFresh, HasFields, none_left, given, missing}

pub str_eq-false_comm : (a b : Str) → str_eq a b ≡ false → str_eq b a ≡ false
str_eq-false_comm a b h = ground (arith, str_eq_iff a b, str_eq_iff b a)

pub schema_name_of_type :
    (name : Str) (t : FieldType) → schema_name (schema_field_of_type name t) ≡ name
unfolding schema_field_of_type schema_name
schema_name_of_type name (scalar k) = refl
schema_name_of_type name _ = refl

pub find_pair-fresh :
    {fs : Fields} {ps : Pairs} (name : Str)
    → IsFresh name fs
    → HasFields fs ps
    → find_pair name ps ≡ none
unfolding find_pair
find_pair-fresh name h none_left = refl
find_pair-fresh name h (given t fresh rest e) =
    ap (find_pair name) e ∙ rw (h.0) (find_pair-fresh name h.1 rest)
find_pair-fresh name h (missing fresh rest) = find_pair-fresh name h.1 rest

skip_pair :
    (other name : Str) (v : Stored) (ps : Pairs)
    → str_eq other name ≡ false
    → find_pair other (pair name v ps) ≡ find_pair other ps
unfolding find_pair
skip_pair other name v ps h = rw (str_eq-false_comm other name h)

skip_entry :
    (other name : Str) (r : Value) (es : Entries)
    → str_eq other name ≡ false
    → find_entry other (entry name r es) ≡ find_entry other es
unfolding find_entry
skip_entry other name r es h = rw (str_eq-false_comm other name h)

module _ (go : Go) where
  encode_step :
      (sf : SchemaField) (rest : SchemaFields) (fm fm' : Pairs) (name : Str)
      → schema_name sf ≡ name
      → find_pair name fm ≡ find_pair name fm'
      → encode_fields go rest fm ≡ encode_fields go rest fm'
      → encode_fields go (then_field sf rest) fm ≡ encode_fields go (then_field sf rest) fm'
  unfolding encode_fields
  encode_step sf rest fm fm' name e h k = rw (e, h, k)

  decode_step :
      (sf : SchemaField) (rest : SchemaFields) (raw raw' : Raw) (name : Str)
      → schema_name sf ≡ name
      → raw name ≡ raw' name
      → decode_fields go rest raw ≡ decode_fields go rest raw'
      → decode_fields go (then_field sf rest) raw ≡ decode_fields go (then_field sf rest) raw'
  unfolding decode_fields
  decode_step sf rest raw raw' name e h k = rw (e, h, k)

  pub encode_none : (fm : Pairs) → encode_fields go no_schema fm ≡ ok no_entries
  unfolding encode_fields
  encode_none fm = refl

  pub decode_none : (raw : Raw) → decode_fields go no_schema raw ≡ ok no_pairs
  unfolding decode_fields
  decode_none raw = refl

  pub encode_fields-fresh :
      (fs : Fields) (name : Str) (v : Stored) (ps : Pairs)
      → IsFresh name fs
      → encode_fields go (schema_of_fields fs) (pair name v ps)
        ≡ encode_fields go (schema_of_fields fs) ps
  unfolding schema_of_fields
  encode_fields-fresh no_fields name v ps h = encode_none _ ∙ sym (encode_none ps)
  encode_fields-fresh (field other t fs) name v ps h =
      encode_step (schema_field_of_type other t) (schema_of_fields fs) (pair name v ps) ps other
        (schema_name_of_type other t) (skip_pair other name v ps h.0)
        (encode_fields-fresh fs name v ps h.1)

  pub decode_fields-fresh :
      (fs : Fields) (name : Str) (r : Value) (es : Entries)
      → IsFresh name fs
      → decode_fields go (schema_of_fields fs) (λ k. find_entry k (entry name r es))
        ≡ decode_fields go (schema_of_fields fs) (λ k. find_entry k es)
  unfolding schema_of_fields
  decode_fields-fresh no_fields name r es h = decode_none _ ∙ sym (decode_none _)
  decode_fields-fresh (field other t fs) name r es h =
      decode_step (schema_field_of_type other t) (schema_of_fields fs)
        (λ k. find_entry k (entry name r es)) (λ k. find_entry k es) other
        (schema_name_of_type other t) (skip_entry other name r es h.0)
        (decode_fields-fresh fs name r es h.1)
