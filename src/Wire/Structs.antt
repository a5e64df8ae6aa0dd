-- ===== src/Wire/Structs.antt =====
-- The fields of a struct travel: one that is given, one that is missing.
use serify.Wire.Utf8.{IsText}
use serify.Proto.Encode.{utf8_value}
use serify.Base.{false, none, some, ◌≡◌, refl, ap, ◌∙◌, Str, str_eq, str_eq_refl}
use serify.Conf.{Value, Entries, no_entries, entry, FieldType, Fields, no_fields, field}
use serify.Proto.Encode.{Floats, Encoded, ok, normalize, find_entry}
use serify.Wire.{
  SchemaField, SchemaFields, then_field, Stored, Pairs, no_pairs, pair, find_pair, add_missing,
  schema_name,
}
use serify.Wire.Json.{Go}
use serify.Wire.Decode.{Raw, decode_field, decode_fields, decode_given}
use serify.Wire.Encode.{encode_field, encode_fields, encode_given, add_entry}
use serify.Wire.Schema.{schema_field_of_type, schema_of_fields}
use serify.Wire.Scalars.{Trip}
use serify.Wire.Typed.{HasFields, IsFresh}
use serify.Wire.Elems.{FieldsTrip, normalize_entries-entry}
use serify.Wire.Fresh.{
  find_pair-fresh, encode_fields-fresh, decode_fields-fresh, encode_none, decode_none,
  schema_name_of_type,
}

add_entry_new :
    (name : Str) (s : Value) (es : Entries)
    → find_entry name es ≡ none
    → add_entry name s es ≡ entry name s es
unfolding add_entry
add_entry_new name s es f = rw (f, add_entry)

pub add_missing_new :
    (name : Str) (v : Stored) (fm : Pairs)
    → find_pair name fm ≡ none
    → add_missing name v fm ≡ pair name v fm
unfolding add_missing
add_missing_new name v fm f = rw (f, add_missing)

encode_given-some :
    (name : Str) (v : Stored) (enc : Stored → Encoded Value) (more : Encoded Entries) (s : Value)
    (es : Entries)
    → enc v ≡ ok s
    → more ≡ ok es
    → find_entry name es ≡ none
    → encode_given name (some v) enc more ≡ ok (entry name s es)
unfolding encode_given
encode_given-some name v enc more s es h k f = rw (h, k) (ap ok (add_entry_new name s es f))

decode_given-some :
    (name : Str) (r : Value) (dec : Value → Encoded Stored) (more : Encoded Pairs) (v : Stored)
    (fm : Pairs)
    → dec r ≡ ok v
    → more ≡ ok fm
    → find_pair name fm ≡ none
    → decode_given name (some r) dec more ≡ ok (pair name v fm)
unfolding decode_given
decode_given-some name r dec more v fm h k f = rw (h, k) (ap ok (add_missing_new name v fm f))

encode_first :
    (go : Go) (sf : SchemaField) (rest : SchemaFields) (fm : Pairs) (name : Str)
    → schema_name sf ≡ name
    → encode_fields go (then_field sf rest) fm
      ≡ encode_given name (find_pair name fm) (encode_field go sf) (encode_fields go rest fm)
unfolding encode_fields
encode_first go sf rest fm name e = rw e

decode_first :
    (go : Go) (sf : SchemaField) (rest : SchemaFields) (raw : Raw) (name : Str)
    → schema_name sf ≡ name
    → decode_fields go (then_field sf rest) raw
      ≡ decode_given name (raw name) (decode_field go sf) (decode_fields go rest raw)
unfolding decode_fields
decode_first go sf rest raw name e = rw e

find_pair_self : (name : Str) (v : Stored) (ps : Pairs) → find_pair name (pair name v ps) ≡ some v
unfolding find_pair
find_pair_self name v ps = rw (str_eq_refl name)

find_entry_self :
    (name : Str) (r : Value) (es : Entries) → find_entry name (entry name r es) ≡ some r
unfolding find_entry
find_entry_self name r es = rw (str_eq_refl name)

find_entry_other :
    (name other : Str) (r : Value) (es : Entries)
    → str_eq other name ≡ false
    → find_entry name es ≡ none
    → find_entry name (entry other r es) ≡ none
unfolding find_entry
find_entry_other name other r es h k = rw (h, k)

module _ (go : Go) (name : Str) (t : FieldType) (fs : Fields) where
  encode_next :
      (fm : Pairs)
      → encode_fields go (schema_of_fields (field name t fs)) fm
        ≡ encode_given name
            (find_pair name fm)
            (encode_field go (schema_field_of_type name t))
            (encode_fields go (schema_of_fields fs) fm)
  unfolding schema_of_fields
  encode_next fm =
      encode_first go (schema_field_of_type name t) (schema_of_fields fs) fm name
        (schema_name_of_type name t)

  pub decode_next :
      (raw : Raw)
      → decode_fields go (schema_of_fields (field name t fs)) raw
        ≡ decode_given name
            (raw name)
            (decode_field go (schema_field_of_type name t))
            (decode_fields go (schema_of_fields fs) raw)
  unfolding schema_of_fields
  decode_next raw =
      decode_first go (schema_field_of_type name t) (schema_of_fields fs) raw name
        (schema_name_of_type name t)

module _ (floats : Floats) (go : Go) where
  abbrev pub TypeTrip : Str → FieldType → Stored → Type 0
  TypeTrip name t v =
      Trip floats (λ _. Unit) (encode_field go (schema_field_of_type name t) v)
        (λ r. decode_field go (schema_field_of_type name t) r) v

  -- The fields travel, and nothing travels under any other name.
  pub record FieldsOk (fs : Fields) (fm : Pairs) : Type 0 where
    pub trip :
        FieldsTrip floats go
          (λ ps. encode_fields go (schema_of_fields fs) ps)
          (λ raw. decode_fields go (schema_of_fields fs) raw)
          fm
    pub unsent : (name : Str) → IsFresh name fs → find_entry name trip.sent ≡ none
    pub unread : (name : Str) → IsFresh name fs → find_entry name trip.raw ≡ none

  pub no_fields_ok : FieldsOk no_fields no_pairs
  unfolding schema_of_fields find_entry normalize utf8_value IsText
  no_fields_ok = record {
    trip = record {
      sent = no_entries;
      raw = no_entries;
      encodes = encode_none go no_pairs;
      travels = refl;
      decodes = decode_none go _;
      clean = λ c. refl;
    };
    unsent = λ name h. refl;
    unread = λ name h. refl;
  }

  module _ (name : Str) (t : FieldType) (fs : Fields) (fresh : IsFresh name fs) where
    -- A field that the map has.
    pub given_ok :
        (v : Stored) (ps : Pairs)
        → HasFields fs ps
        → TypeTrip name t v
        → FieldsOk fs ps
        → FieldsOk (field name t fs) (pair name v ps)
    unfolding utf8_value IsText
    given_ok v ps typed x rest = record {
      trip = record {
        sent = entry name x.sent rest.trip.sent;
        raw = entry name x.raw rest.trip.raw;
        encodes =
            encode_next go name t fs (pair name v ps)
            ∙ ap
                (λ o.
                  encode_given name o (encode_field go (schema_field_of_type name t))
                    (encode_fields go (schema_of_fields fs) (pair name v ps)))
                (find_pair_self name v ps)
            ∙ encode_given-some name v _ _ x.sent rest.trip.sent x.encodes
                (encode_fields-fresh go fs name v ps fresh ∙ rest.trip.encodes)
                (rest.unsent name fresh);
        travels =
            normalize_entries-entry floats name x.sent x.raw rest.trip.sent rest.trip.raw x.travels
              rest.trip.travels;
        decodes =
            decode_next go name t fs (λ k. find_entry k (entry name x.raw rest.trip.raw))
            ∙ ap
                (λ o. decode_given name o (decode_field go (schema_field_of_type name t)) (
                  decode_fields go (schema_of_fields fs)
                    (λ k. find_entry k (entry name x.raw rest.trip.raw))))
                (find_entry_self name x.raw rest.trip.raw)
            ∙ decode_given-some name x.raw _ _ v ps x.decodes
                (decode_fields-fresh go fs name x.raw rest.trip.raw fresh ∙ rest.trip.decodes)
                (find_pair-fresh name fresh typed);
        clean = λ c. rw (c.0, x.clean c.1, rest.trip.clean c.2) refl;
      };
      unsent =
          λ other h. find_entry_other other name x.sent rest.trip.sent h.0 (rest.unsent other h.1);
      unread =
          λ other h. find_entry_other other name x.raw rest.trip.raw h.0 (rest.unread other h.1);
    }

    -- A field that the map lacks.
    pub missing_ok : (ps : Pairs) → HasFields fs ps → FieldsOk fs ps → FieldsOk (field name t fs) ps
    unfolding encode_given decode_given
    missing_ok ps typed rest = record {
      trip = record {
        sent = rest.trip.sent;
        raw = rest.trip.raw;
        encodes =
            encode_next go name t fs ps ∙ rw (find_pair-fresh name fresh typed) rest.trip.encodes;
        travels = rest.trip.travels;
        decodes =
            decode_next go name t fs (λ k. find_entry k rest.trip.raw)
            ∙ rw (rest.unread name fresh) rest.trip.decodes;
        clean = rest.trip.clean;
      };
      unsent = λ other h. rest.unsent other h.1;
      unread = λ other h. rest.unread other h.1;
    }
