-- ===== src/Wire/RoundTrip.antt =====
-- A field map of the schema's types comes back from the wire: what `EncodeFieldMap` writes by the
-- schema that the runner sends is read by `DecodeFieldMap` as the same field map.
use mathlib.Core.Path.{subst}
use serify.Wire.Utf8.{AreTextPairs}
use serify.Base.{ap, List, [], ◌∷◌, ◌++◌, ◌≡◌, refl, sym, ◌∙◌, Str, Assoc, lit}
use serify.Kind.{Scalar, spell}
use serify.Conf.{
  Field, no_fields, Entries, FieldType, scalar, optional, list, array, map, struct, enum, sum,
  Fields, field, Variants,
}
use serify.Proto.Encode.{Floats, ok, normalize_entries, json_entries, find_entry}
use serify.Wire.{
  SchemaField, schema_field, schema_name, SchemaFields, then_field, Stored, Stores, Pairs, pair,
}
use serify.Wire.Json.{Go}
use serify.Wire.Decode.{Raw, decode_fields, map_value_type}
use serify.Wire.Encode.{encode_fields}
use serify.Wire.Schema.{type_text, schema_of_fields, schema_fields, with_tags, schema_field_of_type}
use serify.Wire.Scalars
use serify.Wire.Scalars.{IsExact, kind-Trip}
use serify.Wire.Typed
use serify.Wire.Typed.{HasType, HasElem, HasElems, HasPairs, HasFields, HasArm, IsElem}
use serify.Wire.Elems.{scalar-Trip, struct_trip}
use serify.Wire.Sizes.{map_value_type-spell, map_value_type-struct}
use serify.Wire.Slices.{elem_type-text, HasElem-go_type_of}
use serify.Wire.Structs.{TypeTrip, FieldsOk, no_fields_ok, given_ok, missing_ok}
use serify.Wire.Arms.{unit_here_ok, arm_here_ok, past_unit_ok, past-ArmOk}
use serify.Wire.Shapes.{
  ElemOk, ElemsOk, PairsOk, ArmOk, plain_ok, absent_ok, present_ok, list_ok, array_ok, map_ok,
  enum_ok, sum_ok,
}

pub map_value_type-text :
    (k : Scalar) (t : FieldType)
    → IsElem t
    → map_value_type (lit "map<" ++ (spell k ++ b',' ∷ (type_text t ++ lit ">"))) ≡ ok (type_text t)
unfolding type_text
map_value_type-text k (scalar l) h = map_value_type-spell k l
map_value_type-text k (struct fs) h = map_value_type-struct k
map_value_type-text k (optional t) h = absurd h
map_value_type-text k (list t) h = absurd h
map_value_type-text k (array t n) h = absurd h
map_value_type-text k (map l t) h = absurd h
map_value_type-text k (enum names) h = absurd h
map_value_type-text k (sum vs) h = absurd h

module _ (floats : Floats) (go : Go) where
  transport_trip :
      (name : Str) (t : FieldType) (v w : Stored)
      → v ≡ w
      → TypeTrip floats go name t w
      → TypeTrip floats go name t v
  transport_trip name t v w e x = subst (λ u. TypeTrip floats go name t u) (sym e) x

  transport_fields :
      (fs : Fields) (ps qs : Pairs) → ps ≡ qs → FieldsOk floats go fs qs → FieldsOk floats go fs ps
  transport_fields fs ps qs e x = subst (λ u. FieldsOk floats go fs u) (sym e) x

  struct_elem :
      (fs : Fields) (ps : Pairs)
      → FieldsOk floats go fs ps
      → ElemOk floats go (struct fs) (Stored.nested ps)
  unfolding type_text schema_of_fields
  struct_elem fs ps x = struct_trip floats go _ _ ps x.trip

  scalar_elem :
      (k : Scalar) (v : Stored)
      → IsExact floats go
      → Scalars.HasKind k v
      → ElemOk floats go (scalar k) v
  unfolding type_text
  scalar_elem k v law h = scalar-Trip floats go _ _ k v (kind-Trip floats go law h)

  module _ (law : IsExact floats go) where
    mutual
      type_trip :
          {t : FieldType} {v : Stored} → HasType t v → (name : Str) → TypeTrip floats go name t v
      type_trip (Typed.plain h) name = plain_ok floats go name h (elem_ok h)
      type_trip (Typed.absent {t}) name = absent_ok floats go name t
      type_trip (Typed.present h) name = present_ok floats go name h (elem_ok h)
      type_trip {v = v} (Typed.list_value {t} vs i h e) name =
          transport_trip name (list t) v _ e
            (list_ok floats go name t vs (elem_type-text t i) h (elems_ok h))
      type_trip {v = v} (Typed.array_value {k} {n} vs h c small e) name =
          transport_trip name (array (scalar k) n) v _ e
            (array_ok floats go name k n vs small c h (elems_ok h))
      type_trip (Typed.map_value {k} {t} {ps} i h) name =
          map_ok floats go name k t ps (map_value_type-text k t i) (pairs_ok h)
      type_trip (Typed.enum_value {names} {s}) name = enum_ok floats go name names s
      type_trip (Typed.sum_value {vs} {tag} {v} h) name = sum_ok floats go name vs tag v (arm_ok h)

      elem_ok : {t : FieldType} {v : Stored} → HasElem t v → ElemOk floats go t v
      elem_ok (Typed.scalar_value {k} {v} h) = scalar_elem k v law h
      elem_ok (Typed.struct_value {fs} {ps} h) = struct_elem fs ps (fields_ok h)

      elems_ok : {t : FieldType} {vs : Stores} → HasElems t vs → ElemsOk floats go t vs
      elems_ok Typed.no_elems = tt
      elems_ok (Typed.elem h hs) = (elem_ok h, HasElem-go_type_of h, elems_ok hs)

      pairs_ok : {t : FieldType} {ps : Pairs} → HasPairs t ps → PairsOk floats go t ps
      pairs_ok Typed.no_keys = tt
      pairs_ok (Typed.key h hs) = (elem_ok h, pairs_ok hs)

      fields_ok : {fs : Fields} {ps : Pairs} → HasFields fs ps → FieldsOk floats go fs ps
      fields_ok Typed.none_left = no_fields_ok floats go
      fields_ok (Typed.given {name} {t} {fs} {v} {ps} {all} h fresh hs e) =
          transport_fields (field name t fs) all (pair name v ps) e
            (given_ok floats go name t fs fresh v ps hs (type_trip h name) (fields_ok hs))
      fields_ok (Typed.missing {name} {t} {fs} {ps} fresh hs) =
          missing_ok floats go name t fs fresh ps hs (fields_ok hs)

      arm_ok : {vs : Variants} {tag : Str} {v : Stored} → HasArm vs tag v → ArmOk floats go vs tag v
      arm_ok (Typed.unit_here {name} {tag} {vs} h) = unit_here_ok floats go name tag vs h
      arm_ok (Typed.arm_here {name} {tag} {t} {vs} {v} h p) =
          arm_here_ok floats go name tag vs t v h (type_trip p name)
      arm_ok (Typed.past_unit {name} {tag} {vs} {v} h p) =
          past_unit_ok floats go name tag vs v h (arm_ok p)
      arm_ok (Typed.past_arm {name} {tag} {t} {vs} {v} h p) =
          past-ArmOk floats go name tag vs t v h (arm_ok p)

-- The schema as the fields of a struct: the tags do not matter to the wire.
abbrev pub fields_of : List Field → Fields
fields_of [] = no_fields
fields_of (f ∷ fs) = field f.name f.type (fields_of fs)

module _ (go : Go) where
  encode_tagged :
      (tags : Assoc Str) (sf : SchemaField) (rest rest' : SchemaFields) (fm : Pairs)
      → encode_fields go rest fm ≡ encode_fields go rest' fm
      → encode_fields go (then_field (with_tags tags sf) rest) fm
        ≡ encode_fields go (then_field sf rest') fm
  unfolding encode_fields schema_name
  encode_tagged tags (schema_field name typ fields key vs old) rest rest' fm h = rw h

  decode_tagged :
      (tags : Assoc Str) (sf : SchemaField) (rest rest' : SchemaFields) (raw : Raw)
      → decode_fields go rest raw ≡ decode_fields go rest' raw
      → decode_fields go (then_field (with_tags tags sf) rest) raw
        ≡ decode_fields go (then_field sf rest') raw
  unfolding decode_fields schema_name
  decode_tagged tags (schema_field name typ fields key vs old) rest rest' raw h = rw h

  pub encode_fields-tagged :
      (schema : List Field) (fm : Pairs)
      → encode_fields go (schema_fields schema) fm
        ≡ encode_fields go (schema_of_fields (fields_of schema)) fm
  unfolding schema_fields schema_of_fields
  encode_fields-tagged [] fm = refl
  encode_fields-tagged (f ∷ fs) fm =
      encode_tagged f.tags (schema_field_of_type f.name f.type) (schema_fields fs)
        (schema_of_fields (fields_of fs)) fm (encode_fields-tagged fs fm)

  pub decode_fields-tagged :
      (schema : List Field) (raw : Raw)
      → decode_fields go (schema_fields schema) raw
        ≡ decode_fields go (schema_of_fields (fields_of schema)) raw
  unfolding schema_fields schema_of_fields
  decode_fields-tagged [] raw = refl
  decode_fields-tagged (f ∷ fs) raw =
      decode_tagged f.tags (schema_field_of_type f.name f.type) (schema_fields fs)
        (schema_of_fields (fields_of fs)) raw (decode_fields-tagged fs raw)

pub decode_fields-encode_fields :
    (floats : Floats) (go : Go) (schema : List Field) (fm : Pairs)
    → IsExact floats go
    → HasFields (fields_of schema) fm
    → AreTextPairs fm
    → (sent : Entries) × (raw : Entries) × (encode_fields go (schema_fields schema) fm ≡ ok sent)
      × (json_entries floats sent ≡ ok raw)
      × (decode_fields go (schema_fields schema) (λ k. find_entry k raw) ≡ ok fm)
unfolding json_entries
decode_fields-encode_fields floats go schema fm law h valid =
    let x = fields_ok floats go law h in
    let e = encode_fields-tagged go schema fm ∙ x.trip.encodes in
    (
      x.trip.sent,
      x.trip.raw,
      e,
      ap (normalize_entries floats) (x.trip.clean valid) ∙ x.trip.travels,
      decode_fields-tagged go schema (λ k. find_entry k x.trip.raw) ∙ x.trip.decodes,
    )
