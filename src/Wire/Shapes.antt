-- ===== src/Wire/Shapes.antt =====
-- A value of each form of type travels, where its elements do.
use serify.Wire.Utf8.{IsText}
use serify.Proto.Encode.{utf8_value}
use serify.Base.{
  ℕ, ◌<◌, ◌^◌, pos, some, List, ◌∷◌, ◌++◌, ◌≡◌, refl, sym, ap, ◌∙◌, Str, lit, decimal, str_eq,
  ==_iff,
}
use serify.Kind.{Scalar, spell}
use serify.Conf.{
  Value, null, string, object, Entries, no_entries, entry, FieldType, scalar, optional, list, array,
  map, enum, sum, Variants,
}
use serify.Proto.Encode.{Floats, Encoded, ok, ◌>>=◌, normalize}
use serify.Wire.{
  Stored, nil, text, go_map, variant_of, Stores, Pairs, SchemaFields, no_schema, no_schema_variants,
  kind_of,
}
use serify.Wire.Json.{Go, as_object}
use serify.Wire.Decode.{
  decode_field, decode_fields, decode_arm, decode_scalar, decode_optional, decode_list,
  decode_array, decode_map, decode_sum, collect_map, array_elem_type, array_len, map_value_type,
  elem_type, make_slice, scalar_type, count_stores, slice_len, single, Raw,
}
use serify.Wire.Encode.{
  encode_field, encode_fields, encode_arm, encode_scalar, encode_optional, encode_list, encode_kind,
  encode_sum, as_any,
}
use serify.Wire.Schema.{type_text, schema_field_of_type, schema_of_fields, schema_arms, elem_schema}
use serify.Wire.Scalars
use serify.Wire.Scalars.{HasKind, Trip, NonNull, is_null}
use serify.Wire.Typed
use serify.Wire.Typed.{HasType, HasElem, HasElems, elem_go}
use serify.Wire.Elems.{
  ElemTrip, ElemTrips, PairTrips, elems_trip, pairs_trip, list_trip, normalize-object,
  normalize_entries-entry, elem_type-spell,
}
use serify.Wire.Forms
use serify.Wire.Sizes.{array_elem_type-spell, array_len-decimal}
use serify.Wire.Slices.{elements-make_slice, slice_len-make_slice}
use serify.Wire.Structs.{TypeTrip}

utf8_variant :
    (tag : Str) (v : Stored) (sent : Value)
    → (IsText v → utf8_value sent ≡ sent)
    → IsText (variant_of tag v)
    → utf8_value (object (entry tag sent no_entries)) ≡ object (entry tag sent no_entries)
unfolding utf8_value IsText
utf8_variant tag v sent clean c = rw (c.0, clean c.1) refl

module _ (floats : Floats) (go : Go) where
  abbrev se : SchemaFields → Pairs → Encoded Entries
  se fs ps = encode_fields go fs ps

  abbrev sd : SchemaFields → Raw → Encoded Pairs
  sd fs raw = decode_fields go fs raw

  abbrev ae : Str → Stored → Encoded Value
  ae tag v = encode_arm go no_schema_variants tag v

  abbrev ad : Str → Value → Encoded Stored
  ad tag r = decode_arm go no_schema_variants tag r

  abbrev pub ElemOk : FieldType → Stored → Type 0
  ElemOk t v =
      ElemTrip floats go (λ ps. encode_fields go (elem_schema t) ps)
        (λ raw. decode_fields go (elem_schema t) raw) (type_text t) v

  -- The same trip by other names of its ends.
  retarget :
      {P : Value → Type 0} (e e' : Encoded Value) (d d' : Value → Encoded Stored) (v : Stored)
      (t : Trip floats P e d v)
      → e' ≡ e
      → d' t.raw ≡ d t.raw
      → Trip floats (λ _. Unit) e' d' v
  retarget e e' d d' v t p q = record {
    sent = t.sent;
    raw = t.raw;
    encodes = p ∙ t.encodes;
    travels = t.travels;
    decodes = q ∙ t.decodes;
    shape = tt;
    clean = t.clean;
  }

  pub plain_ok :
      {t : FieldType} {v : Stored} (name : Str)
      → HasElem t v
      → ElemOk t v
      → TypeTrip floats go name t v
  unfolding encode_field decode_field schema_field_of_type type_text elem_schema
  plain_ok {v = v} name (Typed.scalar_value {k} h) x =
      retarget _ _ _ _ v x (Forms.encode_typed-spell go (se no_schema) ae k v)
        (Forms.decode_typed-spell go (sd no_schema) ad name k x.raw)
  plain_ok {v = v} name (Typed.struct_value {fs} h) x =
      retarget _ _ _ _ v x (Forms.encode_typed-struct go (se (schema_of_fields fs)) ae v)
        (Forms.decode_typed-struct go (sd (schema_of_fields fs)) ad name x.raw)

  pub absent_ok : (name : Str) (t : FieldType) → TypeTrip floats go name (optional t) nil
  unfolding encode_field decode_field schema_field_of_type type_text
  absent_ok name t = record {
    sent = null;
    raw = null;
    encodes =
        Forms.encode_typed-optional go (se (elem_schema t)) ae (type_text t) nil
        ∙ unfold encode_optional in refl;
    travels = unfold normalize in refl;
    decodes =
        Forms.decode_typed-optional go (sd (elem_schema t)) ad name (type_text t) null
        ∙ unfold decode_optional in refl;
    shape = tt;
    clean = λ c. unfold utf8_value in refl;
  }

  encode_optional-elem :
      {t : FieldType} {v : Stored} (sub : Pairs → Encoded Entries)
      → HasElem t v
      → encode_optional go sub (type_text t) v ≡ encode_scalar go sub (type_text t) v
  unfolding encode_optional encode_scalar encode_kind type_text kind_of spell lit str_eq as_any
  encode_optional-elem sub (Typed.scalar_value (Scalars.is_uint8 n h)) = refl
  encode_optional-elem sub (Typed.scalar_value _) = refl
  encode_optional-elem sub (Typed.struct_value h) = refl

  decode_optional-elem :
      {t : FieldType} {v : Stored} (sub : Raw → Encoded Pairs) (r : Value)
      → HasElem t v
      → NonNull r
      → decode_optional go sub (type_text t) r ≡ decode_scalar go sub (type_text t) r
  unfolding type_text
  decode_optional-elem sub r (Typed.scalar_value {k} h) n = Forms.decode_optional-spell go sub k r n
  decode_optional-elem sub r (Typed.struct_value h) n = Forms.decode_optional-struct go sub r n

  pub present_ok :
      {t : FieldType} {v : Stored} (name : Str)
      → HasElem t v
      → ElemOk t v
      → TypeTrip floats go name (optional t) v
  unfolding encode_field decode_field schema_field_of_type type_text
  present_ok {t} {v} name h x =
      retarget _ _ _ _ v x
        (Forms.encode_typed-optional go (se (elem_schema t)) ae (type_text t) v
          ∙ encode_optional-elem _ h)
        (Forms.decode_typed-optional go (sd (elem_schema t)) ad name (type_text t) x.raw
          ∙ decode_optional-elem (sd (elem_schema t)) x.raw h x.shape)

  abbrev pub ElemsOk : FieldType → Stores → Type 0
  ElemsOk t vs =
      ElemTrips floats go (λ ps. encode_fields go (elem_schema t) ps)
        (λ raw. decode_fields go (elem_schema t) raw) (elem_go t) (type_text t) vs

  -- The slice of the elements, for the name of an element type.
  slice-Trip :
      (t : FieldType) (vs : Stores)
      → elem_type (type_text t) ≡ some (elem_go t)
      → HasElems t vs
      → ElemsOk t vs
      → Trip floats NonNull
          (encode_list go
            (λ ps. encode_fields go (elem_schema t) ps)
            (type_text t)
            (make_slice (elem_go t) vs))
          (λ r. decode_list go (λ raw. decode_fields go (elem_schema t) raw) (type_text t) r)
          (make_slice (elem_go t) vs)
  slice-Trip t vs e h xs =
      list_trip floats go _ _ (elem_go t) (type_text t) vs e (elements-make_slice t vs h)
        (elems_trip floats go _ _ (elem_go t) (type_text t) 0 vs xs)

  pub list_ok :
      (name : Str) (t : FieldType) (vs : Stores)
      → elem_type (type_text t) ≡ some (elem_go t)
      → HasElems t vs
      → ElemsOk t vs
      → TypeTrip floats go name (list t) (make_slice (elem_go t) vs)
  unfolding encode_field decode_field schema_field_of_type type_text
  list_ok name t vs e h xs =
      let x = slice-Trip t vs e h xs in
      retarget _ _ _ _ _ x
        (Forms.encode_typed-list go (se (elem_schema t)) ae (type_text t)
          (make_slice (elem_go t) vs))
        (Forms.decode_typed-list go (sd (elem_schema t)) ad name (type_text t) x.raw)

  decode_array-len :
      (sub : Raw → Encoded Pairs) (name typ inner : Str) (n : ℕ) (r : Value) (v : Stored)
      → array_elem_type typ ≡ ok inner
      → array_len typ ≡ some (pos n)
      → decode_list go sub inner r ≡ ok v
      → slice_len v ≡ n
      → decode_array go sub name typ r ≡ ok v
  unfolding decode_array
  decode_array-len sub name typ inner n r v e l d c =
      rw (e, d, l, decode_array) (rw (c, (==_iff n n).1 refl))

  abbrev array_text : Scalar → ℕ → Str
  array_text k n = lit "array<" ++ (spell k ++ b',' ∷ (decimal n ++ lit ">"))

  -- An array of scalars whose length is the one of its type.
  pub array_ok :
      (name : Str) (k : Scalar) (n : ℕ) (vs : Stores)
      → n < 2 ^ 63
      → count_stores vs ≡ n
      → HasElems (scalar k) vs
      → ElemsOk (scalar k) vs
      → TypeTrip floats go name (array (scalar k) n) (make_slice (scalar_type k) vs)
  unfolding encode_field decode_field schema_field_of_type type_text elem_schema
  array_ok name k n vs small c h xs =
      let x = slice-Trip (scalar k) vs (elem_type-spell k) h xs in
      retarget _ _ _ _ _ x
        (Forms.encode_typed-array go (se no_schema) ae _ (make_slice (scalar_type k) vs)
          ∙ ap
              (λ e.
                e >>= λ elem. encode_list go (se no_schema) elem (make_slice (scalar_type k) vs))
              (array_elem_type-spell k n))
        (Forms.decode_typed-array go (sd no_schema) ad name _ x.raw
          ∙ decode_array-len (sd no_schema) name (array_text k n) (spell k) n x.raw _
              (array_elem_type-spell k n) (array_len-decimal (spell k) n small) x.decodes
              (slice_len-make_slice k vs h ∙ c)
          ∙ sym x.decodes)

  abbrev pub PairsOk : FieldType → Pairs → Type 0
  PairsOk t ps =
      PairTrips floats go (λ ps. encode_fields go (elem_schema t) ps)
        (λ raw. decode_fields go (elem_schema t) raw) (type_text t) ps

  abbrev map_text : Scalar → FieldType → Str
  map_text k t = lit "map<" ++ (spell k ++ b',' ∷ (type_text t ++ lit ">"))

  decode_map-values :
      (sub : Raw → Encoded Pairs) (typ inner : Str) (es : Entries) (ps : Pairs)
      → map_value_type typ ≡ ok inner
      → collect_map go sub inner es ≡ ok ps
      → decode_map go sub typ (object es) ≡ ok (go_map ps)
  unfolding decode_map as_object
  decode_map-values sub typ inner es ps e h = rw e (rw h)

  pub map_ok :
      (name : Str) (k : Scalar) (t : FieldType) (ps : Pairs)
      → map_value_type (map_text k t) ≡ ok (type_text t)
      → PairsOk t ps
      → TypeTrip floats go name (map (scalar k) t) (go_map ps)
  unfolding encode_field decode_field schema_field_of_type type_text
  map_ok name k t ps e xs =
      let x = pairs_trip floats go (se (elem_schema t)) (sd (elem_schema t)) (type_text t) ps xs in
      record {
        sent = object x.sent;
        raw = object x.raw;
        encodes = Forms.encode_typed-map go (se (elem_schema t)) ae _ ps ∙ rw e (rw x.encodes);
        travels = normalize-object floats x.sent x.raw x.travels;
        decodes =
            Forms.decode_typed-map go (sd (elem_schema t)) ad name _ (object x.raw)
            ∙ decode_map-values (sd (elem_schema t)) (map_text k t) (type_text t) x.raw ps e
                x.decodes;
        shape = tt;
        clean = λ c. unfold utf8_value in ap object (x.clean (unfold IsText in c));
      }

  pub enum_ok :
      (name : Str) (names : List Str) (s : Str) → TypeTrip floats go name (enum names) (text s)
  unfolding encode_field decode_field schema_field_of_type type_text
  enum_ok name names s = record {
    sent = string s;
    raw = string s;
    encodes = Forms.encode_typed-enum go (se no_schema) ae _ s;
    travels = unfold normalize in refl;
    decodes = Forms.decode_typed-enum go (sd no_schema) ad name _ s;
    shape = tt;
    clean = λ c. unfold utf8_value in ap string (unfold IsText in c);
  }

  -- The variant of a sum that has the tag, with its payload.
  pub record ArmOk (vs : Variants) (tag : Str) (v : Stored) : Type 0 where
    pub sent : Value
    pub raw : Value
    pub encodes : encode_arm go (schema_arms vs) tag v ≡ ok (object (entry tag sent no_entries))
    pub travels : normalize floats sent ≡ ok raw
    pub decodes : decode_arm go (schema_arms vs) tag raw ≡ ok (variant_of tag v)
    pub clean : IsText v → utf8_value sent ≡ sent

  pub sum_ok :
      (name : Str) (vs : Variants) (tag : Str) (v : Stored)
      → ArmOk vs tag v
      → TypeTrip floats go name (sum vs) (variant_of tag v)
  unfolding encode_field decode_field schema_field_of_type type_text
  sum_ok name vs tag v x = record {
    sent = object (entry tag x.sent no_entries);
    raw = object (entry tag x.raw no_entries);
    encodes =
        Forms.encode_typed-sum go (se no_schema) (λ tag v. encode_arm go (schema_arms vs) tag v) _ _
        ∙ unfold encode_sum in x.encodes;
    travels = normalize-object floats _ _ (
        normalize_entries-entry floats tag x.sent x.raw no_entries no_entries x.travels
          (unfold normalize in refl));
    decodes =
        Forms.decode_typed-sum go (sd no_schema) (λ tag r. decode_arm go (schema_arms vs) tag r)
          name _ (object (entry tag x.raw no_entries))
        ∙ unfold decode_sum as_object single in x.decodes;
    shape = tt;
    clean = utf8_variant tag v x.sent x.clean;
  }
