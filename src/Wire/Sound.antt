-- ===== src/Wire/Sound.antt =====
-- The decoding of each form of type gives only values of the type, where that of its elements does.
use mathlib.Core.Path.{subst}
use serify.Base.{
  ℕ, ◌<◌, ◌^◌, pos, true, false, Option, none, some, ◌≡◌, refl, sym, ap, ◌∙◌, inl, inr, Bool-cases,
  Str, lit, str_eq, ◌⊎◌, ◌==◌, ==_iff,
}
use serify.Kind.{Scalar, spell}
use serify.Conf.{
  Value, null, Entries, no_entries, entry, FieldType, scalar, optional, list, array, map, struct,
  enum, sum, Fields, field, Variants, unit_variant, variant,
}
use serify.Proto.Encode.{Encoded, ok, wrap, find_entry}
use serify.Wire.{
  Stored, nil, nested, go_map, variant_of, Pairs, kind_of, SchemaField, SchemaVariants, arm,
  SchemaFields, no_schema_variants, add_missing,
}
use serify.Wire.Json.{Go, as_object}
use serify.Wire.Decode.{
  Raw, decode_field, decode_fields, decode_arm, decode_given, decode_scalar, decode_optional,
  decode_list, decode_array, decode_map, decode_sum, single, collect_map, slice_len,
  array_elem_type, array_len, struct_kind,
}
use serify.Wire.Schema.{type_text, schema_field_of_type, schema_of_fields, schema_arms}
use serify.Wire.Scalars.{is_null}
use serify.Wire.Typed
use serify.Wire.Typed.{
  HasType, HasElem, HasElems, HasPairs, HasFields, HasArm, IsElem, IsFresh, elem_go,
}
use serify.Wire.Elems.{kind_of-spell, elem_type-spell}
use serify.Wire.Forms
use serify.Wire.Fresh.{find_pair-fresh}
use serify.Wire.Structs.{decode_next, add_missing_new}
use serify.Wire.Arms.{decode_unit, decode_past_unit, decode_past_arm}
use serify.Wire.Sizes.{array_elem_type-spell, array_len-decimal}
use serify.Wire.Slices.{elem_type-text, slice_len-make_slice}
use serify.Wire.RoundTrip.{map_value_type-text}
use serify.Wire.Ranges.{bind-eq-ok, wrap-eq-ok, ok_inj, made, IsRanged, decode_kind-HasKind}
use serify.Wire.Collect.{GivesElem, collect_map-HasPairs, decode_list-slice}

Value-cases : (r : Value) → (r ≡ null) ⊎ (is_null r ≡ false)
Value-cases null = inl refl
Value-cases _ = inr refl

module _ (go : Go) (law : IsRanged go) where
  pub give_scalar : (sub : Raw → Encoded Pairs) (k : Scalar) → GivesElem go sub (scalar k)
  unfolding decode_scalar type_text
  give_scalar sub k r v h =
      Typed.scalar_value
        (decode_kind-HasKind go law k r v (rw (kind_of-spell k, decode_scalar) at h))

  pub give_struct :
      (sub : Raw → Encoded Pairs) (fs : Fields)
      → ((raw : Raw) (fm : Pairs) → sub raw ≡ ok fm → HasFields fs fm)
      → GivesElem go sub (struct fs)
  unfolding decode_scalar kind_of struct_kind lit str_eq type_text
  give_struct sub fs give r v h =
      let (es, _, k) = bind-eq-ok (as_object r) _ h in
      let (fm, hf, same) = made (sub (λ k. find_entry k es)) nested k in
      subst (HasElem (struct fs)) (sym same) (Typed.struct_value (give _ fm hf))

  optional_plain :
      (sub : Raw → Encoded Pairs) (t : FieldType) (r : Value)
      → IsElem t
      → is_null r ≡ false
      → decode_optional go sub (type_text t) r ≡ decode_scalar go sub (type_text t) r
  unfolding type_text
  optional_plain sub (scalar k) r i n = Forms.decode_optional-spell go sub k r n
  optional_plain sub (struct fs) r i n = Forms.decode_optional-struct go sub r n
  optional_plain sub (optional t) r i n = absurd i
  optional_plain sub (list t) r i n = absurd i
  optional_plain sub (array t m) r i n = absurd i
  optional_plain sub (map k t) r i n = absurd i
  optional_plain sub (enum names) r i n = absurd i
  optional_plain sub (sum vs) r i n = absurd i

  pub optional-HasType :
      (sub : Raw → Encoded Pairs) (t : FieldType) (r : Value) (v : Stored)
      → IsElem t
      → GivesElem go sub t
      → decode_optional go sub (type_text t) r ≡ ok v
      → HasType (optional t) v
  unfolding decode_optional
  optional-HasType sub t r v i give h = elim (Value-cases r) [
    | inl e ↦ subst (HasType (optional t)) (ok_inj (rw e at h)) Typed.absent
    | inr n ↦ Typed.present (give r v (sym (optional_plain sub t r i n) ∙ h))
  ]

  pub list-HasType :
      (sub : Raw → Encoded Pairs) (t : FieldType) (r : Value) (v : Stored)
      → IsElem t
      → GivesElem go sub t
      → decode_list go sub (type_text t) r ≡ ok v
      → HasType (list t) v
  list-HasType sub t r v i give h =
      let (vs, hs, e) = decode_list-slice go sub t r v give (elem_type-text t i) h in
      Typed.list_value vs i hs e

  decode_array-inv :
      (sub : Raw → Encoded Pairs) (name typ inner : Str) (n : ℕ) (r : Value) (v : Stored)
      → array_elem_type typ ≡ ok inner
      → array_len typ ≡ some (pos n)
      → decode_array go sub name typ r ≡ ok v
      → (decode_list go sub inner r ≡ ok v) × (slice_len v ≡ n)
  unfolding decode_array
  decode_array-inv sub name typ inner n r v e l h =
      let (w, hw, k) = bind-eq-ok (decode_list go sub inner r) _ (rw (e, decode_array) at h) in
      elim (Bool-cases (slice_len w == n)) [
        | inl same ↦
            let eq : w ≡ v = ok_inj (rw same at (rw l at k)) in
            (hw ∙ ap ok eq, ap slice_len (sym eq) ∙ (==_iff _ n).0 same)
        | inr other ↦ cc (rw other at (rw l at k))
      ]

  pub array-HasType :
      (sub : Raw → Encoded Pairs) (name : Str) (k : Scalar) (n : ℕ) (r : Value) (v : Stored)
      → n < 2 ^ 63
      → decode_array go sub name (type_text (array (scalar k) n)) r ≡ ok v
      → HasType (array (scalar k) n) v
  unfolding type_text
  array-HasType sub name k n r v small h =
      let (hl, len) =
        decode_array-inv sub name _ (spell k) n r v (array_elem_type-spell k n)
          (array_len-decimal (spell k) n small) h in
      let (vs, hs, e) =
        decode_list-slice go sub (scalar k) r v (give_scalar sub k) (elem_type-spell k) hl in
      Typed.array_value vs hs (sym (slice_len-make_slice k vs hs) ∙ ap slice_len (sym e) ∙ len)
        small e

  pub map-HasType :
      (sub : Raw → Encoded Pairs) (k : Scalar) (t : FieldType) (r : Value) (v : Stored)
      → IsElem t
      → GivesElem go sub t
      → decode_map go sub (type_text (map (scalar k) t)) r ≡ ok v
      → HasType (map (scalar k) t) v
  unfolding decode_map type_text
  map-HasType sub k t r v i give h =
      let (es, _, l) = bind-eq-ok (as_object r) _ h in
      let (ps, hp, e) =
        made (collect_map go sub (type_text t) es) go_map (rw (map_value_type-text k t i) at l) in
      subst (HasType (map (scalar k) t)) (sym e)
        (Typed.map_value i (collect_map-HasPairs go sub t es ps give hp))

  single-HasType :
      (payload_of : Str → Value → Encoded Stored) (vs : Variants) (es : Entries) (v : Stored)
      → ((tag : Str) (r : Value) (w : Stored)
          → payload_of tag r ≡ ok w
          → (u : Stored) × (w ≡ variant_of tag u) × HasArm vs tag u)
      → single payload_of es ≡ ok v
      → HasType (sum vs) v
  unfolding single
  single-HasType payload_of vs no_entries v give h = cc
  single-HasType payload_of vs (entry tag r no_entries) v give h =
      let (u, e, a) = give tag r v h in subst (HasType (sum vs)) (sym e) (Typed.sum_value a)
  single-HasType payload_of vs (entry tag r (entry k s es)) v give h = cc

  pub sum-HasType :
      (payload_of : Str → Value → Encoded Stored) (vs : Variants) (r : Value) (v : Stored)
      → ((tag : Str) (r : Value) (w : Stored)
          → payload_of tag r ≡ ok w
          → (u : Stored) × (w ≡ variant_of tag u) × HasArm vs tag u)
      → decode_sum payload_of r ≡ ok v
      → HasType (sum vs) v
  unfolding decode_sum
  sum-HasType payload_of vs r v give h =
      let (es, _, k) = bind-eq-ok (as_object r) _ h in single-HasType payload_of vs es v give k

  payload_inv :
      (name tag : Str) (sf : SchemaField) (vs : SchemaVariants) (r : Value) (v : Stored)
      → str_eq name tag ≡ true
      → decode_arm go (arm name sf vs) tag r ≡ ok v
      → (u : Stored) × (decode_field go sf r ≡ ok u) × (v ≡ variant_of tag u)
  unfolding decode_arm
  payload_inv name tag sf vs r v e h =
      let (u, hu, same) = made (wrap _ (decode_field go sf r)) (variant_of tag) (rw e at h) in
      (u, wrap-eq-ok _ _ hu, same)

  -- The round of one field: it is missing, or it is decoded and stored.
  given_inv :
      (name : Str) (o : Option Value) (dec : Value → Encoded Stored) (more : Encoded Pairs)
      (fm : Pairs)
      → decode_given name o dec more ≡ ok fm
      → (ps : Pairs) × (more ≡ ok ps)
        × ((fm ≡ ps) ⊎ ((r : Value) × (v : Stored) × (dec r ≡ ok v) × (fm ≡ add_missing name v ps)))
  unfolding decode_given
  given_inv name none dec more fm h = (fm, h, inl refl)
  given_inv name (some r) dec more fm h =
      let (v, hv, k) = bind-eq-ok (wrap _ (dec r)) _ h in
      let (ps, hp, l) = bind-eq-ok more _ k in
      (ps, hp, inr (r, v, wrap-eq-ok _ _ hv, sym (ok_inj l)))

  abbrev pub sd : SchemaFields → Raw → Encoded Pairs
  sd fs raw = decode_fields go fs raw

  abbrev pub ad : Str → Value → Encoded Stored
  ad tag r = decode_arm go no_schema_variants tag r

  pub fields_step :
      (name : Str) (t : FieldType) (fs : Fields) (raw : Raw) (fm : Pairs)
      → IsFresh name fs
      → ((r : Value) (v : Stored)
          → decode_field go (schema_field_of_type name t) r ≡ ok v
          → HasType t v)
      → ((ps : Pairs) → decode_fields go (schema_of_fields fs) raw ≡ ok ps → HasFields fs ps)
      → decode_fields go (schema_of_fields (field name t fs)) raw ≡ ok fm
      → HasFields (field name t fs) fm
  fields_step name t fs raw fm fresh one rest h =
      let (ps, hp, how) =
        given_inv name (raw name) (decode_field go (schema_field_of_type name t))
          (decode_fields go (schema_of_fields fs) raw) fm
          (sym (decode_next go name t fs raw) ∙ h) in
      let typed : HasFields fs ps = rest ps hp in
      elim how [
        | inl e ↦ subst (HasFields (field name t fs)) (sym e) (Typed.missing fresh typed)
        | inr (r, v, hv, e) ↦
            Typed.given (one r v hv) fresh typed
              (e ∙ add_missing_new name v ps (find_pair-fresh name fresh typed))
      ]

  abbrev pub ArmSound : Variants → Str → Stored → Type 0
  ArmSound vs tag v = (u : Stored) × (v ≡ variant_of tag u) × HasArm vs tag u

  pub unit_step :
      (name tag : Str) (vs : Variants) (r : Value) (v : Stored)
      → (decode_arm go (schema_arms vs) tag r ≡ ok v → ArmSound vs tag v)
      → decode_arm go (schema_arms (unit_variant name vs)) tag r ≡ ok v
      → ArmSound (unit_variant name vs) tag v
  unfolding schema_arms
  unit_step name tag vs r v rest h = elim (Bool-cases (str_eq name tag)) [
    | inl e ↦ (
      nil,
      sym (ok_inj (sym (decode_unit go name tag (schema_arms vs) r e) ∙ h)),
      Typed.unit_here e,
    )
    | inr e ↦
        let (u, same, a) = rest (sym (decode_past_unit go name tag (schema_arms vs) r e) ∙ h) in
        (u, same, Typed.past_unit e a)
  ]

  pub arm_step :
      (name tag : Str) (t : FieldType) (vs : Variants) (r : Value) (v : Stored)
      → ((w : Stored) → decode_field go (schema_field_of_type name t) r ≡ ok w → HasType t w)
      → (decode_arm go (schema_arms vs) tag r ≡ ok v → ArmSound vs tag v)
      → decode_arm go (schema_arms (variant name t vs)) tag r ≡ ok v
      → ArmSound (variant name t vs) tag v
  unfolding schema_arms
  arm_step name tag t vs r v one rest h = elim (Bool-cases (str_eq name tag)) [
    | inl e ↦
        let (u, hu, same) =
          payload_inv name tag (schema_field_of_type name t) (schema_arms vs) r v e h in
        (u, same, Typed.arm_here e (one u hu))
    | inr e ↦
        let (u, same, a) = rest (
          sym (decode_past_arm go name tag (schema_arms vs) (schema_field_of_type name t) r e)
          ∙ h) in
        (u, same, Typed.past_arm e a)
  ]
