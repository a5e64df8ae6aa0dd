-- ===== src/Schema/Ranges.antt =====
-- internal/conf/casedata.go: what the data of a case is decoded to has the form of its type, and its
-- integers of 64 and 128 bits lie in range.
use serify.Base.{◌≡◌, refl, sym, inl, inr, Bool-cases, if◌then◌else◌, Str, str_eq}
use serify.Conf.{
  FieldType, scalar, optional, list, array, map, struct, enum, sum, Fields, no_fields, field,
  Variants, no_variants, unit_variant, variant, Value, null,
}
use serify.Proto.Encode.{ok, ◌>>=◌, wrap}
use serify.Wire.Ranges.{bind-eq-ok, wrap-eq-ok, ok_inj}
use serify.Schema.Data.{
  Yaml, has_field, decode_data_scalar, in_brackets, in_field, only_pair, as_slice, as_entries,
  target, decode_data_value, decode_data_field, decode_bare, decode_payload,
}
use serify.Schema.Fits.{
  FitsType, FitKeys, FitFields, FitsField, datum, present, list_fits, array_fits, map_fits,
  struct_fits, enum_fits, unknown, later_field, this_field, unit_arm, this_arm, past_unit, past_arm,
}
use serify.Schema.Items.{
  or_missing, slice_fits, entries_fit, keys-FitKeys, fields-FitFields, pair_fits, GivesArm,
  arm_fits, bare_fits, scalar-IsDatum,
}

module _ (yaml : Yaml) where
  open yaml use {Node}

  mutual
    unfolding decode_data_value decode_data_field decode_payload has_field

    pub value_fits :
        (t : FieldType) (n : Node) (v : Value) → decode_data_value yaml t n ≡ ok v → FitsType t v
    value_fits (scalar k) n v h =
        or_missing yaml (scalar k) (decode_data_scalar yaml k) (target yaml n) v
          (λ w e. datum (scalar-IsDatum yaml k _ w e)) h
    value_fits (optional t) n v h =
        or_missing yaml (optional t) (λ m. decode_data_value yaml t m) (target yaml n) v
          (λ w e. present (value_fits t _ w e)) h
    value_fits (list t) n v h =
        or_missing yaml (list t) (as_slice yaml (λ x. decode_data_value yaml t x)) (target yaml n) v
          (λ w e.
            slice_fits yaml (list t) t _ (target yaml n) w (λ vs a. list_fits a)
              (λ x u. value_fits t x u) e)
          h
    value_fits (array t count) n v h =
        or_missing yaml (array t count) (as_slice yaml (λ x. decode_data_value yaml t x))
          (target yaml n) v
          (λ w e.
            slice_fits yaml (array t count) t _ (target yaml n) w (λ vs a. array_fits a)
              (λ x u. value_fits t x u) e)
          h
    value_fits (map k t) n v h =
        or_missing yaml (map k t)
          (as_entries yaml (in_brackets yaml) (λ key x. decode_data_value yaml t x)) (target yaml n)
          v
          (λ w e.
            entries_fit yaml (map k t) (FitKeys t) _ _ (target yaml n) w (λ es a. map_fits a)
              (λ m es i.
                keys-FitKeys yaml t (in_brackets yaml) (λ x. decode_data_value yaml t x) m es
                  (λ x u. value_fits t x u) i)
              e)
          h
    value_fits (struct fs) n v h =
        or_missing yaml (struct fs)
          (as_entries yaml (in_field yaml) (λ key x. decode_data_field yaml fs key x))
          (target yaml n) v
          (λ w e.
            entries_fit yaml (struct fs) (FitFields fs) _ _ (target yaml n) w
              (λ es a. struct_fits a)
              (λ m es i.
                fields-FitFields yaml fs (in_field yaml) (λ key x. decode_data_field yaml fs key x)
                  m es (λ key x u. field_fits fs key x u) i)
              e)
          h
    value_fits (enum names) n v h =
        or_missing yaml (enum names) (λ m. yaml.as_any m) (target yaml n) v (λ w e. enum_fits) h
    value_fits (sum vs) n v h =
        or_missing yaml (sum vs)
          (λ m.
            if yaml.is_scalar m
            then (yaml.as_text m >>= λ tag. decode_bare yaml vs tag)
            else (yaml.as_map m >>= only_pair yaml (λ tag x. decode_payload yaml vs tag x)))
          (target yaml n) v
          (λ w e. elim (Bool-cases (yaml.is_scalar (target yaml n))) [
            | inl s ↦
                let (tag, _, k) =
                  bind-eq-ok (yaml.as_text (target yaml n)) (λ tag. decode_bare yaml vs tag)
                    (rw s at e) in
                arm_fits yaml vs tag w (bare_fits yaml vs tag w k)
            | inr s ↦
                let (m, _, k) =
                  bind-eq-ok (yaml.as_map (target yaml n))
                    (only_pair yaml (λ tag x. decode_payload yaml vs tag x)) (rw s at e) in
                pair_fits yaml vs (λ tag x. decode_payload yaml vs tag x) m w
                  (λ tag x u i. arm_fits yaml vs tag u (payload_fits vs tag x u i)) k
          ])
          h

    field_fits :
        (fs : Fields) (key : Str) (n : Node) (v : Value)
        → decode_data_field yaml fs key n ≡ ok v
        → FitsField fs key v
    field_fits no_fields key n v h = unknown refl
    field_fits (field name t fs) key n v h = elim (Bool-cases (has_field key fs)) [
      | inl e ↦ later_field e (field_fits fs key n v (rw e at h))
      | inr e ↦ elim (Bool-cases (str_eq name key)) [
        | inl s ↦ this_field e s (value_fits t n v (rw s at (rw e at h)))
        | inr s ↦ unknown (rw (s, e))
      ]
    ]

    payload_fits :
        (vs : Variants) (tag : Str) (n : Node) (v : Value)
        → decode_payload yaml vs tag n ≡ ok v
        → GivesArm yaml vs tag v
    payload_fits no_variants tag n v h = cc
    payload_fits (unit_variant name vs) tag n v h = elim (Bool-cases (str_eq name tag)) [
      | inl e ↦ (null, unit_arm e, sym (ok_inj (rw e at h)))
      | inr e ↦ let (w, a, same) = payload_fits vs tag n v (rw e at h) in (w, past_unit e a, same)
    ]
    payload_fits (variant name t vs) tag n v h = elim (Bool-cases (str_eq name tag)) [
      | inl e ↦
          let (w, hw, k) = bind-eq-ok (wrap _ (decode_data_value yaml t n)) _ (rw e at h) in
          (w, this_arm e (value_fits t n w (wrap-eq-ok _ _ hw)), sym (ok_inj k))
      | inr e ↦ let (w, a, same) = payload_fits vs tag n v (rw e at h) in (w, past_arm e a, same)
    ]
