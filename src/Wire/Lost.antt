-- ===== src/Wire/Lost.antt =====
-- An array of structs: `schemaFieldOfType` of internal/proto/proto.go sends the nested fields of a
-- list, an optional or a map of structs, and not those of an array.
use serify.Base.{
  ℕ, suc, ◌<◌, ◌^◌, pos, some, ◌∷◌, ◌++◌, ◌≡◌, refl, ap, ◌∙◌, Str, lit, decimal, str_eq, ==_iff,
}
use serify.Conf.{object, slice, Values, no_values, value, Entries, array, struct, Fields}
use serify.Proto.Encode.{Encoded, ok, value_count}
use serify.Wire.{
  GoType, go_name, Stored, nested, slice_of, Stores, no_stores, store, Pairs, no_pairs, no_schema,
  no_schema_variants, go_type_of, kind_of, trim_space,
}
use serify.Wire.Json.{Go, as_array, as_object}
use serify.Wire.Decode.{
  Raw, decode_field, decode_fields, decode_arm, decode_scalar, decode_array, decode_list, collect,
  make_slice, slice_len, count_stores, struct_kind, array_elem_type, array_len,
}
use serify.Wire.Schema.{type_text, schema_field_of_type}
use serify.Wire.Elems.{elem_type-struct}
use serify.Wire.Forms
use serify.Wire.Sizes.{array_elem_type-text, array_len-decimal}

-- JSON objects, whatever they hold.
pub data AreObjects : Values → Type 0 where
  no_objects : AreObjects no_values
  one_object : {es : Entries} {rs : Values} → AreObjects rs → AreObjects (value (object es) rs)

-- As many field maps without a field.
abbrev pub empty_maps : Values → Stores
empty_maps no_values = no_stores
empty_maps (value r rs) = store (nested no_pairs) (empty_maps rs)

count-empty_maps : (rs : Values) → count_stores (empty_maps rs) ≡ value_count rs
unfolding count_stores
count-empty_maps no_values = refl
count-empty_maps (value r rs) = ap suc (count-empty_maps rs)

trim_struct : trim_space (lit "struct") ≡ lit "struct"
unfolding trim_space lit
trim_struct = refl

count_slice : (rs : Values) → slice_len (slice_of GoType.field_map (empty_maps rs)) ≡ value_count rs
unfolding slice_len
count_slice rs = count-empty_maps rs

module _ (go : Go) where
  abbrev nothing : Raw → Encoded Pairs
  nothing raw = decode_fields go no_schema raw

  collect-nothing :
      (i : ℕ) (rs : Values)
      → AreObjects rs
      → collect go nothing GoType.field_map (lit "struct") i rs ≡ ok (empty_maps rs)
  unfolding collect decode_scalar decode_fields kind_of struct_kind as_object lit str_eq go_type_of
      go_name
  collect-nothing i _ no_objects = refl
  collect-nothing i _ (one_object {rs = rs} h) = rw (collect-nothing (suc i) rs h)

  list_nothing :
      (rs : Values)
      → AreObjects rs
      → decode_list go nothing (lit "struct") (slice rs)
        ≡ ok (slice_of GoType.field_map (empty_maps rs))
  unfolding decode_list as_array make_slice
  list_nothing rs h = rw (elem_type-struct, decode_list) (rw (collect-nothing 0 rs h))

  array_nothing :
      (name typ : Str) (rs : Values) (v : Stored)
      → array_elem_type typ ≡ ok (lit "struct")
      → array_len typ ≡ some (pos (value_count rs))
      → decode_list go nothing (lit "struct") (slice rs) ≡ ok v
      → slice_len v ≡ value_count rs
      → decode_array go nothing name typ (slice rs) ≡ ok v
  unfolding decode_array
  array_nothing name typ rs v e l d c =
      rw (e, d, l, decode_array) (rw (c, (==_iff (value_count rs) (value_count rs)).1 refl))

  -- A worker that is sent an array of structs of the declared length decodes each of them to a field
  -- map without a field, whatever the struct's fields are and whatever the objects hold: all of the
  -- data is lost, and no error is reported.
  pub decode_field-array_struct :
      (name : Str) (fs : Fields) (rs : Values)
      → value_count rs < 2 ^ 63
      → AreObjects rs
      → decode_field go (schema_field_of_type name (array (struct fs) (value_count rs))) (slice rs)
        ≡ ok (slice_of GoType.field_map (empty_maps rs))
  unfolding decode_field schema_field_of_type type_text
  decode_field-array_struct name fs rs small h =
      Forms.decode_typed-array go nothing (λ tag r. decode_arm go no_schema_variants tag r) name _
        (slice rs)
      ∙ array_nothing name
          (lit "array<" ++ (lit "struct" ++ b',' ∷ (decimal (value_count rs) ++ lit ">"))) rs _
          (array_elem_type-text (lit "struct") (value_count rs) ∙ ap ok trim_struct)
          (array_len-decimal (lit "struct") (value_count rs) small) (list_nothing rs h)
          (count_slice rs)
