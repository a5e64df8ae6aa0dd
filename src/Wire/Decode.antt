-- ===== src/Wire/Decode.antt =====
-- lib/go/serify/protocol.go: `DecodeFieldMap`, from the data of a message to the Go values of a
-- field map. The recursion follows the schema, which nests the schemas of structs and payloads.
pub mod Parts
unfoldable pub use Parts.*
use serify.Base.{
  ℕ, suc, ℤ, pos, true, false, Option, none, some, List, [], ◌∷◌, ◌++◌, if◌then◌else◌, length, drop,
  eq_ℤ, Str, lit, str_eq, decimal, quote, decimal_ℤ,
}
use serify.Kind.{Scalar, split_top_level}
use serify.Conf.{Value, null, Values, no_values, value, Entries, no_entries, entry}
use serify.Proto.Encode.{Encoded, ok, err, ◌>>=◌, wrap, find_entry, entry_count}
use serify.Wire.{
  SchemaField, schema_field, schema_name, SchemaFields, no_schema, then_field, SchemaVariants,
  no_schema_variants, unit_arm, arm, GoType, go_name, Stored, nil, num, f32, f64, truth, text, blob,
  slice_of, nested, go_map, variant_of, Stores, no_stores, store, Pairs, no_pairs, pair, go_type_of,
  add_missing, kind_of, drop_last, has_prefix, trim_space, last_cut,
}
use serify.Wire.Json.{
  Go, as_string, as_bool, as_float64, as_array, as_object, uint_from_string, int_from_string,
  big_from_string, hex_bytes, of_le_bytes, decoded, parse_int,
}
use serify.Base.Hex.{decode_hex}

module _ (go : Go) where
  open go use {convert}

  -- `numFromJSON`
  unfoldable pub num_from_json : GoType → Value → Encoded Stored
  unfolding as_float64
  num_from_json t r = do x ← as_float64 r; ok (num t (convert t x))

  -- the branches of `decodeScalar` for the scalar kinds
  unfoldable pub decode_kind : Scalar → Value → Encoded Stored
  unfolding num_from_json uint_from_string int_from_string big_from_string hex_bytes as_bool
      as_string decoded
  decode_kind Scalar.uint8 r = num_from_json GoType.uint8 r
  decode_kind Scalar.uint16 r = num_from_json GoType.uint16 r
  decode_kind Scalar.uint32 r = num_from_json GoType.uint32 r
  decode_kind Scalar.int8 r = num_from_json GoType.int8 r
  decode_kind Scalar.int16 r = num_from_json GoType.int16 r
  decode_kind Scalar.int32 r = num_from_json GoType.int32 r
  decode_kind Scalar.uint64 r = do n ← uint_from_string r; ok (num GoType.uint64 (pos n))
  decode_kind Scalar.int64 r = do n ← int_from_string r; ok (num GoType.int64 n)
  decode_kind Scalar.uint128 r = do n ← big_from_string r false; ok (Stored.big (some n))
  decode_kind Scalar.int128 r = do n ← big_from_string r true; ok (Stored.big (some n))
  decode_kind Scalar.float32 r = do bs ← hex_bytes r 4; ok (f32 (of_le_bytes bs))
  decode_kind Scalar.float64 r = do bs ← hex_bytes r 8; ok (f64 (of_le_bytes bs))
  decode_kind Scalar.bool r = do b ← as_bool r; ok (truth b)
  decode_kind Scalar.string r = do s ← as_string r; ok (text s)
  decode_kind Scalar.bytes r = do s ← as_string r; bs ← decoded (decode_hex s); ok (blob bs)

  -- what follows takes the decoding of the nested fields, `DecodeFieldMap(obj, fields)`
  module _ (sub : Raw → Encoded Pairs) where
    -- `decodeScalar`
    unfoldable pub decode_scalar : Str → Value → Encoded Stored
    unfolding kind_of decode_kind struct_kind as_object
    decode_scalar typ r = elim (kind_of typ) [
      | some k ↦ decode_kind k r
      | none ↦
          if str_eq typ struct_kind
          then (do es ← as_object r; fm ← sub (λ k. find_entry k es); ok (nested fm))
          else err (lit "unknown type " ++ quote typ)
    ]

    -- `collectList`, from the element at `i` on
    unfoldable pub collect : GoType → Str → ℕ → Values → Encoded Stores
    unfolding decode_scalar go_type_of go_name
    collect t typ i no_values = ok no_stores
    collect t typ i (value r rs) =
        let more = collect t typ (suc i) rs in
        wrap (lit "[" ++ (decimal i ++ lit "]: ")) (decode_scalar typ r) >>= λ v.
        if str_eq (go_type_of v) (go_name t)
        then (more >>= λ vs. ok (store v vs))
        else err (
            lit "["
            ++ (decimal i ++ (lit "]: expected " ++ (go_name t ++ (lit ", got " ++ go_type_of v)))))

    -- `decodeList`
    unfoldable pub decode_list : Str → Value → Encoded Stored
    unfolding as_array elem_type collect make_slice
    decode_list typ r = do
      arr ← as_array r
      elim (elem_type typ) [
        | none ↦ err (lit "unsupported list element type " ++ quote typ)
        | some t ↦ collect t typ 0 arr >>= λ vs. ok (make_slice t vs)
      ]

    -- `decodeOptional`
    unfoldable pub decode_optional : Str → Value → Encoded Stored
    unfolding decode_scalar as_string
    decode_optional typ null = ok nil
    decode_optional typ r =
        if str_eq typ (lit "string") then (do s ← as_string r; ok (text s)) else decode_scalar typ r

    -- `decodeArray`
    unfoldable pub decode_array : Str → Str → Value → Encoded Stored
    unfolding array_elem_type decode_list array_len slice_len
    decode_array name typ r = do
      elem ← array_elem_type typ
      v ← decode_list elem r
      elim (array_len typ) [
        | none ↦ err (lit "array type " ++ (quote typ ++ lit " has no length"))
        | some want ↦
            if eq_ℤ (pos (slice_len v)) want
            then ok v
            else err (
                lit "array "
                ++ (name
                    ++ (lit ": expected "
                        ++ (decimal_ℤ want ++ (lit " elements, got " ++ decimal (slice_len v))))))
      ]

    -- the loop of `decodeMap`
    unfoldable pub collect_map : Str → Entries → Encoded Pairs
    unfolding decode_scalar
    collect_map typ no_entries = ok no_pairs
    collect_map typ (entry k r es) =
        let more = collect_map typ es in
        wrap (lit "map[" ++ (quote k ++ lit "]: ")) (decode_scalar typ r) >>= λ v.
        more >>= λ ps. ok (pair k v ps)

    -- `decodeMap`
    unfoldable pub decode_map : Str → Value → Encoded Stored
    unfolding as_object map_value_type collect_map
    decode_map typ r = do
      es ← as_object r
      val ← map_value_type typ
      ps ← collect_map val es
      ok (go_map ps)

  -- the switch of `decodeField` on the type: the value that it stores
  unfoldable pub decode_typed :
      (Raw → Encoded Pairs) → (Str → Value → Encoded Stored) → Str → Str → Value → Encoded Stored
  unfolding has_prefix type_args decode_list decode_optional decode_array decode_map decode_sum
      decode_scalar as_string
  decode_typed sub payload_of name typ r =
      if has_prefix (lit "list<") typ
      then (type_args 5 typ >>= λ elem. decode_list sub elem r)
      else if has_prefix (lit "optional<") typ
      then (type_args 9 typ >>= λ elem. decode_optional sub elem r)
      else if has_prefix (lit "array<") typ
      then decode_array sub name typ r
      else if has_prefix (lit "map<") typ
      then decode_map sub typ r
      else if has_prefix (lit "enum<") typ
      then (do s ← as_string r; ok (text s))
      else if has_prefix (lit "sum<") typ
      then decode_sum payload_of r
      else decode_scalar sub typ r

  unfoldable mutual
    unfolding decode_typed decode_given schema_name

    -- `decodeField`
    pub decode_field : SchemaField → Value → Encoded Stored
    decode_field (schema_field name typ fields key variants tags) r =
        decode_typed (decode_fields fields) (decode_arm variants) name typ r

    -- `DecodeFieldMap`: a field that the message lacks is left out
    pub decode_fields : SchemaFields → Raw → Encoded Pairs
    decode_fields no_schema raw = ok no_pairs
    decode_fields (then_field sf rest) raw =
        decode_given (schema_name sf) (raw (schema_name sf)) (decode_field sf)
          (decode_fields rest raw)

    -- `findSchemaVariant`, and the decoding of the payload
    pub decode_arm : SchemaVariants → Str → Value → Encoded Stored
    decode_arm no_schema_variants tag r = err (lit "unknown variant " ++ quote tag)
    decode_arm (unit_arm name vs) tag r =
        let rest = decode_arm vs tag r in if str_eq name tag then ok (variant_of tag nil) else rest
    decode_arm (arm name sf vs) tag r =
        let rest = decode_arm vs tag r in
        let payload = decode_field sf r in
        if str_eq name tag
        then (wrap (lit "variant " ++ (quote tag ++ lit ": ")) payload >>= λ v.
            ok (variant_of tag v))
        else rest
