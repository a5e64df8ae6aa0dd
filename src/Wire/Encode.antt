-- ===== src/Wire/Encode.antt =====
-- lib/go/serify/protocol.go: `EncodeFieldMap`, from the Go values of a field map back to the wire.
use serify.Base.{
  ℕ, suc, pos, Option, none, some, [], ◌∷◌, ◌++◌, if◌then◌else◌, Str, lit, str_eq, decimal,
  decimal_ℤ, quote,
}
use serify.Base.Hex.{encode_hex}
use serify.Kind.{Scalar}
use serify.Conf.{
  Value, null, string, slice, object, Values, no_values, value, Entries, no_entries, entry,
}
use serify.Proto.Encode.{Encoded, ok, err, ◌>>=◌, wrap, find_entry}
use serify.Wire.{
  SchemaField, schema_field, schema_name, SchemaFields, no_schema, then_field, SchemaVariants,
  no_schema_variants, unit_arm, arm, GoType, go_name, Stored, nil, num, f32, f64, text,
  text_pointer, truth, blob, slice_of, nested, go_map, variant_of, Stores, no_stores, store, Pairs,
  no_pairs, pair, go_type_of, find_pair, kind_of, has_prefix,
}
use serify.Wire.Json.{Go, big_to_string, float_hex}
use serify.Wire.Decode.{struct_kind, elem_type, type_args, array_elem_type, map_value_type}

-- out[key] = enc, before the writes that made the object
unfoldable pub add_entry : Str → Value → Entries → Entries
unfolding find_entry
add_entry k v es = elim (find_entry k es) [ none ↦ entry k v es | some w ↦ es ]

-- the elements of a `[]byte`
unfoldable pub stores_of_bytes : Str → Stores
stores_of_bytes [] = no_stores
stores_of_bytes (b ∷ bs) = store (num GoType.uint8 (pos b)) (stores_of_bytes bs)

-- `v.([]T)`
unfoldable pub elements : GoType → Stored → Option Stores
unfolding stores_of_bytes go_name
elements GoType.uint8 (blob bs) = some (stores_of_bytes bs)
elements t (slice_of u vs) = if str_eq (go_name u) (go_name t) then some vs else none
elements t v = none

unfoldable pub expected {ℓ} : {A : Type ℓ} → Str → Stored → Encoded A
unfolding go_type_of
expected what v = err (lit "expected " ++ (what ++ (lit ", got " ++ go_type_of v)))

-- the digits of an integer: `strconv.FormatUint` and `FormatInt`
abbrev number_text : Stored → Str
number_text (num t n) = decimal_ℤ n
number_text v = []

-- a round of the loop of `EncodeFieldMap`, before the later ones
unfoldable pub encode_given :
    Str → Option Stored → (Stored → Encoded Value) → Encoded Entries → Encoded Entries
unfolding add_entry
encode_given name none enc more = more
encode_given name (some v) enc more = wrap (lit "field " ++ (name ++ lit ": ")) (enc v) >>= λ e.
    more >>= λ out. ok (add_entry name e out)

module _ (go : Go) where
  open go use {other}

  -- a Go value that goes into the output as it is, as json.Marshal sees it
  unfoldable pub as_any : Stored → Value
  as_any nil = null
  as_any (num t n) = Value.int n
  as_any (Stored.big (some n)) = Value.big n
  as_any (Stored.big none) = null
  as_any (f32 x) = Value.float32 x
  as_any (f64 x) = Value.float64 x
  as_any (truth b) = Value.bool b
  as_any (text s) = string s
  as_any (text_pointer (some s)) = string s
  as_any (text_pointer none) = null
  as_any v = other v

  -- the branches of `encodeScalar` for the scalar kinds
  unfoldable pub encode_kind : Scalar → Stored → Encoded Value
  unfolding expected big_to_string float_hex go_name go_type_of as_any
  encode_kind Scalar.uint128 v = big_to_string v
  encode_kind Scalar.int128 v = big_to_string v
  encode_kind Scalar.uint64 v =
      if str_eq (go_type_of v) (go_name GoType.uint64)
      then ok (string (number_text v))
      else expected (lit "uint64") v
  encode_kind Scalar.int64 v =
      if str_eq (go_type_of v) (go_name GoType.int64)
      then ok (string (number_text v))
      else expected (lit "int64") v
  encode_kind Scalar.float32 (f32 x) = ok (string (float_hex x 4))
  encode_kind Scalar.float32 v = expected (lit "float32") v
  encode_kind Scalar.float64 (f64 x) = ok (string (float_hex x 8))
  encode_kind Scalar.float64 v = expected (lit "float64") v
  encode_kind Scalar.bytes (blob bs) = ok (string (encode_hex bs))
  encode_kind Scalar.bytes v = expected (lit "[]byte") v
  encode_kind _ v = ok (as_any v)

  -- what follows takes the encoding of the nested fields, `EncodeFieldMap(nested, fields)`
  module _ (sub : Pairs → Encoded Entries) where
    abbrev as_struct : Stored → Encoded Value
    as_struct (nested fm) = do es ← sub fm; ok (object es)
    as_struct v = expected (lit "*FieldMap for struct") v

    -- `encodeScalar`
    unfoldable pub encode_scalar : Str → Stored → Encoded Value
    unfolding kind_of encode_kind struct_kind expected
    encode_scalar typ v = elim (kind_of typ) [
      | some k ↦ encode_kind k v
      | none ↦
          if str_eq typ struct_kind then as_struct v else err (lit "unknown type " ++ quote typ)
    ]

    -- the loop of `encodeEachList`, from the element at `i` on
    unfoldable pub encode_each : Str → ℕ → Stores → Encoded Values
    unfolding encode_scalar
    encode_each typ i no_stores = ok no_values
    encode_each typ i (store v vs) =
        let more = encode_each typ (suc i) vs in
        wrap (lit "[" ++ (decimal i ++ lit "]: ")) (encode_scalar typ v) >>= λ enc.
        more >>= λ out. ok (value enc out)

    -- `encodeEachList`
    unfoldable pub encode_each_list : GoType → Str → Stored → Encoded Value
    unfolding elements encode_each expected go_name
    encode_each_list t typ v = elim (elements t v) [
      | none ↦ expected (lit "[]" ++ go_name t) v
      | some vs ↦ encode_each typ 0 vs >>= λ out. ok (slice out)
    ]

    -- `encodeList`
    unfoldable pub encode_list : Str → Stored → Encoded Value
    unfolding elem_type encode_each_list
    encode_list typ v = elim (elem_type typ) [
      | none ↦ err (lit "unsupported list element type " ++ quote typ)
      | some t ↦ encode_each_list t typ v
    ]

    abbrev optional_text : Stored → Encoded Value
    optional_text (text s) = ok (string s)
    optional_text (text_pointer none) = ok null
    optional_text (text_pointer (some s)) = ok (string s)
    optional_text v = err (lit "optional<string>: unexpected type " ++ go_type_of v)

    -- `encodeOptional`
    unfoldable pub encode_optional : Str → Stored → Encoded Value
    unfolding encode_scalar go_type_of
    encode_optional typ nil = ok null
    encode_optional typ v =
        if str_eq typ (lit "string") then optional_text v else encode_scalar typ v

    -- the loop over a map
    unfoldable pub encode_map : Str → Pairs → Encoded Entries
    unfolding encode_scalar
    encode_map typ no_pairs = ok no_entries
    encode_map typ (pair k v ps) =
        let more = encode_map typ ps in
        wrap (lit "map[" ++ (quote k ++ lit "]: ")) (encode_scalar typ v) >>= λ enc.
        more >>= λ out. ok (entry k enc out)

    abbrev as_map : Str → Stored → Encoded Value
    as_map typ (go_map ps) = do val ← map_value_type typ; out ← encode_map val ps; ok (object out)
    as_map typ v = expected (lit "map[string]any for map") v

  abbrev as_enum : Stored → Encoded Value
  as_enum (text s) = ok (string s)
  as_enum v = expected (lit "a string enum variant") v

  -- `encodeSum`, by the encoding of a variant's payload
  unfoldable pub encode_sum : (Str → Stored → Encoded Value) → Stored → Encoded Value
  unfolding expected
  encode_sum payload_of (variant_of tag v) = payload_of tag v
  encode_sum payload_of v = expected (lit "*Variant for sum") v

  -- the switch of `encodeField` on the type
  unfoldable pub encode_typed :
      (Pairs → Encoded Entries) → (Str → Stored → Encoded Value) → Str → Stored → Encoded Value
  unfolding has_prefix type_args array_elem_type encode_list encode_optional encode_map encode_sum
      encode_scalar expected map_value_type
  encode_typed sub payload_of typ v =
      if has_prefix (lit "list<") typ
      then (type_args 5 typ >>= λ elem. encode_list sub elem v)
      else if has_prefix (lit "optional<") typ
      then (type_args 9 typ >>= λ elem. encode_optional sub elem v)
      else if has_prefix (lit "enum<") typ
      then as_enum v
      else if has_prefix (lit "sum<") typ
      then encode_sum payload_of v
      else if has_prefix (lit "array<") typ
      then (array_elem_type typ >>= λ elem. encode_list sub elem v)
      else if has_prefix (lit "map<") typ
      then as_map sub typ v
      else encode_scalar sub typ v

  unfoldable mutual
    unfolding encode_typed encode_given find_pair schema_name

    -- `encodeField`
    pub encode_field : SchemaField → Stored → Encoded Value
    encode_field (schema_field name typ fields key variants tags) v =
        encode_typed (encode_fields fields) (encode_arm variants) typ v

    -- `EncodeFieldMap`: a field that the map lacks is left out
    pub encode_fields : SchemaFields → Pairs → Encoded Entries
    encode_fields no_schema fm = ok no_entries
    encode_fields (then_field sf rest) fm =
        encode_given (schema_name sf) (find_pair (schema_name sf) fm) (encode_field sf)
          (encode_fields rest fm)

    -- `findSchemaVariant`, and the encoding of the payload as a field of a map of its own
    pub encode_arm : SchemaVariants → Str → Stored → Encoded Value
    encode_arm no_schema_variants tag v = err (lit "unknown variant " ++ quote tag)
    encode_arm (unit_arm name vs) tag v =
        let rest = encode_arm vs tag v in
        if str_eq name tag then ok (object (entry tag null no_entries)) else rest
    encode_arm (arm name sf vs) tag v =
        let rest = encode_arm vs tag v in
        let payload = encode_field sf v in
        if str_eq name tag
        then (wrap (lit "variant " ++ (quote tag ++ lit ": "))
              (wrap (lit "field " ++ (schema_name sf ++ lit ": ")) payload)
            >>= λ enc. ok (object (entry tag enc no_entries)))
        else rest
