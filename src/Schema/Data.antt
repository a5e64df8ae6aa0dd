-- ===== src/Schema/Data.antt =====
-- internal/conf/casedata.go: the data of a test case, decoded by the schema; and `validate` of
-- internal/conf/conf.go.
use serify.Base.{
  ℕ, suc, ◌-◌, ◌^◌, ℤ, pos, negsuc, Bool, false, ◌||◌, Option, none, some, List, [], ◌∷◌, ◌++◌,
  if◌then◌else◌, length, Str, lit, str_eq, Assoc, quote, decimal, decimal_ℤ,
}
use serify.Kind.{Scalar}
use serify.Conf.{
  FieldType, scalar, optional, array, struct, enum, sum, Fields, no_fields, field, Variants,
  no_variants, unit_variant, variant, Value, null, uint64, int64, big, slice, object, Values,
  no_values, value, Entries, no_entries, entry,
}
use serify.Proto.Encode.{Encoded, ok, err, ◌>>=◌, wrap}
use serify.Wire.Json.{in_range, min_i128, max_i128, max_u128}

-- What the source takes from gopkg.in/yaml.v3: nodes, and what `Decode` makes of one.
pub record Yaml : Type 1 where
  pub Node : Type 0
  pub alias : Node → Option Node  -- the target of an alias node
  pub is_null : Node → Bool  -- the tag is !!null
  pub is_scalar : Node → Bool
  pub text_of : Node → Str  -- n.Value
  pub as_int : Node → Option ℤ  -- into a big.Int
  pub as_text : Node → Encoded Str
  pub as_items : Node → Encoded (List Node)
  pub as_map : Node → Encoded (Assoc Node)
  pub as_any : Node → Encoded Value

-- the range checks of `decodeDataValue`
unfoldable pub ranged : ℤ → ℤ → Str → (ℤ → Value) → ℤ → Encoded Value
ranged low high kind make n =
    if in_range low high n
    then ok (make n)
    else err (lit "value " ++ (decimal_ℤ n ++ (lit " out of range for " ++ kind)))

-- `b.Uint64()` of a number that is not negative
abbrev pub as_uint64 : ℤ → Value
as_uint64 (pos n) = uint64 n
as_uint64 (negsuc n) = uint64 0

-- The schema has a field of the name.
unfoldable pub has_field : Str → Fields → Bool
has_field key no_fields = false
has_field key (field name t fs) = str_eq name key || has_field key fs

module _ (yaml : Yaml) where
  open yaml use {Node}

  -- `decodeExactInt`
  unfoldable pub decode_exact_int : Node → Encoded ℤ
  decode_exact_int n = elim (yaml.as_int n) [
    | none ↦
        err (lit "expected an integer (bare or quoted decimal), got " ++ quote (yaml.text_of n))
    | some b ↦ ok b
  ]

  -- the branches for the integers of 64 and 128 bits; the other scalars are decoded as they are
  unfoldable pub decode_data_scalar : Scalar → Node → Encoded Value
  unfolding decode_exact_int ranged
  decode_data_scalar Scalar.uint64 n =
      decode_exact_int n >>= ranged (pos 0) (pos (2 ^ 64 - 1)) (lit "uint64") as_uint64
  decode_data_scalar Scalar.int64 n =
      decode_exact_int n >>= ranged (negsuc (2 ^ 63 - 1)) (pos (2 ^ 63 - 1)) (lit "int64") int64
  decode_data_scalar Scalar.uint128 n =
      decode_exact_int n >>= ranged (pos 0) max_u128 (lit "uint128") big
  decode_data_scalar Scalar.int128 n =
      decode_exact_int n >>= ranged min_i128 max_i128 (lit "int128") big
  decode_data_scalar k n = yaml.as_any n

  -- the loop over a sequence
  unfoldable pub decode_items : (Node → Encoded Value) → ℕ → List Node → Encoded Values
  decode_items f i [] = ok no_values
  decode_items f i (n ∷ ns) =
      let rest = decode_items f (suc i) ns in
      wrap (lit "[" ++ (decimal i ++ lit "]: ")) (f n) >>= λ v. rest >>= λ vs. ok (value v vs)

  -- the loop over a map, with the text before the error of a key
  unfoldable pub decode_entries :
      (Str → Str) → (Str → Node → Encoded Value) → Assoc Node → Encoded Entries
  decode_entries label f [] = ok no_entries
  decode_entries label f ((k, n) ∷ m) =
      let rest = decode_entries label f m in
      wrap (label k) (f k n) >>= λ v. rest >>= λ es. ok (entry k v es)

  abbrev pub in_brackets : Str → Str
  in_brackets k = lit "[" ++ (quote k ++ lit "]: ")

  abbrev pub in_field : Str → Str
  in_field k = lit "field " ++ (quote k ++ lit ": ")

  -- the only pair of a map
  unfoldable pub only_pair : (Str → Node → Encoded Value) → Assoc Node → Encoded Value
  only_pair f ((tag, n) ∷ []) = f tag n
  only_pair f m =
      err
        (lit "sum value must name exactly one variant, got " ++ (decimal (length m) ++ lit " keys"))

  -- one map of one key, the form of a sum's value
  abbrev pub tagged : Str → Value → Value
  tagged tag v = object (entry tag v no_entries)

  -- `n.Alias` of an alias
  unfoldable pub target : Node → Node
  target n = elim (yaml.alias n) [ none ↦ n | some m ↦ m ]

  abbrev pub non_null : (Node → Encoded Value) → Node → Encoded Value
  non_null f n = if yaml.is_null n then ok null else f n

  -- a list or an array
  abbrev pub as_slice : (Node → Encoded Value) → Node → Encoded Value
  as_slice f n = yaml.as_items n >>= λ ns. decode_items f 0 ns >>= λ vs. ok (slice vs)

  -- a map or a struct
  abbrev pub as_entries : (Str → Str) → (Str → Node → Encoded Value) → Node → Encoded Value
  as_entries label f n =
      yaml.as_map n >>= λ es. decode_entries label f es >>= λ out. ok (object out)

  unfoldable mutual
    unfolding has_field decode_data_scalar decode_items decode_entries only_pair target

    -- `decodeDataValue`, of the node behind an alias
    pub decode_data_value : FieldType → Node → Encoded Value
    decode_data_value (scalar k) n = non_null (decode_data_scalar k) (target n)
    decode_data_value (optional t) n = non_null (λ m. decode_data_value t m) (target n)
    decode_data_value (FieldType.list t) n =
        non_null (as_slice (λ x. decode_data_value t x)) (target n)
    decode_data_value (array t count) n =
        non_null (as_slice (λ x. decode_data_value t x)) (target n)
    decode_data_value (FieldType.map k t) n =
        non_null (as_entries in_brackets (λ key x. decode_data_value t x)) (target n)
    decode_data_value (struct fs) n =
        non_null (as_entries in_field (λ key x. decode_data_field fs key x)) (target n)
    decode_data_value (enum names) n = non_null (λ m. yaml.as_any m) (target n)
    decode_data_value (sum vs) n =
        non_null
          (λ m.
            if yaml.is_scalar m
            then (yaml.as_text m >>= λ tag. decode_bare vs tag)
            else (yaml.as_map m >>= only_pair (λ tag x. decode_payload vs tag x)))
          (target n)

    -- a value of `decodeCaseData`; the last field of a name is the one that is found
    pub decode_data_field : Fields → Str → Node → Encoded Value
    decode_data_field no_fields key n = yaml.as_any n
    decode_data_field (field name t fs) key n =
        let here = decode_data_value t n in
        let later = decode_data_field fs key n in
        if has_field key fs then later else if str_eq name key then here else yaml.as_any n

    -- a variant without a payload, by `findVariant`
    pub decode_bare : Variants → Str → Encoded Value
    decode_bare no_variants tag = err (lit "unknown variant " ++ quote tag)
    decode_bare (unit_variant name vs) tag =
        let rest = decode_bare vs tag in if str_eq name tag then ok (tagged tag null) else rest
    decode_bare (variant name t vs) tag =
        let rest = decode_bare vs tag in
        if str_eq name tag
        then err
            (lit "variant " ++ (quote tag ++ (lit " needs a payload {" ++ (tag ++ lit ": ...}"))))
        else rest

    -- a variant in a map of one key
    pub decode_payload : Variants → Str → Node → Encoded Value
    decode_payload no_variants tag n = err (lit "unknown variant " ++ quote tag)
    decode_payload (unit_variant name vs) tag n =
        let rest = decode_payload vs tag n in if str_eq name tag then ok (tagged tag null) else rest
    decode_payload (variant name t vs) tag n =
        let rest = decode_payload vs tag n in
        let payload = decode_data_value t n in
        if str_eq name tag
        then (wrap (lit "variant " ++ (quote tag ++ lit ": ")) payload >>= λ v. ok (tagged tag v))
        else rest
