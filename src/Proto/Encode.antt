-- ===== src/Proto/Encode.antt =====
-- The encoding of case data for the wire (internal/proto/proto.go), and its JSON normalisation
-- (`jsonRoundTrip` of internal/orch/orch.go).
use serify.Base.{
  as_utf8, ℕ, zero, suc, ◌/◌, ◌%◌, ◌^◌, ℤ, pos, Option, none, some, List, [], ◌∷◌, ◌++◌,
  if◌then◌else◌, ◌==◌, leb, Str, lit, str_eq, Assoc, decimal, decimal_ℤ, quote,
}
use serify.Base.Hex.{encode_hex}
use serify.Kind.{Scalar}
use serify.Conf.{
  FieldType, scalar, optional, array, struct, enum, sum, Fields, no_fields, field, Variants,
  no_variants, unit_variant, variant, Field, Value, null, bool, int, int64, uint64, big, float32,
  float64, string, slice, object, Values, no_values, value, Entries, no_entries, entry,
}

pub data Encoded {ℓ} (A : Type ℓ) : Type ℓ where
  ok : A → Encoded A
  err : Str → Encoded A

infixl 5 ◌>>=◌
abbrev pub ◌>>=◌ {ℓ κ} : {A : Type ℓ} {B : Type κ} → Encoded A → (A → Encoded B) → Encoded B
ok a >>= f = f a
err e >>= f = err e

-- `fmt.Errorf("…: %w", err)`
abbrev pub wrap {ℓ} : {A : Type ℓ} → Str → Encoded A → Encoded A
wrap prefix (ok a) = ok a
wrap prefix (err e) = err (prefix ++ e)

-- The machine's floats: float64 values are their bits.
pub record Floats : Type 0 where
  pub narrow : ℕ → ℕ  -- the bits of `float32(f)`
  pub widen : ℕ → ℕ  -- the bits of `float64(x)` for a float32
  pub of_int : ℤ → ℕ  -- the bits of `float64(n)`
  pub exact_int : ℕ → Option ℤ  -- `int64(x)`, where it is equal to x
  pub parse : Str → Encoded ℕ  -- `strconv.ParseFloat(s, 64)`
  pub show : Value → Str  -- `%v` of a float, a slice or a map

-- the lowest `n` bytes of `bits`, lowest first: `binary.LittleEndian.PutUint32` and `PutUint64`
unfoldable pub le_bytes : ℕ → ℕ → Str
le_bytes zero bits = []
le_bytes (suc n) bits = bits % 256 ∷ le_bytes n (bits / 256)

-- `%T`
unfoldable pub type_name : Value → Str
type_name null = lit "<nil>"
type_name (bool b) = lit "bool"
type_name (int n) = lit "int"
type_name (int64 n) = lit "int64"
type_name (uint64 n) = lit "uint64"
type_name (big n) = lit "*big.Int"
type_name (float32 f) = lit "float32"
type_name (float64 f) = lit "float64"
type_name (string s) = lit "string"
type_name (slice vs) = lit "[]interface {}"
type_name (object es) = lit "map[string]interface {}"

abbrev pub value_count : Values → ℕ
value_count no_values = 0
value_count (value v vs) = suc (value_count vs)

abbrev pub entry_count : Entries → ℕ
entry_count no_entries = 0
entry_count (entry k v es) = suc (entry_count es)

-- What JSON makes of the strings and the keys of a value.
unfoldable mutual
  unfolding as_utf8

  pub utf8_value : Value → Value
  utf8_value (string s) = string (as_utf8 s)
  utf8_value (slice vs) = slice (utf8_values vs)
  utf8_value (object es) = object (utf8_entries es)
  utf8_value v = v

  pub utf8_values : Values → Values
  utf8_values no_values = no_values
  utf8_values (value v vs) = value (utf8_value v) (utf8_values vs)

  pub utf8_entries : Entries → Entries
  utf8_entries no_entries = no_entries
  utf8_entries (entry k v es) = entry (as_utf8 k) (utf8_value v) (utf8_entries es)

-- obj[k]
unfoldable pub find_entry : Str → Entries → Option Value
find_entry k no_entries = none
find_entry k (entry j v es) = if str_eq j k then some v else find_entry k es

-- the loop over a slice, `[i]: ` before the error of an element
unfoldable pub encode_elems : (Value → Encoded Value) → ℕ → Values → Encoded Values
encode_elems f i no_values = ok no_values
encode_elems f i (value v vs) = do
  enc ← wrap (lit "[" ++ (decimal i ++ lit "]: ")) (f v)
  rest ← encode_elems f (suc i) vs
  ok (value enc rest)

-- the loop over a map
unfoldable pub encode_entries : (Value → Encoded Value) → Entries → Encoded Entries
encode_entries f no_entries = ok no_entries
encode_entries f (entry k v es) = do
  enc ← wrap (lit "[" ++ (quote k ++ lit "]: ")) (f v)
  rest ← encode_entries f es
  ok (entry k enc rest)

unfoldable pub check_byte : ℕ → Option ℤ → Value → (Value → Str) → Encoded ℕ
check_byte i (some (pos n)) e show =
    if leb n 255
    then ok n
    else err (
        lit "byte[" ++ (decimal i ++ (lit "]: " ++ (show e ++ lit " is not an integer in 0..255"))))
check_byte i _ e show =
    err
      (lit "byte[" ++ (decimal i ++ (lit "]: " ++ (show e ++ lit " is not an integer in 0..255"))))

module _ (floats : Floats) where
  open floats use {narrow, widen, of_int, exact_int, parse, show}

  -- `%v`
  unfoldable pub show_value : Value → Str
  show_value null = lit "<nil>"
  show_value (bool b) = if b then lit "true" else lit "false"
  show_value (int n) = decimal_ℤ n
  show_value (int64 n) = decimal_ℤ n
  show_value (uint64 n) = decimal n
  show_value (big n) = decimal_ℤ n
  show_value (string s) = s
  show_value v = show v

  -- `toInt`; an int has 64 bits
  unfoldable pub to_int : Value → Option ℤ
  to_int (int n) = some n
  to_int (int64 n) = some n
  to_int (uint64 n) = if leb n 9223372036854775807 then some (pos n) else none
  to_int (float64 x) = exact_int x
  to_int _ = none

  -- `toFloat64`
  unfoldable pub to_float64 : Value → Encoded ℕ
  to_float64 (float64 x) = ok x
  to_float64 (float32 x) = ok (widen x)
  to_float64 (int n) = ok (of_int n)
  to_float64 (string s) = parse s
  to_float64 v = err (lit "cannot convert " ++ (type_name v ++ lit " to float"))

  -- the loop of `encodeBytes`
  unfoldable pub bytes_of : ℕ → Values → Encoded Str
  unfolding to_int check_byte show_value
  bytes_of i no_values = ok []
  bytes_of i (value e es) = do
    b ← check_byte i (to_int e) e show_value
    rest ← bytes_of (suc i) es
    ok (b ∷ rest)

  -- `encodeBytes`
  unfoldable pub encode_bytes : Value → Encoded Value
  unfolding bytes_of
  encode_bytes (string s) = ok (string s)
  encode_bytes (slice es) = do bs ← bytes_of 0 es; ok (string (encode_hex bs))
  encode_bytes v = err (lit "bytes must be a byte array or a hex string, got " ++ type_name v)

  -- the branches of `encodeValue` for scalars
  unfoldable pub encode_scalar : Scalar → Value → Encoded Value
  unfolding to_float64 encode_bytes show_value
  encode_scalar Scalar.float32 v = do
    f ← to_float64 v
    ok (string (encode_hex (le_bytes 4 (narrow f))))
  encode_scalar Scalar.float64 v = do f ← to_float64 v; ok (string (encode_hex (le_bytes 8 f)))
  encode_scalar Scalar.uint64 v = ok (string (show_value v))
  encode_scalar Scalar.int64 v = ok (string (show_value v))
  encode_scalar Scalar.uint128 v = ok (string (show_value v))
  encode_scalar Scalar.int128 v = ok (string (show_value v))
  encode_scalar Scalar.bytes v = encode_bytes v
  encode_scalar _ v = ok v

  abbrev not_object : Str → Value → Str
  not_object what v = lit "expected object for " ++ (what ++ (lit ", got " ++ type_name v))

  -- `[]any` of a list or an array
  abbrev with_slice : Str → Value → (Values → Encoded Value) → Encoded Value
  with_slice base (slice vs) k = k vs
  with_slice base v k = err (lit "expected " ++ (base ++ (lit ", got " ++ type_name v)))

  unfoldable mutual
    unfolding encode_elems encode_entries encode_scalar

    -- `encodeValue`
    pub encode_value : FieldType → Value → Encoded Value
    encode_value (scalar s) v = encode_scalar s v
    encode_value (struct fs) (object es) = do out ← encode_fields fs es; ok (object out)
    encode_value (struct fs) v = err (not_object (lit "struct") v)
    encode_value (optional t) null = ok null
    encode_value (optional t) v = encode_value t v
    encode_value (FieldType.list t) v =
        with_slice (lit "list") v
          (λ vs. do out ← encode_elems (encode_value t) 0 vs; ok (slice out))
    encode_value (array t n) v = with_slice (lit "array") v (λ vs.
        if value_count vs == n
        then (do out ← encode_elems (encode_value t) 0 vs; ok (slice out))
        else err (
            lit "array length mismatch: expected "
            ++ (decimal n ++ (lit ", got " ++ decimal (value_count vs)))))
    encode_value (FieldType.map k t) (object es) = do
      out ← encode_entries (encode_value t) es
      ok (object out)
    encode_value (FieldType.map k t) v = err (not_object (lit "map") v)
    encode_value (enum names) (string s) = ok (string s)
    encode_value (enum names) v = err (lit "expected a string enum variant, got " ++ type_name v)
    encode_value (sum vs) (object (entry tag payload no_entries)) = encode_variant vs tag payload
    encode_value (sum vs) v =
        err (lit "expected a single-key object for a sum, got " ++ type_name v)

    -- the loop over the fields of a struct; a missing field is skipped
    pub encode_fields : Fields → Entries → Encoded Entries
    encode_fields no_fields es = ok no_entries
    encode_fields (field name t fs) es =
        let rest = encode_fields fs es in
        elim (find_entry name es) [
          | none ↦ rest
          | some v ↦ wrap (b'.' ∷ (name ++ lit ": ")) (encode_value t v) >>= λ enc.
              rest >>= λ out. ok (entry name enc out)
        ]

    -- `findVariant`, and the encoding of its payload
    pub encode_variant : Variants → Str → Value → Encoded Value
    encode_variant no_variants tag payload = err (lit "unknown variant " ++ quote tag)
    encode_variant (unit_variant name vs) tag payload =
        let rest = encode_variant vs tag payload in
        if str_eq name tag then ok (object (entry tag null no_entries)) else rest
    encode_variant (variant name t vs) tag payload =
        let rest = encode_variant vs tag payload in
        let enc = encode_value t payload in
        if str_eq name tag
        then (wrap (lit "variant " ++ (quote tag ++ lit ": ")) enc >>= λ e.
            ok (object (entry tag e no_entries)))
        else rest

  -- `fieldTypes`: the last field of a name is the one that is found
  unfoldable pub field_type : Str → List Field → Option FieldType
  field_type k [] = none
  field_type k (f ∷ fs) = elim (field_type k fs) [
    | some t ↦ some t
    | none ↦ if str_eq f.name k then some f.type else none
  ]

  -- `EncodeData`
  unfoldable pub encode_data : List Field → Assoc Value → Encoded (Assoc Value)
  unfolding encode_value field_type
  encode_data schema [] = ok []
  encode_data schema ((k, v) ∷ rest) =
      let more = encode_data schema rest in
      elim (field_type k schema) [
        | none ↦ err (lit "field " ++ (quote k ++ lit " not in schema"))
        | some t ↦ wrap (lit "field " ++ (quote k ++ lit ": ")) (encode_value t v) >>= λ enc.
            more >>= λ out. ok ((k, enc) ∷ out)
      ]

  -- NaN and the infinities, whose exponent bits are all set, are no JSON
  unfoldable pub normalize_float : ℕ → Encoded Value
  normalize_float x =
      if x / 2 ^ 52 % 2 ^ 11 == 2047
      then err (lit "json: unsupported value: " ++ show (float64 x))
      else ok (float64 x)

  -- What `json.Marshal` and `json.Unmarshal` make of a value whose texts are UTF-8: numbers come back
  -- as float64.
  unfoldable mutual
    pub normalize : Value → Encoded Value
    normalize (int n) = ok (float64 (of_int n))
    normalize (int64 n) = ok (float64 (of_int n))
    normalize (uint64 n) = ok (float64 (of_int (pos n)))
    normalize (big n) = ok (float64 (of_int n))
    normalize (float32 x) = normalize_float (widen x)
    normalize (float64 x) = normalize_float x
    normalize (slice vs) = do out ← normalize_values vs; ok (slice out)
    normalize (object es) = do out ← normalize_entries es; ok (object out)
    normalize v = ok v

    pub normalize_values : Values → Encoded Values
    normalize_values no_values = ok no_values
    normalize_values (value v vs) = do
      x ← normalize v
      rest ← normalize_values vs
      ok (value x rest)

    pub normalize_entries : Entries → Encoded Entries
    normalize_entries no_entries = ok no_entries
    normalize_entries (entry k v es) = do
      x ← normalize v
      rest ← normalize_entries es
      ok (entry k x rest)

  -- an object that is sent as JSON, as it is read
  unfoldable pub json_entries : Entries → Encoded Entries
  unfolding normalize utf8_value
  json_entries es = normalize_entries (utf8_entries es)

  -- `jsonRoundTrip` of a map
  unfoldable pub json_round_trip : Assoc Value → Encoded (Assoc Value)
  unfolding normalize utf8_value
  json_round_trip [] = ok []
  json_round_trip ((k, v) ∷ rest) = do
    x ← normalize (utf8_value v)
    out ← json_round_trip rest
    ok ((as_utf8 k, x) ∷ out)

  -- `encodeCase`
  unfoldable pub encode_case : Assoc Value → List Field → Encoded (Assoc Value)
  unfolding encode_data json_round_trip
  encode_case content schema = wrap (lit "encode: ") (encode_data schema content) >>= λ encoded.
      wrap (lit "normalize: ") (json_round_trip encoded)
