-- ===== src/Wire/Json.antt =====
-- lib/go/serify/protocol.go: the scalars of the wire. A raw message is the JSON that
-- `json_round_trip` leaves: null, booleans, float64 numbers, strings, arrays and objects, whose
-- keys are distinct.
use serify.Base.{
  ℕ, zero, suc, ◌+◌, ◌-◌, ◌*◌, ◌^◌, ℤ, pos, negsuc, leb_ℤ, Bool, false, ◌&&◌, Option, none, some,
  [], ◌∷◌, ◌++◌, if◌then◌else◌, ◌==◌, leb, length, take, is_empty, Str, lit, decimal, decimal_ℤ,
  quote,
}
use serify.Base.Hex.{Decoded, decode_hex, hex_error_text, encode_hex}
use serify.Conf.{
  Value, null, bool, float64, string, slice, object, Values, no_values, Entries, no_entries,
}
use serify.Proto.Encode.{Encoded, ok, err, ◌>>=◌, le_bytes}
use serify.Wire.{GoType, Stored, go_type_of}

-- the JSON type of a value in the errors of encoding/json
unfoldable pub json_kind : Value → Str
json_kind null = lit "null"
json_kind (bool b) = lit "bool"
json_kind (string s) = lit "string"
json_kind (slice vs) = lit "array"
json_kind (object es) = lit "object"
json_kind _ = lit "number"

unfoldable pub unmarshal_error {ℓ} : {A : Type ℓ} → Value → Str → Encoded A
unmarshal_error r typ =
    err (lit "json: cannot unmarshal " ++ (json_kind r ++ (lit " into Go value of type " ++ typ)))

-- `json.Unmarshal` into a variable of each type; null leaves the variable as it was declared
unfoldable pub as_string : Value → Encoded Str
as_string (string s) = ok s
as_string null = ok []
as_string r = unmarshal_error r (lit "string")

unfoldable pub as_bool : Value → Encoded Bool
as_bool (bool b) = ok b
as_bool null = ok false
as_bool r = unmarshal_error r (lit "bool")

unfoldable pub as_float64 : Value → Encoded ℕ
as_float64 (float64 x) = ok x
as_float64 null = ok 0
as_float64 r = unmarshal_error r (lit "float64")

unfoldable pub as_array : Value → Encoded Values
as_array (slice vs) = ok vs
as_array null = ok no_values
as_array r = unmarshal_error r (lit "[]json.RawMessage")

unfoldable pub as_object : Value → Encoded Entries
as_object (object es) = ok es
as_object null = ok no_entries
as_object r = unmarshal_error r (lit "map[string]json.RawMessage")

-- the number whose decimal digits follow those of `n`
unfoldable pub digits_from : ℕ → Str → Option ℕ
digits_from n [] = some n
digits_from n (c ∷ s) =
    let more = digits_from (n * 10 + (c - b'0')) s in
    if leb b'0' c && leb c b'9' then more else none

unfoldable pub parse_digits : Str → Option ℕ
unfolding digits_from
parse_digits s = if is_empty s then none else digits_from 0 s

unfoldable pub negate : ℕ → ℤ
negate zero = pos 0
negate (suc n) = negsuc n

abbrev pub as_pos : Option ℕ → Option ℤ
as_pos none = none
as_pos (some n) = some (pos n)

abbrev pub as_neg : Option ℕ → Option ℤ
as_neg none = none
as_neg (some n) = some (negate n)

-- an optional sign and decimal digits, of any size: `new(big.Int).SetString(s, 10)`
unfoldable pub parse_big : Str → Option ℤ
unfolding parse_digits negate
parse_big [] = none
parse_big (c ∷ s) =
    if c == b'-'
    then as_neg (parse_digits s)
    else if c == b'+'
    then as_pos (parse_digits s)
    else as_pos (parse_digits (c ∷ s))

abbrev pub syntax_error : Str → Str → Str
syntax_error function s =
    lit "strconv." ++ (function ++ (lit ": parsing " ++ (quote s ++ lit ": invalid syntax")))

abbrev pub range_error : Str → Str → Str
range_error function s =
    lit "strconv." ++ (function ++ (lit ": parsing " ++ (quote s ++ lit ": value out of range")))

unfoldable pub check_uint : Str → Option ℕ → Encoded ℕ
check_uint s none = err (syntax_error (lit "ParseUint") s)
check_uint s (some n) = if leb n (2 ^ 64 - 1) then ok n else err (range_error (lit "ParseUint") s)

-- `strconv.ParseUint(s, 10, 64)`
unfoldable pub parse_uint : Str → Encoded ℕ
unfolding parse_digits check_uint
parse_uint s = check_uint s (parse_digits s)

abbrev pub in_range : ℤ → ℤ → ℤ → Bool
in_range low high n = leb_ℤ low n && leb_ℤ n high

unfoldable pub check_int : Str → Option ℤ → Encoded ℤ
check_int s none = err (syntax_error (lit "ParseInt") s)
check_int s (some n) =
    if in_range (negsuc (2 ^ 63 - 1)) (pos (2 ^ 63 - 1)) n
    then ok n
    else err (range_error (lit "ParseInt") s)

-- `strconv.ParseInt(s, 10, 64)`
unfoldable pub parse_int : Str → Encoded ℤ
unfolding parse_big check_int
parse_int s = check_int s (parse_big s)

-- `uintFromString` and `intFromString`
unfoldable pub uint_from_string : Value → Encoded ℕ
unfolding as_string parse_uint
uint_from_string r = as_string r >>= parse_uint

unfoldable pub int_from_string : Value → Encoded ℤ
unfolding as_string parse_int
int_from_string r = as_string r >>= parse_int

abbrev pub max_u128 : ℤ
max_u128 = pos (2 ^ 128 - 1)

abbrev pub max_i128 : ℤ
max_i128 = pos (2 ^ 127 - 1)

abbrev pub min_i128 : ℤ
min_i128 = negsuc (2 ^ 127 - 1)

-- the end of `bigFromString`, by `signed`
unfoldable pub check_big : Bool → Str → Option ℤ → Encoded ℤ
check_big signed s none = err (lit "invalid 128-bit integer " ++ quote s)
check_big signed s (some n) =
    if signed
    then if in_range min_i128 max_i128 n then ok n else err (lit "int128 out of range: " ++ s)
    else if in_range (pos 0) max_u128 n
    then ok n
    else err (lit "uint128 out of range: " ++ s)

-- `bigFromString`
unfoldable pub big_from_string : Value → Bool → Encoded ℤ
unfolding as_string parse_big check_big
big_from_string r signed = as_string r >>= λ s. check_big signed s (parse_big s)

-- `bigToString`
unfoldable pub big_to_string : Stored → Encoded Value
unfolding go_type_of
big_to_string (Stored.big (some n)) = ok (string (decimal_ℤ n))
big_to_string (Stored.big none) = ok (string (lit "0"))
big_to_string v = err (lit "expected *big.Int for a 128-bit field, got " ++ go_type_of v)

-- `hex.DecodeString`
unfoldable pub decoded : Decoded → Encoded Str
decoded (Decoded.ok bs) = ok bs
decoded (Decoded.err e) = err (hex_error_text e)

abbrev check_length : ℕ → Str → Encoded Str
check_length n bs =
    if length bs == n
    then ok bs
    else err (lit "expected " ++ (decimal n ++ (lit " hex bytes, got " ++ decimal (length bs))))

-- `hexBytes`
unfoldable pub hex_bytes : Value → ℕ → Encoded Str
unfolding as_string decoded
hex_bytes r n = as_string r >>= λ s. decoded (decode_hex s) >>= check_length n

-- `binary.LittleEndian.Uint32` and `Uint64` of all the bytes
unfoldable pub of_le_bytes : Str → ℕ
of_le_bytes [] = 0
of_le_bytes (b ∷ bs) = b + 256 * of_le_bytes bs

-- `floatHex`
unfoldable pub float_hex : ℕ → ℕ → Str
float_hex bits n = encode_hex (take n (le_bytes 8 bits))

-- What the machine and encoding/json do: `T(n)` of a float64, and the value that stands for a byte
-- slice, a list, a map, a field map or a variant that is marshalled as it is.
pub record Go : Type 0 where
  pub convert : GoType → ℕ → ℤ
  pub other : Stored → Value
