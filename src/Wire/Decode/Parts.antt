-- ===== src/Wire/Decode/Parts.antt =====
-- lib/go/serify/protocol.go: the parts of the type texts of a schema, the Go type of a slice, and the steps
-- of the loops of `DecodeFieldMap` and `decodeSum`.
use serify.Base.{
  ℕ, suc, ℤ, pos, Option, none, some, List, [], ◌∷◌, ◌++◌, if◌then◌else◌, length, drop, Str, lit,
  str_eq, decimal,
}
use serify.Kind.{Scalar, split_top_level}
use serify.Conf.{Value, Entries, no_entries, entry}
use serify.Proto.Encode.{Encoded, ok, err, ◌>>=◌, wrap, entry_count}
use serify.Wire.{
  GoType, Stored, num, blob, slice_of, Stores, no_stores, store, Pairs, add_missing, kind_of,
  drop_last, trim_space, last_cut,
}
use serify.Wire.Json.{as_object, parse_int}

-- a raw JSON object: the message of each key
abbrev pub Raw : Type 0
Raw = Str → Option Value

-- the Go slice type of each element type: the switches of `decodeList` and `encodeList`
unfoldable pub scalar_type : Scalar → GoType
scalar_type Scalar.uint8 = GoType.uint8
scalar_type Scalar.uint16 = GoType.uint16
scalar_type Scalar.uint32 = GoType.uint32
scalar_type Scalar.uint64 = GoType.uint64
scalar_type Scalar.int8 = GoType.int8
scalar_type Scalar.int16 = GoType.int16
scalar_type Scalar.int32 = GoType.int32
scalar_type Scalar.int64 = GoType.int64
scalar_type Scalar.uint128 = GoType.big_int
scalar_type Scalar.int128 = GoType.big_int
scalar_type Scalar.float32 = GoType.float32
scalar_type Scalar.float64 = GoType.float64
scalar_type Scalar.bool = GoType.bool
scalar_type Scalar.string = GoType.string
scalar_type Scalar.bytes = GoType.bytes

unfoldable pub struct_kind : Str
struct_kind = lit "struct"

unfoldable pub elem_type : Str → Option GoType
unfolding kind_of scalar_type struct_kind
elem_type typ = elim (kind_of typ) [
  | some k ↦ some (scalar_type k)
  | none ↦ if str_eq typ struct_kind then some GoType.field_map else none
]

-- `typ[n : len(typ)-1]`; the slice panics on a type as short as `list<`
unfoldable pub type_args : ℕ → Str → Encoded Str
unfolding drop_last
type_args n typ = elim (drop_last (drop n typ)) [
  | none ↦ err (lit "panic: runtime error: slice bounds out of range")
  | some inner ↦ ok inner
]

abbrev pub before_cut : Str → Option (Str × Str) → Str
before_cut inner none = inner
before_cut inner (some (before, after)) = before

-- `arrayElemType`
unfoldable pub array_elem_type : Str → Encoded Str
unfolding type_args last_cut trim_space
array_elem_type typ =
    type_args 6 typ >>= λ inner. ok (trim_space (before_cut inner (last_cut b',' inner)))

abbrev pub parsed_len : Encoded ℤ → Option ℤ
parsed_len (ok n) = some n
parsed_len (err e) = none

unfoldable pub len_after : Option (Str × Str) → Option ℤ
unfolding trim_space parse_int
len_after none = none
len_after (some (before, after)) = parsed_len (parse_int (trim_space after))

unfoldable pub len_of : Encoded Str → Option ℤ
unfolding last_cut len_after
len_of (err e) = none
len_of (ok inner) = len_after (last_cut b',' inner)

-- `arrayLen`
unfoldable pub array_len : Str → Option ℤ
unfolding type_args len_of
array_len typ = len_of (type_args 6 typ)

abbrev value_part : List Str → Str
value_part (k ∷ v ∷ []) = trim_space v
value_part _ = []

-- `mapValueType`
unfoldable pub map_value_type : Str → Encoded Str
unfolding type_args split_top_level trim_space
map_value_type typ = type_args 4 typ >>= λ inner. ok (value_part (split_top_level inner))

-- the bytes of a slice of uint8
unfoldable pub bytes_of_stores : Stores → Str
bytes_of_stores (store (num t (pos n)) vs) = n ∷ bytes_of_stores vs
bytes_of_stores _ = []

-- a `[]T` of the elements
unfoldable pub make_slice : GoType → Stores → Stored
unfolding bytes_of_stores
make_slice GoType.uint8 vs = blob (bytes_of_stores vs)
make_slice t vs = slice_of t vs

unfoldable pub count_stores : Stores → ℕ
count_stores no_stores = 0
count_stores (store v vs) = suc (count_stores vs)

-- `reflect.ValueOf(v).Len()` of a slice
unfoldable pub slice_len : Stored → ℕ
unfolding count_stores
slice_len (blob bs) = length bs
slice_len (slice_of t vs) = count_stores vs
slice_len _ = 0

-- the loop of `decodeSum`, over an object of one key
unfoldable pub single : (Str → Value → Encoded Stored) → Entries → Encoded Stored
single payload_of (entry tag r no_entries) = payload_of tag r
single payload_of es =
    err (lit "sum must name exactly one variant, got " ++ decimal (entry_count es))

-- `decodeSum`, by the decoding of a variant's payload
unfoldable pub decode_sum : (Str → Value → Encoded Stored) → Value → Encoded Stored
unfolding as_object single
decode_sum payload_of r = as_object r >>= single payload_of

-- a round of the loop of `DecodeFieldMap`, before the later ones
unfoldable pub decode_given :
    Str → Option Value → (Value → Encoded Stored) → Encoded Pairs → Encoded Pairs
unfolding add_missing
decode_given name none dec more = more
decode_given name (some r) dec more = wrap (lit "field " ++ (name ++ lit ": ")) (dec r) >>= λ v.
    more >>= λ fm. ok (add_missing name v fm)
