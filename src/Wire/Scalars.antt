-- ===== src/Wire/Scalars.antt =====
-- Each scalar kind of the wire: a Go value of the kind's range is encoded, travels as JSON, and is
-- decoded to the same value.
use serify.Wire.Utf8.{IsText, as_utf8-decimal_ℤ, as_utf8-encode_hex}
use serify.Proto.Encode.{utf8_value}
use serify.Base.{
  as_utf8, sym, ◌∙◌, ℕ, ◌-◌, ◌^◌, ◌<◌, ℤ, pos, negsuc, Bool, true, false, ◌≡◌, refl, ap, ◌==◌,
  if◌then◌else◌, Str, some, decimal_ℤ, str_eq, lit, ==_iff,
}
use serify.Base.Hex.{IsBytes, encode_hex, decode_hex-encode_hex}
use serify.Kind.{Scalar}
use serify.Conf.{Value, null}
use serify.Proto.Encode.{Floats, Encoded, ok, ◌>>=◌, normalize, le_bytes}
use serify.Wire.{GoType, go_name, Stored, num, f32, f64, truth, text, blob, go_type_of}
use serify.Wire.Json.{
  Go, in_range, min_i128, max_i128, max_u128, as_float64, as_string, uint_from_string,
  int_from_string, big_from_string, check_big, hex_bytes, float_hex, of_le_bytes, decoded,
}
use serify.Wire.Decode.{num_from_json, decode_kind, scalar_type}
use serify.Wire.Encode.{as_any, encode_kind}
use serify.Wire.Text.{
  parse_big-decimal_ℤ, parse_uint-decimal, parse_int-decimal_ℤ, le_bytes-IsBytes, length-le_bytes,
  of_le_bytes-le_bytes, bytes_hold,
}

-- The Go values of a kind, in its range.
pub data HasKind : Scalar → Stored → Type 0 where
  is_uint8 :
      (n : ℤ) → in_range (pos 0) (pos 255) n ≡ true → HasKind Scalar.uint8 (num GoType.uint8 n)
  is_uint16 :
      (n : ℤ) → in_range (pos 0) (pos 65535) n ≡ true → HasKind Scalar.uint16 (num GoType.uint16 n)
  is_uint32 :
      (n : ℤ)
      → in_range (pos 0) (pos (2 ^ 32 - 1)) n ≡ true
      → HasKind Scalar.uint32 (num GoType.uint32 n)
  is_int8 :
      (n : ℤ) → in_range (negsuc 127) (pos 127) n ≡ true → HasKind Scalar.int8 (num GoType.int8 n)
  is_int16 :
      (n : ℤ)
      → in_range (negsuc 32767) (pos 32767) n ≡ true
      → HasKind Scalar.int16 (num GoType.int16 n)
  is_int32 :
      (n : ℤ)
      → in_range (negsuc (2 ^ 31 - 1)) (pos (2 ^ 31 - 1)) n ≡ true
      → HasKind Scalar.int32 (num GoType.int32 n)
  is_uint64 : (n : ℕ) → n < 2 ^ 64 → HasKind Scalar.uint64 (num GoType.uint64 (pos n))
  is_int64 :
      (n : ℤ)
      → in_range (negsuc (2 ^ 63 - 1)) (pos (2 ^ 63 - 1)) n ≡ true
      → HasKind Scalar.int64 (num GoType.int64 n)
  is_uint128 :
      (n : ℤ) → in_range (pos 0) max_u128 n ≡ true → HasKind Scalar.uint128 (Stored.big (some n))
  is_int128 :
      (n : ℤ) → in_range min_i128 max_i128 n ≡ true → HasKind Scalar.int128 (Stored.big (some n))
  is_float32 : (x : ℕ) → x < bytes_hold 4 → HasKind Scalar.float32 (f32 x)
  is_float64 : (x : ℕ) → x < bytes_hold 8 → HasKind Scalar.float64 (f64 x)
  is_bool : (b : Bool) → HasKind Scalar.bool (truth b)
  is_string : (s : Str) → HasKind Scalar.string (text s)
  is_bytes : (bs : Str) → IsBytes bs → HasKind Scalar.bytes (blob bs)

-- The assertion of the element type succeeds on them.
pub HasKind-go_type_of :
    {k : Scalar} {v : Stored} → HasKind k v → go_type_of v ≡ go_name (scalar_type k)
unfolding go_type_of scalar_type go_name
HasKind-go_type_of (is_uint8 n h) = refl
HasKind-go_type_of _ = refl

abbrev pub is_null : Value → Bool
is_null null = true
is_null _ = false

-- the range of the types of at most 32 bits
abbrev pub fits : GoType → ℤ → Bool
fits GoType.uint8 n = in_range (pos 0) (pos 255) n
fits GoType.uint16 n = in_range (pos 0) (pos 65535) n
fits GoType.uint32 n = in_range (pos 0) (pos (2 ^ 32 - 1)) n
fits GoType.int8 n = in_range (negsuc 127) (pos 127) n
fits GoType.int16 n = in_range (negsuc 32767) (pos 32767) n
fits GoType.int32 n = in_range (negsuc (2 ^ 31 - 1)) (pos (2 ^ 31 - 1)) n
fits _ n = false

-- What is known of float64: it holds an integer of at most 32 bits exactly, and the conversion to a
-- type of its range gives the integer back.
pub record IsExact (floats : Floats) (go : Go) : Type 0 where
  pub exact : (t : GoType) (n : ℤ) → fits t n ≡ true → go.convert t (floats.of_int n) ≡ n

-- A value that is encoded to `sent`, which JSON turns into `raw`, from which it is decoded.
pub record Trip (floats : Floats) (P : Value → Type 0) (encoded : Encoded Value)
    (decode : Value → Encoded Stored) (v : Stored) : Type 0 where
  pub sent : Value
  pub raw : Value
  pub encodes : encoded ≡ ok sent
  pub travels : normalize floats sent ≡ ok raw
  pub decodes : decode raw ≡ ok v
  pub shape : P raw
  pub clean : IsText v → utf8_value sent ≡ sent

abbrev pub NonNull : Value → Type 0
NonNull r = is_null r ≡ false

module _ (floats : Floats) (go : Go) (law : IsExact floats go) where
  small-Trip :
      (t : GoType) (n : ℤ)
      → fits t n ≡ true
      → Trip floats NonNull (ok (as_any go (num t n))) (num_from_json go t) (num t n)
  unfolding as_any num_from_json as_float64 normalize utf8_value
  small-Trip t n h = record {
    sent = Value.int n;
    raw = Value.float64 (floats.of_int n);
    encodes = refl;
    travels = refl;
    decodes = ap (λ m. ok (num t m)) (law.exact t n h);
    shape = refl;
    clean = λ c. refl;
  }

  text-Trip :
      (s : Str) (decode : Value → Encoded Stored) (v : Stored)
      → decode (Value.string s) ≡ ok v
      → (IsText v → as_utf8 s ≡ s)
      → Trip floats NonNull (ok (Value.string s)) decode v
  unfolding normalize utf8_value
  text-Trip s decode v h c = record {
    sent = Value.string s;
    raw = Value.string s;
    encodes = refl;
    travels = refl;
    decodes = h;
    shape = refl;
    clean = λ k. ap Value.string (c k);
  }

  same_length : (n : ℕ) (bs : Str) (wrong : Encoded Str) → (if n == n then ok bs else wrong) ≡ ok bs
  same_length n bs wrong = rw ((==_iff n n).1 refl)

  hex_bytes-encode_hex :
      (n x : ℕ) → hex_bytes (Value.string (encode_hex (le_bytes n x))) n ≡ ok (le_bytes n x)
  unfolding hex_bytes as_string decoded
  hex_bytes-encode_hex n x =
      rw (decode_hex-encode_hex (le_bytes n x) (le_bytes-IsBytes n x), length-le_bytes n x)
        (same_length n _ _)

  float_lem :
      (make : ℕ → Stored) (n x : ℕ)
      → x < bytes_hold n
      → float_hex x n ≡ encode_hex (le_bytes n x)
      → (hex_bytes (Value.string (float_hex x n)) n >>= λ bs. ok (make (of_le_bytes bs)))
        ≡ ok (make x)
  float_lem make n x h e =
      rw (e, hex_bytes-encode_hex n x) (ap (λ m. ok (make m)) (of_le_bytes-le_bytes n x h))

  float_hex_4 : (x : ℕ) → float_hex x 4 ≡ encode_hex (le_bytes 4 x)
  unfolding float_hex le_bytes
  float_hex_4 x = refl

  float_hex_8 : (x : ℕ) → float_hex x 8 ≡ encode_hex (le_bytes 8 x)
  unfolding float_hex le_bytes
  float_hex_8 x = refl

  as_utf8-float_hex :
      (n x : ℕ)
      → float_hex x n ≡ encode_hex (le_bytes n x)
      → as_utf8 (float_hex x n) ≡ float_hex x n
  as_utf8-float_hex n x e = ap as_utf8 e ∙ as_utf8-encode_hex (le_bytes n x) ∙ sym e

  uint_lem : (n : ℕ) → n < 2 ^ 64 → uint_from_string (Value.string (decimal_ℤ (pos n))) ≡ ok n
  unfolding uint_from_string as_string decimal_ℤ
  uint_lem n h = parse_uint-decimal n h

  int_lem :
      (n : ℤ)
      → in_range (negsuc (2 ^ 63 - 1)) (pos (2 ^ 63 - 1)) n ≡ true
      → int_from_string (Value.string (decimal_ℤ n)) ≡ ok n
  unfolding int_from_string as_string
  int_lem n h = parse_int-decimal_ℤ n h

  big_lem :
      (signed : Bool) (n : ℤ)
      → in_range (if signed then min_i128 else pos 0) (if signed then max_i128 else max_u128) n
        ≡ true
      → big_from_string (Value.string (decimal_ℤ n)) signed ≡ ok n
  unfolding big_from_string as_string check_big
  big_lem true n h = rw (parse_big-decimal_ℤ n, h)
  big_lem false n h = rw (parse_big-decimal_ℤ n, h)

  pub kind-Trip :
      {k : Scalar} {v : Stored}
      → HasKind k v
      → Trip floats NonNull (encode_kind go k v) (decode_kind go k) v
  unfolding encode_kind decode_kind str_eq lit normalize utf8_value IsText
  kind-Trip (is_uint8 n h) = small-Trip GoType.uint8 n h
  kind-Trip (is_uint16 n h) = small-Trip GoType.uint16 n h
  kind-Trip (is_uint32 n h) = small-Trip GoType.uint32 n h
  kind-Trip (is_int8 n h) = small-Trip GoType.int8 n h
  kind-Trip (is_int16 n h) = small-Trip GoType.int16 n h
  kind-Trip (is_int32 n h) = small-Trip GoType.int32 n h
  kind-Trip (is_uint64 n h) =
      text-Trip (decimal_ℤ (pos n)) (decode_kind go Scalar.uint64) _
        (ap (λ e. e >>= λ n. ok (num GoType.uint64 (pos n))) (uint_lem n h))
        (λ c. as_utf8-decimal_ℤ (pos n))
  kind-Trip (is_int64 n h) =
      text-Trip (decimal_ℤ n) (decode_kind go Scalar.int64) _
        (ap (λ e. e >>= λ n. ok (num GoType.int64 n)) (int_lem n h)) (λ c. as_utf8-decimal_ℤ n)
  kind-Trip (is_uint128 n h) =
      text-Trip (decimal_ℤ n) (decode_kind go Scalar.uint128) _
        (ap (λ e. e >>= λ n. ok (Stored.big (some n))) (big_lem false n h))
        (λ c. as_utf8-decimal_ℤ n)
  kind-Trip (is_int128 n h) =
      text-Trip (decimal_ℤ n) (decode_kind go Scalar.int128) _
        (ap (λ e. e >>= λ n. ok (Stored.big (some n))) (big_lem true n h))
        (λ c. as_utf8-decimal_ℤ n)
  kind-Trip (is_float32 x h) =
      text-Trip (float_hex x 4) (decode_kind go Scalar.float32) _
        (float_lem f32 4 x h (float_hex_4 x)) (λ c. as_utf8-float_hex 4 x (float_hex_4 x))
  kind-Trip (is_float64 x h) =
      text-Trip (float_hex x 8) (decode_kind go Scalar.float64) _
        (float_lem f64 8 x h (float_hex_8 x)) (λ c. as_utf8-float_hex 8 x (float_hex_8 x))
  kind-Trip (is_bool b) = record {
    sent = Value.bool b;
    raw = Value.bool b;
    encodes = refl;
    travels = refl;
    decodes = refl;
    shape = refl;
    clean = λ k. refl;
  }
  kind-Trip (is_string s) = text-Trip s (decode_kind go Scalar.string) _ refl (λ c. c)
  kind-Trip (is_bytes bs h) =
      text-Trip (encode_hex bs) (decode_kind go Scalar.bytes) _
        (ap (λ e. decoded e >>= λ bs. ok (blob bs)) (decode_hex-encode_hex bs h))
        (λ c. as_utf8-encode_hex bs)
