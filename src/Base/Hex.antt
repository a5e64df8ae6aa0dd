-- ===== src/Base/Hex.antt =====
-- encoding/hex, as the source uses it: `EncodeToString` and `DecodeString`.
use Prim.Native.Nat.{ℕ, ◌+◌, ◌-◌, ◌*◌, ◌/◌, ◌%◌, ◌<◌}
use mathlib.Core.Path.{◌≡◌, refl, ap}
use mathlib.Core.Bool.{◌&&◌}
use mathlib.Core.Option.{Option, none, some}
use mathlib.Core.List.{[], ◌∷◌, ◌++◌}
use native.Mathlib.Omega.{arith}
use serify.Base.Tests.{leb, ltb, if◌then◌else◌}
use serify.Base.Lists.{All}
use serify.Base.Text.{Str, lit}
use serify.Base.Format.{hex_digit, hex_byte}

unfoldable pub encode_hex : Str → Str
unfolding hex_byte
encode_hex [] = []
encode_hex (b ∷ bs) = hex_byte b ++ encode_hex bs

-- the value of a digit in either case
unfoldable pub hex_value : ℕ → Option ℕ
hex_value c =
    if leb b'0' c && leb c b'9'
    then some (c - b'0')
    else if leb b'a' c && leb c b'f'
    then some (c - b'a' + 10)
    else if leb b'A' c && leb c b'F'
    then some (c - b'A' + 10)
    else none

pub data HexError : Type 0 where
  invalid_byte : ℕ → HexError
  odd_length : HexError

pub data Decoded : Type 0 where
  ok : Str → Decoded
  err : HexError → Decoded

unfoldable pub cons_byte : ℕ → Decoded → Decoded
cons_byte b (ok bs) = ok (b ∷ bs)
cons_byte b (err e) = err e

unfoldable pub decode_pair : ℕ → ℕ → Option ℕ → Option ℕ → Decoded → Decoded
unfolding cons_byte
decode_pair p q none b rest = err (invalid_byte p)
decode_pair p q (some a) none rest = err (invalid_byte q)
decode_pair p q (some a) (some b) rest = cons_byte (a * 16 + b) rest

unfoldable pub decode_last : ℕ → Option ℕ → Decoded
decode_last c none = err (invalid_byte c)
decode_last c (some a) = err odd_length

unfoldable pub decode_hex : Str → Decoded
unfolding decode_pair decode_last hex_value
decode_hex [] = ok []
decode_hex (c ∷ []) = decode_last c (hex_value c)
decode_hex (p ∷ q ∷ rest) = decode_pair p q (hex_value p) (hex_value q) (decode_hex rest)

upper_digit : ℕ → ℕ
upper_digit n = if ltb n 10 then b'0' + n else b'A' + n % 10

-- the text of the error; `%#U` shows a printable ASCII character too
unfoldable pub hex_error_text : HexError → Str
unfolding upper_digit
hex_error_text odd_length = lit "encoding/hex: odd length hex string"
hex_error_text (invalid_byte c) =
    lit "encoding/hex: invalid byte: U+00"
    ++ (upper_digit (c / 16)
        ∷ upper_digit (c % 16)
        ∷ (if leb 32 c && ltb c 127 then lit " '" ++ (c ∷ lit "'") else []))

abbrev pub IsBytes : Str → Type 0
IsBytes = All (λ b. b < 256)

hex_value-hex_digit : (n : ℕ) → n < 16 → hex_value (hex_digit n) ≡ some n
unfolding hex_value hex_digit
hex_value-hex_digit n h = ground arith

-- Decoding what was encoded gives the bytes back.
pub decode_hex-encode_hex : (bs : Str) → IsBytes bs → decode_hex (encode_hex bs) ≡ ok bs
unfolding decode_hex encode_hex
decode_hex-encode_hex [] h = refl
decode_hex-encode_hex (b ∷ bs) h =
    rw
      (
        hex_value-hex_digit (b / 16) (omega arith),
        hex_value-hex_digit (b % 16) (omega arith),
        decode_hex-encode_hex bs h.1,
      )
      (ap (λ n. ok (n ∷ bs)) (omega arith))
