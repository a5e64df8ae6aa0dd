-- ===== src/Base/Format.antt =====
-- What the source uses of fmt, strconv and strings: decimal and quoted text, joining, cutting.
use Prim.Native.Nat.{ℕ, zero, suc, ◌+◌, ◌/◌, ◌%◌}
use mathlib.Core.Bool.{Bool, true, false, ◌||◌, ◌&&◌}
use mathlib.Core.List.{List, [], ◌∷◌, ◌++◌}
use serify.Base.Tests.{ltb, leb, ◌==◌, if◌then◌else◌}
use serify.Base.Text.{Str}
use serify.Base.Int.{ℤ, pos, negsuc}

-- The fuel is more than the number, and so more than its digits.
unfoldable pub decimal_loop : ℕ → ℕ → Str → Str
decimal_loop zero n out = out
decimal_loop (suc fuel) n out =
    let digit = b'0' + n % 10 in
    let more = decimal_loop fuel (n / 10) (digit ∷ out) in if ltb n 10 then digit ∷ out else more

-- `%d` of a number
unfoldable pub decimal : ℕ → Str
unfolding decimal_loop
decimal n = decimal_loop (suc n) n []

-- `%d` of an integer
unfoldable pub decimal_ℤ : ℤ → Str
unfolding decimal
decimal_ℤ (pos n) = decimal n
decimal_ℤ (negsuc n) = b'-' ∷ decimal (suc n)

unfoldable pub hex_digit : ℕ → ℕ
hex_digit n = if ltb n 10 then b'0' + n else b'a' + n % 10

unfoldable pub hex_loop : ℕ → ℕ → Str → Str
unfolding hex_digit
hex_loop zero n out = out
hex_loop (suc fuel) n out =
    let digit = hex_digit (n % 16) in
    let more = hex_loop fuel (n / 16) (digit ∷ out) in if ltb n 16 then digit ∷ out else more

-- `%x` of a number
unfoldable pub hex_number : ℕ → Str
unfolding hex_loop
hex_number n = hex_loop (suc n) n []

-- `%02x` of a byte
unfoldable pub hex_byte : ℕ → Str
unfolding hex_digit
hex_byte b = hex_digit (b / 16) ∷ hex_digit (b % 16) ∷ []

unfoldable pub quote_byte : ℕ → Str
unfolding hex_byte
quote_byte c =
    if c == b'"' || c == b'\\'
    then b'\\' ∷ c ∷ []
    else if c == b'\n'
    then b'\\' ∷ b'n' ∷ []
    else if c == b'\t'
    then b'\\' ∷ b't' ∷ []
    else if leb 32 c && ltb c 127
    then c ∷ []
    else b'\\' ∷ b'x' ∷ hex_byte c

unfoldable pub quote_bytes : Str → Str
unfolding quote_byte
quote_bytes [] = b'"' ∷ []
quote_bytes (c ∷ cs) = quote_byte c ++ quote_bytes cs

-- `%q`, on text of printable ASCII characters, newlines and tabs as `strconv.Quote` writes it.
unfoldable pub quote : Str → Str
unfolding quote_bytes
quote s = b'"' ∷ quote_bytes s

-- `strings.Join`
unfoldable pub join : Str → List Str → Str
join sep [] = []
join sep (s ∷ []) = s
join sep (s ∷ t ∷ rest) = s ++ (sep ++ join sep (t ∷ rest))

-- `strings.Cut` at a byte: before, after, found
unfoldable pub cut : ℕ → Str → Str × Str × Bool
cut c [] = ([], [], false)
cut c (x ∷ xs) =
    let (a, b, found) = cut c xs in if x == c then ([], xs, true) else (x ∷ a, b, found)
