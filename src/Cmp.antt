-- ===== src/Cmp.antt =====
-- internal/cmp: the comparison of serialized bytes and of decoded data.
pub mod Equal
pub mod Window
pub mod Tests
use serify.Base.{
  is_some, ℕ, zero, suc, ◌+◌, ◌-◌, ◌*◌, ◌/◌, ◌%◌, ◌^◌, min, max, Bool, true, false, not, ◌&&◌, ◌||◌,
  Option, none, some, List, [], ◌∷◌, ◌++◌, ◌≡◌, ◌↔◌, if◌then◌else◌, ltb, leb, ◌==◌, length,
  get_elem?, drop, take, Str, lit, str_eq, is_empty, Assoc, lookup, keys, sort, decimal, hex_byte,
  hex_number, quote, join, or_empty,
}
use serify.Base.Hex.{Decoded, ok, err, decode_hex, hex_error_text}
use serify.Conf.{Value, null, string}

abbrev pub context_window : ℕ
context_window = 16

abbrev pub hex_row_size : ℕ
hex_row_size = 16

abbrev pub hex_col_pad : ℕ
hex_col_pad = 3

-- the loop over the common length
unfoldable pub divergence_from : ℕ → Str → Str → Option ℕ
divergence_from i [] b = none
divergence_from i (x ∷ a) [] = none
divergence_from i (x ∷ a) (y ∷ b) =
    let rest = divergence_from (suc i) a b in if not (x == y) then some i else rest

-- `firstDiv`, where -1 is `none`
unfoldable pub first_divergence : Str → Str → Option ℕ
unfolding divergence_from
first_divergence a b = elim (divergence_from 0 a b) [
  | some i ↦ some i
  | none ↦ if not (length a == length b) then some (min (length a) (length b)) else none
]

-- `contextBounds`; the subtraction that stops at 0 is `max(div-contextWindow, 0)`
unfoldable pub context_bounds : ℕ → ℕ → ℕ → ℕ × ℕ
context_bounds div len_a len_b =
    (div - context_window, min (div + 1 + context_window) (max len_a len_b))

-- `strings.Repeat`
unfoldable pub repeat : ℕ → Str → Str
repeat zero s = []
repeat (suc n) s = s ++ repeat n s

-- `%08x`, on numbers below 2^32
unfoldable pub hex_offset : ℕ → Str
hex_offset n =
    hex_byte (n / 16777216 % 256)
    ++ (hex_byte (n / 65536 % 256) ++ (hex_byte (n / 256 % 256) ++ hex_byte (n % 256)))

-- the hex parts of the bytes from offset `i` on; the divergent byte is marked
unfoldable pub hex_parts : ℕ → ℕ → Str → List Str
hex_parts div i [] = []
hex_parts div i (b ∷ bs) =
    (if i == div then b'[' ∷ (hex_byte b ++ b']' ∷ []) else hex_byte b) ∷ hex_parts div (suc i) bs

-- the ASCII column
unfoldable pub printable : Str → Str
printable [] = []
printable (b ∷ bs) = (if leb 32 b && ltb b 127 then b else b'.') ∷ printable bs

-- one row, for the bytes of the buffer in [row_start, row_end)
unfoldable pub hex_row : Str → ℕ → ℕ → ℕ → Str
unfolding hex_offset hex_parts printable repeat
hex_row buf row_start row_end div =
    let bytes = take (row_end - row_start) (drop row_start buf) in
    hex_offset row_start
    ++ (lit "  "
        ++ (join (lit " ") (hex_parts div row_start bytes)
            ++ ((if ltb (row_end - row_start) hex_row_size
                  then repeat ((hex_row_size - (row_end - row_start)) * hex_col_pad) (lit " ")
                  else [])
                ++ (lit "  |" ++ (printable bytes ++ lit "|\n")))))

-- the row of a buffer that ended before it
unfoldable pub blank_row : ℕ → ℕ → Str
unfolding hex_offset repeat
blank_row row_start row_width =
    hex_offset row_start ++ (lit "  " ++ (repeat row_width (lit "   ") ++ lit "\n"))

-- `hexRows` on fuel, as the rows it writes; `none` means that the fuel ran out
unfoldable pub hex_rows_loop : ℕ → Str → ℕ → ℕ → ℕ → Option (List Str)
hex_rows_loop zero buf row_start end div = none
hex_rows_loop (suc fuel) buf row_start end div =
    let row_width = min (row_start + hex_row_size) end - row_start in
    let row = hex_row buf row_start (min (row_start + row_width) (length buf)) div in
    let more = hex_rows_loop fuel buf (row_start + hex_row_size) end div in
    if not (ltb row_start end)
    then some []
    else if leb (length buf) row_start
    then some (blank_row row_start row_width ∷ [])
    else elim more [ none ↦ none | some rows ↦ some (row ∷ rows) ]

-- `hexRows`; one unit of fuel for each offset, and one for the last test, is enough
unfoldable pub hex_rows : Str → ℕ → ℕ → ℕ → Str
unfolding hex_rows_loop
hex_rows buf start end div =
    join [] (or_empty (hex_rows_loop (suc (end - start)) buf start end div))

-- what `hexOffsetDiff` writes once it has the divergence
unfoldable pub offset_report : Str → Str → Option ℕ → Str
offset_report a b none = []
offset_report a b (some div) =
    let (start, end) = context_bounds div (length a) (length b) in
    lit "length: expected "
    ++ (decimal (length a)
        ++ (lit ", got "
            ++ (decimal (length b)
                ++ (lit "\nfirst divergence at offset "
                    ++ (decimal div
                        ++ (lit " (0x"
                            ++ (hex_number div
                                ++ (lit ")\n\n--- expected\n"
                                    ++ (hex_rows a start end div
                                        ++ (lit "+++ got\n" ++ hex_rows b start end div))))))))))

-- `hexOffsetDiff`
unfoldable pub hex_offset_diff : Str → Str → Str
unfolding offset_report
hex_offset_diff a b = offset_report a b (first_divergence a b)

-- the end of `HexDiff`, on the two decoded strings
unfoldable pub diff_decoded : Str → Str → Decoded → Decoded → Str
diff_decoded expected got (err e) g = lit "Error decoding expected hex: " ++ hex_error_text e
diff_decoded expected got (ok a) (err e) = lit "Error decoding got hex: " ++ hex_error_text e
diff_decoded expected got (ok a) (ok b) = if str_eq expected got then [] else hex_offset_diff a b

-- `HexDiff`
unfoldable pub hex_diff : Str → Str → Str
unfolding diff_decoded
hex_diff expected got = diff_decoded expected got (decode_hex expected) (decode_hex got)

-- the value of little-endian bytes
unfoldable pub little_endian : Str → ℕ
little_endian [] = 0
little_endian (b ∷ bs) = b + 256 * little_endian bs

-- NaN: all exponent bits set, and a mantissa that is not zero
unfoldable pub is_nan_bits : ℕ → ℕ → ℕ → Bool
is_nan_bits exponent mantissa bits =
    bits / 2 ^ mantissa % 2 ^ exponent == 2 ^ exponent - 1 && not (bits % 2 ^ mantissa == 0)

unfoldable pub is_nan_raw : Str → Bool
unfolding little_endian is_nan_bits
is_nan_raw raw =
    if length raw == 4
    then is_nan_bits 8 23 (little_endian raw)
    else if length raw == 8
    then is_nan_bits 11 52 (little_endian raw)
    else false

unfoldable pub is_nan_decoded : Decoded → Bool
unfolding is_nan_raw
is_nan_decoded (ok raw) = is_nan_raw raw
is_nan_decoded (err e) = false

-- `isNaNHex`
unfoldable pub is_nan_hex : Value → Bool
unfolding is_nan_decoded
is_nan_hex (string s) = is_nan_decoded (decode_hex s)
is_nan_hex _ = false

-- m[k] of a `map[string]any`: a missing key reads as nil
unfoldable pub field_value : Str → Assoc Value → Value
field_value k m = elim (lookup k m) [ none ↦ null | some v ↦ v ]

-- m[k] of a `map[string]bool`
unfoldable pub flag : Str → Assoc Bool → Bool
flag k m = elim (lookup k m) [ none ↦ false | some b ↦ b ]

-- github.com/google/go-cmp: `Diff` is empty exactly when `Equal` holds.
pub record GoCmp : Type 0 where
  pub equal : Value → Value → Bool
  pub diff : Value → Value → Str
  pub diff_empty : (a b : Value) → (diff a b ≡ []) ↔ (equal a b ≡ true)

module _ (go_cmp : GoCmp) where
  open go_cmp use {equal, diff, diff_empty}

  -- the loop over `fieldOrder`
  unfoldable pub field_diffs : Assoc Value → Assoc Value → Assoc Bool → List Str → List Str
  field_diffs expected got floats [] = []
  field_diffs expected got floats (k ∷ ks) =
      let ev = field_value k expected in
      let gv = field_value k got in
      let rest = field_diffs expected got floats ks in
      if flag k floats && (is_nan_hex ev && is_nan_hex gv)
      then rest
      else if is_empty (diff ev gv)
      then rest
      else (lit "  field " ++ (quote k ++ (lit ":\n" ++ diff ev gv))) ∷ rest

  -- the loop over the keys of `got`
  unfoldable pub extra_diffs : Assoc Value → List Str → List Str
  extra_diffs expected [] = []
  extra_diffs expected (k ∷ ks) =
      if is_some (lookup k expected)
      then extra_diffs expected ks
      else (lit "  field " ++ (quote k ++ lit ": unexpected (not in expected)"))
        ∷ extra_diffs expected ks

  unfoldable pub field_order : Assoc Value → List Str → List Str
  field_order expected [] = sort (keys expected)
  field_order expected (k ∷ ks) = k ∷ ks

  -- `DataDiff`
  unfoldable pub data_diff : Assoc Value → Assoc Value → List Str → Assoc Bool → Str
  unfolding field_diffs extra_diffs field_order
  data_diff expected got order floats = join (lit "\n") (
      field_diffs expected got floats (field_order expected order)
      ++ extra_diffs expected (keys got))
