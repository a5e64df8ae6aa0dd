-- ===== src/Kind.antt =====
-- internal/kind: the names of the wire types, and the split of a type's arguments.
pub mod Split
pub mod Tests
use serify.Base.{
  ℕ, zero, suc, Bool, true, false, ◌&&◌, ◌||◌, List, [], ◌∷◌, Str, lit, ℤ, pos, negsuc,
  if◌then◌else◌, ◌==◌,
}

-- The scalar kinds.
pub data Scalar : Type 0 where
  uint8 uint16 uint32 uint64 uint128 : Scalar
  int8 int16 int32 int64 int128 : Scalar
  float32 float64 : Scalar
  bool string bytes : Scalar

-- the spelling in a schema
unfoldable pub spell : Scalar → Str
spell uint8 = lit "uint8"
spell uint16 = lit "uint16"
spell uint32 = lit "uint32"
spell uint64 = lit "uint64"
spell uint128 = lit "uint128"
spell int8 = lit "int8"
spell int16 = lit "int16"
spell int32 = lit "int32"
spell int64 = lit "int64"
spell int128 = lit "int128"
spell float32 = lit "float32"
spell float64 = lit "float64"
spell bool = lit "bool"
spell string = lit "string"
spell bytes = lit "bytes"

-- `Scalars`
abbrev pub scalars : List Scalar
scalars =
    uint8 ∷ uint16 ∷ uint32 ∷ uint64 ∷ uint128 ∷ int8 ∷ int16 ∷ int32 ∷ int64 ∷ int128 ∷ float32
    ∷ float64 ∷ bool ∷ string ∷ bytes ∷ []

unfoldable pub up : ℤ → ℤ
up (pos n) = pos (suc n)
up (negsuc zero) = pos 0
up (negsuc (suc n)) = negsuc n

unfoldable pub down : ℤ → ℤ
down (pos zero) = negsuc 0
down (pos (suc n)) = pos n
down (negsuc n) = negsuc (suc n)

-- the depth after a character
unfoldable pub next_depth : ℤ → ℕ → ℤ
unfolding up down
next_depth depth c =
    if c == b'<' || c == b'['
    then up depth
    else if c == b'>' || c == b']'
    then down depth
    else depth

abbrev at_top : ℤ → Bool
at_top (pos zero) = true
at_top _ = false

-- a comma at depth 0
unfoldable pub splits_here : ℤ → ℕ → Bool
splits_here depth c = c == b',' && at_top depth

-- the part that is being read, and the parts after it
unfoldable pub split_from : ℤ → Str → Str × List Str
unfolding next_depth splits_here
split_from depth [] = ([], [])
split_from depth (c ∷ s) =
    let (head, rest) = split_from (next_depth depth c) s in
    if splits_here depth c then ([], head ∷ rest) else (c ∷ head, rest)

-- `SplitTopLevel`
unfoldable pub split_top_level : Str → List Str
unfolding split_from
split_top_level s = let (head, rest) = split_from (pos 0) s in head ∷ rest
