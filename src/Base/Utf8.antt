-- ===== src/Base/Utf8.antt =====
-- What encoding/json makes of a string: a byte that is no part of valid UTF-8 becomes U+FFFD.
use Prim.Native.Nat.{ℕ, zero, suc}
use mathlib.Core.Bool.{Bool, false, ◌&&◌, ◌||◌}
use mathlib.Core.Option.{Option, none, some}
use mathlib.Core.List.{[], ◌∷◌}
use serify.Base.Tests.{leb, ltb, ◌==◌, if◌then◌else◌}
use serify.Base.Text.{Str}

abbrev within : ℕ → ℕ → ℕ → Bool
within low high c = leb low c && leb c high

-- a continuation byte
abbrev continues : ℕ → Bool
continues c = within 128 191 c

-- Two, three and four bytes that encode a character: no overlong form, no surrogate, nothing above
-- U+10FFFF.
abbrev two_bytes : ℕ → Str → Bool
two_bytes c (d ∷ s) = within 194 223 c && continues d
two_bytes c _ = false

abbrev three_bytes : ℕ → Str → Bool
three_bytes c (d ∷ e ∷ s) =
    continues e
    && ((c == 224 && within 160 191 d)
        || ((c == 237 && within 128 159 d)
            || ((within 225 236 c || within 238 239 c) && continues d)))
three_bytes c _ = false

abbrev four_bytes : ℕ → Str → Bool
four_bytes c (d ∷ e ∷ f ∷ s) =
    continues e
    && (continues f
        && ((c == 240 && within 144 191 d)
            || ((c == 244 && within 128 143 d) || (within 241 243 c && continues d))))
four_bytes c _ = false

-- how many bytes after the first belong to the same character
unfoldable pub bytes_after : ℕ → Str → Option ℕ
bytes_after c s =
    if ltb c 128
    then some 0
    else if two_bytes c s
    then some 1
    else if three_bytes c s
    then some 2
    else if four_bytes c s
    then some 3
    else none

-- the string behind the first bytes, which are copied
unfoldable pub utf8_from : ℕ → Str → Str
unfolding bytes_after
utf8_from n [] = []
utf8_from zero (c ∷ s) = elim (bytes_after c s) [
  | none ↦ 239 ∷ 191 ∷ 189 ∷ utf8_from zero s
  | some k ↦ c ∷ utf8_from k s
]
utf8_from (suc n) (c ∷ s) = c ∷ utf8_from n s

unfoldable pub as_utf8 : Str → Str
unfolding utf8_from
as_utf8 s = utf8_from zero s
