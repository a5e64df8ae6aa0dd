-- ===== src/Wire/Utf8.antt =====
-- The texts of a field map that JSON carries as they are: those that are valid UTF-8.
use serify.Base.{
  ℕ, zero, suc, ◌<◌, ◌+◌, ◌%◌, ◌/◌, ltb, pos, negsuc, ℤ, some, [], ◌∷◌, ◌≡◌, refl, ap, arith, All,
  inl, inr, Bool-cases, Str, as_utf8, decimal, decimal_ℤ, hex_byte,
}
use serify.Base.Utf8.{bytes_after, utf8_from}
use serify.Base.Format.{decimal_loop, hex_digit}
use serify.Base.Hex.{encode_hex}
use serify.Wire.{
  GoType, Stored, text, slice_of, nested, go_map, variant_of, Stores, no_stores, store, Pairs,
  no_pairs, pair,
}
use serify.Wire.Decode.{make_slice, bytes_of_stores}
use serify.Wire.Encode.{elements, stores_of_bytes}
use mathlib.Core.Path.{subst}

-- The texts, the keys and the tags are valid UTF-8.
unfoldable mutual
  pub IsText : Stored → Type 0
  IsText (text s) = as_utf8 s ≡ s
  IsText (slice_of t vs) = AreTexts vs
  IsText (nested ps) = AreTextPairs ps
  IsText (go_map ps) = AreTextPairs ps
  IsText (variant_of tag v) = (as_utf8 tag ≡ tag) × IsText v
  IsText _ = Unit {0}

  pub AreTexts : Stores → Type 0
  AreTexts no_stores = Unit {0}
  AreTexts (store v vs) = IsText v × AreTexts vs

  pub AreTextPairs : Pairs → Type 0
  AreTextPairs no_pairs = Unit {0}
  AreTextPairs (pair k v ps) = (as_utf8 k ≡ k) × IsText v × AreTextPairs ps

abbrev IsAscii : Str → Type 0
IsAscii s = All (λ c. c < 128) s

ascii_first : (c : ℕ) (s : Str) → c < 128 → bytes_after c s ≡ some 0
unfolding bytes_after
ascii_first c s h = ground (arith, h)

utf8_from-ascii : (s : Str) → IsAscii s → utf8_from zero s ≡ s
unfolding utf8_from
utf8_from-ascii [] h = refl
utf8_from-ascii (c ∷ s) h =
    rw (ascii_first c s h.0, utf8_from) (ap (λ t. c ∷ t) (utf8_from-ascii s h.1))

as_utf8-ascii : (s : Str) → IsAscii s → as_utf8 s ≡ s
unfolding as_utf8
as_utf8-ascii s h = utf8_from-ascii s h

decimal_loop-IsAscii : (fuel n : ℕ) (out : Str) → IsAscii out → IsAscii (decimal_loop fuel n out)
unfolding decimal_loop
decimal_loop-IsAscii zero n out h = h
decimal_loop-IsAscii (suc fuel) n out h =
    let small : b'0' + n % 10 < 128 = omega arith in
    elim (Bool-cases (ltb n 10)) [
      | inl e ↦ rw e (small, h)
      | inr e ↦ rw e (decimal_loop-IsAscii fuel (n / 10) ((b'0' + n % 10) ∷ out) (small, h))
    ]

pub as_utf8-decimal_ℤ : (n : ℤ) → as_utf8 (decimal_ℤ n) ≡ decimal_ℤ n
unfolding decimal_ℤ decimal
as_utf8-decimal_ℤ (pos n) = as_utf8-ascii _ (decimal_loop-IsAscii (suc n) n [] tt)
as_utf8-decimal_ℤ (negsuc n) =
    as_utf8-ascii _ (omega arith, decimal_loop-IsAscii (suc (suc n)) (suc n) [] tt)

hex_digit-bound : (n : ℕ) → hex_digit n < 128
unfolding hex_digit
hex_digit-bound n = ground arith

encode_hex-IsAscii : (bs : Str) → IsAscii (encode_hex bs)
unfolding encode_hex hex_byte
encode_hex-IsAscii [] = tt
encode_hex-IsAscii (b ∷ bs) =
    (hex_digit-bound (b / 16), (hex_digit-bound (b % 16), encode_hex-IsAscii bs))

pub as_utf8-encode_hex : (bs : Str) → as_utf8 (encode_hex bs) ≡ encode_hex bs
as_utf8-encode_hex bs = as_utf8-ascii (encode_hex bs) (encode_hex-IsAscii bs)

some_inj {ℓ} : {A : Type ℓ} {a b : A} → some a ≡ some b → a ≡ b
some_inj h = cc

AreTexts-stores_of_bytes : (bs : Str) → AreTexts (stores_of_bytes bs)
unfolding stores_of_bytes AreTexts
AreTexts-stores_of_bytes [] = tt
AreTexts-stores_of_bytes (b ∷ bs) = (tt, AreTexts-stores_of_bytes bs)

pub make_slice-AreTexts :
    (t : GoType) (vs : Stores)
    → elements t (make_slice t vs) ≡ some vs
    → IsText (make_slice t vs)
    → AreTexts vs
unfolding elements make_slice IsText
make_slice-AreTexts GoType.uint8 vs e h =
    subst AreTexts (some_inj e) (AreTexts-stores_of_bytes (bytes_of_stores vs))
make_slice-AreTexts _ vs e h = h
