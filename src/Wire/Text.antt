-- ===== src/Wire/Text.antt =====
-- The text of numbers and types on the wire is read back as it was written: the digits of
-- `strconv.FormatInt`, the arguments of a type's text, little-endian bytes.
use serify.Base.{
  ℕ, zero, suc, ◌+◌, ◌-◌, ◌*◌, ◌/◌, ◌%◌, ◌^◌, ◌≤◌, ◌<◌, ℤ, pos, negsuc, true, false, some, [], ◌∷◌,
  ◌++◌, ◌≡◌, refl, ap, ◌∙◌, arith, inl, inr, Bool-cases, ltb, length, is_empty, Str, decimal,
  decimal_ℤ, All,
}
use serify.Base.Format.{decimal_loop}
use serify.Base.Hex.{IsBytes}
use serify.Proto.Encode.{ok, le_bytes}
use serify.Wire.{drop_last}
use serify.Wire.Json.{
  digits_from, parse_digits, parse_big, negate, as_pos, as_neg, of_le_bytes, parse_uint, parse_int,
  check_uint, check_int, in_range,
}

-- A text of digits, with at least one.
abbrev pub IsDigit : ℕ → Type 0
IsDigit c = (48 ≤ c) × (c ≤ 57)

abbrev pub IsNumber : Str → Type 0
IsNumber [] = ⊥
IsNumber (c ∷ s) = IsDigit c × All IsDigit s

decimal_loop-IsNumber :
    (fuel n c : ℕ) (out : Str)
    → IsDigit c
    → All IsDigit out
    → IsNumber (decimal_loop fuel n (c ∷ out))
unfolding decimal_loop
decimal_loop-IsNumber zero n c out h k = (h, k)
decimal_loop-IsNumber (suc fuel) n c out h k =
    let digit : IsDigit (48 + n % 10) = (omega arith, omega arith) in
    elim (Bool-cases (ltb n 10)) [
      | inl last ↦ rw last (digit, (h, k))
      | inr more ↦
          rw more (decimal_loop-IsNumber fuel (n / 10) (48 + n % 10) (c ∷ out) digit (h, k))
    ]

pub decimal-IsNumber : (n : ℕ) → IsNumber (decimal n)
unfolding decimal decimal_loop
decimal-IsNumber n =
    let digit : IsDigit (48 + n % 10) = (omega arith, omega arith) in
    elim (Bool-cases (ltb n 10)) [
      | inl last ↦ rw last (digit, tt)
      | inr more ↦ rw more (decimal_loop-IsNumber n (n / 10) (48 + n % 10) [] digit tt)
    ]

digits_from-digit :
    (m d : ℕ) (s : Str) → d < 10 → digits_from m ((48 + d) ∷ s) ≡ digits_from (m * 10 + d) s
unfolding digits_from
digits_from-digit m d s h =
    let value : m * 10 + (48 + d - 48) ≡ m * 10 + d = omega arith in rw value (ground arith)

digits_from-decimal_loop :
    (fuel n : ℕ) (out : Str)
    → n < fuel
    → digits_from 0 (decimal_loop fuel n out) ≡ digits_from n out
unfolding decimal_loop
digits_from-decimal_loop zero n out h = elim h [ ]
digits_from-decimal_loop (suc fuel) n out h = elim (Bool-cases (ltb n 10)) [
  | inl last ↦
      rw last (
        digits_from-digit 0 (n % 10) out (omega arith) ∙ ap (λ k. digits_from k out) (ground arith))
  | inr more ↦ rw more (
      digits_from-decimal_loop fuel (n / 10) ((48 + n % 10) ∷ out) (ground arith)
      ∙ digits_from-digit (n / 10) (n % 10) out (omega arith)
      ∙ ap (λ k. digits_from k out) (omega arith))
]

IsNumber-is_empty : (s : Str) → IsNumber s → is_empty s ≡ false
IsNumber-is_empty [] h = absurd h
IsNumber-is_empty (c ∷ s) h = refl

digits-decimal : (n : ℕ) → digits_from 0 (decimal n) ≡ some n
unfolding decimal digits_from
digits-decimal n = digits_from-decimal_loop (suc n) n [] (omega arith)

parse_digits-decimal : (n : ℕ) → parse_digits (decimal n) ≡ some n
unfolding parse_digits
parse_digits-decimal n = rw (IsNumber-is_empty (decimal n) (decimal-IsNumber n)) (digits-decimal n)

parse_big-number : (s : Str) → IsNumber s → parse_big s ≡ as_pos (parse_digits s)
unfolding parse_big
parse_big-number [] h = absurd h
parse_big-number (c ∷ s) h = ground arith

-- The decimal text of an integer is read back as the integer.
pub parse_big-decimal_ℤ : (n : ℤ) → parse_big (decimal_ℤ n) ≡ some n
unfolding decimal_ℤ
parse_big-decimal_ℤ (pos n) =
    parse_big-number (decimal n) (decimal-IsNumber n) ∙ ap as_pos (parse_digits-decimal n)
parse_big-decimal_ℤ (negsuc n) = unfold parse_big negate in ap as_neg (parse_digits-decimal (suc n))

pub parse_uint-decimal : (n : ℕ) → n < 2 ^ 64 → parse_uint (decimal n) ≡ ok n
unfolding parse_uint check_uint
parse_uint-decimal n h = rw (parse_digits-decimal n, parse_uint) (ground arith)

pub parse_int-decimal_ℤ :
    (n : ℤ)
    → in_range (negsuc (2 ^ 63 - 1)) (pos (2 ^ 63 - 1)) n ≡ true
    → parse_int (decimal_ℤ n) ≡ ok n
unfolding parse_int check_int
parse_int-decimal_ℤ n h = rw (parse_big-decimal_ℤ n, parse_int) (rw h)

-- Little-endian bytes.
pub le_bytes-IsBytes : (n bits : ℕ) → IsBytes (le_bytes n bits)
unfolding le_bytes
le_bytes-IsBytes zero bits = tt
le_bytes-IsBytes (suc n) bits = (omega arith, le_bytes-IsBytes n (bits / 256))

pub length-le_bytes : (n bits : ℕ) → length (le_bytes n bits) ≡ n
unfolding le_bytes
length-le_bytes zero bits = refl
length-le_bytes (suc n) bits = ap suc (length-le_bytes n (bits / 256))

abbrev pub bytes_hold : ℕ → ℕ
bytes_hold zero = 1
bytes_hold (suc n) = 256 * bytes_hold n

pub of_le_bytes-le_bytes : (n bits : ℕ) → bits < bytes_hold n → of_le_bytes (le_bytes n bits) ≡ bits
unfolding of_le_bytes le_bytes
of_le_bytes-le_bytes zero bits h = omega arith
of_le_bytes-le_bytes (suc n) bits h =
    omega (arith, of_le_bytes-le_bytes n (bits / 256) (omega arith))

-- The arguments of a type's text.
pub drop_last-append : (s : Str) (c : ℕ) → drop_last (s ++ c ∷ []) ≡ some s
unfolding drop_last
drop_last-append [] c = refl
drop_last-append (x ∷ []) c = refl
drop_last-append (x ∷ y ∷ s) c = rw (drop_last-append (y ∷ s) c)
