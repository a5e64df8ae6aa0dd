-- ===== src/Wire/Ranges.antt =====
-- What a scalar is decoded to lies in the range of its kind.
use mathlib.Core.Path.{subst}
use serify.Base.{
  ℕ, ◌+◌, ◌-◌, ◌*◌, ◌^◌, ◌<◌, ℤ, pos, negsuc, Bool, true, false, Option, none, some, [], ◌∷◌, ◌≡◌,
  refl, sym, arith, inl, inr, Bool-cases, ◌==◌, ==_iff, if◌then◌else◌, length, Str,
}
use serify.Base.Hex.{IsBytes, Decoded, decode_hex, decode_pair, decode_last, hex_value, cons_byte}
use serify.Kind.{Scalar}
use serify.Conf.{Value}
use serify.Proto.Encode.{Encoded, ok, err, ◌>>=◌, wrap}
use serify.Wire.{GoType, Stored, num, f32, f64, truth, text, blob}
use serify.Wire.Json.{
  Go, parse_uint, parse_int, check_uint, check_int, parse_digits, parse_big, in_range, min_i128,
  max_i128, max_u128, check_big, as_string, as_float64, as_bool, uint_from_string, int_from_string,
  big_from_string, hex_bytes, of_le_bytes, decoded,
}
use serify.Wire.Decode.{num_from_json, decode_kind}
use serify.Wire.Scalars
use serify.Wire.Scalars.{HasKind, fits}
use serify.Wire.Text.{bytes_hold}

-- Inversion of a step that succeeds.
module _ {ℓ κ} {A : Type ℓ} {B : Type κ} where
  pub bind-eq-ok :
      (m : Encoded A) (f : A → Encoded B) {b : B}
      → (m >>= f) ≡ ok b
      → (a : A) × (m ≡ ok a) × (f a ≡ ok b)
  bind-eq-ok (ok a) f h = (a, refl, h)
  bind-eq-ok (err e) f h = cc

module _ {ℓ} {A : Type ℓ} where
  pub wrap-eq-ok : (prefix : Str) (m : Encoded A) {a : A} → wrap prefix m ≡ ok a → m ≡ ok a
  wrap-eq-ok prefix (ok x) h = h
  wrap-eq-ok prefix (err e) h = cc

  pub ok_inj : {a b : A} → ok a ≡ ok b → a ≡ b
  ok_inj h = cc

  pub made :
      (m : Encoded A) (make : A → Stored) {v : Stored}
      → (m >>= λ a. ok (make a)) ≡ ok v
      → (a : A) × (m ≡ ok a) × (v ≡ make a)
  made (ok a) make h = (a, refl, cc)
  made (err e) make h = cc

check_uint_bound : (s : Str) (d : Option ℕ) (n : ℕ) → check_uint s d ≡ ok n → n < 2 ^ 64
unfolding check_uint
check_uint_bound s none n h = cc
check_uint_bound s (some m) n h = ground arith

check_int_bound :
    (s : Str) (d : Option ℤ) (n : ℤ)
    → check_int s d ≡ ok n
    → in_range (negsuc (2 ^ 63 - 1)) (pos (2 ^ 63 - 1)) n ≡ true
unfolding check_int
check_int_bound s none n h = cc
check_int_bound s (some m) n h =
    elim (Bool-cases (in_range (negsuc (2 ^ 63 - 1)) (pos (2 ^ 63 - 1)) m)) [
      | inl e ↦
          subst (λ k. in_range (negsuc (2 ^ 63 - 1)) (pos (2 ^ 63 - 1)) k ≡ true)
            (ok_inj (rw e at h)) e
      | inr e ↦ cc (rw e at h)
    ]

check_big_bound :
    (signed : Bool) (s : Str) (d : Option ℤ) (n : ℤ)
    → check_big signed s d ≡ ok n
    → in_range (if signed then min_i128 else pos 0) (if signed then max_i128 else max_u128) n ≡ true
unfolding check_big
check_big_bound signed s none n h = cc
check_big_bound true s (some m) n h = elim (Bool-cases (in_range min_i128 max_i128 m)) [
  | inl e ↦ subst (λ k. in_range min_i128 max_i128 k ≡ true) (ok_inj (rw e at h)) e
  | inr e ↦ cc (rw e at h)
]
check_big_bound false s (some m) n h = elim (Bool-cases (in_range (pos 0) max_u128 m)) [
  | inl e ↦ subst (λ k. in_range (pos 0) max_u128 k ≡ true) (ok_inj (rw e at h)) e
  | inr e ↦ cc (rw e at h)
]

hex_value_bound : (c a : ℕ) → hex_value c ≡ some a → a < 16
unfolding hex_value
hex_value_bound c a h = ground arith

decoded_inj : {a b : Str} → Decoded.ok a ≡ Decoded.ok b → a ≡ b
decoded_inj h = cc

last_fails : (c : ℕ) (bs : Str) (x : Option ℕ) → decode_last c x ≡ Decoded.ok bs → IsBytes bs
unfolding decode_last
last_fails c bs none h = cc
last_fails c bs (some a) h = cc

decode_pair-IsBytes :
    (p q : ℕ) (x y : Option ℕ) (rest : Decoded) (bs : Str)
    → ((a : ℕ) → x ≡ some a → a < 16)
    → ((b : ℕ) → y ≡ some b → b < 16)
    → ((cs : Str) → rest ≡ Decoded.ok cs → IsBytes cs)
    → decode_pair p q x y rest ≡ Decoded.ok bs
    → IsBytes bs
unfolding decode_pair cons_byte
decode_pair-IsBytes p q none y rest bs hx hy hr h = cc
decode_pair-IsBytes p q (some a) none rest bs hx hy hr h = cc
decode_pair-IsBytes p q (some a) (some b) (Decoded.err e) bs hx hy hr h = cc
decode_pair-IsBytes p q (some a) (some b) (Decoded.ok cs) bs hx hy hr h =
    let small : a * 16 + b < 256 = omega (arith, hx a refl, hy b refl) in
    subst IsBytes (decoded_inj h) (small, hr cs refl)

decode_hex-IsBytes : (s bs : Str) → decode_hex s ≡ Decoded.ok bs → IsBytes bs
unfolding decode_hex decode_last
decode_hex-IsBytes [] bs h = subst IsBytes (decoded_inj h) tt
decode_hex-IsBytes (c ∷ []) bs h = last_fails c bs (hex_value c) h
decode_hex-IsBytes (p ∷ q ∷ rest) bs h =
    decode_pair-IsBytes p q (hex_value p) (hex_value q) (decode_hex rest) bs (hex_value_bound p)
      (hex_value_bound q) (decode_hex-IsBytes rest) h

of_le_bytes_bound : (bs : Str) → IsBytes bs → of_le_bytes bs < bytes_hold (length bs)
unfolding of_le_bytes
of_le_bytes_bound [] h = omega arith
of_le_bytes_bound (b ∷ bs) h = omega (arith, of_le_bytes_bound bs h.1, h.0)

decoded-IsBytes :
    (d : Decoded) (bs : Str)
    → ((cs : Str) → d ≡ Decoded.ok cs → IsBytes cs)
    → decoded d ≡ ok bs
    → IsBytes bs
unfolding decoded
decoded-IsBytes (Decoded.ok cs) bs f h = subst IsBytes (ok_inj h) (f cs refl)
decoded-IsBytes (Decoded.err e) bs f h = cc

check_length_eq :
    (n : ℕ) (bs cs wrong : Str)
    → (if length bs == n then ok bs else err wrong) ≡ ok cs
    → (length bs ≡ n) × (bs ≡ cs)
check_length_eq n bs cs wrong h = elim (Bool-cases (length bs == n)) [
  | inl e ↦ ((==_iff _ n).0 e, ok_inj (rw e at h))
  | inr e ↦ cc (rw e at h)
]

hex_bytes_bound :
    (r : Value) (n : ℕ) (bs : Str) → hex_bytes r n ≡ ok bs → of_le_bytes bs < bytes_hold n
unfolding hex_bytes
hex_bytes_bound r n bs h =
    let (s, hs, k) = bind-eq-ok (as_string r) _ h in
    let (cs, hc, l) = bind-eq-ok (decoded (decode_hex s)) _ k in
    let (len, same) = check_length_eq n cs bs _ l in
    let bytes : IsBytes cs = decoded-IsBytes (decode_hex s) cs (decode_hex-IsBytes s) hc in
    subst (λ x. of_le_bytes x < bytes_hold n) same
      (subst (λ m. of_le_bytes cs < bytes_hold m) len (of_le_bytes_bound cs bytes))

uint_from_string_bound : (r : Value) (n : ℕ) → uint_from_string r ≡ ok n → n < 2 ^ 64
unfolding uint_from_string parse_uint
uint_from_string_bound r n h =
    let (s, _, k) = bind-eq-ok (as_string r) parse_uint h in check_uint_bound s (parse_digits s) n k

int_from_string_bound :
    (r : Value) (n : ℤ)
    → int_from_string r ≡ ok n
    → in_range (negsuc (2 ^ 63 - 1)) (pos (2 ^ 63 - 1)) n ≡ true
unfolding int_from_string parse_int
int_from_string_bound r n h =
    let (s, _, k) = bind-eq-ok (as_string r) parse_int h in check_int_bound s (parse_big s) n k

big_from_string_bound :
    (r : Value) (signed : Bool) (n : ℤ)
    → big_from_string r signed ≡ ok n
    → in_range (if signed then min_i128 else pos 0) (if signed then max_i128 else max_u128) n ≡ true
unfolding big_from_string
big_from_string_bound r signed n h =
    let (s, _, k) = bind-eq-ok (as_string r) _ h in check_big_bound signed s (parse_big s) n k

-- What is known of the conversion of a float64 to an integer type: the result is of that type.
pub record IsRanged (go : Go) : Type 0 where
  pub ranged_uint8 : (x : ℕ) → fits GoType.uint8 (go.convert GoType.uint8 x) ≡ true
  pub ranged_uint16 : (x : ℕ) → fits GoType.uint16 (go.convert GoType.uint16 x) ≡ true
  pub ranged_uint32 : (x : ℕ) → fits GoType.uint32 (go.convert GoType.uint32 x) ≡ true
  pub ranged_int8 : (x : ℕ) → fits GoType.int8 (go.convert GoType.int8 x) ≡ true
  pub ranged_int16 : (x : ℕ) → fits GoType.int16 (go.convert GoType.int16 x) ≡ true
  pub ranged_int32 : (x : ℕ) → fits GoType.int32 (go.convert GoType.int32 x) ≡ true

module _ (go : Go) (law : IsRanged go) where
  -- A scalar that is decoded is a value of its kind, in the range of the kind.
  pub decode_kind-HasKind :
      (k : Scalar) (r : Value) (v : Stored) → decode_kind go k r ≡ ok v → HasKind k v
  unfolding decode_kind num_from_json
  decode_kind-HasKind Scalar.uint8 r v h =
      let (x, _, e) = made (as_float64 r) (λ x. num GoType.uint8 (go.convert GoType.uint8 x)) h in
      subst (HasKind Scalar.uint8) (sym e) (Scalars.is_uint8 _ (law.ranged_uint8 x))
  decode_kind-HasKind Scalar.uint16 r v h =
      let (x, _, e) = made (as_float64 r) (λ x. num GoType.uint16 (go.convert GoType.uint16 x)) h in
      subst (HasKind Scalar.uint16) (sym e) (Scalars.is_uint16 _ (law.ranged_uint16 x))
  decode_kind-HasKind Scalar.uint32 r v h =
      let (x, _, e) = made (as_float64 r) (λ x. num GoType.uint32 (go.convert GoType.uint32 x)) h in
      subst (HasKind Scalar.uint32) (sym e) (Scalars.is_uint32 _ (law.ranged_uint32 x))
  decode_kind-HasKind Scalar.int8 r v h =
      let (x, _, e) = made (as_float64 r) (λ x. num GoType.int8 (go.convert GoType.int8 x)) h in
      subst (HasKind Scalar.int8) (sym e) (Scalars.is_int8 _ (law.ranged_int8 x))
  decode_kind-HasKind Scalar.int16 r v h =
      let (x, _, e) = made (as_float64 r) (λ x. num GoType.int16 (go.convert GoType.int16 x)) h in
      subst (HasKind Scalar.int16) (sym e) (Scalars.is_int16 _ (law.ranged_int16 x))
  decode_kind-HasKind Scalar.int32 r v h =
      let (x, _, e) = made (as_float64 r) (λ x. num GoType.int32 (go.convert GoType.int32 x)) h in
      subst (HasKind Scalar.int32) (sym e) (Scalars.is_int32 _ (law.ranged_int32 x))
  decode_kind-HasKind Scalar.uint64 r v h =
      let (n, q, e) = made (uint_from_string r) (λ n. num GoType.uint64 (pos n)) h in
      subst (HasKind Scalar.uint64) (sym e) (Scalars.is_uint64 n (uint_from_string_bound r n q))
  decode_kind-HasKind Scalar.int64 r v h =
      let (n, q, e) = made (int_from_string r) (λ n. num GoType.int64 n) h in
      subst (HasKind Scalar.int64) (sym e) (Scalars.is_int64 n (int_from_string_bound r n q))
  decode_kind-HasKind Scalar.uint128 r v h =
      let (n, q, e) = made (big_from_string r false) (λ n. Stored.big (some n)) h in
      subst (HasKind Scalar.uint128) (sym e)
        (Scalars.is_uint128 n (big_from_string_bound r false n q))
  decode_kind-HasKind Scalar.int128 r v h =
      let (n, q, e) = made (big_from_string r true) (λ n. Stored.big (some n)) h in
      subst (HasKind Scalar.int128) (sym e) (Scalars.is_int128 n (big_from_string_bound r true n q))
  decode_kind-HasKind Scalar.float32 r v h =
      let (bs, q, e) = made (hex_bytes r 4) (λ bs. f32 (of_le_bytes bs)) h in
      subst (HasKind Scalar.float32) (sym e) (Scalars.is_float32 _ (hex_bytes_bound r 4 bs q))
  decode_kind-HasKind Scalar.float64 r v h =
      let (bs, q, e) = made (hex_bytes r 8) (λ bs. f64 (of_le_bytes bs)) h in
      subst (HasKind Scalar.float64) (sym e) (Scalars.is_float64 _ (hex_bytes_bound r 8 bs q))
  decode_kind-HasKind Scalar.bool r v h =
      let (b, _, e) = made (as_bool r) truth h in
      subst (HasKind Scalar.bool) (sym e) (Scalars.is_bool b)
  decode_kind-HasKind Scalar.string r v h =
      let (s, _, e) = made (as_string r) text h in
      subst (HasKind Scalar.string) (sym e) (Scalars.is_string s)
  decode_kind-HasKind Scalar.bytes r v h =
      let (s, _, k) = bind-eq-ok (as_string r) _ h in
      let (bs, q, e) = made (decoded (decode_hex s)) blob k in
      subst (HasKind Scalar.bytes) (sym e)
        (Scalars.is_bytes bs (decoded-IsBytes (decode_hex s) bs (decode_hex-IsBytes s) q))
