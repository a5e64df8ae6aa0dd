-- ===== src/Schema/Items.antt =====
-- internal/conf/casedata.go: the branches of `decodeDataValue` give data of the form of the type, where
-- those of the elements do.
use mathlib.Core.Path.{subst}
use serify.Base.{
  ℕ, suc, ◌-◌, ◌^◌, ℤ, pos, negsuc, true, List, [], ◌∷◌, ◌≡◌, sym, inl, inr, Bool-cases, Str, lit,
  str_eq, Assoc, arith,
}
use serify.Kind.{Scalar}
use serify.Conf.{
  FieldType, sum, Fields, Variants, no_variants, unit_variant, variant, Value, null, int64, big,
  slice, object, Values, Entries, no_entries, entry,
}
use serify.Proto.Encode.{Encoded, ok, ◌>>=◌, wrap}
use serify.Wire.Json.{in_range, min_i128, max_i128, max_u128}
use serify.Wire.Ranges.{bind-eq-ok, wrap-eq-ok, ok_inj}
use serify.Schema.Data.{
  Yaml, ranged, as_uint64, decode_exact_int, decode_data_scalar, decode_items, decode_entries,
  only_pair, as_slice, as_entries, non_null, decode_bare,
}
use serify.Schema.Fits.{
  IsDatum, FitsType, FitAll, FitKeys, FitFields, FitsField, FitsArm, uint64_datum, int64_datum,
  uint128_datum, int128_datum, int8_datum, int16_datum, int32_datum, uint8_datum, uint16_datum,
  uint32_datum, float32_datum, float64_datum, bool_datum, string_datum, bytes_datum, missing,
  sum_fits, fit_none, fit_next, no_key, next_key, no_given, next_given, unit_arm, past_unit,
  past_arm,
}

ranged-eq-ok :
    (low high : ℤ) (kind : Str) (make : ℤ → Value) (z : ℤ) (v : Value)
    → ranged low high kind make z ≡ ok v
    → (in_range low high z ≡ true) × (v ≡ make z)
unfolding ranged
ranged-eq-ok low high kind make z v h = elim (Bool-cases (in_range low high z)) [
  | inl e ↦ (e, sym (ok_inj (rw e at h)))
  | inr e ↦ cc (rw e at h)
]

as_uint64-IsDatum :
    (z : ℤ) → in_range (pos 0) (pos (2 ^ 64 - 1)) z ≡ true → IsDatum Scalar.uint64 (as_uint64 z)
as_uint64-IsDatum (pos n) e = uint64_datum ground arith
as_uint64-IsDatum (negsuc n) e = cc

module _ (yaml : Yaml) where
  open yaml use {Node}

  exact :
      (n : Node) (low high : ℤ) (kind : Str) (make : ℤ → Value) (v : Value)
      → (decode_exact_int yaml n >>= ranged low high kind make) ≡ ok v
      → (z : ℤ) × (in_range low high z ≡ true) × (v ≡ make z)
  exact n low high kind make v h =
      let (z, _, k) = bind-eq-ok (decode_exact_int yaml n) _ h in
      let (e, same) = ranged-eq-ok low high kind make z v k in (z, e, same)

  pub scalar-IsDatum :
      (k : Scalar) (n : Node) (v : Value) → decode_data_scalar yaml k n ≡ ok v → IsDatum k v
  unfolding decode_data_scalar
  scalar-IsDatum Scalar.uint64 n v h =
      let (z, e, same) = exact n (pos 0) (pos (2 ^ 64 - 1)) (lit "uint64") as_uint64 v h in
      subst (IsDatum Scalar.uint64) (sym same) (as_uint64-IsDatum z e)
  scalar-IsDatum Scalar.int64 n v h =
      let (z, e, same) = exact n (negsuc (2 ^ 63 - 1)) (pos (2 ^ 63 - 1)) (lit "int64") int64 v h in
      subst (IsDatum Scalar.int64) (sym same) (int64_datum e)
  scalar-IsDatum Scalar.uint128 n v h =
      let (z, e, same) = exact n (pos 0) max_u128 (lit "uint128") big v h in
      subst (IsDatum Scalar.uint128) (sym same) (uint128_datum e)
  scalar-IsDatum Scalar.int128 n v h =
      let (z, e, same) = exact n min_i128 max_i128 (lit "int128") big v h in
      subst (IsDatum Scalar.int128) (sym same) (int128_datum e)
  scalar-IsDatum Scalar.int8 n v h = int8_datum
  scalar-IsDatum Scalar.int16 n v h = int16_datum
  scalar-IsDatum Scalar.int32 n v h = int32_datum
  scalar-IsDatum Scalar.uint8 n v h = uint8_datum
  scalar-IsDatum Scalar.uint16 n v h = uint16_datum
  scalar-IsDatum Scalar.uint32 n v h = uint32_datum
  scalar-IsDatum Scalar.float32 n v h = float32_datum
  scalar-IsDatum Scalar.float64 n v h = float64_datum
  scalar-IsDatum Scalar.bool n v h = bool_datum
  scalar-IsDatum Scalar.string n v h = string_datum
  scalar-IsDatum Scalar.bytes n v h = bytes_datum

  items-FitAll :
      (t : FieldType) (f : Node → Encoded Value) (i : ℕ) (ns : List Node) (vs : Values)
      → ((n : Node) (v : Value) → f n ≡ ok v → FitsType t v)
      → decode_items yaml f i ns ≡ ok vs
      → FitAll t vs
  unfolding decode_items
  items-FitAll t f i [] vs g h = subst (FitAll t) (ok_inj h) fit_none
  items-FitAll t f i (n ∷ ns) vs g h =
      let (v, hv, k) = bind-eq-ok (wrap _ (f n)) _ h in
      let (ws, hw, l) = bind-eq-ok (decode_items yaml f (suc i) ns) _ k in
      subst (FitAll t) (ok_inj l)
        (fit_next (g n v (wrap-eq-ok _ _ hv)) (items-FitAll t f (suc i) ns ws g hw))

  pub keys-FitKeys :
      (t : FieldType) (label : Str → Str) (f : Node → Encoded Value) (m : Assoc Node) (es : Entries)
      → ((n : Node) (v : Value) → f n ≡ ok v → FitsType t v)
      → decode_entries yaml label (λ key x. f x) m ≡ ok es
      → FitKeys t es
  unfolding decode_entries
  keys-FitKeys t label f [] es g h = subst (FitKeys t) (ok_inj h) no_key
  keys-FitKeys t label f ((key, n) ∷ m) es g h =
      let (v, hv, k) = bind-eq-ok (wrap _ (f n)) _ h in
      let (ws, hw, l) = bind-eq-ok (decode_entries yaml label (λ key x. f x) m) _ k in
      subst (FitKeys t) (ok_inj l)
        (next_key (g n v (wrap-eq-ok _ _ hv)) (keys-FitKeys t label f m ws g hw))

  pub fields-FitFields :
      (fs : Fields) (label : Str → Str) (f : Str → Node → Encoded Value) (m : Assoc Node)
      (es : Entries)
      → ((key : Str) (n : Node) (v : Value) → f key n ≡ ok v → FitsField fs key v)
      → decode_entries yaml label f m ≡ ok es
      → FitFields fs es
  unfolding decode_entries
  fields-FitFields fs label f [] es g h = subst (FitFields fs) (ok_inj h) no_given
  fields-FitFields fs label f ((key, n) ∷ m) es g h =
      let (v, hv, k) = bind-eq-ok (wrap _ (f key n)) _ h in
      let (ws, hw, l) = bind-eq-ok (decode_entries yaml label f m) _ k in
      subst (FitFields fs) (ok_inj l)
        (next_given (g key n v (wrap-eq-ok _ _ hv)) (fields-FitFields fs label f m ws g hw))

  pub or_missing :
      (t : FieldType) (f : Node → Encoded Value) (n : Node) (v : Value)
      → ((w : Value) → f n ≡ ok w → FitsType t w)
      → non_null yaml f n ≡ ok v
      → FitsType t v
  or_missing t f n v g h = elim (Bool-cases (yaml.is_null n)) [
    | inl e ↦ subst (FitsType t) (ok_inj (rw e at h)) missing
    | inr e ↦ g v (rw e at h)
  ]

  pub slice_fits :
      (whole t : FieldType) (f : Node → Encoded Value) (n : Node) (w : Value)
      → ((vs : Values) → FitAll t vs → FitsType whole (slice vs))
      → ((x : Node) (v : Value) → f x ≡ ok v → FitsType t v)
      → as_slice yaml f n ≡ ok w
      → FitsType whole w
  slice_fits whole t f n w make g h =
      let (ns, _, k) =
        bind-eq-ok (yaml.as_items n) (λ ns. decode_items yaml f 0 ns >>= λ vs. ok (slice vs)) h in
      let (vs, hv, l) = bind-eq-ok (decode_items yaml f 0 ns) (λ vs. ok (slice vs)) k in
      subst (FitsType whole) (ok_inj l) (make vs (items-FitAll t f 0 ns vs g hv))

  pub entries_fit :
      (whole : FieldType) (P : Entries → Type 0) (label : Str → Str)
      (f : Str → Node → Encoded Value) (n : Node) (w : Value)
      → ((es : Entries) → P es → FitsType whole (object es))
      → ((m : Assoc Node) (es : Entries) → decode_entries yaml label f m ≡ ok es → P es)
      → as_entries yaml label f n ≡ ok w
      → FitsType whole w
  entries_fit whole P label f n w make g h =
      let (m, _, k) =
        bind-eq-ok (yaml.as_map n) (λ m. decode_entries yaml label f m >>= λ es. ok (object es))
          h in
      let (es, he, l) = bind-eq-ok (decode_entries yaml label f m) (λ es. ok (object es)) k in
      subst (FitsType whole) (ok_inj l) (make es (g m es he))

  pub pair_fits :
      (vs : Variants) (f : Str → Node → Encoded Value) (m : Assoc Node) (v : Value)
      → ((tag : Str) (n : Node) (w : Value) → f tag n ≡ ok w → FitsType (sum vs) w)
      → only_pair yaml f m ≡ ok v
      → FitsType (sum vs) v
  unfolding only_pair
  pair_fits vs f [] v g h = cc
  pair_fits vs f ((tag, n) ∷ []) v g h = g tag n v h
  pair_fits vs f (p ∷ q ∷ m) v g h = cc

  -- The decoded value of a tag is one map of the tag to a payload of its variant.
  abbrev pub GivesArm : Variants → Str → Value → Type 0
  GivesArm vs tag v = (w : Value) × FitsArm vs tag w × (v ≡ object (entry tag w no_entries))

  pub arm_fits : (vs : Variants) (tag : Str) (v : Value) → GivesArm vs tag v → FitsType (sum vs) v
  arm_fits vs tag v (w, a, e) = subst (FitsType (sum vs)) (sym e) (sum_fits a)

  pub bare_fits :
      (vs : Variants) (tag : Str) (v : Value) → decode_bare yaml vs tag ≡ ok v → GivesArm vs tag v
  unfolding decode_bare
  bare_fits no_variants tag v h = cc
  bare_fits (unit_variant name vs) tag v h = elim (Bool-cases (str_eq name tag)) [
    | inl e ↦ (null, unit_arm e, sym (ok_inj (rw e at h)))
    | inr e ↦ let (w, a, same) = bare_fits vs tag v (rw e at h) in (w, past_unit e a, same)
  ]
  bare_fits (variant name t vs) tag v h = elim (Bool-cases (str_eq name tag)) [
    | inl e ↦ cc (rw e at h)
    | inr e ↦ let (w, a, same) = bare_fits vs tag v (rw e at h) in (w, past_arm e a, same)
  ]
