-- ===== src/Schema/Valid.antt =====
-- internal/conf/conf.go: the types under test that `validate` accepts.
use serify.Base.{
  ℕ, true, false, Option, none, some, List, [], ◌∷◌, ◌++◌, ◌≡◌, refl, ◌⊎◌, ◌↔◌, inl, inr,
  Bool-cases, All, is_empty, Str, lit, Assoc,
}
use serify.Kind.{Scalar}
use serify.Report.{is_nil}
use serify.Conf.{
  FieldType, scalar, optional, list, array, map, struct, enum, sum, Field, Fields, Variants,
  TestCase, CasesFile, Value, null, bool, int, int64, uint64, big, float32, float64, string, slice,
  object, contains_str,
}
use serify.Schema.Validate.{
  first_error, in_context, field_type_of, validate_variant, validate_enum, case_text,
  validate_field, validate_content, validate_cases, validate,
}

-- A value of an enum is one of its variants; a value of another type may be any.
pub data IsDeclared : FieldType → Value → Type 0 where
  variant_of :
      {values : List Str} {s : Str}
      → contains_str values s ≡ true
      → IsDeclared (enum values) (string s)
  scalar_any : {k : Scalar} {v : Value} → IsDeclared (scalar k) v
  optional_any : {t : FieldType} {v : Value} → IsDeclared (optional t) v
  list_any : {t : FieldType} {v : Value} → IsDeclared (list t) v
  array_any : {t : FieldType} {n : ℕ} {v : Value} → IsDeclared (array t n) v
  map_any : {k t : FieldType} {v : Value} → IsDeclared (map k t) v
  struct_any : {fs : Fields} {v : Value} → IsDeclared (struct fs) v
  sum_any : {vs : Variants} {v : Value} → IsDeclared (sum vs) v

-- The schema has the field, and its value is declared.
abbrev pub IsGiven : List Field → Str × Value → Type 0
IsGiven schema (key, v) = (t : FieldType) × (field_type_of key schema ≡ some t) × IsDeclared t v

abbrev pub IsCase : List Field → TestCase → Type 0
IsCase schema tc = (is_empty tc.name ≡ false) × All (IsGiven schema) tc.content

pub record IsValid (cf : CasesFile) : Type 0 where
  pub has_schema : is_nil cf.schema ≡ false
  pub has_formats : (is_nil cf.cases ≡ true) ⊎ (is_nil cf.formats ≡ false)
  pub are_cases : All (IsCase cf.schema) cf.cases

first_error-none_iff : (a b : Option Str) → (first_error a b ≡ none) ↔ ((a ≡ none) × (b ≡ none))
first_error-none_iff none b = (λ h. (refl, h), λ h. h.1)
first_error-none_iff (some e) b = (λ h. cc, λ h. h.0)

in_context-none_iff : (prefix : Str) (a : Option Str) → (in_context prefix a ≡ none) ↔ (a ≡ none)
in_context-none_iff prefix none = (λ h. h, λ h. h)
in_context-none_iff prefix (some e) = (λ h. cc, λ h. cc)

validate_variant-none :
    (values : List Str) (v : Value) → validate_variant values v ≡ none → IsDeclared (enum values) v
unfolding validate_variant
validate_variant-none values (string s) h = elim (Bool-cases (contains_str values s)) [
  | inl e ↦ variant_of e
  | inr e ↦ cc (rw e at h)
]
validate_variant-none values null h = cc
validate_variant-none values (bool b) h = cc
validate_variant-none values (int n) h = cc
validate_variant-none values (int64 n) h = cc
validate_variant-none values (uint64 n) h = cc
validate_variant-none values (big n) h = cc
validate_variant-none values (float32 f) h = cc
validate_variant-none values (float64 f) h = cc
validate_variant-none values (slice vs) h = cc
validate_variant-none values (object es) h = cc

validate_enum-none : (t : FieldType) (v : Value) → validate_enum t v ≡ none → IsDeclared t v
unfolding validate_enum
validate_enum-none (enum values) v h = validate_variant-none values v h
validate_enum-none (scalar k) v h = scalar_any
validate_enum-none (optional t) v h = optional_any
validate_enum-none (list t) v h = list_any
validate_enum-none (array t n) v h = array_any
validate_enum-none (map k t) v h = map_any
validate_enum-none (struct fs) v h = struct_any
validate_enum-none (sum vs) v h = sum_any

IsDeclared-validate_enum : (t : FieldType) (v : Value) → IsDeclared t v → validate_enum t v ≡ none
unfolding validate_enum validate_variant
IsDeclared-validate_enum _ _ (variant_of e) = rw e
IsDeclared-validate_enum _ _ scalar_any = refl
IsDeclared-validate_enum _ _ optional_any = refl
IsDeclared-validate_enum _ _ list_any = refl
IsDeclared-validate_enum _ _ array_any = refl
IsDeclared-validate_enum _ _ map_any = refl
IsDeclared-validate_enum _ _ struct_any = refl
IsDeclared-validate_enum _ _ sum_any = refl

validate_field-none_iff :
    (schema : List Field) (case_name key : Str) (v : Value)
    → (validate_field case_name key (field_type_of key schema) v ≡ none) ↔ IsGiven schema (key, v)
validate_field-none_iff schema case_name key v = (
  go (field_type_of key schema),
  λ (t, e, d). rw e (
      (in_context-none_iff (case_text case_name key ++ lit ": ") (validate_enum t v)).1
        (IsDeclared-validate_enum t v d)),
)
  where
    go :
        (found : Option FieldType)
        → validate_field case_name key found v ≡ none
        → (t : FieldType) × (found ≡ some t) × IsDeclared t v
    go none h = cc
    go (some t) h = (
      t,
      refl,
      validate_enum-none t v
          ((in_context-none_iff (case_text case_name key ++ lit ": ") (validate_enum t v)).0 h),
    )

validate_content-none_iff :
    (schema : List Field) (case_name : Str) (m : Assoc Value)
    → (validate_content schema case_name m ≡ none) ↔ All (IsGiven schema) m
unfolding validate_content
validate_content-none_iff schema case_name [] = (λ h. tt, λ h. refl)
validate_content-none_iff schema case_name ((key, v) ∷ m) =
    let here = validate_field-none_iff schema case_name key v in
    let rest = validate_content-none_iff schema case_name m in
    let both =
      first_error-none_iff (validate_field case_name key (field_type_of key schema) v)
        (validate_content schema case_name m) in
    (λ h. (here.0 (both.0 h).0, rest.0 (both.0 h).1), λ h. both.1 (here.1 h.0, rest.1 h.1))

validate_cases-none_iff :
    (schema : List Field) (cases : List TestCase)
    → (validate_cases schema cases ≡ none) ↔ All (IsCase schema) cases
unfolding validate_cases
validate_cases-none_iff schema [] = (λ h. tt, λ h. refl)
validate_cases-none_iff schema (tc ∷ cases) =
    let here = validate_content-none_iff schema tc.name tc.content in
    let rest = validate_cases-none_iff schema cases in
    let both =
      first_error-none_iff (validate_content schema tc.name tc.content)
        (validate_cases schema cases) in
    elim (Bool-cases (is_empty tc.name)) [
      | inl e ↦ (λ h. cc (rw e at h), λ h. cc (e, h.0.0))
      | inr e ↦ (
        λ h. let k = both.0 (rw e at h) in ((e, here.0 k.0), rest.0 k.1),
        λ h. rw e (both.1 (here.1 h.0.1, rest.1 h.1)),
      )
    ]

-- `validate` accepts a type under test exactly where its schema has a field, it names a format if it
-- has a case, and each case has a name and gives values only to fields of the schema, to a field of
-- an enum type one of the enum's variants.
pub validate-none_iff : (cf : CasesFile) → (validate cf ≡ none) ↔ IsValid cf
unfolding validate
validate-none_iff cf =
    let rest = validate_cases-none_iff cf.schema cf.cases in
    elim (Bool-cases (is_nil cf.schema)) [
      | inl e ↦ (λ h. cc (rw e at h), λ h. cc (e, h.has_schema))
      | inr e ↦ elim (Bool-cases (is_nil cf.cases)) [
        | inl c ↦ (
          λ h. record {
            has_schema = e;
            has_formats = inl c;
            are_cases = rest.0 (rw c at (rw e at h));
          },
          λ h. rw (e, c) (rest.1 h.are_cases),
        )
        | inr c ↦ elim (Bool-cases (is_nil cf.formats)) [
          | inl f ↦ (
            λ h. cc (rw f at (rw c at (rw e at h))),
            λ h. elim h.has_formats [ inl k ↦ cc (c, k) | inr k ↦ cc (f, k) ],
          )
          | inr f ↦ (
            λ h. record {
              has_schema = e;
              has_formats = inr f;
              are_cases = rest.0 (rw f at (rw c at (rw e at h)));
            },
            λ h. rw (e, c, f) (rest.1 h.are_cases),
          )
        ]
      ]
    ]
