-- ===== src/Wire/Kept.antt =====
-- lib/go/serify/fieldmap.go: what the setters of a field map keep.
use serify.Base.{
  ◌≢◌, false, Option, none, some, ◌≡◌, refl, sym, ap, ◌∙◌, inl, inr, Bool-cases, Str, str_eq,
  str_eq_iff, ◌↔◌,
}
use serify.Proto.Encode.{ok}
use serify.Wire.Ranges.{ok_inj}
use serify.Wire.{Stored, nil, Pairs, no_pairs, pair, go_type_of, find_pair}
use serify.Wire.Access.{set_field, typed, get_typed}

pub find_pair-set_field :
    (key : Str) (v : Stored) (fm : Pairs) → find_pair key (set_field key v fm) ≡ some v
unfolding set_field find_pair
find_pair-set_field key v no_pairs = rw ((str_eq_iff key key).1 refl) refl
find_pair-set_field key v (pair k w fm) = elim (Bool-cases (str_eq k key)) [
  | inl e ↦ rw e (rw e refl)
  | inr e ↦ rw e (rw e (find_pair-set_field key v fm))
]

pub find_pair-set_field-other :
    (key other : Str) (v : Stored) (fm : Pairs)
    → str_eq key other ≡ false
    → find_pair other (set_field key v fm) ≡ find_pair other fm
unfolding set_field find_pair
find_pair-set_field-other key other v no_pairs d = rw d refl
find_pair-set_field-other key other v (pair k w fm) d = elim (Bool-cases (str_eq k key)) [
  | inl e ↦ rw (e, ap (λ x. str_eq x other) ((str_eq_iff k key).0 e) ∙ d) refl
  | inr e ↦ rw (e, find_pair-set_field-other key other v fm d) refl
]

typed-eq-ok :
    (typ key : Str) (v w : Stored)
    → (typed typ key (some v) ≡ ok w) ↔ ((go_type_of v ≡ typ) × (w ≡ v))
unfolding typed
typed-eq-ok typ key v w = elim (Bool-cases (str_eq (go_type_of v) typ)) [
  | inl e ↦ (λ h. ((str_eq_iff _ _).0 e, sym (ok_inj (rw e at h))), λ h. rw e (ap ok (sym h.1)))
  | inr e ↦ (λ h. cc (rw e at h), λ h. cc (e, (str_eq_iff (go_type_of v) typ).1 h.0))
]

-- After a setter has stored a value at a key, a typed getter gives a value for the key exactly where its
-- Go type is the type of what was stored, and then it gives that; what it gives for another key is what
-- it gave before.
pub get_typed-set_field :
    (key other typ : Str) (v w : Stored) (fm : Pairs)
    → str_eq key other ≡ false
    → ((get_typed typ (set_field key v fm) key ≡ ok w) ↔ ((go_type_of v ≡ typ) × (w ≡ v)))
      × (get_typed typ (set_field key v fm) other ≡ get_typed typ fm other)
unfolding get_typed
get_typed-set_field key other typ v w fm d = (
  rw (find_pair-set_field key v fm) (typed-eq-ok typ key v w),
  ap (typed typ other) (find_pair-set_field-other key other v fm d),
)

-- A value of the Go type, whatever it is, or none.
abbrev pub IsOptional : Str → Option Stored → Type 0
IsOptional typ none = Unit {0}
IsOptional typ (some v) = (v ≢ nil) × (go_type_of v ≡ typ)
