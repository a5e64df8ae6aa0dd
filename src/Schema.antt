-- ===== src/Schema.antt =====
-- internal/conf/schema.go: type files and the resolution of their type expressions. The reading of the
-- YAML files is left out: a file's sections are arguments.
pub mod Resolve
pub mod Text
pub mod Parse
pub mod Read
pub mod Loops
pub mod Data
pub mod Fits
pub mod Items
pub mod Ranges
pub mod Validate
pub mod Valid
pub mod Tests
use serify.Base.{
  ℕ, zero, suc, ℤ, pos, negsuc, Bool, true, false, not, ◌&&◌, ◌||◌, Option, none, some, List, [],
  ◌∷◌, ◌++◌, if◌then◌else◌, ◌==◌, leb, ltb, length, is_empty, Str, lit, str_eq, Assoc, lookup,
  insert, quote, decimal,
}
use serify.Kind.{Scalar, split_top_level}
use serify.Report.{is_nil}
use serify.Conf.{
  FieldType, Fields, no_fields, field, Variants, no_variants, unit_variant, variant, contains_str,
}
use serify.Proto.Encode.{Encoded, ok, err}
use serify.Wire.{kind_of, trim_space, last_cut, drop_last}
use serify.Wire.Json.{parse_int}

-- `rawTypeField`
pub record RawTypeField : Type 0 where
  pub name : Str
  pub typ : Str

-- `rawType`
pub record RawType : Type 0 where
  pub fields : List RawTypeField
  pub transparent : Bool
  pub is_sum : Bool

-- one entry of a section: a map of one key
abbrev pub add_field :
    (Assoc Str → Str) → Assoc Str → Encoded (List RawTypeField) → Encoded (List RawTypeField)
add_field show ((name, typ) ∷ []) (ok rest) = ok (record { name = name; typ = typ } ∷ rest)
add_field show ((name, typ) ∷ []) (err e) = err e
add_field show m rest = err (lit "each entry must be one `name: type` pair, got " ++ show m)

-- `compactFields`; `show` is `%v` of a map
unfoldable pub compact_fields : (Assoc Str → Str) → List (Assoc Str) → Encoded (List RawTypeField)
compact_fields show [] = ok []
compact_fields show (m ∷ items) = add_field show m (compact_fields show items)

-- the first field of a record that has no type
unfoldable pub untyped : Str → List RawTypeField → Option Str
unfolding trim_space
untyped path [] = none
untyped path (f ∷ fs) =
    if is_empty (trim_space f.typ)
    then some (
        path
        ++ (lit ": field "
            ++ (quote f.name
                ++ lit
                    " has no type (an entry with no type is a unit variant, which belongs under `variants:`)")))
    else untyped path fs

-- `checkSections`: the error, if there is one
unfoldable pub check_sections :
    Str → List (Assoc Str) → List (Assoc Str) → List RawTypeField → Bool → Option Str
unfolding untyped
check_sections path fields variants fs transparent =
    if not (is_nil fields) && not (is_nil variants)
    then some
        (path ++ lit ": a type is either a record (`fields:`) or a sum (`variants:`), not both")
    else if is_nil fields && is_nil variants
    then some (path ++ lit ": file has no `fields:` or `variants:`")
    else if not (is_nil variants)
    then (if transparent
        then some (
            path
            ++ lit
                ": `transparent:` applies to a `fields:` record; a sum is already inlined at the referencing field")
        else none)
    else if transparent && not (length fs == 1)
    then some (
        path
        ++ (lit ": a transparent type must have exactly one field, got " ++ decimal (length fs)))
    else untyped path fs

-- `schemaResolver`; `resolved` has the fields of a struct, which carry no tags
pub record Resolver : Type 0 where
  pub named : Assoc RawType
  pub resolved : Assoc Fields
  pub resolving : List Str

-- What a resolution gives: a value and the resolver, an error, `spent` where the fuel is used up, and
-- `outside` for a type with an array of negative length, which the types of the model do not have.
pub data Outcome {ℓ} (A : Type ℓ) : Type ℓ where
  done : A → Resolver → Outcome A
  failed : Str → Outcome A
  spent : Outcome A
  outside : Outcome A

infixl 5 ◌>>=◌
abbrev pub ◌>>=◌ {ℓ κ} :
    {A : Type ℓ} {B : Type κ} → Outcome A → (A → Resolver → Outcome B) → Outcome B
done a r >>= f = f a r
failed e >>= f = failed e
spent >>= f = spent
outside >>= f = outside

-- `fmt.Errorf("…: %w", err)`
abbrev pub within {ℓ} : {A : Type ℓ} → Str → Outcome A → Outcome A
within prefix (failed e) = failed (prefix ++ e)
within prefix (done a r) = done a r
within prefix spent = spent
within prefix outside = outside

-- A type expression, resolved with less fuel.
abbrev pub Resolve : Type 0
Resolve = Str → Resolver → Outcome FieldType

unfoldable pub remove : Str → List Str → List Str
remove name [] = []
remove name (n ∷ ns) = if str_eq n name then remove name ns else n ∷ remove name ns

-- `r.resolving[name] = true`, and the deferred delete
abbrev pub start : Str → Resolver → Resolver
start name r = record r { resolving = name ∷ r.resolving }

abbrev pub stop : Str → Resolver → Resolver
stop name r = record r { resolving = remove name r.resolving }

-- `fields`
unfoldable pub resolve_fields : Resolve → List RawTypeField → Resolver → Outcome Fields
resolve_fields type_of [] r = done no_fields r
resolve_fields type_of (rf ∷ raw) r =
    within (lit "field " ++ (quote rf.name ++ lit ": ")) (type_of rf.typ r) >>= λ t r₁.
    resolve_fields type_of raw r₁ >>= λ rest r₂. done (field rf.name t rest) r₂

abbrev pub fields_named : Str → Resolver → List RawTypeField
fields_named name r = elim (lookup name r.named) [ none ↦ [] | some nt ↦ nt.fields ]

-- `namedType`
unfoldable pub named_type : Resolve → Str → Resolver → Outcome Fields
unfolding resolve_fields lookup insert remove contains_str
named_type type_of name r = elim (lookup name r.resolved) [
  | some fs ↦ done fs r
  | none ↦
      if contains_str r.resolving name
      then failed (lit "recursive type " ++ quote name)
      else within (lit "type " ++ (quote name ++ lit ": "))
          (resolve_fields type_of (fields_named name r) (start name r))
        >>= λ fs r₁. done fs (record (stop name r₁) { resolved = insert name fs r₁.resolved })
]

-- the loop of `sumType`
unfoldable pub sum_variants : Resolve → List RawTypeField → Resolver → Outcome Variants
unfolding trim_space
sum_variants type_of [] r = done no_variants r
sum_variants type_of (rf ∷ raw) r =
    if is_empty (trim_space rf.typ)
    then (sum_variants type_of raw r >>= λ vs r₁. done (unit_variant rf.name vs) r₁)
    else (within (lit "variant " ++ (quote rf.name ++ lit ": ")) (type_of (trim_space rf.typ) r)
        >>= λ t r₁. sum_variants type_of raw r₁ >>= λ vs r₂. done (variant rf.name t vs) r₂)

-- `sumType`
unfoldable pub sum_type : Resolve → List RawTypeField → Resolver → Outcome FieldType
unfolding sum_variants
sum_type type_of [] r = failed (lit "a sum requires at least one variant")
sum_type type_of (rf ∷ raw) r =
    sum_variants type_of (rf ∷ raw) r >>= λ vs r₁. done (FieldType.sum vs) r₁

-- `scalarAliases` of internal/conf/conf.go
unfoldable pub canonical : Str → Str
canonical expr =
    if str_eq expr (lit "float")
    then lit "float32"
    else if str_eq expr (lit "double")
    then lit "float64"
    else if str_eq expr (lit "boolean")
    then lit "bool"
    else expr

-- `\w`
abbrev pub is_word : ℕ → Bool
is_word c =
    (leb b'0' c && leb c b'9')
    || ((leb b'A' c && leb c b'Z') || ((leb b'a' c && leb c b'z') || c == b'_'))

-- the word before the first `<`, and what follows it
unfoldable pub word_cut : Str → Option (Str × Str)
word_cut [] = none
word_cut (c ∷ s) = if c == b'<' then some ([], s) else elim (word_cut s) [
  | none ↦ none
  | some (w, rest) ↦ if is_word c then some (c ∷ w, rest) else none
]

-- `.` matches no line break
abbrev pub one_line : Str → Bool
one_line [] = true
one_line (c ∷ s) = not (c == b'\n') && one_line s

unfoldable pub close_param : Str → Option Str → Option (Str × Str)
close_param word none = none
close_param word (some inner) =
    if not (is_empty word) && (not (is_empty inner) && one_line inner)
    then some (word, inner)
    else none

unfoldable pub ends_closed : Str → Bool
ends_closed [] = false
ends_closed (c ∷ []) = c == b'>'
ends_closed (c ∷ d ∷ s) = ends_closed (d ∷ s)

-- `typeParamRe`, ^(\w+)<(.+)>$
unfoldable pub match_param : Str → Option (Str × Str)
unfolding word_cut close_param drop_last ends_closed
match_param expr = elim (word_cut expr) [
  | none ↦ none
  | some (word, rest) ↦ if ends_closed rest then close_param word (drop_last rest) else none
]

-- `strings.Split(inner, ",")`: the part that is being read, and the parts after it
unfoldable pub split_commas : Str → Str × List Str
split_commas [] = ([], [])
split_commas (c ∷ s) =
    let (head, rest) = split_commas s in if c == b',' then ([], head ∷ rest) else (c ∷ head, rest)

unfoldable pub trimmed : List Str → List Str
unfolding trim_space
trimmed [] = []
trimmed (v ∷ vs) = if is_empty (trim_space v) then trimmed vs else trim_space v ∷ trimmed vs
