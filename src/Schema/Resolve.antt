-- ===== src/Schema/Resolve.antt =====
-- internal/conf/schema.go: `typeOf`, which resolves a type expression. It calls itself on the parts
-- of the expression and on the types of named types, and takes fuel for it.
use serify.Base.{
  ℕ, zero, suc, ℤ, pos, negsuc, Option, none, some, List, [], ◌∷◌, ◌++◌, if◌then◌else◌, Str, lit,
  str_eq, lookup, quote, Assoc,
}
use serify.Kind.{split_top_level}
use serify.Conf.{FieldType, Fields, no_fields, field, contains_str}
use serify.Proto.Encode.{Encoded}
use serify.Wire.{kind_of, trim_space, last_cut}
use serify.Wire.Json.{parse_int}
use serify.Schema.{
  RawTypeField, RawType, Resolver, Outcome, done, failed, spent, outside, ◌>>=◌, Resolve, start,
  stop, named_type, sum_type, canonical, match_param, split_commas, trimmed,
}

-- the branch of enum<…>
unfoldable pub enum_of : Str → List Str → Resolver → Outcome FieldType
enum_of expr [] r = failed (lit "enum requires at least one value: " ++ quote expr)
enum_of expr (v ∷ vs) r = done (FieldType.enum (v ∷ vs)) r

abbrev pub sized : Str → FieldType → Encoded ℤ → Resolver → Outcome FieldType
sized expr elem (Encoded.ok (pos n)) r = done (FieldType.array elem n) r
sized expr elem (Encoded.ok (negsuc n)) r = outside
sized expr elem (Encoded.err e) r = failed (lit "array size must be an integer in " ++ quote expr)

-- the branch of array<T,N>
unfoldable pub array_of : Resolve → Str → Option (Str × Str) → Resolver → Outcome FieldType
unfolding parse_int trim_space
array_of type_of expr none r =
    failed (lit "array type requires size: array<T,N>, got " ++ quote expr)
array_of type_of expr (some (before, after)) r =
    type_of before r >>= λ elem r₁. sized expr elem (parse_int (trim_space after)) r₁

-- the branch of map<K,V>
unfoldable pub map_of : Resolve → Str → List Str → Resolver → Outcome FieldType
unfolding trim_space
map_of type_of expr (k ∷ v ∷ []) r = type_of k r >>= λ key r₁.
    type_of (trim_space v) r₁ >>= λ val r₂. done (FieldType.map key val) r₂
map_of type_of expr _ r =
    failed (lit "map type requires key and value: map<K,V>, got " ++ quote expr)

abbrev pub parts_of : Str × List Str → List Str
parts_of (head, rest) = head ∷ rest

-- the switch of `typeOf` on the parameterized forms
unfoldable pub param_of : Resolve → Str → Option (Str × Str) → Resolver → Outcome FieldType
unfolding enum_of trimmed split_commas array_of last_cut map_of split_top_level
param_of type_of expr none r = failed (lit "unknown type " ++ quote expr)
param_of type_of expr (some (outer, inner)) r =
    if str_eq outer (lit "enum")
    then enum_of expr (trimmed (parts_of (split_commas inner))) r
    else if str_eq outer (lit "optional")
    then (type_of inner r >>= λ elem r₁. done (FieldType.optional elem) r₁)
    else if str_eq outer (lit "list")
    then (type_of inner r >>= λ elem r₁. done (FieldType.list elem) r₁)
    else if str_eq outer (lit "array")
    then array_of type_of expr (last_cut b',' inner) r
    else if str_eq outer (lit "map")
    then map_of type_of expr (split_top_level inner) r
    else if str_eq outer (lit "sum")
    then failed (
        quote expr
        ++ (lit
              ": a sum is declared with a `variants:` section on its own type file, not as a type expression "
            ++ (226
                ∷ 128
                ∷ 148
                ∷ lit
                    " put the arms there (an entry with no type is a unit variant) and reference the type by name")))
    else failed (lit "unknown parameterized type " ++ quote outer)

abbrev pub first_type : Resolve → List RawTypeField → Resolver → Outcome FieldType
first_type type_of [] r = failed (lit "panic: runtime error: index out of range [0] with length 0")
first_type type_of (rf ∷ raw) r = type_of rf.typ r

-- the branch of a name: a sum, a transparent type, a struct
unfoldable pub named_of : Resolve → Str → RawType → Resolver → Outcome FieldType
unfolding sum_type named_type contains_str
named_of type_of expr nt r =
    if nt.is_sum
    then (if contains_str r.resolving expr
        then failed (lit "recursive type " ++ quote expr)
        else sum_type type_of nt.fields (start expr r) >>= λ t r₁. done t (stop expr r₁))
    else if nt.transparent
    then first_type type_of nt.fields r
    else (named_type type_of expr r >>= λ fs r₁. done (FieldType.struct fs) r₁)

-- the branches of `typeOf`, for an expression without space around it and without an alias
unfoldable pub type_step : Resolve → Str → Resolver → Outcome FieldType
unfolding kind_of named_of param_of match_param lookup
type_step type_of expr r = elim (kind_of expr) [
  | some k ↦ done (FieldType.scalar k) r
  | none ↦
      if str_eq expr (lit "struct")
      then done (FieldType.struct no_fields) r
      else elim (lookup expr r.named) [
        | some nt ↦ named_of type_of expr nt r
        | none ↦ param_of type_of expr (match_param expr) r
      ]
]

-- `typeOf`
unfoldable pub type_of : ℕ → Str → Resolver → Outcome FieldType
unfolding type_step canonical trim_space
type_of zero expr r = spent
type_of (suc fuel) expr r = type_step (λ e s. type_of fuel e s) (canonical (trim_space expr)) r

-- `newSchemaResolver`
abbrev pub new_resolver : Assoc RawType → Resolver
new_resolver named = record { named = named; resolved = []; resolving = [] }

-- `ParseType`
unfoldable pub parse_type : ℕ → Str → Outcome FieldType
unfolding type_of
parse_type fuel s = type_of fuel s (new_resolver [])

abbrev sum_value_key : Str
sum_value_key = lit "value"

-- `sumSchema`
unfoldable pub sum_schema : Resolve → List RawTypeField → Resolver → Outcome Fields
unfolding sum_type
sum_schema type_of raw r =
    sum_type type_of raw r >>= λ t r₁. done (field sum_value_key t no_fields) r₁
