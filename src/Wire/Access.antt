-- ===== src/Wire/Access.antt =====
-- lib/go/serify/fieldmap.go: the accessors of a field map. The Go type of a typed accessor is its name
-- as `%T` prints it.
use serify.Base.{◌∷◌, Option, none, some, if◌then◌else◌, ◌++◌, Str, lit, str_eq, quote}
use serify.Proto.Encode.{Encoded, ok, err}
use serify.Wire.{
  Stored, nil, num, big, f32, f64, truth, text, text_pointer, blob, nested, go_map, variant_of,
  Pairs, no_pairs, pair, go_type_of, find_pair,
}

-- f.fields[key] = v: the setters
unfoldable pub set_field : Str → Stored → Pairs → Pairs
set_field key v no_pairs = pair key v no_pairs
set_field key v (pair k w fm) =
    let rest = set_field key v fm in if str_eq k key then pair k v fm else pair k w rest

abbrev pub not_found : Str → Str
not_found key = lit "field " ++ (quote key ++ lit " not found")

abbrev pub wrong_type : Str → Str → Stored → Str
wrong_type key wanted v =
    lit "field " ++ (quote key ++ (lit ": expected " ++ (wanted ++ (lit ", got " ++ go_type_of v))))

unfoldable pub typed : Str → Str → Option Stored → Encoded Stored
unfolding go_type_of
typed typ key none = err (not_found key)
typed typ key (some v) = if str_eq (go_type_of v) typ then ok v else err (wrong_type key typ v)

-- `getTyped`, which the getters of scalars and lists call
unfoldable pub get_typed : Str → Pairs → Str → Encoded Stored
unfolding typed find_pair
get_typed typ fm key = typed typ key (find_pair key fm)

unfoldable pub struct_in : Str → Option Stored → Encoded Pairs
unfolding go_type_of
struct_in key none = err (not_found key)
struct_in key (some nil) = err (lit "field is nil")
struct_in key (some (nested fm)) = ok fm
struct_in key (some v) = err (wrong_type key (lit "*FieldMap") v)

-- `GetStruct` and `GetOptionalStruct`
unfoldable pub get_struct : Pairs → Str → Encoded Pairs
unfolding struct_in find_pair
get_struct fm key = struct_in key (find_pair key fm)

unfoldable pub variant_in : Str → Option Stored → Encoded (Str × Stored)
unfolding go_type_of
variant_in key none = err (not_found key)
variant_in key (some (variant_of tag v)) = ok (tag, v)
variant_in key (some v) =
    err
      (lit "field " ++ (quote key ++ (lit " is not a variant (got " ++ (go_type_of v ++ lit ")"))))

-- `GetVariant`
unfoldable pub get_variant : Pairs → Str → Encoded (Str × Stored)
unfolding variant_in find_pair
get_variant fm key = variant_in key (find_pair key fm)

-- `GetMap`
unfoldable pub map_in : Option Stored → Option Pairs
map_in (some (go_map m)) = some m
map_in _ = none

unfoldable pub get_map : Pairs → Str → Option Pairs
unfolding map_in find_pair
get_map fm key = map_in (find_pair key fm)

-- what a pointer points to
abbrev pub pointed : Stored → Option Stored
pointed (text_pointer none) = none
pointed (text_pointer (some s)) = some (text s)
pointed (big none) = none
pointed v = some v

-- a value of the type, or a pointer to one
unfoldable pub typed_optional : Str → Str → Stored → Encoded (Option Stored)
unfolding go_type_of
typed_optional typ key v =
    if str_eq (go_type_of v) typ
    then ok (some v)
    else if str_eq (go_type_of v) (b'*' ∷ typ)
    then ok (pointed v)
    else err (wrong_type key (lit "optional " ++ typ) v)

unfoldable pub optional_in : Str → Str → Option Stored → Encoded (Option Stored)
unfolding typed_optional
optional_in typ key none = err (not_found key)
optional_in typ key (some nil) = ok none
optional_in typ key (some v) = typed_optional typ key v

-- `GetOptional`, and `GetOptionalString` at "string"
unfoldable pub get_optional : Str → Pairs → Str → Encoded (Option Stored)
unfolding optional_in find_pair
get_optional typ fm key = optional_in typ key (find_pair key fm)

-- `SetOptional`, `SetOptionalString` and `SetOptionalStruct`
unfoldable pub set_optional : Str → Option Stored → Pairs → Pairs
unfolding set_field
set_optional key none fm = set_field key nil fm
set_optional key (some v) fm = set_field key v fm

-- `setScalar`: none where the value is not a scalar
unfoldable pub set_scalar : Str → Stored → Pairs → Option Pairs
unfolding set_field
set_scalar key (num t n) fm = some (set_field key (num t n) fm)
set_scalar key (big n) fm = some (set_field key (big n) fm)
set_scalar key (f32 x) fm = some (set_field key (f32 x) fm)
set_scalar key (f64 x) fm = some (set_field key (f64 x) fm)
set_scalar key (truth b) fm = some (set_field key (truth b) fm)
set_scalar key (text s) fm = some (set_field key (text s) fm)
set_scalar key (blob bs) fm = some (set_field key (blob bs) fm)
set_scalar key _ fm = none
