-- ===== src/Schema/Read.antt =====
-- `ParseType` on the text of a type: the type itself.
use mathlib.Core.Path.{subst}
use serify.Base.{
  ℕ, zero, suc, ◌<◌, ◌^◌, pos, true, false, some, List, [], ◌∷◌, ◌++◌, ◌≡◌, refl, sym, ap, ◌∙◌,
  arith, ◌==◌, Str, lit, str_eq, decimal, All, join, append-nil,
}
use serify.Kind.{Scalar, spell, split_from, split_top_level, splits_here, next_depth}
use serify.Conf.{FieldType, scalar, optional, list, array, map, struct, enum, no_fields}
use serify.Wire.{kind_of, trim_space}
use serify.Wire.Json.{parse_int}
use serify.Wire.Text.{decimal-IsNumber}
use serify.Wire.Elems.{kind_of-spell}
use serify.Wire.Sizes.{number_cut, parse_length, trim_space-number, trim_space-spell, true_parts}
use serify.Wire.Schema.{type_text}
use serify.Schema.{done, ◌>>=◌, canonical, split_commas, trimmed, is_word}
use serify.Schema.Resolve.{
  type_of, type_step, param_of, array_of, map_of, enum_of, new_resolver, parse_type, parts_of,
  sized,
}
use serify.Schema.Text.{Stays, all_word, IsWord, bracket, trim_space-word}
use serify.Schema.Parse
use serify.Schema.Parse.{
  IsSpelled, depth, TypeText, NamesText, spelled-TypeText, IsWord-of, pair_text, join-NamesText,
  bracket_step, line-pair, full-pair, decimal-TypeText, rec_of,
}

canonical-spell : (k : Scalar) → canonical (spell k) ≡ spell k
unfolding canonical spell str_eq lit
canonical-spell Scalar.uint8 = refl
canonical-spell _ = refl

read_scalar :
    (fuel : ℕ) (k : Scalar)
    → type_of (suc fuel) (spell k) (new_resolver []) ≡ done (scalar k) (new_resolver [])
unfolding type_of type_step
read_scalar fuel k =
    ap (λ e. type_step (rec_of fuel) e (new_resolver []))
      (ap canonical (trim_space-spell k) ∙ canonical-spell k)
    ∙ rw (kind_of-spell k, type_step)

read_struct :
    (fuel : ℕ)
    → type_of (suc fuel) (lit "struct") (new_resolver [])
      ≡ done (struct no_fields) (new_resolver [])
unfolding type_of type_step canonical trim_space kind_of str_eq lit
read_struct fuel = refl

-- The reading of a part.
abbrev Reads : ℕ → Str → FieldType → Type 0
Reads fuel s t = type_of fuel s (new_resolver []) ≡ done t (new_resolver [])

read_optional :
    (fuel : ℕ) (x : Str) (t : FieldType)
    → TypeText x
    → Reads fuel x t
    → Reads (suc fuel) (bracket (lit "optional") x) (optional t)
unfolding canonical kind_of param_of str_eq lit
read_optional fuel x t h ih =
    bracket_step fuel (lit "optional") x (IsWord-of (lit "optional") refl refl) h.full h.line refl
      refl refl
    ∙ ap (λ o. o >>= λ elem r. done (optional elem) r) ih

read_list :
    (fuel : ℕ) (x : Str) (t : FieldType)
    → TypeText x
    → Reads fuel x t
    → Reads (suc fuel) (bracket (lit "list") x) (list t)
unfolding canonical kind_of param_of str_eq lit
read_list fuel x t h ih =
    bracket_step fuel (lit "list") x (IsWord-of (lit "list") refl refl) h.full h.line refl refl refl
    ∙ ap (λ o. o >>= λ elem r. done (list elem) r) ih

array_of-cut :
    (fuel : ℕ) (e x : Str) (t : FieldType) (n : ℕ)
    → n < 2 ^ 63
    → Reads fuel x t
    → array_of (rec_of fuel) e (some (x, decimal n)) (new_resolver [])
      ≡ done (array t n) (new_resolver [])
unfolding array_of
array_of-cut fuel e x t n small ih =
    ap (λ o. o >>= λ elem r. sized e elem (parse_int (trim_space (decimal n))) r) ih
    ∙ ap (λ p. sized e t p (new_resolver []))
        (ap parse_int (trim_space-number (decimal n) (decimal-IsNumber n)) ∙ parse_length n small)

read_array :
    (fuel : ℕ) (x : Str) (t : FieldType) (n : ℕ)
    → n < 2 ^ 63
    → TypeText x
    → TypeText (decimal n)
    → Reads fuel x t
    → Reads (suc fuel) (bracket (lit "array") (x ++ b',' ∷ decimal n)) (array t n)
unfolding canonical kind_of param_of str_eq lit
read_array fuel x t n small h d ih =
    bracket_step fuel (lit "array") (x ++ b',' ∷ decimal n) (IsWord-of (lit "array") refl refl)
      (full-pair x (decimal n)) (line-pair x (decimal n) h d) refl refl refl
    ∙ ap
        (λ o.
          array_of (rec_of fuel) (bracket (lit "array") (x ++ b',' ∷ decimal n)) o
            (new_resolver []))
        (number_cut x n)
    ∙ array_of-cut fuel _ x t n small ih

split_one : (t : Str) → Stays t → split_from (pos 0) t ≡ (t, [])
unfolding split_from
split_one t h = ap (split_from (pos 0)) (sym (append-nil t)) ∙ h 0 [] ∙ rw (append-nil t)

split_pair : (s t : Str) → Stays s → Stays t → split_top_level (s ++ b',' ∷ t) ≡ s ∷ t ∷ []
unfolding split_top_level split_from splits_here next_depth
split_pair s t h k = rw (h 0 (b',' ∷ t)) (rw (split_one t k, append-nil s))

map_of-pair :
    (fuel : ℕ) (e x y : Str) (k v : FieldType)
    → trim_space y ≡ y
    → Reads fuel x k
    → Reads fuel y v
    → map_of (rec_of fuel) e (x ∷ y ∷ []) (new_resolver []) ≡ done (map k v) (new_resolver [])
unfolding map_of
map_of-pair fuel e x y k v h ik iv =
    ap (λ o. o >>= λ key r₁. type_of fuel (trim_space y) r₁ >>= λ val r₂. done (map key val) r₂) ik
    ∙ ap (λ o. o >>= λ val r₂. done (map k val) r₂)
        (ap (λ z. type_of fuel z (new_resolver [])) h ∙ iv)

read_map :
    (fuel : ℕ) (x y : Str) (k v : FieldType)
    → TypeText x
    → TypeText y
    → Reads fuel x k
    → Reads fuel y v
    → Reads (suc fuel) (bracket (lit "map") (x ++ b',' ∷ y)) (map k v)
unfolding canonical kind_of param_of str_eq lit
read_map fuel x y k v h l ik iv =
    bracket_step fuel (lit "map") (x ++ b',' ∷ y) (IsWord-of (lit "map") refl refl) (full-pair x y)
      (line-pair x y h l) refl refl refl
    ∙ ap
        (λ parts.
          map_of (rec_of fuel) (bracket (lit "map") (x ++ b',' ∷ y)) parts (new_resolver []))
        (split_pair x y h.stays l.stays)
    ∙ map_of-pair fuel (bracket (lit "map") (x ++ b',' ∷ y)) x y k v l.trims ik iv

-- The values of an enum.
comma_free : (c : ℕ) → is_word c ≡ true → c == b',' ≡ false
comma_free c h = ground arith

split_commas-word : (w : Str) → all_word w ≡ true → split_commas w ≡ (w, [])
unfolding split_commas
split_commas-word [] h = refl
split_commas-word (c ∷ w) h =
    let (a, b) = true_parts (is_word c) (all_word w) h in rw (comma_free c a, split_commas-word w b)

split_commas-comma :
    (w s : Str)
    → all_word w ≡ true
    → split_commas (w ++ b',' ∷ s) ≡ (w, (split_commas s).0 ∷ (split_commas s).1)
unfolding split_commas
split_commas-comma [] s h = refl
split_commas-comma (c ∷ w) s h =
    let (a, b) = true_parts (is_word c) (all_word w) h in
    rw (comma_free c a, split_commas-comma w s b)

trimmed-word : (w : Str) (rest : List Str) → IsWord w → trimmed (w ∷ rest) ≡ w ∷ trimmed rest
unfolding trimmed
trimmed-word w rest h = rw (trim_space-word w h, h.full)

enum_names :
    (v : Str) (vs : List Str)
    → All IsWord (v ∷ vs)
    → trimmed (parts_of (split_commas (join (lit ",") (v ∷ vs)))) ≡ v ∷ vs
unfolding join lit
enum_names v [] h =
    ap (λ p. trimmed (parts_of p)) (split_commas-word v h.0.letters)
    ∙ trimmed-word v [] h.0
    ∙ unfold trimmed in refl
enum_names v (u ∷ vs) h =
    ap (λ p. trimmed (parts_of p)) (split_commas-comma v (join (b',' ∷ []) (u ∷ vs)) h.0.letters)
    ∙ trimmed-word v _ h.0
    ∙ ap (λ t. v ∷ t) (enum_names u vs h.1)

read_enum :
    (fuel : ℕ) (v : Str) (vs : List Str)
    → All IsWord (v ∷ vs)
    → Reads (suc fuel) (bracket (lit "enum") (join (lit ",") (v ∷ vs))) (enum (v ∷ vs))
unfolding canonical kind_of param_of enum_of str_eq lit
read_enum fuel v vs h =
    let x = join-NamesText v vs h in
    bracket_step fuel (lit "enum") (join (lit ",") (v ∷ vs)) (IsWord-of (lit "enum") refl refl)
      x.full x.line refl refl refl
    ∙ ap (λ names. enum_of (bracket (lit "enum") (join (lit ",") (v ∷ vs))) names (new_resolver []))
        (enum_names v vs h)

type_of-type_text :
    {t : FieldType} (fuel : ℕ) → IsSpelled t → depth t < fuel → Reads fuel (type_text t) t
unfolding type_text lit
type_of-type_text zero h d = absurd (omega arith)
type_of-type_text (suc fuel) (Parse.scalar_text {k}) d = read_scalar fuel k
type_of-type_text (suc fuel) Parse.struct_text d = read_struct fuel
type_of-type_text (suc fuel) (Parse.optional_text {t} h) d =
    read_optional fuel (type_text t) t (spelled-TypeText h) (type_of-type_text fuel h (omega arith))
type_of-type_text (suc fuel) (Parse.list_text {t} h) d =
    read_list fuel (type_text t) t (spelled-TypeText h) (type_of-type_text fuel h (omega arith))
type_of-type_text (suc fuel) (Parse.array_text {t} {n} h small) d =
    subst (λ z. Reads (suc fuel) (lit "array<" ++ z) (array t n))
      (pair_text (type_text t) (decimal n))
      (read_array fuel (type_text t) t n small (spelled-TypeText h) (decimal-TypeText n)
        (type_of-type_text fuel h (omega arith)))
type_of-type_text (suc fuel) (Parse.map_text {k} {v} hk hv) d =
    subst (λ z. Reads (suc fuel) (lit "map<" ++ z) (map k v))
      (pair_text (type_text k) (type_text v))
      (read_map fuel (type_text k) (type_text v) k v (spelled-TypeText hk) (spelled-TypeText hv)
        (type_of-type_text fuel hk (omega arith)) (type_of-type_text fuel hv (omega arith)))
type_of-type_text (suc fuel) (Parse.enum_text {v} {vs} h) d = read_enum fuel v vs h

-- The text that `FieldType.String` writes for a type is read back by `ParseType` as the type, for
-- every nesting of scalars, empty structs, optionals, lists, arrays of a length below 2 ^ 63, maps
-- and enums whose values are words. More fuel than the depth of the type is enough.
pub parse_type-type_text :
    (t : FieldType) (fuel : ℕ)
    → IsSpelled t
    → depth t < fuel
    → parse_type fuel (type_text t) ≡ done t (new_resolver [])
unfolding parse_type
parse_type-type_text t fuel h d = type_of-type_text fuel h d
