-- ===== src/Wire/Sizes.antt =====
-- The texts of arrays and maps: the element type and the length, the type of the values.
use serify.Base.{
  ℕ, ◌<◌, ◌^◌, pos, Bool, true, false, not, ◌&&◌, ◌||◌, none, some, [], ◌∷◌, ◌++◌, ◌≡◌, refl, sym,
  ap, ◌∙◌, arith, ◌==◌, Str, lit, decimal, decimal_ℤ, All, append_assoc,
}
use serify.Kind.{Scalar, spell, split_from, split_top_level, next_depth, splits_here}
use serify.Proto.Encode.{ok}
use serify.Wire.{last_cut, trim_space, trim_left, trim_right}
use serify.Wire.Decode.{
  type_args, array_elem_type, array_len, map_value_type, before_cut, parsed_len, len_after, len_of,
}
use serify.Wire.Json.{parse_int}
use serify.Wire.Text.{IsNumber, IsDigit, decimal-IsNumber, parse_int-decimal_ℤ}
use serify.Wire.Forms.{type_args_array, type_args_map}

last_cut-digits : (s : Str) → All IsDigit s → last_cut b',' s ≡ none
unfolding last_cut
last_cut-digits [] h = refl
last_cut-digits (c ∷ s) h = rw (last_cut-digits s h.1) (ground arith)

last_cut-append : (s d : Str) → last_cut b',' d ≡ none → last_cut b',' (s ++ b',' ∷ d) ≡ some (s, d)
unfolding last_cut
last_cut-append [] d h = rw h
last_cut-append (c ∷ s) d h = rw (last_cut-append s d h)

trim_right-digits : (s : Str) → All IsDigit s → trim_right s ≡ s
unfolding trim_right
trim_right-digits [] h = refl
trim_right-digits (c ∷ s) h = rw (trim_right-digits s h.1) (ground arith)

pub trim_space-number : (s : Str) → IsNumber s → trim_space s ≡ s
unfolding trim_space trim_left
trim_space-number [] h = absurd h
trim_space-number (c ∷ s) h = rw (trim_right-digits (c ∷ s) h) (ground arith)

pub digits-number : (s : Str) → IsNumber s → All IsDigit s
digits-number [] h = absurd h
digits-number (c ∷ s) h = h

pub trim_space-spell : (k : Scalar) → trim_space (spell k) ≡ spell k
unfolding trim_space spell lit
trim_space-spell Scalar.uint8 = refl
trim_space-spell _ = refl

pub parse_length : (n : ℕ) → n < 2 ^ 63 → parse_int (decimal n) ≡ ok (pos n)
unfolding decimal_ℤ
parse_length n h = parse_int-decimal_ℤ (pos n) (ground arith)

array_text : (s d : Str) → s ++ b',' ∷ (d ++ lit ">") ≡ (s ++ b',' ∷ d) ++ lit ">"
array_text s d = sym (append_assoc s (b',' ∷ d) (lit ">"))

array_args :
    (s d : Str) → type_args 6 (lit "array<" ++ (s ++ b',' ∷ (d ++ lit ">"))) ≡ ok (s ++ b',' ∷ d)
array_args s d = rw (array_text s d) (type_args_array (s ++ b',' ∷ d))

array_elem_type-cut :
    (typ inner s d : Str)
    → type_args 6 typ ≡ ok inner
    → last_cut b',' inner ≡ some (s, d)
    → array_elem_type typ ≡ ok (trim_space s)
unfolding array_elem_type
array_elem_type-cut typ inner s d h k =
    rw (h, array_elem_type) (ap (λ c. ok (trim_space (before_cut inner c))) k)

array_len-cut :
    (typ inner s d : Str) (n : ℕ)
    → type_args 6 typ ≡ ok inner
    → last_cut b',' inner ≡ some (s, d)
    → parse_int (trim_space d) ≡ ok (pos n)
    → array_len typ ≡ some (pos n)
unfolding array_len len_of len_after
array_len-cut typ inner s d n h k l = rw (h, array_len) (ap len_after k ∙ ap parsed_len l)

pub number_cut : (s : Str) (n : ℕ) → last_cut b',' (s ++ b',' ∷ decimal n) ≡ some (s, decimal n)
number_cut s n =
    last_cut-append s (decimal n)
      (last_cut-digits _ (digits-number (decimal n) (decimal-IsNumber n)))

pub array_elem_type-text :
    (s : Str) (n : ℕ)
    → array_elem_type (lit "array<" ++ (s ++ b',' ∷ (decimal n ++ lit ">"))) ≡ ok (trim_space s)
array_elem_type-text s n =
    array_elem_type-cut _ _ s (decimal n) (array_args s (decimal n)) (number_cut s n)

-- The element type of an array of scalars.
pub array_elem_type-spell :
    (k : Scalar) (n : ℕ)
    → array_elem_type (lit "array<" ++ (spell k ++ b',' ∷ (decimal n ++ lit ">"))) ≡ ok (spell k)
array_elem_type-spell k n = array_elem_type-text (spell k) n ∙ ap ok (trim_space-spell k)

-- The length of an array, which is below 2 ^ 63.
pub array_len-decimal :
    (s : Str) (n : ℕ)
    → n < 2 ^ 63
    → array_len (lit "array<" ++ (s ++ b',' ∷ (decimal n ++ lit ">"))) ≡ some (pos n)
array_len-decimal s n h =
    array_len-cut _ _ s (decimal n) n (array_args s (decimal n)) (number_cut s n)
      (ap parse_int (trim_space-number (decimal n) (decimal-IsNumber n)) ∙ parse_length n h)

-- The value type of a map.
abbrev pub is_plain : ℕ → Bool
is_plain c = not (c == b'<' || (c == b'>' || (c == b'[' || (c == b']' || c == b','))))

pub true_parts : (a b : Bool) → (a && b) ≡ true → (a ≡ true) × (b ≡ true)
true_parts true b h = (refl, h)
true_parts false b h = cc

abbrev pub all_plain : Str → Bool
all_plain [] = true
all_plain (c ∷ s) = is_plain c && all_plain s

plain_stays :
    (c : ℕ) → is_plain c ≡ true → (splits_here (pos 0) c ≡ false) × (next_depth (pos 0) c ≡ pos 0)
unfolding splits_here next_depth
plain_stays c h = (ground arith, ground arith)

split_from-plain : (s : Str) → all_plain s ≡ true → split_from (pos 0) s ≡ (s, [])
unfolding split_from
split_from-plain [] h = refl
split_from-plain (c ∷ s) h =
    let (plain, rest) = true_parts (is_plain c) (all_plain s) h in
    let (here, deep) = plain_stays c plain in rw (here, deep, split_from-plain s rest)

split_from-comma :
    (s t : Str) (rest : Str)
    → all_plain s ≡ true
    → split_from (pos 0) t ≡ (rest, [])
    → split_from (pos 0) (s ++ b',' ∷ t) ≡ (s, rest ∷ [])
unfolding split_from
split_from-comma [] t rest h e = rw e
split_from-comma (c ∷ s) t rest h e =
    let (plain, later) = true_parts (is_plain c) (all_plain s) h in
    let (here, deep) = plain_stays c plain in rw (here, deep, split_from-comma s t rest later e)

pub all_plain-spell : (k : Scalar) → all_plain (spell k) ≡ true
unfolding spell lit
all_plain-spell Scalar.uint8 = refl
all_plain-spell _ = refl

map_value_type-split :
    (typ inner k v : Str)
    → type_args 4 typ ≡ ok inner
    → split_from (pos 0) inner ≡ (k, v ∷ [])
    → map_value_type typ ≡ ok (trim_space v)
unfolding map_value_type split_top_level
map_value_type-split typ inner k v h e = rw (h, map_value_type) (rw (e, split_from))

map_args :
    (s v : Str) → type_args 4 (lit "map<" ++ (s ++ b',' ∷ (v ++ lit ">"))) ≡ ok (s ++ b',' ∷ v)
map_args s v = rw (array_text s v) (type_args_map (s ++ b',' ∷ v))

-- The value type of a map whose key is a scalar, for values with a plain name.
map_value_type-plain :
    (k : Scalar) (v : Str)
    → all_plain v ≡ true
    → map_value_type (lit "map<" ++ (spell k ++ b',' ∷ (v ++ lit ">"))) ≡ ok (trim_space v)
map_value_type-plain k v h =
    map_value_type-split _ _ (spell k) v (map_args (spell k) v)
      (split_from-comma (spell k) v v (all_plain-spell k) (split_from-plain v h))

pub map_value_type-spell :
    (k l : Scalar)
    → map_value_type (lit "map<" ++ (spell k ++ b',' ∷ (spell l ++ lit ">"))) ≡ ok (spell l)
map_value_type-spell k l =
    map_value_type-plain k (spell l) (all_plain-spell l) ∙ ap ok (trim_space-spell l)

pub map_value_type-struct :
    (k : Scalar)
    → map_value_type (lit "map<" ++ (spell k ++ b',' ∷ (lit "struct" ++ lit ">")))
      ≡ ok (lit "struct")
unfolding lit trim_space
map_value_type-struct k = map_value_type-plain k (lit "struct") refl
