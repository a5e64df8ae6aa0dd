-- ===== src/Schema/Parse.antt =====
-- `ParseType` reads the text of a type, which `FieldType.String` writes.
use mathlib.Core.Path.{subst}
use serify.Base.{
  append_assoc, ℕ, suc, ◌<◌, ◌^◌, max, true, false, none, some, List, [], ◌∷◌, ◌++◌, ◌≡◌, refl, ap,
  ◌∙◌, arith, is_empty, Str, lit, str_eq, decimal, lookup, All, join,
}
use serify.Kind.{Scalar, spell}
use serify.Conf.{FieldType, scalar, optional, list, array, map, struct, enum, no_fields}
use serify.Wire.{kind_of, trim_space}
use serify.Wire.Text.{IsNumber, IsDigit, decimal-IsNumber}
use serify.Wire.Schema.{type_text}
use serify.Schema.{Resolve, one_line, canonical, match_param}
use serify.Schema.Resolve.{type_of, type_step, param_of, new_resolver}
use serify.Schema.Text.{
  Stays, Inner, Stays-plain, Inner-comma, all_word, IsWord, all_plain-word, one_line-word,
  one_line-append, bracket, Stays-bracket, trim_space-bracket, trim_space-word, match_param-bracket,
}

-- The types that an expression without named types can have: no field inside a struct, no sum, and
-- words as the values of an enum.
pub data IsSpelled : FieldType → Type 0 where
  scalar_text : {k : Scalar} → IsSpelled (scalar k)
  struct_text : IsSpelled (struct no_fields)
  optional_text : {t : FieldType} → IsSpelled t → IsSpelled (optional t)
  list_text : {t : FieldType} → IsSpelled t → IsSpelled (list t)
  array_text : {t : FieldType} {n : ℕ} → IsSpelled t → n < 2 ^ 63 → IsSpelled (array t n)
  map_text : {k v : FieldType} → IsSpelled k → IsSpelled v → IsSpelled (map k v)
  enum_text : {v : Str} {vs : List Str} → All IsWord (v ∷ vs) → IsSpelled (enum (v ∷ vs))

-- How deep the type is nested.
abbrev pub depth : FieldType → ℕ
depth (optional t) = suc (depth t)
depth (list t) = suc (depth t)
depth (array t n) = suc (depth t)
depth (map k v) = suc (max (depth k) (depth v))
depth _ = 0

pub record TypeText (s : Str) : Type 0 where
  pub trims : trim_space s ≡ s
  pub line : one_line s ≡ true
  pub full : is_empty s ≡ false
  pub stays : Stays s

full_bracket : (w x : Str) → is_empty (bracket w x) ≡ false
full_bracket [] x = refl
full_bracket (c ∷ w) x = refl

TypeText-word : (w : Str) → IsWord w → TypeText w
TypeText-word w h = record {
  trims = trim_space-word w h;
  line = one_line-word w h.letters;
  full = h.full;
  stays = Stays-plain w (all_plain-word w h.letters);
}

TypeText-bracket : (w x : Str) → IsWord w → Inner x → one_line x ≡ true → TypeText (bracket w x)
TypeText-bracket w x h k line = record {
  trims = trim_space-bracket w x h;
  line =
      one_line-append w (b'<' ∷ (x ++ b'>' ∷ [])) (one_line-word w h.letters)
        (one_line-append x (b'>' ∷ []) line refl);
  full = full_bracket w x;
  stays = Stays-bracket w x h.letters k;
}

pub spell-IsWord : (k : Scalar) → IsWord (spell k)
unfolding spell lit
spell-IsWord Scalar.uint8 = record { letters = refl; full = refl }
spell-IsWord _ = record { letters = refl; full = refl }

digits-all_word : (s : Str) → All IsDigit s → all_word s ≡ true
digits-all_word [] h = refl
digits-all_word (c ∷ s) h = rw (digits-all_word s h.1) (ground arith)

pub number-IsWord : (s : Str) → IsNumber s → IsWord s
number-IsWord [] h = absurd h
number-IsWord (c ∷ s) h = record { letters = digits-all_word (c ∷ s) h; full = refl }

pub decimal-TypeText : (n : ℕ) → TypeText (decimal n)
decimal-TypeText n = TypeText-word (decimal n) (number-IsWord (decimal n) (decimal-IsNumber n))

-- Two texts with a comma between them.
Inner-pair : (s t : Str) → TypeText s → TypeText t → Inner (s ++ b',' ∷ t)
Inner-pair s t h k = Inner-comma s t (λ d. h.stays (suc d)) (λ d. k.stays (suc d))

pub line-pair : (s t : Str) → TypeText s → TypeText t → one_line (s ++ b',' ∷ t) ≡ true
line-pair s t h k = one_line-append s (b',' ∷ t) h.line k.line

pub full-pair : (s t : Str) → is_empty (s ++ b',' ∷ t) ≡ false
full-pair [] t = refl
full-pair (c ∷ s) t = refl

-- The names of an enum.
pub record NamesText (s : Str) : Type 0 where
  pub line : one_line s ≡ true
  pub full : is_empty s ≡ false
  pub inner : Inner s

pub join-NamesText :
    (v : Str) (vs : List Str) → All IsWord (v ∷ vs) → NamesText (join (lit ",") (v ∷ vs))
unfolding join lit
join-NamesText v [] h =
    let w = TypeText-word v h.0 in
    record { line = w.line; full = w.full; inner = λ d. w.stays (suc d) }
join-NamesText v (u ∷ vs) h =
    let w = TypeText-word v h.0 in
    let rest = join-NamesText u vs h.1 in
    record {
      line = one_line-append v (b',' ∷ join (b',' ∷ []) (u ∷ vs)) w.line rest.line;
      full = full-pair v (join (b',' ∷ []) (u ∷ vs));
      inner = Inner-comma v (join (b',' ∷ []) (u ∷ vs)) (λ d. w.stays (suc d)) rest.inner;
    }

-- `form<s,t>`
pub pair_text : (s t : Str) → (s ++ b',' ∷ t) ++ b'>' ∷ [] ≡ s ++ b',' ∷ (t ++ b'>' ∷ [])
pair_text s t = append_assoc s (b',' ∷ t) (b'>' ∷ [])

pub IsWord-of : (w : Str) → all_word w ≡ true → is_empty w ≡ false → IsWord w
IsWord-of w h k = record { letters = h; full = k }

-- The text of a type is read as one part, whatever brackets it holds.
pub spelled-TypeText : {t : FieldType} → IsSpelled t → TypeText (type_text t)
unfolding type_text lit
spelled-TypeText (scalar_text {k}) = TypeText-word (spell k) (spell-IsWord k)
spelled-TypeText struct_text = TypeText-word (lit "struct") (IsWord-of (lit "struct") refl refl)
spelled-TypeText (optional_text {t} h) =
    let x = spelled-TypeText h in
    TypeText-bracket (lit "optional") (type_text t) (IsWord-of (lit "optional") refl refl)
      (λ d. x.stays (suc d)) x.line
spelled-TypeText (list_text {t} h) =
    let x = spelled-TypeText h in
    TypeText-bracket (lit "list") (type_text t) (IsWord-of (lit "list") refl refl)
      (λ d. x.stays (suc d)) x.line
spelled-TypeText (array_text {t} {n} h small) =
    let x = spelled-TypeText h in
    let d = decimal-TypeText n in
    subst (λ z. TypeText (lit "array<" ++ z)) (pair_text (type_text t) (decimal n))
      (TypeText-bracket (lit "array") (type_text t ++ b',' ∷ decimal n)
        (IsWord-of (lit "array") refl refl) (Inner-pair _ _ x d) (line-pair _ _ x d))
spelled-TypeText (map_text {k} {v} hk hv) =
    let x = spelled-TypeText hk in
    let y = spelled-TypeText hv in
    subst (λ z. TypeText (lit "map<" ++ z)) (pair_text (type_text k) (type_text v))
      (TypeText-bracket (lit "map") (type_text k ++ b',' ∷ type_text v)
        (IsWord-of (lit "map") refl refl) (Inner-pair _ _ x y) (line-pair _ _ x y))
spelled-TypeText (enum_text {v} {vs} h) =
    let x = join-NamesText v vs h in
    TypeText-bracket (lit "enum") (join (lit ",") (v ∷ vs)) (IsWord-of (lit "enum") refl refl)
      x.inner x.line

abbrev pub rec_of : ℕ → Resolve
rec_of fuel e r = type_of fuel e r

step_param :
    (rec : Resolve) (e : Str) (m : Str × Str)
    → kind_of e ≡ none
    → str_eq e (lit "struct") ≡ false
    → match_param e ≡ some m
    → type_step rec e (new_resolver []) ≡ param_of rec e (some m) (new_resolver [])
unfolding type_step lookup
step_param rec e m h k l = rw (h, k, type_step) (ap (λ o. param_of rec e o (new_resolver [])) l)

-- A step of `typeOf` on `form<args>`.
pub bracket_step :
    (fuel : ℕ) (w x : Str)
    → IsWord w
    → is_empty x ≡ false
    → one_line x ≡ true
    → canonical (bracket w x) ≡ bracket w x
    → kind_of (bracket w x) ≡ none
    → str_eq (bracket w x) (lit "struct") ≡ false
    → type_of (suc fuel) (bracket w x) (new_resolver [])
      ≡ param_of (rec_of fuel) (bracket w x) (some (w, x)) (new_resolver [])
unfolding type_of
bracket_step fuel w x h full line same no_kind no_struct =
    ap (λ e. type_step (rec_of fuel) e (new_resolver []))
      (ap canonical (trim_space-bracket w x h) ∙ same)
    ∙ step_param (rec_of fuel) (bracket w x) (w, x) no_kind no_struct
        (match_param-bracket w x h full line)
