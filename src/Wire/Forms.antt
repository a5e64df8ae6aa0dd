-- ===== src/Wire/Forms.antt =====
-- The forms of a type's text: what the switches of `decodeField` and `encodeField` do on the texts
-- that the runner writes.
use serify.Base.{false, if◌then◌else◌, ◌++◌, ◌≡◌, refl, Str, lit, str_eq}
use serify.Kind.{Scalar, spell}
use serify.Conf.{Value, null, Entries, object, string}
use serify.Proto.Encode.{Encoded, ok, ◌>>=◌}
use serify.Wire.Scalars.{is_null}
use serify.Wire.{kind_of, Stored, text, go_map, Pairs, has_prefix}
use serify.Wire.Json.{Go, as_string}
use serify.Wire.Decode.{
  Raw, decode_scalar, decode_list, decode_kind, decode_optional, decode_array, decode_map,
  decode_sum, decode_typed, type_args, array_elem_type, map_value_type,
}
use serify.Wire.Encode.{
  encode_scalar, encode_list, encode_optional, encode_sum, encode_typed, encode_map,
}
use serify.Wire.Text.{drop_last-append}

type_args_list : (s : Str) → type_args 5 (lit "list<" ++ (s ++ lit ">")) ≡ ok s
unfolding type_args lit
type_args_list s = rw (drop_last-append s b'>', type_args)

type_args_optional : (s : Str) → type_args 9 (lit "optional<" ++ (s ++ lit ">")) ≡ ok s
unfolding type_args lit
type_args_optional s = rw (drop_last-append s b'>', type_args)

pub type_args_array : (s : Str) → type_args 6 (lit "array<" ++ (s ++ lit ">")) ≡ ok s
unfolding type_args lit
type_args_array s = rw (drop_last-append s b'>', type_args)

pub type_args_map : (s : Str) → type_args 4 (lit "map<" ++ (s ++ lit ">")) ≡ ok s
unfolding type_args lit
type_args_map s = rw (drop_last-append s b'>', type_args)

module _ (go : Go) (sub_e : Pairs → Encoded Entries) (arm_e : Str → Stored → Encoded Value) where
  pub encode_typed-spell :
      (k : Scalar) (v : Stored)
      → encode_typed go sub_e arm_e (spell k) v ≡ encode_scalar go sub_e (spell k) v
  unfolding encode_typed has_prefix spell lit
  encode_typed-spell Scalar.uint8 v = refl
  encode_typed-spell _ v = refl

  pub encode_typed-struct :
      (v : Stored)
      → encode_typed go sub_e arm_e (lit "struct") v ≡ encode_scalar go sub_e (lit "struct") v
  unfolding encode_typed has_prefix lit
  encode_typed-struct v = refl

  pub encode_typed-list :
      (s : Str) (v : Stored)
      → encode_typed go sub_e arm_e (lit "list<" ++ (s ++ lit ">")) v ≡ encode_list go sub_e s v
  unfolding encode_typed has_prefix lit
  encode_typed-list s v = rw (type_args_list s)

  pub encode_typed-optional :
      (s : Str) (v : Stored)
      → encode_typed go sub_e arm_e (lit "optional<" ++ (s ++ lit ">")) v
        ≡ encode_optional go sub_e s v
  unfolding encode_typed has_prefix lit
  encode_typed-optional s v = rw (type_args_optional s)

  pub encode_typed-array :
      (s : Str) (v : Stored)
      → encode_typed go sub_e arm_e (lit "array<" ++ s) v
        ≡ (array_elem_type (lit "array<" ++ s) >>= λ elem. encode_list go sub_e elem v)
  unfolding encode_typed has_prefix lit
  encode_typed-array s v = refl

  pub encode_typed-map :
      (s : Str) (ps : Pairs)
      → encode_typed go sub_e arm_e (lit "map<" ++ s) (go_map ps) ≡ (
          map_value_type (lit "map<" ++ s) >>= λ val.
          encode_map go sub_e val ps >>= λ out. ok (object out))
  unfolding encode_typed has_prefix lit
  encode_typed-map s ps = refl

  pub encode_typed-sum :
      (s : Str) (v : Stored)
      → encode_typed go sub_e arm_e (lit "sum<" ++ s) v ≡ encode_sum go arm_e v
  unfolding encode_typed has_prefix lit
  encode_typed-sum s v = refl

  pub encode_typed-enum :
      (s t : Str) → encode_typed go sub_e arm_e (lit "enum<" ++ s) (text t) ≡ ok (string t)
  unfolding encode_typed has_prefix lit
  encode_typed-enum s t = refl

module _ (go : Go) (sub_d : Raw → Encoded Pairs) (arm_d : Str → Value → Encoded Stored)
    (name : Str) where
  pub decode_typed-spell :
      (k : Scalar) (r : Value)
      → decode_typed go sub_d arm_d name (spell k) r ≡ decode_scalar go sub_d (spell k) r
  unfolding decode_typed has_prefix spell lit
  decode_typed-spell Scalar.uint8 r = refl
  decode_typed-spell _ r = refl

  pub decode_typed-struct :
      (r : Value)
      → decode_typed go sub_d arm_d name (lit "struct") r ≡ decode_scalar go sub_d (lit "struct") r
  unfolding decode_typed has_prefix lit
  decode_typed-struct r = refl

  pub decode_typed-list :
      (s : Str) (r : Value)
      → decode_typed go sub_d arm_d name (lit "list<" ++ (s ++ lit ">")) r
        ≡ decode_list go sub_d s r
  unfolding decode_typed has_prefix lit
  decode_typed-list s r = rw (type_args_list s)

  pub decode_typed-optional :
      (s : Str) (r : Value)
      → decode_typed go sub_d arm_d name (lit "optional<" ++ (s ++ lit ">")) r
        ≡ decode_optional go sub_d s r
  unfolding decode_typed has_prefix lit
  decode_typed-optional s r = rw (type_args_optional s)

  pub decode_typed-array :
      (s : Str) (r : Value)
      → decode_typed go sub_d arm_d name (lit "array<" ++ s) r
        ≡ decode_array go sub_d name (lit "array<" ++ s) r
  unfolding decode_typed has_prefix lit
  decode_typed-array s r = refl

  pub decode_typed-map :
      (s : Str) (r : Value)
      → decode_typed go sub_d arm_d name (lit "map<" ++ s) r
        ≡ decode_map go sub_d (lit "map<" ++ s) r
  unfolding decode_typed has_prefix lit
  decode_typed-map s r = refl

  pub decode_typed-sum :
      (s : Str) (r : Value)
      → decode_typed go sub_d arm_d name (lit "sum<" ++ s) r ≡ decode_sum arm_d r
  unfolding decode_typed has_prefix lit
  decode_typed-sum s r = refl

  pub decode_typed-enum :
      (s t : Str) → decode_typed go sub_d arm_d name (lit "enum<" ++ s) (string t) ≡ ok (text t)
  unfolding decode_typed has_prefix lit as_string
  decode_typed-enum s t = refl

module _ (go : Go) where
  decode_optional-nonnull :
      (sub : Raw → Encoded Pairs) (typ : Str) (r : Value)
      → is_null r ≡ false
      → decode_optional go sub typ r ≡ (
          if str_eq typ (lit "string")
          then (as_string r >>= λ s. ok (text s))
          else decode_scalar go sub typ r)
  unfolding decode_optional
  decode_optional-nonnull sub typ null h = cc
  decode_optional-nonnull sub typ _ h = refl

  pub decode_optional-spell :
      (sub : Raw → Encoded Pairs) (k : Scalar) (r : Value)
      → is_null r ≡ false
      → decode_optional go sub (spell k) r ≡ decode_scalar go sub (spell k) r
  unfolding decode_scalar decode_kind kind_of spell lit str_eq
  decode_optional-spell sub Scalar.uint8 r h = decode_optional-nonnull sub _ r h
  decode_optional-spell sub _ r h = decode_optional-nonnull sub _ r h

  pub decode_optional-struct :
      (sub : Raw → Encoded Pairs) (r : Value)
      → is_null r ≡ false
      → decode_optional go sub (lit "struct") r ≡ decode_scalar go sub (lit "struct") r
  unfolding lit str_eq
  decode_optional-struct sub r h = decode_optional-nonnull sub _ r h
