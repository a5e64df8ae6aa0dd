-- ===== src/Wire/Elems.antt =====
-- The elements of a list, an array or a map travel one by one.
use serify.Wire.Utf8.{IsText, AreTexts, AreTextPairs, make_slice-AreTexts}
use serify.Proto.Encode.{utf8_value, utf8_values, utf8_entries}
use serify.Base.{ap, ℕ, suc, some, ◌≡◌, refl, Str, lit, str_eq, str_eq_refl}
use serify.Kind.{Scalar, spell}
use serify.Conf.{Value, object, slice, Values, no_values, value, Entries, no_entries, entry}
use serify.Proto.Encode.{
  Floats, Encoded, ok, normalize, normalize_values, normalize_entries, find_entry,
}
use serify.Wire.{
  GoType, go_name, Stored, nested, Stores, no_stores, store, Pairs, no_pairs, pair, go_type_of,
  kind_of,
}
use serify.Wire.Json.{Go, as_array, as_object}
use serify.Wire.Decode.{
  Raw, decode_kind, decode_scalar, collect, collect_map, decode_list, elem_type, make_slice,
  struct_kind, scalar_type,
}
use serify.Wire.Encode.{
  encode_kind, encode_scalar, encode_each, encode_map, encode_each_list, encode_list, elements,
}
use serify.Wire.Scalars.{Trip, NonNull}

pub kind_of-spell : (k : Scalar) → kind_of (spell k) ≡ some k
unfolding kind_of spell str_eq lit
kind_of-spell Scalar.uint8 = refl
kind_of-spell _ = refl

pub elem_type-spell : (k : Scalar) → elem_type (spell k) ≡ some (scalar_type k)
unfolding elem_type
elem_type-spell k = rw (kind_of-spell k, elem_type)

pub elem_type-struct : elem_type (lit "struct") ≡ some GoType.field_map
unfolding elem_type lit str_eq
elem_type-struct = refl

pub normalize_values-value :
    (floats : Floats) (v r : Value) (vs rs : Values)
    → normalize floats v ≡ ok r
    → normalize_values floats vs ≡ ok rs
    → normalize_values floats (value v vs) ≡ ok (value r rs)
unfolding normalize
normalize_values-value floats v r vs rs h k = rw (h, k)

pub normalize_entries-entry :
    (floats : Floats) (name : Str) (v r : Value) (es rs : Entries)
    → normalize floats v ≡ ok r
    → normalize_entries floats es ≡ ok rs
    → normalize_entries floats (entry name v es) ≡ ok (entry name r rs)
unfolding normalize
normalize_entries-entry floats name v r es rs h k = rw (h, k)

pub normalize-slice :
    (floats : Floats) (vs rs : Values)
    → normalize_values floats vs ≡ ok rs
    → normalize floats (slice vs) ≡ ok (slice rs)
unfolding normalize
normalize-slice floats vs rs h = rw h

pub normalize-object :
    (floats : Floats) (es rs : Entries)
    → normalize_entries floats es ≡ ok rs
    → normalize floats (object es) ≡ ok (object rs)
unfolding normalize
normalize-object floats es rs h = rw h

module _ (floats : Floats) (go : Go) (sub_e : Pairs → Encoded Entries)
    (sub_d : Raw → Encoded Pairs) where
  abbrev pub ElemTrip : Str → Stored → Type 0
  ElemTrip typ v =
      Trip floats NonNull (encode_scalar go sub_e typ v) (λ r. decode_scalar go sub_d typ r) v

  pub scalar-Trip :
      (k : Scalar) (v : Stored)
      → Trip floats NonNull (encode_kind go k v) (decode_kind go k) v
      → ElemTrip (spell k) v
  unfolding encode_scalar decode_scalar
  scalar-Trip k v t = record {
    sent = t.sent;
    raw = t.raw;
    encodes = rw (kind_of-spell k, encode_scalar) t.encodes;
    travels = t.travels;
    decodes = rw (kind_of-spell k, decode_scalar) t.decodes;
    shape = t.shape;
    clean = t.clean;
  }

  -- What is known of the fields of a struct.
  pub record FieldsTrip (fm : Pairs) : Type 0 where
    pub sent : Entries
    pub raw : Entries
    pub encodes : sub_e fm ≡ ok sent
    pub travels : normalize_entries floats sent ≡ ok raw
    pub decodes : sub_d (λ k. find_entry k raw) ≡ ok fm
    pub clean : AreTextPairs fm → utf8_entries sent ≡ sent

  pub struct_trip : (fm : Pairs) → FieldsTrip fm → ElemTrip (lit "struct") (nested fm)
  unfolding encode_scalar decode_scalar kind_of str_eq lit struct_kind as_object utf8_value IsText
  struct_trip fm t = record {
    sent = object t.sent;
    raw = object t.raw;
    encodes = rw t.encodes;
    travels = normalize-object floats t.sent t.raw t.travels;
    decodes = rw t.decodes;
    shape = refl;
    clean = λ c. ap object (t.clean c);
  }

  abbrev pub ElemTrips : GoType → Str → Stores → Type 0
  ElemTrips t typ no_stores = Unit
  ElemTrips t typ (store v vs) = ElemTrip typ v × (go_type_of v ≡ go_name t) × ElemTrips t typ vs

  pub record ListTrip (t : GoType) (typ : Str) (i : ℕ) (vs : Stores) : Type 0 where
    pub sent : Values
    pub raw : Values
    pub encodes : encode_each go sub_e typ i vs ≡ ok sent
    pub travels : normalize_values floats sent ≡ ok raw
    pub decodes : collect go sub_d t typ i raw ≡ ok vs
    pub clean : AreTexts vs → utf8_values sent ≡ sent

  pub elems_trip :
      (t : GoType) (typ : Str) (i : ℕ) (vs : Stores) → ElemTrips t typ vs → ListTrip t typ i vs
  unfolding encode_each collect normalize utf8_value IsText
  elems_trip t typ i no_stores h = record {
    sent = no_values;
    raw = no_values;
    encodes = refl;
    travels = refl;
    decodes = refl;
    clean = λ c. refl;
  }
  elems_trip t typ i (store v vs) h =
      let x = h.0 in
      let rest = elems_trip t typ (suc i) vs h.2 in
      record {
        sent = value x.sent rest.sent;
        raw = value x.raw rest.raw;
        encodes = rw (x.encodes, rest.encodes);
        travels =
            normalize_values-value floats x.sent x.raw rest.sent rest.raw x.travels rest.travels;
        decodes = rw (x.decodes, h.1, rest.decodes, str_eq_refl (go_name t));
        clean = λ c. rw (x.clean c.0, rest.clean c.1) refl;
      }

  pub record MapTrip (typ : Str) (ps : Pairs) : Type 0 where
    pub sent : Entries
    pub raw : Entries
    pub encodes : encode_map go sub_e typ ps ≡ ok sent
    pub travels : normalize_entries floats sent ≡ ok raw
    pub decodes : collect_map go sub_d typ raw ≡ ok ps
    pub clean : AreTextPairs ps → utf8_entries sent ≡ sent

  abbrev pub PairTrips : Str → Pairs → Type 0
  PairTrips typ no_pairs = Unit
  PairTrips typ (pair k v ps) = ElemTrip typ v × PairTrips typ ps

  pub pairs_trip : (typ : Str) (ps : Pairs) → PairTrips typ ps → MapTrip typ ps
  unfolding encode_map collect_map normalize utf8_value IsText
  pairs_trip typ no_pairs h = record {
    sent = no_entries;
    raw = no_entries;
    encodes = refl;
    travels = refl;
    decodes = refl;
    clean = λ c. refl;
  }
  pairs_trip typ (pair k v ps) h =
      let x = h.0 in
      let rest = pairs_trip typ ps h.1 in
      record {
        sent = entry k x.sent rest.sent;
        raw = entry k x.raw rest.raw;
        encodes = rw (x.encodes, rest.encodes);
        travels =
            normalize_entries-entry floats k x.sent x.raw rest.sent rest.raw x.travels rest.travels;
        decodes = rw (x.decodes, rest.decodes);
        clean = λ c. rw (c.0, x.clean c.1, rest.clean c.2) refl;
      }

  -- A value of a list or an array: the slice of its elements.
  pub list_trip :
      (t : GoType) (typ : Str) (vs : Stores)
      → elem_type typ ≡ some t
      → elements t (make_slice t vs) ≡ some vs
      → ListTrip t typ 0 vs
      → Trip floats NonNull
          (encode_list go sub_e typ (make_slice t vs))
          (λ r. decode_list go sub_d typ r)
          (make_slice t vs)
  unfolding encode_list encode_each_list decode_list as_array utf8_value IsText
  list_trip t typ vs e f l = record {
    sent = slice l.sent;
    raw = slice l.raw;
    encodes = rw (e, encode_list) (rw (f, encode_each_list) (rw l.encodes));
    travels = normalize-slice floats l.sent l.raw l.travels;
    decodes = rw (e, decode_list) (rw l.decodes);
    shape = refl;
    clean = λ c. ap slice (l.clean (make_slice-AreTexts t vs f c));
  }
