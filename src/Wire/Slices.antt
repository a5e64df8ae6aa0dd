-- ===== src/Wire/Slices.antt =====
-- The slices of a field map: what `EncodeFieldMap` writes by the
-- schema that the runner sends is read by `DecodeFieldMap` as the same field map.
use serify.Base.{pos, negsuc, suc, length, some, ◌≡◌, refl, ap, lit, str_eq}
use serify.Kind.{Scalar}
use serify.Conf.{FieldType, scalar, optional, list, array, map, struct, enum, sum}
use serify.Wire.{GoType, go_name, Stored, num, Stores, no_stores, store, go_type_of}
use serify.Wire.Decode.{
  elem_type, make_slice, scalar_type, bytes_of_stores, count_stores, slice_len,
}
use serify.Wire.Encode.{elements, stores_of_bytes}
use serify.Wire.Schema.{type_text}
use serify.Wire.Scalars.{HasKind, HasKind-go_type_of, IsExact, Trip, NonNull, kind-Trip}
use serify.Wire.Typed
use serify.Wire.Scalars
use serify.Wire.Typed.{HasType, HasElem, HasElems, HasPairs, HasFields, HasArm, IsElem, elem_go}
use serify.Wire.Elems.{elem_type-spell, elem_type-struct}

pub elem_type-text : (t : FieldType) → IsElem t → elem_type (type_text t) ≡ some (elem_go t)
unfolding type_text
elem_type-text (scalar k) h = elem_type-spell k
elem_type-text (struct fs) h = elem_type-struct
elem_type-text (optional t) h = absurd h
elem_type-text (list t) h = absurd h
elem_type-text (array t n) h = absurd h
elem_type-text (map k t) h = absurd h
elem_type-text (enum names) h = absurd h
elem_type-text (sum vs) h = absurd h

pub HasElem-go_type_of :
    {t : FieldType} {v : Stored} → HasElem t v → go_type_of v ≡ go_name (elem_go t)
HasElem-go_type_of (Typed.scalar_value h) = HasKind-go_type_of h
HasElem-go_type_of (Typed.struct_value h) = unfold go_type_of go_name in refl

-- A slice has the elements that it was made of.
uint8_elements :
    (vs : Stores) → HasElems (scalar Scalar.uint8) vs → stores_of_bytes (bytes_of_stores vs) ≡ vs
unfolding stores_of_bytes bytes_of_stores
uint8_elements no_stores h = refl
uint8_elements (store v vs) (Typed.elem (Typed.scalar_value (Scalars.is_uint8 (pos n) r)) h) =
    ap (λ ws. store (num GoType.uint8 (pos n)) ws) (uint8_elements vs h)
uint8_elements (store v vs) (Typed.elem (Typed.scalar_value (Scalars.is_uint8 (negsuc n) r)) h) = cc

elements-make_slice_kind :
    (k : Scalar) (vs : Stores)
    → HasElems (scalar k) vs
    → elements (scalar_type k) (make_slice (scalar_type k) vs) ≡ some vs
unfolding elements make_slice scalar_type go_name lit str_eq
elements-make_slice_kind Scalar.uint8 vs h = ap some (uint8_elements vs h)
elements-make_slice_kind _ vs h = refl

pub elements-make_slice :
    (t : FieldType) (vs : Stores)
    → HasElems t vs
    → elements (elem_go t) (make_slice (elem_go t) vs) ≡ some vs
unfolding elements make_slice go_name lit str_eq
elements-make_slice (scalar k) vs h = elements-make_slice_kind k vs h
elements-make_slice _ vs h = refl

count_bytes :
    (vs : Stores)
    → HasElems (scalar Scalar.uint8) vs
    → length (bytes_of_stores vs) ≡ count_stores vs
unfolding bytes_of_stores count_stores
count_bytes no_stores h = refl
count_bytes (store v vs) (Typed.elem (Typed.scalar_value (Scalars.is_uint8 (pos n) r)) h) =
    ap suc (count_bytes vs h)
count_bytes (store v vs) (Typed.elem (Typed.scalar_value (Scalars.is_uint8 (negsuc n) r)) h) = cc

pub slice_len-make_slice :
    (k : Scalar) (vs : Stores)
    → HasElems (scalar k) vs
    → slice_len (make_slice (scalar_type k) vs) ≡ count_stores vs
unfolding slice_len make_slice scalar_type
slice_len-make_slice Scalar.uint8 vs h = count_bytes vs h
slice_len-make_slice _ vs h = refl
