-- ===== src/Wire/Typed.antt =====
-- The Go values that a worker may hold for a field of each type.
use serify.Base.{ℕ, ◌<◌, ◌^◌, true, false, List, ◌≡◌, Str, str_eq}
use serify.Kind.{Scalar}
use serify.Conf.{
  FieldType, scalar, optional, list, array, map, struct, enum, sum, Fields, no_fields, field,
  Variants, no_variants, unit_variant, variant,
}
use serify.Wire.{
  GoType, Stored, nil, text, nested, go_map, variant_of, Stores, no_stores, store, Pairs, no_pairs,
  pair,
}
use serify.Wire.Decode.{scalar_type, make_slice, count_stores}
use serify.Wire.Scalars.{HasKind}

-- None of the fields has the name.
abbrev pub IsFresh : Str → Fields → Type 0
IsFresh name no_fields = Unit
IsFresh name (field other t fs) = (str_eq other name ≡ false) × IsFresh name fs

-- The Go slice of an element type.
abbrev pub elem_go : FieldType → GoType
elem_go (scalar k) = scalar_type k
elem_go _ = GoType.field_map

-- The element types that the wire supports in lists, optionals and maps.
abbrev pub IsElem : FieldType → Type 0
IsElem (scalar k) = Unit
IsElem (struct fs) = Unit
IsElem _ = ⊥

-- `HasFields` lists the pairs in the order of the schema, in which a field may be missing. The
-- elements of lists, optionals and maps are scalars or structs; those of arrays are scalars.
mutual
  pub data HasType : FieldType → Stored → Type 0 where
    plain : {t : FieldType} {v : Stored} → HasElem t v → HasType t v
    absent : {t : FieldType} → HasType (optional t) nil
    present : {t : FieldType} {v : Stored} → HasElem t v → HasType (optional t) v
    list_value :
        {t : FieldType} {v : Stored} (vs : Stores)
        → IsElem t
        → HasElems t vs
        → v ≡ make_slice (elem_go t) vs
        → HasType (list t) v
    array_value :
        {k : Scalar} {n : ℕ} {v : Stored} (vs : Stores)
        → HasElems (scalar k) vs
        → count_stores vs ≡ n
        → n < 2 ^ 63
        → v ≡ make_slice (scalar_type k) vs
        → HasType (array (scalar k) n) v
    map_value :
        {k : Scalar} {t : FieldType} {ps : Pairs}
        → IsElem t
        → HasPairs t ps
        → HasType (map (scalar k) t) (go_map ps)
    enum_value : {names : List Str} {s : Str} → HasType (enum names) (text s)
    sum_value :
        {vs : Variants} {tag : Str} {v : Stored}
        → HasArm vs tag v
        → HasType (sum vs) (variant_of tag v)

  pub data HasElem : FieldType → Stored → Type 0 where
    scalar_value : {k : Scalar} {v : Stored} → HasKind k v → HasElem (scalar k) v
    struct_value : {fs : Fields} {ps : Pairs} → HasFields fs ps → HasElem (struct fs) (nested ps)

  pub data HasElems : FieldType → Stores → Type 0 where
    no_elems : {t : FieldType} → HasElems t no_stores
    elem :
        {t : FieldType} {v : Stored} {vs : Stores}
        → HasElem t v
        → HasElems t vs
        → HasElems t (store v vs)

  pub data HasPairs : FieldType → Pairs → Type 0 where
    no_keys : {t : FieldType} → HasPairs t no_pairs
    key :
        {t : FieldType} {k : Str} {v : Stored} {ps : Pairs}
        → HasElem t v
        → HasPairs t ps
        → HasPairs t (pair k v ps)

  pub data HasFields : Fields → Pairs → Type 0 where
    none_left : HasFields no_fields no_pairs
    given :
        {name : Str} {t : FieldType} {fs : Fields} {v : Stored} {ps all : Pairs}
        → HasType t v
        → IsFresh name fs
        → HasFields fs ps
        → all ≡ pair name v ps
        → HasFields (field name t fs) all
    missing :
        {name : Str} {t : FieldType} {fs : Fields} {ps : Pairs}
        → IsFresh name fs
        → HasFields fs ps
        → HasFields (field name t fs) ps

  -- The first variant of the tag has the payload.
  pub data HasArm : Variants → Str → Stored → Type 0 where
    unit_here :
        {name tag : Str} {vs : Variants}
        → str_eq name tag ≡ true
        → HasArm (unit_variant name vs) tag nil
    arm_here :
        {name tag : Str} {t : FieldType} {vs : Variants} {v : Stored}
        → str_eq name tag ≡ true
        → HasType t v
        → HasArm (variant name t vs) tag v
    past_unit :
        {name tag : Str} {vs : Variants} {v : Stored}
        → str_eq name tag ≡ false
        → HasArm vs tag v
        → HasArm (unit_variant name vs) tag v
    past_arm :
        {name tag : Str} {t : FieldType} {vs : Variants} {v : Stored}
        → str_eq name tag ≡ false
        → HasArm vs tag v
        → HasArm (variant name t vs) tag v

-- The types of which the wire carries the values: the elements of lists, optionals and maps are
-- scalars or structs, those of arrays scalars, and the names of a struct's fields differ.
mutual
  pub data IsWire : FieldType → Type 0 where
    wire_elem : {t : FieldType} → WireElem t → IsWire t
    wire_optional : {t : FieldType} → WireElem t → IsWire (optional t)
    wire_list : {t : FieldType} → WireElem t → IsWire (list t)
    wire_array : {k : Scalar} {n : ℕ} → n < 2 ^ 63 → IsWire (array (scalar k) n)
    wire_map : {k : Scalar} {t : FieldType} → WireElem t → IsWire (map (scalar k) t)
    wire_enum : {names : List Str} → IsWire (enum names)
    wire_sum : {vs : Variants} → ArmsWire vs → IsWire (sum vs)

  pub data WireElem : FieldType → Type 0 where
    wire_scalar : {k : Scalar} → WireElem (scalar k)
    wire_struct : {fs : Fields} → AreWire fs → WireElem (struct fs)

  pub data AreWire : Fields → Type 0 where
    end_of_fields : AreWire no_fields
    one_more :
        {name : Str} {t : FieldType} {fs : Fields}
        → IsFresh name fs
        → IsWire t
        → AreWire fs
        → AreWire (field name t fs)

  pub data ArmsWire : Variants → Type 0 where
    end_of_arms : ArmsWire no_variants
    one_unit : {name : Str} {vs : Variants} → ArmsWire vs → ArmsWire (unit_variant name vs)
    one_arm :
        {name : Str} {t : FieldType} {vs : Variants}
        → IsWire t
        → ArmsWire vs
        → ArmsWire (variant name t vs)

pub WireElem-IsElem : {t : FieldType} → WireElem t → IsElem t
WireElem-IsElem wire_scalar = tt
WireElem-IsElem (wire_struct w) = tt
