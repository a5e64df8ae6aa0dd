-- ===== src/Wire/Collect.antt =====
-- What the loops of the decoding collect is of the element type.
use mathlib.Core.Path.{subst}
use serify.Base.{ℕ, suc, some, ◌≡◌, inl, inr, Bool-cases, str_eq}
use serify.Conf.{Value, Values, no_values, value, Entries, no_entries, entry, FieldType}
use serify.Proto.Encode.{Encoded, ok, wrap}
use serify.Wire.{go_name, Stored, Stores, Pairs, go_type_of}
use serify.Wire.Json.{Go, as_array}
use serify.Wire.Decode.{
  Raw, decode_scalar, decode_list, collect, collect_map, make_slice, elem_type,
}
use serify.Wire.Schema.{type_text}
use serify.Wire.Typed
use serify.Wire.Typed.{
  HasType, HasElem, HasElems, HasPairs, HasFields, HasArm, IsElem, IsFresh, elem_go,
}
use serify.Wire.Ranges.{bind-eq-ok, wrap-eq-ok, ok_inj, made}

module _ (go : Go) where
  -- The decoding of an element gives only values of the element type.
  abbrev pub GivesElem : (Raw → Encoded Pairs) → FieldType → Type 0
  GivesElem sub t =
      (r : Value) (v : Stored) → decode_scalar go sub (type_text t) r ≡ ok v → HasElem t v

  collect-HasElems :
      (sub : Raw → Encoded Pairs) (t : FieldType) (i : ℕ) (rs : Values) (vs : Stores)
      → GivesElem sub t
      → collect go sub (elem_go t) (type_text t) i rs ≡ ok vs
      → HasElems t vs
  unfolding collect
  collect-HasElems sub t i no_values vs give h = subst (HasElems t) (ok_inj h) Typed.no_elems
  collect-HasElems sub t i (value r rs) vs give h =
      let (v, hv, k) = bind-eq-ok (wrap _ (decode_scalar go sub (type_text t) r)) _ h in
      elim (Bool-cases (str_eq (go_type_of v) (go_name (elem_go t)))) [
        | inl e ↦
            let (ws, hw, l) =
              bind-eq-ok (collect go sub (elem_go t) (type_text t) (suc i) rs) _ (rw e at k) in
            subst (HasElems t) (ok_inj l) (
              Typed.elem (give r v (wrap-eq-ok _ _ hv))
                (collect-HasElems sub t (suc i) rs ws give hw))
        | inr e ↦ cc (rw e at k)
      ]

  pub collect_map-HasPairs :
      (sub : Raw → Encoded Pairs) (t : FieldType) (es : Entries) (ps : Pairs)
      → GivesElem sub t
      → collect_map go sub (type_text t) es ≡ ok ps
      → HasPairs t ps
  unfolding collect_map
  collect_map-HasPairs sub t no_entries ps give h = subst (HasPairs t) (ok_inj h) Typed.no_keys
  collect_map-HasPairs sub t (entry key r es) ps give h =
      let (v, hv, k) = bind-eq-ok (wrap _ (decode_scalar go sub (type_text t) r)) _ h in
      let (qs, hq, l) = bind-eq-ok (collect_map go sub (type_text t) es) _ k in
      subst (HasPairs t) (ok_inj l)
        (Typed.key (give r v (wrap-eq-ok _ _ hv)) (collect_map-HasPairs sub t es qs give hq))

  -- A list that is decoded is the slice of its elements.
  pub decode_list-slice :
      (sub : Raw → Encoded Pairs) (t : FieldType) (r : Value) (v : Stored)
      → GivesElem sub t
      → elem_type (type_text t) ≡ some (elem_go t)
      → decode_list go sub (type_text t) r ≡ ok v
      → (vs : Stores) × HasElems t vs × (v ≡ make_slice (elem_go t) vs)
  unfolding decode_list
  decode_list-slice sub t r v give e h =
      let (arr, _, k) = bind-eq-ok (as_array r) _ h in
      let (vs, hv, same) =
        made (collect go sub (elem_go t) (type_text t) 0 arr) (make_slice (elem_go t))
          (rw e at k) in
      (vs, collect-HasElems sub t 0 arr vs give hv, same)
