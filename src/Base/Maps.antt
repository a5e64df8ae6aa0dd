-- ===== src/Base/Maps.antt =====
-- Go maps with string keys: association lists, in one of the orders in which Go may iterate.
use mathlib.Core.Path.{◌≡◌, refl}
use mathlib.Core.Option.{Option, none, some}
use mathlib.Core.List.{List, [], ◌∷◌}
use native.Mathlib.Omega.{arith}
use serify.Base.Tests.{if◌then◌else◌}
use serify.Base.Text.{Str, str_eq, str_eq_iff}

abbrev pub Assoc {ℓ} : Type ℓ → Type ℓ
Assoc V = List (Str × V)

module _ {ℓ} {V : Type ℓ} where
  -- m[k], with the presence flag
  unfoldable pub lookup : Str → Assoc V → Option V
  lookup k [] = none
  lookup k ((j, v) ∷ m) = if str_eq j k then some v else lookup k m

  -- m[k] = v
  unfoldable pub insert : Str → V → Assoc V → Assoc V
  insert k v [] = (k, v) ∷ []
  insert k v ((j, w) ∷ m) = if str_eq j k then (k, v) ∷ m else (j, w) ∷ insert k v m

  -- maps.Keys
  abbrev pub keys : Assoc V → List Str
  keys [] = []
  keys ((k, v) ∷ m) = k ∷ keys m

  pub lookup-insert :
      (k j : Str) (v : V) (m : Assoc V)
      → lookup j (insert k v m) ≡ (if str_eq k j then some v else lookup j m)
  unfolding lookup insert
  lookup-insert k j v [] = refl
  lookup-insert k j v ((i, w) ∷ m) =
      ground (arith, str_eq_iff k j, str_eq_iff i k, str_eq_iff i j, lookup-insert k j v m)

  -- m[k] of a map of maps or slices, where a missing key reads as the empty one
  abbrev pub or_empty : Option (List V) → List V
  or_empty none = []
  or_empty (some m) = m

module _ {ℓ} {V : Type ℓ} where
  abbrev pub values : Assoc V → List V
  values [] = []
  values ((k, v) ∷ m) = v ∷ values m

  unfoldable pub sub_map : Str → Assoc (List V) → List V
  sub_map k m = or_empty (lookup k m)

  pub sub_map-insert :
      (k j : Str) (v : List V) (m : Assoc (List V))
      → sub_map j (insert k v m) ≡ (if str_eq k j then v else sub_map j m)
  unfolding sub_map
  sub_map-insert k j v m = rw lookup-insert (ground arith)
