-- ===== src/Proto/Keys.antt =====
-- What `EncodeData` and `jsonRoundTrip` keep of a case.
use serify.Base.{true, is_some, List, ◌∷◌, ◌≡◌, Str, Assoc, keys, All}
use serify.Conf.{Field, Value}
use serify.Proto.Encode.{Floats, Encoded, ok, field_type}

-- a result that holds an entry of the key before those of `more`
abbrev Prepends : Str → Encoded (Assoc Value) → Assoc Value → Type 0
Prepends k more out = (rest : Assoc Value) × (more ≡ ok rest) × (keys out ≡ k ∷ keys rest)

module _ (floats : Floats) where
  -- the fields of the schema have every key of the data
  abbrev pub Declared : List Field → Assoc Value → Type 0
  Declared schema content = All (λ k. is_some (field_type floats k schema) ≡ true) (keys content)
