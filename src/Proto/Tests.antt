-- ===== src/Proto/Tests.antt =====
-- The encoding of case data at concrete values.
use serify.Base.{List, [], ◌∷◌, none, lit, Assoc, ℤ}
use serify.Kind
use serify.Conf.{Field, scalar, Value, int}
use serify.Proto.Encode.{Floats, ok}

abbrev pub zero_floats : Floats
zero_floats = record {
  narrow = λ n. n;
  widen = λ n. n;
  of_int = λ n. 0;
  exact_int = λ n. none;
  parse = λ s. ok 0;
  show = λ v. [];
}

abbrev one_field : List Field
one_field = record { name = lit "n"; type = scalar Kind.Scalar.uint8; tags = [] } ∷ []

abbrev one_value : Assoc Value
one_value = (lit "n", int (ℤ.pos 7)) ∷ []
