-- ===== src/Cmp/Tests.antt =====
-- The comparisons at concrete bytes and values.
use serify.Base.{
  Bool, true, false, some, List, [], ◌∷◌, ◌≡◌, refl, ◌↔◌, ◌≤◌, ◌*◌, ◌+◌, ◌-◌, max, length, arith,
  if◌then◌else◌, Str, lit, str_eq, Assoc, All, keys, is_some, lookup,
}
use serify.Conf.{Value, string}
use serify.Cmp.{
  GoCmp, first_divergence, hex_diff, hex_rows_loop, hex_row_size, context_bounds, data_diff,
  field_order,
}
use serify.Cmp.Equal.{SameBytes, hex_diff-nil_iff, agrees, data_diff-nil_iff}
use serify.Cmp.Window.{Diverges, IsWindow, first_divergence-Diverges, hex_rows_loop_total}

-- equality on strings, which is enough for the values below
unfoldable pub string_equal : Value → Value → Bool
string_equal (string s) (string t) = str_eq s t
string_equal _ _ = false

abbrev pub string_diff : Value → Value → Str
string_diff a b = if string_equal a b then [] else 45 ∷ []

pub string_diff-nil_iff : (a b : Value) → (string_diff a b ≡ []) ↔ (string_equal a b ≡ true)
string_diff-nil_iff a b = ground arith

abbrev pub string_cmp : GoCmp
string_cmp = record { equal = string_equal; diff = string_diff; diff_empty = string_diff-nil_iff }

hex_diff-nil_iff_example :
    (hex_diff (lit "0aFF") (lit "0Aff") ≡ []) ↔ SameBytes (lit "0aFF") (lit "0Aff")
hex_diff-nil_iff_example = hex_diff-nil_iff (lit "0aFF") (lit "0Aff")

abbrev expected : Assoc Value
expected = (lit "name", string (lit "x")) ∷ []

abbrev decoded : Assoc Value
decoded = (lit "name", string (lit "y")) ∷ []

data_diff-nil_iff_example : (data_diff string_cmp expected decoded [] [] ≡ []) ↔ (
    All (λ k. agrees string_cmp expected decoded [] k ≡ true) (field_order string_cmp expected [])
    × All (λ k. is_some (lookup k expected) ≡ true) (keys decoded))
data_diff-nil_iff_example = data_diff-nil_iff string_cmp expected decoded [] []

first_divergence-Diverges_example :
    Diverges (1 ∷ 2 ∷ 3 ∷ []) (1 ∷ 2 ∷ 4 ∷ 5 ∷ []) 2 × IsWindow 2 (max 3 4) (context_bounds 2 3 4)
unfolding first_divergence
first_divergence-Diverges_example =
    first_divergence-Diverges (1 ∷ 2 ∷ 3 ∷ []) (1 ∷ 2 ∷ 4 ∷ 5 ∷ []) 2 refl

hex_rows_loop_total_example :
    (rows : List Str) × (hex_rows_loop 40 (1 ∷ 2 ∷ 3 ∷ []) 0 33 2 ≡ some rows)
    × (length rows * hex_row_size ≤ 33 - 0 + 15)
hex_rows_loop_total_example = hex_rows_loop_total 40 (1 ∷ 2 ∷ 3 ∷ []) 0 33 2 (omega arith)
