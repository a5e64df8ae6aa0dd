-- ===== src/Base/Sort.antt =====
-- `slices.Sort` and `sort.Strings` on strings, in Go's order: byte by byte, a prefix first.
use mathlib.Core.Path.{◌≡◌, refl, ap, ◌∙◌}
use mathlib.Core.Logic.{inl, inr}
use mathlib.Core.Bool.{Bool, true, false, ◌&&◌, ◌||◌}
use mathlib.Core.List.{List, [], ◌∷◌}
use native.Mathlib.Omega.{arith}
use serify.Base.Tests.{ltb, ◌==◌, if◌then◌else◌, Bool-cases}
use serify.Base.Lists.{any}
use serify.Base.Text.{Str}

unfoldable pub str_le : Str → Str → Bool
str_le [] ys = true
str_le (x ∷ xs) [] = false
str_le (x ∷ xs) (y ∷ ys) = ltb x y || (x == y && str_le xs ys)

unfoldable pub insert_sorted : Str → List Str → List Str
unfolding str_le
insert_sorted s [] = s ∷ []
insert_sorted s (t ∷ rest) = if str_le s t then s ∷ t ∷ rest else t ∷ insert_sorted s rest

unfoldable pub sort : List Str → List Str
unfolding insert_sorted
sort [] = []
sort (s ∷ rest) = insert_sorted s (sort rest)

str_le_total : (a b : Str) → str_le a b ≡ false → str_le b a ≡ true
unfolding str_le
str_le_total [] b h = cc
str_le_total (x ∷ a) [] h = refl
str_le_total (x ∷ a) (y ∷ b) h = ground (arith, str_le_total a b)

-- each string is at most the next
abbrev pub IsSorted : List Str → Type 0
IsSorted [] = Unit {0}
IsSorted (s ∷ []) = Unit {0}
IsSorted (s ∷ t ∷ rest) = (str_le s t ≡ true) × IsSorted (t ∷ rest)

insert_sorted-after :
    (s t : Str) (l : List Str)
    → str_le t s ≡ true
    → IsSorted (t ∷ l)
    → IsSorted (t ∷ insert_sorted s l)
unfolding insert_sorted
insert_sorted-after s t [] e h = (e, tt)
insert_sorted-after s t (u ∷ rest) e h = elim (Bool-cases (str_le s u)) [
  | inl le ↦ rw le (e, (le, h.1))
  | inr gt ↦ rw gt (h.0, insert_sorted-after s u rest (str_le_total s u gt) h.1)
]

insert_sorted-IsSorted : (s : Str) (l : List Str) → IsSorted l → IsSorted (insert_sorted s l)
unfolding insert_sorted
insert_sorted-IsSorted s [] h = tt
insert_sorted-IsSorted s (t ∷ rest) h = elim (Bool-cases (str_le s t)) [
  | inl le ↦ rw le (le, h)
  | inr gt ↦ rw gt (insert_sorted-after s t rest (str_le_total s t gt) h)
]

pub sort-IsSorted : (l : List Str) → IsSorted (sort l)
unfolding sort
sort-IsSorted [] = tt
sort-IsSorted (s ∷ rest) = insert_sorted-IsSorted s (sort rest) (sort-IsSorted rest)

-- membership by the equality test, which sorting keeps
pub any-insert_sorted :
    (p : Str → Bool) (s : Str) (l : List Str) → any p (insert_sorted s l) ≡ (p s || any p l)
unfolding insert_sorted
any-insert_sorted p s [] = refl
any-insert_sorted p s (t ∷ rest) = elim (Bool-cases (str_le s t)) [
  | inl le ↦ rw le
  | inr gt ↦ rw gt (ground (arith, any-insert_sorted p s rest))
]

pub any-sort : (p : Str → Bool) (l : List Str) → any p (sort l) ≡ any p l
unfolding sort
any-sort p [] = refl
any-sort p (s ∷ rest) = any-insert_sorted p s (sort rest) ∙ ap (λ b. p s || b) (any-sort p rest)
