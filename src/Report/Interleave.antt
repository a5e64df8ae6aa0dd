-- ===== src/Report/Interleave.antt =====
-- Concurrent goroutines add their results under the mutex of internal/report/report.go in any
-- interleaving: when their keys differ, the table does not show which.
use serify.Base.{
  false, Option, List, flatten, [], ◌∷◌, ◌++◌, ◌≡◌, refl, ◌∙◌, sym, ap, arith, ◌⊎◌, inl, inr,
  Bool-cases, Str, str_eq, str_eq_iff, All,
}
use serify.Report.{Result, Report, add_all, cell}
use serify.Report.Cells.{at_key, last_at, cell-add_all}

-- One list is a merge of two others.
pub data Shuffle {ℓ} {A : Type ℓ} : List A → List A → List A → Type ℓ where
  done : Shuffle [] [] []
  left : {x : A} {xs ys zs : List A} → Shuffle xs ys zs → Shuffle (x ∷ xs) ys (x ∷ zs)
  right : {y : A} {xs ys zs : List A} → Shuffle xs ys zs → Shuffle xs (y ∷ ys) (y ∷ zs)

-- One list is a merge of several others.
pub data Interleaving {ℓ} {A : Type ℓ} : List (List A) → List A → Type ℓ where
  none_left : Interleaving [] []
  merge :
      {xs ys zs : List A} {tasks : List (List A)}
      → Interleaving tasks ys
      → Shuffle xs ys zs
      → Interleaving (xs ∷ tasks) zs

-- no result of the list goes to the cell
abbrev pub Misses : Str → Str → Str → List Result → Type 0
Misses t l o = All (λ res. at_key res t l o ≡ false)

-- at every cell, one of the two lists has nothing to say
abbrev pub Apart : List Result → List Result → Type 0
Apart xs ys = (t l o : Str) → Misses t l o xs ⊎ Misses t l o ys

abbrev pub AllApart : List (List Result) → Type 0
AllApart [] = Unit
AllApart (xs ∷ tasks) = Apart xs (flatten tasks) × AllApart tasks

pub last_at-append :
    (t l o : Str) (xs ys : List Result) (b : Option Result)
    → last_at t l o (xs ++ ys) b ≡ last_at t l o ys (last_at t l o xs b)
unfolding last_at
last_at-append t l o [] ys b = refl
last_at-append t l o (x ∷ xs) ys b = last_at-append t l o xs ys _

pub last_at-Misses :
    (t l o : Str) (xs : List Result) (b : Option Result) → Misses t l o xs → last_at t l o xs b ≡ b
unfolding last_at
last_at-Misses t l o [] b h = refl
last_at-Misses t l o (x ∷ xs) b h = rw h.0 (last_at-Misses t l o xs b h.1)

last_at-Shuffle_left :
    (t l o : Str) {xs ys zs : List Result} (b : Option Result)
    → Shuffle xs ys zs
    → Misses t l o xs
    → last_at t l o zs b ≡ last_at t l o ys b
unfolding last_at
last_at-Shuffle_left t l o b done h = refl
last_at-Shuffle_left t l o b (left s) h = rw h.0 (last_at-Shuffle_left t l o b s h.1)
last_at-Shuffle_left t l o b (right s) h = last_at-Shuffle_left t l o _ s h

last_at-Shuffle_right :
    (t l o : Str) {xs ys zs : List Result} (b : Option Result)
    → Shuffle xs ys zs
    → Misses t l o ys
    → last_at t l o zs b ≡ last_at t l o xs b
unfolding last_at
last_at-Shuffle_right t l o b done h = refl
last_at-Shuffle_right t l o b (right s) h = rw h.0 (last_at-Shuffle_right t l o b s h.1)
last_at-Shuffle_right t l o b (left s) h = last_at-Shuffle_right t l o _ s h

Misses-append :
    (t l o : Str) (xs ys : List Result)
    → Misses t l o (xs ++ ys)
    → Misses t l o xs × Misses t l o ys
Misses-append t l o [] ys h = (tt, h)
Misses-append t l o (x ∷ xs) ys h = let (a, b) = Misses-append t l o xs ys h.1 in ((h.0, a), b)

Misses-Shuffle :
    (t l o : Str) {xs ys zs : List Result}
    → Shuffle xs ys zs
    → Misses t l o xs
    → Misses t l o ys
    → Misses t l o zs
Misses-Shuffle t l o done h k = tt
Misses-Shuffle t l o (left s) h k = (h.0, Misses-Shuffle t l o s h.1 k)
Misses-Shuffle t l o (right s) h k = (k.0, Misses-Shuffle t l o s h k.1)

Misses-Interleaving :
    (t l o : Str) {tasks : List (List Result)} {zs : List Result}
    → Interleaving tasks zs
    → Misses t l o (flatten tasks)
    → Misses t l o zs
Misses-Interleaving t l o none_left h = tt
Misses-Interleaving t l o (merge {xs} {tasks = tasks} i s) h =
    let (a, b) = Misses-append t l o xs (flatten tasks) h in
    Misses-Shuffle t l o s a (Misses-Interleaving t l o i b)

last_at-Interleaving :
    (t l o : Str) (b : Option Result) {tasks : List (List Result)} {zs : List Result}
    → Interleaving tasks zs
    → AllApart tasks
    → last_at t l o zs b ≡ last_at t l o (flatten tasks) b
last_at-Interleaving t l o b none_left h = refl
last_at-Interleaving t l o b (merge {xs} {ys} {zs} {tasks = tasks} i s) h =
    let e = last_at-append t l o xs (flatten tasks) b in
    elim (h.0 t l o) [
      | inl first ↦
          last_at-Shuffle_left t l o b s first
          ∙ last_at-Interleaving t l o b i h.1
          ∙ sym (e ∙ ap (last_at t l o (flatten tasks)) (last_at-Misses t l o xs b first))
      | inr rest ↦
          last_at-Shuffle_right t l o b s (Misses-Interleaving t l o i rest)
          ∙ sym (e ∙ last_at-Misses t l o (flatten tasks) (last_at t l o xs b) rest)
    ]

-- Whatever the interleaving of the `Add` calls of goroutines whose results go to different cells,
-- the table ends up as if the goroutines had run one after the other.
pub cell_of_Interleaving :
    (r : Report) (tasks : List (List Result)) (zs : List Result) (t l o : Str)
    → Interleaving tasks zs
    → AllApart tasks
    → cell (add_all r zs).results t l o ≡ cell (add_all r (flatten tasks)).results t l o
cell_of_Interleaving r tasks zs t l o i h =
    cell-add_all zs r t l o
    ∙ last_at-Interleaving t l o (cell r.results t l o) i h
    ∙ sym (cell-add_all (flatten tasks) r t l o)

-- Results of different languages never share a cell.
abbrev pub OfLanguage : Str → List Result → Type 0
OfLanguage lang = All (λ res. res.language ≡ lang)

pub Misses-OfLanguage :
    (t l o lang : Str) (xs : List Result)
    → OfLanguage lang xs
    → str_eq lang l ≡ false
    → Misses t l o xs
Misses-OfLanguage t l o lang [] h n = tt
Misses-OfLanguage t l o lang (x ∷ xs) h n =
    (ground (arith, ap (λ k. str_eq k l) h.0), Misses-OfLanguage t l o lang xs h.1 n)

pub Apart-OfLanguage :
    (a b : Str) (xs ys : List Result)
    → str_eq a b ≡ false
    → OfLanguage a xs
    → OfLanguage b ys
    → Apart xs ys
Apart-OfLanguage a b xs ys n h k t l o = elim (Bool-cases (str_eq a l)) [
  | inr other ↦ inl (Misses-OfLanguage t l o a xs h other)
  | inl same ↦ inr (
      Misses-OfLanguage t l o b ys k
        (ground (arith, str_eq_iff a l, str_eq_iff b l, str_eq_iff a b)))
]
