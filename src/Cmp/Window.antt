-- ===== src/Cmp/Window.antt =====
-- The divergence that internal/cmp/cmp.go reports, and the window of bytes shown around it.
use mathlib.Core.Path.{subst}
use serify.Base.{
  ℕ, zero, suc, ◌+◌, ◌-◌, ◌*◌, ◌<◌, ◌≤◌, min, max, not, Option, none, some, List, [], ◌∷◌, ◌≡◌, ◌≢◌,
  refl, ap, inl, inr, arith, if◌then◌else◌, Bool-cases, ◌==◌, ltb, leb, length, get_elem?, take,
  Str,
}
use serify.Cmp.{
  divergence_from, first_divergence, context_bounds, hex_rows_loop, hex_row, blank_row,
  hex_row_size,
}

-- `n` is the first place where the two buffers differ, or where one of them ends.
pub record Diverges (a b : Str) (n : ℕ) : Type 0 where
  pub before : take n a ≡ take n b
  pub at : get_elem? a n ≢ get_elem? b n
  pub within : n < max (length a) (length b)

Diverges-cons : (x : ℕ) (a b : Str) (n : ℕ) → Diverges a b n → Diverges (x ∷ a) (x ∷ b) (suc n)
Diverges-cons x a b n d = record {
  before = ap (◌∷◌ x) d.before;
  at = d.at;
  within = omega (arith, d.within);
}

Diverges-divergence_from :
    (a b : Str) (i j : ℕ) → divergence_from i a b ≡ some j → (n : ℕ) × (j ≡ i + n) × Diverges a b n
unfolding divergence_from
Diverges-divergence_from [] b i j h = cc
Diverges-divergence_from (x ∷ a) [] i j h = cc
Diverges-divergence_from (x ∷ a) (y ∷ b) i j h = elim (Bool-cases (x == y)) [
  | inl same ↦
      let (n, e, d) = Diverges-divergence_from a b (suc i) j (ground arith) in
      let xy : x ≡ y = ground arith in
      (
        suc n,
        omega arith,
        subst (λ z. Diverges (x ∷ a) (z ∷ b) (suc n)) xy (Diverges-cons x a b n d),
      )
  | inr other ↦
      (0, ground arith, record { before = refl; at = λ e. ground arith; within = omega arith })
]

-- with no divergence in the common length, the shorter buffer is a prefix
Diverges-shorter :
    (a b : Str) (i : ℕ)
    → divergence_from i a b ≡ none
    → length a ≢ length b
    → (n : ℕ) × (n ≡ min (length a) (length b)) × Diverges a b n
unfolding divergence_from
Diverges-shorter [] [] i h n = absurd (n refl)
Diverges-shorter [] (y ∷ b) i h n =
    (0, omega arith, record { before = refl; at = λ e. none-ne-some e; within = omega arith })
  where
    none-ne-some : none ≡ some y → ⊥
    none-ne-some e = cc
Diverges-shorter (x ∷ a) [] i h n =
    (0, omega arith, record { before = refl; at = λ e. some-ne-none e; within = omega arith })
  where
    some-ne-none : some x ≡ none → ⊥
    some-ne-none e = cc
Diverges-shorter (x ∷ a) (y ∷ b) i h n = elim (Bool-cases (x == y)) [
  | inl same ↦
      let xy : x ≡ y = ground arith in
      let (m, e, d) = Diverges-shorter a b (suc i) (ground arith) (λ e. n (ap suc e)) in
      (
        suc m,
        omega arith,
        subst (λ z. Diverges (x ∷ a) (z ∷ b) (suc m)) xy (Diverges-cons x a b m d),
      )
  | inr other ↦ absurd (ground arith)
]

-- what `contextBounds` must give: a window of at most 33 bytes around the divergence
pub record IsWindow (div total : ℕ) (bounds : ℕ × ℕ) : Type 0 where
  pub from_left : bounds.0 ≤ div
  pub to_right : div < bounds.1
  pub inside : bounds.1 ≤ total
  pub small : bounds.1 - bounds.0 ≤ 33

-- The divergence that is reported is the first place where the buffers differ or one ends, and the
-- context window around it contains it, lies within the longer buffer and has at most 33 bytes.
pub first_divergence-Diverges :
    (a b : Str) (div : ℕ)
    → first_divergence a b ≡ some div
    → Diverges a b div
      × IsWindow div (max (length a) (length b)) (context_bounds div (length a) (length b))
unfolding first_divergence context_bounds
first_divergence-Diverges a b div h = let d = go (divergence_from 0 a b) refl h in (d, window d)
  where
    go :
        (o : Option ℕ)
        → divergence_from 0 a b ≡ o
        → elim o [
          | some i ↦ some i
          | none ↦ if not (length a == length b) then some (min (length a) (length b)) else none
        ]
          ≡ some div
        → Diverges a b div
    go (some i) e k =
        let (n, p, d) = Diverges-divergence_from a b 0 i e in subst (Diverges a b) (ground arith) d
    go none e k = elim (Bool-cases (length a == length b)) [
      | inl same ↦ ground arith
      | inr other ↦
          let (n, p, d) = Diverges-shorter a b 0 e (ground arith) in
          subst (Diverges a b) (ground arith) d
    ]

    window :
        Diverges a b div
        → IsWindow div
            (max (length a) (length b))
            (div - 16, min (div + 1 + 16) (max (length a) (length b)))
    window d = record {
      from_left = omega arith;
      to_right = omega (arith, d.within);
      inside = omega arith;
      small = omega arith;
    }

-- With fuel above the offsets left, the loop of `hexRows` ends, after at most one row for each 16
-- offsets begun.
pub hex_rows_loop_total :
    (fuel : ℕ) (buf : Str) (row_start end div : ℕ)
    → end - row_start < fuel
    → (rows : List Str) × (hex_rows_loop fuel buf row_start end div ≡ some rows)
      × (length rows * hex_row_size ≤ end - row_start + 15)
unfolding hex_rows_loop
hex_rows_loop_total zero buf row_start end div h = absurd (omega arith)
hex_rows_loop_total (suc fuel) buf row_start end div h = elim (Bool-cases (ltb row_start end)) [
  | inr over ↦ ([], rw over, omega arith)
  | inl on ↦ elim (Bool-cases (leb (length buf) row_start)) [
    | inl past ↦ (
      blank_row row_start (min (row_start + hex_row_size) end - row_start) ∷ [],
      rw (on, past),
      ground arith,
    )
    | inr within ↦
        let (rows, e, l) =
          hex_rows_loop_total fuel buf (row_start + hex_row_size) end div (ground arith) in
        (
          hex_row buf row_start
                (min (row_start + (min (row_start + hex_row_size) end - row_start)) (length buf))
                div
              ∷ rows,
          rw (on, within, e),
          ground arith,
        )
  ]
]
