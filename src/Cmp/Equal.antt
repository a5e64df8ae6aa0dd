-- ===== src/Cmp/Equal.antt =====
-- When the comparisons of internal/cmp/cmp.go find nothing.
use serify.Base.{
  is_some, ℕ, suc, Bool, true, false, ◌&&◌, ◌||◌, Option, none, some, List, [], ◌∷◌, ◌++◌, ◌≡◌, ◌≢◌,
  ◌↔◌, refl, sym, ap, ◌∙◌, inl, inr, arith, if◌then◌else◌, Bool-cases, ◌==◌, length, All,
  All-append, Str, lit, str_eq, str_eq_iff, is_empty, Assoc, lookup, keys, join,
}
use serify.Base.Hex.{Decoded, ok, err, decode_hex}
use serify.Conf.{Value}
use serify.Cmp.{
  divergence_from, first_divergence, offset_report, hex_offset_diff, diff_decoded, hex_diff, GoCmp,
  field_value, flag, is_nan_hex, field_diffs, extra_diffs, field_order, data_diff,
}

divergence_from_self : (a : Str) (i : ℕ) → divergence_from i a a ≡ none
unfolding divergence_from
divergence_from_self [] i = refl
divergence_from_self (x ∷ a) i = ground (arith, divergence_from_self a (suc i))

divergence_from-none :
    (a b : Str) (i : ℕ) → divergence_from i a b ≡ none → length a ≡ length b → a ≡ b
unfolding divergence_from
divergence_from-none [] [] i h l = refl
divergence_from-none [] (y ∷ b) i h l = absurd (omega arith)
divergence_from-none (x ∷ a) [] i h l = absurd (omega arith)
divergence_from-none (x ∷ a) (y ∷ b) i h l = elim (Bool-cases (x == y)) [
  | inl same ↦ ground (arith, divergence_from-none a b (suc i))
  | inr other ↦ ground arith
]

-- There is no divergence exactly between equal buffers.
pub first_divergence-none_iff : (a b : Str) → (first_divergence a b ≡ none) ↔ (a ≡ b)
unfolding first_divergence
first_divergence-none_iff a b = (
  λ h. ground (arith, divergence_from-none a b 0),
  λ e. rw e (rw (divergence_from_self b 0, first_divergence) (ground arith)),
)

offset_report-ne_nil : (a b : Str) (div : ℕ) → offset_report a b (some div) ≢ []
unfolding offset_report lit
offset_report-ne_nil a b div h = cc

hex_offset_diff-nil : (a b : Str) → hex_offset_diff a b ≡ [] → a ≡ b
unfolding hex_offset_diff
hex_offset_diff-nil a b h = (first_divergence-none_iff a b).0 (go (first_divergence a b) h)
  where
    go : (d : Option ℕ) → offset_report a b d ≡ [] → d ≡ none
    go none e = refl
    go (some div) e = absurd (offset_report-ne_nil a b div e)

-- both strings are hex, of the same bytes
abbrev pub SameBytes : Str → Str → Type 0
SameBytes expected got =
    (bytes : Str) × (decode_hex expected ≡ ok bytes) × (decode_hex got ≡ ok bytes)

diff_decoded-SameBytes :
    (expected got : Str) (d e : Decoded)
    → decode_hex expected ≡ d
    → decode_hex got ≡ e
    → diff_decoded expected got d e ≡ []
    → SameBytes expected got
unfolding diff_decoded lit
diff_decoded-SameBytes expected got (err x) e p q h = cc
diff_decoded-SameBytes expected got (ok a) (err y) p q h = cc
diff_decoded-SameBytes expected got (ok a) (ok b) p q h = elim (Bool-cases (str_eq expected got)) [
  | inl same ↦ (a, p, ap decode_hex (sym ((str_eq_iff expected got).0 same)) ∙ p)
  | inr other ↦ (a, p, q ∙ ap ok (sym (hex_offset_diff-nil a b (rw other at h))))
]

SameBytes-diff_decoded :
    (expected got bytes : Str) → diff_decoded expected got (ok bytes) (ok bytes) ≡ []
unfolding diff_decoded hex_offset_diff offset_report
SameBytes-diff_decoded expected got bytes =
    rw ((first_divergence-none_iff bytes bytes).1 refl) (ground arith)

-- `HexDiff` reports nothing exactly when both strings decode as hex, to the same bytes: the case of
-- a digit does not matter, and two equal strings that are not hex do differ.
pub hex_diff-nil_iff : (expected got : Str) → (hex_diff expected got ≡ []) ↔ SameBytes expected got
unfolding hex_diff
hex_diff-nil_iff expected got = (
  diff_decoded-SameBytes expected got _ _ refl refl,
  λ (bytes, p, q). rw (p, q) (SameBytes-diff_decoded expected got bytes),
)

join-nil : (sep : Str) (l : List Str) → All (λ s. s ≢ []) l → join sep l ≡ [] → l ≡ []
unfolding join
join-nil sep [] h e = refl
join-nil sep (s ∷ []) h e = absurd (h.0 e)
join-nil sep ([] ∷ t ∷ rest) h e = absurd (h.0 refl)
join-nil sep ((c ∷ s) ∷ t ∷ rest) h e = cc

All-if :
    (b : Bool) (xs ys : List Str)
    → All (λ s. s ≢ []) xs
    → All (λ s. s ≢ []) ys
    → All (λ s. s ≢ []) (if b then xs else ys)
All-if true xs ys h k = h
All-if false xs ys h k = k

-- one entry of the list of differences
guarded_iff :
    (nan : Bool) (eq : Bool) (d line : Str) (rest : List Str) {A : Type 0}
    → (d ≡ []) ↔ (eq ≡ true)
    → (rest ≡ []) ↔ A
    → ((if nan then rest else if is_empty d then rest else line ∷ rest) ≡ [])
      ↔ ((nan || eq ≡ true) × A)
guarded_iff true eq d line rest e h = (λ r. (refl, h.0 r), λ r. h.1 r.1)
guarded_iff false eq [] line rest e h = (λ r. (e.0 refl, h.0 r), λ r. h.1 r.1)
guarded_iff false eq (c ∷ d) line rest e h = (λ r. cc, λ r. absurd (cons-ne-nil (e.1 r.0)))
  where
    cons-ne-nil : c ∷ d ≡ [] → ⊥
    cons-ne-nil x = cc

listed_iff :
    (b : Bool) (line : Str) (rest : List Str) {A : Type 0}
    → (rest ≡ []) ↔ A
    → ((if b then rest else line ∷ rest) ≡ []) ↔ ((b ≡ true) × A)
listed_iff true line rest h = (λ r. (refl, h.0 r), λ r. h.1 r.1)
listed_iff false line rest h = (λ r. cc, λ r. cc (r.0))

append-nil_iff : (xs ys : List Str) → (xs ++ ys ≡ []) ↔ ((xs ≡ []) × (ys ≡ []))
append-nil_iff [] ys = (λ h. (refl, h), λ h. h.1)
append-nil_iff (x ∷ xs) ys = (λ h. cc, λ h. cc (h.0))

module _ (go_cmp : GoCmp) where
  open go_cmp use {equal, diff, diff_empty}

  -- what a field must satisfy: equal values, or two NaNs in a float field
  unfoldable pub agrees : Assoc Value → Assoc Value → Assoc Bool → Str → Bool
  agrees expected got floats k =
      flag k floats && (is_nan_hex (field_value k expected) && is_nan_hex (field_value k got))
      || equal (field_value k expected) (field_value k got)

  Nonempty-field_diffs :
      (e g : Assoc Value) (f : Assoc Bool) (ks : List Str)
      → All (λ s. s ≢ []) (field_diffs go_cmp e g f ks)
  unfolding field_diffs lit
  Nonempty-field_diffs e g f [] = tt
  Nonempty-field_diffs e g f (k ∷ ks) =
      let rest = Nonempty-field_diffs e g f ks in
      All-if (flag k f && (is_nan_hex (field_value k e) && is_nan_hex (field_value k g))) _ _ rest
        (All-if (is_empty (diff (field_value k e) (field_value k g))) _ _ rest ((λ h. cc), rest))

  Nonempty-extra_diffs :
      (e : Assoc Value) (ks : List Str) → All (λ s. s ≢ []) (extra_diffs go_cmp e ks)
  unfolding extra_diffs lit
  Nonempty-extra_diffs e [] = tt
  Nonempty-extra_diffs e (k ∷ ks) =
      let rest = Nonempty-extra_diffs e ks in
      All-if (is_some (lookup k e)) _ _ rest ((λ h. cc), rest)

  field_diffs-nil_iff :
      (e g : Assoc Value) (f : Assoc Bool) (ks : List Str)
      → (field_diffs go_cmp e g f ks ≡ []) ↔ All (λ k. agrees e g f k ≡ true) ks
  unfolding field_diffs agrees
  field_diffs-nil_iff e g f [] = (λ _. tt, λ _. refl)
  field_diffs-nil_iff e g f (k ∷ ks) =
      guarded_iff (flag k f && (is_nan_hex (field_value k e) && is_nan_hex (field_value k g)))
        (equal (field_value k e) (field_value k g)) (diff (field_value k e) (field_value k g)) _ _
        (diff_empty _ _) (field_diffs-nil_iff e g f ks)

  extra_diffs-nil_iff :
      (e : Assoc Value) (ks : List Str)
      → (extra_diffs go_cmp e ks ≡ []) ↔ All (λ k. is_some (lookup k e) ≡ true) ks
  unfolding extra_diffs
  extra_diffs-nil_iff e [] = (λ _. tt, λ _. refl)
  extra_diffs-nil_iff e (k ∷ ks) = listed_iff (is_some (lookup k e)) _ _ (extra_diffs-nil_iff e ks)

  -- `DataDiff` reports nothing exactly when every field of the order (of the expected keys, where
  -- the order is empty) agrees, and the decoded data has no key that was not expected.
  pub data_diff-nil_iff :
      (e g : Assoc Value) (order : List Str) (f : Assoc Bool)
      → (data_diff go_cmp e g order f ≡ []) ↔ (
          All (λ k. agrees e g f k ≡ true) (field_order go_cmp e order)
          × All (λ k. is_some (lookup k e) ≡ true) (keys g))
  unfolding data_diff
  data_diff-nil_iff e g order f =
      let fields = field_diffs-nil_iff e g f (field_order go_cmp e order) in
      let extras = extra_diffs-nil_iff e (keys g) in
      let both =
        append-nil_iff (field_diffs go_cmp e g f (field_order go_cmp e order))
          (extra_diffs go_cmp e (keys g)) in
      let full =
        All-append (λ (s : Str). s ≢ []) (field_diffs go_cmp e g f (field_order go_cmp e order))
          (extra_diffs go_cmp e (keys g)) (Nonempty-field_diffs e g f (field_order go_cmp e order))
          (Nonempty-extra_diffs e (keys g)) in
      (
        λ h. let (a, b) = both.0 (join-nil (lit "\n") _ full h) in (fields.0 a, extras.0 b),
        λ (a, b). rw (both.1 (fields.1 a, extras.1 b)) (unfold join in refl),
      )
