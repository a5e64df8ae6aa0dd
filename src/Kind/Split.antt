-- ===== src/Kind/Split.antt =====
-- `SplitTopLevel` of internal/kind/kind.go loses nothing and cuts at the commas of depth 0.
use mathlib.Core.Path.{subst}
use serify.Base.{
  zero, suc, negsuc, ◌≢◌, ◌||◌, ◌==◌, false, if◌then◌else◌, ℕ, true, List, [], ◌∷◌, ◌≡◌, refl, sym,
  ap, ◌∙◌, arith, inl, inr, Bool-cases, Str, join, ℤ, pos,
}
use serify.Kind.{up, down, next_depth, splits_here, split_from, split_top_level}

join-cons :
    (c : ℕ) (head : Str) (rest : List Str)
    → join (b',' ∷ []) ((c ∷ head) ∷ rest) ≡ c ∷ join (b',' ∷ []) (head ∷ rest)
unfolding join
join-cons c head [] = refl
join-cons c head (p ∷ rest) = refl

join-new :
    (head : Str) (rest : List Str)
    → join (b',' ∷ []) ([] ∷ head ∷ rest) ≡ b',' ∷ join (b',' ∷ []) (head ∷ rest)
unfolding join
join-new head rest = refl

join-one : (part : Str) → join (b',' ∷ []) (part ∷ []) ≡ part
unfolding join
join-one part = refl

splits_at_comma : (depth : ℤ) (c : ℕ) → splits_here depth c ≡ true → c ≡ b','
unfolding splits_here
splits_at_comma depth c h = ground (arith, h)

join-split_from :
    (depth : ℤ) (s : Str) → join (b',' ∷ []) ((split_from depth s).0 ∷ (split_from depth s).1) ≡ s
unfolding split_from
join-split_from depth [] = join-one []
join-split_from depth (c ∷ s) =
    let later = join-split_from (next_depth depth c) s in
    elim (Bool-cases (splits_here depth c)) [
      | inl new ↦ rw new (
          join-new _ _
          ∙ ap (λ t. b',' ∷ t) later
          ∙ ap (λ x. x ∷ s) (sym (splits_at_comma depth c new)))
      | inr same ↦ rw same (join-cons c _ _ ∙ ap (λ t. c ∷ t) later)
    ]

-- The depth after a text: `<` and `[` open, `>` and `]` close.
abbrev after : ℤ → ℕ → ℤ
after d c = if c == b'<' || c == b'[' then up d else if c == b'>' || c == b']' then down d else d

abbrev pub level : ℤ → Str → ℤ
level d [] = d
level d (c ∷ s) = level (after d c) s

-- no comma of the text, which begins at the depth, is at depth 0
abbrev pub NoComma : ℤ → Str → Type 0
NoComma d [] = Unit {0}
NoComma d (c ∷ s) = (c ≡ b',' → d ≢ pos 0) × NoComma (after d c) s

-- The first part begins at the depth, the others at depth 0; each but the last ends at depth 0.
abbrev pub Parts : ℤ → List Str → Type 0
Parts d [] = ⊥
Parts d (p ∷ []) = NoComma d p
Parts d (p ∷ q ∷ ps) = NoComma d p × (level d p ≡ pos 0) × Parts (pos 0) (q ∷ ps)

top_here : (d : ℤ) (c : ℕ) → splits_here d c ≡ true → d ≡ pos 0
unfolding splits_here
top_here (pos zero) c h = refl
top_here (pos (suc n)) c h = ground (arith, h)
top_here (negsuc n) c h = ground (arith, h)

not_here : (d : ℤ) (c : ℕ) → splits_here d c ≡ false → c ≡ b',' → d ≢ pos 0
unfolding splits_here
not_here d c h e z = cc (rw (e, z, splits_here) at h)

next_top : (d : ℤ) (c : ℕ) → splits_here d c ≡ true → next_depth d c ≡ pos 0
unfolding next_depth
next_top d c h = ap (λ x. next_depth d x) (splits_at_comma d c h) ∙ top_here d c h

Parts-grow :
    (d : ℤ) (c : ℕ) (head : Str) (rest : List Str)
    → (c ≡ b',' → d ≢ pos 0)
    → Parts (after d c) (head ∷ rest)
    → Parts d ((c ∷ head) ∷ rest)
Parts-grow d c head [] n h = (n, h)
Parts-grow d c head (q ∷ ps) n h = ((n, h.0), h.1, h.2)

Parts-split_from : (d : ℤ) (s : Str) → Parts d ((split_from d s).0 ∷ (split_from d s).1)
unfolding split_from next_depth
Parts-split_from d [] = tt
Parts-split_from d (c ∷ s) =
    let later = Parts-split_from (next_depth d c) s in
    elim (Bool-cases (splits_here d c)) [
      | inl new ↦ rw new (
        tt,
        top_here d c new,
        subst (λ z. Parts z ((split_from (next_depth d c) s).0 ∷ (split_from (next_depth d c) s).1))
            (next_top d c new) later,
      )
      | inr same ↦ rw same (Parts-grow d c _ _ (not_here d c same) later)
    ]

-- The parts of a type's arguments, joined by commas, are the text again; no comma in a part is outside
-- all brackets, and each part but the last ends outside all brackets: the text is cut at exactly the
-- commas of depth 0.
pub join-split_top_level :
    (s : Str) → (join (b',' ∷ []) (split_top_level s) ≡ s) × Parts (pos 0) (split_top_level s)
unfolding split_top_level
join-split_top_level s = (join-split_from (pos 0) s, Parts-split_from (pos 0) s)
