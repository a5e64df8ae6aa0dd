-- ===== src/Schema/Text.antt =====
-- The text of a type, as `typeOf` takes it apart: trimming, the expression for parameterized types,
-- the split at the commas that are not nested.
use serify.Base.{
  ℕ, suc, pos, Bool, true, false, not, ◌&&◌, some, [], ◌∷◌, ◌++◌, ◌≡◌, refl, sym, ap, ◌∙◌, arith,
  ◌==◌, is_empty, Str, append_assoc, append-nil,
}
use serify.Kind.{split_from, splits_here, next_depth}
use serify.Wire.{is_space, trim_space, trim_left, trim_right}
use serify.Wire.Text.{drop_last-append}
use serify.Wire.Sizes.{is_plain, all_plain, true_parts}
use serify.Schema.{is_word, one_line, ends_closed, close_param, match_param, word_cut}

-- At a depth, the split takes the text as a part of what follows.
abbrev pub StaysAt : ℕ → Str → Type 0
StaysAt d s =
    (rest : Str)
    → split_from (pos d) (s ++ rest)
      ≡ (s ++ (split_from (pos d) rest).0, (split_from (pos d) rest).1)

-- At every depth; inside brackets.
abbrev pub Stays : Str → Type 0
Stays s = (d : ℕ) → StaysAt d s

abbrev pub Inner : Str → Type 0
Inner s = (d : ℕ) → StaysAt (suc d) s

plain_step :
    (d c : ℕ) → is_plain c ≡ true → (splits_here (pos d) c ≡ false) × (next_depth (pos d) c ≡ pos d)
unfolding splits_here next_depth
plain_step d c h = (ground arith, ground arith)

pub Stays-plain : (s : Str) → all_plain s ≡ true → Stays s
unfolding split_from
Stays-plain [] h d rest = refl
Stays-plain (c ∷ s) h d rest =
    let (plain, later) = true_parts (is_plain c) (all_plain s) h in
    let (here, deep) = plain_step d c plain in rw (here, deep, Stays-plain s later d rest)

comma_step :
    (d : ℕ)
    → (splits_here (pos (suc d)) b',' ≡ false) × (next_depth (pos (suc d)) b',' ≡ pos (suc d))
unfolding splits_here next_depth
comma_step d = (refl, refl)

-- Two texts with a comma between them, inside brackets.
pub Inner-comma : (s t : Str) → Inner s → Inner t → Inner (s ++ b',' ∷ t)
unfolding split_from splits_here next_depth
Inner-comma s t hs ht d rest = rw (append_assoc s (b',' ∷ t) rest) (
    rw (hs d (b',' ∷ (t ++ rest)))
      (rw (ht d rest) (rw (append_assoc s (b',' ∷ t) (split_from (pos (suc d)) rest).0) refl)))

-- A word: a letter, a digit or an underscore at each place, and at least one.
abbrev pub all_word : Str → Bool
all_word [] = true
all_word (c ∷ s) = is_word c && all_word s

pub record IsWord (w : Str) : Type 0 where
  pub letters : all_word w ≡ true
  pub full : is_empty w ≡ false

word_char :
    (c : ℕ)
    → is_word c ≡ true
    → (is_plain c ≡ true) × (is_space c ≡ false) × (c == b'\n' ≡ false) × (c == b'<' ≡ false)
word_char c h = (ground arith, ground arith, ground arith, ground arith)

pub all_plain-word : (w : Str) → all_word w ≡ true → all_plain w ≡ true
all_plain-word [] h = refl
all_plain-word (c ∷ w) h =
    let (a, b) = true_parts (is_word c) (all_word w) h in rw ((word_char c a).0, all_plain-word w b)

pub one_line-word : (w : Str) → all_word w ≡ true → one_line w ≡ true
one_line-word [] h = refl
one_line-word (c ∷ w) h =
    let (a, b) = true_parts (is_word c) (all_word w) h in rw ((word_char c a).2, one_line-word w b)

pub one_line-append : (s t : Str) → one_line s ≡ true → one_line t ≡ true → one_line (s ++ t) ≡ true
one_line-append [] t h k = k
one_line-append (c ∷ s) t h k =
    let (a, b) = true_parts (not (c == b'\n')) (one_line s) h in rw (a, one_line-append s t b k)

-- `form<args>`
abbrev pub bracket : Str → Str → Str
bracket w x = w ++ b'<' ∷ (x ++ b'>' ∷ [])

pub Stays-bracket : (w x : Str) → all_word w ≡ true → Inner x → Stays (bracket w x)
unfolding split_from splits_here next_depth
Stays-bracket w x h k d rest = rw (append_assoc w (b'<' ∷ (x ++ b'>' ∷ [])) rest) (
    rw (Stays-plain w (all_plain-word w h) d (b'<' ∷ ((x ++ b'>' ∷ []) ++ rest))) (
      rw (append_assoc x (b'>' ∷ []) rest) (
        rw (k d (b'>' ∷ rest)) (
          rw
            (
              append_assoc w (b'<' ∷ (x ++ b'>' ∷ [])) (split_from (pos d) rest).0,
              append_assoc x (b'>' ∷ []) (split_from (pos d) rest).0,
            )
            refl))))

full_append : (s : Str) → is_empty (s ++ b'>' ∷ []) ≡ false
full_append [] = refl
full_append (c ∷ s) = refl

trim_right-cons :
    (c : ℕ) (s : Str) → is_empty (trim_right s) ≡ false → trim_right (c ∷ s) ≡ c ∷ trim_right s
unfolding trim_right
trim_right-cons c s h = rw h

trim_right-closed : (s : Str) → trim_right (s ++ b'>' ∷ []) ≡ s ++ b'>' ∷ []
unfolding trim_right
trim_right-closed [] = refl
trim_right-closed (c ∷ s) =
    trim_right-cons c (s ++ b'>' ∷ []) (ap is_empty (trim_right-closed s) ∙ full_append s)
    ∙ ap (λ t. c ∷ t) (trim_right-closed s)

bracket_end : (w x : Str) → bracket w x ≡ (w ++ b'<' ∷ x) ++ b'>' ∷ []
bracket_end w x = sym (append_assoc w (b'<' ∷ x) (b'>' ∷ []))

trim_left-word : (w s : Str) → IsWord w → trim_left (w ++ s) ≡ w ++ s
unfolding trim_left
trim_left-word [] s h = cc (h.full)
trim_left-word (c ∷ w) s h =
    let (a, _) = true_parts (is_word c) (all_word w) h.letters in rw ((word_char c a).1)

pub trim_space-bracket : (w x : Str) → IsWord w → trim_space (bracket w x) ≡ bracket w x
unfolding trim_space
trim_space-bracket w x h =
    ap trim_left
      (ap trim_right (bracket_end w x) ∙ trim_right-closed (w ++ b'<' ∷ x) ∙ sym (bracket_end w x))
    ∙ trim_left-word w _ h

trim_right-word : (w : Str) → all_word w ≡ true → trim_right w ≡ w
unfolding trim_right
trim_right-word [] h = refl
trim_right-word (c ∷ w) h =
    let (a, b) = true_parts (is_word c) (all_word w) h in
    rw (trim_right-word w b) (ground (arith, (word_char c a).1))

pub trim_space-word : (w : Str) → IsWord w → trim_space w ≡ w
unfolding trim_space
trim_space-word w h =
    ap trim_left (trim_right-word w h.letters)
    ∙ (ap trim_left (sym (append-nil w)) ∙ trim_left-word w [] h ∙ append-nil w)

word_cut-bracket : (w s : Str) → all_word w ≡ true → word_cut (w ++ b'<' ∷ s) ≡ some (w, s)
unfolding word_cut
word_cut-bracket [] s h = refl
word_cut-bracket (c ∷ w) s h =
    let (a, b) = true_parts (is_word c) (all_word w) h in
    rw ((word_char c a).3, word_cut-bracket w s b, a)

ends_closed-append : (s : Str) → ends_closed (s ++ b'>' ∷ []) ≡ true
unfolding ends_closed
ends_closed-append [] = refl
ends_closed-append (c ∷ []) = refl
ends_closed-append (c ∷ d ∷ s) = ends_closed-append (d ∷ s)

pub match_param-bracket :
    (w x : Str)
    → IsWord w
    → is_empty x ≡ false
    → one_line x ≡ true
    → match_param (bracket w x) ≡ some (w, x)
unfolding match_param close_param
match_param-bracket w x h full line =
    rw (word_cut-bracket w (x ++ b'>' ∷ []) h.letters, match_param)
      (rw (ends_closed-append x, drop_last-append x b'>') (rw (h.full, full, line)))
