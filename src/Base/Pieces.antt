-- ===== src/Base/Pieces.antt =====
-- Cutting and splitting texts at a separator, and texts that have none.
use wireroute_windows.Base.{
  ℕ, ◌≡◌, refl, ap, ◌∙◌, [], ◌∷◌, ◌++◌, Bool, true, false, ◌||◌, ◌==◌, any, arith,
}
use wireroute_windows.Base.Text.{
  Text, contains, cut, into_first, split, is_empty, is_space, trim_left, trim_right, trim_space,
  keep_before,
}
use wireroute_windows.Base.Trim.{
  keep_before_nonempty, is_empty-append, trim_left_fixed, trim_right_fixed,
}

module _ (sep : ℕ) where
  pub contains-append :
      (s t : Text) → contains sep s ≡ false → contains sep t ≡ false → contains sep (s ++ t) ≡ false
  unfolding contains
  contains-append [] t h k = k
  contains-append (c ∷ s) t h k = ground (arith, contains-append s t)

  pub cut_none : (s : Text) → contains sep s ≡ false → cut sep s ≡ (s, [], false)
  unfolding contains cut
  cut_none [] h = refl
  cut_none (c ∷ s) h = ground (arith, cut_none s)

  -- The first separator is the one that is cut at.
  pub cut_at : (s t : Text) → contains sep s ≡ false → cut sep (s ++ sep ∷ t) ≡ (s, t, true)
  unfolding contains cut
  cut_at [] t h = ground arith
  cut_at (c ∷ s) t h = ground (arith, cut_at s t)

  pub split_none : (s : Text) → contains sep s ≡ false → split sep s ≡ s ∷ []
  unfolding contains split into_first
  split_none [] h = refl
  split_none (c ∷ s) h = ground (arith, split_none s)

  pub split_at : (s t : Text) → contains sep s ≡ false → split sep (s ++ sep ∷ t) ≡ s ∷ split sep t
  unfolding contains split into_first
  split_at [] t h = ground arith
  split_at (c ∷ s) t h = ground (arith, split_at s t)

module _ (p : ℕ → Bool) where
  pub trim_right-append_fixed :
      (s t : Text) → trim_right p t ≡ t → is_empty t ≡ false → trim_right p (s ++ t) ≡ s ++ t
  unfolding trim_right
  trim_right-append_fixed [] t h k = h
  trim_right-append_fixed (c ∷ s) t h k =
      ap (keep_before p c) (trim_right-append_fixed s t h k)
      ∙ keep_before_nonempty p c (s ++ t) (is_empty-append s t k)

  keep_before_kept : (c : ℕ) (s : Text) → p c ≡ false → keep_before p c s ≡ c ∷ s
  unfolding keep_before
  keep_before_kept c [] h = ground arith
  keep_before_kept c (d ∷ s) h = refl

  -- What stands in front of a character that stays is not trimmed on the right.
  pub trim_right_behind :
      (s : Text) (c : ℕ) (t : Text)
      → p c ≡ false
      → trim_right p (s ++ c ∷ t) ≡ s ++ c ∷ trim_right p t
  unfolding trim_right
  trim_right_behind [] c t h = keep_before_kept c (trim_right p t) h
  trim_right_behind (d ∷ s) c t h =
      ap (keep_before p d) (trim_right_behind s c t h)
      ∙ keep_before_nonempty p d (s ++ c ∷ trim_right p t)
          (is_empty-append s (c ∷ trim_right p t) refl)

-- A text that is not empty and has no white space at its ends.
abbrev pub IsTrimmed : Text → Type 0
IsTrimmed s = (is_empty s ≡ false) × (trim_left is_space s ≡ s) × (trim_right is_space s ≡ s)

pub trim_space-IsTrimmed : (s : Text) → IsTrimmed s → trim_space s ≡ s
unfolding trim_space
trim_space-IsTrimmed s (e, l, r) = rw l r

pub trim_space_behind_blank : (s : Text) → IsTrimmed s → trim_space (b' ' ∷ s) ≡ s
unfolding trim_space
trim_space_behind_blank s h = trim_space-IsTrimmed s h

-- A character that no token has: white space, a comma, or what begins a comment.
abbrev pub is_break : ℕ → Bool
is_break c = is_space c || c == b',' || c == b'#'

abbrev pub IsToken : Text → Type 0
IsToken s = (is_empty s ≡ false) × (any is_break s ≡ false)

module _ (p q : ℕ → Bool) (weaker : (c : ℕ) → q c ≡ false → p c ≡ false) where
  any_weaker : (s : Text) → any q s ≡ false → any p s ≡ false
  any_weaker [] h = refl
  any_weaker (c ∷ s) h = ground (arith, any_weaker s, weaker c)

contains_any : (sep : ℕ) (s : Text) → any (λ c. c == sep) s ≡ false → contains sep s ≡ false
unfolding contains
contains_any sep [] h = refl
contains_any sep (c ∷ s) h = ground (arith, contains_any sep s)

pub IsToken-IsTrimmed : (s : Text) → IsToken s → IsTrimmed s
IsToken-IsTrimmed s (e, h) =
    let k = any_weaker is_space is_break (λ c b. ground arith) s h in
    (e, trim_left_fixed is_space s k, trim_right_fixed is_space s k)

-- A token has none of the separators.
pub IsToken-contains :
    (sep : ℕ) (s : Text)
    → ((c : ℕ) → is_break c ≡ false → (c == sep) ≡ false)
    → IsToken s
    → contains sep s ≡ false
IsToken-contains sep s weaker (e, h) =
    contains_any sep s (any_weaker (λ c. c == sep) is_break weaker s h)
