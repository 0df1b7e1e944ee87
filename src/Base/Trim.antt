-- ===== src/Base/Trim.antt =====
-- What trimming and cutting off leave of a text.
use wireroute_windows.Base.{
  ℕ, zero, suc, ◌≤◌, ◌≡◌, refl, ap, ◌∙◌, [], ◌∷◌, ◌++◌, Bool, true, false, length, take, any, all,
  arith, Bool-cases, inl, inr,
}
use wireroute_windows.Base.Text.{
  Text, has_prefix, is_empty, keep_before, trim_left, trim_right, trim,
}

module _ (q : ℕ → Bool) where
  pub all-append : (s t : Text) → all q s ≡ true → all q t ≡ true → all q (s ++ t) ≡ true
  all-append [] t h k = k
  all-append (c ∷ s) t h k = ground (arith, all-append s t)

  pub all-take : (n : ℕ) (s : Text) → all q s ≡ true → all q (take n s) ≡ true
  all-take zero s h = refl
  all-take (suc n) [] h = refl
  all-take (suc n) (c ∷ s) h = ground (arith, all-take n s)

  module _ (p : ℕ → Bool) where
    all-trim_left : (s : Text) → all q s ≡ true → all q (trim_left p s) ≡ true
    unfolding trim_left
    all-trim_left [] h = refl
    all-trim_left (c ∷ s) h = ground (arith, all-trim_left s)

    all-keep_before :
        (c : ℕ) (s : Text) → q c ≡ true → all q s ≡ true → all q (keep_before p c s) ≡ true
    unfolding keep_before
    all-keep_before c [] h k = ground arith
    all-keep_before c (d ∷ s) h k = ground arith

    pub all-trim_right : (s : Text) → all q s ≡ true → all q (trim_right p s) ≡ true
    unfolding trim_right
    all-trim_right [] h = refl
    all-trim_right (c ∷ s) h = ground (arith, all-trim_right s, all-keep_before c (trim_right p s))

    pub all-trim : (s : Text) → all q s ≡ true → all q (trim p s) ≡ true
    unfolding trim
    all-trim s h = all-trim_right (trim_left p s) (all-trim_left s h)

pub is_empty-append : (s t : Text) → is_empty t ≡ false → is_empty (s ++ t) ≡ false
is_empty-append [] t h = h
is_empty-append (c ∷ s) t h = refl

module _ (p : ℕ → Bool) where
  length-keep_before : (c : ℕ) (s : Text) → length (keep_before p c s) ≤ suc (length s)
  unfolding keep_before
  length-keep_before c [] = ground arith
  length-keep_before c (d ∷ s) = ground arith

  pub length-trim_right : (s : Text) → length (trim_right p s) ≤ length s
  unfolding trim_right
  length-trim_right [] = ground arith
  length-trim_right (c ∷ s) =
      omega (arith, length-trim_right s, length-keep_before c (trim_right p s))

  -- The first character stays if it is not trimmed.
  pub trim_right_head :
      (c : ℕ) (s : Text) → p c ≡ false → (t : Text) × (trim_right p (c ∷ s) ≡ c ∷ t)
  unfolding trim_right
  trim_right_head c s h = kept c (trim_right p s) h
    where
      kept : (c : ℕ) (s : Text) → p c ≡ false → (t : Text) × (keep_before p c s ≡ c ∷ t)
      kept c [] h = ([], ground arith)
      kept c (d ∷ s) h = (d ∷ s, ground arith)

  -- The first character that is left is not trimmed.
  pub trim_left_head : (s : Text) (c : ℕ) (t : Text) → trim_left p s ≡ c ∷ t → p c ≡ false
  unfolding trim_left
  trim_left_head [] c t h = ground arith
  trim_left_head (d ∷ s) c t h = ground (arith, trim_left_head s c t)

  trim_right-keep_before :
      (c : ℕ) (s : Text) → trim_right p s ≡ s → trim_right p (keep_before p c s) ≡ keep_before p c s
  unfolding trim_right keep_before
  trim_right-keep_before c [] h = elim (Bool-cases (p c)) [
    | inl e ↦ rw e refl
    | inr e ↦ rw e (rw e refl)
  ]
  trim_right-keep_before c (d ∷ s) h = ap (keep_before p c) h

  pub trim_right_idempotent : (s : Text) → trim_right p (trim_right p s) ≡ trim_right p s
  unfolding trim_right
  trim_right_idempotent [] = refl
  trim_right_idempotent (c ∷ s) =
      trim_right-keep_before c (trim_right p s) (trim_right_idempotent s)

  trim_right_nil : trim_right p [] ≡ []
  unfolding trim_right
  trim_right_nil = refl

  pub trim_left-trim_right_fixed :
      (s : Text) → trim_left p s ≡ s → trim_left p (trim_right p s) ≡ trim_right p s
  unfolding trim_left
  trim_left-trim_right_fixed [] h = rw trim_right_nil refl
  trim_left-trim_right_fixed (c ∷ s) h =
      let kept = trim_left_head (c ∷ s) c s h in
      let first = trim_right_head c s kept in rw (first.1) (rw kept refl)

  pub trim_left_idempotent : (s : Text) → trim_left p (trim_left p s) ≡ trim_left p s
  unfolding trim_left
  trim_left_idempotent [] = refl
  trim_left_idempotent (c ∷ s) = elim (Bool-cases (p c)) [
    | inl e ↦ rw e (trim_left_idempotent s)
    | inr e ↦ rw e (rw e refl)
  ]

  pub trim_idempotent : (s : Text) → trim p (trim p s) ≡ trim p s
  unfolding trim
  trim_idempotent s =
      rw (trim_left-trim_right_fixed (trim_left p s) (trim_left_idempotent s))
        (trim_right_idempotent (trim_left p s))

  pub keep_before_nonempty : (c : ℕ) (s : Text) → is_empty s ≡ false → keep_before p c s ≡ c ∷ s
  unfolding keep_before
  keep_before_nonempty c [] h = absurd (ground arith)
  keep_before_nonempty c (d ∷ s) h = refl

  pub trim_right_fixed : (s : Text) → any p s ≡ false → trim_right p s ≡ s
  unfolding trim_right keep_before
  trim_right_fixed [] h = refl
  trim_right_fixed (c ∷ []) h = ground arith
  trim_right_fixed (c ∷ (d ∷ s)) h = ap (keep_before p c) (trim_right_fixed (d ∷ s) (ground arith))

  -- What ends in characters that stay is not trimmed on the right.
  pub trim_right-append :
      (s t : Text) → any p t ≡ false → is_empty t ≡ false → trim_right p (s ++ t) ≡ s ++ t
  unfolding trim_right
  trim_right-append [] t h k = trim_right_fixed t h
  trim_right-append (c ∷ s) t h k =
      ap (keep_before p c) (trim_right-append s t h k)
      ∙ keep_before_nonempty c (s ++ t) (is_empty-append s t k)

  -- Nothing is trimmed of what begins and ends in characters that stay.
  pub trim_fixed :
      (c : ℕ) (s t : Text)
      → p c ≡ false
      → any p t ≡ false
      → is_empty t ≡ false
      → trim p (c ∷ s ++ t) ≡ c ∷ s ++ t
  unfolding trim trim_left
  trim_fixed c s t h k e = rw h (trim_right-append (c ∷ s) t k e)

  pub trim_left_fixed : (s : Text) → any p s ≡ false → trim_left p s ≡ s
  unfolding trim_left
  trim_left_fixed [] h = refl
  trim_left_fixed (c ∷ s) h = ground arith

  pub trim_none : (s : Text) → any p s ≡ false → trim p s ≡ s
  unfolding trim
  trim_none s h = rw (trim_left_fixed s h) (trim_right_fixed s h)

pub has_prefix-append : (s t : Text) → has_prefix (s ++ t) s ≡ true
unfolding has_prefix
has_prefix-append [] t = refl
has_prefix-append (c ∷ s) t = rw (has_prefix-append s t) (ground arith)
