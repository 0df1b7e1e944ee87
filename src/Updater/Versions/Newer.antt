-- ===== src/Updater/Versions/Newer.antt =====
-- `versionNewerThanUs` as an order of versions, and what that says of one update after another.
use wireroute_windows.Base.{
  ℕ, zero, suc, ◌+◌, ◌<◌, ◌≤◌, ◌≡◌, refl, sym, ap, subst, ◌∙◌, List, [], ◌∷◌, true, false, ◌==◌,
  ==_iff, ltb→lt, lt→ltb, length, get_elem?, arith, Bool-cases, ◌⊎◌, inl, inr,
}
use wireroute_windows.Base.Result.{Result, ok, ok-injective, Result-cases}
use wireroute_windows.Base.Text.{Text, split}
use wireroute_windows.Updater.Versions.{VersionError, part_number, newer_loop, max, newer_than}

-- The number that stands at a place of a version, 0 behind its last.
abbrev pub number_at : List Text → ℕ → Result VersionError ℕ
number_at parts i = part_number (get_elem? parts i)

-- A number is the same in both.
abbrev pub Same : Result VersionError ℕ → Result VersionError ℕ → Type 0
Same a b = (n : ℕ) × (a ≡ ok n) × (b ≡ ok n)

-- From part i on, up to the first that differs they are the same, and there the candidate's is greater.
abbrev pub IsLaterFrom : ℕ → (candidate ours : List Text) → Type 0
IsLaterFrom i candidate ours =
    (m : ℕ) × (i ≤ m)
    × (c : ℕ) × (o : ℕ) × (number_at candidate m ≡ ok c)
    × (number_at ours m ≡ ok o)
    × (o < c)
    × ((j : ℕ) → i ≤ j → j < m → Same (number_at candidate j) (number_at ours j))

-- The parts of a version stand between its dots.
abbrev pub IsLater : (ours candidate : Text) → Type 0
IsLater ours candidate = IsLaterFrom 0 (split b'.' candidate) (split b'.' ours)

-- The parts at one place, where the loop goes on or ends.
module _ (todo i : ℕ) (candidate ours : List Text) where
  differ :
      (c o : ℕ)
      → number_at candidate i ≡ ok c
      → number_at ours i ≡ ok o
      → o < c
      → newer_loop (suc todo) i candidate ours ≡ ok true
  unfolding newer_loop
  differ c o p q h =
      let other : (c == o) ≡ false = ground arith in rw (p, q, other, lt→ltb o c h) refl

  go_on :
      Same (number_at candidate i) (number_at ours i)
      → newer_loop (suc todo) i candidate ours ≡ newer_loop todo (suc i) candidate ours
  unfolding newer_loop
  go_on (n, p, q) = let same : (n == n) ≡ true = ground arith in rw (p, q, same) refl

  -- What it takes for the answer that the candidate is newer.
  newer_cases :
      newer_loop (suc todo) i candidate ours ≡ ok true
      → (Same (number_at candidate i) (number_at ours i)
          × (newer_loop todo (suc i) candidate ours ≡ ok true))
        ⊎ ((c : ℕ) × (o : ℕ) × (number_at candidate i ≡ ok c) × (number_at ours i ≡ ok o) × (o < c))
  unfolding newer_loop
  newer_cases h = elim (Result-cases (number_at candidate i)) [
    | inl (c, p) ↦ elim (Result-cases (number_at ours i)) [
      | inl (o, q) ↦ elim (Bool-cases (c == o)) [
        | inl e ↦ inl ((c, p, q ∙ ap ok (sym ((==_iff c o).0 e))), rw (p, q, e) at h)
        | inr e ↦ inr (c, o, p, q, ltb→lt o c (ok-injective (rw (p, q, e) at h)))
      ]
      | inr (x, q) ↦ absurd (ground arith)
    ]
    | inr (x, p) ↦ absurd (ground arith)
  ]

-- The same from here on, from the same here and from the next on.
from_here :
    (i : ℕ) (candidate ours : List Text) (m : ℕ)
    → Same (number_at candidate i) (number_at ours i)
    → ((j : ℕ) → suc i ≤ j → j < m → Same (number_at candidate j) (number_at ours j))
    → (j : ℕ) → i ≤ j
    → j < m
    → Same (number_at candidate j) (number_at ours j)
from_here i candidate ours m same before j l r = elim (Bool-cases (j == i)) [
  | inl e ↦
      subst (λ (k : ℕ). Same (number_at candidate k) (number_at ours k)) (sym ((==_iff j i).0 e))
        same
  | inr e ↦ before j (ground arith) r
]

newer_loop-IsLaterFrom :
    (todo i : ℕ) (candidate ours : List Text)
    → newer_loop todo i candidate ours ≡ ok true
    → IsLaterFrom i candidate ours
unfolding newer_loop
newer_loop-IsLaterFrom zero i candidate ours h = absurd (ground arith)
newer_loop-IsLaterFrom (suc todo) i candidate ours h = elim (newer_cases todo i candidate ours h) [
  | inl (same, later) ↦
      let (m, le, c, o, p, q, less, before) =
        newer_loop-IsLaterFrom todo (suc i) candidate ours later in
      (m, omega arith, c, o, p, q, less, from_here i candidate ours m same before)
  | inr (c, o, p, q, less) ↦ (i, omega arith, c, o, p, q, less, λ j l r. absurd (omega arith))
]

-- Enough rounds are left for the part that differs.
IsLaterFrom-newer_loop :
    (todo i : ℕ) (candidate ours : List Text) (later : IsLaterFrom i candidate ours)
    → later.0 < i + todo
    → newer_loop todo i candidate ours ≡ ok true
IsLaterFrom-newer_loop zero i candidate ours (m, le, c, o, p, q, less, before) h =
    absurd (omega arith)
IsLaterFrom-newer_loop (suc todo) i candidate ours (m, le, c, o, p, q, less, before) h =
    elim (Bool-cases (m == i)) [
      | inl e ↦
          let here = (==_iff m i).0 e in
          differ todo i candidate ours c o (ap (number_at candidate) (sym here) ∙ p)
            (ap (number_at ours) (sym here) ∙ q) less
      | inr e ↦
          go_on todo i candidate ours (before i (omega arith) (ground arith))
          ∙ IsLaterFrom-newer_loop todo (suc i) candidate ours
              (m, ground arith, c, o, p, q, less, λ j l r. before j (omega arith) r) (omega arith)
    ]

newer_loop_asymm :
    (todo i : ℕ) (candidate ours : List Text)
    → newer_loop todo i candidate ours ≡ ok true
    → newer_loop todo i ours candidate ≡ ok false
unfolding newer_loop
newer_loop_asymm zero i candidate ours h = refl
newer_loop_asymm (suc todo) i candidate ours h =
    ground (arith, newer_loop_asymm todo (suc i) candidate ours)

max_bounds : (a b : ℕ) → (a ≤ max a b) × (b ≤ max a b) × (max a b ≡ max b a)
unfolding max
max_bounds a b = ground arith

-- A number that is not 0 stands within its version.
number_at_within :
    (parts : List Text) (i c : ℕ) → number_at parts i ≡ ok c → 0 < c → i < length parts
unfolding part_number
number_at_within [] i c h k = absurd (omega (arith, ok-injective h))
number_at_within (x ∷ parts) zero c h k = omega arith
number_at_within (x ∷ parts) (suc i) c h k =
    let within = number_at_within parts i c h k in omega (arith, within)

pub newer_than-IsLater :
    (ours candidate : Text) → newer_than ours candidate ≡ ok true → IsLater ours candidate
unfolding newer_than
newer_than-IsLater ours candidate h =
    newer_loop-IsLaterFrom _ 0 (split b'.' candidate) (split b'.' ours) h

pub IsLater-newer_than :
    (ours candidate : Text) → IsLater ours candidate → newer_than ours candidate ≡ ok true
unfolding newer_than
IsLater-newer_than ours candidate later =
    let (m, le, c, o, p, q, less, before) = later in
    let within = number_at_within (split b'.' candidate) m c p (omega arith) in
    let bound = (max_bounds (length (split b'.' ours)) (length (split b'.' candidate))).1 in
    IsLaterFrom-newer_loop _ 0 (split b'.' candidate) (split b'.' ours) later
      (omega (arith, within, bound))

pub newer_than_asymm :
    (ours candidate : Text)
    → newer_than ours candidate ≡ ok true
    → newer_than candidate ours ≡ ok false
unfolding newer_than
newer_than_asymm ours candidate h =
    let swap = (max_bounds (length (split b'.' candidate)) (length (split b'.' ours))).2 in
    rw swap (
      newer_loop_asymm (max (length (split b'.' ours)) (length (split b'.' candidate))) 0
        (split b'.' candidate) (split b'.' ours) h)
