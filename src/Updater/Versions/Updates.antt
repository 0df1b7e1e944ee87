-- ===== src/Updater/Versions/Updates.antt =====
-- One update after another, by `versionNewerThanUs`.
use wireroute_windows.Base.{
  ℕ, ◌<◌, ◌≤◌, ◌≡◌, sym, ap, ◌∙◌, List, [], ◌∷◌, true, false, ltb, ltb→lt, arith, Bool-cases, inl,
  inr,
}
use wireroute_windows.Base.Result.{Result, ok, ok-injective}
use wireroute_windows.Base.Text.{Text, split}
use wireroute_windows.Updater.Versions.{VersionError, newer_than}
use wireroute_windows.Updater.Versions.Newer.{
  number_at, Same, IsLaterFrom, IsLater, newer_than-IsLater, IsLater-newer_than, newer_than_asymm,
}

Same-trans : (a b c : Result VersionError ℕ) → Same b a → Same c b → Same c a
Same-trans a b c (n, p, q) (k, r, s) = (k, r, q ∙ ap ok (ok-injective (sym p ∙ s)))

module _ (xs ys zs : List Text) where
  -- The place where the first two differ comes first, or that of the last two, or they are one place.
  IsLaterFrom-trans : IsLaterFrom 0 ys xs → IsLaterFrom 0 zs ys → IsLaterFrom 0 zs xs
  IsLaterFrom-trans (m, le, b, a, at_b, at_a, less, before) (k, ke, c, d, at_c, at_d, more, front) =
      elim (Bool-cases (ltb m k)) [
        | inl first ↦
            let mk = ltb→lt m k first in
            let (n, p, q) = front m (omega arith) mk in
            let same : b ≡ n = ok-injective (sym at_b ∙ q) in
            (m, omega arith, n, a, p, at_a, omega (arith, same), λ j l r. both j l r (omega arith))
        | inr not_first ↦ elim (Bool-cases (ltb k m)) [
          | inl second ↦
              let km = ltb→lt k m second in
              let (n, p, q) = before k (omega arith) km in
              let same : n ≡ d = ok-injective (sym p ∙ at_d) in
              (
                k,
                omega arith,
                c,
                n,
                at_c,
                q,
                omega (arith, same),
                λ j l r. both j l (omega arith) r,
              )
          | inr not_second ↦
              let here : m ≡ k = ground arith in
              let same : b ≡ d = ok-injective (sym at_b ∙ (ap (number_at ys) here ∙ at_d)) in
              (
                k,
                omega arith,
                c,
                a,
                at_c,
                ap (number_at xs) (sym here) ∙ at_a,
                omega (arith, same),
                λ j l r. both j l (omega arith) r,
              )
        ]
      ]
    where
      both : (j : ℕ) → 0 ≤ j → j < m → j < k → Same (number_at zs j) (number_at xs j)
      both j l r s =
          Same-trans (number_at xs j) (number_at ys j) (number_at zs j) (before j l r) (front j l s)

-- Each version is newer than the one before it.
abbrev pub IsChain : Text → List Text → Type 0
IsChain v [] = Unit
IsChain v (w ∷ ws) = (newer_than v w ≡ ok true) × IsChain w ws

abbrev pub last : Text → List Text → Text
last v [] = v
last v (w ∷ ws) = last w ws

last-IsLater : (v w : Text) (ws : List Text) → IsChain v (w ∷ ws) → IsLater v (last w ws)
last-IsLater v w [] (h, hs) = newer_than-IsLater v w h
last-IsLater v w (x ∷ ws) (h, hs) =
    IsLaterFrom-trans (split b'.' v) (split b'.' w) (split b'.' (last x ws))
      (newer_than-IsLater v w h) (last-IsLater w x ws hs)

-- If each of some versions is newer than the one before it, as versionNewerThanUs answers, then the
-- last is later than the first: its number is the greater one at the first part that differs. It is
-- newer than the first, and the first is not newer than it, so that updates never lead back.
pub updates-IsLater :
    (v w : Text) (ws : List Text)
    → IsChain v (w ∷ ws)
    → IsLater v (last w ws)
      × (newer_than v (last w ws) ≡ ok true)
      × (newer_than (last w ws) v ≡ ok false)
updates-IsLater v w ws h =
    let later = last-IsLater v w ws h in
    let newer = IsLater-newer_than v (last w ws) later in
    (later, newer, newer_than_asymm v (last w ws) newer)
