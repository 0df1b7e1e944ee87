-- ===== src/Updater/Versions/Found.antt =====
-- Which release is offered.
use wireroute_windows.Base.{
  ℕ, ◌≤◌, ◌≡◌, refl, sym, Option, ap, ◌∙◌, List, [], ◌∷◌, ◌++◌, true, false, ltb, length, All,
  arith, none, some, ◌⊎◌, inl, inr,
}
use wireroute_windows.Base.Result.{Result, ok, err, ok-injective}
use wireroute_windows.Base.Text.{Text, codes}
use wireroute_windows.Updater.Versions.{
  FileList, VersionError, msi_version, version_newer_than_us, is_update, find_candidate,
}
use wireroute_windows.Updater.Versions.Names.{
  msi_name, is_msi-msi_name, msi_version-msi_name, is_msi_split,
}
use wireroute_windows.Updater.Versions.Newer.{IsLater, newer_than-IsLater, IsLater-newer_than}

-- The release for the architecture of a version of at most 128 bytes that is later than this
-- program's.
abbrev pub IsUpdate : (arch name : Text) → Type 0
IsUpdate arch name =
    (v : Text) × (name ≡ msi_name arch v) × (length v ≤ 128) × IsLater (codes "1.1") v

is_update-IsUpdate : (arch name : Text) → is_update arch name ≡ ok true → IsUpdate arch name
unfolding is_update version_newer_than_us
is_update-IsUpdate arch name h =
    let (v, e) = is_msi_split arch name (ground arith) in
    let same = ap (msi_version arch) e ∙ msi_version-msi_name arch v in
    let short : length (msi_version arch name) ≤ 128 = ground arith in
    let newer : version_newer_than_us (msi_version arch name) ≡ ok true = ground arith in
    (
      v,
      e,
      omega (arith, short, ap length same),
      newer_than-IsLater (codes "1.1") v (ap version_newer_than_us (sym same) ∙ newer),
    )

IsUpdate-is_update : (arch name : Text) → IsUpdate arch name → is_update arch name ≡ ok true
unfolding is_update version_newer_than_us
IsUpdate-is_update arch name (v, e, short, later) =
    let not_long : ltb 128 (length v) ≡ false = ground arith in
    ap (is_update arch) e
    ∙ rw (is_msi-msi_name arch v, msi_version-msi_name arch v, not_long)
        (IsLater-newer_than (codes "1.1") v later)

-- A candidate that is passed over.
abbrev pub IsPassed : Text → Text × List ℕ → Type 0
IsPassed arch g = (is_update arch g.0 ≡ ok false) × (¬ (IsUpdate arch g.0))

IsPassed-intro : (arch : Text) (g : Text × List ℕ) → is_update arch g.0 ≡ ok false → IsPassed arch g
IsPassed-intro arch g h =
    (h, λ u. let same : false ≡ true = ok-injective (sym h ∙ IsUpdate-is_update arch g.0 u) in cc)

-- The candidate is the first that is an update.
unfoldable pub IsFirst : Text → FileList → Text × List ℕ → Type 0
IsFirst arch candidates f =
    (before : FileList) × (after : FileList) × (candidates ≡ before ++ (f ∷ after))
    × All (IsPassed arch) before
    × IsUpdate arch f.0

module _ (arch : Text) where
  -- A candidate that is found is the first, or found behind it.
  found_cases :
      (g f : Text × List ℕ) (candidates : FileList)
      → find_candidate arch (g ∷ candidates) ≡ ok (some f)
      → ((is_update arch g.0 ≡ ok true) × (g ≡ f))
        ⊎ ((is_update arch g.0 ≡ ok false) × (find_candidate arch candidates ≡ ok (some f)))
  unfolding find_candidate
  found_cases g f candidates h = ground arith

  -- A candidate that findCandidate returns is the first that is an update.
  find_candidate-IsFirst :
      (candidates : FileList) (f : Text × List ℕ)
      → find_candidate arch candidates ≡ ok (some f)
      → IsFirst arch candidates f
  unfolding find_candidate IsFirst
  find_candidate-IsFirst [] f h = ground arith
  find_candidate-IsFirst (g ∷ candidates) f h = elim (found_cases g f candidates h) [
    | inl (here, same) ↦ (
      [],
      candidates,
      ap (λ r. r ∷ candidates) same,
      tt,
      is_update-IsUpdate arch f.0 (ap (λ r. is_update arch r.0) (sym same) ∙ here),
    )
    | inr (skipped, behind) ↦
        let rest = find_candidate-IsFirst candidates f behind in
        (
          g ∷ rest.0,
          rest.1,
          ap (λ r. g ∷ r) rest.2,
          (IsPassed-intro arch g skipped, rest.3),
          rest.4,
        )
  ]

  -- If findCandidate returns none, no candidate is an update.
  find_candidate-none :
      (candidates : FileList)
      → find_candidate arch candidates ≡ ok none
      → All (IsPassed arch) candidates
  unfolding find_candidate
  find_candidate-none [] h = tt
  find_candidate-none (g ∷ candidates) h =
      (IsPassed-intro arch g (ground arith), find_candidate-none candidates (ground arith))

  -- What the search tells of the candidates.
  abbrev pub Tells : FileList → Result VersionError (Option (Text × List ℕ)) → Type 0
  Tells candidates (ok (some f)) = IsFirst arch candidates f
  Tells candidates (ok none) = All (IsPassed arch) candidates
  Tells candidates (err e) = Unit

  Tells-intro :
      (candidates : FileList) (r : Result VersionError (Option (Text × List ℕ)))
      → find_candidate arch candidates ≡ r
      → Tells candidates r
  Tells-intro candidates (ok (some f)) h = find_candidate-IsFirst candidates f h
  Tells-intro candidates (ok none) h = find_candidate-none candidates h
  Tells-intro candidates (err e) h = tt

  -- A candidate that findCandidate returns is the first that is an update: its name is wireguard-,
  -- the architecture, a dash, a version and .msi, and the version has at most 128 bytes and is
  -- later than this program's, by a greater number at the first part that differs. All in front of
  -- it are none. If it returns none without an error, no candidate is an update.
  pub find_candidate-Tells :
      (candidates : FileList) → Tells candidates (find_candidate arch candidates)
  find_candidate-Tells candidates = Tells-intro candidates (find_candidate arch candidates) refl
