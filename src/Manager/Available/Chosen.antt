-- ===== src/Manager/Available/Chosen.antt =====
-- What `managerV1AvailableName` returns.
use wireroute_windows.Base.{
  ℕ, zero, suc, ◌+◌, ◌≤◌, ◌<◌, ◌≡◌, ◌⊎◌, refl, sym, ap, ◌∙◌, List, Bool, true, false, not, ◌&&◌,
  ◌==◌, arith, Bool-cases, Option-cases, none, some, inl, inr,
}
use wireroute_windows.Base.Result.{Result, ok, err, ok-injective}
use wireroute_windows.Base.Text.{Text}
use wireroute_windows.Conf.Name.{tunnel_name_is_valid}
use wireroute_windows.Manager.Host.{Error, remote, name_conflict}
use wireroute_windows.Manager.Available.{base_name, is_taken, candidate, numbered, available_name}
use wireroute_windows.Manager.Available.Laws.{base_name-is_valid}

-- Is it a name that may be returned?
abbrev pub is_free : List Text → Text → Bool
is_free existing name = tunnel_name_is_valid name && not (is_taken existing name)

module _ (base : Text) (existing : List Text) where
  numbered-some :
      (rounds index : ℕ) (name : Text)
      → numbered rounds index base existing ≡ some name
      → is_free existing name ≡ true
  unfolding numbered
  numbered-some zero index name h = ground arith
  numbered-some (suc rounds) index name h = ground (arith, numbered-some rounds (suc index) name)

  numbered-none :
      (rounds index i : ℕ)
      → numbered rounds index base existing ≡ none
      → index ≤ i
      → i < index + rounds
      → is_free existing (candidate base i) ≡ false
  unfolding numbered
  numbered-none zero index i h le lt = absurd (omega arith)
  numbered-none (suc rounds) index i h le lt = elim (Bool-cases (index == i)) [
    | inl e ↦ ground arith
    | inr e ↦ ground (arith, numbered-none rounds (suc index) i)
  ]

-- When the directory can be read: the name that is chosen is valid and, but for the case of letters,
-- none of those there are; and where there is none to choose, the first name and each numbered one up
-- to 99999 are no free names.
pub available_name_cases :
    (is_punct : ℕ → Bool) (existing : List Text) (display_name : Text) (i : ℕ)
    → 2 ≤ i
    → i < 100000
    → ((name : Text) × (available_name is_punct (ok existing) display_name ≡ ok name)
        × (tunnel_name_is_valid name ≡ true)
        × (is_taken existing name ≡ false))
      ⊎ ((available_name is_punct (ok existing) display_name ≡ err (remote name_conflict))
          × (is_taken existing (base_name is_punct display_name) ≡ true)
          × (is_free existing (candidate (base_name is_punct display_name) i) ≡ false))
unfolding available_name
available_name_cases is_punct existing display_name i low high =
    let base = base_name is_punct display_name in
    elim (Bool-cases (is_taken existing base)) [
      | inr e ↦ inl (
        base,
        rw (base_name-is_valid is_punct display_name, e) refl,
        base_name-is_valid is_punct display_name,
        e,
      )
      | inl e ↦ elim (Option-cases (numbered 99998 2 base existing)) [
        | inl n ↦ inr (
          rw (base_name-is_valid is_punct display_name, e, n) refl,
          e,
          numbered-none base existing 99998 2 i n low (omega arith),
        )
        | inr (name, n) ↦
            let free = numbered-some base existing 99998 2 name n in
            inl (
              name,
              rw (base_name-is_valid is_punct display_name, e, n) refl,
              ground (arith, free),
              ground (arith, free),
            )
      ]
    ]

available_name_unlisted :
    (is_punct : ℕ → Bool) (x : Error) (display_name : Text)
    → available_name is_punct (err x) display_name ≡ err x
unfolding available_name
available_name_unlisted is_punct x display_name = rw (base_name-is_valid is_punct display_name) refl

-- A name is returned only when the directory can be read.
pub available_name_ok :
    (is_punct : ℕ → Bool) (listed : Result Error (List Text)) (display_name name : Text)
    → available_name is_punct listed display_name ≡ ok name
    → (existing : List Text) × (listed ≡ ok existing)
      × (tunnel_name_is_valid name ≡ true)
      × (is_taken existing name ≡ false)
available_name_ok is_punct (ok existing) display_name name h =
    elim (available_name_cases is_punct existing display_name 2 (omega arith) (omega arith)) [
      | inl (chosen, e, v, t) ↦
          let same = ok-injective (sym e ∙ h) in
          (
            existing,
            refl,
            ap tunnel_name_is_valid (sym same) ∙ v,
            ap (is_taken existing) (sym same) ∙ t,
          )
      | inr (e, t, f) ↦ absurd (ground (arith, e, h))
    ]
available_name_ok is_punct (err x) display_name name h =
    absurd (ground (arith, available_name_unlisted is_punct x display_name, h))
