-- ===== src/Manager/Available.antt =====
-- manager/protocol_v1.go: `managerV1AvailableName`, the tunnel's name for a profile that is imported.
pub mod Laws
pub mod Chosen
use wireroute_windows.Base.{
  ℕ, zero, suc, ◌+◌, ◌-◌, List, [], ◌∷◌, ◌++◌, Bool, true, false, not, ◌&&◌, ◌||◌, ◌==◌, ltb,
  length, take, any, if◌then◌else◌, Option, none, some,
}
use wireroute_windows.Base.Numbers.{itoa}
use wireroute_windows.Base.Result.{Result, ok, err, ◌>>=◌, ◌>>◌, reject_if, require}
use wireroute_windows.Base.Text.{Text, codes, is_empty, is_space, trim, trim_right}
use wireroute_windows.Conf.Name.{equal_fold, is_allowed, tunnel_name_is_valid}
use wireroute_windows.Manager.Host.{Error, remote, name_not_derived, name_conflict}

-- The cut set of `strings.Trim(s, ".-")`.
unfoldable pub is_dot_or_dash : ℕ → Bool
is_dot_or_dash c = c == b'.' || c == b'-'

-- What the loop writes from here on: has it written anything, and was that a separator at last?
-- `is_punct` is `unicode.IsPunct`.
unfoldable pub sanitized : (is_punct : ℕ → Bool) → (built last_separator : Bool) → Text → Text
sanitized is_punct built last_separator [] = []
sanitized is_punct built last_separator (r ∷ s) = elim (is_allowed r) [
  | true ↦ r ∷ sanitized is_punct true false s
  | false ↦ elim ((is_space r || is_punct r) && built && not last_separator) [
    | true ↦ b'-' ∷ sanitized is_punct true true s
    | false ↦ sanitized is_punct built last_separator s
  ]
]

unfoldable pub shortened : Text → Text
shortened base = if ltb 32 (length base) then trim_right is_dot_or_dash (take 32 base) else base

unfoldable pub first_base : (is_punct : ℕ → Bool) → Text → Text
unfolding sanitized
first_base is_punct display_name =
    or_default (shortened (trim is_dot_or_dash (sanitized is_punct false false display_name)))
  where
    or_default : Text → Text
    or_default base = if is_empty base then codes "WireRoute" else base

unfoldable pub base_name : (is_punct : ℕ → Bool) → Text → Text
base_name is_punct display_name =
    let base = first_base is_punct display_name in
    if not (tunnel_name_is_valid base) then shortened (codes "WireRoute-" ++ base) else base

unfoldable pub is_taken : List Text → Text → Bool
is_taken existing candidate = any (λ name. equal_fold name candidate) existing

unfoldable pub candidate : Text → ℕ → Text
candidate base index =
    let suffix = b'-' ∷ itoa index in
    (if ltb 32 (length base + length suffix)
      then trim_right is_dot_or_dash (take (32 - length suffix) base)
      else base)
    ++ suffix

-- The loop over the numbers, from `index` on.
unfoldable pub numbered : (rounds : ℕ) → (index : ℕ) → Text → List Text → Option Text
numbered zero index base existing = none
numbered (suc rounds) index base existing =
    elim (tunnel_name_is_valid (candidate base index)
      && not (is_taken existing (candidate base index))) [
        | true ↦ some (candidate base index)
        | false ↦ numbered rounds (suc index) base existing
      ]

-- `listed` is what the directory of configurations has.
unfoldable pub available_name :
    (is_punct : ℕ → Bool) → (listed : Result Error (List Text)) → Text → Result Error Text
available_name is_punct listed display_name = do
  let base = base_name is_punct display_name
  reject_if (not (tunnel_name_is_valid base)) (remote name_not_derived)
  existing ← listed
  free base existing
  where
    free : Text → List Text → Result Error Text
    free base existing =
        if not (is_taken existing base)
        then ok base
        else require (numbered 99998 2 base existing) (remote name_conflict)
