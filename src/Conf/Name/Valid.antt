-- ===== src/Conf/Name/Valid.antt =====
-- Which names are valid, told without the lists of forbidden characters.
use wireroute_windows.Base.{
  ℕ, ◌<◌, ◌≡◌, refl, [], ◌∷◌, Bool, true, false, not, ◌&&◌, ◌||◌, leb, length, all, arith,
  Bool-cases, inl, inr,
}
use wireroute_windows.Base.Table.{holds_below, holds_below_sound}
use wireroute_windows.Base.Text.{Text, contains}
use wireroute_windows.Conf.Name.{
  service_name_forbidden, netshell_dll_forbidden, special_chars, is_reserved, contains_any,
  starts_with, ends_with, has_special_chars, is_allowed, matches_allowed_name_format,
  tunnel_name_is_valid,
}

abbrev forbidden : ℕ → Bool
forbidden c =
    contains c special_chars
    || contains c netshell_dll_forbidden
    || contains c service_name_forbidden

allowed_table : holds_below 128 (λ c. not (is_allowed c) || not (forbidden c)) ≡ true
unfolding holds_below is_allowed contains
allowed_table = refl

is_allowed_lt : (c : ℕ) → is_allowed c ≡ true → c < 128
unfolding is_allowed
is_allowed_lt c h = ground arith

is_allowed-forbidden : (c : ℕ) → is_allowed c ≡ true → forbidden c ≡ false
is_allowed-forbidden c h = ground (
  arith,
  holds_below_sound 128 (λ c. not (is_allowed c) || not (forbidden c)) c allowed_table
      (is_allowed_lt c h),
)

-- No allowed character is forbidden.
all-is_allowed :
    (s : Text)
    → all is_allowed s ≡ true
    → (contains_any s special_chars ≡ false)
      × (contains_any s netshell_dll_forbidden ≡ false)
      × (contains_any s service_name_forbidden ≡ false)
unfolding contains_any
all-is_allowed [] h = (refl, refl, refl)
all-is_allowed (c ∷ s) h =
    let allowed : is_allowed c ≡ true = ground arith in
    let rest = all-is_allowed s (rw allowed at h) in
    ground (arith, is_allowed-forbidden c allowed, rest)

-- A name is valid exactly if it has 1 to 32 characters, all of them allowed, no dot at either end,
-- and no device's name before its first dot.
pub tunnel_name_is_valid_iff :
    (name : Text)
    → tunnel_name_is_valid name ≡ (
        leb 1 (length name)
        && leb (length name) 32
        && all is_allowed name
        && not (starts_with b'.' name)
        && not (ends_with b'.' name)
        && not (is_reserved name))
unfolding tunnel_name_is_valid has_special_chars matches_allowed_name_format
tunnel_name_is_valid_iff name = elim (Bool-cases (all is_allowed name)) [
  | inl e ↦ ground (arith, all-is_allowed name e)
  | inr e ↦ rw e (ground arith)
]
