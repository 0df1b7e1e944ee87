-- ===== src/Manager/Available/Laws.antt =====
-- Which name a profile gets.
use wireroute_windows.Base.{
  ℕ, zero, suc, ◌≤◌, ◌≡◌, refl, ap, ◌∙◌, [], ◌∷◌, ◌++◌, Bool, true, false, not, ◌&&◌, leb, ltb,
  length, take, all, length-take, arith, if◌then◌else◌, Bool-cases, inl, inr,
}
use wireroute_windows.Base.Text.{Text, codes, keep_before, trim_left, trim_right, trim, is_empty}
use wireroute_windows.Base.Trim.{
  all-append, all-take, all-trim, all-trim_right, length-trim_right, trim_right_head,
}
use wireroute_windows.Conf.Name.{
  starts_with, ends_with, is_allowed, is_reserved, tunnel_name_is_valid,
}
use wireroute_windows.Conf.Name.Valid.{tunnel_name_is_valid_iff}
use wireroute_windows.Manager.Available.{
  is_dot_or_dash, sanitized, shortened, first_base, base_name,
}

-- Allowed characters, and no dot at either end.
abbrev ends_allowed : Text → Bool
ends_allowed s = all is_allowed s && not (starts_with b'.' s) && not (ends_with b'.' s)

module _ (p : ℕ → Bool) (c : ℕ) (h : p c ≡ true) where
  ends_with-keep_before :
      (d : ℕ) (r : Text) → ends_with c r ≡ false → ends_with c (keep_before p d r) ≡ false
  unfolding keep_before ends_with
  ends_with-keep_before d [] k = elim (Bool-cases (p d)) [
    | inl e ↦ rw e refl
    | inr e ↦ rw e (ground arith)
  ]
  ends_with-keep_before d (e ∷ r) k = k

  ends_with-trim_right : (s : Text) → ends_with c (trim_right p s) ≡ false
  unfolding trim_right ends_with
  ends_with-trim_right [] = refl
  ends_with-trim_right (d ∷ s) = ends_with-keep_before d (trim_right p s) (ends_with-trim_right s)

  starts_with-trim_right :
      (s : Text) → starts_with c s ≡ false → starts_with c (trim_right p s) ≡ false
  unfolding trim_right starts_with keep_before
  starts_with-trim_right [] k = k
  starts_with-trim_right (d ∷ s) k = kept (trim_right p s)
    where
      kept : (r : Text) → starts_with c (keep_before p d r) ≡ false
      kept [] = elim (Bool-cases (p d)) [ inl e ↦ rw e refl | inr e ↦ rw e k ]
      kept (e ∷ r) = k

  starts_with-trim_left : (s : Text) → starts_with c (trim_left p s) ≡ false
  unfolding trim_left starts_with
  starts_with-trim_left [] = refl
  starts_with-trim_left (d ∷ s) = elim (Bool-cases (p d)) [
    | inl e ↦ rw e (starts_with-trim_left s)
    | inr e ↦ rw e (ground arith)
  ]

starts_with-take : (c n : ℕ) (s : Text) → starts_with c s ≡ false → starts_with c (take n s) ≡ false
unfolding starts_with
starts_with-take c zero s h = refl
starts_with-take c (suc n) [] h = refl
starts_with-take c (suc n) (d ∷ s) h = h

dot-is_dot_or_dash : is_dot_or_dash b'.' ≡ true
unfolding is_dot_or_dash
dot-is_dot_or_dash = refl

dash-is_allowed : is_allowed b'-' ≡ true
unfolding is_allowed
dash-is_allowed = refl

all-sanitized :
    (is_punct : ℕ → Bool) (built last_separator : Bool) (s : Text)
    → all is_allowed (sanitized is_punct built last_separator s) ≡ true
unfolding sanitized
all-sanitized is_punct built last_separator [] = refl
all-sanitized is_punct built last_separator (r ∷ s) = ground (
  arith,
  dash-is_allowed,
  all-sanitized is_punct true false s,
  all-sanitized is_punct true true s,
  all-sanitized is_punct built last_separator s,
)

ends_allowed-trim :
    (s : Text) → all is_allowed s ≡ true → ends_allowed (trim is_dot_or_dash s) ≡ true
unfolding trim
ends_allowed-trim s h = ground (
  arith,
  all-trim is_allowed is_dot_or_dash s,
  starts_with-trim_right is_dot_or_dash b'.' dot-is_dot_or_dash (trim_left is_dot_or_dash s),
  starts_with-trim_left is_dot_or_dash b'.' dot-is_dot_or_dash s,
  ends_with-trim_right is_dot_or_dash b'.' dot-is_dot_or_dash (trim_left is_dot_or_dash s),
)

ends_allowed-shortened : (s : Text) → ends_allowed s ≡ true → ends_allowed (shortened s) ≡ true
unfolding shortened
ends_allowed-shortened s h = elim (Bool-cases (ltb 32 (length s))) [
  | inl e ↦ rw e (
      ground (
        arith,
        all-trim_right is_allowed is_dot_or_dash (take 32 s),
        all-take is_allowed 32 s,
        starts_with-trim_right is_dot_or_dash b'.' dot-is_dot_or_dash (take 32 s),
        starts_with-take b'.' 32 s,
        ends_with-trim_right is_dot_or_dash b'.' dot-is_dot_or_dash (take 32 s),
      ))
  | inr e ↦ rw e h
]

length-shortened : (s : Text) → length (shortened s) ≤ 32
unfolding shortened
length-shortened s = ground (arith, length-trim_right is_dot_or_dash (take 32 s), length-take 32 s)

-- What the two checks of the name leave to be shown.
abbrev well_ended : Text → Bool
well_ended s = leb 1 (length s) && leb (length s) 32 && ends_allowed s

valid-well_ended : (s : Text) → well_ended s ≡ true → tunnel_name_is_valid s ≡ not (is_reserved s)
valid-well_ended s h = ground (arith, tunnel_name_is_valid_iff s)

default-well_ended : well_ended (codes "WireRoute") ≡ true
unfolding starts_with ends_with is_allowed
default-well_ended = refl

or_default-well_ended :
    (s : Text)
    → leb (length s) 32 ≡ true
    → ends_allowed s ≡ true
    → well_ended (if is_empty s then codes "WireRoute" else s) ≡ true
or_default-well_ended [] h k = default-well_ended
or_default-well_ended (c ∷ s) h k = ground arith

first_base-well_ended :
    (is_punct : ℕ → Bool) (display_name : Text)
    → well_ended (first_base is_punct display_name) ≡ true
unfolding first_base
first_base-well_ended is_punct display_name =
    let name = sanitized is_punct false false display_name in
    let base = trim is_dot_or_dash name in
    or_default-well_ended (shortened base) (ground (arith, length-shortened base)) (
      ends_allowed-shortened base
        (ends_allowed-trim name (all-sanitized is_punct false false display_name)))

-- No device has a name that starts like this.
w-is_reserved : (s : Text) → is_reserved (b'W' ∷ s) ≡ false
unfolding is_reserved
w-is_reserved s = refl

w-shortened : (s : Text) → (t : Text) × (shortened (b'W' ∷ s) ≡ b'W' ∷ t)
unfolding shortened is_dot_or_dash
w-shortened s = elim (Bool-cases (ltb 32 (length (b'W' ∷ s)))) [
  | inl e ↦ rw e (trim_right_head is_dot_or_dash b'W' (take 31 s) refl)
  | inr e ↦ (s, rw e refl)
]

ends_with_append :
    (c : ℕ) (s : Text) (d : ℕ) (t : Text)
    → ends_with c (d ∷ t) ≡ false
    → ends_with c (s ++ (d ∷ t)) ≡ false
unfolding ends_with
ends_with_append c [] d t h = h
ends_with_append c (x ∷ []) d t h = h
ends_with_append c (x ∷ (y ∷ s)) d t h = ends_with_append c (y ∷ s) d t h

prefix-all : all is_allowed (codes "WireRoute-") ≡ true
unfolding is_allowed
prefix-all = refl

prefix-starts_with : (s : Text) → starts_with b'.' (codes "WireRoute-" ++ s) ≡ false
unfolding starts_with
prefix-starts_with s = refl

prefixed-ends_allowed :
    (s : Text) → well_ended s ≡ true → ends_allowed (codes "WireRoute-" ++ s) ≡ true
prefixed-ends_allowed [] h = absurd (ground arith)
prefixed-ends_allowed (c ∷ s) h = ground (
  arith,
  all-append is_allowed (codes "WireRoute-") (c ∷ s),
  prefix-all,
  prefix-starts_with (c ∷ s),
  ends_with_append b'.' (codes "WireRoute-") c s,
)

prefixed-well_ended :
    (s : Text) → well_ended s ≡ true → well_ended (shortened (codes "WireRoute-" ++ s)) ≡ true
prefixed-well_ended s h =
    let name = codes "WireRoute-" ++ s in
    let first = w-shortened (codes "ireRoute-" ++ s) in
    ground (
      arith,
      ends_allowed-shortened name (prefixed-ends_allowed s h),
      length-shortened name,
      ap length (first.1),
    )

prefixed-is_valid :
    (s : Text)
    → well_ended s ≡ true
    → tunnel_name_is_valid (shortened (codes "WireRoute-" ++ s)) ≡ true
prefixed-is_valid s h =
    let name = shortened (codes "WireRoute-" ++ s) in
    let first = w-shortened (codes "ireRoute-" ++ s) in
    valid-well_ended name (prefixed-well_ended s h)
    ∙ ap not (ap is_reserved (first.1) ∙ w-is_reserved (first.0))

-- The name that is tried first is a valid one, whatever the profile is called: the error of a name that
-- cannot be derived is not reached.
pub base_name-is_valid :
    (is_punct : ℕ → Bool) (display_name : Text)
    → tunnel_name_is_valid (base_name is_punct display_name) ≡ true
unfolding base_name
base_name-is_valid is_punct display_name =
    elim (Bool-cases (tunnel_name_is_valid (first_base is_punct display_name))) [
      | inl e ↦ rw e e
      | inr e ↦ rw e (
          prefixed-is_valid (first_base is_punct display_name)
            (first_base-well_ended is_punct display_name))
    ]
