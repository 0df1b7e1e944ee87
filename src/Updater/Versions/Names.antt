-- ===== src/Updater/Versions/Names.antt =====
-- The names of releases: prefixes and suffixes, and the version between them.
use mathlib.Core.List.{reverse-append, reverse-reverse}
use wireroute_windows.Base.{
  ◌-◌, ◌≡◌, refl, sym, ap, ◌∙◌, [], ◌∷◌, ◌++◌, reverse, true, drop, take, length, length-append,
  take-append, append_assoc, arith,
}
use wireroute_windows.Base.Text.{Text, codes, has_prefix}
use wireroute_windows.Base.Trim.{has_prefix-append}
use wireroute_windows.Updater.Versions.{
  has_suffix, trim_prefix, trim_suffix, msi_suffix, msi_arch_prefix, is_msi, msi_version,
}

pub has_suffix-append : (s t : Text) → has_suffix (s ++ t) t ≡ true
unfolding has_suffix
has_suffix-append s t = rw (reverse-append s t) (has_prefix-append (reverse t) (reverse s))

pub trim_suffix-append : (s t : Text) → trim_suffix (s ++ t) t ≡ s
unfolding trim_suffix
trim_suffix-append s t = rw (has_suffix-append s t) (
    ap (λ n. take n (s ++ t)) {x = length (s ++ t) - length t} {y = length s}
      (omega (arith, length-append s t))
    ∙ take-append s t)

drop-append : (s t : Text) → drop (length s) (s ++ t) ≡ t
drop-append [] t = refl
drop-append (c ∷ s) t = drop-append s t

trim_prefix-append : (s t : Text) → trim_prefix (s ++ t) s ≡ t
unfolding trim_prefix
trim_prefix-append s t = rw (has_prefix-append s t) (drop-append s t)

has_prefix-split : (s p : Text) → has_prefix s p ≡ true → s ≡ p ++ drop (length p) s
unfolding has_prefix
has_prefix-split s [] h = refl
has_prefix-split [] (p ∷ ps) h = absurd (ground arith)
has_prefix-split (c ∷ s) (p ∷ ps) h =
    ap (λ d. d ∷ s) {x = c} {y = p} (ground arith)
    ∙ ap (λ r. p ∷ r) (has_prefix-split s ps (ground arith))

-- The name of the release of a version for an architecture.
abbrev pub msi_name : (arch v : Text) → Text
msi_name arch v = codes "wireguard-" ++ (arch ++ (codes "-" ++ (v ++ codes ".msi")))

msi_name_split : (arch v : Text) → msi_name arch v ≡ msi_arch_prefix arch ++ (v ++ msi_suffix)
unfolding msi_arch_prefix
msi_name_split arch v =
    sym (ap (λ r. codes "wireguard-" ++ r) (append_assoc arch (codes "-") (v ++ msi_suffix)))

pub is_msi-msi_name : (arch v : Text) → is_msi arch (msi_name arch v) ≡ true
unfolding is_msi
is_msi-msi_name arch v =
    rw
      (
        msi_name_split arch v,
        has_prefix-append (msi_arch_prefix arch) (v ++ msi_suffix),
        sym (append_assoc (msi_arch_prefix arch) v msi_suffix),
      )
      (has_suffix-append (msi_arch_prefix arch ++ v) msi_suffix)

pub msi_version-msi_name : (arch v : Text) → msi_version arch (msi_name arch v) ≡ v
unfolding msi_version
msi_version-msi_name arch v =
    rw (msi_name_split arch v, trim_prefix-append (msi_arch_prefix arch) (v ++ msi_suffix))
      (trim_suffix-append v msi_suffix)

-- The suffix, read from behind, does not reach to the dash in front of it.
suffix_behind :
    (s r : Text)
    → has_prefix (s ++ (b'-' ∷ r)) (codes "ism.") ≡ true
    → has_prefix s (codes "ism.") ≡ true
unfolding has_prefix
suffix_behind [] r h = h
suffix_behind (c ∷ []) r h = absurd (ground arith)
suffix_behind (c ∷ d ∷ []) r h = absurd (ground arith)
suffix_behind (c ∷ d ∷ e ∷ []) r h = absurd (ground arith)
suffix_behind (c ∷ d ∷ e ∷ f ∷ s) r h = h

-- The prefix, read from behind, begins with a dash.
reverse-msi_arch_prefix :
    (arch : Text) → reverse (msi_arch_prefix arch) ≡ b'-' ∷ reverse (codes "wireguard-" ++ arch)
unfolding msi_arch_prefix
reverse-msi_arch_prefix arch =
    ap reverse (sym (append_assoc (codes "wireguard-") arch (codes "-")))
    ∙ reverse-append (codes "wireguard-" ++ arch) (codes "-")

-- Behind the prefix, the name ends with the suffix.
suffix_of_rest :
    (arch rest : Text)
    → has_suffix (msi_arch_prefix arch ++ rest) msi_suffix ≡ true
    → (v : Text) × (rest ≡ v ++ msi_suffix)
unfolding has_suffix
suffix_of_rest arch rest h =
    let name_behind =
      reverse-append (msi_arch_prefix arch) rest
      ∙ ap (λ r. reverse rest ++ r) (reverse-msi_arch_prefix arch) in
    let behind : has_prefix (reverse rest) (codes "ism.") ≡ true =
      suffix_behind (reverse rest) (reverse (codes "wireguard-" ++ arch))
        (ap (λ r. has_prefix r (codes "ism.")) (sym name_behind) ∙ h) in
    (
      reverse (drop 4 (reverse rest)),
      sym (reverse-reverse rest)
          ∙ ap reverse (has_prefix-split (reverse rest) (codes "ism.") behind)
          ∙ reverse-append (codes "ism.") (drop 4 (reverse rest)),
    )

pub is_msi_split :
    (arch name : Text) → is_msi arch name ≡ true → (v : Text) × (name ≡ msi_name arch v)
unfolding is_msi
is_msi_split arch name h =
    let front = has_prefix-split name (msi_arch_prefix arch) (ground arith) in
    let ended : has_suffix name msi_suffix ≡ true = ground arith in
    let (v, e) =
      suffix_of_rest arch (drop (length (msi_arch_prefix arch)) name)
        (ap (λ r. has_suffix r msi_suffix) (sym front) ∙ ended) in
    (v, front ∙ ap (λ r. msi_arch_prefix arch ++ r) e ∙ sym (msi_name_split arch v))
