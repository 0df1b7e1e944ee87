-- ===== src/Manager/Display/Laws.antt =====
-- The display name that an import keeps is the one that is shown.
use wireroute_windows.Base.{
  drop-append, ℕ, List, [], ◌∷◌, ◌++◌, ◌≡◌, refl, sym, ap, ◌∙◌, false, ◌||◌, ltb, length, any,
  arith, some,
}
use mathlib.Core.List.{reverse-append}
use wireroute_windows.Base.Result.{ok, ◌>>◌, reject_if, Holds-reject_if, Holds_ok}
use wireroute_windows.Base.Text.{Text, codes, is_empty, is_space, trim_space, trim}
use wireroute_windows.Base.Trim.{has_prefix-append, trim_idempotent, trim_fixed, trim_none}
use wireroute_windows.Conf.Config.{Config}
use wireroute_windows.Manager.Host.{remote, name_length, name_control_characters}
use wireroute_windows.Manager.Display.{
  display_comment, maximum_display_runes, Encodings, is_control, validate_display_name,
  decoded_name, name_in_comment, first_name, display_name, with_display_name,
}

trim_space_idempotent : (s : Text) → trim_space (trim_space s) ≡ trim_space s
unfolding trim_space trim
trim_space_idempotent s = trim_idempotent is_space s

validated :
    (s v : Text)
    → validate_display_name s ≡ ok v
    → (trim_space s ≡ v) × (is_empty (trim_space s) ≡ false)
unfolding validate_display_name
validated s v h =
    let value = trim_space s in
    let P : Text → Type 0 = λ v. (value ≡ v) × (is_empty value ≡ false) in
    let bad = any is_control value in
    Holds_ok P h (
      Holds-reject_if P (is_empty value || ltb maximum_display_runes (length value))
        (remote name_length) (reject_if bad (remote name_control_characters) >> ok value)
        (λ e.
          Holds-reject_if P bad (remote name_control_characters) (ok value)
            (λ _. (refl, ground arith))))

validate_display_name-trim_space :
    (s v : Text) → trim_space v ≡ trim_space s → validate_display_name v ≡ validate_display_name s
unfolding validate_display_name
validate_display_name-trim_space s v e = rw e refl

-- A valid name is valid as it is returned.
pub validate_again : (s v : Text) → validate_display_name s ≡ ok v → validate_display_name v ≡ ok v
validate_again s v h =
    let e = (validated s v h).0 in
    validate_display_name-trim_space s v (ap trim_space (sym e) ∙ trim_space_idempotent s) ∙ h

-- What base64 and UTF-8 promise: what is encoded is decoded, and base64 has no spaces.
pub record IsLawful (encodings : Encodings) : Type 0 where
  pub decoded :
      (bytes : List ℕ) → encodings.decode_string (encodings.encode_to_string bytes) ≡ some bytes
  pub no_spaces : (bytes : List ℕ) → any is_space (encodings.encode_to_string bytes) ≡ false
  pub text : (s : Text) → encodings.text_of (encodings.utf8 s) ≡ some s
  pub decoded_empty : encodings.decode_string [] ≡ some []
  pub text_empty : encodings.text_of [] ≡ some []

pub validate_nonempty : (s v : Text) → validate_display_name s ≡ ok v → is_empty v ≡ false
validate_nonempty s v h = rw (← (validated s v h).0) (validated s v h).1

trim_space_none : (s : Text) → any is_space s ≡ false → trim_space s ≡ s
unfolding trim_space trim
trim_space_none s h = trim_none is_space s h

trim_space-display_comment :
    (s : Text)
    → any is_space s ≡ false
    → is_empty s ≡ false
    → trim_space (display_comment ++ s) ≡ display_comment ++ s
unfolding trim_space trim is_space
trim_space-display_comment s h k =
    trim_fixed is_space b'#' (codes " WireRoute-Display-Name: ") s refl h k

module _ (encodings : Encodings) (lawful : IsLawful encodings) where
  encoded_nonempty :
      (v : Text)
      → is_empty v ≡ false
      → is_empty (encodings.encode_to_string (encodings.utf8 v)) ≡ false
  encoded_nonempty v h = nonempty (encodings.encode_to_string (encodings.utf8 v)) refl
    where
      nonempty : (e : Text) → encodings.encode_to_string (encodings.utf8 v) ≡ e → is_empty e ≡ false
      nonempty [] p = absurd (
          ground (
            arith,
            lawful.decoded (encodings.utf8 v),
            lawful.decoded_empty,
            lawful.text v,
            lawful.text_empty,
          ))
      nonempty (c ∷ e) p = refl

  name_in_comment-encoded :
      (v : Text)
      → validate_display_name v ≡ ok v
      → name_in_comment encodings (display_comment ++ encodings.encode_to_string (encodings.utf8 v))
        ≡ some v
  unfolding name_in_comment decoded_name
  name_in_comment-encoded v h =
      let encoded = encodings.encode_to_string (encodings.utf8 v) in
      let no_spaces = lawful.no_spaces (encodings.utf8 v) in
      rw
        (
          trim_space-display_comment encoded no_spaces
              (encoded_nonempty v (validate_nonempty v v h)),
          has_prefix-append display_comment encoded,
          drop-append display_comment encoded,
          trim_space_none encoded no_spaces,
          lawful.decoded (encodings.utf8 v),
          lawful.text v,
          h,
        )
        refl

  -- After an import under a name, that name is shown, whatever comments and name the configuration had.
  pub display_name-with_display_name :
      (s v : Text) (config : Config)
      → validate_display_name s ≡ ok v
      → display_name encodings (with_display_name encodings v config) ≡ v
  unfolding display_name with_display_name first_name
  display_name-with_display_name s v config h =
      let comment = display_comment ++ encodings.encode_to_string (encodings.utf8 v) in
      rw
        (
          reverse-append config.trailing_comments (comment ∷ []),
          name_in_comment-encoded v (validate_again s v h),
        )
        refl
