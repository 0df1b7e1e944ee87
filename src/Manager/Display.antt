-- ===== src/Manager/Display.antt =====
-- manager/protocol_v1.go: the name under which a profile is shown, kept in a comment of its
-- configuration.
pub mod Laws
use wireroute_windows.Base.{
  ℕ, List, [], ◌∷◌, ◌++◌, Bool, true, false, ◌||◌, ltb, leb, ◌&&◌, length, drop, any, reverse,
  if◌then◌else◌, Option, none, some,
}
use wireroute_windows.Base.Result.{Result, ok, err, ◌>>=◌, ◌>>◌, reject_if}
use wireroute_windows.Base.Text.{Text, codes, is_empty, has_prefix, trim_space}
use wireroute_windows.Conf.Config.{Config}
use wireroute_windows.Manager.Host.{Error, remote, name_length, name_control_characters}

abbrev pub display_comment : Text
display_comment = codes "# WireRoute-Display-Name: "

abbrev pub maximum_display_runes : ℕ
maximum_display_runes = 128

-- Package encoding/base64, and UTF-8: the bytes of a text, and the text of bytes that have one.
pub record Encodings : Type 0 where
  pub encode_to_string : List ℕ → Text
  pub decode_string : Text → Option (List ℕ)
  pub utf8 : Text → List ℕ
  pub text_of : List ℕ → Option Text

-- `unicode.IsControl`: the class Cc.
unfoldable pub is_control : ℕ → Bool
is_control r = ltb r 0x20 || leb 0x7f r && leb r 0x9f

unfoldable pub validate_display_name : Text → Result Error Text
unfolding is_control
validate_display_name text = do
  let value = trim_space text
  reject_if (is_empty value || ltb maximum_display_runes (length value)) (remote name_length)
  reject_if (any is_control value) (remote name_control_characters)
  ok value

-- The display name that a comment has. Bytes that are no UTF-8 are no valid name either.
module _ (encodings : Encodings) where
  unfoldable pub decoded_name : Option (List ℕ) → Option Text
  decoded_name none = none
  decoded_name (some bytes) = named (encodings.text_of bytes)
    where
      valid : Result Error Text → Option Text
      valid (ok value) = some value
      valid (err _) = none

      named : Option Text → Option Text
      named none = none
      named (some text) = valid (validate_display_name text)

  unfoldable pub name_in_comment : Text → Option Text
  name_in_comment comment =
      let line = trim_space comment in
      if has_prefix line display_comment
      then decoded_name (encodings.decode_string (trim_space (drop (length display_comment) line)))
      else none

  -- The loop over the comments, from the last one on.
  unfoldable pub first_name : List Text → Text → Text
  first_name [] name = name
  first_name (line ∷ lines) name = found (name_in_comment line) (first_name lines name)
    where
      found : Option Text → Text → Text
      found none later = later
      found (some value) later = value

  unfoldable pub display_name : Config → Text
  unfolding first_name
  display_name config = first_name (reverse config.trailing_comments) config.name

  -- The comment that an import adds.
  unfoldable pub with_display_name : Text → Config → Config
  with_display_name name config = record config {
    trailing_comments =
        config.trailing_comments
        ++ ((display_comment ++ encodings.encode_to_string (encodings.utf8 name)) ∷ []);
  }
