-- ===== src/Updater/Signify.antt =====
-- updater/signify.go: the signed list of releases.
pub mod Signed
use wireroute_windows.Base.{
  ℕ, ◌+◌, ◌*◌, ◌-◌, List, [], ◌∷◌, Bool, true, false, not, ◌&&◌, ◌||◌, ◌==◌, leb, length, take,
  drop, get_or, if◌then◌else◌, Option, none, some,
}
use wireroute_windows.Base.Map.{put}
use wireroute_windows.Base.Result.{Result, ok, err, ◌>>=◌, ◌>>◌, reject_if, require}
use wireroute_windows.Base.Text.{Text, codes, same, is_empty, cut, split, has_prefix}
use wireroute_windows.Updater.Versions.{FileList}

-- What the updater takes from encoding/base64 and crypto/ed25519.
pub record Crypto : Type 0 where
  pub decode_string : Text → Option (List ℕ)
  pub verify : (public_key message signature : List ℕ) → Bool

pub data SignifyError : Type 0 where
  invalid_public_key : SignifyError
  too_few_lines : SignifyError
  missing_untrusted_comment : SignifyError
  not_base64 : SignifyError
  wrong_signature_bytes : SignifyError
  invalid_signature : SignifyError
  too_few_components : SignifyError
  invalid_hash : SignifyError
  no_file_hashes : SignifyError

abbrev pub release_public_key_base64 : Text
release_public_key_base64 = codes "RWRNqGKtBXftKTKPpBPGDMe8jHLnFQ0EdRy8Wg0apV6vTDFLAODD83G4"

-- The sizes of package ed25519 and of blake2b's 256-bit hash.
abbrev pub public_key_size : ℕ
public_key_size = 32

abbrev pub signature_size : ℕ
signature_size = 64

abbrev pub size_256 : ℕ
size_256 = 32

-- `strings.Cut` at a separator of more than one byte.
unfoldable pub cut_at : Text → Text → Text × Text × Bool
cut_at sep [] = ([], [], false)
cut_at sep (c ∷ s) =
    let rest = cut_at sep s in
    if has_prefix (c ∷ s) sep
    then ([], drop (length sep) (c ∷ s), true)
    else (c ∷ rest.0, rest.1, rest.2)

unfoldable pub hex_digit : ℕ → Option ℕ
hex_digit c =
    if leb b'0' c && leb c b'9'
    then some (c - b'0')
    else (if leb b'a' c && leb c b'f'
        then some (c - b'a' + 10)
        else (if leb b'A' c && leb c b'F' then some (c - b'A' + 10) else none))

-- `hex.DecodeString`: pairs of digits.
unfoldable pub decode_hex : Text → Option (List ℕ)
decode_hex [] = some []
decode_hex (c ∷ []) = none
decode_hex (c ∷ (d ∷ s)) = byte (hex_digit c) (hex_digit d) (decode_hex s)
  where
    byte : Option ℕ → Option ℕ → Option (List ℕ) → Option (List ℕ)
    byte (some high) (some low) (some bytes) = some ((16 * high + low) ∷ bytes)
    byte _ _ _ = none

abbrev pub is_last : List Text → Bool
is_last [] = true
is_last (line ∷ lines) = false

-- The loop over the lines of the message; an empty last line ends it.
unfoldable pub read_hashes : List Text → FileList → Result SignifyError FileList
read_hashes [] hashes = ok hashes
read_hashes (line ∷ lines) hashes =
    let c = cut_at (codes "  ") line in
    if is_empty line && is_last lines then ok hashes else (do
      reject_if (not c.2) too_few_components
      hash ← require (decode_hex c.0) invalid_hash
      reject_if (not (length hash == size_256)) invalid_hash
      read_hashes lines (put c.1 hash hashes))

abbrev pub is_empty_list : FileList → Bool
is_empty_list [] = true
is_empty_list (f ∷ files) = false

-- The release key, whose first bytes are its type and its id.
unfoldable pub release_key : Crypto → Result SignifyError (List ℕ)
release_key crypto = do
  public_key ← require (crypto.decode_string release_public_key_base64) invalid_public_key
  reject_if
      (not (length public_key == public_key_size + 10)
        || not (get_or public_key 0 0 == b'E')
        || not (get_or public_key 1 0 == b'd'))
      invalid_public_key
  ok public_key

-- The three lines of `bytes.SplitN(input, "\n", 3)`: the third is all that follows.
abbrev pub first_cut : Text → Text × Text × Bool
first_cut input = cut b'\n' input

abbrev pub second_cut : Text → Text × Text × Bool
second_cut input = cut b'\n' (first_cut input).1

abbrev pub message : Text → Text
message input = (second_cut input).1

-- The signature of the second line, which is to name the key.
unfoldable pub signature_by :
    Crypto → (input : Text) → (public_key : List ℕ) → Result SignifyError (List ℕ)
signature_by crypto input public_key = do
  reject_if (not ((first_cut input).2 && (second_cut input).2)) too_few_lines
  reject_if (not (has_prefix (first_cut input).0 (codes "untrusted comment: ")))
      missing_untrusted_comment
  signature ← require (crypto.decode_string (second_cut input).0) not_base64
  reject_if
      (not (length signature == signature_size + 10)
        || not (same (take 10 signature) (take 10 public_key)))
      wrong_signature_bytes
  ok signature

unfoldable pub read_file_list : Crypto → (input : Text) → Result SignifyError FileList
read_file_list crypto input = do
  public_key ← release_key crypto
  signature ← signature_by crypto input public_key
  reject_if (not (crypto.verify (drop 10 public_key) (message input) (drop 10 signature)))
      invalid_signature
  hashes ← read_hashes (split b'\n' (message input)) []
  reject_if (is_empty_list hashes) no_file_hashes
  ok hashes
