-- ===== src/Updater/Tests.antt =====
-- The theorems on the updater at concrete inputs, and runs of its code.
use wireroute_windows.Base.{
  ℕ, ◌≡◌, refl, List, [], ◌∷◌, ◌++◌, true, false, ◌&&◌, length, replicate, some, none,
  if◌then◌else◌,
}
use wireroute_windows.Base.Map.{put}
use wireroute_windows.Base.Numbers.{parse_digits}
use wireroute_windows.Base.Result.{ok}
use wireroute_windows.Base.Text.{Text, codes, same, cut, split, has_prefix}
use wireroute_windows.Updater.Versions.{
  FileList, part_number, newer_loop, max, newer_than, version_newer_than_us, is_update, is_msi,
  msi_version, find_candidate, has_suffix, trim_prefix, trim_suffix, msi_arch_prefix,
}
use wireroute_windows.Updater.Versions.Newer.{IsLater}
use wireroute_windows.Updater.Versions.Updates.{updates-IsLater}
use wireroute_windows.Updater.Versions.Found.{Tells, find_candidate-Tells}
use wireroute_windows.Updater.Signify.{
  Crypto, release_public_key_base64, cut_at, hex_digit, decode_hex, read_hashes, release_key,
  signature_by, read_file_list,
}
use wireroute_windows.Updater.Signify.Signed.{IsSigned, read_file_list-IsSigned}

abbrev old_msi : Text × List ℕ
old_msi = (codes "wireguard-amd64-1.0.9.msi", replicate 32 1)

abbrev new_msi : Text × List ℕ
new_msi = (codes "wireguard-amd64-1.1.1.msi", replicate 32 2)

-- The candidates, and what is found among them.
finds :
    (find_candidate (codes "amd64") (old_msi ∷ new_msi ∷ []) ≡ ok (some new_msi))
    × (find_candidate (codes "arm64") (old_msi ∷ new_msi ∷ []) ≡ ok none)
    × (newer_than (codes "1.9") (codes "1.10") ≡ ok true)
unfolding find_candidate is_update is_msi msi_version version_newer_than_us newer_than newer_loop
    max part_number parse_digits has_suffix has_prefix trim_prefix trim_suffix msi_arch_prefix split
finds = (refl, refl, refl)

find_candidate-Tells_example :
    Tells
      (codes "amd64")
      (old_msi ∷ new_msi ∷ [])
      (find_candidate (codes "amd64") (old_msi ∷ new_msi ∷ []))
find_candidate-Tells_example = find_candidate-Tells (codes "amd64") (old_msi ∷ new_msi ∷ [])

-- From 1.9 by 1.10 and 1.10.1 to 2.
each_newer :
    (newer_than (codes "1.9") (codes "1.10") ≡ ok true)
    × (newer_than (codes "1.10") (codes "1.10.1") ≡ ok true)
    × (newer_than (codes "1.10.1") (codes "2") ≡ ok true)
unfolding newer_than newer_loop max part_number parse_digits split
each_newer = (refl, refl, refl)

updates-IsLater_example :
    IsLater (codes "1.9") (codes "2")
    × (newer_than (codes "1.9") (codes "2") ≡ ok true)
    × (newer_than (codes "2") (codes "1.9") ≡ ok false)
updates-IsLater_example =
    updates-IsLater (codes "1.9") (codes "1.10") (codes "1.10.1" ∷ codes "2" ∷ [])
      (each_newer.0, (each_newer.1, (each_newer.2, tt)))

abbrev key_head : List ℕ
key_head = b'E' ∷ b'd' ∷ replicate 8 3

-- A signature is the head of the key and 64 times the number of the characters of its base64.
abbrev sample_crypto : Crypto
sample_crypto = record {
  decode_string = λ s.
      if same s release_public_key_base64
      then some (key_head ++ replicate 32 5)
      else some (key_head ++ replicate 64 (length s));
  verify = λ k m s. same s (replicate 64 4) && same k (replicate 32 5);
}

abbrev list_text : Text
list_text =
    codes "untrusted comment: list\nabcd\n"
    ++ replicate 64 b'f'
    ++ codes "  wireguard-amd64-1.1.1.msi\n"

abbrev listed : FileList
listed = (codes "wireguard-amd64-1.1.1.msi", replicate 32 255) ∷ []

read : read_file_list sample_crypto list_text ≡ ok listed
unfolding read_file_list release_key signature_by read_hashes cut_at hex_digit decode_hex put same
    cut split has_prefix
read = refl

read_file_list-IsSigned_example : IsSigned sample_crypto list_text listed
read_file_list-IsSigned_example = read_file_list-IsSigned sample_crypto list_text listed read
