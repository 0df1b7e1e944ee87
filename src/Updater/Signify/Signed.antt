-- ===== src/Updater/Signify/Signed.antt =====
-- What a list of releases has gone through.
use wireroute_windows.Base.{
  ℕ, ◌≡◌, List, [], ◌∷◌, true, false, not, ◌&&◌, ◌==◌, length, take, drop, All, arith, some,
  Bool-cases, inl, inr,
}
use wireroute_windows.Base.Map.{put}
use wireroute_windows.Base.Result.{
  Result, ok, ◌>>=◌, ◌>>◌, reject_if, require, Holds, Holds-if, Holds->>=, Holds-reject_if,
  Holds_ok, Result-cases, Holds-any,
}
use wireroute_windows.Base.Text.{Text, codes, same, same_iff, split, is_empty}
use wireroute_windows.Updater.Versions.{FileList}
use wireroute_windows.Updater.Signify.{
  Crypto, SignifyError, release_public_key_base64, size_256, cut_at, decode_hex, is_last,
  read_hashes, release_key, second_cut, message, signature_by, read_file_list, is_empty_list,
  too_few_components, invalid_hash,
}

abbrev HashesHaveSize : FileList → Type 0
HashesHaveSize files = All (λ f. length f.1 ≡ size_256) files

-- The files are read from the message, which the release key has signed: the signature is the
-- base64 of the second line, and starts with the type and the id of the key. There are files, and
-- their hashes have 32 bytes.
unfoldable pub IsSigned : Crypto → (input : Text) → FileList → Type 0
IsSigned crypto input files =
    (public_key : List ℕ) × (signature : List ℕ) × (crypto.decode_string release_public_key_base64
      ≡ some public_key)
    × (crypto.decode_string (second_cut input).0 ≡ some signature)
    × (take 10 signature ≡ take 10 public_key)
    × (crypto.verify (drop 10 public_key) (message input) (drop 10 signature) ≡ true)
    × (read_hashes (split b'\n' (message input)) [] ≡ ok files)
    × (is_empty_list files ≡ false)
    × HashesHaveSize files

put-HashesHaveSize :
    (key : Text) (hash : List ℕ) (files : FileList)
    → length hash ≡ size_256
    → HashesHaveSize files
    → HashesHaveSize (put key hash files)
unfolding put
put-HashesHaveSize key hash [] h k = (h, tt)
put-HashesHaveSize key hash (f ∷ files) h k = elim (Bool-cases (same key f.0)) [
  | inl e ↦ rw e (h, k.1)
  | inr e ↦ rw e (k.0, put-HashesHaveSize key hash files h k.1)
]

-- What the loop does with a hash that it has decoded.
abbrev hashed : List Text → Text → FileList → List ℕ → Result SignifyError FileList
hashed lines name hashes hash =
    reject_if (not (length hash == size_256)) invalid_hash
    >> read_hashes lines (put name hash hashes)

read_hashes-HashesHaveSize :
    (lines : List Text) (hashes : FileList)
    → HashesHaveSize hashes
    → Holds HashesHaveSize (read_hashes lines hashes)
unfolding read_hashes
read_hashes-HashesHaveSize [] hashes h = h
read_hashes-HashesHaveSize (line ∷ lines) hashes h =
    let c = cut_at (codes "  ") line in
    let decoded = require (decode_hex c.0) invalid_hash in
    Holds-if HashesHaveSize (is_empty line && is_last lines) (ok hashes)
      (reject_if (not c.2) too_few_components >> (decoded >>= hashed lines c.1 hashes)) (λ _. h)
      (λ _.
        Holds-reject_if HashesHaveSize (not c.2) too_few_components
          (decoded >>= hashed lines c.1 hashes)
          (λ _.
            Holds->>= (λ _. Unit {0}) HashesHaveSize decoded (hashed lines c.1 hashes)
              (Holds-any decoded)
              (λ hash _.
                Holds-reject_if HashesHaveSize (not (length hash == size_256)) invalid_hash
                  (read_hashes lines (put c.1 hash hashes))
                  (λ e.
                    read_hashes-HashesHaveSize lines (put c.1 hash hashes)
                      (put-HashesHaveSize c.1 hash hashes (ground arith) h)))))

release_key_decoded :
    (crypto : Crypto) (public_key : List ℕ)
    → release_key crypto ≡ ok public_key
    → crypto.decode_string release_public_key_base64 ≡ some public_key
unfolding release_key
release_key_decoded crypto public_key h = ground arith

signature_by_decoded :
    (crypto : Crypto) (input : Text) (public_key signature : List ℕ)
    → signature_by crypto input public_key ≡ ok signature
    → (crypto.decode_string (second_cut input).0 ≡ some signature)
      × (take 10 signature ≡ take 10 public_key)
unfolding signature_by
signature_by_decoded crypto input public_key signature h =
    ground (arith, same_iff (take 10 signature) (take 10 public_key))

-- The stages of a list that was read.
stages :
    (crypto : Crypto) (input : Text) (files : FileList)
    → read_file_list crypto input ≡ ok files
    → (public_key : List ℕ) × (signature : List ℕ) × (release_key crypto ≡ ok public_key)
      × (signature_by crypto input public_key ≡ ok signature)
      × (crypto.verify (drop 10 public_key) (message input) (drop 10 signature) ≡ true)
      × (read_hashes (split b'\n' (message input)) [] ≡ ok files)
      × (is_empty_list files ≡ false)
unfolding read_file_list
stages crypto input files h = elim (Result-cases (release_key crypto)) [
  | inr (e, p) ↦ absurd (ground arith)
  | inl (k, p) ↦ elim (Result-cases (signature_by crypto input k)) [
    | inr (e, q) ↦ absurd (ground arith)
    | inl (s, q) ↦ (k, s, p, q, ground arith, ground arith, ground arith)
  ]
]

-- A list of releases that readFileList returns stands in a message that the release key has signed,
-- is not empty, and gives every release a hash of 32 bytes.
pub read_file_list-IsSigned :
    (crypto : Crypto) (input : Text) (files : FileList)
    → read_file_list crypto input ≡ ok files
    → IsSigned crypto input files
unfolding IsSigned
read_file_list-IsSigned crypto input files h =
    let (k, s, p, q, verified, hashes, some_files) = stages crypto input files h in
    let decoded = signature_by_decoded crypto input k s q in
    (
      k,
      s,
      release_key_decoded crypto k p,
      decoded.0,
      decoded.1,
      verified,
      hashes,
      some_files,
      Holds_ok HashesHaveSize hashes
          (read_hashes-HashesHaveSize (split b'\n' (message input)) [] tt),
    )
