-- ===== src/Updater/Versions.antt =====
-- updater/versions.go: is a release newer, and which release is offered.
pub mod Names
pub mod Newer
pub mod Updates
pub mod Found
use wireroute_windows.Base.{
  ℕ, zero, suc, ◌-◌, ◌^◌, List, [], ◌∷◌, ◌++◌, reverse, Bool, true, false, not, ◌&&◌, ◌==◌, ltb,
  length, get_elem?, take, drop, if◌then◌else◌, Option, none, some,
}
use wireroute_windows.Base.Numbers.{parse_digits}
use wireroute_windows.Base.Result.{Result, ok, err, ◌>>=◌, ◌>>◌, reject_if}
use wireroute_windows.Base.Text.{Text, codes, is_empty, split, has_prefix}

pub data VersionError : Type 0 where
  empty_part : VersionError
  invalid_part : VersionError
  too_long : VersionError

-- Part i of a version, and 0 behind the last.
unfoldable pub part_number : Option Text → Result VersionError ℕ
part_number none = ok 0
part_number (some part) =
    if is_empty part then err empty_part else number (parse_digits (2 ^ 16) part)
  where
    number : Option ℕ → Result VersionError ℕ
    number (some n) = ok n
    number none = err invalid_part

-- The loop from part i on; a split is never empty, so the source's first check never fails.
unfoldable pub newer_loop : (todo i : ℕ) → (candidate ours : List Text) → Result VersionError Bool
newer_loop zero i candidate ours = ok false
newer_loop (suc todo) i candidate ours = do
  c ← part_number (get_elem? candidate i)
  o ← part_number (get_elem? ours i)
  let later = newer_loop todo (suc i) candidate ours
  if c == o then later else ok (ltb o c)

unfoldable pub max : ℕ → ℕ → ℕ
max a b = if ltb a b then b else a

unfoldable pub newer_than : (ours candidate : Text) → Result VersionError Bool
newer_than ours candidate =
    let c = split b'.' candidate in
    let o = split b'.' ours in newer_loop (max (length o) (length c)) 0 c o

abbrev pub number : Text
number = codes "1.1"

unfoldable pub version_newer_than_us : Text → Result VersionError Bool
version_newer_than_us candidate = newer_than number candidate

-- `strings.HasSuffix`, `strings.TrimPrefix` and `strings.TrimSuffix`.
unfoldable pub has_suffix : Text → Text → Bool
has_suffix s suffix = has_prefix (reverse s) (reverse suffix)

unfoldable pub trim_prefix : Text → Text → Text
trim_prefix s prefix = if has_prefix s prefix then drop (length prefix) s else s

unfoldable pub trim_suffix : Text → Text → Text
trim_suffix s suffix = if has_suffix s suffix then take (length s - length suffix) s else s

abbrev pub msi_suffix : Text
msi_suffix = codes ".msi"

-- `fmt.Sprintf(msiArchPrefix, version.Arch())`.
unfoldable pub msi_arch_prefix : Text → Text
msi_arch_prefix arch = codes "wireguard-" ++ arch ++ codes "-"

-- A hash is the list of its bytes.
abbrev pub FileList : Type 0
FileList = List (Text × List ℕ)

unfoldable pub is_msi : (arch name : Text) → Bool
is_msi arch name = has_prefix name (msi_arch_prefix arch) && has_suffix name msi_suffix

unfoldable pub msi_version : (arch name : Text) → Text
msi_version arch name = trim_suffix (trim_prefix name (msi_arch_prefix arch)) msi_suffix

-- The check of one candidate.
unfoldable pub is_update : (arch name : Text) → Result VersionError Bool
is_update arch name =
    if is_msi arch name
    then (do
      reject_if (ltb 128 (length (msi_version arch name))) too_long
      version_newer_than_us (msi_version arch name))
    else ok false

-- The candidates stand in the order that the loop over the map takes them in, whatever it is.
unfoldable pub find_candidate :
    (arch : Text) → FileList → Result VersionError (Option (Text × List ℕ))
find_candidate arch [] = ok none
find_candidate arch (f ∷ candidates) = do
  let later = find_candidate arch candidates
  newer ← is_update arch f.0
  if newer then ok (some f) else later
