-- ===== src/Conf/Store.antt =====
-- conf/store.go: the files of the stored configurations.
pub mod Paths
use wireroute_windows.Base.{
  ℕ, List, [], ◌∷◌, ◌++◌, Bool, true, false, not, ◌&&◌, ◌||◌, ◌==◌, ltb, length, if◌then◌else◌,
  Option, none, some,
}
use wireroute_windows.Base.Action.{Action, lift, ◌>>=◌, ◌>>◌}
use wireroute_windows.Base.Result.{Result, ok, err, reject_if}
use wireroute_windows.Base.Text.{Text, codes}
use wireroute_windows.Conf.Config.{Config}
use wireroute_windows.Conf.Name.{tunnel_name_is_valid}
use wireroute_windows.Conf.Parser.{ParseError, Library}
use wireroute_windows.Conf.Parser.Quick.{from_wg_quick}
use wireroute_windows.Conf.Writer.{Printer, to_wg_quick}
use wireroute_windows.Updater.Versions.{has_suffix, trim_suffix}

abbrev pub config_file_suffix : Text
config_file_suffix = codes ".conf.dpapi"

abbrev pub config_file_unencrypted_suffix : Text
config_file_unencrypted_suffix = codes ".conf"

-- `io` is an error of the system, by its number.
pub data StoreError : Type 0 where
  path_suffix : StoreError
  name_not_valid : StoreError
  io : ℕ → StoreError
  not_parsed : ParseError → StoreError

-- An entry of a directory: its name, and, if its information can be read, whether its user, group or
-- others may read it.
pub record Entry : Type 0 where
  pub name : Text
  pub is_regular : Bool
  pub is_readable : Option Bool

-- Packages path/filepath and os, DPAPI, the decoders of other encodings, and what path_windows.go and
-- filewriter_windows.go do, on a state S.
pub record Files (S : Type 0) : Type 0 where
  pub base : Text → Text
  pub join : (directory file : Text) → Text
  pub decoders : List (Text → Option Text)
  pub configurations_directory : S → Result StoreError Text
  pub read_dir : (directory : Text) → S → Result StoreError (List Entry)
  pub read_file : (path : Text) → S → Result StoreError Text
  pub encrypt : (bytes name : Text) → Result StoreError Text
  pub decrypt : (bytes name : Text) → Result StoreError Text
  pub write_locked_down_file :
      (path : Text) → (overwrite : Bool) → (bytes : Text) → Action S StoreError (Unit {0})
  pub remove : (path : Text) → Action S StoreError (Unit {0})

-- `len(name) > len(suffix) && strings.HasSuffix(name, suffix)`.
unfoldable pub has_name_before : (name suffix : Text) → Bool
has_name_before name suffix = ltb (length suffix) (length name) && has_suffix name suffix

-- The other encodings are tried one behind the other.
unfoldable pub from_encodings :
    Library → List (Text → Option Text) → (s name : Text) → ParseError → Result ParseError Config
from_encodings lib [] s name first = err first
from_encodings lib (decode ∷ decoders) s name first =
    decoded (decode s) (from_encodings lib decoders s name first)
  where
    parsed : Result ParseError Config → Result ParseError Config → Result ParseError Config
    parsed (ok c) later = ok c
    parsed (err _) later = later

    decoded : Option Text → Result ParseError Config → Result ParseError Config
    decoded none later = later
    decoded (some t) later = parsed (from_wg_quick lib t name) later

unfoldable pub from_wg_quick_with_unknown_encoding :
    Library → List (Text → Option Text) → (s name : Text) → Result ParseError Config
from_wg_quick_with_unknown_encoding lib decoders s name = first (from_wg_quick lib s name)
  where
    first : Result ParseError Config → Result ParseError Config
    first (ok c) = ok c
    first (err e) = from_encodings lib decoders s name e

module _ {S : Type 0} (files : Files S) where
  unfoldable pub name_from_path : (path : Text) → Result StoreError Text
  name_from_path path =
      let name = files.base path in
      if not (
        has_name_before name config_file_suffix
        || has_name_before name config_file_unencrypted_suffix)
      then err path_suffix
      else valid (
          if has_suffix path config_file_suffix
          then trim_suffix name config_file_suffix
          else trim_suffix name config_file_unencrypted_suffix)
    where
      valid : Text → Result StoreError Text
      valid name = if not (tunnel_name_is_valid name) then err name_not_valid else ok name

  unfoldable pub path_is_encrypted : (path : Text) → Bool
  path_is_encrypted path = has_suffix (files.base path) config_file_suffix

  -- The entries that are configurations.
  unfoldable pub names_of : List Entry → List Text
  names_of [] = []
  names_of (file ∷ rest) = named (name_from_path file.name) file.is_readable (names_of rest)
    where
      readable : Option Bool → Text → List Text → List Text
      readable none name later = later
      readable (some r) name later = if r then name ∷ later else later

      named : Result StoreError Text → Option Bool → List Text → List Text
      named (err _) info later = later
      named (ok name) info later = if not file.is_regular then later else readable info name later

  unfoldable pub list_config_names : S → Result StoreError (List Text)
  list_config_names w = in_directory (files.configurations_directory w)
    where
      listed : Result StoreError (List Entry) → Result StoreError (List Text)
      listed (err e) = err e
      listed (ok entries) = ok (names_of entries)

      in_directory : Result StoreError Text → Result StoreError (List Text)
      in_directory (err e) = err e
      in_directory (ok directory) = listed (files.read_dir directory w)

  -- The path of a configuration, for `LoadFromName`, `Save`, `Path` and `DeleteName`.
  unfoldable pub path_of : (name : Text) → S → Result StoreError Text
  path_of name w =
      if not (tunnel_name_is_valid name)
      then err name_not_valid
      else in_directory (files.configurations_directory w)
    where
      in_directory : Result StoreError Text → Result StoreError Text
      in_directory (err e) = err e
      in_directory (ok directory) = ok (files.join directory (name ++ config_file_suffix))

  unfoldable pub load_from_path : Library → (path : Text) → S → Result StoreError Config
  load_from_path lib path w = named (name_from_path path)
    where
      parsed : Result ParseError Config → Result StoreError Config
      parsed (err e) = err (not_parsed e)
      parsed (ok c) = ok c

      decrypted : (name : Text) → Result StoreError Text → Result StoreError Config
      decrypted name (err e) = err e
      decrypted name (ok text) =
          parsed (from_wg_quick_with_unknown_encoding lib files.decoders text name)

      read : (name : Text) → Result StoreError Text → Result StoreError Config
      read name (err e) = err e
      read name (ok bytes) =
          decrypted name
            (if has_suffix path config_file_suffix then files.decrypt bytes name else ok bytes)

      named : Result StoreError Text → Result StoreError Config
      named (err e) = err e
      named (ok name) = read name (files.read_file path w)

  unfoldable pub load_from_name : Library → (name : Text) → S → Result StoreError Config
  load_from_name lib name w = at_path (path_of name w)
    where
      at_path : Result StoreError Text → Result StoreError Config
      at_path (err e) = err e
      at_path (ok path) = load_from_path lib path w

  unfoldable pub save : Printer → Config → (overwrite : Bool) → Action S StoreError (Unit {0})
  save printer config overwrite w = at_path (path_of config.name w)
    where
      encrypted : (path : Text) → Result StoreError Text → Result StoreError (Unit {0}) × S
      encrypted path (err e) = (err e, w)
      encrypted path (ok bytes) = files.write_locked_down_file path overwrite bytes w

      at_path : Result StoreError Text → Result StoreError (Unit {0}) × S
      at_path (err e) = (err e, w)
      at_path (ok path) = encrypted path (files.encrypt (to_wg_quick printer config) config.name)

  unfoldable pub delete_name : (name : Text) → Action S StoreError (Unit {0})
  delete_name name w = at_path (path_of name w)
    where
      at_path : Result StoreError Text → Result StoreError (Unit {0}) × S
      at_path (err e) = (err e, w)
      at_path (ok path) = files.remove path w
