-- ===== src/Conf/Store/Paths.antt =====
-- Paths of configurations, and their names.
use wireroute_windows.Base.{
  ◌≡◌, refl, sym, ap, ◌∙◌, ◌++◌, true, length, length-append, append_assoc, leb, arith, Bool-cases,
  inl, inr,
}
use wireroute_windows.Base.Result.{ok, ok-injective, Result-cases}
use wireroute_windows.Base.Text.{Text}
use wireroute_windows.Conf.Name.{tunnel_name_is_valid}
use wireroute_windows.Conf.Name.Valid.{tunnel_name_is_valid_iff}
use wireroute_windows.Conf.Store.{
  config_file_suffix, Files, has_name_before, name_from_path, path_of,
}
use wireroute_windows.Updater.Versions.{has_suffix}
use wireroute_windows.Updater.Versions.Names.{has_suffix-append, trim_suffix-append}

has_name_before-append :
    (name suffix : Text)
    → leb 1 (length name) ≡ true
    → has_name_before (name ++ suffix) suffix ≡ true
unfolding has_name_before
has_name_before-append name suffix h =
    rw (has_suffix-append name suffix) (ground (arith, length-append name suffix))

-- What package path/filepath does for the file of a valid name in the directory of configurations: a path
-- that ends in it, and of which it is the last element.
pub record IsPaths {S : Type 0} (files : Files S) : Type 0 where
  pub joined :
      (w : S) (directory name : Text)
      → files.configurations_directory w ≡ ok directory
      → tunnel_name_is_valid name ≡ true
      → (front : Text) × (files.join directory (name ++ config_file_suffix)
          ≡ front ++ (name ++ config_file_suffix))
  pub base :
      (w : S) (directory name : Text)
      → files.configurations_directory w ≡ ok directory
      → tunnel_name_is_valid name ≡ true
      → files.base (files.join directory (name ++ config_file_suffix)) ≡ name ++ config_file_suffix

module _ {S : Type 0} (files : Files S) (laws : IsPaths files) where
  joined_path :
      (w : S) (directory name : Text)
      → files.configurations_directory w ≡ ok directory
      → tunnel_name_is_valid name ≡ true
      → name_from_path files (files.join directory (name ++ config_file_suffix)) ≡ ok name
  unfolding name_from_path
  joined_path w directory name d h =
      let (front, e) = laws.joined w directory name d h in
      let long : leb 1 (length name) ≡ true =
        ground (arith, sym (tunnel_name_is_valid_iff name) ∙ h) in
      let ended : has_suffix (files.join directory (name ++ config_file_suffix)) config_file_suffix
          ≡ true =
        ap (λ path. has_suffix path config_file_suffix)
          (e ∙ sym (append_assoc front name config_file_suffix))
        ∙ has_suffix-append (front ++ name) config_file_suffix in
      rw
        (
          ended,
          laws.base w directory name d h,
          has_name_before-append name config_file_suffix long,
          trim_suffix-append name config_file_suffix,
          h,
        )
        refl

  -- The name of the path that Path gives for a configuration is that of the configuration, where the
  -- paths are those of Windows.
  pub name_from_path-path_of :
      (name : Text) (w : S) (path : Text)
      → path_of files name w ≡ ok path
      → name_from_path files path ≡ ok name
  unfolding path_of
  name_from_path-path_of name w path h = elim (Bool-cases (tunnel_name_is_valid name)) [
    | inl v ↦ elim (Result-cases (files.configurations_directory w)) [
      | inl (directory, e) ↦
          ap (name_from_path files) (sym (ok-injective (rw (v, e) at h)))
          ∙ joined_path w directory name e v
      | inr (x, e) ↦ absurd (ground arith)
    ]
    | inr v ↦ absurd (ground arith)
  ]
