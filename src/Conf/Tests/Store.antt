-- ===== src/Conf/Tests/Store.antt =====
-- The theorem on paths at a directory, and runs of the writer and of the store.
use wireroute_windows.Base.{◌≡◌, refl, [], ◌∷◌, drop}
use wireroute_windows.Base.Numbers.{itoa}
use wireroute_windows.Base.Result.{ok}
use wireroute_windows.Base.Text.{codes, same}
use wireroute_windows.Conf.Config.Operations.{is_zero, endpoint_is_empty}
use wireroute_windows.Conf.Name.{
  tunnel_name_is_valid, is_reserved, has_special_chars, contains_any, starts_with, ends_with,
  matches_allowed_name_format, is_allowed, ascii_lower,
}
use wireroute_windows.Conf.Parser.Comments.{comments_of}
use wireroute_windows.Conf.Store.{Files, name_from_path, path_of}
use wireroute_windows.Conf.Store.Paths.{IsPaths, name_from_path-path_of}
use wireroute_windows.Conf.Tests.Samples.{sample_config}
use wireroute_windows.Conf.Writer.{
  Printer, joined, lines_of, write_line, write_field, write_list, write_number, write_script,
  write_interface, write_peer, write_peers, to_wg_quick,
}

-- Every file stands in the root.
abbrev root : Files (Unit {0})
root = record {
  base = drop 1;
  join = λ directory file. b'\\' ∷ file;
  decoders = [];
  configurations_directory = λ w. ok (codes "");
  read_dir = λ directory w. ok [];
  read_file = λ path w. ok [];
  encrypt = λ bytes name. ok bytes;
  decrypt = λ bytes name. ok bytes;
  write_locked_down_file = λ path overwrite bytes w. (ok tt, w);
  remove = λ path w. (ok tt, w);
}

root-IsPaths : IsPaths root
root-IsPaths = record {
  joined = λ w directory name d h. (b'\\' ∷ [], refl);
  base = λ w directory name d h. refl;
}

home_path : path_of root (codes "home") tt ≡ ok (codes "\\home.conf.dpapi")
unfolding path_of tunnel_name_is_valid is_reserved has_special_chars contains_any starts_with
    ends_with matches_allowed_name_format is_allowed
home_path = refl

name_from_path-path_of_example : name_from_path root (codes "\\home.conf.dpapi") ≡ ok (codes "home")
name_from_path-path_of_example =
    name_from_path-path_of root root-IsPaths (codes "home") tt (codes "\\home.conf.dpapi") home_path

abbrev printer : Printer
printer = record {
  addr_text = λ a. codes "10.0.0.1";
  prefix_text = λ p. codes "10.0.0.0/8";
  encode_to_string = λ k. k;
}

written :
    to_wg_quick printer sample_config
    ≡ codes
        "[Interface]\n# mine\nPrivateKey = ABCDEFGHIJKLMNOPQRSTUVWXYZ678901\nMTU = 1420 # small\n\n[Peer]\nPublicKey = abcdefghijklmnopqrstuvwxyz012345\nAllowedIPs = 10.0.0.0/8, 10.0.0.0/8\n"
unfolding to_wg_quick write_peers write_peer write_interface write_script write_number write_list
    write_field write_line lines_of joined comments_of ascii_lower itoa is_zero endpoint_is_empty
    same
written = refl
