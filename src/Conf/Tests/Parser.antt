-- ===== src/Conf/Tests/Parser.antt =====
-- The theorems on the parser at a configuration, and runs of it.
use wireroute_windows.Base.{◌≡◌, refl, true, some, List, [], ◌∷◌, ◌++◌}
use wireroute_windows.Base.Result.{ok}
use wireroute_windows.Base.Text.{Text, codes}
use wireroute_windows.Base.Map.{put}
use wireroute_windows.Base.Numbers.{atoi, to_pos, to_neg, parse_digits}
use wireroute_windows.Base.Text.{same, cut, split, trim_space, trim_left, trim_right, contains}
use wireroute_windows.Conf.Config.Operations.{is_zero}
use wireroute_windows.Conf.Name.{
  tunnel_name_is_valid, is_reserved, has_special_chars, contains_any, starts_with, ends_with,
  matches_allowed_name_format, is_allowed, ascii_lower,
}
use wireroute_windows.Conf.Netip.{prefix_from, bit_len}
use wireroute_windows.Conf.Parser.Comments.{
  add_comments, add_line_comments, comments_of, prune_section_comments, prune_comments, squeeze,
  trim_leading, trim_trailing, unless_blank, ends_blank, starts_blank, prune_lines,
}
use wireroute_windows.Conf.Parser.Quick.Keys.{
  find_key, set_interface_key, set_known_interface_key, set_peer_key, set_known_peer_key,
  parse_prefixes,
}
use wireroute_windows.Conf.Parser.Values.{
  parse_key_base64, parse_mtu, atoi_in, in_range, split_list, trimmed_pieces, parse_ip_cidr,
}
use wireroute_windows.Conf.Parser.Quick.{
  from_wg_quick, parse_lines, parse_line, line_comment, code_line, key_line, is_not_in_a_section,
  open_interface, open_peer, maybe_add_peer, is_script_key, set_key, set_interface, set_peer,
  finish, prune_peer, Parsing, at_start, in_peer_section,
}
use wireroute_windows.Conf.Parser.Quick.Returned.{IsValidConfig, from_wg_quick-IsValidConfig}
use wireroute_windows.Conf.Parser.Quick.Lines.{HasPeer, parse_lines-HasPeer}
use wireroute_windows.Conf.Parser.Comments.Pruned.{spaced, comments, prune_comments-comments}
use wireroute_windows.Conf.Tests.Samples.{
  sample_library, peer_text, interface_text, sample_peer, sample_config,
}

-- Lines of a peer, and nothing behind them.
abbrev after_peer : Parsing
after_peer = record at_start {
  parser_state = in_peer_section;
  peer = some sample_peer;
  pending_comments = [] ∷ [];
}

-- A file in the usual order, one whose peer stands above the interface, which is added twice, and
-- lines in the middle of a file.
runs :
    (from_wg_quick sample_library (interface_text ++ peer_text) (codes "wg0") ≡ ok sample_config)
    × (from_wg_quick sample_library (peer_text ++ interface_text) (codes "wg0")
        ≡ ok (record sample_config { peers = sample_peer ∷ sample_peer ∷ [] }))
    × (parse_lines sample_library at_start (split b'\n' peer_text) ≡ ok after_peer)
unfolding atoi to_pos to_neg parse_digits same cut split trim_space trim_left trim_right contains
    tunnel_name_is_valid is_reserved has_special_chars contains_any starts_with ends_with
    matches_allowed_name_format is_allowed ascii_lower prefix_from bit_len is_zero add_comments
    add_line_comments comments_of put prune_section_comments prune_comments squeeze trim_leading
    trim_trailing unless_blank ends_blank starts_blank prune_lines parse_key_base64 parse_mtu
    atoi_in in_range split_list trimmed_pieces parse_ip_cidr find_key set_interface_key
    set_known_interface_key set_peer_key set_known_peer_key parse_prefixes from_wg_quick parse_lines
    parse_line line_comment code_line key_line is_not_in_a_section open_interface open_peer
    maybe_add_peer is_script_key set_key set_interface set_peer finish prune_peer
runs = (refl, refl, refl)

from_wg_quick-IsValidConfig_example : IsValidConfig (codes "wg0") sample_config
from_wg_quick-IsValidConfig_example =
    from_wg_quick-IsValidConfig sample_library (interface_text ++ peer_text) (codes "wg0")
      sample_config runs.0

parse_lines-HasPeer_example : HasPeer in_peer_section (some sample_peer)
parse_lines-HasPeer_example =
    parse_lines-HasPeer sample_library (split b'\n' peer_text) after_peer runs.2

abbrev run : List Text
run = [] ∷ [] ∷ codes "# one" ∷ [] ∷ [] ∷ codes "# two" ∷ [] ∷ []

prune_comments-comments_example :
    (spaced (prune_comments run true true) ≡ true)
    × (comments (prune_comments run true true) ≡ comments run)
prune_comments-comments_example = prune_comments-comments run true true
