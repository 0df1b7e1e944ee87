-- ===== src/Conf/Tests/Samples.antt =====
-- A configuration to read, and a library that knows its addresses.
use wireroute_windows.Base.{[], ◌∷◌, if◌then◌else◌, none, some, map}
use wireroute_windows.Base.Text.{Text, codes, same}
use wireroute_windows.Conf.Config.{Config, Peer}
use wireroute_windows.Conf.Config.Operations.{no_comments}
use wireroute_windows.Conf.Name.{ascii_lower}
use wireroute_windows.Conf.Netip.{Addr, v4, Prefix}
use wireroute_windows.Conf.Parser.{Library}
use wireroute_windows.Conf.Parser.Quick.{no_interface, no_peer}

abbrev pub server : Addr
server = v4 0x0a000001

abbrev pub network : Prefix
network = record { ip = v4 0x0a000000; bits_plus_one = 9 }

-- Base64 is read as the characters themselves here.
abbrev pub sample_library : Library
sample_library = record {
  parse_addr = λ s. if same s (codes "10.0.0.1") then some server else none;
  parse_prefix = λ s. if same s (codes "10.0.0.0/8") then some network else none;
  decode_string = λ s. some s;
  to_lower = map ascii_lower;
}

abbrev pub newline : Text
newline = codes "\n"

abbrev pub peer_text : Text
peer_text =
    codes
      "[Peer]\nPublicKey = abcdefghijklmnopqrstuvwxyz012345\nAllowedIPs = 10.0.0.0/8, 10.0.0.1\n"

abbrev pub interface_text : Text
interface_text =
    codes "[Interface]\n# mine\nPrivateKey = ABCDEFGHIJKLMNOPQRSTUVWXYZ678901\nMTU = 1420 # small\n"

abbrev pub sample_peer : Peer
sample_peer = record no_peer {
  public_key = codes "abcdefghijklmnopqrstuvwxyz012345";
  allowed_ips = network ∷ record { ip = server; bits_plus_one = 33 } ∷ [];
}

abbrev pub sample_config : Config
sample_config = record {
  name = codes "wg0";
  interface = record no_interface {
    private_key = codes "ABCDEFGHIJKLMNOPQRSTUVWXYZ678901";
    mtu = 1420;
    comments = record no_comments {
      lines =
          (codes "privatekey", record { before = codes "# mine" ∷ []; suffix = [] })
          ∷ (codes "mtu", record { before = []; suffix = codes "# small" })
          ∷ [];
    };
  };
  peers = sample_peer ∷ [];
  trailing_comments = [];
}
