-- ===== src/Conf/Tests/RoundTrip.antt =====
-- A configuration that is written and read back, with small packages that print and parse.
use wireroute_windows.Base.{
  ℕ, ◌+◌, ◌-◌, ◌≤◌, ◌≡◌, refl, ◌∙◌, inl, inr, [], ◌∷◌, map, true, false, ◌==◌, any, length,
  replicate, if◌then◌else◌, Option, none, some, ap, arith,
}
use wireroute_windows.Base.Pieces.{IsToken, is_break}
use wireroute_windows.Base.Result.{ok}
use wireroute_windows.Base.Text.{
  Text, codes, same, is_empty, contains, is_space, trim_left, trim_right,
}
use wireroute_windows.Conf.Config.{Key, Peer, Interface, Config}
use wireroute_windows.Conf.Config.Operations.{is_zero}
use wireroute_windows.Conf.Name.{
  ascii_lower, starts_with, ends_with, tunnel_name_is_valid, is_reserved, has_special_chars,
  matches_allowed_name_format, contains_any, is_allowed,
}
use wireroute_windows.Conf.Netip.{Addr, zero_addr, v4, v6, is6, Prefix}
use wireroute_windows.Conf.Parser.{Library}
use wireroute_windows.Conf.Parser.Quick.{from_wg_quick, no_interface, no_peer}
use wireroute_windows.Conf.Parser.Values.{is_ipv6, inside_brackets, last_index_of}
use wireroute_windows.Conf.RoundTrip.{
  IsAddr, IsPrefix, IsPrefixOf, IsHost, IsLawful, IsWritable, IsWritablePeer, IsWritableInterface,
}
use wireroute_windows.Conf.RoundTrip.Whole.{from_wg_quick-to_wg_quick}
use wireroute_windows.Conf.Writer.{Printer, to_wg_quick}

-- Numbers are characters beyond 65536.
abbrev base : ℕ
base = 65536

abbrev addr_text : Addr → Text
addr_text zero_addr = []
addr_text (v4 n) = b'4' ∷ (base + n) ∷ []
addr_text (v6 n zone) = b'6' ∷ (base + n) ∷ zone

abbrev v4_of : Text → Option Addr
v4_of [] = none
v4_of (n ∷ rest) = some (v4 (n - base))

abbrev v6_of : Text → Option Addr
v6_of [] = none
v6_of (n ∷ zone) = some (v6 (n - base) zone)

abbrev parse_addr : Text → Option Addr
parse_addr [] = none
parse_addr (c ∷ s) = if c == b'4' then v4_of s else (if c == b'6' then v6_of s else none)

abbrev with_bits : ℕ → Option Addr → Option Prefix
with_bits b none = none
with_bits b (some a) = some (record { ip = a; bits_plus_one = b })

abbrev parse_prefix : Text → Option Prefix
parse_prefix [] = none
parse_prefix (b ∷ s) = with_bits (b - base) (parse_addr s)

abbrev sample_library : Library
sample_library = record {
  parse_addr = parse_addr;
  parse_prefix = parse_prefix;
  decode_string = λ s. some (map (λ c. c - base) s);
  to_lower = map ascii_lower;
}

abbrev sample_printer : Printer
sample_printer = record {
  addr_text = addr_text;
  prefix_text = λ p. (base + p.bits_plus_one) ∷ addr_text p.ip;
  encode_to_string = map (λ b. base + b);
}

parse_addr_lem : (a : Addr) → IsAddr a → parse_addr (addr_text a) ≡ some a
parse_addr_lem zero_addr h = absurd h
parse_addr_lem (v4 n) h = ap (λ m. some (v4 m)) (omega arith)
parse_addr_lem (v6 n zone) h = ap (λ m. some (v6 m zone)) (omega arith)

no_break : (n : ℕ) → is_break (base + n) ≡ false
unfolding is_space
no_break n = ground arith

addr-IsToken : (a : Addr) → IsAddr a → IsToken (addr_text a)
unfolding is_space
addr-IsToken zero_addr h = absurd h
addr-IsToken (v4 n) h = (refl, ground (arith, no_break n))
addr-IsToken (v6 n zone) (h, inl k) = (refl, rw k (ground (arith, no_break n)))
addr-IsToken (v6 n zone) (h, inr k) = (refl, ground (arith, no_break n, k.1))

key_back : (k : Key) → map (λ c. c - base) (map (λ b. base + b) k) ≡ k
key_back [] = refl
key_back (b ∷ k) =
    let same : base + b - base ≡ b = omega arith in rw same (ap (λ r. b ∷ r) (key_back k))

key_token : (k : Key) → any is_break (map (λ b. base + b) k) ≡ false
key_token [] = refl
key_token (b ∷ k) = rw (no_break b) (key_token k)

key_nonempty : (k : Key) → length k ≡ 32 → is_empty (map (λ b. base + b) k) ≡ false
key_nonempty [] h = absurd (omega arith)
key_nonempty (b ∷ k) h = refl

IsPrefixOf-IsAddr : (a : Addr) (b : ℕ) → IsPrefixOf a b → IsAddr a
IsPrefixOf-IsAddr zero_addr b h = h
IsPrefixOf-IsAddr (v4 n) b h = h.0
IsPrefixOf-IsAddr (v6 n zone) b h = (h.0, inl (h.1))

prefix_back : (p : Prefix) → IsPrefix p → parse_prefix (sample_printer.prefix_text p) ≡ some p
prefix_back p h =
    ap (with_bits (base + p.bits_plus_one - base))
      (parse_addr_lem p.ip (IsPrefixOf-IsAddr p.ip p.bits_plus_one h))
    ∙ ap (λ b. some (record p { bits_plus_one = b })) (omega arith)

prefix-IsToken : (p : Prefix) → IsPrefix p → IsToken (sample_printer.prefix_text p)
prefix-IsToken p h = (
  refl,
  rw (no_break p.bits_plus_one) ((addr-IsToken p.ip (IsPrefixOf-IsAddr p.ip p.bits_plus_one h)).1),
)

sample_library-IsLawful : IsLawful sample_library sample_printer
sample_library-IsLawful = record {
  lower = λ s h. refl;
  addr = parse_addr_lem;
  addr_token = addr-IsToken;
  prefix = prefix_back;
  prefix_token = prefix-IsToken;
  key = λ k h. ap some (key_back k);
  key_token = λ k h. (key_nonempty k h.0, key_token k);
}

-- A script with a sharp, a domain to search, a key that is not set, and a host.
abbrev written_interface : Interface
written_interface = record no_interface {
  private_key = replicate 32 7;
  addresses =
      record { ip = v4 0x0a000002; bits_plus_one = 33 }
      ∷ record { ip = v6 1 []; bits_plus_one = 65 }
      ∷ [];
  mtu = 1420;
  dns = v4 0x08080808 ∷ [];
  dns_search = codes "example.com" ∷ [];
  post_up = codes "echo up # now";
  table_off = true;
}

abbrev written_peer : Peer
written_peer = record no_peer {
  public_key = replicate 32 9;
  allowed_ips = record { ip = v4 0; bits_plus_one = 1 } ∷ [];
  endpoint = record { host = codes "vpn.example.com"; port = 51820 };
  persistent_keepalive = 25;
}

abbrev written_config : Config
written_config = record {
  name = codes "wg0";
  interface = written_interface;
  peers =
      written_peer
      ∷ record written_peer { endpoint = record { host = codes "6::1"; port = 1 } }
      ∷ [];
  trailing_comments = [];
}

written_interface-IsWritable : IsWritableInterface sample_library written_interface
unfolding is_space trim_left trim_right contains
written_interface-IsWritable = record {
  private_key = (refl, refl);
  addresses = (omega arith, ((omega arith, refl, omega arith, omega arith), tt));
  listen_port = omega arith;
  mtu = inr (omega arith);
  dns = omega arith;
  dns_search = (((refl, refl), refl), tt);
  pre_up = inl refl;
  post_up = inr ((refl, refl, refl), refl);
  pre_down = inl refl;
  post_down = inl refl;
  comments = refl;
}

vpn-IsHost : IsHost sample_library (codes "vpn.example.com")
unfolding is_space contains starts_with ends_with
vpn-IsHost = ((refl, refl), inl (refl, refl, refl))

address-IsHost : IsHost sample_library (codes "6::1")
unfolding is_space contains is_ipv6 inside_brackets last_index_of is6
address-IsHost = ((refl, refl), inr (refl, omega arith, refl))

peer-IsWritable :
    (h : Text) (port : ℕ)
    → IsHost sample_library h
    → port ≤ 65535
    → IsWritablePeer sample_library
        (record written_peer { endpoint = record { host = h; port = port } })
unfolding is_zero same
peer-IsWritable h port host small = record {
  public_key = (refl, refl);
  public_key_set = refl;
  preshared_key = (refl, refl);
  allowed_ips = omega arith;
  endpoint = inr (host, small);
  persistent_keepalive = omega arith;
  rx_bytes = refl;
  tx_bytes = refl;
  last_handshake_time = refl;
  comments = refl;
}

written_config-IsWritable : IsWritable sample_library written_config
unfolding tunnel_name_is_valid is_reserved has_special_chars matches_allowed_name_format
    contains_any starts_with ends_with is_allowed
written_config-IsWritable = record {
  name = refl;
  interface = written_interface-IsWritable;
  peers = (
    peer-IsWritable (codes "vpn.example.com") 51820 vpn-IsHost (omega arith),
    (peer-IsWritable (codes "6::1") 1 address-IsHost (omega arith), tt),
  );
  trailing_comments = refl;
}

from_wg_quick-to_wg_quick_example :
    from_wg_quick sample_library (to_wg_quick sample_printer written_config) (codes "wg0")
    ≡ ok written_config
from_wg_quick-to_wg_quick_example =
    from_wg_quick-to_wg_quick sample_library sample_printer sample_library-IsLawful written_config
      written_config-IsWritable
