-- ===== src/Conf/RoundTrip.antt =====
-- conf/parser.go behind conf/writer.go: what is asked of a configuration that is written and read
-- again, and of the packages that print and parse its values.
pub mod Values
pub mod Entries
pub mod Lines
pub mod Fields
pub mod Interfaces
pub mod Section
pub mod Peers
pub mod Whole
use wireroute_windows.Base.{
  ℕ, ◌≤◌, ◌<◌, ◌^◌, ◌≡◌, ◌≢◌, ◌⊎◌, List, [], ◌∷◌, ◌++◌, map, Bool, true, false, ◌==◌, ltb, leb,
  ◌&&◌, length, all, All, none, some,
}
use wireroute_windows.Base.Pieces.{IsToken, IsTrimmed}
use wireroute_windows.Base.Text.{Text, codes, contains, is_empty}
use wireroute_windows.Conf.Config.{key_length, Key, Endpoint, Peer, Interface, Config}
use wireroute_windows.Conf.Config.Operations.{no_comments, is_zero}
use wireroute_windows.Conf.Name.{ascii_lower, starts_with, ends_with, tunnel_name_is_valid}
use wireroute_windows.Conf.Netip.{Addr, zero_addr, v4, v6, Prefix, bit_len}
use wireroute_windows.Conf.Parser.{Library}
use wireroute_windows.Conf.Parser.Values.{is_ipv6, inside_brackets}
use wireroute_windows.Conf.Writer.{Printer}

abbrev pub IsKey : Key → Type 0
IsKey k = (length k ≡ key_length) × (all (λ b. ltb b 256) k ≡ true)

-- An address; a zone, where there is one, has no comma, white space or sharp.
abbrev pub IsAddr : Addr → Type 0
IsAddr zero_addr = ⊥
IsAddr (v4 n) = n < 2 ^ 32
IsAddr (v6 n zone) = (n < 2 ^ 128) × ((zone ≡ []) ⊎ IsToken zone)

-- A valid prefix: no more bits than the address has, and no zone.
abbrev pub IsPrefixOf : Addr → ℕ → Type 0
IsPrefixOf zero_addr b = ⊥
IsPrefixOf (v4 n) b = (n < 2 ^ 32) × (0 < b) × (b ≤ 33)
IsPrefixOf (v6 n zone) b = (n < 2 ^ 128) × (zone ≡ []) × (0 < b) × (b ≤ 129)

abbrev pub IsPrefix : Prefix → Type 0
IsPrefix p = IsPrefixOf p.ip p.bits_plus_one

-- The packages print tokens, which they parse to what was printed, and lower ASCII as we do.
pub record IsLawful (lib : Library) (printer : Printer) : Type 0 where
  pub lower : (s : Text) → all (λ c. ltb c 128) s ≡ true → lib.to_lower s ≡ map ascii_lower s
  pub addr : (a : Addr) → IsAddr a → lib.parse_addr (printer.addr_text a) ≡ some a
  pub addr_token : (a : Addr) → IsAddr a → IsToken (printer.addr_text a)
  pub prefix : (p : Prefix) → IsPrefix p → lib.parse_prefix (printer.prefix_text p) ≡ some p
  pub prefix_token : (p : Prefix) → IsPrefix p → IsToken (printer.prefix_text p)
  pub key : (k : Key) → IsKey k → lib.decode_string (printer.encode_to_string k) ≡ some k
  pub key_token : (k : Key) → IsKey k → IsToken (printer.encode_to_string k)

-- A script on one line, without white space at its ends, or none.
abbrev pub IsScript : Text → Type 0
IsScript s = (s ≡ []) ⊎ (IsTrimmed s × (contains b'\n' s ≡ false))

module _ (lib : Library) where
  -- A domain to search: a token that is no address.
  abbrev pub IsDomain : Text → Type 0
  IsDomain s = IsToken s × (lib.parse_addr s ≡ none)

  -- A host without a colon, or one that the parser takes for an IPv6 address in brackets.
  abbrev pub IsHost : Text → Type 0
  IsHost h =
      IsToken h
      × ((contains b':' h ≡ false) × (starts_with b'[' h ≡ false) × (ends_with b']' h ≡ false)
          ⊎ (contains b':' h ≡ true)
            × (1 < length h)
            × (is_ipv6 lib (lib.parse_addr (inside_brackets lib (b'[' ∷ h ++ codes "]"))) ≡ true))

  -- No endpoint at all, or one with a host.
  abbrev pub IsEndpoint : Endpoint → Type 0
  IsEndpoint e = ((e.host ≡ []) × (e.port ≡ 0)) ⊎ (IsHost e.host × (e.port ≤ 65535))

  pub record IsWritableInterface (i : Interface) : Type 0 where
    pub private_key : IsKey i.private_key
    pub addresses : All IsPrefix i.addresses
    pub listen_port : i.listen_port ≤ 65535
    pub mtu : (i.mtu ≡ 0) ⊎ ((576 ≤ i.mtu) × (i.mtu ≤ 65535))
    pub dns : All IsAddr i.dns
    pub dns_search : All IsDomain i.dns_search
    pub pre_up : IsScript i.pre_up
    pub post_up : IsScript i.post_up
    pub pre_down : IsScript i.pre_down
    pub post_down : IsScript i.post_down
    pub comments : i.comments ≡ no_comments

  -- The counters that the driver keeps are no part of the text.
  pub record IsWritablePeer (p : Peer) : Type 0 where
    pub public_key : IsKey p.public_key
    pub public_key_set : is_zero p.public_key ≡ false
    pub preshared_key : IsKey p.preshared_key
    pub allowed_ips : All IsPrefix p.allowed_ips
    pub endpoint : IsEndpoint p.endpoint
    pub persistent_keepalive : p.persistent_keepalive ≤ 65535
    pub rx_bytes : p.rx_bytes ≡ 0
    pub tx_bytes : p.tx_bytes ≡ 0
    pub last_handshake_time : p.last_handshake_time ≡ 0
    pub comments : p.comments ≡ no_comments

  pub record IsWritable (conf : Config) : Type 0 where
    pub name : tunnel_name_is_valid conf.name ≡ true
    pub interface : IsWritableInterface conf.interface
    pub peers : All IsWritablePeer conf.peers
    pub trailing_comments : conf.trailing_comments ≡ []
