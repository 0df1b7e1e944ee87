-- ===== src/Conf/Driver.antt =====
-- conf/writer.go, conf/parser.go and driver/configuration_windows.go: configurations as the driver has
-- them, a row of structures, one behind the other.
pub mod Back
use wireroute_windows.Base.{
  ℕ, zero, suc, ◌+◌, ◌*◌, ◌-◌, ◌/◌, ◌%◌, ◌^◌, List, [], ◌∷◌, ◌++◌, map, Bool, not, ◌==◌, length,
  if◌then◌else◌, Option, none, some,
}
use wireroute_windows.Base.Numbers.{itoa, parse_digits}
use wireroute_windows.Base.Text.{Text}
use wireroute_windows.Conf.Config.{Key, Endpoint, Peer, Interface, Config}
use wireroute_windows.Conf.Config.Operations.{zero_key, no_comments, is_zero, endpoint_is_empty}
use wireroute_windows.Conf.Netip.{Addr, zero_addr, v4, v6, Prefix, prefix_from}
use wireroute_windows.Conf.Parser.Quick.{no_interface, no_peer}

abbrev pub peer_has_public_key : ℕ
peer_has_public_key = 1

abbrev pub peer_has_preshared_key : ℕ
peer_has_preshared_key = 2

abbrev pub peer_has_persistent_keepalive : ℕ
peer_has_persistent_keepalive = 4

abbrev pub peer_has_endpoint : ℕ
peer_has_endpoint = 8

abbrev pub interface_has_private_key : ℕ
interface_has_private_key = 2

abbrev pub interface_has_listen_port : ℕ
interface_has_listen_port = 4

-- AF_INET and AF_INET6; 0 for neither.
abbrev pub af_inet : ℕ
af_inet = 2

abbrev pub af_inet6 : ℕ
af_inet6 = 23

-- The address is the number that the bytes of its family make.
pub record DriverAllowedIp : Type 0 where
  pub address : ℕ
  pub address_family : ℕ
  pub cidr : ℕ

pub record DriverPeer : Type 0 where
  pub flags : ℕ
  pub public_key : Key
  pub preshared_key : Key
  pub persistent_keepalive : ℕ
  pub endpoint : Addr × ℕ
  pub tx_bytes : ℕ
  pub rx_bytes : ℕ
  pub last_handshake : ℕ
  pub allowed_ips_count : ℕ

pub record DriverInterface : Type 0 where
  pub flags : ℕ
  pub listen_port : ℕ
  pub private_key : Key
  pub peer_count : ℕ

-- The structures in the buffer of a `ConfigBuilder`.
pub data Chunk : Type 0 where
  interface_chunk : DriverInterface → Chunk
  peer_chunk : DriverPeer → Chunk
  allowed_ip_chunk : DriverAllowedIp → Chunk

-- `flags & flag != 0`, for a power of two.
unfoldable pub has : (flag flags : ℕ) → Bool
has flag flags = flags / flag % 2 == 1

-- `RawSockaddrInet.SetAddrPort` on one that is all zeros, and what is read of it: a zone is kept as a
-- number, if it is one.
unfoldable pub socket_address : Addr → ℕ → Addr × ℕ
socket_address zero_addr port = (zero_addr, 0)
socket_address (v4 n) port = (v4 n, port)
socket_address (v6 n zone) port = (v6 n (scope (parse_digits (2 ^ 32) zone)), port)
  where
    scope : Option ℕ → Text
    scope none = []
    scope (some id) = if id == 0 then [] else itoa id

unfoldable pub allowed_ip_of : Prefix → DriverAllowedIp
allowed_ip_of p = of p.ip ((p.bits_plus_one + 255) % 256)
  where
    of : Addr → ℕ → DriverAllowedIp
    of zero_addr cidr = record { address = 0; address_family = 0; cidr = cidr }
    of (v4 n) cidr = record { address = n; address_family = af_inet; cidr = cidr }
    of (v6 n zone) cidr = record { address = n; address_family = af_inet6; cidr = cidr }

-- The address of an endpoint, if it has a host that is one.
unfoldable pub resolved : (Text → Option Addr) → Endpoint → Option (Addr × ℕ)
resolved parse_addr e = if not (endpoint_is_empty e) then with_port (parse_addr e.host) else none
  where
    with_port : Option Addr → Option (Addr × ℕ)
    with_port none = none
    with_port (some a) = some (socket_address a e.port)

unfoldable pub peer_of : Peer → Option (Addr × ℕ) → DriverPeer
peer_of p endpoint = record {
  flags =
      peer_has_public_key
      + peer_has_persistent_keepalive
      + (if not (is_zero p.preshared_key) then peer_has_preshared_key else 0)
      + endpoint_flag endpoint;
  public_key = p.public_key;
  preshared_key = p.preshared_key;
  persistent_keepalive = p.persistent_keepalive;
  endpoint = address endpoint;
  tx_bytes = 0;
  rx_bytes = 0;
  last_handshake = 0;
  allowed_ips_count = length p.allowed_ips % 2 ^ 32;
}
  where
    endpoint_flag : Option (Addr × ℕ) → ℕ
    endpoint_flag none = 0
    endpoint_flag (some a) = peer_has_endpoint

    address : Option (Addr × ℕ) → Addr × ℕ
    address none = (zero_addr, 0)
    address (some a) = a

unfoldable pub append_peers : (Text → Option Addr) → List Peer → List Chunk
append_peers parse_addr [] = []
append_peers parse_addr (p ∷ peers) =
    peer_chunk (peer_of p (resolved parse_addr p.endpoint))
    ∷ (map (λ a. allowed_ip_chunk (allowed_ip_of a)) p.allowed_ips ++ append_peers parse_addr peers)

unfoldable pub to_driver_configuration : (Text → Option Addr) → Config → List Chunk
to_driver_configuration parse_addr conf =
    interface_chunk (record {
      flags = interface_has_private_key + interface_has_listen_port;
      listen_port = conf.interface.listen_port;
      private_key = conf.interface.private_key;
      peer_count = length conf.peers % 2 ^ 32;
    })
    ∷ append_peers parse_addr conf.peers

unfoldable pub prefix_of : DriverAllowedIp → Prefix
prefix_of a =
    prefix_from
      (if a.address_family == af_inet
        then v4 a.address
        else (if a.address_family == af_inet6 then v6 a.address [] else zero_addr))
      a.cidr

unfoldable pub chain : {A B : Type 0} → Option A → (A → Option B) → Option B
chain none f = none
chain (some a) f = f a

-- What follows a structure in memory; none if it is of another kind, or nothing.
unfoldable pub read_allowed_ips : (count : ℕ) → List Chunk → Option (List Prefix × List Chunk)
read_allowed_ips zero chunks = some ([], chunks)
read_allowed_ips (suc count) (allowed_ip_chunk a ∷ chunks) =
    chain (read_allowed_ips count chunks) (λ r. some (prefix_of a ∷ r.0, r.1))
read_allowed_ips (suc count) _ = none

-- The time is one of Windows, in units of 100 ns since 1601, of 64 bits.
unfoldable pub peer_from : (Addr → Text) → DriverPeer → List Prefix → Peer
peer_from addr_text p allowed_ips = record no_peer {
  public_key = if has peer_has_public_key p.flags then p.public_key else zero_key;
  preshared_key = if has peer_has_preshared_key p.flags then p.preshared_key else zero_key;
  endpoint =
      if has peer_has_endpoint p.flags
      then record { host = addr_text p.endpoint.0; port = p.endpoint.1 }
      else record { host = []; port = 0 };
  persistent_keepalive =
      if has peer_has_persistent_keepalive p.flags then p.persistent_keepalive else 0;
  tx_bytes = p.tx_bytes;
  rx_bytes = p.rx_bytes;
  last_handshake_time =
      if p.last_handshake == 0
      then 0
      else (p.last_handshake + (2 ^ 64 - 116444736000000000)) * 100 % 2 ^ 64;
  allowed_ips = allowed_ips;
}

unfoldable pub read_peers : (Addr → Text) → (count : ℕ) → List Chunk → Option (List Peer)
read_peers addr_text zero chunks = some []
read_peers addr_text (suc count) (peer_chunk p ∷ chunks) =
    chain (read_allowed_ips p.allowed_ips_count chunks) (λ r.
      chain (read_peers addr_text count r.1) (λ peers. some (peer_from addr_text p r.0 ∷ peers)))
read_peers addr_text (suc count) _ = none

unfoldable pub config_from : DriverInterface → (existing : Config) → List Peer → Config
config_from i existing peers = record {
  name = existing.name;
  interface = record (existing.interface) {
    private_key = if has interface_has_private_key i.flags then i.private_key else zero_key;
    listen_port = if has interface_has_listen_port i.flags then i.listen_port else 0;
    comments = no_comments;
  };
  peers = peers;
  trailing_comments = [];
}

unfoldable pub from_driver_configuration :
    (Addr → Text) → List Chunk → (existing : Config) → Option Config
from_driver_configuration addr_text (interface_chunk i ∷ chunks) existing =
    chain (read_peers addr_text i.peer_count chunks) (λ peers. some (config_from i existing peers))
from_driver_configuration addr_text _ existing = none
