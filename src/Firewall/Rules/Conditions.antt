-- ===== src/Firewall/Rules/Conditions.antt =====
-- The filter conditions of tunnel/firewall/rules.go.
use wireroute_windows.Base.{ℕ, ◌+◌, ◌*◌, List, [], ◌∷◌}
use wireroute_windows.Firewall.Types.{
  FieldKey, ip_local_interface, ale_app_id, ale_user_id, condition_flags, ip_protocol,
  ip_local_port, ip_remote_port, ip_local_address, ip_remote_address, l2_flags, icmp_type,
  icmp_code, equal, flags_all_set, Value, uint8, uint16, uint32, uint64, byte_array16, byte_blob,
  security_descriptor, v6_addr_mask, Condition,
}

-- `cIPPROTO_…`.
abbrev pub ipproto_icmpv6 : ℕ
ipproto_icmpv6 = 58

abbrev pub ipproto_tcp : ℕ
ipproto_tcp = 6

abbrev pub ipproto_udp : ℕ
ipproto_udp = 17

-- The known addresses.
abbrev pub link_local : Value
link_local =
    v6_addr_mask (0xfe ∷ 0x80 ∷ 0 ∷ 0 ∷ 0 ∷ 0 ∷ 0 ∷ 0 ∷ 0 ∷ 0 ∷ 0 ∷ 0 ∷ 0 ∷ 0 ∷ 0 ∷ 0 ∷ []) 10

abbrev multicast : ℕ → ℕ → ℕ → Value
multicast scope hi lo =
    byte_array16 (0xff ∷ scope ∷ 0 ∷ 0 ∷ 0 ∷ 0 ∷ 0 ∷ 0 ∷ 0 ∷ 0 ∷ 0 ∷ 0 ∷ 0 ∷ hi ∷ 0 ∷ lo ∷ [])

abbrev pub link_local_dhcp_multicast : Value
link_local_dhcp_multicast = multicast 2 1 2

abbrev pub site_local_dhcp_multicast : Value
site_local_dhcp_multicast = multicast 5 1 3

abbrev pub link_local_router_multicast : Value
link_local_router_multicast = multicast 2 0 2

-- A condition of match type `cFWP_MATCH_EQUAL`.
abbrev pub equals : FieldKey → Value → Condition
equals k v = record { field_key = k; match_type = equal; value = v }

abbrev pub on_interface : ℕ → Condition
on_interface luid = equals ip_local_interface (uint64 luid)

abbrev pub from_app : List ℕ → Condition
from_app app_id = equals ale_app_id (byte_blob app_id)

abbrev pub from_user : List ℕ → Condition
from_user sd = equals ale_user_id (security_descriptor sd)

abbrev pub is_loopback : Condition
is_loopback = record { field_key = condition_flags; match_type = flags_all_set; value = uint32 1 }

abbrev pub has_protocol : ℕ → Condition
has_protocol p = equals ip_protocol (uint8 p)

abbrev pub from_port : ℕ → Condition
from_port p = equals ip_local_port (uint16 p)

abbrev pub to_port : ℕ → Condition
to_port p = equals ip_remote_port (uint16 p)

abbrev pub at_address : Value → Condition
at_address v = equals ip_local_address v

abbrev pub to_address : Value → Condition
to_address v = equals ip_remote_address v

abbrev pub is_vm2vm : Condition
is_vm2vm = equals l2_flags (uint32 0x10)

unfoldable pub dhcp_v4_request : List Condition
dhcp_v4_request =
    has_protocol ipproto_udp ∷ from_port 68 ∷ to_port 67 ∷ to_address (uint32 0xffffffff) ∷ []

unfoldable pub dhcp_v4_response : List Condition
dhcp_v4_response = has_protocol ipproto_udp ∷ from_port 68 ∷ to_port 67 ∷ []

unfoldable pub dhcp_v6_request : List Condition
dhcp_v6_request =
    has_protocol ipproto_udp
    ∷ to_address link_local_dhcp_multicast
    ∷ to_address site_local_dhcp_multicast
    ∷ to_port 547
    ∷ at_address link_local
    ∷ from_port 546
    ∷ []

unfoldable pub dhcp_v6_response : List Condition
dhcp_v6_response =
    has_protocol ipproto_udp
    ∷ to_address link_local
    ∷ to_port 547
    ∷ at_address link_local
    ∷ from_port 546
    ∷ []

-- The conditions that all neighbour discovery messages share: ICMPv6, the type, code 0.
unfoldable pub ndp : ℕ → List Condition
ndp type =
    has_protocol ipproto_icmpv6 ∷ equals icmp_type (uint16 type) ∷ equals icmp_code (uint16 0) ∷ []

-- `denyConditions` of `blockDNS`.
unfoldable pub dns : List Condition
dns = to_port 53 ∷ has_protocol ipproto_udp ∷ has_protocol ipproto_tcp ∷ []

-- `netip.Addr`: nothing, the four bytes, or the sixteen bytes and the zone.
pub data Addr : Type 0 where
  zero_addr : Addr
  v4 : ℕ → ℕ → ℕ → ℕ → Addr
  v6 : List ℕ → List ℕ → Addr

-- The loops over `except` that skip the addresses of the other family.
unfoldable pub servers_v4 : List Addr → List Condition
servers_v4 [] = []
servers_v4 (zero_addr ∷ r) = servers_v4 r
servers_v4 (v4 a b c d ∷ r) =
    to_address (uint32 (((a * 256 + b) * 256 + c) * 256 + d)) ∷ servers_v4 r
servers_v4 (v6 _ _ ∷ r) = servers_v4 r

unfoldable pub servers_v6 : List Addr → List Condition
servers_v6 [] = []
servers_v6 (zero_addr ∷ r) = servers_v6 r
servers_v6 (v4 _ _ _ _ ∷ r) = servers_v6 r
servers_v6 (v6 bytes _ ∷ r) = to_address (byte_array16 bytes) ∷ servers_v6 r
