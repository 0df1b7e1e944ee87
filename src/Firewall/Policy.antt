-- ===== src/Firewall/Policy.antt =====
-- What the firewall promises: which traffic may pass, told without filters or weights.
pub mod Groups
pub mod Servers
pub mod Decides
use wireroute_windows.Base.{ℕ, List, [], ◌∷◌, Bool, true, false, ◌&&◌, ◌||◌, any, if◌then◌else◌}
use wireroute_windows.Firewall.Types.{
  Layer, connect_v4, recv_accept_v4, connect_v6, recv_accept_v6, outbound_mac_frame_native,
  inbound_mac_frame_native, icmp_type, icmp_code, Condition, Verdict, permit, block, uint16, uint32,
}
use wireroute_windows.Firewall.Rules.Conditions.{
  ipproto_icmpv6, ipproto_tcp, ipproto_udp, link_local, link_local_dhcp_multicast,
  site_local_dhcp_multicast, link_local_router_multicast, equals, on_interface, from_app, from_user,
  is_loopback, has_protocol, from_port, to_port, at_address, to_address, Addr, servers_v4,
  servers_v6,
}

abbrev pub is_configured : List Addr → Bool
is_configured [] = false
is_configured (a ∷ r) = true

-- The traffic at one layer, by which conditions hold of it.
module _ (holds : Condition → Bool) where
  -- The tunnel service's own traffic.
  abbrev pub is_service : List ℕ → List ℕ → Bool
  is_service app sd = holds (from_app app) && holds (from_user sd)

  abbrev pub is_dns : Bool
  is_dns =
      holds (to_port 53) && (holds (has_protocol ipproto_udp) || holds (has_protocol ipproto_tcp))

  -- Towards one of the configured servers, of the layer's family.
  abbrev pub is_to_server : Layer → List Addr → Bool
  is_to_server connect_v4 servers = any holds (servers_v4 servers)
  is_to_server recv_accept_v4 servers = any holds (servers_v4 servers)
  is_to_server connect_v6 servers = any holds (servers_v6 servers)
  is_to_server recv_accept_v6 servers = any holds (servers_v6 servers)
  is_to_server _ servers = false

  abbrev pub is_dhcp : Layer → Bool
  is_dhcp connect_v4 =
      holds (has_protocol ipproto_udp)
      && holds (from_port 68)
      && holds (to_port 67)
      && holds (to_address (uint32 0xffffffff))
  is_dhcp recv_accept_v4 =
      holds (has_protocol ipproto_udp) && holds (from_port 68) && holds (to_port 67)
  is_dhcp connect_v6 =
      holds (has_protocol ipproto_udp)
      && (holds (to_address link_local_dhcp_multicast)
          || holds (to_address site_local_dhcp_multicast))
      && holds (to_port 547)
      && holds (at_address link_local)
      && holds (from_port 546)
  is_dhcp recv_accept_v6 =
      holds (has_protocol ipproto_udp)
      && holds (to_address link_local)
      && holds (to_port 547)
      && holds (at_address link_local)
      && holds (from_port 546)
  is_dhcp _ = false

  abbrev is_message : ℕ → Bool
  is_message type = holds (equals icmp_type (uint16 type))

  -- Neighbour discovery: solicitations out, advertisements in, and both for the neighbour messages.
  abbrev pub is_ndp : Layer → Bool
  is_ndp connect_v6 =
      holds (has_protocol ipproto_icmpv6)
      && holds (equals icmp_code (uint16 0))
      && (is_message 133 && holds (to_address link_local_router_multicast)
          || is_message 135
          || is_message 136)
  is_ndp recv_accept_v6 =
      holds (has_protocol ipproto_icmpv6)
      && holds (equals icmp_code (uint16 0))
      && (is_message 134 && holds (to_address link_local)
          || is_message 135
          || is_message 136
          || is_message 137 && holds (to_address link_local))
  is_ndp _ = false

  -- The traffic that has a reason to pass.
  abbrev pub is_needed : Layer → ℕ → Bool
  is_needed l luid = holds is_loopback || holds (on_interface luid) || is_dhcp l || is_ndp l

  -- The tunnel service passes. DNS passes to the configured servers only, if there are any. All
  -- else passes on the loopback and in the tunnel, and for DHCP and neighbour discovery.
  unfoldable pub policy : Layer → List ℕ → List ℕ → ℕ → List Addr → Verdict
  policy l app sd luid servers =
      if is_service app sd
      then permit
      else if is_configured servers && is_dns
      then if is_to_server l servers then permit else block
      else if is_needed l luid
      then permit
      else block
