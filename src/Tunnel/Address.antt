-- ===== src/Tunnel/Address.antt =====
-- tunnel/addressconfig.go: routes, addresses, metrics and DNS of the tunnel's adapter.
pub mod Attempts
pub mod Restriction
use wireroute_windows.Base.{
  ℕ, zero, suc, ◌+◌, ◌-◌, List, [], ◌∷◌, ◌++◌, Bool, true, false, not, ◌&&◌, ◌||◌, ◌==◌, ltb, any,
  if◌then◌else◌, Option, none, some,
}
use wireroute_windows.Base.Action.{Action, ret, fail, ◌>>=◌, ◌>>◌, when, for_each, lift}
use wireroute_windows.Base.Result.{Result, ok, err}
use wireroute_windows.Base.Text.{Text}
use wireroute_windows.Conf.Config.{Peer, Interface, Config}
use wireroute_windows.Conf.Netip.{
  Addr, zero_addr, v4, v6, is4, is6, Prefix, same_addr, same_prefix, prefix_from, masked,
}

-- AF_INET or AF_INET6.
pub data Family : Type 0 where
  inet inet6 : Family

pub record RouteData : Type 0 where
  pub destination : Prefix
  pub next_hop : Addr
  pub metric : ℕ

-- What the code sets of a MibIPInterfaceRow; none for what it leaves as it was.
pub record IpInterface : Type 0 where
  pub router_discovery_disabled : Bool
  pub dad_transmits : ℕ
  pub managed_address_configuration_supported : Bool
  pub other_stateful_configuration_supported : Bool
  pub nl_mtu : ℕ
  pub use_automatic_metric : Bool
  pub metric : ℕ

-- An adapter of the system: is it up, and its addresses with the lengths of their prefixes.
pub record Adapter : Type 0 where
  pub luid : ℕ
  pub is_up : Bool
  pub addresses : List (Addr × ℕ)

-- The calls of package winipcfg, whose errors are numbers of Windows.
pub record WinIpCfg (S : Type 0) : Type 0 where
  pub set_routes_for_family : (luid : ℕ) → Family → List RouteData → Action S ℕ (Unit {0})
  pub set_ip_addresses_for_family : (luid : ℕ) → Family → List Prefix → Action S ℕ (Unit {0})
  pub ip_interface : (luid : ℕ) → Family → S → Result ℕ IpInterface
  pub set_interface : (luid : ℕ) → Family → IpInterface → Action S ℕ (Unit {0})
  pub set_dns : (luid : ℕ) → Family → List Addr → List Text → Action S ℕ (Unit {0})
  pub get_adapters_addresses : Family → S → Result ℕ (List Adapter)
  pub delete_ip_address : (luid : ℕ) → Prefix → S → S

abbrev pub error_not_found : ℕ
error_not_found = 1168

abbrev pub error_object_already_exists : ℕ
error_object_already_exists = 5010

-- Where an attempt stops: it is to be made again, or one of the calls has failed.
pub data Stop : Type 0 where
  again : Stop
  failed : (code : ℕ) → Stop

unfoldable pub same_route : RouteData → RouteData → Bool
same_route a b =
    same_prefix a.destination b.destination
    && same_addr a.next_hop b.next_hop
    && a.metric == b.metric

-- The keys of a map, in the order in which they came.
unfoldable pub add_route : RouteData → List RouteData → List RouteData
add_route route routes = if any (same_route route) routes then routes else routes ++ (route ∷ [])

unfoldable pub route_to : Prefix → RouteData
route_to allowed_ip = record {
  destination = masked allowed_ip;
  next_hop = if is4 allowed_ip.ip then v4 0 else (if is6 allowed_ip.ip then v6 0 [] else zero_addr);
  metric = 0;
}

unfoldable pub add_allowed_routes : List Prefix → List RouteData → List RouteData
add_allowed_routes [] routes = routes
add_allowed_routes (a ∷ allowed_ips) routes =
    add_allowed_routes allowed_ips (add_route (route_to a) routes)

unfoldable pub peer_routes : List Peer → List RouteData → List RouteData
peer_routes [] routes = routes
peer_routes (p ∷ peers) routes = peer_routes peers (add_allowed_routes p.allowed_ips routes)

unfoldable pub in_family : Family → Addr → Bool
in_family inet a = is4 a
in_family inet6 a = is6 a

-- `foundRoute4`, `foundDefault4` and `foundAddress4`, and those of IPv6.
unfoldable pub found_route : Family → Config → Bool
found_route family conf = any (λ peer. any (λ a. in_family family a.ip) peer.allowed_ips) conf.peers

unfoldable pub found_default : Family → Config → Bool
found_default family conf =
    any (λ peer. any (λ a. in_family family a.ip && a.bits_plus_one == 1) peer.allowed_ips)
      conf.peers

unfoldable pub found_address : Family → Config → Bool
found_address family conf = any (λ a. in_family family a.ip) conf.interface.addresses

unfoldable pub configured : Family → Config → IpInterface → IpInterface
configured family conf row = record {
  router_discovery_disabled = true;
  dad_transmits = 0;
  managed_address_configuration_supported = false;
  other_stateful_configuration_supported = false;
  nl_mtu =
      if not (conf.interface.mtu == 0) && (found_address family conf || found_route family conf)
      then conf.interface.mtu
      else row.nl_mtu;
  use_automatic_metric = if found_default family conf then false else row.use_automatic_metric;
  metric = if found_default family conf then 0 else row.metric;
}

module _ {S : Type 0} (win : WinIpCfg S) where
  -- The addresses of an adapter that are among those of the tunnel.
  unfoldable pub delete_stale : List Prefix → (luid : ℕ) → List (Addr × ℕ) → S → S
  delete_stale addresses luid [] w = w
  delete_stale addresses luid (a ∷ rest) w = delete_stale addresses luid rest (
      if any (λ p. same_addr a.0 p.ip) addresses
      then win.delete_ip_address luid (prefix_from a.0 a.1) w
      else w)

  unfoldable pub cleanup_adapters : List Prefix → List Adapter → S → S
  cleanup_adapters addresses [] w = w
  cleanup_adapters addresses (adapter ∷ adapters) w =
      cleanup_adapters addresses adapters
        (if adapter.is_up then w else delete_stale addresses adapter.luid adapter.addresses w)

  unfoldable pub cleanup_addresses_on_disconnected_interfaces : Family → List Prefix → S → S
  cleanup_addresses_on_disconnected_interfaces family [] w = w
  cleanup_addresses_on_disconnected_interfaces family (p ∷ addresses) w =
      listed (win.get_adapters_addresses family w)
    where
      listed : Result ℕ (List Adapter) → S
      listed (err e) = w
      listed (ok adapters) = cleanup_adapters (p ∷ addresses) adapters w

  -- What becomes of a call: ERROR_NOT_FOUND starts over, if that is still to be tried.
  unfoldable pub check :
      (retry_on_failure : Bool) → Action S ℕ (Unit {0}) → Action S Stop (Unit {0})
  check retry_on_failure call w = checked (call w)
    where
      checked : Result ℕ (Unit {0}) × S → Result Stop (Unit {0}) × S
      checked (ok _, v) = (ok tt, v)
      checked (err e, v) =
          (err (if e == error_not_found && retry_on_failure then again else failed e), v)

  -- Addresses that other adapters keep are taken from those that are not up, once.
  unfoldable pub set_addresses : (luid : ℕ) → Family → List Prefix → Action S ℕ (Unit {0})
  set_addresses luid family addresses w =
      tried (win.set_ip_addresses_for_family luid family addresses w)
    where
      tried : Result ℕ (Unit {0}) × S → Result ℕ (Unit {0}) × S
      tried (ok _, v) = (ok tt, v)
      tried (err e, v) =
          let once_more =
            win.set_ip_addresses_for_family luid family addresses
              (cleanup_addresses_on_disconnected_interfaces family addresses v) in
          if e == error_object_already_exists then once_more else (err e, v)

  -- Any error of the read ends the configuration.
  unfoldable pub read_interface : (luid : ℕ) → Family → Action S Stop IpInterface
  read_interface luid family w = read (win.ip_interface luid family w)
    where
      read : Result ℕ IpInterface → Result Stop IpInterface × S
      read (ok row) = (ok row, w)
      read (err e) = (err (failed e), w)

  -- One attempt, from the label `startOver` on.
  unfoldable pub attempt :
      (retry_on_failure : Bool) → Family → Config → (luid : ℕ) → Action S Stop (Unit {0})
  attempt retry family conf luid = do
    when (not conf.interface.table_off && found_route family conf)
        (check retry (win.set_routes_for_family luid family (peer_routes conf.peers [])))
    when (found_address family conf)
        (check retry (set_addresses luid family conf.interface.addresses))
    row ← read_interface luid family
    check retry (win.set_interface luid family (configured family conf row))
    check retry (win.set_dns luid family conf.interface.dns conf.interface.dns_search)

  -- Does the loop go on trying behind so many times?
  unfoldable pub still_retries : (try_times : ℕ) → Bool → Bool
  still_retries try_times retry = if ltb 0 try_times then retry && ltb try_times 15 else retry

  -- What follows an attempt: `next` are those that are left.
  unfoldable pub after_attempt :
      (next : S → Option (Result ℕ (Unit {0}) × S))
      → Result Stop (Unit {0})
      → S
      → Option (Result ℕ (Unit {0}) × S)
  after_attempt next (ok _) v = some (ok tt, v)
  after_attempt next (err again) v = next v
  after_attempt next (err (failed e)) v = some (err e, v)

  -- The attempts; none if the rounds do not reach their end.
  unfoldable pub attempts :
      (rounds try_times : ℕ)
      → (retry_on_failure : Bool) → Family
      → Config
      → (luid : ℕ) → S
      → Option (Result ℕ (Unit {0}) × S)
  attempts zero try_times retry family conf luid w = none
  attempts (suc rounds) try_times retry family conf luid w =
      let now = still_retries try_times retry in
      let r = attempt now family conf luid w in
      after_attempt (attempts rounds (suc try_times) now family conf luid) r.0 r.1

  unfoldable pub configure_interface :
      (started_at_boot : Bool) → Family → Config → (luid : ℕ) → S → Option (Result ℕ (Unit {0}) × S)
  configure_interface started_at_boot = attempts 16 0 started_at_boot

-- `enableFirewall`: DNS is not restricted unless the only peer takes all of a family's traffic. A prefix
-- of no bits that is masked is one whose address is all zeros.
unfoldable pub takes_all : Prefix → Bool
takes_all p = p.bits_plus_one == 1 && same_prefix p (masked p)

unfoldable pub do_not_restrict : Config → Bool
do_not_restrict conf = only conf.peers
  where
    only : List Peer → Bool
    only (p ∷ []) = conf.interface.table_off || not (any takes_all p.allowed_ips)
    only _ = true
