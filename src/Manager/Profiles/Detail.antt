-- ===== src/Manager/Profiles/Detail.antt =====
-- What a profile's details tell of its secrets.
use wireroute_windows.Base.{
  ◌≡◌, refl, ap, ap₂, fun_ext, if◌then◌else◌, ◌==◌, List, [], ◌∷◌, map, Bool, ◌||◌, any,
}
use wireroute_windows.Conf.Config.{Key, Peer, Config}
use wireroute_windows.Conf.Config.Operations.{is_zero}
use wireroute_windows.Conf.Netip.{Addr, contains_addr}
use wireroute_windows.Manager.Display.{display_name}
use wireroute_windows.Manager.Profiles.{
  Packages, peer_detail, dns_server, detail, route_mode, has_hooks, goes_through_tunnel, full,
  split,
}

-- The configuration with other secrets.
unfoldable pub with_preshared : (Key → Key) → Peer → Peer
with_preshared f peer = record peer { preshared_key = f peer.preshared_key }

unfoldable pub with_secrets : Key → (Key → Key) → Config → Config
unfolding with_preshared
with_secrets private_key f config = record config {
  interface = record (config.interface) { private_key = private_key };
  peers = map (with_preshared f) config.peers;
}

module _ (packages : Packages) (f : Key → Key) (same : (k : Key) → is_zero (f k) ≡ is_zero k) where
  map-peer_detail :
      (peers : List Peer)
      → map (peer_detail packages) (map (with_preshared f) peers) ≡ map (peer_detail packages) peers
  unfolding peer_detail with_preshared
  map-peer_detail [] = refl
  map-peer_detail (p ∷ peers) = rw (same p.preshared_key, map-peer_detail peers) refl

  any-with_preshared :
      (test : Peer → Bool) (peers : List Peer)
      → ((p : Peer) → test (with_preshared f p) ≡ test p)
      → any test (map (with_preshared f) peers) ≡ any test peers
  any-with_preshared test [] h = refl
  any-with_preshared test (p ∷ peers) h =
      ap₂ (λ a b. a || b) (h p) (any-with_preshared test peers h)

  goes_through_tunnel-with_preshared :
      (peers : List Peer) (dns : Addr)
      → goes_through_tunnel (map (with_preshared f) peers) dns ≡ goes_through_tunnel peers dns
  unfolding goes_through_tunnel with_preshared
  goes_through_tunnel-with_preshared peers dns =
      any-with_preshared (λ peer. any (λ p. contains_addr p dns) peer.allowed_ips) peers (λ p. refl)

  dns_server-with_preshared :
      (peers : List Peer)
      → dns_server packages (map (with_preshared f) peers) ≡ dns_server packages peers
  unfolding dns_server
  dns_server-with_preshared peers =
      fun_ext λ dns. rw (goes_through_tunnel-with_preshared peers dns) refl

  route_mode-with_secrets :
      (private_key : Key) (config : Config)
      → route_mode (with_secrets private_key f config) ≡ route_mode config
  unfolding route_mode with_secrets with_preshared
  route_mode-with_secrets private_key config =
      ap (λ b. if b then full else split)
        (any-with_preshared (λ peer. any (λ p. p.bits_plus_one == 1) peer.allowed_ips) config.peers
          (λ p. refl))

  -- The details of a profile are the same whatever its private key is, and whatever its preshared
  -- keys are, but for which of them are zero.
  pub detail-with_secrets :
      (private_key : Key) (config : Config)
      → detail packages (with_secrets private_key f config) ≡ detail packages config
  unfolding detail with_secrets has_hooks display_name
  detail-with_secrets private_key config =
      rw
        (
          map-peer_detail config.peers,
          dns_server-with_preshared config.peers,
          route_mode-with_secrets private_key config,
        )
        refl
