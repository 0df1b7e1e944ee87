-- ===== src/Conf/Driver/Back.antt =====
-- conf/parser.go behind conf/writer.go: what the driver is given is read back.
use wireroute_windows.Base.{
  ℕ, suc, ◌<◌, ◌^◌, ◌%◌, ◌≡◌, refl, sym, ap, ap₂, ◌∙◌, inl, inr, List, [], ◌∷◌, ◌++◌, map, true,
  false, ◌==◌, length, All, Option, none, some, Bool-cases, Option-cases, arith,
}
use wireroute_windows.Base.Numbers.{parse_digits}
use wireroute_windows.Base.Text.{Text, same_iff}
use wireroute_windows.Conf.Config.{Key, Endpoint, Peer, Config}
use wireroute_windows.Conf.Config.Operations.{zero_key, no_comments, is_zero, endpoint_is_empty}
use wireroute_windows.Conf.Driver.{
  Chunk, peer_chunk, allowed_ip_chunk, DriverPeer, has, socket_address, allowed_ip_of, resolved,
  peer_of, append_peers, to_driver_configuration, prefix_of, chain, read_allowed_ips, peer_from,
  read_peers, config_from, from_driver_configuration,
}
use wireroute_windows.Conf.Netip.{
  Addr, zero_addr, v4, v6, Prefix, prefix_from, bit_len, without_zone,
}
use wireroute_windows.Conf.RoundTrip.{IsPrefix, IsPrefixOf}

prefix_of-allowed_ip_of : (p : Prefix) → IsPrefix p → prefix_of (allowed_ip_of p) ≡ p
unfolding prefix_of allowed_ip_of prefix_from bit_len without_zone
prefix_of-allowed_ip_of p h = back p.ip p.bits_plus_one h
  where
    back :
        (a : Addr) (b : ℕ)
        → IsPrefixOf a b
        → prefix_of (allowed_ip_of (record { ip = a; bits_plus_one = b }))
          ≡ record { ip = a; bits_plus_one = b }
    back zero_addr b h = absurd h
    back (v4 n) b h = ap (λ (c : ℕ). record { ip = v4 n; bits_plus_one = c }) (ground arith)
    back (v6 n zone) b (k, z, low, high) =
        ap₂ (λ (y : Text) (c : ℕ). record { ip = v6 n y; bits_plus_one = c }) (sym z) (ground arith)

abbrev allowed_ip_chunks : List Prefix → List Chunk
allowed_ip_chunks ps = map (λ a. allowed_ip_chunk (allowed_ip_of a)) ps

read_allowed_ips-chunks :
    (ps : List Prefix) (rest : List Chunk)
    → All IsPrefix ps
    → read_allowed_ips (length ps) (allowed_ip_chunks ps ++ rest) ≡ some (ps, rest)
unfolding read_allowed_ips chain
read_allowed_ips-chunks [] rest h = refl
read_allowed_ips-chunks (p ∷ ps) rest (h, hs) =
    rw (read_allowed_ips-chunks ps rest hs)
      (ap (λ q. some (q ∷ ps, rest)) (prefix_of-allowed_ip_of p h))

is_zero_lem : (k : Key) → is_zero k ≡ true → zero_key ≡ k
unfolding is_zero
is_zero_lem k h = (same_iff zero_key k).0 h

-- An address without a zone.
abbrev pub HasNoZone : Addr → Type 0
HasNoZone zero_addr = ⊥
HasNoZone (v4 n) = Unit
HasNoZone (v6 n zone) = zone ≡ []

module _ (parse_addr : Text → Option Addr) (addr_text : Addr → Text) where
  -- The address that a host is, if it is one.
  abbrev host_addr : Text → Option Addr
  host_addr [] = none
  host_addr (c ∷ host) = parse_addr (c ∷ host)

  abbrev addressed : Option Addr → (port : ℕ) → Endpoint
  addressed none port = record { host = []; port = 0 }
  addressed (some a) port = record { host = addr_text a; port = port }

  -- What the driver keeps of a peer: the host of its endpoint as the text of the address that it is, and
  -- no endpoint if its host is no address.
  abbrev pub kept_peer : Peer → Peer
  kept_peer p = record p {
    endpoint = addressed (host_addr p.endpoint.host) p.endpoint.port;
    rx_bytes = 0;
    tx_bytes = 0;
    last_handshake_time = 0;
    comments = no_comments;
  }

  socket_address_same : (a : Addr) (port : ℕ) → HasNoZone a → socket_address a port ≡ (a, port)
  unfolding socket_address parse_digits
  socket_address_same zero_addr port h = absurd h
  socket_address_same (v4 n) port h = refl
  socket_address_same (v6 n zone) port h = rw h refl

  abbrev with_entries : Peer → Key → Endpoint → Peer
  with_entries p k e = record (kept_peer p) { preshared_key = k; endpoint = e }

  abbrev endpoint_of : Option (Addr × ℕ) → Endpoint
  endpoint_of none = record { host = []; port = 0 }
  endpoint_of (some a) = record { host = addr_text a.0; port = a.1 }

  peer_from-entries :
      (p : Peer) (o : Option (Addr × ℕ))
      → peer_from addr_text (peer_of p o) p.allowed_ips
        ≡ with_entries p p.preshared_key (endpoint_of o)
  unfolding peer_from peer_of has
  peer_from-entries p none = elim (Bool-cases (is_zero p.preshared_key)) [
    | inl z ↦ rw z (ap (λ k. with_entries p k (endpoint_of none)) (is_zero_lem p.preshared_key z))
    | inr z ↦ rw z refl
  ]
  peer_from-entries p (some a) = elim (Bool-cases (is_zero p.preshared_key)) [
    | inl z ↦
        rw z (ap (λ k. with_entries p k (endpoint_of (some a))) (is_zero_lem p.preshared_key z))
    | inr z ↦ rw z refl
  ]

  endpoint_of-resolved :
      (host : Text) (port : ℕ)
      → ((a : Addr) → parse_addr host ≡ some a → HasNoZone a)
      → endpoint_of (resolved parse_addr (record { host = host; port = port }))
        ≡ addressed (host_addr host) port
  unfolding resolved endpoint_is_empty
  endpoint_of-resolved [] port h = refl
  endpoint_of-resolved (c ∷ host) port h =
      let present : (length (c ∷ host) == 0) ≡ false = ground arith in
      elim (Option-cases (parse_addr (c ∷ host))) [
        | inl no_addr ↦ rw (present, no_addr) refl
        | inr (a, parsed) ↦
            rw (present, parsed)
              (ap (λ r. endpoint_of (some r)) (socket_address_same a port (h a parsed)))
      ]

  -- What is asked of a peer: if its host is an address, that has no zone; its prefixes are valid, and
  -- they are less than 2^32.
  abbrev pub IsDriverPeer : Peer → Type 0
  IsDriverPeer p =
      ((a : Addr) → parse_addr p.endpoint.host ≡ some a → HasNoZone a)
      × All IsPrefix p.allowed_ips
      × (length p.allowed_ips < 2 ^ 32)

  peer_from-peer_of :
      (p : Peer)
      → IsDriverPeer p
      → peer_from addr_text (peer_of p (resolved parse_addr p.endpoint)) p.allowed_ips ≡ kept_peer p
  peer_from-peer_of p h =
      peer_from-entries p (resolved parse_addr p.endpoint)
      ∙ ap (with_entries p p.preshared_key)
          (endpoint_of-resolved p.endpoint.host p.endpoint.port h.0)

  allowed_ips_count_lem :
      (p : Peer) (o : Option (Addr × ℕ))
      → length p.allowed_ips < 2 ^ 32
      → (peer_of p o).allowed_ips_count ≡ length p.allowed_ips
  unfolding peer_of
  allowed_ips_count_lem p o h = omega arith

  read_peers-step :
      (p : DriverPeer) (ps : List Prefix) (count : ℕ) (rest : List Chunk)
      → All IsPrefix ps
      → p.allowed_ips_count ≡ length ps
      → read_peers addr_text (suc count) (peer_chunk p ∷ (allowed_ip_chunks ps ++ rest))
        ≡ chain (read_peers addr_text count rest) (λ peers. some (peer_from addr_text p ps ∷ peers))
  unfolding read_peers chain
  read_peers-step p ps count rest hs h =
      let go : List Prefix × List Chunk → Option (List Peer) = λ r.
        chain (read_peers addr_text count r.1)
          (λ peers. some (peer_from addr_text p r.0 ∷ peers)) in
      ap (λ (n : ℕ). chain (read_allowed_ips n (allowed_ip_chunks ps ++ rest)) go) h
      ∙ ap (λ o. chain o go) (read_allowed_ips-chunks ps rest hs)

  read_peers-append_peers :
      (ps : List Peer)
      → All IsDriverPeer ps
      → read_peers addr_text (length ps) (append_peers parse_addr ps) ≡ some (map kept_peer ps)
  unfolding read_peers append_peers chain
  read_peers-append_peers [] h = refl
  read_peers-append_peers (p ∷ ps) (h, hs) =
      let set = resolved parse_addr p.endpoint in
      read_peers-step (peer_of p set) p.allowed_ips (length ps) (append_peers parse_addr ps) (h.1)
        (allowed_ips_count_lem p set (h.2))
      ∙ ap
          (λ o. chain o (λ peers. some (peer_from addr_text (peer_of p set) p.allowed_ips ∷ peers)))
          (read_peers-append_peers ps hs)
      ∙ ap (λ q. some (q ∷ map kept_peer ps)) (peer_from-peer_of p h)

  -- If addresses of endpoints have no zone, prefixes are valid, and the counts are words of 32 bits:
  -- of what `ToDriverConfiguration` appends, `FromDriverConfiguration` makes the configuration again,
  -- but for its comments, the counters of its peers, and their endpoints: where the host is an
  -- address, it is read back as the text of that address, and else there is no endpoint.
  pub from_driver-to_driver :
      (conf : Config)
      → All IsDriverPeer conf.peers
      → length conf.peers < 2 ^ 32
      → from_driver_configuration addr_text (to_driver_configuration parse_addr conf) conf
        ≡ some (record conf {
          interface = record (conf.interface) { comments = no_comments };
          peers = map kept_peer conf.peers;
          trailing_comments = [];
        })
  unfolding from_driver_configuration to_driver_configuration chain config_from has
  from_driver-to_driver conf h k =
      let count : length conf.peers % 2 ^ 32 ≡ length conf.peers = omega arith in
      rw count (rw (read_peers-append_peers conf.peers h) refl)
