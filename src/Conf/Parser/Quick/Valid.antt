-- ===== src/Conf/Parser/Quick/Valid.antt =====
-- Well-formed values, and the keys of a section in `FromWgQuick`.
use wireroute_windows.Base.{
  ℕ, ◌≤◌, ◌≡◌, ◌⊎◌, inl, inr, List, [], ◌∷◌, Bool, ◌==◌, ltb, take, drop, suc, ◌||◌, length, Option,
  none, some, arith, Option-cases,
}
use wireroute_windows.Base.Numbers.{ℤ, pos, negsuc, atoi}
use wireroute_windows.Base.Result.{
  Result, ok, err, ◌>>=◌, Holds, Holds->>=, Holds-if, Holds-reject_if, Holds-any, Holds-map,
}
use wireroute_windows.Base.Text.{Text, codes, same, is_empty}
use wireroute_windows.Conf.Config.{key_length, Endpoint, Interface, Peer}
use wireroute_windows.Conf.Netip.{Addr}
use wireroute_windows.Conf.Parser.{ParseError, parse_error, invalid_endpoint_host, Library}
use wireroute_windows.Conf.Parser.Values.{
  in_range, atoi_in, parse_mtu, parse_port, parse_persistent_keepalive, parse_key_base64,
  endpoint_host, parse_endpoint, parse_table_off, split_list, last_index_of,
}
use wireroute_windows.Conf.Parser.Quick.Keys.{
  InterfaceKey, PeerKey, parse_prefixes, add_dns, add_dns_entry, set_known_interface_key,
  set_interface_key, set_known_peer_key, set_peer_key, find_key, interface_keys, peer_keys,
}

abbrev pub IsValidInterface : Interface → Type 0
IsValidInterface i =
    (length i.private_key ≡ key_length)
    × (i.listen_port ≤ 65535)
    × ((i.mtu ≡ 0) ⊎ ((576 ≤ i.mtu) × (i.mtu ≤ 65535)))

abbrev pub IsValidPeer : Peer → Type 0
IsValidPeer p =
    (length p.public_key ≡ key_length)
    × (length p.preshared_key ≡ key_length)
    × (p.endpoint.port ≤ 65535)
    × (p.persistent_keepalive ≤ 65535)

in_range-Holds :
    (low high : ℕ) (e : ParseError) (m : ℤ)
    → Holds (λ n. (low ≤ n) × (n ≤ high)) (in_range low high e m)
unfolding in_range
in_range-Holds low high e (negsuc n) = tt
in_range-Holds low high e (pos n) =
    Holds-if _ (ltb n low || ltb high n) (err e) (ok n) (λ _. tt)
      (λ h. (ground arith, ground arith))

atoi_in-Holds :
    (low high : ℕ) (e : ParseError) (s : Text)
    → Holds (λ n. (low ≤ n) × (n ≤ high)) (atoi_in low high e s)
unfolding atoi_in
atoi_in-Holds low high e s = elim (Option-cases (atoi s)) [
  | inl h ↦ rw h tt
  | inr (m, h) ↦ rw h (in_range-Holds low high e m)
]

parse_persistent_keepalive-Holds :
    (s : Text) → Holds (λ n. n ≤ 65535) (parse_persistent_keepalive s)
unfolding parse_persistent_keepalive
parse_persistent_keepalive-Holds s =
    Holds-if _ (same s (codes "off")) (ok 0) (atoi_in 0 65535 _ s) (λ _. omega arith)
      (λ _. Holds-map _ _ (atoi_in 0 65535 _ s) (λ n h. h.1) (atoi_in-Holds 0 65535 _ s))

add_dns_entry-IsValidInterface :
    (text : Text) (o : Option Addr) (i : Interface)
    → IsValidInterface i
    → IsValidInterface (add_dns_entry text o i)
unfolding add_dns_entry
add_dns_entry-IsValidInterface text none i h = h
add_dns_entry-IsValidInterface text (some a) i h = h

module _ (lib : Library) where
  parse_key_base64-Holds : (s : Text) → Holds (λ k. length k ≡ key_length) (parse_key_base64 lib s)
  unfolding parse_key_base64
  parse_key_base64-Holds s = elim (Option-cases (lib.decode_string s)) [
    | inl h ↦ rw h tt
    | inr (k, h) ↦
        rw h (Holds-if _ (length k == key_length) (ok k) (err _) (λ e. ground arith) (λ _. tt))
  ]

  abbrev host_and_port : Text → ℕ → Result ParseError Endpoint
  host_and_port s i = parse_port (drop (suc i) s) >>= λ p.
      endpoint_host lib (take i s) >>= λ h. ok (record { host = h; port = p })

  host_and_port-Holds : (s : Text) (i : ℕ) → Holds (λ e. e.port ≤ 65535) (host_and_port s i)
  unfolding parse_port
  host_and_port-Holds s i =
      Holds->>= (λ n. (0 ≤ n) × (n ≤ 65535)) (λ e. e.port ≤ 65535) (parse_port (drop (suc i) s)) _
        (atoi_in-Holds 0 65535 _ (drop (suc i) s))
        (λ p q.
          Holds->>= (λ _. Unit) (λ e. e.port ≤ 65535) (endpoint_host lib (take i s)) _
            (Holds-any (endpoint_host lib (take i s))) (λ _ _. q.1))

  parse_endpoint-Holds : (s : Text) → Holds (λ e. e.port ≤ 65535) (parse_endpoint lib s)
  unfolding parse_endpoint
  parse_endpoint-Holds s = elim (Option-cases (last_index_of b':' s)) [
    | inl h ↦ rw h tt
    | inr (i, h) ↦ rw h (
        Holds-reject_if (λ e. e.port ≤ 65535) (is_empty (take i s))
          (parse_error invalid_endpoint_host (take i s)) (host_and_port s i)
          (λ _. host_and_port-Holds s i))
  ]

  -- Setting DNS servers changes nothing that is checked.
  add_dns-IsValidInterface :
      (texts : List Text) (i : Interface)
      → IsValidInterface i
      → IsValidInterface (add_dns lib texts i)
  unfolding add_dns
  add_dns-IsValidInterface [] i h = h
  add_dns-IsValidInterface (text ∷ texts) i h =
      add_dns-IsValidInterface texts _
        (add_dns_entry-IsValidInterface text (lib.parse_addr text) i h)

  set_known_interface_key-Holds :
      (k : InterfaceKey) (val : Text) (i : Interface) (seen : Bool)
      → IsValidInterface i
      → Holds (λ r. IsValidInterface r.0) (set_known_interface_key lib k val i seen)
  unfolding set_known_interface_key parse_port parse_mtu
  set_known_interface_key-Holds InterfaceKey.private_key val i seen h =
      Holds->>= _ _ (parse_key_base64 lib val) _ (parse_key_base64-Holds val) (λ k e. (e, h.1, h.2))
  set_known_interface_key-Holds InterfaceKey.listen_port val i seen h =
      Holds->>= _ _ (atoi_in 0 65535 _ val) _ (atoi_in-Holds 0 65535 _ val) (λ p e. (h.0, e.1, h.2))
  set_known_interface_key-Holds InterfaceKey.mtu val i seen h =
      Holds->>= _ _ (atoi_in 576 65535 _ val) _ (atoi_in-Holds 576 65535 _ val)
        (λ m e. (h.0, h.1, inr e))
  set_known_interface_key-Holds InterfaceKey.address val i seen h =
      Holds->>= _ _ (split_list val) _ (Holds-any (split_list val)) (λ texts _.
        Holds->>= _ _ (parse_prefixes lib texts) _ (Holds-any (parse_prefixes lib texts))
          (λ _ _. h))
  set_known_interface_key-Holds InterfaceKey.dns val i seen h =
      Holds->>= _ _ (split_list val) _ (Holds-any (split_list val))
        (λ texts _. add_dns-IsValidInterface texts i h)
  set_known_interface_key-Holds InterfaceKey.pre_up val i seen h = h
  set_known_interface_key-Holds InterfaceKey.post_up val i seen h = h
  set_known_interface_key-Holds InterfaceKey.pre_down val i seen h = h
  set_known_interface_key-Holds InterfaceKey.post_down val i seen h = h
  set_known_interface_key-Holds InterfaceKey.table val i seen h =
      Holds->>= _ _ (parse_table_off val) _ (Holds-any (parse_table_off val)) (λ _ _. h)

  set_known_peer_key-Holds :
      (k : PeerKey) (val : Text) (p : Peer)
      → IsValidPeer p
      → Holds IsValidPeer (set_known_peer_key lib k val p)
  unfolding set_known_peer_key
  set_known_peer_key-Holds PeerKey.public_key val p h =
      Holds->>= _ _ (parse_key_base64 lib val) _ (parse_key_base64-Holds val)
        (λ k e. (e, h.1, h.2, h.3))
  set_known_peer_key-Holds PeerKey.preshared_key val p h =
      Holds->>= _ _ (parse_key_base64 lib val) _ (parse_key_base64-Holds val)
        (λ k e. (h.0, e, h.2, h.3))
  set_known_peer_key-Holds PeerKey.allowed_ips val p h =
      Holds->>= _ _ (split_list val) _ (Holds-any (split_list val)) (λ texts _.
        Holds->>= _ _ (parse_prefixes lib texts) _ (Holds-any (parse_prefixes lib texts))
          (λ _ _. h))
  set_known_peer_key-Holds PeerKey.persistent_keepalive val p h =
      Holds->>= _ _ (parse_persistent_keepalive val) _ (parse_persistent_keepalive-Holds val)
        (λ n e. (h.0, h.1, h.2, e))
  set_known_peer_key-Holds PeerKey.endpoint val p h =
      Holds->>= _ _ (parse_endpoint lib val) _ (parse_endpoint-Holds val)
        (λ n e. (h.0, h.1, e, h.3))

  pub set_interface_key-Holds :
      (key val : Text) (i : Interface) (seen : Bool)
      → IsValidInterface i
      → Holds (λ r. IsValidInterface r.0) (set_interface_key lib key val i seen)
  unfolding set_interface_key
  set_interface_key-Holds key val i seen h = elim (Option-cases (find_key key interface_keys)) [
    | inl e ↦ rw e tt
    | inr (k, e) ↦ rw e (set_known_interface_key-Holds k val i seen h)
  ]

  pub set_peer_key-Holds :
      (key val : Text) (p : Peer) → IsValidPeer p → Holds IsValidPeer (set_peer_key lib key val p)
  unfolding set_peer_key
  set_peer_key-Holds key val p h = elim (Option-cases (find_key key peer_keys)) [
    | inl e ↦ rw e tt
    | inr (k, e) ↦ rw e (set_known_peer_key-Holds k val p h)
  ]
