-- ===== src/Conf/Parser/Quick/Keys.antt =====
-- conf/parser.go: what each key of a section sets.
use wireroute_windows.Base.{List, [], ◌∷◌, ◌++◌, Bool, true, if◌then◌else◌, Option, none, some}
use wireroute_windows.Base.Result.{Result, ok, err, ◌>>=◌}
use wireroute_windows.Base.Text.{Text, codes, same}
use wireroute_windows.Conf.Config.{Interface, Peer}
use wireroute_windows.Conf.Netip.{Addr, Prefix}
use wireroute_windows.Conf.Parser.{
  ParseError, parse_error, invalid_interface_key, invalid_peer_key, Library,
}
use wireroute_windows.Conf.Parser.Values.{
  parse_mtu, parse_port, parse_persistent_keepalive, parse_table_off, split_list, parse_ip_cidr,
  parse_key_base64, parse_endpoint,
}

-- The cases of the two switches.
pub data InterfaceKey : Type 0 where
  private_key listen_port mtu address dns pre_up post_up pre_down post_down table : InterfaceKey

pub data PeerKey : Type 0 where
  public_key preshared_key allowed_ips persistent_keepalive endpoint : PeerKey

unfoldable pub find_key {ℓ} : {K : Type ℓ} → Text → List (Text × K) → Option K
find_key key [] = none
find_key key (k ∷ keys) = if same key k.0 then some k.1 else find_key key keys

abbrev pub interface_keys : List (Text × InterfaceKey)
interface_keys =
    (codes "privatekey", InterfaceKey.private_key)
    ∷ (codes "listenport", InterfaceKey.listen_port)
    ∷ (codes "mtu", InterfaceKey.mtu)
    ∷ (codes "address", InterfaceKey.address)
    ∷ (codes "dns", InterfaceKey.dns)
    ∷ (codes "preup", InterfaceKey.pre_up)
    ∷ (codes "postup", InterfaceKey.post_up)
    ∷ (codes "predown", InterfaceKey.pre_down)
    ∷ (codes "postdown", InterfaceKey.post_down)
    ∷ (codes "table", InterfaceKey.table)
    ∷ []

abbrev pub peer_keys : List (Text × PeerKey)
peer_keys =
    (codes "publickey", PeerKey.public_key)
    ∷ (codes "presharedkey", PeerKey.preshared_key)
    ∷ (codes "allowedips", PeerKey.allowed_ips)
    ∷ (codes "persistentkeepalive", PeerKey.persistent_keepalive)
    ∷ (codes "endpoint", PeerKey.endpoint)
    ∷ []

-- An entry that is no address is a domain to search.
unfoldable pub add_dns_entry : Text → Option Addr → Interface → Interface
add_dns_entry text none i = record i { dns_search = i.dns_search ++ (text ∷ []) }
add_dns_entry text (some a) i = record i { dns = i.dns ++ (a ∷ []) }

module _ (lib : Library) where
  unfoldable pub parse_prefixes : List Text → Result ParseError (List Prefix)
  parse_prefixes [] = ok []
  parse_prefixes (text ∷ texts) = do
    a ← parse_ip_cidr lib text
    rest ← parse_prefixes texts
    ok (a ∷ rest)

  unfoldable pub add_dns : List Text → Interface → Interface
  add_dns [] i = i
  add_dns (text ∷ texts) i = add_dns texts (add_dns_entry text (lib.parse_addr text) i)

  -- The interface with the value set, and whether a private key has been seen.
  unfoldable pub set_known_interface_key :
      InterfaceKey → Text → Interface → Bool → Result ParseError (Interface × Bool)
  set_known_interface_key InterfaceKey.private_key val i seen =
      parse_key_base64 lib val >>= λ k. ok (record i { private_key = k }, true)
  set_known_interface_key InterfaceKey.listen_port val i seen =
      parse_port val >>= λ p. ok (record i { listen_port = p }, seen)
  set_known_interface_key InterfaceKey.mtu val i seen =
      parse_mtu val >>= λ m. ok (record i { mtu = m }, seen)
  set_known_interface_key InterfaceKey.address val i seen = do
    texts ← split_list val
    as_prefixes ← parse_prefixes texts
    ok (record i { addresses = i.addresses ++ as_prefixes }, seen)
  set_known_interface_key InterfaceKey.dns val i seen =
      split_list val >>= λ texts. ok (add_dns texts i, seen)
  set_known_interface_key InterfaceKey.pre_up val i seen = ok (record i { pre_up = val }, seen)
  set_known_interface_key InterfaceKey.post_up val i seen = ok (record i { post_up = val }, seen)
  set_known_interface_key InterfaceKey.pre_down val i seen = ok (record i { pre_down = val }, seen)
  set_known_interface_key InterfaceKey.post_down val i seen =
      ok (record i { post_down = val }, seen)
  set_known_interface_key InterfaceKey.table val i seen =
      parse_table_off val >>= λ off. ok (record i { table_off = off }, seen)

  unfoldable pub set_interface_key :
      Text → Text → Interface → Bool → Result ParseError (Interface × Bool)
  set_interface_key key val i seen = known (find_key key interface_keys)
    where
      known : Option InterfaceKey → Result ParseError (Interface × Bool)
      known none = err (parse_error invalid_interface_key key)
      known (some k) = set_known_interface_key k val i seen

  unfoldable pub set_known_peer_key : PeerKey → Text → Peer → Result ParseError Peer
  set_known_peer_key PeerKey.public_key val p =
      parse_key_base64 lib val >>= λ k. ok (record p { public_key = k })
  set_known_peer_key PeerKey.preshared_key val p =
      parse_key_base64 lib val >>= λ k. ok (record p { preshared_key = k })
  set_known_peer_key PeerKey.allowed_ips val p = do
    texts ← split_list val
    as_prefixes ← parse_prefixes texts
    ok (record p { allowed_ips = p.allowed_ips ++ as_prefixes })
  set_known_peer_key PeerKey.persistent_keepalive val p =
      parse_persistent_keepalive val >>= λ n. ok (record p { persistent_keepalive = n })
  set_known_peer_key PeerKey.endpoint val p =
      parse_endpoint lib val >>= λ e. ok (record p { endpoint = e })

  unfoldable pub set_peer_key : Text → Text → Peer → Result ParseError Peer
  set_peer_key key val p = known (find_key key peer_keys)
    where
      known : Option PeerKey → Result ParseError Peer
      known none = err (parse_error invalid_peer_key key)
      known (some k) = set_known_peer_key k val p
