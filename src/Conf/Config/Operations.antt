-- ===== src/Conf/Config/Operations.antt =====
-- conf/config.go: shared routes, repeated entries, redaction, keys.
pub mod Routes
pub mod Compaction
pub mod Repeats
pub mod Secrets
use wireroute_windows.Base.{
  ℕ, zero, suc, ◌+◌, ◌*◌, ◌-◌, ◌/◌, ◌%◌, ◌^◌, List, [], ◌∷◌, ◌++◌, map, Bool, true, false, ◌&&◌,
  ◌||◌, ◌==◌, length, get_elem?, get_or, set, take, any, all, replicate, if◌then◌else◌, Option,
  none, some,
}
use wireroute_windows.Base.Bytes.{little_endian}
use wireroute_windows.Base.Text.{Text, codes, contains, same}
use wireroute_windows.Base.Numbers.{itoa}
use wireroute_windows.Conf.Netip.{Addr, Prefix, same_prefix, prefix_from, bit_len, masked}
use wireroute_windows.Conf.Config.{
  key_length, Key, Endpoint, Comments, SectionComments, Peer, Interface, Config,
}

unfoldable pub host_route : Prefix → Prefix
host_route a = prefix_from a.ip (bit_len a.ip)

-- The keys of `allRoutes`, the ones set last in front.
unfoldable pub add_addresses : List Prefix → List Prefix → List Prefix
unfolding host_route
add_addresses [] routes = routes
add_addresses (a ∷ xs) routes = add_addresses xs (masked a ∷ host_route a ∷ routes)

unfoldable pub add_allowed_ips : List Prefix → List Prefix → List Prefix
add_allowed_ips [] routes = routes
add_allowed_ips (a ∷ xs) routes = add_allowed_ips xs (masked a ∷ routes)

unfoldable pub add_peers : List Peer → List Prefix → List Prefix
unfolding add_allowed_ips
add_peers [] routes = routes
add_peers (p ∷ ps) routes = add_peers ps (add_allowed_ips p.allowed_ips routes)

unfoldable pub all_routes : Config → List Prefix
unfolding add_addresses add_peers
all_routes conf = add_peers conf.peers (add_addresses conf.interface.addresses [])

unfoldable pub intersects_with : Config → Config → Bool
intersects_with conf other =
    any (λ a. is_route (host_route a) || is_route (masked a)) other.interface.addresses
    || any (λ p. any (λ a. is_route (masked a)) p.allowed_ips) other.peers
  where
    is_route : Prefix → Bool
    is_route r = any (same_prefix r) (all_routes conf)

-- The three loops of `DeduplicateNetworkEntries` are this one: it reads entry k, and writes it at i
-- unless the map of the strings seen holds its string.
unfoldable pub compact_loop {ℓ} :
    {A : Type ℓ} → (A → Text) → ℕ → (k i : ℕ) → List Text → List A → List A × ℕ
compact_loop to_string zero k i seen xs = (xs, i)
compact_loop to_string (suc todo) k i seen xs = elim (get_elem? xs k) [
  | none ↦ (xs, i)
  | some x ↦ elim (any (same (to_string x)) seen) [
    | true ↦ compact_loop to_string todo (suc k) i seen xs
    | false ↦ compact_loop to_string todo (suc k) (suc i) (to_string x ∷ seen) (set xs i x)
  ]
]

unfoldable pub compact {ℓ} : {A : Type ℓ} → (A → Text) → List A → List A
compact to_string xs = let r = compact_loop to_string (length xs) 0 0 [] xs in take r.1 r.0

-- The addresses in text are the package's.
module _ (prefix_string : Prefix → Text) (addr_string : Addr → Text) where
  unfoldable pub deduplicate_peer : Peer → Peer
  deduplicate_peer p = record p { allowed_ips = compact prefix_string p.allowed_ips }

  unfoldable pub deduplicate_network_entries : Config → Config
  deduplicate_network_entries conf = record conf {
    interface = record (conf.interface) {
      addresses = compact prefix_string conf.interface.addresses;
      dns = compact addr_string conf.interface.dns;
    };
    peers = map deduplicate_peer conf.peers;
  }

abbrev pub zero_key : Key
zero_key = replicate key_length 0

abbrev pub no_comments : SectionComments
no_comments = record { header = record { before = []; suffix = [] }; lines = [] }

-- The key of peer i: its place, in the first 8 bytes.
unfoldable pub place_key : ℕ → Key
place_key i = little_endian 8 (i % 2 ^ 64) ++ replicate (key_length - 8) 0

unfoldable pub redact_peers : ℕ → List Peer → List Peer
redact_peers i [] = []
redact_peers i (p ∷ ps) =
    record p { public_key = place_key i; preshared_key = zero_key; comments = no_comments }
    ∷ redact_peers (suc i) ps

unfoldable pub redact : Config → Config
redact conf = record conf {
  interface = record (conf.interface) {
    private_key = zero_key;
    pre_up = [];
    post_up = [];
    pre_down = [];
    post_down = [];
    comments = no_comments;
  };
  peers = redact_peers 0 conf.peers;
  trailing_comments = [];
}

-- `k[0] &= 248` and `k[31] = (k[31] & 127) | 64`, on the bytes of a random key: 248 clears the three
-- low bits, 127 the high bit, and 64 sets the bit below it.
unfoldable pub clamp : Key → Key
clamp k = set (set k 0 (get_or k 0 0 / 8 * 8)) 31 (get_or k 31 0 % 64 + 64)

unfoldable pub endpoint_is_empty : Endpoint → Bool
endpoint_is_empty e = length e.host == 0

unfoldable pub is_zero : Key → Bool
is_zero k = same zero_key k

unfoldable pub endpoint_text : Endpoint → Text
endpoint_text e =
    if contains b':' e.host
    then b'[' ∷ e.host ++ codes "]:" ++ itoa e.port
    else e.host ++ b':' ∷ itoa e.port
