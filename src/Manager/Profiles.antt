-- ===== src/Manager/Profiles.antt =====
-- manager/protocol_v1.go: profiles, which are the stored configurations as the protocol shows them.
pub mod Detail
pub mod Import
use wireroute_windows.Base.{
  ℕ, List, [], ◌∷◌, ◌++◌, map, Bool, true, false, not, ◌&&◌, ◌||◌, ◌==◌, ltb, any, if◌then◌else◌,
  Option, none, some,
}
use wireroute_windows.Base.Result.{Result, ok, err, ◌>>=◌, value_or}
use wireroute_windows.Base.Text.{Text, codes, is_empty, utf8_length}
use wireroute_windows.Conf.Config.{Key, Endpoint, Peer, Interface, Config}
use wireroute_windows.Conf.Config.Operations.{is_zero, endpoint_is_empty, endpoint_text}
use wireroute_windows.Conf.Name.Sort.{tunnel_name_is_less}
use wireroute_windows.Conf.Netip.{Addr, Prefix, contains_addr}
use wireroute_windows.Conf.Parser.{ParseError, Library}
use wireroute_windows.Conf.Parser.Quick.{from_wg_quick}
use wireroute_windows.Manager.Host.{
  TunnelState, unknown, started, stopped, starting, stopping, Error, remote, cannot_import,
  profile_not_found, profile_empty_or_large, profile_invalid, hooks_not_allowed, Host,
}
use wireroute_windows.Manager.Frames.{maximum_frame_length}
use wireroute_windows.Manager.Service.{Manager, ManagerService, state, on_world}
use wireroute_windows.Manager.Available.{available_name}
use wireroute_windows.Manager.Display.{
  Encodings, validate_display_name, display_name, with_display_name,
}

-- What the protocol takes from Go's packages: base64 and UTF-8, what the parser takes, the texts of
-- addresses, `unicode.IsPunct`, sorting by a comparison, and the product of curve25519 with which a
-- private key has a public one.
pub record Packages : Type 0 where
  pub encodings : Encodings
  pub library : Library
  pub addr_text : Addr → Text
  pub prefix_text : Prefix → Text
  pub is_punct : ℕ → Bool
  pub sort_slice : (Text → Text → Bool) → List Text → List Text
  pub scalar_base_mult : Key → Key

pub data RouteMode : Type 0 where
  full split : RouteMode

pub record ProfileSummary : Type 0 where
  pub name : Text
  pub display_name : Text
  pub state : Text
  pub detected_route_mode : RouteMode
  pub interface_public_key : Text

unfoldable pub state_name : TunnelState → Text
state_name stopped = codes "stopped"
state_name starting = codes "starting"
state_name started = codes "started"
state_name stopping = codes "stopping"
state_name unknown = codes "unknown"

pub record DnsServer : Type 0 where
  pub address : Text
  pub through_tunnel : Bool

pub record PeerDetail : Type 0 where
  pub public_key : Text
  pub has_preshared_key : Bool
  pub allowed_ips : List Text
  pub endpoint : Option Text
  pub persistent_keepalive : Option ℕ

pub record ProfileDetail : Type 0 where
  pub name : Text
  pub display_name : Text
  pub interface_addresses : List Text
  pub dns_servers : List DnsServer
  pub dns_search_domains : List Text
  pub peers : List PeerDetail
  pub detected_route_mode : RouteMode
  pub has_hooks : Bool

pub record ImportProfileRequest : Type 0 where
  pub display_name : Text
  pub wg_quick_configuration : Text

-- `prefix.Bits() == 0`; a prefix that is not valid has -1.
unfoldable pub route_mode : Config → RouteMode
route_mode config =
    if any (λ peer. any (λ p. p.bits_plus_one == 1) peer.allowed_ips) config.peers
    then full
    else split

unfoldable pub has_hooks : Config → Bool
has_hooks config =
    not (is_empty config.interface.pre_up)
    || not (is_empty config.interface.post_up)
    || not (is_empty config.interface.pre_down)
    || not (is_empty config.interface.post_down)

unfoldable pub goes_through_tunnel : List Peer → Addr → Bool
goes_through_tunnel peers dns = any (λ peer. any (λ p. contains_addr p dns) peer.allowed_ips) peers

-- Names are kept short in the JSON that has no field for what is not there: the options.
module _ (packages : Packages) where
  unfoldable pub key_text : Key → Text
  key_text k = packages.encodings.encode_to_string k

  unfoldable pub summary : Config → TunnelState → ProfileSummary
  unfolding key_text state_name
  summary config s = record {
    name = config.name;
    display_name = display_name packages.encodings config;
    state = state_name s;
    detected_route_mode = route_mode config;
    interface_public_key = key_text (packages.scalar_base_mult config.interface.private_key);
  }

  unfoldable pub peer_detail : Peer → PeerDetail
  unfolding key_text
  peer_detail peer = record {
    public_key = key_text peer.public_key;
    has_preshared_key = not (is_zero peer.preshared_key);
    allowed_ips = map packages.prefix_text peer.allowed_ips;
    endpoint =
        if not (endpoint_is_empty peer.endpoint) then some (endpoint_text peer.endpoint) else none;
    persistent_keepalive =
        if not (peer.persistent_keepalive == 0) then some peer.persistent_keepalive else none;
  }

  unfoldable pub dns_server : List Peer → Addr → DnsServer
  unfolding goes_through_tunnel
  dns_server peers dns = record {
    address = packages.addr_text dns;
    through_tunnel = goes_through_tunnel peers dns;
  }

  unfoldable pub detail : Config → ProfileDetail
  unfolding peer_detail dns_server
  detail config = record {
    name = config.name;
    display_name = display_name packages.encodings config;
    interface_addresses = map packages.prefix_text config.interface.addresses;
    dns_servers = map (dns_server config.peers) config.interface.dns;
    dns_search_domains = config.interface.dns_search;
    peers = map peer_detail config.peers;
    detected_route_mode = route_mode config;
    has_hooks = has_hooks config;
  }

  module _ {S : Type 0} (host : Host S) where
    unfoldable pub summaries : Manager S → List Text → List ProfileSummary
    summaries m [] = []
    summaries m (name ∷ names) = loaded (host.load_from_name m.world name) (summaries m names)
      where
        loaded : Result Error Config → List ProfileSummary → List ProfileSummary
        loaded (err _) rest = rest
        loaded (ok config) rest = summary config (value_or unknown (state host name m)) ∷ rest

    unfoldable pub list_profiles : Manager S → Result Error (List ProfileSummary)
    unfolding summaries
    list_profiles m = do
      names ← host.list_config_names m.world
      ok (summaries m (packages.sort_slice (tunnel_name_is_less packages.library.to_lower) names))

    unfoldable pub get_profile : Text → Manager S → Result Error ProfileDetail
    get_profile name m = loaded (host.load_from_name m.world name)
      where
        loaded : Result Error Config → Result Error ProfileDetail
        loaded (err _) = err (remote profile_not_found)
        loaded (ok config) = ok (detail config)

    -- The steps of an import up to what is saved, from the last one on.
    unfoldable pub checked : Text → Result ParseError Config → Result Error Config
    checked name (err e) = err (remote (profile_invalid e))
    checked name (ok config) =
        if has_hooks config
        then err (remote hooks_not_allowed)
        else ok (with_display_name packages.encodings name config)

    unfoldable pub parsed : ImportProfileRequest → Text → Text → Result Error Config
    unfolding checked
    parsed request name tunnel =
        checked name (from_wg_quick packages.library request.wg_quick_configuration tunnel)

    unfoldable pub sized : ImportProfileRequest → S → Text → Result Error Config
    sized request w name =
        if utf8_length request.wg_quick_configuration == 0
          || ltb maximum_frame_length (utf8_length request.wg_quick_configuration)
        then err (remote profile_empty_or_large)
        else available_name packages.is_punct (host.list_config_names w) name
          >>= parsed request name

    -- `token` is 0 for a user who is no administrator.
    unfoldable pub imported : (token : ℕ) → ImportProfileRequest → S → Result Error Config
    imported token request w =
        if token == 0
        then err (remote cannot_import)
        else validate_display_name request.display_name >>= sized request w

    unfoldable pub import_profile :
        ManagerService → ImportProfileRequest → Manager S → Result Error ProfileSummary × Manager S
    unfolding imported on_world
    import_profile s request m = save (imported s.elevated_token request m.world)
      where
        saved :
            Config → Result Error (Unit {0}) × Manager S → Result Error ProfileSummary × Manager S
        saved config (err e, n) = (err e, n)
        saved config (ok _, n) = (ok (summary config stopped), n)

        save : Result Error Config → Result Error ProfileSummary × Manager S
        save (err e) = (err e, m)
        save (ok config) = saved config (on_world host (host.save config false) m)
