-- ===== src/Conf/Tests/Config.antt =====
-- The theorems on configurations at concrete ones.
use wireroute_windows.Base.{◌≡◌, refl, [], ◌∷◌, true, replicate}
use wireroute_windows.Base.Text.{Text, codes}
use wireroute_windows.Conf.Config.{Config}
use wireroute_windows.Conf.Config.Operations.{
  intersects_with, deduplicate_network_entries, redact, all_routes,
}
use wireroute_windows.Conf.Config.Operations.Routes.{routes, shares, intersects_with-shares}
use wireroute_windows.Conf.Config.Operations.Repeats.{
  IsDeduplicated, PeersDeduplicated, deduplicate_network_entries-IsDeduplicated,
}
use wireroute_windows.Conf.Config.Operations.Secrets.{redact-public}
use wireroute_windows.Conf.Netip.{
  Addr, v4, v6, zero_addr, Prefix, same_prefix, same_addr, masked, prefix_from,
}
use wireroute_windows.Conf.Tests.Samples.{sample_config, server}

-- Another configuration, with an address inside a network of the sample's peer, twice.
abbrev other_config : Config
other_config = record sample_config {
  interface = record (sample_config.interface) {
    private_key = replicate 32 7;
    addresses =
        record { ip = server; bits_plus_one = 9 } ∷ record { ip = server; bits_plus_one = 9 } ∷ [];
  };
  peers = [];
}

intersects : intersects_with sample_config other_config ≡ true
unfolding intersects_with all_routes same_prefix same_addr prefix_from masked
intersects = refl

intersects_with-shares_example :
    intersects_with sample_config other_config ≡ shares (routes sample_config) (routes other_config)
intersects_with-shares_example = intersects_with-shares sample_config other_config

abbrev addr_text : Addr → Text
addr_text zero_addr = []
addr_text (v4 n) = n ∷ []
addr_text (v6 n zone) = n ∷ zone

abbrev prefix_text : Prefix → Text
prefix_text p = p.bits_plus_one ∷ addr_text p.ip

deduplicate_network_entries-IsDeduplicated_example :
    let result = deduplicate_network_entries prefix_text addr_text other_config in
    IsDeduplicated prefix_text other_config.interface.addresses result.interface.addresses
    × IsDeduplicated addr_text other_config.interface.dns result.interface.dns
    × PeersDeduplicated prefix_text addr_text other_config.peers result.peers
    × (result ≡ record other_config {
      interface = record (other_config.interface) {
        addresses = result.interface.addresses;
        dns = result.interface.dns;
      };
      peers = result.peers;
    })
deduplicate_network_entries-IsDeduplicated_example =
    deduplicate_network_entries-IsDeduplicated prefix_text addr_text other_config

abbrev secret_config : Config
secret_config = record sample_config {
  interface = record (sample_config.interface) {
    private_key = replicate 32 9;
    post_up = codes "start";
  };
}

redact-public_example : redact sample_config ≡ redact secret_config
redact-public_example = redact-public sample_config secret_config refl refl refl
