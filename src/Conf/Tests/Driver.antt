-- ===== src/Conf/Tests/Driver.antt =====
-- A configuration that the driver is given and that is read back.
use mathlib.Core.Option.{some-injective, none-ne-some}
use wireroute_windows.Base.{
  ◌≡◌, refl, subst, Bool-cases, inl, inr, [], ◌∷◌, map, All, Option, none, some, if◌then◌else◌,
  arith,
}
use wireroute_windows.Base.Text.{Text, codes, same}
use wireroute_windows.Conf.Config.{Peer, Config}
use wireroute_windows.Conf.Config.Operations.{no_comments}
use wireroute_windows.Conf.Driver.{to_driver_configuration, from_driver_configuration}
use wireroute_windows.Conf.Driver.Back.{HasNoZone, kept_peer, from_driver-to_driver}
use wireroute_windows.Conf.Netip.{Addr, v4, v6}
use wireroute_windows.Conf.RoundTrip.{IsPrefix}
use wireroute_windows.Conf.Tests.Samples.{sample_config, sample_peer, server}

abbrev lettered : Addr
lettered = v6 1 []

abbrev parse_addr : Text → Option Addr
parse_addr s =
    if same s (codes "10.0.0.1")
    then some server
    else (if same s (codes "2001:DB8::1") then some lettered else none)

abbrev addr_text : Addr → Text
addr_text (v4 n) = codes "10.0.0.1"
addr_text _ = codes "2001:db8::1"

abbrev peer_at : Text → Peer
peer_at host = record sample_peer { endpoint = record { host = host; port = 51820 }; tx_bytes = 3 }

-- A peer has an address, one has it in other letters than the package, one a name, and one nothing.
abbrev driver_config : Config
driver_config = record sample_config {
  peers =
      peer_at (codes "10.0.0.1")
      ∷ peer_at (codes "2001:DB8::1")
      ∷ peer_at (codes "example.com")
      ∷ sample_peer
      ∷ [];
}

-- Each address that is parsed has no zone.
no_zone : (host : Text) (a : Addr) → parse_addr host ≡ some a → HasNoZone a
no_zone host a h = elim (Bool-cases (same host (codes "10.0.0.1"))) [
  | inl e ↦ subst HasNoZone (some-injective _ _ (rw e at h)) tt
  | inr e ↦ elim (Bool-cases (same host (codes "2001:DB8::1"))) [
    | inl f ↦ subst HasNoZone (some-injective _ _ (rw (e, f) at h)) refl
    | inr f ↦ absurd (none-ne-some _ (rw (e, f) at h))
  ]
]

sample_prefixes : All IsPrefix sample_peer.allowed_ips
sample_prefixes =
    ((omega arith, omega arith, omega arith), ((omega arith, omega arith, omega arith), tt))

-- What the driver has of these, in turn.
read_back :
    map (λ (p : Peer). (kept_peer parse_addr addr_text p).endpoint) driver_config.peers
    ≡ record { host = codes "10.0.0.1"; port = 51820 }
      ∷ record { host = codes "2001:db8::1"; port = 51820 }
      ∷ record { host = []; port = 0 }
      ∷ record { host = []; port = 0 }
      ∷ []
unfolding same
read_back = refl

from_driver-to_driver_example :
    from_driver_configuration addr_text
      (to_driver_configuration parse_addr driver_config)
      driver_config
    ≡ some (record driver_config {
      interface = record (driver_config.interface) { comments = no_comments };
      peers = map (kept_peer parse_addr addr_text) driver_config.peers;
      trailing_comments = [];
    })
from_driver-to_driver_example =
    from_driver-to_driver parse_addr addr_text driver_config
      (
        (no_zone (codes "10.0.0.1"), sample_prefixes, omega arith),
        (
          (no_zone (codes "2001:DB8::1"), sample_prefixes, omega arith),
          (
            (no_zone (codes "example.com"), sample_prefixes, omega arith),
            ((no_zone [], sample_prefixes, omega arith), tt),
          ),
        ),
      )
      (omega arith)
