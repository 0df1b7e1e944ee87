-- ===== src/Tunnel/Tests.antt =====
-- The theorems on the tunnel service at concrete inputs, and runs of its code.
pub mod Watcher
use wireroute_windows.Base.{
  ℕ, suc, ◌≡◌, refl, List, [], ◌∷◌, true, false, not, some, none, arith, ◌+◌, ◌≤◌, ltb, length,
  replicate, if◌then◌else◌, ◌^◌, ◌-◌, All, Any, ◌⊎◌,
}
use wireroute_windows.Base.Text.{Text, codes}
use wireroute_windows.Base.Action.{ret, fail, ◌>>=◌}
use wireroute_windows.Base.Result.{Result, ok, err}
use wireroute_windows.Conf.Netip.{v4, is4, Prefix, same_addr, same_prefix, masked}
use wireroute_windows.Conf.Config.{Config}
use wireroute_windows.Conf.Tests.Samples.{sample_config, sample_peer}
use wireroute_windows.Tunnel.Address.{
  inet, IpInterface, WinIpCfg, error_not_found, check, read_interface, attempt, still_retries,
  attempts, after_attempt, configure_interface, found_route, found_address, in_family, takes_all,
  do_not_restrict,
}
use wireroute_windows.Tunnel.Mtu.{
  Route, Reading, Writing, no_best, combined_metric, better, best_of, find_default_luid, IsLowest,
  IsFrom, best_of_cases, Best, min_mtu, tunnel_mtu, default_mtu, do_it,
}
use wireroute_windows.Tunnel.RuntimeLog.{
  Files, opened, open_found, open_sized, seek_to_end, sought_end, open_runtime_log,
}
use wireroute_windows.Tunnel.RuntimeLog.Bound.{
  IsFile, OpenedBounded, written_log, runtime_log_bounded,
}
use wireroute_windows.Tunnel.RuntimeMetrics.{
  PeerStatistics, max_uint64, later, add_statistics, first_snapshot, add_statistics_saturates,
  write_metrics, as_metrics, write_error, exceeded,
}
use wireroute_windows.Tunnel.Address.Attempts.{configure_interface_ends}
use wireroute_windows.Tunnel.Address.Restriction.{is_full_tunnel, do_not_restrict-is_full_tunnel}

abbrev row : IpInterface
row = record {
  router_discovery_disabled = false;
  dad_transmits = 3;
  managed_address_configuration_supported = true;
  other_stateful_configuration_supported = true;
  nl_mtu = 1500;
  use_automatic_metric = true;
  metric = 5;
}

-- A system whose interface is never found, and which counts how often DNS was set.
abbrev never_found : WinIpCfg ℕ
never_found = record {
  set_routes_for_family = λ luid family routes w. (ok tt, w);
  set_ip_addresses_for_family = λ luid family addresses w. (ok tt, w);
  ip_interface = λ luid family w. ok row;
  set_interface = λ luid family r w. (ok tt, w);
  set_dns = λ luid family servers search w. (err error_not_found, suc w);
  get_adapters_addresses = λ family w. ok [];
  delete_ip_address = λ luid p w. w;
}

-- At boot it is tried sixteen times, and otherwise once.
tried :
    (configure_interface never_found true inet sample_config 7 0 ≡ some (err error_not_found, 16))
    × (configure_interface never_found false inet sample_config 7 0 ≡ some (err error_not_found, 1))
unfolding configure_interface attempts after_attempt attempt still_retries check read_interface ret
    ◌>>=◌ found_route found_address in_family is4
tried = (refl, refl)

configure_interface_ends_example :
    (r : Result ℕ (Unit {0}) × ℕ) × (configure_interface never_found true inet sample_config 7 0
      ≡ some r)
configure_interface_ends_example = configure_interface_ends never_found inet sample_config 7 true 0

abbrev everything : Prefix
everything = record { ip = v4 0; bits_plus_one = 1 }

abbrev full_config : Config
full_config = record sample_config {
  peers = record sample_peer { allowed_ips = everything ∷ [] } ∷ [];
}

do_not_restrict-is_full_tunnel_example :
    do_not_restrict full_config ≡ not (is_full_tunnel full_config)
do_not_restrict-is_full_tunnel_example =
    do_not_restrict-is_full_tunnel full_config ((omega arith, tt), tt)

restricts : do_not_restrict full_config ≡ false
unfolding do_not_restrict takes_all same_prefix same_addr masked
restricts = refl

abbrev two_routes : List Route
two_routes =
    record { prefix_length = 0; interface_luid = 4; interface_index = 14; metric = 5 }
    ∷ record { prefix_length = 0; interface_luid = 3; interface_index = 13; metric = 5 }
    ∷ []

abbrev reading : Reading
reading = record {
  get_ip_forward_table = λ family. ok two_routes;
  interface = λ luid. ok (record { is_up = true; mtu = 1500 });
  ip_metric = λ luid family. ok luid;
}

abbrev writing : Writing
writing = record { ip_interface = λ luid family. ok tt; set_nl_mtu = λ luid family mtu. ok tt }

abbrev chosen : Best
chosen = best_of reading inet 7 two_routes no_best

best_of_cases_example :
    ((chosen ≡ no_best) ⊎ Any (IsFrom reading inet 7 chosen) two_routes)
    × (chosen.lowest_metric ≤ 2 ^ 64 - 1)
    × All (IsLowest reading inet 7 chosen.lowest_metric) two_routes
best_of_cases_example = best_of_cases reading inet 7 two_routes no_best

-- The adapter with the lower metric gives the MTU, less 80.
followed :
    do_it reading writing inet 7 (record { last_luid = 0; last_index = 0; last_mtu = 0 })
    ≡ (ok tt, record { last_luid = 3; last_index = 13; last_mtu = 1500 }, some 1420)
unfolding do_it find_default_luid best_of better combined_metric default_mtu tunnel_mtu min_mtu
followed = refl

-- A file of which only the size and the position are kept.
record SampleFile : Type 0 where
  bytes : ℕ
  at : ℕ

abbrev sample_files : Files SampleFile
sample_files = record {
  open_file = λ path. ok (record { bytes = 3000000; at = 0 });
  stat_size = λ f. ok f.bytes;
  truncate = λ n f. (ok tt, record f { bytes = n });
  seek = λ n f. (ok tt, record f { at = n });
  write = λ s f. (
    (length s, none),
    record {
      bytes = if ltb f.bytes (f.at + length s) then f.at + length s else f.bytes;
      at = f.at + length s;
    },
  );
  sync = λ f. f;
  close = λ f. (ok tt, f);
}

sample_files-IsFile : IsFile sample_files
sample_files-IsFile = record {
  size_of = λ f. f.bytes;
  position = λ f. f.at;
  stat_lem = λ f. refl;
  truncate_lem = λ f. (refl, refl);
  seek_lem = λ n f. (refl, refl);
  write_lem = λ s f. (omega arith, refl, λ m h k. ground arith);
}

abbrev some_writes : List (Text × Text)
some_writes = (codes "12:00    ", codes "up") ∷ (codes "12:01    ", codes "down") ∷ []

runtime_log_bounded_example : OpenedBounded sample_files sample_files-IsFile (
    written_log sample_files sample_files-IsFile some_writes
      (open_runtime_log sample_files (codes "log")))
runtime_log_bounded_example =
    runtime_log_bounded sample_files sample_files-IsFile (codes "log") some_writes

-- A log that was too large is emptied when it is opened.
emptied :
    open_runtime_log sample_files (codes "log")
    ≡ opened (record { file = record { bytes = 0; at = 0 }; size = 0 })
unfolding open_runtime_log open_found open_sized seek_to_end sought_end
emptied = refl

abbrev two_peers : List PeerStatistics
two_peers =
    record { rx_bytes = max_uint64; tx_bytes = 5; last_handshake = 20 }
    ∷ record { rx_bytes = 1; tx_bytes = 7; last_handshake = 10 }
    ∷ []

add_statistics_saturates_example : add_statistics first_snapshot two_peers ≡ record {
  version = 1;
  received_bytes = max_uint64;
  sent_bytes = 12;
  last_handshake_file_time = 20;
}
unfolding later
add_statistics_saturates_example = add_statistics_saturates two_peers

-- The payload that is too long has been written all the same.
too_long :
    write_metrics sample_files
      (ok two_peers)
      (λ s. ok (replicate 4097 b'x'))
      (record { bytes = 10; at = 10 })
    ≡ (err exceeded, record { bytes = 4097; at = 4097 })
unfolding write_metrics as_metrics write_error ret fail ◌>>=◌
too_long = refl
