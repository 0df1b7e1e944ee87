-- ===== src/Firewall/Tests.antt =====
-- The theorems on tunnel/firewall at concrete inputs, and runs of its code.
use wireroute_windows.Base.{ℕ, ◌<◌, ◌≡◌, refl, List, [], ◌∷◌, Bool, true, false, ◌==◌}
use wireroute_windows.Base.Result.{ok, err}
use wireroute_windows.Base.Action.{◌>>=◌, ret, lift, fail, for_each, on_error}
use wireroute_windows.Firewall.Types.{
  connect_v4, Condition, FieldKey, Value, permit, block, system, already_enabled,
}
use wireroute_windows.Firewall.Rules.{
  create_display_data, add_filter, add_everywhere, permit_tun_interface, permit_wireguard_service,
  permit_loopback, permit_dhcp_ipv4, permit_dhcp_ipv6, permit_ndp, add_definition, block_all,
  allow_dns, block_dns,
}
use wireroute_windows.Firewall.Rules.Conditions.{Addr, v4, servers_v4, servers_v6, dns}
use wireroute_windows.Firewall.Blocker.{
  World, create_wfp_session, register_base_objects, object_installer, run_transaction,
  after_install, after_open, enable_firewall, disable_firewall,
}
use wireroute_windows.Firewall.Blocker.Transaction.{AllOrNothing, run_transaction-AllOrNothing}
use wireroute_windows.Firewall.Blocker.Install.{object_installer-inert}
use wireroute_windows.Firewall.Blocker.Enable.{
  Enforces, enable_firewall-Enforces, enable_firewall-err, disable_firewall-enable_firewall,
}
use wireroute_windows.Firewall.Policy.{policy}
use wireroute_windows.Firewall.Policy.Decides.{is_connection}
use wireroute_windows.Firewall.Enforced.{enable_firewall-policy}
use wireroute_windows.Firewall.Samples.{store, store-laws, sampled, sampled-laws}

abbrev servers : List Addr
servers = v4 10 0 0 1 ∷ []

abbrev idle : (healthy : Bool) → World (store healthy)
idle healthy = record { wfp_session = 0; engine = ([], [], false) }

enables : (enable_firewall (store true) 7 false servers (idle true)).0 ≡ ok tt
unfolding enable_firewall after_open after_install run_transaction create_wfp_session
    register_base_objects object_installer create_display_data add_filter add_everywhere
    permit_tun_interface permit_wireguard_service permit_loopback permit_dhcp_ipv4 permit_dhcp_ipv6
    permit_ndp add_definition block_all allow_dns block_dns ◌>>=◌ ret lift fail for_each on_error
    servers_v4 servers_v6 dns
enables = refl

fails_to_commit : (enable_firewall (store false) 7 false servers (idle false)).0 ≡ err (system 5)
unfolding enable_firewall after_open after_install run_transaction create_wfp_session
    register_base_objects object_installer create_display_data add_filter add_everywhere
    permit_tun_interface permit_wireguard_service permit_loopback permit_dhcp_ipv4 permit_dhcp_ipv6
    permit_ndp add_definition block_all allow_dns block_dns ◌>>=◌ ret lift fail for_each on_error
    servers_v4 servers_v6 dns
fails_to_commit = refl

-- A DNS query over UDP that leaves through the tunnel interface 7, to some other server.
abbrev query : Condition → Bool
query c = is_query c.field_key c.value
  where
    is_query : FieldKey → Value → Bool
    is_query FieldKey.ip_local_interface (Value.uint64 n) = n == 7
    is_query FieldKey.ip_remote_port (Value.uint16 n) = n == 53
    is_query FieldKey.ip_protocol (Value.uint8 n) = n == 17
    is_query _ _ = false

query_blocked : policy query connect_v4 (1 ∷ []) (2 ∷ []) 7 servers ≡ block
unfolding policy servers_v4
query_blocked = refl

query_passes_unrestricted : policy query connect_v4 (1 ∷ []) (2 ∷ []) 7 [] ≡ permit
unfolding policy
query_passes_unrestricted = refl

run_transaction-AllOrNothing_example :
    AllOrNothing
      (store true)
      1
      []
      (ok tt)
      (object_installer (store true) 7 false servers 1 ([], [], true)).0
      (object_installer (store true) 7 false servers 1 ([], [], true)).1
      (run_transaction
        (store true)
        1
        (object_installer (store true) 7 false servers)
        ([], [], false))
run_transaction-AllOrNothing_example =
    run_transaction-AllOrNothing (store true) (store-laws true) 1
      (object_installer (store true) 7 false servers)
      (object_installer-inert (store true) (store-laws true) 1 7 false servers) ([], [], false)

enable_firewall-Enforces_example :
    let w = enable_firewall (store true) 7 false servers (idle true) in
    (◌≡◌ {A = ℕ} 0 0) × Enforces (store true) w.1 7 false servers
enable_firewall-Enforces_example =
    enable_firewall-Enforces (store true) (store-laws true) 7 false servers (idle true) enables

enable_firewall-err_example :
    let w = (enable_firewall (store false) 7 false servers (idle false)).1 in
    (w.wfp_session ≡ 0)
    × ((h : ℕ)
        → ◌≡◌ {A = ℕ} 0 0
        → (create_wfp_session (store false) ([], [], false)).0 ≡ ok h
        → (store false).active h w.engine ≡ [])
    × (0 < 0 → (system 5 ≡ already_enabled) × (w ≡ idle false))
enable_firewall-err_example =
    enable_firewall-err (store false) (store-laws false) 7 false servers (idle false) (system 5)
      fails_to_commit

disable_firewall-enable_firewall_example :
    let w = (enable_firewall (store true) 7 false servers (idle true)).1 in
    ((disable_firewall (store true) w).wfp_session ≡ 0)
    × ((store true).active w.wfp_session (disable_firewall (store true) w).engine ≡ [])
disable_firewall-enable_firewall_example =
    disable_firewall-enable_firewall (store true) (store-laws true) 7 false servers (idle true)
      enables

enable_firewall-policy_example :
    let w = (enable_firewall (store true) 7 false servers (idle true)).1 in
    sampled.verdict ((store true).active w.wfp_session w.engine) (connect_v4, query)
    ≡ policy query connect_v4 (1 ∷ []) (2 ∷ []) 7 servers
enable_firewall-policy_example =
    enable_firewall-policy (store true) (store-laws true) sampled sampled-laws 7 servers (idle true)
      (connect_v4, query) enables connection
  where
    connection : is_connection connect_v4 ≡ true
    connection = unfold is_connection in refl
