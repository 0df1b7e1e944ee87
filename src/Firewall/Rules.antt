-- ===== src/Firewall/Rules.antt =====
-- tunnel/firewall/rules.go, and `createWtFwpmDisplayData0` of helpers.go: each function adds its
-- filters one after the other and stops at the first call that fails. `wrapErr` only writes the
-- source line into an error's text, so errors pass through unchanged here.
pub mod Conditions
pub mod Lists
pub mod Adds
use Prim.Native.String.{String}
use wireroute_windows.Base.{ℕ, List, [], ◌∷◌, ◌++◌, none, some, leb, ltb, length, if◌then◌else◌}
use wireroute_windows.Base.Result.{Result}
use wireroute_windows.Base.Action.{Action, ret, fail, lift, when, for_each, continue, ◌>>=◌, ◌>>◌}
use wireroute_windows.Firewall.Types.{
  Layer, connect_v4, recv_accept_v4, connect_v6, recv_accept_v6, outbound_mac_frame_native,
  inbound_mac_frame_native, Condition, Verdict, permit, block, DisplayData, Filter, BaseObjects,
  filter_weight, Error, weights_out_of_order,
}
use wireroute_windows.Firewall.Engine.{Engine}
use Conditions.{
  on_interface, from_app, from_user, is_loopback, is_vm2vm, dhcp_v4_request, dhcp_v4_response,
  dhcp_v6_request, dhcp_v6_response, ndp, to_address, link_local, link_local_router_multicast, dns,
  Addr, servers_v4, servers_v6,
}

-- `filter := wtFwpmFilter0{…}`, before its display data and layer are filled in.
abbrev pub new_filter : BaseObjects → ℕ → List Condition → Verdict → Filter
new_filter bo weight conditions action = record {
  display_data = none;
  provider_key = bo.provider;
  layer_key = none;
  sub_layer_key = bo.filters;
  weight = filter_weight weight;
  flags = 0;
  conditions = conditions;
  action = action;
}

-- `cFWPM_FILTER_FLAG_CLEAR_ACTION_RIGHT`.
abbrev pub clear_action_right : ℕ
clear_action_right = 8

-- A loopback rule, say, with the layer and the text of one of its blocks.
abbrev pub placed : Filter → DisplayData → Layer → Filter
placed f d l = record f { display_data = some d; layer_key = some l }

-- A filter of `permitNdp` on its way to the engine.
pub record FilterDefinition : Type 0 where
  pub display_data : DisplayData
  pub conditions : List Condition
  pub layer : Layer

module _ (e : Engine) where
  -- `createWtFwpmDisplayData0`.
  unfoldable pub create_display_data : String → String → Action e.State Error DisplayData
  create_display_data name description = do
    n ← lift (e.utf16_ptr_from_string name)
    d ← lift (e.utf16_ptr_from_string description)
    ret (record { name = n; description = d })

  module _ (session : ℕ) where
    -- One block of the rules: the display data, the layer, `fwpmFilterAdd0`.
    unfoldable pub add_filter : Filter → String → Layer → Action e.State Error (Unit {0})
    add_filter filter name layer = do
      d ← create_display_data name ""
      e.filter_add session (placed filter d layer)

    -- The four blocks that most rules consist of.
    unfoldable pub add_everywhere :
        Filter → String → String → String → String → Action e.State Error (Unit {0})
    add_everywhere filter n1 n2 n3 n4 = do
      add_filter filter n1 connect_v4
      add_filter filter n2 recv_accept_v4
      add_filter filter n3 connect_v6
      add_filter filter n4 recv_accept_v6

    module _ (bo : BaseObjects) (weight : ℕ) where
      unfoldable pub permit_tun_interface : ℕ → Action e.State Error (Unit {0})
      permit_tun_interface luid =
          add_everywhere (new_filter bo weight (on_interface luid ∷ []) permit)
            "Permit outbound IPv4 traffic on TUN" "Permit inbound IPv4 traffic on TUN"
            "Permit outbound IPv6 traffic on TUN" "Permit inbound IPv6 traffic on TUN"

      -- `permitWireGuardService`: by the executable, and by the process's security descriptor.
      unfoldable pub permit_wireguard_service : Action e.State Error (Unit {0})
      permit_wireguard_service = do
        app_id ← lift e.current_process_app_id
        sd ← lift e.current_process_security_descriptor
        let conditions = from_app app_id ∷ from_user sd ∷ []
        add_everywhere
            (record (new_filter bo weight conditions permit) { flags = clear_action_right })
            "Permit unrestricted outbound traffic for WireGuard service (IPv4)"
            "Permit unrestricted inbound traffic for WireGuard service (IPv4)"
            "Permit unrestricted outbound traffic for WireGuard service (IPv6)"
            "Permit unrestricted inbound traffic for WireGuard service (IPv6)"

      unfoldable pub permit_loopback : Action e.State Error (Unit {0})
      permit_loopback =
          add_everywhere (new_filter bo weight (is_loopback ∷ []) permit)
            "Permit outbound on loopback (IPv4)" "Permit inbound on loopback (IPv4)"
            "Permit outbound on loopback (IPv6)" "Permit inbound on loopback (IPv6)"

      unfoldable pub permit_dhcp_ipv4 : Action e.State Error (Unit {0})
      permit_dhcp_ipv4 = do
        add_filter (new_filter bo weight dhcp_v4_request permit)
            "Permit outbound DHCP request (IPv4)" connect_v4
        add_filter (new_filter bo weight dhcp_v4_response permit)
            "Permit inbound DHCP response (IPv4)" recv_accept_v4

      unfoldable pub permit_dhcp_ipv6 : Action e.State Error (Unit {0})
      permit_dhcp_ipv6 = do
        add_filter (new_filter bo weight dhcp_v6_request permit)
            "Permit outbound DHCP request (IPv6)" connect_v6
        add_filter (new_filter bo weight dhcp_v6_response permit)
            "Permit inbound DHCP response (IPv6)" recv_accept_v6

      -- The loop at the end of `permitNdp`.
      unfoldable pub add_definition : FilterDefinition → Action e.State Error (Unit {0})
      add_definition d =
          e.filter_add session
            (placed (new_filter bo weight d.conditions permit) d.display_data d.layer)

      unfoldable pub permit_ndp : Action e.State Error (Unit {0})
      permit_ndp = do
        d133 ← create_display_data "Permit NDP type 133" ""
        d134 ← create_display_data "Permit NDP type 134" ""
        d135 ← create_display_data "Permit NDP type 135" ""
        d136 ← create_display_data "Permit NDP type 136" ""
        d137 ← create_display_data "Permit NDP type 137" ""
        for_each
            ((record {
              display_data = d133;
              conditions = ndp 133 ++ (to_address link_local_router_multicast ∷ []);
              layer = connect_v6;
            })
              ∷ (record {
                display_data = d134;
                conditions = ndp 134 ++ (to_address link_local ∷ []);
                layer = recv_accept_v6;
              })
              ∷ (record { display_data = d135; conditions = ndp 135; layer = connect_v6 })
              ∷ (record { display_data = d135; conditions = ndp 135; layer = recv_accept_v6 })
              ∷ (record { display_data = d136; conditions = ndp 136; layer = connect_v6 })
              ∷ (record { display_data = d136; conditions = ndp 136; layer = recv_accept_v6 })
              ∷ (record {
                display_data = d137;
                conditions = ndp 137 ++ (to_address link_local ∷ []);
                layer = recv_accept_v6;
              })
              ∷ [])
            add_definition

      unfoldable pub permit_hyper_v : Action e.State Error (Unit {0})
      permit_hyper_v =
          let filter = new_filter bo weight (is_vm2vm ∷ []) permit in
          do
            add_filter filter "Permit Hyper-V => Hyper-V outbound" outbound_mac_frame_native
            add_filter filter "Permit Hyper-V => Hyper-V inbound" inbound_mac_frame_native

      unfoldable pub block_all : Action e.State Error (Unit {0})
      block_all =
          add_everywhere (new_filter bo weight [] block) "Block all outbound (IPv4)"
            "Block all inbound (IPv4)" "Block all outbound (IPv6)" "Block all inbound (IPv6)"

    -- Two of the blocks that allow DNS, if there is a server of the family.
    unfoldable pub allow_dns :
        Filter → List Condition → String → Layer → String → Layer → Action e.State Error (Unit {0})
    allow_dns filter conditions out connect inward accept =
        let some_server = ltb (length dns) (length conditions) in
        do
          when some_server (add_filter (record filter { conditions = conditions }) out connect)
          when some_server (add_filter (record filter { conditions = conditions }) inward accept)

    unfoldable pub block_dns : List Addr → BaseObjects → ℕ → ℕ → Action e.State Error (Unit {0})
    block_dns except bo weight_allow weight_deny =
        if leb weight_allow weight_deny then fail weights_out_of_order else do
          add_everywhere (new_filter bo weight_deny dns block) "Block DNS outbound (IPv4)"
              "Block DNS inbound (IPv4)" "Block DNS outbound (IPv6)" "Block DNS inbound (IPv6)"
          let allow = new_filter bo weight_allow [] permit
          allow_dns allow (dns ++ servers_v4 except) "Allow DNS outbound (IPv4)" connect_v4
              "Allow DNS inbound (IPv4)" recv_accept_v4
          allow_dns allow (dns ++ servers_v6 except) "Allow DNS outbound (IPv6)" connect_v6
              "Allow DNS inbound (IPv6)" recv_accept_v6
