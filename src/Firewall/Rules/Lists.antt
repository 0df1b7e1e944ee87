-- ===== src/Firewall/Rules/Lists.antt =====
-- What the functions of tunnel/firewall/rules.go install, as lists of filters without their texts.
use wireroute_windows.Base.{ℕ, List, [], ◌∷◌, ◌++◌, none, some}
use wireroute_windows.Firewall.Types.{
  Layer, connect_v4, recv_accept_v4, connect_v6, recv_accept_v6, Condition, permit, block, Filter,
  BaseObjects,
}
use wireroute_windows.Firewall.Rules.{new_filter, clear_action_right}
use wireroute_windows.Firewall.Rules.Conditions.{
  on_interface, from_app, from_user, is_loopback, dhcp_v4_request, dhcp_v4_response,
  dhcp_v6_request, dhcp_v6_response, ndp, to_address, link_local, link_local_router_multicast, dns,
  Addr, servers_v4, servers_v6,
}

-- A filter without its text.
abbrev pub bare : Filter → Filter
bare f = record f { display_data = none }

-- A filter at a layer.
abbrev pub at_layer : Filter → Layer → Filter
at_layer f l = record f { layer_key = some l }

abbrev pub everywhere : Filter → List Filter
everywhere f =
    at_layer f connect_v4
    ∷ at_layer f recv_accept_v4
    ∷ at_layer f connect_v6
    ∷ at_layer f recv_accept_v6
    ∷ []

-- The allow filters are added only if there is a server of the family.
abbrev pub allow_at : Filter → Layer → Layer → List Condition → List Filter
allow_at f l1 l2 [] = []
allow_at f l1 l2 (c ∷ cs) =
    let g = record f { conditions = dns ++ (c ∷ cs) } in at_layer g l1 ∷ at_layer g l2 ∷ []

module _ (bo : BaseObjects) where
  abbrev pub service_filter : ℕ → List ℕ → List ℕ → Filter
  service_filter w app sd = record (new_filter bo w (from_app app ∷ from_user sd ∷ []) permit) {
    flags = clear_action_right;
  }

  abbrev pub service_filters : ℕ → List ℕ → List ℕ → List Filter
  service_filters w app sd = everywhere (service_filter w app sd)

  abbrev pub dns_filters : ℕ → ℕ → List Addr → List Filter
  dns_filters allow deny except =
      everywhere (new_filter bo deny dns block)
      ++ (allow_at (new_filter bo allow [] permit) connect_v4 recv_accept_v4 (servers_v4 except)
          ++ allow_at (new_filter bo allow [] permit) connect_v6 recv_accept_v6 (servers_v6 except))

  abbrev pub loopback_filters : ℕ → List Filter
  loopback_filters w = everywhere (new_filter bo w (is_loopback ∷ []) permit)

  abbrev pub tun_filters : ℕ → ℕ → List Filter
  tun_filters w luid = everywhere (new_filter bo w (on_interface luid ∷ []) permit)

  abbrev pub permit_at : ℕ → List Condition → Layer → Filter
  permit_at w cs l = at_layer (new_filter bo w cs permit) l

  abbrev pub dhcp_filters : ℕ → List Filter
  dhcp_filters w =
      permit_at w dhcp_v4_request connect_v4
      ∷ permit_at w dhcp_v4_response recv_accept_v4
      ∷ permit_at w dhcp_v6_request connect_v6
      ∷ permit_at w dhcp_v6_response recv_accept_v6
      ∷ []

  abbrev pub ndp_filters : ℕ → List Filter
  ndp_filters w =
      permit_at w (ndp 133 ++ (to_address link_local_router_multicast ∷ [])) connect_v6
      ∷ permit_at w (ndp 134 ++ (to_address link_local ∷ [])) recv_accept_v6
      ∷ permit_at w (ndp 135) connect_v6
      ∷ permit_at w (ndp 135) recv_accept_v6
      ∷ permit_at w (ndp 136) connect_v6
      ∷ permit_at w (ndp 136) recv_accept_v6
      ∷ permit_at w (ndp 137 ++ (to_address link_local ∷ [])) recv_accept_v6
      ∷ []

  abbrev pub block_filters : ℕ → List Filter
  block_filters w = everywhere (new_filter bo w [] block)
