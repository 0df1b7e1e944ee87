-- ===== src/Firewall/Blocker/Install.antt =====
-- What the installer of `EnableFirewall` adds inside its transaction.
use wireroute_windows.Base.{
  ℕ, ◌≡◌, List, [], ◌∷◌, ◌++◌, map, Bool, true, false, not, arith, ltb, lt→ltb, length,
}
use wireroute_windows.Base.Result.{ok, value_or}
use wireroute_windows.Base.Action.{Action, when, ◌>>◌}
use wireroute_windows.Firewall.Types.{Filter, BaseObjects, Error}
use wireroute_windows.Firewall.Engine.{Engine, IsOpen, EngineLaws}
use wireroute_windows.Firewall.Rules.Adds.{
  Adds, Adds-ret, Adds->>=, >>=-inert, >>=-Adds, Keeps-Adds, create_display_data-Adds,
  permit_tun_interface-Adds, permit_loopback-Adds, block_all-Adds, permit_wireguard_service-Adds,
  permit_dhcp_ipv4-Adds, permit_dhcp_ipv6-Adds, permit_ndp-Adds, block_dns-Adds,
}
use wireroute_windows.Firewall.Rules.Conditions.{Addr}
use wireroute_windows.Firewall.Rules.Lists.{
  bare, service_filters, dns_filters, loopback_filters, tun_filters, dhcp_filters, ndp_filters,
  block_filters,
}
use wireroute_windows.Firewall.Rules.{
  permit_tun_interface, permit_wireguard_service, permit_loopback, permit_dhcp_ipv4,
  permit_dhcp_ipv6, permit_ndp, block_all, block_dns,
}
use wireroute_windows.Firewall.Blocker.{register_base_objects, object_installer}

-- The DNS rules, if there are servers to restrict DNS to.
abbrev pub dns_rules : BaseObjects → List Addr → List Filter
dns_rules bo [] = []
dns_rules bo (a ∷ r) = dns_filters bo 15 14 (a ∷ r)

abbrev pub restrict_rules : BaseObjects → ℕ → List Addr → List Filter
restrict_rules bo luid servers =
    dns_rules bo servers
    ++ (loopback_filters bo 13
        ++ (tun_filters bo 12 luid
            ++ (dhcp_filters bo 12 ++ (ndp_filters bo 12 ++ block_filters bo 0))))

-- The process's own identity, as far as it can be had; where it cannot, nothing is installed.
abbrev pub own_app_id : Engine → List ℕ
own_app_id e = value_or [] e.current_process_app_id

abbrev pub own_descriptor : Engine → List ℕ
own_descriptor e = value_or [] e.current_process_security_descriptor

-- All the filters of a session, for the executable `app` and the security descriptor `sd`.
unfoldable pub rules : BaseObjects → List ℕ → List ℕ → ℕ → Bool → List Addr → List Filter
rules bo app sd luid true servers = service_filters bo 15 app sd
rules bo app sd luid false servers = service_filters bo 15 app sd ++ restrict_rules bo luid servers

module _ (e : Engine) (laws : EngineLaws e) (h : ℕ) where
  register_base_objects-Adds : Adds e h [] (register_base_objects e h)
  unfolding register_base_objects
  register_base_objects-Adds = Adds->>= e h (Keeps-Adds e h [] _ (laws.guid_keeps h)) λ provider.
      Adds->>= e h (Keeps-Adds e h [] _ (laws.guid_keeps h)) λ filters.
        Adds->>= e h (create_display_data-Adds e h _ _) λ d.
          Adds->>= e h (Keeps-Adds e h [] _ (laws.provider_keeps h _)) λ _.
            Adds->>= e h (create_display_data-Adds e h _ _) λ d'.
              Adds->>= e h (Keeps-Adds e h [] _ (laws.sub_layer_keeps h _)) λ _. Adds-ret e h _

  block_dns-Adds_if :
      (bo : BaseObjects) (servers : List Addr)
      → Adds e h
          (dns_rules bo servers)
          (when (ltb 0 (length servers)) (block_dns e h servers bo 15 14))
  block_dns-Adds_if bo [] = Adds-ret e h tt
  block_dns-Adds_if bo (a ∷ r) =
      rw (lt→ltb 0 (length (a ∷ r)) (omega arith)) (block_dns-Adds e laws h (a ∷ r) bo 15 14)

  module _ (luid : ℕ) (servers : List Addr) (bo : BaseObjects) where
    pub restrict-Adds : Adds e h (restrict_rules bo luid servers) (do
      when (ltb 0 (length servers)) (block_dns e h servers bo 15 14)
      permit_loopback e h bo 13
      permit_tun_interface e h bo 12 luid
      permit_dhcp_ipv4 e h bo 12
      permit_dhcp_ipv6 e h bo 12
      permit_ndp e h bo 12
      block_all e h bo 0)
    restrict-Adds = Adds->>= e h (block_dns-Adds_if bo servers) λ _.
        Adds->>= e h (permit_loopback-Adds e laws h bo 13) λ _.
          Adds->>= e h (permit_tun_interface-Adds e laws h bo 12 luid) λ _.
            Adds->>= e h (permit_dhcp_ipv4-Adds e laws h bo 12) λ _.
              Adds->>= e h (permit_dhcp_ipv6-Adds e laws h bo 12)
                λ _. Adds->>= e h (permit_ndp-Adds e laws h bo 12) λ _. block_all-Adds e laws h bo 0

  module _ (luid : ℕ) (do_not_restrict : Bool) (servers : List Addr) where
    -- The installer, behind `registerBaseObjects`.
    abbrev add_rules : BaseObjects → Action e.State Error (Unit {0})
    add_rules bo = do
      permit_wireguard_service e h bo 15
      when (not do_not_restrict) (do
        when (ltb 0 (length servers)) (block_dns e h servers bo 15 14)
        permit_loopback e h bo 13
        permit_tun_interface e h bo 12 luid
        permit_dhcp_ipv4 e h bo 12
        permit_dhcp_ipv6 e h bo 12
        permit_ndp e h bo 12
        block_all e h bo 0)

    abbrev own_rules : BaseObjects → List Filter
    own_rules bo = rules bo (own_app_id e) (own_descriptor e) luid do_not_restrict servers

  add_rules-Adds :
      (luid : ℕ) (dnr : Bool) (servers : List Addr) (bo : BaseObjects)
      → Adds e h (own_rules luid dnr servers bo) (add_rules luid dnr servers bo)
  unfolding rules
  add_rules-Adds luid true servers bo =
      Adds->>= e h (permit_wireguard_service-Adds e laws h bo 15) λ _. Adds-ret e h tt
  add_rules-Adds luid false servers bo =
      Adds->>= e h (permit_wireguard_service-Adds e laws h bo 15) λ _. restrict-Adds luid servers bo

  module _ (luid : ℕ) (dnr : Bool) (servers : List Addr) where
    pub object_installer-inert :
        (s : e.State)
        → IsOpen e h s
        → e.active h (object_installer e luid dnr servers h s).1 ≡ e.active h s
    unfolding object_installer
    object_installer-inert =
        >>=-inert e h (own_rules luid dnr servers) (add_rules luid dnr servers)
          (add_rules-Adds luid dnr servers) (register_base_objects e h) register_base_objects-Adds

    -- When the installer succeeds in an open transaction, it has added all the rules to it.
    pub object_installer_lem :
        (s : e.State)
        → IsOpen e h s
        → (object_installer e luid dnr servers h s).0 ≡ ok tt
        → (bo : BaseObjects) × (map bare (e.pending h (object_installer e luid dnr servers h s).1)
            ≡ map bare (e.pending h s) ++ own_rules luid dnr servers bo)
    unfolding object_installer
    object_installer_lem s o p =
        >>=-Adds e h (own_rules luid dnr servers) (add_rules luid dnr servers)
          (add_rules-Adds luid dnr servers) (register_base_objects e h) register_base_objects-Adds s
          tt o p
