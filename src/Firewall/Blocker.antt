-- ===== src/Firewall/Blocker.antt =====
-- tunnel/firewall/blocker.go, and `runTransaction` of helpers.go.
pub mod Install
pub mod Transaction
pub mod Enable
use wireroute_windows.Base.{
  ℕ, List, [], ◌∷◌, Bool, true, false, not, ◌==◌, ltb, length, if◌then◌else◌,
}
use wireroute_windows.Base.Result.{Result, ok, err}
use wireroute_windows.Base.Action.{Action, ret, lift, when, on_error, ◌>>=◌, ◌>>◌}
use wireroute_windows.Firewall.Types.{BaseObjects, Error, already_enabled}
use wireroute_windows.Firewall.Engine.{Engine}
use wireroute_windows.Firewall.Rules.{
  create_display_data, permit_tun_interface, permit_wireguard_service, permit_loopback,
  permit_dhcp_ipv4, permit_dhcp_ipv6, permit_ndp, block_all, block_dns,
}
use wireroute_windows.Firewall.Rules.Conditions.{Addr}

module _ (e : Engine) where
  -- The session is dynamic (flag 1) and waits for transactions for ever.
  unfoldable pub create_wfp_session : Action e.State Error ℕ
  create_wfp_session = do
    d ← create_display_data e "WireGuard" "WireGuard dynamic session"
    e.engine_open (record { display_data = d; flags = 1; timeout = 0xffffffff })

  -- The two objects get GUIDs of their own; the sublayer has the greatest weight.
  unfoldable pub register_base_objects : ℕ → Action e.State Error BaseObjects
  register_base_objects session = do
    provider ← e.generate_guid
    filters ← e.generate_guid
    d ← create_display_data e "WireGuard" "WireGuard provider"
    e.provider_add session (record { provider_key = provider; display_data = d })
    d' ← create_display_data e "WireGuard filters" "Permissive and blocking filters"
    e.sub_layer_add session (record {
      sub_layer_key = filters;
      display_data = d';
      provider_key = provider;
      weight = 0xffff;
    })
    ret (record { provider = provider; filters = filters })

  unfoldable pub run_transaction :
      ℕ → (ℕ → Action e.State Error (Unit {0})) → Action e.State Error (Unit {0})
  run_transaction session operation = do
    e.transaction_begin session
    on_error (operation session) (e.transaction_abort session)
    on_error (e.transaction_commit session) (e.transaction_abort session)

  module _ (luid : ℕ) (do_not_restrict : Bool) (restrict_to_dns_servers : List Addr) where
    -- `objectInstaller`.
    unfoldable pub object_installer : ℕ → Action e.State Error (Unit {0})
    object_installer session = do
      bo ← register_base_objects session
      permit_wireguard_service e session bo 15
      when (not do_not_restrict) (do
        when (ltb 0 (length restrict_to_dns_servers))
            (block_dns e session restrict_to_dns_servers bo 15 14)
        permit_loopback e session bo 13
        permit_tun_interface e session bo 12 luid
        permit_dhcp_ipv4 e session bo 12
        permit_dhcp_ipv6 e session bo 12
        permit_ndp e session bo 12
        block_all e session bo 0)

-- The package's variable `wfpSession`, and the system.
pub record World (e : Engine) : Type 0 where
  pub wfp_session : ℕ
  pub engine : e.State

module _ (e : Engine) where
  -- Behind `runTransaction`, on the session `h`.
  unfoldable pub after_install :
      World e → ℕ → Result Error (Unit {0}) × e.State → Result Error (Unit {0}) × World e
  after_install w h (ok _, s) = (ok tt, record { wfp_session = h; engine = s })
  after_install w h (err x, s) = (err x, record w { engine = e.engine_close h s })

  -- Behind `createWfpSession`.
  unfoldable pub after_open :
      World e
      → (ℕ → Action e.State Error (Unit {0}))
      → Result Error ℕ × e.State
      → Result Error (Unit {0}) × World e
  unfolding after_install
  after_open w installer (ok h, s) = after_install w h (run_transaction e h installer s)
  after_open w installer (err x, s) = (err x, record w { engine = s })

  unfoldable pub enable_firewall :
      ℕ → Bool → List Addr → World e → Result Error (Unit {0}) × World e
  enable_firewall luid do_not_restrict restrict_to_dns_servers w =
      if not (w.wfp_session == 0)
      then (err already_enabled, w)
      else after_open w (object_installer e luid do_not_restrict restrict_to_dns_servers)
          (create_wfp_session e w.engine)

  unfoldable pub disable_firewall : World e → World e
  disable_firewall w =
      if not (w.wfp_session == 0)
      then (record { wfp_session = 0; engine = e.engine_close w.wfp_session w.engine })
      else w
