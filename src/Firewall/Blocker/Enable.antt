-- ===== src/Firewall/Blocker/Enable.antt =====
-- What `EnableFirewall` and `DisableFirewall` leave in force.
use wireroute_windows.Base.{
  ℕ, ◌<◌, ◌≡◌, refl, sym, ap, ◌∙◌, List, [], map, Bool, false, ◌==◌, arith, Bool-cases, inl, inr,
}
use wireroute_windows.Base.Result.{Result, ok, err, ok-injective, err-injective}
use wireroute_windows.Base.Action.{◌>>=◌, continue}
use wireroute_windows.Firewall.Types.{DisplayData, BaseObjects, Error, already_enabled}
use wireroute_windows.Firewall.Engine.{Engine, EngineLaws}
use wireroute_windows.Firewall.Rules.{create_display_data}
use wireroute_windows.Firewall.Rules.Conditions.{Addr}
use wireroute_windows.Firewall.Rules.Lists.{bare}
use wireroute_windows.Firewall.Blocker.{
  World, create_wfp_session, object_installer, run_transaction, after_install, after_open,
  enable_firewall, disable_firewall,
}
use wireroute_windows.Firewall.Blocker.Install.{
  rules, own_app_id, own_descriptor, object_installer_lem, object_installer-inert,
}
use wireroute_windows.Firewall.Blocker.Transaction.{AllOrNothing, run_transaction-AllOrNothing}

module _ (e : Engine) where
  -- The package is enabled on a session that has exactly the given rules in force.
  abbrev pub Enforces : World e → ℕ → Bool → List Addr → Type 0
  Enforces w luid dnr servers =
      (0 < w.wfp_session)
      × ((bo : BaseObjects) × (map bare (e.active w.wfp_session w.engine)
            ≡ rules bo (own_app_id e) (own_descriptor e) luid dnr servers))

module _ (e : Engine) (laws : EngineLaws e) (luid : ℕ) (dnr : Bool) (servers : List Addr) where
  -- Of a session on which nothing is in force yet.
  install_cases :
      (w : World e) (h : ℕ) (s : e.State) (begun done : Result Error (Unit {0})) (opened : e.State)
      (out : Result Error (Unit {0}) × e.State)
      → 0 < h
      → (begun ≡ ok tt
          → done ≡ ok tt
          → (bo : BaseObjects) × (map bare (e.pending h opened)
              ≡ rules bo (own_app_id e) (own_descriptor e) luid dnr servers))
      → AllOrNothing e h [] begun done opened out
      → (after_install e w h out).0 ≡ ok tt
      → Enforces e (after_install e w h out).1 luid dnr servers
  unfolding after_install
  install_cases w h s begun done opened (ok tt, s') pos installed (b, d, a) p =
      let (bo, q) = installed b d in (pos, (bo, ap (map bare) a ∙ q))
  install_cases w h s begun done opened (err x, s') pos installed a p = cc

  -- The installer in a transaction that began with nothing in force.
  installed :
      (h : ℕ) (s : e.State)
      → e.active h s ≡ []
      → let (begun, s') = e.transaction_begin h s in
        let (done, opened) = object_installer e luid dnr servers h s' in
        begun ≡ ok tt
        → done ≡ ok tt
        → (bo : BaseObjects) × (map bare (e.pending h opened)
            ≡ rules bo (own_app_id e) (own_descriptor e) luid dnr servers)
  installed h s empty b d =
      let (bo, q) =
        object_installer_lem e laws h luid dnr servers (e.transaction_begin h s).1
          (laws.begin_open h s b) d in
      (bo, q ∙ rw (laws.begin_pending h s b, empty))

  open_cases :
      (w : World e) (r : Result Error ℕ) (s : e.State)
      → ((h : ℕ) → r ≡ ok h → (0 < h) × (e.active h s ≡ []))
      → let out = after_open e w (object_installer e luid dnr servers) (r, s) in
        out.0 ≡ ok tt → Enforces e out.1 luid dnr servers
  unfolding after_open
  open_cases w (err x) s fresh p = cc
  open_cases w (ok h) s fresh p =
      let (pos, empty) = fresh h refl in
      let began = (e.transaction_begin h s).1 in
      let done = object_installer e luid dnr servers h began in
      install_cases w h s (e.transaction_begin h s).0 done.0 done.1
        (run_transaction e h (object_installer e luid dnr servers) s) pos
        (λ b d. installed h s empty b d)
        (rw empty at (
          run_transaction-AllOrNothing e laws h (object_installer e luid dnr servers)
            (object_installer-inert e laws h luid dnr servers) s))
        p

  open_session_cases :
      (r : Result Error DisplayData) (s : e.State) (h : ℕ)
      → let out =
          continue r s
            (λ d. e.engine_open (record { display_data = d; flags = 1; timeout = 0xffffffff })) in
        out.0 ≡ ok h → (0 < h) × (e.active h out.1 ≡ [])
  open_session_cases (ok d) s h p = (laws.open_handle _ s p, laws.open_active _ s p)
  open_session_cases (err x) s h p = cc

  create_wfp_session-fresh :
      (s : e.State) (h : ℕ)
      → (create_wfp_session e s).0 ≡ ok h
      → (0 < h) × (e.active h (create_wfp_session e s).1 ≡ [])
  unfolding create_wfp_session ◌>>=◌
  create_wfp_session-fresh s h p =
      let d = create_display_data e "WireGuard" "WireGuard dynamic session" s in
      open_session_cases d.0 d.1 h p

  enabled_before :
      (w : World e)
      → (w.wfp_session == 0) ≡ false
      → ¬ ((enable_firewall e luid dnr servers w).0 ≡ ok tt)
  unfolding enable_firewall
  enabled_before w taken p = ground arith

  -- When `EnableFirewall` succeeds, the package was not enabled, and it now is, on a session that has
  -- in force exactly the rules for this interface, these DNS servers and this choice (up to the
  -- texts that describe them, and for some GUIDs of the provider and the sublayer).
  pub enable_firewall-Enforces :
      (w : World e)
      → (enable_firewall e luid dnr servers w).0 ≡ ok tt
      → (w.wfp_session ≡ 0) × Enforces e (enable_firewall e luid dnr servers w).1 luid dnr servers
  unfolding enable_firewall
  enable_firewall-Enforces w p = elim (Bool-cases (w.wfp_session == 0)) [
    | inl free ↦
        let opened = create_wfp_session e w.engine in
        let fits = open_cases w opened.0 opened.1 (λ h q. create_wfp_session-fresh w.engine h q) in
        (ground arith, rw free (fits (rw free at p)))
    | inr taken ↦ absurd (enabled_before w taken p)
  ]

  install_fails :
      (w : World e) (h : ℕ) (x : Error) (out : Result Error (Unit {0}) × e.State)
      → let w' = (after_install e w h out).1 in
        (after_install e w h out).0 ≡ err x
        → (w'.wfp_session ≡ w.wfp_session) × (e.active h w'.engine ≡ [])
  unfolding after_install
  install_fails w h x (ok tt, s) p = cc
  install_fails w h x (err y, s) p = (refl, laws.close_active h s)

  open_fails :
      (w : World e) (x : Error) (r : Result Error ℕ) (s : e.State)
      → let out = after_open e w (object_installer e luid dnr servers) (r, s) in
        out.0 ≡ err x
        → (out.1.wfp_session ≡ w.wfp_session) × ((h : ℕ) → r ≡ ok h → e.active h out.1.engine ≡ [])
  unfolding after_open
  open_fails w x (err y) s p = (refl, λ h q. cc)
  open_fails w x (ok h) s p =
      let (same_session, none_active) =
        install_fails w h x (run_transaction e h (object_installer e luid dnr servers) s) p in
      (same_session, λ h' q. rw (← ok-injective q) none_active)

  -- When `EnableFirewall` fails, the package's session is the one it had, and the session that the
  -- call opened, if it opened one, has nothing in force. On an enabled package it fails, and changes
  -- nothing at all.
  pub enable_firewall-err :
      (w : World e) (x : Error)
      → (enable_firewall e luid dnr servers w).0 ≡ err x
      → let w' = (enable_firewall e luid dnr servers w).1 in
        (w'.wfp_session ≡ w.wfp_session)
        × ((h : ℕ)
            → w.wfp_session ≡ 0
            → (create_wfp_session e w.engine).0 ≡ ok h
            → e.active h w'.engine ≡ [])
        × (0 < w.wfp_session → (x ≡ already_enabled) × (w' ≡ w))
  unfolding enable_firewall
  enable_firewall-err w x p = elim (Bool-cases (w.wfp_session == 0)) [
    | inl free ↦
        let opened = create_wfp_session e w.engine in
        let (kept, clean) = open_fails w x opened.0 opened.1 (rw free at p) in
        rw free (kept, λ h _ q. clean h q, λ pos. absurd (ground arith))
    | inr taken ↦
        rw taken
          (refl, λ h z _. absurd (ground arith), λ pos. (sym (err-injective (rw taken at p)), refl))
  ]

  -- `DisableFirewall` behind a successful `EnableFirewall` leaves no session, and nothing in force
  -- on the one that there was.
  pub disable_firewall-enable_firewall :
      (w : World e)
      → (enable_firewall e luid dnr servers w).0 ≡ ok tt
      → let w' = (enable_firewall e luid dnr servers w).1 in
        ((disable_firewall e w').wfp_session ≡ 0)
        × (e.active w'.wfp_session (disable_firewall e w').engine ≡ [])
  unfolding disable_firewall
  disable_firewall-enable_firewall w p =
      let w' = (enable_firewall e luid dnr servers w).1 in
      let pos = (enable_firewall-Enforces w p).1.0 in
      let set : (w'.wfp_session == 0) ≡ false = ground arith in
      rw set (refl, laws.close_active w'.wfp_session w'.engine)
