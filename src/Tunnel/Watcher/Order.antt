-- ===== src/Tunnel/Watcher/Order.antt =====
-- tunnel/interfacewatcher.go: events before and after `Configure`.
use wireroute_windows.Base.{
  ℕ, ◌≡◌, ◌≢◌, refl, sym, ap, ◌∙◌, List, [], ◌∷◌, ◌++◌, append-nil, append_assoc, Bool, true, false,
  ◌==◌, if◌then◌else◌, some, Bool-cases, inl, inr, arith,
}
use wireroute_windows.Base.Result.{Result, ok, err}
use wireroute_windows.Conf.Config.{Config}
use wireroute_windows.Tunnel.Watcher.{
  Network, InterfaceEvent, Running, Watcher, setup, bring_up, reinitialize, watched,
  interface_changed, replay, configure,
}

-- Those that are told of an interface that was added.
abbrev pub added_events : List (Bool × InterfaceEvent) → List InterfaceEvent
added_events [] = []
added_events ((true, event) ∷ events) = event ∷ added_events events
added_events ((false, event) ∷ events) = added_events events

module _ {S : Type 0} (net : Network S) where
  -- The callback for one event after the other.
  abbrev pub handle : List (Bool × InterfaceEvent) → Watcher S → Watcher S
  handle [] w = w
  handle ((added, event) ∷ events) w = handle events (interface_changed net added event w)

  -- Without a LUID the events are stored.
  handle_stores :
      (events : List (Bool × InterfaceEvent)) (w : Watcher S)
      → w.luid ≡ 0
      → handle events w ≡ record w { stored_events = w.stored_events ++ added_events events }
  unfolding interface_changed
  handle_stores [] w h = ap (λ e. record w { stored_events = e }) (sym (append-nil w.stored_events))
  handle_stores ((false, event) ∷ events) w h = handle_stores events w h
  handle_stores ((true, event) ∷ events) w h =
      let next = record w { stored_events = w.stored_events ++ (event ∷ []) } in
      ap (handle events) (stores event w h)
      ∙ handle_stores events next h
      ∙ ap (λ e. record w { stored_events = e })
          (append_assoc w.stored_events (event ∷ []) (added_events events))
    where
      stores :
          (event : InterfaceEvent) (w : Watcher S)
          → w.luid ≡ 0
          → interface_changed net true event w
            ≡ record w { stored_events = w.stored_events ++ (event ∷ []) }
      stores event w h = let empty : (w.luid == 0) ≡ true = ground arith in rw empty refl

  replay-append :
      (conf : Config) (luid : ℕ) (a b : List InterfaceEvent) (r : Running S)
      → replay net conf luid (a ++ b) r ≡ replay net conf luid b (replay net conf luid a r)
  unfolding replay
  replay-append conf luid [] b r = refl
  replay-append conf luid (event ∷ a) b r =
      replay-append conf luid a b
        (if event.luid == luid then setup net conf luid event.family r else r)

  module _ (up : (s : S) → net.is_down s ≢ ok true) where
    bring_up_none :
        (conf : Config) (d : Result ℕ Bool) (r : Running S)
        → d ≢ ok true
        → bring_up net conf d r ≡ r
    unfolding bring_up
    bring_up_none conf (err code) r h = refl
    bring_up_none conf (ok true) r h = absurd (h refl)
    bring_up_none conf (ok false) r h = refl

    sets_up :
        (conf : Config) (luid : ℕ) (event : InterfaceEvent) (w : Watcher S) (r : Running S)
        → luid ≢ 0
        → let now = record w { conf = some conf; luid = luid } in
          interface_changed net true event (record now { running = r })
          ≡ record now { running = replay net conf luid (event ∷ []) r }
    unfolding interface_changed watched reinitialize replay
    sets_up conf luid event w r h =
        let set : (luid == 0) ≡ false = ground arith in
        let now = record w { conf = some conf; luid = luid } in
        rw set (elim (Bool-cases (event.luid == luid)) [
          | inl e ↦
              let r1 = setup net conf luid event.family r in
              rw e (
                ap (λ (x : Running S). record now { running = x })
                  (bring_up_none conf (net.is_down r1.system) r1 (up r1.system)))
          | inr e ↦ rw e refl
        ])

    -- With a LUID they are handled as they come.
    handle_sets_up :
        (conf : Config) (luid : ℕ) (events : List (Bool × InterfaceEvent)) (w : Watcher S)
        (r : Running S)
        → luid ≢ 0
        → let now = record w { conf = some conf; luid = luid } in
          handle events (record now { running = r })
          ≡ record now { running = replay net conf luid (added_events events) r }
    unfolding replay interface_changed
    handle_sets_up conf luid [] w r h = refl
    handle_sets_up conf luid ((false, event) ∷ events) w r h = handle_sets_up conf luid events w r h
    handle_sets_up conf luid ((true, event) ∷ events) w r h =
        let now = record w { conf = some conf; luid = luid } in
        let r1 = replay net conf luid (event ∷ []) r in
        ap (handle events) (sets_up conf luid event w r h)
        ∙ handle_sets_up conf luid events w r1 h
        ∙ ap (λ (x : Running S). record now { running = x })
            (sym (replay-append conf luid (event ∷ []) (added_events events) r))

    -- Where the adapter is not found down, it is the same whether `Configure` comes before some events
    -- or behind them: what came earlier is stored, and set up once the LUID is known.
    pub configure-handle :
        (conf : Config) (luid : ℕ) (events : List (Bool × InterfaceEvent)) (w : Watcher S)
        → w.luid ≡ 0
        → luid ≢ 0
        → configure net conf luid (handle events w) ≡ handle events (configure net conf luid w)
    unfolding configure
    configure-handle conf luid events w fresh h =
        let now = record w { conf = some conf; luid = luid; stored_events = [] } in
        let started = record (w.running) { watchdog = true } in
        ap (configure net conf luid) (handle_stores events w fresh)
        ∙ ap (λ (x : Running S). record now { running = x })
            (replay-append conf luid w.stored_events (added_events events) started)
        ∙ sym (
            handle_sets_up conf luid events (record now { running = started })
              (replay net conf luid w.stored_events started) h)
