-- ===== src/Tunnel/Watcher.antt =====
-- tunnel/interfacewatcher.go: the events of the tunnel's network interface, each handled as one step
-- under the watcher's lock.
pub mod Order
use wireroute_windows.Base.{
  ℕ, List, [], ◌∷◌, ◌++◌, Bool, true, false, not, ◌&&◌, ◌==◌, length, drop, if◌then◌else◌, Option,
  none, some,
}
use wireroute_windows.Base.Action.{Action}
use wireroute_windows.Base.Result.{Result, ok, err}
use wireroute_windows.Conf.Config.{Config}
use wireroute_windows.Tunnel.Address.{Family, inet, inet6}

-- The errors of package services that the watcher sends.
pub data ServiceError : Type 0 where
  monitor_mtu_changes set_net_config create_network_adapter : ServiceError

-- What the watcher calls: the callbacks and settings of the system, and the adapter's driver.
pub record Network (S : Type 0) : Type 0 where
  pub register_interface_change_callback : Action S ℕ ℕ
  pub unregister : (callback : ℕ) → S → S
  pub monitor_mtu : Family → (luid : ℕ) → Action S ℕ (List ℕ)
  pub configure_interface : Family → Config → (luid : ℕ) → Action S ℕ (Unit {0})
  pub evaluate_dynamic_pitfalls : Family → Config → (luid : ℕ) → S → S
  pub is_down : S → Result ℕ Bool
  pub set_configuration : Config → Action S ℕ (Unit {0})
  pub set_adapter_up : Action S ℕ (Unit {0})
  pub flush_routes : (luid : ℕ) → Family → S → S
  pub flush_ip_addresses : (luid : ℕ) → Family → S → S
  pub flush_dns : (luid : ℕ) → Family → S → S
  pub disable_firewall : S → S

-- An interface; none for a family that is neither of the two.
pub record InterfaceEvent : Type 0 where
  pub luid : ℕ
  pub family : Option Family

-- What `setup` changes: the timer, the callbacks, and what was sent on the two channels.
pub record Running (S : Type 0) : Type 0 where
  pub watchdog : Bool
  pub change_callbacks4 : List ℕ
  pub change_callbacks6 : List ℕ
  pub errors : List (ServiceError × ℕ)
  pub started : List Family
  pub system : S

-- Before `Configure` the LUID is 0 and there is no configuration.
pub record Watcher (S : Type 0) : Type 0 where
  pub conf : Option Config
  pub luid : ℕ
  pub interface_change_callback : Option ℕ
  pub stored_events : List InterfaceEvent
  pub running : Running S

unfoldable pub change_callbacks : {S : Type 0} → Family → Running S → List ℕ
change_callbacks inet r = r.change_callbacks4
change_callbacks inet6 r = r.change_callbacks6

unfoldable pub with_callbacks : {S : Type 0} → Family → List ℕ → Running S → Running S
with_callbacks inet callbacks r = record r { change_callbacks4 = callbacks }
with_callbacks inet6 callbacks r = record r { change_callbacks6 = callbacks }

module _ {S : Type 0} (net : Network S) where
  unfoldable pub unregister_all : List ℕ → S → S
  unregister_all [] s = s
  unregister_all (callback ∷ callbacks) s = unregister_all callbacks (net.unregister callback s)

  unfoldable pub send_error : ServiceError → ℕ → Running S → Running S
  send_error e code r = record r { errors = r.errors ++ ((e, code) ∷ []) }

  unfoldable pub after_configure :
      Family → Config → (luid : ℕ) → Running S → Result ℕ (Unit {0}) × S → Running S
  after_configure family conf luid r (err code, s) =
      send_error set_net_config code (record r { system = s })
  after_configure family conf luid r (ok _, s) = record r {
    started = r.started ++ (family ∷ []);
    system = net.evaluate_dynamic_pitfalls family conf luid s;
  }

  unfoldable pub configure_family : Family → Config → (luid : ℕ) → Running S → Running S
  configure_family family conf luid r =
      after_configure family conf luid r (net.configure_interface family conf luid r.system)

  unfoldable pub monitored :
      Family → Config → (luid : ℕ) → Running S → Result ℕ (List ℕ) × S → Running S
  monitored family conf luid r (err code, s) =
      send_error monitor_mtu_changes code (with_callbacks family [] (record r { system = s }))
  monitored family conf luid r (ok callbacks, s) =
      configure_family family conf luid (with_callbacks family callbacks (record r { system = s }))

  -- `setup`.
  unfoldable pub setup : Config → (luid : ℕ) → Option Family → Running S → Running S
  setup conf luid none r = record r { watchdog = false }
  setup conf luid (some family) r =
      let fresh = with_callbacks family [] (record r {
        watchdog = false;
        system = unregister_all (change_callbacks family r) r.system;
      }) in
      if conf.interface.mtu == 0
      then monitored family conf luid fresh (net.monitor_mtu family luid fresh.system)
      else configure_family family conf luid fresh

  -- The adapter is after_configure and brought up again if it is down; the errors are only logged.
  unfoldable pub bring_up : Config → Result ℕ Bool → Running S → Running S
  bring_up conf (err code) r = r
  bring_up conf (ok is_down) r =
      if is_down
      then record r { system = (net.set_adapter_up (net.set_configuration conf r.system).1).1 }
      else r

  unfoldable pub reinitialize : Config → Running S → Running S
  reinitialize conf r = bring_up conf (net.is_down r.system) r

  unfoldable pub watched : Option Config → (luid : ℕ) → Option Family → Running S → Running S
  watched none luid family r = r
  watched (some conf) luid family r = reinitialize conf (setup conf luid family r)

  -- The callback that `watchInterface` registers; `added` is MibAddInstance.
  unfoldable pub interface_changed : (added : Bool) → InterfaceEvent → Watcher S → Watcher S
  interface_changed added event w =
      if not added
      then w
      else (if w.luid == 0
          then record w { stored_events = w.stored_events ++ (event ∷ []) }
          else (if event.luid == w.luid
              then record w { running = watched w.conf w.luid event.family w.running }
              else w))

  unfoldable pub watch_interface : S → Result ℕ (Watcher S) × S
  watch_interface s = registered (net.register_interface_change_callback s)
    where
      registered : Result ℕ ℕ × S → Result ℕ (Watcher S) × S
      registered (err code, t) = (err code, t)
      registered (ok callback, t) = (
        ok (record {
          conf = none;
          luid = 0;
          interface_change_callback = some callback;
          stored_events = [];
          running = record {
            watchdog = false;
            change_callbacks4 = [];
            change_callbacks6 = [];
            errors = [];
            started = [];
            system = t;
          };
        }),
        t,
      )

  -- The watchdog's function, a minute after it was started.
  unfoldable pub minute_passed : (code : ℕ) → Watcher S → Watcher S
  minute_passed code w =
      if w.running.watchdog
      then record w {
        running = record (send_error create_network_adapter code w.running) { watchdog = false };
      }
      else w

  -- The loop of `Configure` over the stored events.
  unfoldable pub replay : Config → (luid : ℕ) → List InterfaceEvent → Running S → Running S
  replay conf luid [] r = r
  replay conf luid (event ∷ events) r =
      replay conf luid events (if event.luid == luid then setup conf luid event.family r else r)

  unfoldable pub configure : Config → (luid : ℕ) → Watcher S → Watcher S
  configure conf luid w = record w {
    conf = some conf;
    luid = luid;
    stored_events = [];
    running = replay conf luid w.stored_events (record (w.running) { watchdog = true });
  }

  unfoldable pub flush : (luid : ℕ) → S → S
  flush luid s = net.flush_dns luid inet6 (
      net.flush_ip_addresses luid inet6 (
        net.flush_routes luid inet6 (
          net.flush_dns luid inet
            (net.flush_ip_addresses luid inet (net.flush_routes luid inet s)))))

  -- `Destroy` up to where it takes the lock again, on what it read of the watcher under the first.
  unfoldable pub stop_callbacks : Option ℕ → (callbacks4 callbacks6 : List ℕ) → S → S
  stop_callbacks none callbacks4 callbacks6 s =
      unregister_all callbacks6 (unregister_all callbacks4 s)
  stop_callbacks (some callback) callbacks4 callbacks6 s =
      unregister_all callbacks6 (unregister_all callbacks4 (net.unregister callback s))

  -- The rest of it: the LUID, the registration and the callbacks are those that were read before.
  unfoldable pub finish_destroy :
      (luid : ℕ) → Option ℕ → (callbacks4 callbacks6 : List ℕ) → Watcher S → Watcher S
  finish_destroy luid callback callbacks4 callbacks6 w =
      let r = w.running in
      let flushed = if not (luid == 0) && w.luid == luid then flush luid r.system else r.system in
      record w {
        interface_change_callback =
            if is_same callback w.interface_change_callback
            then none
            else w.interface_change_callback;
        running = record r {
          change_callbacks4 = drop (length callbacks4) r.change_callbacks4;
          change_callbacks6 = drop (length callbacks6) r.change_callbacks6;
          system = net.disable_firewall flushed;
        };
      }
    where
      is_same : Option ℕ → Option ℕ → Bool
      is_same none none = true
      is_same (some a) (some b) = a == b
      is_same _ _ = false

  -- `Destroy`, where nothing happens while the lock is free. The watchdog is stopped first.
  unfoldable pub destroy : Watcher S → Watcher S
  destroy w =
      let r = w.running in
      let s =
        stop_callbacks w.interface_change_callback r.change_callbacks4 r.change_callbacks6
          r.system in
      finish_destroy w.luid w.interface_change_callback r.change_callbacks4 r.change_callbacks6
        (record w { running = record r { watchdog = false; system = s } })
