-- ===== src/Tunnel/Tests/Watcher.antt =====
-- The watcher at concrete events.
use wireroute_windows.Base.{ℕ, suc, ◌≡◌, refl, List, [], ◌∷◌, Bool, true, false, none, some, arith}
use wireroute_windows.Base.Result.{ok, err}
use wireroute_windows.Conf.Tests.Samples.{sample_config}
use wireroute_windows.Tunnel.Address.{inet, inet6}
use wireroute_windows.Tunnel.Watcher.{
  Network, InterfaceEvent, Watcher, watch_interface, configure, configure_family, after_configure,
  interface_changed, setup, send_error, replay, with_callbacks, change_callbacks, unregister_all,
  minute_passed, create_network_adapter, set_net_config,
}
use wireroute_windows.Tunnel.Watcher.Order.{handle, configure-handle}

-- A system that counts how often addresses were set, and refuses those of IPv6.
abbrev counting : Network ℕ
counting = record {
  register_interface_change_callback = λ s. (ok 1, s);
  unregister = λ callback s. s;
  monitor_mtu = λ family luid s. (ok [], s);
  configure_interface =
      λ family conf luid s. elim family [ inet ↦ (ok tt, suc s) | inet6 ↦ (err 5, s) ];
  evaluate_dynamic_pitfalls = λ family conf luid s. s;
  is_down = λ s. ok false;
  set_configuration = λ conf s. (ok tt, s);
  set_adapter_up = λ s. (ok tt, s);
  flush_routes = λ luid family s. s;
  flush_ip_addresses = λ luid family s. s;
  flush_dns = λ luid family s. s;
  disable_firewall = λ s. s;
}

-- What `watchInterface` returns.
abbrev new_watcher : Watcher ℕ
new_watcher = record {
  conf = none;
  luid = 0;
  interface_change_callback = some 1;
  stored_events = [];
  running = record {
    watchdog = false;
    change_callbacks4 = [];
    change_callbacks6 = [];
    errors = [];
    started = [];
    system = 0;
  };
}

new_watcher_lem : watch_interface counting 0 ≡ (ok new_watcher, 0)
unfolding watch_interface
new_watcher_lem = refl

abbrev some_events : List (Bool × InterfaceEvent)
some_events =
    (true, record { luid = 9; family = some inet })
    ∷ (true, record { luid = 7; family = some inet })
    ∷ (false, record { luid = 7; family = some inet })
    ∷ (true, record { luid = 7; family = some inet6 })
    ∷ []

configure-handle_example :
    configure counting sample_config 7 (handle counting some_events new_watcher)
    ≡ handle counting some_events (configure counting sample_config 7 new_watcher)
configure-handle_example =
    configure-handle counting (λ s e. ground arith) sample_config 7 some_events new_watcher refl
      (omega arith)

-- IPv4 started, IPv6 failed, and the watchdog is stopped.
handled :
    (configure counting sample_config 7 (handle counting some_events new_watcher)).running
    ≡ record {
      watchdog = false;
      change_callbacks4 = [];
      change_callbacks6 = [];
      errors = (set_net_config, 5) ∷ [];
      started = inet ∷ [];
      system = 1;
    }
unfolding configure interface_changed replay setup with_callbacks change_callbacks unregister_all
    configure_family after_configure send_error
handled = refl

-- Where no interface appears, the watchdog tells of it.
unanswered :
    (minute_passed counting 1 (configure counting sample_config 7 new_watcher)).running.errors
    ≡ (create_network_adapter, 1) ∷ []
unfolding minute_passed configure replay send_error
unanswered = refl
