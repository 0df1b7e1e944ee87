-- ===== src/Manager/Service.antt =====
-- manager/ipc_server.go: the methods of `ManagerService`.
pub mod Start
pub mod Access
use wireroute_windows.Base.{
  ℕ, List, [], ◌∷◌, ◌++◌, map, Bool, true, false, not, ◌&&◌, ◌||◌, ◌==◌, length, if◌then◌else◌,
  Option, none, some,
}
use wireroute_windows.Base.Result.{Result, ok, err, ◌>>=◌, ◌>>◌}
use wireroute_windows.Base.Text.{Text, is_empty}
use wireroute_windows.Conf.Config.{Config}
use wireroute_windows.Conf.Config.Operations.{intersects_with, redact}
use wireroute_windows.Conf.Name.{NameError, service_name_of_tunnel}
use wireroute_windows.Manager.Host.{
  TunnelState, unknown, started, stopped, starting, stopping, SvcState, svc_stopped,
  svc_stop_pending, svc_running, svc_start_pending, svc_other, Error, system, tunnel_name_not_valid,
  still_activating, access_denied, error_service_does_not_exist, Host,
}

-- The state of the process: the package's variables, and the world that a host works on.
-- `to_stop` are the lists of tunnels that the routines started by `Start` are to stop, and
-- `registered` the services that get notifications.
pub record Manager (S : Type 0) : Type 0 where
  pub world : S
  pub tracked_tunnels : List (Text × TunnelState)
  pub have_quit : Bool
  pub quit_signalled : Bool
  pub registered : List ℕ
  pub to_stop : List (List Text)

-- `ManagerService`: a token of 0 is that of a user who is no administrator.
pub record ManagerService : Type 0 where
  pub id : ℕ
  pub elevated_token : ℕ

unfoldable pub tunnel_state : SvcState → TunnelState
tunnel_state svc_stopped = stopped
tunnel_state svc_stop_pending = stopping
tunnel_state svc_running = started
tunnel_state svc_start_pending = starting
tunnel_state svc_other = unknown

unfoldable pub is_in_transition : TunnelState → Bool
is_in_transition starting = true
is_in_transition unknown = true
is_in_transition _ = false

unfoldable pub is_up : TunnelState → Bool
is_up started = true
is_up starting = true
is_up _ = false

-- The loop of `trackedTunnelsGlobalState` over the states, in the order in which it takes them.
unfoldable pub global_state_from : TunnelState → List (Text × TunnelState) → TunnelState
global_state_from state [] = state
global_state_from state (t ∷ tunnels) = elim t.1 [
  | starting ↦ starting
  | stopping ↦ stopping
  | started ↦ global_state_from started tunnels
  | unknown ↦ global_state_from started tunnels
  | stopped ↦ global_state_from state tunnels
]

unfoldable pub without_id : ℕ → List ℕ → List ℕ
without_id i [] = []
without_id i (j ∷ ids) = let rest = without_id i ids in if i == j then rest else j ∷ rest

unfoldable pub service_name : Text → Result Error Text
service_name name = named (service_name_of_tunnel name)
  where
    named : Result NameError Text → Result Error Text
    named (ok s) = ok s
    named (err _) = err tunnel_name_not_valid

module _ {S : Type 0} (host : Host S) where
  unfoldable pub global_state : Manager S → TunnelState
  unfolding global_state_from
  global_state m = global_state_from stopped m.tracked_tunnels

  -- With no token the configuration is redacted.
  unfoldable pub stored_config : ManagerService → Text → Manager S → Result Error Config
  stored_config s name m = host.load_from_name m.world name >>= λ conf.
      ok (if s.elevated_token == 0 then redact conf else conf)

  -- `State`, which also has a value when it fails: 0, which is `unknown`.
  unfoldable pub state : Text → Manager S → Result Error TunnelState
  unfolding service_name tunnel_state
  state name m = do
    s ← service_name name
    host.service_manager m.world
    opened (host.open_service m.world s) (host.query m.world s)
    where
      opened : Result Error (Unit {0}) → Result Error SvcState → Result Error TunnelState
      opened (err _) _ = ok stopped
      opened (ok _) (err _) = ok unknown
      opened (ok _) (ok status) = ok (tunnel_state status)

  -- A call of the host, on the manager.
  unfoldable pub on_world :
      (S → Result Error (Unit {0}) × S) → Manager S → Result Error (Unit {0}) × Manager S
  on_world call m = let r = call m.world in (r.0, record m { world = r.1 })

  -- Is the tunnel's configuration there, and does it intersect?
  unfoldable pub intersects : Config → S → Text → Bool
  intersects c w t = loaded (host.load_from_name w t)
    where
      loaded : Result Error Config → Bool
      loaded (err _) = false
      loaded (ok c2) = intersects_with c c2

  -- The loop of `Start`: the tunnels that intersect, up to the first in transition.
  unfoldable pub scan : Config → S → List (Text × TunnelState) → List Text → List Text × Option Text
  scan c w [] tt' = (tt', none)
  scan c w (t ∷ tunnels) tt' =
      let skip = scan c w tunnels tt' in
      let on = scan c w tunnels (tt' ++ (t.0 ∷ [])) in
      if not (intersects c w t.0)
      then skip
      else (if not (is_empty t.0) && is_in_transition t.1
          then (tt' ++ (t.0 ∷ []), some t.0)
          else on)

  unfoldable pub after_scan :
      Config → List Text × Option Text → Manager S → Result Error (Unit {0}) × Manager S
  unfolding on_world
  after_scan c (tunnels, some t) m = (err (still_activating t), m)
  after_scan c (tunnels, none) m =
      installed (host.path m.world c) (record m { to_stop = m.to_stop ++ (tunnels ∷ []) })
    where
      installed : Result Error Text → Manager S → Result Error (Unit {0}) × Manager S
      installed (err e) n = (err e, n)
      installed (ok path) n = on_world (host.install_tunnel path) n

  unfoldable pub start : Text → Manager S → Result Error (Unit {0}) × Manager S
  start name m = loaded (host.load_from_name m.world name)
    where
      loaded : Result Error Config → Result Error (Unit {0}) × Manager S
      loaded (err e) = (err e, m)
      loaded (ok c) = after_scan c (scan c m.world m.tracked_tunnels []) m

  -- A service that is gone is no error if the configuration is there.
  unfoldable pub stop_result : Text → S → Result Error (Unit {0}) → Result Error (Unit {0})
  stop_result name w (ok _) = ok tt
  stop_result name w (err (system n)) =
      if n == error_service_does_not_exist
      then present (host.load_from_name w name)
      else err (system n)
    where
      present : Result Error Config → Result Error (Unit {0})
      present (ok _) = ok tt
      present (err _) = err (system n)
  stop_result name w (err e) = err e

  unfoldable pub stop : Text → Manager S → Result Error (Unit {0}) × Manager S
  unfolding on_world stop_result
  stop name m =
      let r = on_world (host.uninstall_tunnel name) m in (stop_result name r.1.world r.0, r.1)

  -- The routine that `Start` runs beside itself: each tunnel is stopped, and those that are up
  -- behind that once more.
  unfoldable pub stop_each : List Text → Manager S → Manager S
  stop_each [] m = m
  stop_each (t ∷ tunnels) m = stop_each tunnels (stop t m).1

  unfoldable pub stop_zombies : List Text → Manager S → Manager S
  stop_zombies [] m = m
  stop_zombies (t ∷ tunnels) m = stop_zombies tunnels (again (state t m))
    where
      again : Result Error TunnelState → Manager S
      again (err _) = m
      again (ok s) = if is_up s then (stop t m).1 else m

  unfoldable pub stop_intersecting : List Text → Manager S → Manager S
  stop_intersecting tunnels m = stop_zombies tunnels (stop_each tunnels m)

  unfoldable pub delete : ManagerService → Text → Manager S → Result Error (Unit {0}) × Manager S
  delete s name m =
      if s.elevated_token == 0 then (err access_denied, m) else stopped_then (stop name m)
    where
      stopped_then : Result Error (Unit {0}) × Manager S → Result Error (Unit {0}) × Manager S
      stopped_then (err e, n) = (err e, n)
      stopped_then (ok _, n) = on_world (host.delete_name name) n

  unfoldable pub create : ManagerService → Config → Manager S → Result Error (Unit {0}) × Manager S
  create s conf m =
      if s.elevated_token == 0 then (err access_denied, m) else on_world (host.save conf true) m

  unfoldable pub uninstall_each : List Text → Manager S → Manager S
  uninstall_each [] m = m
  uninstall_each (t ∷ tunnels) m = uninstall_each tunnels (on_world (host.uninstall_tunnel t) m).1

  -- Whether the manager had quit before; `quit_signalled` is the message to quitManagersChan.
  unfoldable pub quit :
      ManagerService → (stop_tunnels : Bool) → Manager S → Result Error Bool × Manager S
  quit s stop_tunnels m =
      if s.elevated_token == 0
      then (err access_denied, m)
      else (if m.have_quit
          then (ok true, m)
          else leave (record m { have_quit = true; registered = without_id s.id m.registered }))
    where
      signal : Manager S → Result Error Bool × Manager S
      signal n = (ok false, record n { quit_signalled = true })

      listed : Result Error (List Text) → Manager S → Result Error Bool × Manager S
      listed (err e) n = (err e, n)
      listed (ok names) n = signal (uninstall_each names n)

      leave : Manager S → Result Error Bool × Manager S
      leave n = if stop_tunnels then listed (host.list_config_names n.world) n else signal n
