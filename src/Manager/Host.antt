-- ===== src/Manager/Host.antt =====
-- What the manager works on: the stored configurations, and the services of Windows.
use wireroute_windows.Base.{ℕ, List, Bool}
use wireroute_windows.Base.Result.{Result}
use wireroute_windows.Base.Action.{Action}
use wireroute_windows.Base.Text.{Text}
use wireroute_windows.Conf.Config.{Config}
use wireroute_windows.Conf.Parser.{ParseError}

pub data TunnelState : Type 0 where
  unknown started stopped starting stopping : TunnelState

-- The states of a service, of package svc; `other` are those that it has besides.
pub data SvcState : Type 0 where
  svc_stopped svc_stop_pending svc_running svc_start_pending svc_other : SvcState

-- What a request of the protocol is refused for: a `managerV1RemoteError`, one constructor for each
-- pair of a code and a message.
pub data Refusal : Type 0 where
  incompatible_protocol cannot_import cannot_start cannot_stop cannot_quit method_not_found :
      Refusal
  profile_not_found profile_empty_or_large hooks_not_allowed : Refusal
  name_length name_control_characters name_not_derived name_conflict : Refusal
  parameters_missing parameters_invalid parameters_extra : Refusal
  profile_invalid : (reason : ParseError) → Refusal

-- The errors of the manager; `system` are those of Windows by their numbers.
pub data Error : Type 0 where
  system : ℕ → Error
  tunnel_name_not_valid : Error
  still_activating : (name : Text) → Error
  remote : Refusal → Error

abbrev pub access_denied : Error
access_denied = system 5

abbrev pub error_service_does_not_exist : ℕ
error_service_does_not_exist = 1060

-- Reading leaves the state S as it is.
pub record Host (S : Type 0) : Type 0 where
  pub list_config_names : S → Result Error (List Text)
  pub load_from_name : S → Text → Result Error Config
  pub path : S → Config → Result Error Text
  pub service_manager : S → Result Error (Unit {0})
  pub open_service : S → (service_name : Text) → Result Error (Unit {0})
  pub query : S → (service_name : Text) → Result Error SvcState
  pub save : Config → (overwrite : Bool) → Action S Error (Unit {0})
  pub delete_name : Text → Action S Error (Unit {0})
  pub install_tunnel : (config_path : Text) → Action S Error (Unit {0})
  pub uninstall_tunnel : (name : Text) → Action S Error (Unit {0})
