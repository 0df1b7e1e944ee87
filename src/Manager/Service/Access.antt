-- ===== src/Manager/Service/Access.antt =====
-- What a user who is no administrator may do.
use wireroute_windows.Base.{◌≡◌, refl, ◌⊎◌, inl, inr, Bool}
use wireroute_windows.Base.Result.{ok, err, Result-cases}
use wireroute_windows.Base.Text.{Text}
use wireroute_windows.Conf.Config.{Config}
use wireroute_windows.Conf.Config.Operations.{redact}
use wireroute_windows.Manager.Host.{Error, access_denied, Host}
use wireroute_windows.Manager.Service.{Manager, ManagerService, stored_config, delete, create, quit}

module _ {S : Type 0} (host : Host S) (s : ManagerService) (h : s.elevated_token ≡ 0) where
  -- Without the token of an administrator, `Delete`, `Create` and `Quit` are denied and leave the
  -- process and the system as they are, and a stored configuration is shown redacted or not at all.
  pub not_elevated :
      (name : Text) (conf : Config) (stop_tunnels : Bool) (m : Manager S)
      → (delete host s name m ≡ (err access_denied, m))
        × (create host s conf m ≡ (err access_denied, m))
        × (quit host s stop_tunnels m ≡ (err access_denied, m))
        × (((c : Config) × (stored_config host s name m ≡ ok (redact c)))
            ⊎ ((e : Error) × (stored_config host s name m ≡ err e)))
  unfolding delete create quit stored_config
  not_elevated name conf stop_tunnels m = rw h (
    refl,
    refl,
    refl,
    elim (Result-cases (host.load_from_name m.world name)) [
      | inl (c, e) ↦ inl (c, rw e refl)
      | inr (e, p) ↦ inr (e, rw p refl)
    ],
  )
