-- ===== src/Manager/Protocol/Access.antt =====
-- What the methods do for a user who is no administrator.
use wireroute_windows.Base.{◌≡◌, refl, Option-cases, inl, inr}
use wireroute_windows.Base.Result.{Result, Result-cases}
use wireroute_windows.Base.Text.{Text}
use wireroute_windows.Manager.Frames.{Decoder}
use wireroute_windows.Manager.Host.{Refusal, Error, cannot_start, cannot_stop, cannot_quit, Host}
use wireroute_windows.Manager.Profiles.{Packages, ImportProfileRequest, imported, import_profile}
use wireroute_windows.Manager.Protocol.{
  Wire, Reply, decode_parameters, with_parameters, elevated, import_into, Method, hello_method,
  list_method, get_method, import_method, state_method, start_method, stop_method, quit_method,
  method_named, call, dispatch,
}
use wireroute_windows.Manager.Service.{Manager, ManagerService}

module _ {S : Type 0} (wire : Wire) (packages : Packages) (host : Host S) (s : ManagerService) where
  with_parameters_same :
      {A : Type 0} (d : Decoder A) (raw : Text)
      (run : A → Manager S → Result Error Reply × Manager S) (m : Manager S)
      → ((a : A) → (run a m).1 ≡ m)
      → (with_parameters wire packages host s d raw run m).1 ≡ m
  unfolding with_parameters
  with_parameters_same d raw run m h = elim (Result-cases (decode_parameters d raw)) [
    | inl (a, e) ↦ rw e (h a)
    | inr (x, e) ↦ rw e refl
  ]

  module _ (h : s.elevated_token ≡ 0) where
    elevated_same :
        (refusal : Refusal) (run : Manager S → Result Error Reply × Manager S) (m : Manager S)
        → (elevated wire packages host s refusal run m).1 ≡ m
    unfolding elevated
    elevated_same refusal run m = rw h refl

    import_into_same :
        (request : ImportProfileRequest) (m : Manager S)
        → (import_into wire packages host s request m).1 ≡ m
    unfolding import_into import_profile imported
    import_into_same request m = rw h refl

    call_same :
        (method : Method) (raw : Text) (m : Manager S)
        → (call wire packages host s method raw m).1 ≡ m
    unfolding call
    call_same hello_method raw m = with_parameters_same wire.hello raw _ m (λ request. refl)
    call_same list_method raw m = with_parameters_same wire.nothing raw _ m (λ _. refl)
    call_same get_method raw m = with_parameters_same wire.name raw _ m (λ name. refl)
    call_same import_method raw m =
        with_parameters_same wire.import_profile raw _ m (λ request. import_into_same request m)
    call_same state_method raw m = with_parameters_same wire.name raw _ m (λ name. refl)
    call_same start_method raw m =
        with_parameters_same wire.name raw _ m (λ name. elevated_same cannot_start _ m)
    call_same stop_method raw m =
        with_parameters_same wire.name raw _ m (λ name. elevated_same cannot_stop _ m)
    call_same quit_method raw m =
        with_parameters_same wire.stop_tunnels raw _ m (λ stop. elevated_same cannot_quit _ m)

    -- No method changes anything for a user who is no administrator.
    pub dispatch_same :
        (method raw : Text) (m : Manager S) → (dispatch wire packages host s method raw m).1 ≡ m
    unfolding dispatch
    dispatch_same method raw m = elim (Option-cases (method_named method)) [
      | inl e ↦ rw e refl
      | inr (named, e) ↦ rw e (call_same named raw m)
    ]
