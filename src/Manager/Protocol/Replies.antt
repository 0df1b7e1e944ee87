-- ===== src/Manager/Protocol/Replies.antt =====
-- Which replies the methods have.
use wireroute_windows.Base.{
  ◌≡◌, refl, ap, sym, ◌∙◌, Bool, true, false, ◌==◌, not, ◌||◌, arith, Option, some, none,
  Option-cases, Bool-cases, inl, inr,
}
use wireroute_windows.Base.Numbers.{lt_int}
use wireroute_windows.Base.Result.{Result, ok, err, ◌>>=◌, Holds, Holds-if, Result-cases}
use wireroute_windows.Base.Text.{Text, codes, same}
use wireroute_windows.Manager.Frames.{Decoder}
use wireroute_windows.Manager.Host.{Refusal, Error, Host}
use wireroute_windows.Manager.Profiles.{
  Packages, list_profiles, get_profile, import_profile, state_name,
}
use wireroute_windows.Manager.Protocol.{
  HelloRequest, protocol_name, protocol_version, Wire, Reply, hello_reply, list_reply, detail_reply,
  import_reply, tunnel_state_reply, quit_reply, decode_parameters, hello, with_parameters, elevated,
  state_now, tunnel_state_of, import_into, quit_manager, Method, hello_method, list_method,
  get_method, import_method, state_method, start_method, stop_method, quit_method, method_named,
  call, dispatch,
}
use wireroute_windows.Manager.Service.{Manager, ManagerService, state, start, stop, quit}

unfoldable pub is_hello_reply : Reply → Bool
is_hello_reply (hello_reply r) = true
is_hello_reply _ = false

is_hello_method : Method → Bool
is_hello_method hello_method = true
is_hello_method _ = false

is_hello_method_named : Option Method → Bool
is_hello_method_named none = false
is_hello_method_named (some named) = is_hello_method named

method_named-hello :
    (method : Text) → is_hello_method_named (method_named method) ≡ same method (codes "hello")
unfolding method_named is_hello_method_named is_hello_method
method_named-hello method = elim (Bool-cases (same method (codes "hello"))) [
  | inl e ↦ rw e refl
  | inr e ↦ rw e (ground arith)
]

module _ {S : Type 0} (wire : Wire) (packages : Packages) (host : Host S) (s : ManagerService) where
  abbrev Replies : Bool → Result Error Reply × Manager S → Type 0
  Replies is_hello r = Holds (λ reply. is_hello_reply reply ≡ is_hello) r.0

  with_parameters-Replies :
      {A : Type 0} (is_hello : Bool) (d : Decoder A) (raw : Text)
      (run : A → Manager S → Result Error Reply × Manager S) (m : Manager S)
      → ((a : A) → Replies is_hello (run a m))
      → Replies is_hello (with_parameters wire packages host s d raw run m)
  unfolding with_parameters
  with_parameters-Replies is_hello d raw run m h = elim (Result-cases (decode_parameters d raw)) [
    | inl (a, e) ↦ rw e (h a)
    | inr (x, e) ↦ rw e tt
  ]

  elevated-Replies :
      (is_hello : Bool) (refusal : Refusal) (run : Manager S → Result Error Reply × Manager S)
      (m : Manager S)
      → Replies is_hello (run m)
      → Replies is_hello (elevated wire packages host s refusal run m)
  unfolding elevated
  elevated-Replies is_hello refusal run m h = elim (Bool-cases (s.elevated_token == 0)) [
    | inl e ↦ rw e tt
    | inr e ↦ rw e h
  ]

  -- A value passed on by one constructor of the replies.
  made :
      {A : Type 0} (make : A → Reply) (r : Result Error A) (is_hello : Bool)
      → ((a : A) → is_hello_reply (make a) ≡ is_hello)
      → Holds (λ reply. is_hello_reply reply ≡ is_hello) (r >>= λ a. ok (make a))
  made make (ok a) is_hello h = h a
  made make (err e) is_hello h = tt

  hello-Replies :
      (request : HelloRequest)
      → Holds (λ reply. is_hello_reply reply ≡ true) (hello wire s.elevated_token request)
  unfolding hello is_hello_reply
  hello-Replies request =
      Holds-if (λ reply. is_hello_reply reply ≡ true)
        (not (same request.protocol protocol_name)
          || lt_int protocol_version request.minimum_version
          || lt_int request.maximum_version protocol_version)
        _ _ (λ _. tt) (λ _. refl)

  state_now-Replies :
      (name : Text) (r : Result Error (Unit {0}) × Manager S)
      → Replies false (state_now wire packages host s name r)
  unfolding state_now is_hello_reply
  state_now-Replies name (ok u, m) = refl
  state_now-Replies name (err e, m) = tt

  call-Replies :
      (method : Method) (raw : Text) (m : Manager S)
      → Replies (is_hello_method method) (call wire packages host s method raw m)
  unfolding call is_hello_method is_hello_reply import_into tunnel_state_of quit_manager
  call-Replies hello_method raw m =
      with_parameters-Replies true wire.hello raw _ m (λ request. hello-Replies request)
  call-Replies list_method raw m =
      with_parameters-Replies false wire.nothing raw _ m
        (λ _. made list_reply (list_profiles packages host m) false (λ a. refl))
  call-Replies get_method raw m =
      with_parameters-Replies false wire.name raw _ m
        (λ name. made detail_reply (get_profile packages host name m) false (λ a. refl))
  call-Replies import_method raw m =
      with_parameters-Replies false wire.import_profile raw _ m (λ request.
        made import_reply (import_profile packages host s request m).0 false (λ a. refl))
  call-Replies state_method raw m = with_parameters-Replies false wire.name raw _ m (λ name.
      made (λ now. tunnel_state_reply name (state_name now)) (state host name m) false (λ a. refl))
  call-Replies start_method raw m =
      with_parameters-Replies false wire.name raw _ m
        (λ name. elevated-Replies false _ _ m (state_now-Replies name (start host name m)))
  call-Replies stop_method raw m =
      with_parameters-Replies false wire.name raw _ m
        (λ name. elevated-Replies false _ _ m (state_now-Replies name (stop host name m)))
  call-Replies quit_method raw m =
      with_parameters-Replies false wire.stop_tunnels raw _ m (λ stop_tunnels.
        elevated-Replies false _ _ m
          (made quit_reply (quit host s stop_tunnels m).0 false (λ a. refl)))

  -- The method called hello, and no other, replies to a hello.
  pub dispatch-Holds :
      (method raw : Text) (m : Manager S)
      → Holds
          (λ reply. is_hello_reply reply ≡ same method (codes "hello"))
          (dispatch wire packages host s method raw m).0
  unfolding dispatch is_hello_method_named
  dispatch-Holds method raw m = elim (Option-cases (method_named method)) [
    | inl e ↦ rw e tt
    | inr (named, e) ↦
        let hello = ap is_hello_method_named (sym e) ∙ method_named-hello method in
        rw (e, ← hello) (call-Replies named raw m)
  ]
