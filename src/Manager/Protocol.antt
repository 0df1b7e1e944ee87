-- ===== src/Manager/Protocol.antt =====
-- manager/protocol_v1.go: requests, their dispatch and the session in which they are served.
pub mod Access
pub mod Replies
use wireroute_windows.Base.{
  ℕ, zero, suc, List, [], ◌∷◌, Bool, true, false, not, ◌||◌, ◌&&◌, ◌==◌, if◌then◌else◌, Option,
  none, some,
}
use wireroute_windows.Base.Numbers.{ℤ, pos, lt_int, same_int}
use wireroute_windows.Base.Result.{Result, ok, err, ◌>>=◌, ◌>>◌, reject_if, require, value_or}
use wireroute_windows.Base.Text.{Text, codes, same, is_empty}
use wireroute_windows.Manager.Frames.{FrameError, Decoder, read_frame, write_frame}
use wireroute_windows.Manager.Host.{
  unknown, Refusal, Error, remote, incompatible_protocol, cannot_start, cannot_stop, cannot_quit,
  method_not_found, parameters_missing, parameters_invalid, parameters_extra, Host,
}
use wireroute_windows.Manager.Profiles.{
  Packages, ProfileSummary, ProfileDetail, ImportProfileRequest, state_name, list_profiles,
  get_profile, import_profile,
}
use wireroute_windows.Manager.Service.{Manager, ManagerService, state, start, stop, quit}

abbrev pub protocol_name : Text
protocol_name = codes "wireroute-manager"

abbrev pub protocol_version : ℤ
protocol_version = pos 1

pub record Request : Type 0 where
  pub version : ℤ
  pub request_id : ℤ
  pub method : Text
  pub parameters : Text

pub record HelloRequest : Type 0 where
  pub protocol : Text
  pub minimum_version : ℤ
  pub maximum_version : ℤ
  pub client_version : Text
  pub architecture : Text

pub record Capabilities : Type 0 where
  pub can_list_profiles : Bool
  pub can_read_profile_details : Bool
  pub can_read_tunnel_state : Bool
  pub can_import_profiles : Bool
  pub can_start_tunnels : Bool
  pub can_stop_tunnels : Bool
  pub can_quit_manager : Bool

pub record HelloResponse : Type 0 where
  pub protocol : Text
  pub selected_version : ℤ
  pub manager_version : Text
  pub capabilities : Capabilities

-- The results of the methods.
pub data Reply : Type 0 where
  hello_reply : HelloResponse → Reply
  list_reply : List ProfileSummary → Reply
  detail_reply : ProfileDetail → Reply
  import_reply : ProfileSummary → Reply
  tunnel_state_reply : (name : Text) → (state : Text) → Reply
  quit_reply : (already_quit : Bool) → Reply

-- One constructor for each pair of a code and a message.
pub data ProtocolError : Type 0 where
  unsupported_version not_positive hello_completed hello_required : ProtocolError
  remote_error : Refusal → ProtocolError
  manager_error : Error → ProtocolError

-- The result, or the error.
pub record Response : Type 0 where
  pub version : ℤ
  pub request_id : ℤ
  pub result : Result ProtocolError Reply

pub data Method : Type 0 where
  hello_method list_method get_method import_method : Method
  state_method start_method stop_method quit_method : Method

-- The names in the switch of `dispatch`.
unfoldable pub method_named : Text → Option Method
method_named method =
    if same method (codes "hello")
    then some hello_method
    else (if same method (codes "profiles.list")
        then some list_method
        else (if same method (codes "profiles.get")
            then some get_method
            else (if same method (codes "profiles.import")
                then some import_method
                else (if same method (codes "tunnel.state")
                    then some state_method
                    else (if same method (codes "tunnel.start")
                        then some start_method
                        else (if same method (codes "tunnel.stop")
                            then some stop_method
                            else (if same method (codes "manager.quit")
                                then some quit_method
                                else none)))))))

-- What encoding/json makes of the types above, and the version of the program.
pub record Wire : Type 0 where
  pub request : Decoder Request
  pub hello : Decoder HelloRequest
  pub nothing : Decoder (Unit {0})
  pub name : Decoder Text
  pub import_profile : Decoder ImportProfileRequest
  pub stop_tunnels : Decoder Bool
  pub marshal : Response → Option Text
  pub version_number : Text

unfoldable pub decode_parameters : {A : Type 0} → Decoder A → Text → Result Error A
decode_parameters d raw = do
  reject_if (is_empty raw) (remote parameters_missing)
  value ← require (d.decode raw) (remote parameters_invalid)
  reject_if (d.has_more raw) (remote parameters_extra)
  ok value

unfoldable pub protocol_error : Error → ProtocolError
protocol_error (remote r) = remote_error r
protocol_error e = manager_error e

unfoldable pub hello : Wire → (token : ℕ) → HelloRequest → Result Error Reply
hello wire token request =
    let can_write = not (token == 0) in
    if not (same request.protocol protocol_name)
      || lt_int protocol_version request.minimum_version
      || lt_int request.maximum_version protocol_version
    then err (remote incompatible_protocol)
    else ok (
        hello_reply (record {
          protocol = protocol_name;
          selected_version = protocol_version;
          manager_version = wire.version_number;
          capabilities = record {
            can_list_profiles = true;
            can_read_profile_details = true;
            can_read_tunnel_state = true;
            can_import_profiles = can_write;
            can_start_tunnels = can_write;
            can_stop_tunnels = can_write;
            can_quit_manager = can_write;
          };
        }))

module _ {S : Type 0} (wire : Wire) (packages : Packages) (host : Host S) (s : ManagerService) where
  -- A reply of a tunnel's state; what State fails with counts for nothing here.
  unfoldable pub state_now :
      Text → Result Error (Unit {0}) × Manager S → Result Error Reply × Manager S
  state_now name (err e, m) = (err e, m)
  state_now name (ok _, m) =
      (ok (tunnel_state_reply name (state_name (value_or unknown (state host name m)))), m)

  -- Runs what the parameters ask for.
  unfoldable pub with_parameters :
      {A : Type 0}
      → Decoder A
      → Text
      → (A → Manager S → Result Error Reply × Manager S)
      → Manager S
      → Result Error Reply × Manager S
  with_parameters {A = A} d raw run m = decoded (decode_parameters d raw)
    where
      decoded : Result Error A → Result Error Reply × Manager S
      decoded (err e) = (err e, m)
      decoded (ok value) = run value m

  -- Refuses a user who is no administrator.
  unfoldable pub elevated :
      Refusal
      → (Manager S → Result Error Reply × Manager S)
      → Manager S
      → Result Error Reply × Manager S
  elevated refusal run m = if s.elevated_token == 0 then (err (remote refusal), m) else run m

  unfoldable pub tunnel_state_of : Text → Manager S → Result Error Reply
  tunnel_state_of name m =
      state host name m >>= λ now. ok (tunnel_state_reply name (state_name now))

  unfoldable pub import_into : ImportProfileRequest → Manager S → Result Error Reply × Manager S
  import_into request m = replied (import_profile packages host s request m)
    where
      replied : Result Error ProfileSummary × Manager S → Result Error Reply × Manager S
      replied (r, n) = (r >>= λ profile. ok (import_reply profile), n)

  unfoldable pub quit_manager : Bool → Manager S → Result Error Reply × Manager S
  quit_manager stop_tunnels m = replied (quit host s stop_tunnels m)
    where
      replied : Result Error Bool × Manager S → Result Error Reply × Manager S
      replied (r, n) = (r >>= λ already_quit. ok (quit_reply already_quit), n)

  -- The cases of `dispatch`.
  unfoldable pub call : Method → (raw : Text) → Manager S → Result Error Reply × Manager S
  call hello_method raw =
      with_parameters wire.hello raw λ request n. (hello wire s.elevated_token request, n)
  call list_method raw =
      with_parameters wire.nothing raw
        λ _ n. (list_profiles packages host n >>= λ profiles. ok (list_reply profiles), n)
  call get_method raw =
      with_parameters wire.name raw
        λ name n. (get_profile packages host name n >>= λ profile. ok (detail_reply profile), n)
  call import_method raw = with_parameters wire.import_profile raw import_into
  call state_method raw = with_parameters wire.name raw λ name n. (tunnel_state_of name n, n)
  call start_method raw =
      with_parameters wire.name raw
        λ name. elevated cannot_start λ n. state_now name (start host name n)
  call stop_method raw =
      with_parameters wire.name raw
        λ name. elevated cannot_stop λ n. state_now name (stop host name n)
  call quit_method raw =
      with_parameters wire.stop_tunnels raw
        λ stop_tunnels. elevated cannot_quit (quit_manager stop_tunnels)

  unfoldable pub dispatch : (method raw : Text) → Manager S → Result Error Reply × Manager S
  dispatch method raw m = found (method_named method)
    where
      found : Option Method → Result Error Reply × Manager S
      found none = (err (remote method_not_found), m)
      found (some named) = call named raw m
