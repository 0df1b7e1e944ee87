-- ===== src/Firewall/Types.antt =====
-- tunnel/firewall/types_windows.go: the parts of the WFP structures that the rules fill in.
use wireroute_windows.Base.{ℕ, List, Option}

-- `cFWPM_LAYER_…`.
pub data Layer : Type 0 where
  connect_v4 recv_accept_v4 connect_v6 recv_accept_v6 : Layer
  outbound_mac_frame_native inbound_mac_frame_native : Layer

-- `cFWPM_CONDITION_…`, each a GUID of its own.
pub data FieldKey : Type 0 where
  ip_local_interface ale_app_id ale_user_id condition_flags ip_protocol : FieldKey
  ip_local_port ip_remote_port ip_local_address ip_remote_address l2_flags : FieldKey

-- The two ICMP keys are those of the ports.
abbrev pub icmp_type : FieldKey
icmp_type = ip_local_port

abbrev pub icmp_code : FieldKey
icmp_code = ip_remote_port

pub data MatchType : Type 0 where
  equal flags_all_set : MatchType

-- `wtFwpValue0`: the type tag with the value that it says is there.
pub data Value : Type 0 where
  uint8 uint16 uint32 uint64 : ℕ → Value
  byte_array16 byte_blob security_descriptor : List ℕ → Value
  v6_addr_mask : List ℕ → ℕ → Value

pub record Condition : Type 0 where
  pub field_key : FieldKey
  pub match_type : MatchType
  pub value : Value

pub data Verdict : Type 0 where
  permit block : Verdict

-- `wtFwpmDisplayData0`.
pub record DisplayData : Type 0 where
  pub name : List ℕ
  pub description : List ℕ

-- `wtFwpmFilter0`. No conditions, no layer and no display data is how the structure starts out.
pub record Filter : Type 0 where
  pub display_data : Option DisplayData
  pub provider_key : ℕ
  pub layer_key : Option Layer
  pub sub_layer_key : ℕ
  pub weight : Value
  pub flags : ℕ
  pub conditions : List Condition
  pub action : Verdict

-- `baseObjects`.
pub record BaseObjects : Type 0 where
  pub provider : ℕ
  pub filters : ℕ

-- `wtFwpmProvider0` and `wtFwpmSublayer0`.
pub record Provider : Type 0 where
  pub provider_key : ℕ
  pub display_data : DisplayData

pub record SubLayer : Type 0 where
  pub sub_layer_key : ℕ
  pub display_data : DisplayData
  pub provider_key : ℕ
  pub weight : ℕ

-- `wtFwpmSession0`.
pub record Session : Type 0 where
  pub display_data : DisplayData
  pub flags : ℕ
  pub timeout : ℕ

-- `filterWeight`.
abbrev pub filter_weight : ℕ → Value
filter_weight w = uint8 w

-- The errors: those that the package makes, and those that Windows returns.
pub data Error : Type 0 where
  already_enabled weights_out_of_order : Error
  system : ℕ → Error
