-- ===== src/Conf/Config.antt =====
-- The configuration of a tunnel: the types of conf/config.go.
pub mod Operations
use wireroute_windows.Base.{ℕ, List, [], Bool, false, ◌==◌, length}
use wireroute_windows.Base.Text.{Text, contains, same}
use wireroute_windows.Conf.Netip.{Addr, Prefix}

abbrev pub key_length : ℕ
key_length = 32

-- A key is the list of its bytes.
abbrev pub Key : Type 0
Key = List ℕ

pub record Endpoint : Type 0 where
  pub host : Text
  pub port : ℕ

pub record Comments : Type 0 where
  pub before : List Text
  pub suffix : Text

pub record SectionComments : Type 0 where
  pub header : Comments
  pub lines : List (Text × Comments)

pub record Peer : Type 0 where
  pub public_key : Key
  pub preshared_key : Key
  pub allowed_ips : List Prefix
  pub endpoint : Endpoint
  pub persistent_keepalive : ℕ
  pub rx_bytes : ℕ
  pub tx_bytes : ℕ
  pub last_handshake_time : ℕ
  pub comments : SectionComments

pub record Interface : Type 0 where
  pub private_key : Key
  pub addresses : List Prefix
  pub listen_port : ℕ
  pub mtu : ℕ
  pub dns : List Addr
  pub dns_search : List Text
  pub pre_up : Text
  pub post_up : Text
  pub pre_down : Text
  pub post_down : Text
  pub table_off : Bool
  pub comments : SectionComments

pub record Config : Type 0 where
  pub name : Text
  pub interface : Interface
  pub peers : List Peer
  pub trailing_comments : List Text
