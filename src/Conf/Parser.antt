-- ===== src/Conf/Parser.antt =====
-- conf/parser.go: reading a configuration in wg-quick's format.
pub mod Values
pub mod Comments
pub mod Quick
use wireroute_windows.Base.{ℕ, List, Option}
use wireroute_windows.Base.Text.{Text}
use wireroute_windows.Conf.Netip.{Addr, Prefix}

-- The reason of a `ParseError`, for the source's message.
pub data Why : Type 0 where
  invalid_ip_address : Why
  missing_port : Why
  invalid_endpoint_host : Why
  brackets_without_ipv6 : Why
  invalid_mtu : Why
  invalid_port : Why
  invalid_persistent_keepalive : Why
  invalid_key : Why
  key_not_32_bytes : Why
  two_commas : Why
  tunnel_name_not_valid : Why
  line_not_in_section : Why
  missing_equals : Why
  missing_value : Why
  invalid_interface_key : Why
  invalid_peer_key : Why
  no_private_key : Why
  no_public_key : Why

-- An error of the parser; `number_error` is one of package strconv, and `nil_dereference` stands for
-- the panic on a peer that is nil.
pub data ParseError : Type 0 where
  parse_error : (why : Why) → (offender : Text) → ParseError
  number_error : (offender : Text) → ParseError
  nil_dereference : ParseError

-- What the parser takes from net/netip, encoding/base64 and strings: the text of addresses, base64,
-- and lower case beyond ASCII.
pub record Library : Type 0 where
  pub parse_addr : Text → Option Addr
  pub parse_prefix : Text → Option Prefix
  pub decode_string : Text → Option (List ℕ)
  pub to_lower : Text → Text
