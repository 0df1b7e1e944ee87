-- ===== src/Conf/Parser/Values.antt =====
-- conf/parser.go: the values of the keys.
use wireroute_windows.Base.{
  ℕ, suc, ◌-◌, ◌^◌, List, [], ◌∷◌, Bool, true, false, ◌&&◌, ◌||◌, ◌==◌, ltb, length, take, drop,
  if◌then◌else◌, Option, none, some,
}
use wireroute_windows.Base.Numbers.{ℤ, pos, negsuc, atoi, parse_digits}
use wireroute_windows.Base.Result.{Result, ok, err, ◌>>=◌, ◌>>◌, reject_if}
use wireroute_windows.Base.Text.{Text, codes, same, is_empty, contains, split, trim_space}
use wireroute_windows.Conf.Config.{key_length, Key, Endpoint}
use wireroute_windows.Conf.Name.{starts_with, ends_with}
use wireroute_windows.Conf.Netip.{Addr, Prefix, prefix_from, bit_len, is6}
use wireroute_windows.Conf.Parser.{
  ParseError, parse_error, number_error, invalid_ip_address, missing_port, invalid_endpoint_host,
  brackets_without_ipv6, invalid_mtu, invalid_port, invalid_persistent_keepalive, invalid_key,
  key_not_32_bytes, two_commas, Library,
}

-- `strings.IndexByte` and `strings.LastIndexByte`; none for -1.
unfoldable pub index_of : ℕ → Text → Option ℕ
index_of c [] = none
index_of c (d ∷ s) = if d == c then some 0 else later (index_of c s)
  where
    later : Option ℕ → Option ℕ
    later (some i) = some (suc i)
    later none = none

unfoldable pub last_index_of : ℕ → Text → Option ℕ
last_index_of c [] = none
last_index_of c (d ∷ s) = later (last_index_of c s)
  where
    later : Option ℕ → Option ℕ
    later (some i) = some (suc i)
    later none = if d == c then some 0 else none

-- A number of `strconv.Atoi` from low to high, for the checks of the three parsers.
unfoldable pub in_range : (low high : ℕ) → ParseError → ℤ → Result ParseError ℕ
in_range low high e (negsuc n) = err e
in_range low high e (pos n) = if ltb n low || ltb high n then err e else ok (n)

unfoldable pub atoi_in : (low high : ℕ) → ParseError → Text → Result ParseError ℕ
atoi_in low high e s = converted (atoi s)
  where
    converted : Option ℤ → Result ParseError ℕ
    converted none = err (number_error s)
    converted (some m) = in_range low high e m

unfoldable pub parse_mtu : Text → Result ParseError ℕ
parse_mtu s = atoi_in 576 65535 (parse_error invalid_mtu s) s

unfoldable pub parse_port : Text → Result ParseError ℕ
parse_port s = atoi_in 0 65535 (parse_error invalid_port s) s

unfoldable pub parse_persistent_keepalive : Text → Result ParseError ℕ
parse_persistent_keepalive s =
    if same s (codes "off")
    then ok 0
    else atoi_in 0 65535 (parse_error invalid_persistent_keepalive s) s

-- `strconv.ParseUint(s, 10, 32)` only has to succeed.
unfoldable pub parse_table_off : Text → Result ParseError Bool
parse_table_off s =
    if same s (codes "off")
    then ok true
    else (if same s (codes "auto") || same s (codes "main")
        then ok false
        else number (parse_digits (2 ^ 32) s))
  where
    number : Option ℕ → Result ParseError Bool
    number (some n) = ok false
    number none = err (number_error s)

-- The pieces, each of which is to be more than white space.
unfoldable pub trimmed_pieces : (whole : Text) → List Text → Result ParseError (List Text)
trimmed_pieces whole [] = ok []
trimmed_pieces whole (piece ∷ pieces) = do
  reject_if (is_empty (trim_space piece)) (parse_error two_commas whole)
  rest ← trimmed_pieces whole pieces
  ok (trim_space piece ∷ rest)

unfoldable pub split_list : Text → Result ParseError (List Text)
split_list s = trimmed_pieces s (split b',' s)

module _ (lib : Library) where
  unfoldable pub parse_ip_cidr : Text → Result ParseError Prefix
  parse_ip_cidr s = as_prefix (lib.parse_prefix s) (lib.parse_addr s)
    where
      as_prefix : Option Prefix → Option Addr → Result ParseError Prefix
      as_prefix (some ipcidr) _ = ok ipcidr
      as_prefix none (some addr) = ok (prefix_from addr (bit_len addr))
      as_prefix none none = err (parse_error invalid_ip_address s)

  unfoldable pub parse_key_base64 : Text → Result ParseError Key
  parse_key_base64 s = decoded (lib.decode_string s)
    where
      decoded : Option (List ℕ) → Result ParseError Key
      decoded none = err (parse_error invalid_key s)
      decoded (some k) =
          if length k == key_length then ok k else err (parse_error key_not_32_bytes s)

  -- `host[1:end]`, where the brackets end or the zone starts.
  unfoldable pub inside_brackets : Text → Text
  inside_brackets host = take (to_end (last_index_of b'%' host) - 1) (drop 1 host)
    where
      to_end : Option ℕ → ℕ
      to_end none = length host - 1
      to_end (some i) = if ltb 1 i then i else length host - 1

  unfoldable pub is_ipv6 : Option Addr → Bool
  is_ipv6 none = false
  is_ipv6 (some maybe_v6) = is6 maybe_v6

  unfoldable pub colon_inside : Option ℕ → Bool
  colon_inside none = false
  colon_inside (some i) = ltb 0 i

  -- The host of an endpoint: brackets, and a colon, only round an IPv6 address.
  unfoldable pub endpoint_host : Text → Result ParseError Text
  endpoint_host host =
      if starts_with b'[' host || ends_with b']' host || contains b':' host
      then (if ltb 3 (length host)
            && starts_with b'[' host
            && ends_with b']' host
            && colon_inside (index_of b':' host)
            && is_ipv6 (lib.parse_addr (inside_brackets host))
          then ok (take (length host - 2) (drop 1 host))
          else err (parse_error brackets_without_ipv6 host))
      else ok host

  unfoldable pub parse_endpoint : Text → Result ParseError Endpoint
  parse_endpoint s = at_colon (last_index_of b':' s)
    where
      at_colon : Option ℕ → Result ParseError Endpoint
      at_colon none = err (parse_error missing_port s)
      at_colon (some i) = do
        reject_if (is_empty (take i s)) (parse_error invalid_endpoint_host (take i s))
        p ← parse_port (drop (suc i) s)
        h ← endpoint_host (take i s)
        ok (record { host = h; port = p })
