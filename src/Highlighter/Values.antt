-- ===== src/Highlighter/Values.antt =====
-- ui/syntax/highlighter.go: the spans of a value. An index out of range is none.
use wireroute_windows.Base.{
  ℕ, zero, suc, ◌+◌, ◌-◌, List, [], ◌∷◌, ◌++◌, Bool, true, false, not, ◌&&◌, ◌||◌, ◌==◌,
  if◌then◌else◌, Option, none, some,
}
use wireroute_windows.Highlighter.{
  Highlight, private_key, public_key, preshared_key, ip, cidr, host, port, mtu, keepalive,
  delimiter, table, cmd, error, HighlightSpan, Memory, StringSpan, span, at, validate_highlight,
}
use wireroute_windows.Highlighter.Fields.{Field}
use wireroute_windows.Highlighter.Validators.{
  is_valid_key, is_valid_hostname, is_valid_ipv4, is_valid_ipv6, is_valid_port, is_valid_mtu,
  is_valid_table, is_valid_persistent_keepalive, is_valid_pre_post_up_down, is_valid_endpoint,
  is_valid_network, slash_from,
}

-- Behind all that there are, unless it is empty. Addresses are those from the configuration's own, as
-- every caller's `o` is.
unfoldable pub append : List HighlightSpan → StringSpan → Highlight → List HighlightSpan
append hsa s t = if s.len == 0 then hsa else hsa ++ (record { t = t; s = s.s; len = s.len } ∷ [])

unfoldable pub is_delimiter : Highlight → Bool
is_delimiter delimiter = true
is_delimiter _ = false

-- A last delimiter becomes an error; there is none to look at in an empty array.
unfoldable pub mark_last : List HighlightSpan → Option (List HighlightSpan)
mark_last [] = none
mark_last (h ∷ []) = some ((if is_delimiter h.t then record h { t = error } else h) ∷ [])
mark_last (h ∷ (k ∷ hsa)) = behind (mark_last (k ∷ hsa))
  where
    behind : Option (List HighlightSpan) → Option (List HighlightSpan)
    behind none = none
    behind (some marked) = some (h ∷ marked)

-- The variables of the loop of a list.
pub record Multivalue : Type 0 where
  pub spans : List HighlightSpan
  pub current_span : StringSpan
  pub len_at_last_space : ℕ

module _ (m : Memory) where
  unfoldable pub highlight_network : List HighlightSpan → StringSpan → List HighlightSpan
  highlight_network hsa s =
      let slash = slash_from m s.len s 0 in
      if slash == s.len
      then append hsa s ip
      else append (append (append hsa (span s.s slash) ip) (span (s.s + slash) 1) delimiter)
          (span (s.s + (slash + 1)) (s.len - slash - 1)) cidr

  unfoldable pub highlight_multivalue_value :
      List HighlightSpan → StringSpan → Field → List HighlightSpan
  highlight_multivalue_value hsa s Field.dns = append hsa s (
      if is_valid_ipv4 m s || is_valid_ipv6 m s
      then ip
      else (if is_valid_hostname m s then host else error))
  highlight_multivalue_value hsa s Field.address =
      if not (is_valid_network m s) then append hsa s error else highlight_network hsa s
  highlight_multivalue_value hsa s Field.allowed_ips =
      if not (is_valid_network m s) then append hsa s error else highlight_network hsa s
  highlight_multivalue_value hsa s _ = append hsa s error

  -- What the loop does at an address.
  unfoldable pub multivalue_step : Field → (address : ℕ) → Multivalue → Multivalue
  multivalue_step section address v =
      if m address == b','
      then record {
        spans =
            append
              (highlight_multivalue_value v.spans (span v.current_span.s v.len_at_last_space)
                section)
              (span address 1) delimiter;
        current_span = span (suc address) 0;
        len_at_last_space = 0;
      }
      else (if m address == b' ' || m address == b'\t'
          then (if address == v.current_span.s && v.current_span.len == 0
              then record v { current_span = span (suc v.current_span.s) 0 }
              else record v { current_span = span v.current_span.s (suc v.current_span.len) })
          else record v {
            current_span = span v.current_span.s (suc v.current_span.len);
            len_at_last_space = suc v.current_span.len;
          })

  unfoldable pub multivalue_loop : Field → (rounds address : ℕ) → Multivalue → Multivalue
  multivalue_loop section zero address v = v
  multivalue_loop section (suc rounds) address v =
      multivalue_loop section rounds (suc address) (multivalue_step section address v)

  -- Behind the loop.
  unfoldable pub last_value : Field → Multivalue → Option (List HighlightSpan)
  last_value section v =
      if not (v.len_at_last_space == 0)
      then some
          (highlight_multivalue_value v.spans (span v.current_span.s v.len_at_last_space) section)
      else mark_last v.spans

  unfoldable pub highlight_multivalue :
      List HighlightSpan → StringSpan → Field → Option (List HighlightSpan)
  highlight_multivalue hsa s section = last_value section (
      multivalue_loop section s.len s.s
        (record { spans = hsa; current_span = span s.s 0; len_at_last_space = 0 }))

  -- Where the last colon before an offset is; 0 if there is none.
  unfoldable pub colon_before : StringSpan → (colon : ℕ) → ℕ
  colon_before s zero = 0
  colon_before s (suc colon) = elim (at m s colon == b':') [
    | true ↦ colon
    | false ↦ colon_before s colon
  ]

  unfoldable pub highlight_endpoint : List HighlightSpan → StringSpan → List HighlightSpan
  highlight_endpoint hsa s =
      let colon = colon_before s s.len in
      if not (is_valid_endpoint m s)
      then append hsa s error
      else append (append (append hsa (span s.s colon) host) (span (s.s + colon) 1) delimiter)
          (span (s.s + (colon + 1)) (s.len - colon - 1)) port

  unfoldable pub highlight_command : List HighlightSpan → StringSpan → List HighlightSpan
  highlight_command hsa s = append hsa s (validate_highlight (is_valid_pre_post_up_down m s) cmd)

  unfoldable pub highlight_value :
      List HighlightSpan → StringSpan → Field → Option (List HighlightSpan)
  highlight_value hsa s Field.private_key =
      some (append hsa s (validate_highlight (is_valid_key m s) private_key))
  highlight_value hsa s Field.public_key =
      some (append hsa s (validate_highlight (is_valid_key m s) public_key))
  highlight_value hsa s Field.preshared_key =
      some (append hsa s (validate_highlight (is_valid_key m s) preshared_key))
  highlight_value hsa s Field.mtu = some (append hsa s (validate_highlight (is_valid_mtu m s) mtu))
  highlight_value hsa s Field.table =
      some (append hsa s (validate_highlight (is_valid_table m s) table))
  highlight_value hsa s Field.pre_up = some (highlight_command hsa s)
  highlight_value hsa s Field.post_up = some (highlight_command hsa s)
  highlight_value hsa s Field.pre_down = some (highlight_command hsa s)
  highlight_value hsa s Field.post_down = some (highlight_command hsa s)
  highlight_value hsa s Field.listen_port =
      some (append hsa s (validate_highlight (is_valid_port m s) port))
  highlight_value hsa s Field.persistent_keepalive =
      some (append hsa s (validate_highlight (is_valid_persistent_keepalive m s) keepalive))
  highlight_value hsa s Field.endpoint = some (highlight_endpoint hsa s)
  highlight_value hsa s Field.address = highlight_multivalue hsa s Field.address
  highlight_value hsa s Field.dns = highlight_multivalue hsa s Field.dns
  highlight_value hsa s Field.allowed_ips = highlight_multivalue hsa s Field.allowed_ips
  highlight_value hsa s _ = some (append hsa s error)
