-- ===== src/Highlighter/Validators.antt =====
-- ui/syntax/highlighter.go: the validators of values.
use wireroute_windows.Base.{
  ℕ, zero, suc, ◌+◌, ◌-◌, ◌*◌, ◌^◌, Bool, true, false, not, ◌&&◌, ◌||◌, ◌==◌, ltb, leb,
  if◌then◌else◌,
}
use wireroute_windows.Base.Text.{codes, contains}
use wireroute_windows.Highlighter.{
  Memory, StringSpan, span, or32, is_decimal, is_hexadecimal, is_alphabet, at, is_same, each,
}

module _ (m : Memory) where
  unfoldable pub is_valid_key : StringSpan → Bool
  is_valid_key sp =
      if not (sp.len == 44) || not (at m sp 43 == b'=')
      then false
      else each m (λ c. is_decimal c || is_alphabet c || c == b'/' || c == b'+') 42 sp.s
        && contains (at m sp 42) (codes "AEIMQUYcgkosw480")

  -- The loop over the characters; `rounds` are those that are left.
  unfoldable pub hostname_loop : (rounds : ℕ) → StringSpan → (i num_digit num_entity : ℕ) → Bool
  hostname_loop zero sp i num_digit num_entity = not (num_digit == num_entity)
  hostname_loop (suc rounds) sp i num_digit num_entity = elim (is_decimal (at m sp i)) [
    | true ↦ hostname_loop rounds sp (suc i) (suc num_digit) num_entity
    | false ↦ elim (at m sp i == b'.') [
      | true ↦ hostname_loop rounds sp (suc i) num_digit (num_entity - 1)
      | false ↦
          elim (not (is_alphabet (at m sp i)) && not (at m sp i == b'-')
            || not (i == 0) && at m sp i == b'.' && at m sp (i - 1) == b'.') [
              | true ↦ false
              | false ↦ hostname_loop rounds sp (suc i) num_digit num_entity
            ]
    ]
  ]

  unfoldable pub is_valid_hostname : StringSpan → Bool
  is_valid_hostname sp =
      if ltb 63 sp.len
        || sp.len == 0
        || at m sp 0 == b'-'
        || at m sp (sp.len - 1) == b'-'
        || at m sp 0 == b'.'
        || at m sp (sp.len - 1) == b'.'
      then false
      else hostname_loop sp.len sp 0 0 sp.len

  -- How many digits, at most as many as the rounds, stand at a position, and their value.
  unfoldable pub octet : (rounds : ℕ) → StringSpan → (position : ℕ) → (j val : ℕ) → ℕ × ℕ
  octet zero sp position j val = (j, val)
  octet (suc rounds) sp position j val =
      elim (ltb (position + j) sp.len && is_decimal (at m sp (position + j))) [
        | true ↦ octet rounds sp position (suc j) (10 * val + (at m sp (position + j) - b'0'))
        | false ↦ (j, val)
      ]

  -- The loop over the octets that are left, of which the last has to end the span.
  unfoldable pub ipv4_loop : (rounds : ℕ) → StringSpan → (position : ℕ) → Bool
  ipv4_loop zero sp position = false
  ipv4_loop (suc rounds) sp position =
      let o = octet 3 sp position 0 0 in
      elim (not (ltb position sp.len)
        || o.0 == 0
        || ltb 1 o.0 && at m sp position == b'0'
        || ltb 255 o.1) [
          | true ↦ false
          | false ↦ elim (position + o.0 == sp.len && rounds == 0) [
            | true ↦ true
            | false ↦ elim (at m sp (position + o.0) == b'.') [
              | true ↦ ipv4_loop rounds sp (position + o.0 + 1)
              | false ↦ false
            ]
          ]
        ]

  unfoldable pub is_valid_ipv4 : StringSpan → Bool
  is_valid_ipv4 sp = ipv4_loop 4 sp 0

  unfoldable pub hextet : (rounds : ℕ) → StringSpan → (position j : ℕ) → ℕ
  hextet zero sp position j = j
  hextet (suc rounds) sp position j =
      elim (ltb (position + j) sp.len && is_hexadecimal (at m sp (position + j))) [
        | true ↦ hextet rounds sp position (suc j)
        | false ↦ j
      ]

  -- Each round moves on by a character at least, so as many rounds as there are characters reach the
  -- end.
  unfoldable pub ipv6_loop :
      (rounds : ℕ) → StringSpan → (i position : ℕ) → (seen_colon : Bool) → Bool
  ipv6_loop zero sp i position seen_colon = true
  ipv6_loop (suc rounds) sp i position seen_colon =
      let j = hextet 4 sp position 0 in
      elim (ltb position sp.len) [
        | false ↦ true
        | true ↦ elim (at m sp position == b':' && not seen_colon) [
          | true ↦ elim (position + 1 == sp.len) [
            | true ↦ true
            | false ↦ elim (i == 7) [
              | true ↦ false
              | false ↦ ipv6_loop rounds sp (suc i) (position + 1) true
            ]
          ]
          | false ↦ elim (j == 0) [
            | true ↦ false
            | false ↦ elim (position + j == sp.len && (seen_colon || i == 7)) [
              | true ↦ true
              | false ↦ elim (i == 7) [
                | true ↦ false
                | false ↦ elim (at m sp (position + j) == b':') [
                  | true ↦ ipv6_loop rounds sp (suc i) (position + j + 1) seen_colon
                  | false ↦
                      not (not (at m sp (position + j) == b'.') || ltb i 6 && not seen_colon)
                      && is_valid_ipv4 (span (sp.s + position) (sp.len - position))
                ]
              ]
            ]
          ]
        ]
      ]

  unfoldable pub is_valid_ipv6 : StringSpan → Bool
  is_valid_ipv6 sp =
      if ltb sp.len 2
        || at m sp 0 == b':' && not (at m sp 1 == b':')
        || at m sp (sp.len - 1) == b':' && not (at m sp (sp.len - 2) == b':')
      then false
      else ipv6_loop sp.len sp 0 (if at m sp 0 == b':' then 1 else 0) false

  unfoldable pub hexadecimal_value : ℕ → ℕ
  hexadecimal_value c = if is_decimal c then c - b'0' else or32 c - b'a' + 10

  -- The value of n digits from an address on.
  unfoldable pub digits_from : (base : ℕ) → (digit : ℕ → ℕ) → (n address val : ℕ) → ℕ
  digits_from base digit zero address val = val
  digits_from base digit (suc n) address val =
      digits_from base digit n (suc address) (base * val + digit (m address))

  unfoldable pub is_valid_uint : (support_hex : Bool) → (min max : ℕ) → StringSpan → Bool
  is_valid_uint support_hex min max sp =
      if ltb 10 sp.len || sp.len == 0
      then false
      else (if support_hex && ltb 2 sp.len && at m sp 0 == b'0' && at m sp 1 == b'x'
          then each m is_hexadecimal (sp.len - 2) (sp.s + 2)
            && within (digits_from 16 hexadecimal_value (sp.len - 2) (sp.s + 2) 0)
          else each m is_decimal sp.len sp.s
            && within (digits_from 10 (λ c. c - b'0') sp.len sp.s 0))
    where
      within : ℕ → Bool
      within val = leb val max && leb min val

  unfoldable pub is_valid_port : StringSpan → Bool
  is_valid_port = is_valid_uint false 0 65535

  unfoldable pub is_valid_mtu : StringSpan → Bool
  is_valid_mtu = is_valid_uint false 576 65535

  unfoldable pub is_valid_table : StringSpan → Bool
  is_valid_table sp =
      is_same m sp (codes "off")
      || is_same m sp (codes "auto")
      || is_same m sp (codes "main")
      || is_valid_uint false 0 (2 ^ 32 - 1) sp

  unfoldable pub is_valid_persistent_keepalive : StringSpan → Bool
  is_valid_persistent_keepalive sp =
      if is_same m sp (codes "off") then true else is_valid_uint false 0 65535 sp

  unfoldable pub is_valid_pre_post_up_down : StringSpan → Bool
  is_valid_pre_post_up_down sp = not (sp.len == 0)

  unfoldable pub is_valid_scope : StringSpan → Bool
  is_valid_scope sp =
      if ltb 64 sp.len || sp.len == 0
      then false
      else each m (λ c. is_alphabet c || is_decimal c || contains c (codes "_=+.-")) sp.len sp.s

  -- The loop behind a bracket.
  unfoldable pub bracket_loop :
      (rounds : ℕ) → StringSpan → (i : ℕ) → (seen_scope : Bool) → (host : StringSpan) → Bool
  bracket_loop zero sp i seen_scope host = false
  bracket_loop (suc rounds) sp i seen_scope host = elim (at m sp i == b'%') [
    | true ↦ elim (seen_scope || not (is_valid_ipv6 host)) [
      | true ↦ false
      | false ↦ bracket_loop rounds sp (suc i) true (span (sp.s + (i + 1)) 0)
    ]
    | false ↦ elim (at m sp i == b']') [
      | true ↦
          (if seen_scope then is_valid_scope host else is_valid_ipv6 host)
          && not (i == sp.len - 1)
          && at m sp (i + 1) == b':'
          && is_valid_port (span (sp.s + (i + 2)) (sp.len - i - 2))
      | false ↦ bracket_loop rounds sp (suc i) seen_scope (span host.s (host.len + 1))
    ]
  ]

  unfoldable pub colon_loop : (rounds : ℕ) → StringSpan → (i : ℕ) → Bool
  colon_loop zero sp i = false
  colon_loop (suc rounds) sp i = elim (at m sp i == b':') [
    | true ↦
        is_valid_port (span (sp.s + (i + 1)) (sp.len - i - 1))
        && (is_valid_ipv4 (span sp.s i) || is_valid_hostname (span sp.s i))
    | false ↦ colon_loop rounds sp (suc i)
  ]

  unfoldable pub is_valid_endpoint : StringSpan → Bool
  is_valid_endpoint sp =
      if sp.len == 0
      then false
      else (if at m sp 0 == b'['
          then bracket_loop (sp.len - 1) sp 1 false (span (sp.s + 1) 0)
          else colon_loop sp.len sp 0)

  unfoldable pub is_valid_cidr : StringSpan → (ip : StringSpan) → Bool
  is_valid_cidr cidr ip =
      if ltb 3 cidr.len || cidr.len == 0 || not (each m is_decimal cidr.len cidr.s)
      then false
      else (if is_valid_ipv4 ip
          then leb (digits_from 10 (λ c. c - b'0') cidr.len cidr.s 0) 32
          else is_valid_ipv6 ip && leb (digits_from 10 (λ c. c - b'0') cidr.len cidr.s 0) 128)

  -- Where the first slash from i on is; the end of the span if there is none.
  unfoldable pub slash_from : (rounds : ℕ) → StringSpan → (i : ℕ) → ℕ
  slash_from zero sp i = i
  slash_from (suc rounds) sp i = elim (at m sp i == b'/') [
    | true ↦ i
    | false ↦ slash_from rounds sp (suc i)
  ]

  unfoldable pub is_valid_network : StringSpan → Bool
  is_valid_network sp =
      let slash = slash_from sp.len sp 0 in
      if ltb slash sp.len
      then is_valid_cidr (span (sp.s + (slash + 1)) (sp.len - slash - 1)) (span sp.s slash)
      else is_valid_ipv4 sp || is_valid_ipv6 sp
