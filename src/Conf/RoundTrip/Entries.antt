-- ===== src/Conf/RoundTrip/Entries.antt =====
-- conf/parser.go behind conf/writer.go: keys, addresses and endpoints.
use wireroute_windows.Base.{
  ℕ, suc, ◌≤◌, ◌<◌, ◌+◌, ◌-◌, ◌≡◌, refl, sym, subst, ◌∙◌, ap, ap₂, inl, inr, List, [], ◌∷◌, ◌++◌,
  map, append-nil, append_assoc, true, false, length, length-append, take, drop, take-append, All,
  if◌then◌else◌, none, some, Bool-cases, arith,
}
use wireroute_windows.Base.Decimal.{itoa-IsToken, contains-itoa}
use wireroute_windows.Base.Numbers.{itoa, is_digit}
use wireroute_windows.Base.Pieces.{IsToken, is_break}
use wireroute_windows.Base.Result.{ok}
use wireroute_windows.Base.Text.{Text, codes, contains, is_empty, is_space}
use wireroute_windows.Conf.Config.{Key, Endpoint, Interface}
use wireroute_windows.Conf.Config.Operations.{endpoint_text}
use wireroute_windows.Conf.Name.{starts_with, ends_with}
use wireroute_windows.Conf.Netip.{Addr, Prefix}
use wireroute_windows.Conf.Parser.{Library}
use wireroute_windows.Conf.Parser.Quick.Keys.{parse_prefixes, add_dns, add_dns_entry}
use wireroute_windows.Conf.Parser.Values.{
  parse_ip_cidr, parse_key_base64, parse_endpoint, endpoint_host, colon_inside, is_ipv6,
  inside_brackets, index_of, last_index_of,
}
use wireroute_windows.Conf.RoundTrip.{IsKey, IsAddr, IsPrefix, IsLawful, IsDomain, IsHost}
use wireroute_windows.Conf.RoundTrip.Values.{
  IsValue, IsValue-append, IsToken-IsValue, parse_port-itoa,
}
use wireroute_windows.Conf.Writer.{Printer}

abbrev with_dns : Interface → List Addr → List Text → Interface
with_dns i addrs domains = record i { dns = addrs; dns_search = domains }

module _ (lib : Library) (printer : Printer) (law : IsLawful lib printer) where
  pub parse_key_base64-encode_to_string :
      (k : Key) → IsKey k → parse_key_base64 lib (printer.encode_to_string k) ≡ ok k
  unfolding parse_key_base64
  parse_key_base64-encode_to_string k h = rw (law.key k h) (ground (arith, h.0))

  pub All-prefix-IsToken :
      (ps : List Prefix) → All IsPrefix ps → All IsToken (map printer.prefix_text ps)
  All-prefix-IsToken [] h = tt
  All-prefix-IsToken (p ∷ ps) (h, hs) = (law.prefix_token p h, All-prefix-IsToken ps hs)

  pub parse_prefixes-prefix_text :
      (ps : List Prefix) → All IsPrefix ps → parse_prefixes lib (map printer.prefix_text ps) ≡ ok ps
  unfolding parse_prefixes parse_ip_cidr
  parse_prefixes-prefix_text [] h = refl
  parse_prefixes-prefix_text (p ∷ ps) (h, hs) =
      rw (law.prefix p h) (rw (parse_prefixes-prefix_text ps hs) refl)

  pub All-dns-IsToken :
      (addrs : List Addr) (domains : List Text)
      → All IsAddr addrs
      → All (IsDomain lib) domains
      → All IsToken (map printer.addr_text addrs ++ domains)
  All-dns-IsToken [] [] h k = tt
  All-dns-IsToken [] (d ∷ domains) h (k, ks) = (k.0, All-dns-IsToken [] domains h ks)
  All-dns-IsToken (a ∷ addrs) domains (h, hs) k =
      (law.addr_token a h, All-dns-IsToken addrs domains hs k)

  pub add_dns-addr_text :
      (addrs : List Addr) (domains : List Text) (i : Interface)
      → All IsAddr addrs
      → All (IsDomain lib) domains
      → add_dns lib (map printer.addr_text addrs ++ domains) i
        ≡ record i { dns = i.dns ++ addrs; dns_search = i.dns_search ++ domains }
  unfolding add_dns add_dns_entry
  add_dns-addr_text [] [] i h k =
      ap₂ (with_dns i) (sym (append-nil i.dns)) (sym (append-nil i.dns_search))
  add_dns-addr_text [] (d ∷ domains) i h (k, ks) = rw (k.1) (
      add_dns-addr_text [] domains (record i { dns_search = i.dns_search ++ (d ∷ []) }) h ks
      ∙ ap (with_dns i (i.dns ++ [])) (append_assoc i.dns_search (d ∷ []) domains))
  add_dns-addr_text (a ∷ addrs) domains i (h, hs) k =
      let texts = map printer.addr_text addrs ++ domains in
      ap (λ o. add_dns lib texts (add_dns_entry (printer.addr_text a) o i)) (law.addr a h)
      ∙ add_dns-addr_text addrs domains (record i { dns = i.dns ++ (a ∷ []) }) hs k
      ∙ ap (λ r. with_dns i r (i.dns_search ++ domains)) (append_assoc i.dns (a ∷ []) addrs)

drop_behind : (s : Text) (c : ℕ) (t : Text) → drop (suc (length s)) (s ++ c ∷ t) ≡ t
drop_behind [] c t = refl
drop_behind (d ∷ s) c t = drop_behind s c t

last_index_none : (c : ℕ) (s : Text) → contains c s ≡ false → last_index_of c s ≡ none
unfolding last_index_of contains
last_index_none c [] h = refl
last_index_none c (d ∷ s) h = ground (arith, last_index_none c s)

-- The last of the colons is the one in front of the port.
last_index_at :
    (c : ℕ) (s t : Text) → contains c t ≡ false → last_index_of c (s ++ c ∷ t) ≡ some (length s)
unfolding last_index_of
last_index_at c [] t h = rw (last_index_none c t h) (ground arith)
last_index_at c (d ∷ s) t h = rw (last_index_at c s t h) refl

no_colon : (n : ℕ) → contains b':' (itoa n) ≡ false
no_colon n = contains-itoa b':' (λ c d. unfold is_digit in ground arith) n

index_none : (c : ℕ) (s : Text) → index_of c s ≡ none → contains c s ≡ false
unfolding index_of contains
index_none c [] h = refl
index_none c (d ∷ s) h = ground (arith, index_none c s)

ends_with-append : (c : ℕ) (s : Text) → ends_with c (s ++ c ∷ []) ≡ true
unfolding ends_with
ends_with-append c [] = ground arith
ends_with-append c (d ∷ []) = ground arith
ends_with-append c (d ∷ (e ∷ s)) = ends_with-append c (e ∷ s)

module _ (lib : Library) where
  -- What the text of an endpoint has in front of its last colon.
  abbrev host_text : Text → Text
  host_text h = if contains b':' h then b'[' ∷ h ++ codes "]" else h

  bracketed_length : (h : Text) → length (h ++ codes "]") ≡ length h + 1
  bracketed_length h = omega (arith, length-append h (codes "]"))

  colon_inside-bracketed :
      (s : Text) → contains b':' s ≡ true → colon_inside lib (index_of b':' (b'[' ∷ s)) ≡ true
  unfolding colon_inside index_of
  colon_inside-bracketed s h = ground (arith, index_none b':' s)

  endpoint_host_in_brackets :
      (t : Text)
      → 2 < length t
      → ends_with b']' (b'[' ∷ t) ≡ true
      → contains b':' t ≡ true
      → is_ipv6 lib (lib.parse_addr (inside_brackets lib (b'[' ∷ t))) ≡ true
      → endpoint_host lib (b'[' ∷ t) ≡ ok (take (length t - 1) t)
  unfolding endpoint_host starts_with
  endpoint_host_in_brackets t l e c v = rw e (rw (colon_inside-bracketed t c) (rw v (ground arith)))

  contains_left : (c : ℕ) (s t : Text) → contains c s ≡ true → contains c (s ++ t) ≡ true
  unfolding contains
  contains_left c [] t h = absurd (ground arith)
  contains_left c (d ∷ s) t h = ground (arith, contains_left c s t)

  endpoint_host-host_text : (h : Text) → IsHost lib h → endpoint_host lib (host_text h) ≡ ok h
  endpoint_host-host_text h (token, inl (c, b, e)) = rw c (unfold endpoint_host in ground arith)
  endpoint_host-host_text h (token, inr (c, l, v)) =
      let t = h ++ codes "]" in
      let long : 2 < length t = omega (arith, bracketed_length h) in
      let inside : length t - 1 ≡ length h = omega (arith, bracketed_length h) in
      rw c (
        endpoint_host_in_brackets t long (ends_with-append b']' (b'[' ∷ h))
          (contains_left b':' h (codes "]") c) v
        ∙ ap ok (ap (λ n. take n t) inside ∙ take-append h (codes "]")))

  endpoint_text_lem : (e : Endpoint) → endpoint_text e ≡ host_text e.host ++ b':' ∷ itoa e.port
  unfolding endpoint_text
  endpoint_text_lem e = elim (Bool-cases (contains b':' e.host)) [
    | inl c ↦ rw c (
        ap (λ r. b'[' ∷ r)
          (append_assoc e.host (codes "]:") (itoa e.port)
            ∙ sym (append_assoc e.host (codes "]") (b':' ∷ itoa e.port))))
    | inr c ↦ rw c refl
  ]

  host_text_nonempty : (h : Text) → IsHost lib h → is_empty (host_text h) ≡ false
  host_text_nonempty h (token, inl (c, b, e)) = rw c (token.0)
  host_text_nonempty h (token, inr (c, l, v)) = rw c refl

  parse_endpoint_at :
      (host : Text) (h : Text) (port : ℕ)
      → is_empty host ≡ false
      → endpoint_host lib host ≡ ok h
      → port ≤ 65535
      → parse_endpoint lib (host ++ b':' ∷ itoa port) ≡ ok (record { host = h; port = port })
  unfolding parse_endpoint
  parse_endpoint_at host h port e k l =
      let digits = itoa port in
      rw (last_index_at b':' host digits (no_colon port)) (
        rw (take-append host (b':' ∷ digits))
          (rw e (rw k (rw (drop_behind host b':' digits) (rw (parse_port-itoa port l) refl)))))

  pub parse_endpoint-endpoint_text :
      (e : Endpoint)
      → IsHost lib e.host
      → e.port ≤ 65535
      → parse_endpoint lib (endpoint_text e) ≡ ok e
  parse_endpoint-endpoint_text e h k =
      ap (parse_endpoint lib) (endpoint_text_lem e)
      ∙ parse_endpoint_at (host_text e.host) e.host e.port (host_text_nonempty e.host h)
          (endpoint_host-host_text e.host h) k

  bracket : (c : ℕ) → is_break c ≡ false → IsValue (c ∷ [])
  bracket c h = IsToken-IsValue (c ∷ []) (refl, ground arith)

  host_text-IsValue : (h : Text) → IsHost lib h → IsValue (host_text h)
  host_text-IsValue h (token, inl (c, b, e)) = rw c (IsToken-IsValue h token)
  host_text-IsValue h (token, inr (c, l, v)) =
      let value = IsToken-IsValue h token in
      rw c (
        IsValue-append (codes "[") h (codes "]") (bracket b'[' (unfold is_space in refl))
          (bracket b']' (unfold is_space in refl)) value.1 value.2)

  -- The text of an endpoint is a value.
  pub endpoint_text-IsValue : (e : Endpoint) → IsHost lib e.host → IsValue (endpoint_text e)
  endpoint_text-IsValue e h =
      subst IsValue
        (append_assoc (host_text e.host) (codes ":") (itoa e.port) ∙ sym (endpoint_text_lem e))
        (IsValue-append (host_text e.host) (codes ":") (itoa e.port) (host_text-IsValue e.host h)
          (IsToken-IsValue (itoa e.port) (itoa-IsToken e.port)) (unfold contains in refl)
          (unfold contains in refl))
