-- ===== src/Conf/RoundTrip/Peers.antt =====
-- conf/parser.go behind conf/writer.go: the sections of the peers.
use wireroute_windows.Base.{
  ℕ, ◌≤◌, ◌≡◌, refl, sym, ap₂, subst, inl, inr, List, [], ◌∷◌, map, true, false, not, ◌==◌, length,
  All, Bool-cases, arith,
}
use wireroute_windows.Base.Text.{
  Text, codes, same, same_iff, contains, cut, is_empty, is_space, trim_left, trim_right, trim_space,
}
use wireroute_windows.Conf.Config.{Key, Endpoint, Peer, Comments}
use wireroute_windows.Conf.Config.Operations.{
  no_comments, zero_key, is_zero, endpoint_is_empty, endpoint_text,
}
use wireroute_windows.Conf.Name.{ascii_lower}
use wireroute_windows.Conf.Netip.{Prefix}
use wireroute_windows.Conf.Parser.{Library}
use wireroute_windows.Conf.Parser.Comments.{add_comments}
use wireroute_windows.Conf.Parser.Quick.{
  Parsing, no_peer, parse_line, code_line, line_comment, open_peer, maybe_add_peer,
}
use wireroute_windows.Conf.Parser.Quick.Keys.{PeerKey, set_known_peer_key}
use wireroute_windows.Conf.RoundTrip.{IsLawful, IsKey, IsPrefix, IsEndpoint, IsWritablePeer}
use wireroute_windows.Conf.RoundTrip.Entries.{
  parse_key_base64-encode_to_string, All-prefix-IsToken, parse_prefixes-prefix_text,
  parse_endpoint-endpoint_text, endpoint_text-IsValue,
}
use wireroute_windows.Conf.RoundTrip.Fields.{
  with_peer, Moves-peer_field, Moves-absent, Moves-nothing, Moves-peer_number,
}
use wireroute_windows.Conf.RoundTrip.Lines.{Moves, Moves-line, ◌then_reads◌}
use wireroute_windows.Conf.RoundTrip.Values.{
  IsToken-IsValue, split_list-joined, joined-IsValue, parse_persistent_keepalive-itoa,
}
use wireroute_windows.Conf.Writer.{
  Printer, joined, lines_of, write_list, write_number, write_field, write_line, write_peer,
}

-- What the header of a peer sets: the blank line above it counts as a comment until the end.
abbrev pub blank_line : Comments
blank_line = record { before = [] ∷ []; suffix = [] }

abbrev without_comments : Peer → Peer
without_comments p = record p {
  rx_bytes = 0;
  tx_bytes = 0;
  last_handshake_time = 0;
  comments = no_comments;
}

abbrev no_endpoint : Endpoint
no_endpoint = record { host = []; port = 0 }

abbrev pub headed : Peer → Peer
headed p = record p { comments = record no_comments { header = blank_line } }

abbrev pub settled : Parsing → Parsing
settled st = record st { pending_comments = [] }

abbrev pub behind : Parsing → Parsing
behind st = record st { peers = maybe_add_peer st.peer st.peers }

module _ (lib : Library) (printer : Printer) (law : IsLawful lib printer) (st : Parsing) where
  Moves-blank : Moves lib (settled st) (codes "\n") (record st { pending_comments = [] ∷ [] })
  Moves-blank =
      Moves-line lib (settled st) (record st { pending_comments = [] ∷ [] }) []
        (unfold contains in refl)
        (unfold parse_line line_comment cut trim_space trim_left trim_right in refl)

  Moves-peer_header :
      Moves lib
        (record st { pending_comments = [] ∷ [] })
        (write_line no_comments.header (codes "[Peer]"))
        (with_peer (behind st) (headed no_peer))
  unfolding write_line lines_of
  Moves-peer_header =
      Moves-line lib (record st { pending_comments = [] ∷ [] })
        (with_peer (behind st) (headed no_peer)) (codes "[Peer]") (unfold contains in refl)
        (unfold parse_line code_line line_comment open_peer add_comments cut trim_space trim_left
            trim_right is_space same ascii_lower in
          rw (law.lower (codes "[Peer]") refl) refl)

  Moves-public_key :
      (k : Key) (p : Peer)
      → IsKey k
      → Moves lib
          (with_peer st p)
          (write_field no_comments (codes "PublicKey") true (printer.encode_to_string k))
          (with_peer st (record p { public_key = k }))
  Moves-public_key k p h =
      Moves-peer_field lib printer law PeerKey.public_key (printer.encode_to_string k) st p
        (record p { public_key = k })
        (IsToken-IsValue (printer.encode_to_string k) (law.key_token k h))
        (unfold set_known_peer_key in
          rw (parse_key_base64-encode_to_string lib printer law k h) refl)

  is_zero_lem : (k : Key) → is_zero k ≡ true → zero_key ≡ k
  unfolding is_zero
  is_zero_lem k h = (same_iff zero_key k).0 h

  Moves-preshared_key :
      (k : Key) (p : Peer)
      → IsKey k
      → Moves lib
          (with_peer st (record p { preshared_key = zero_key }))
          (write_field no_comments
            (codes "PresharedKey")
            (not (is_zero k))
            (printer.encode_to_string k))
          (with_peer st (record p { preshared_key = k }))
  Moves-preshared_key k p h = elim (Bool-cases (is_zero k)) [
    | inl e ↦
        let start = record p { preshared_key = zero_key } in
        rw e (
          subst
            (λ r.
              Moves lib (with_peer st start)
                (write_field no_comments (codes "PresharedKey") false (printer.encode_to_string k))
                (with_peer st (record p { preshared_key = r })))
            (is_zero_lem k e)
            (Moves-absent lib printer law (codes "PresharedKey") (printer.encode_to_string k)
              (with_peer st start)))
    | inr e ↦ rw e (
        Moves-peer_field lib printer law PeerKey.preshared_key (printer.encode_to_string k) st
          (record p { preshared_key = zero_key }) (record p { preshared_key = k })
          (IsToken-IsValue (printer.encode_to_string k) (law.key_token k h))
          (unfold set_known_peer_key in
            rw (parse_key_base64-encode_to_string lib printer law k h) refl))
  ]

  Moves-allowed_ips :
      (ps : List Prefix) (p : Peer)
      → All IsPrefix ps
      → Moves lib
          (with_peer st (record p { allowed_ips = [] }))
          (write_list no_comments (codes "AllowedIPs") (map printer.prefix_text ps))
          (with_peer st (record p { allowed_ips = ps }))
  unfolding write_list
  Moves-allowed_ips [] p h =
      Moves-nothing lib printer law (with_peer st (record p { allowed_ips = [] }))
  Moves-allowed_ips (a ∷ ps) p h =
      let first = printer.prefix_text a in
      let texts = map printer.prefix_text ps in
      let tokens = All-prefix-IsToken lib printer law (a ∷ ps) h in
      Moves-peer_field lib printer law PeerKey.allowed_ips (joined (first ∷ texts)) st
        (record p { allowed_ips = [] }) (record p { allowed_ips = a ∷ ps })
        (joined-IsValue first texts tokens)
        (unfold set_known_peer_key in
          rw (split_list-joined first texts tokens)
            (rw (parse_prefixes-prefix_text lib printer law (a ∷ ps) h) refl))

  Moves-endpoint :
      (e : Endpoint) (p : Peer)
      → IsEndpoint lib e
      → Moves lib
          (with_peer st (record p { endpoint = no_endpoint }))
          (write_field no_comments (codes "Endpoint") (not (endpoint_is_empty e)) (endpoint_text e))
          (with_peer st (record p { endpoint = e }))
  unfolding endpoint_is_empty
  Moves-endpoint e p (inl (no_host, no_port)) =
      subst
        (λ r.
          Moves lib (with_peer st (record p { endpoint = no_endpoint }))
            (write_field no_comments (codes "Endpoint") (not (endpoint_is_empty r))
              (endpoint_text r))
            (with_peer st (record p { endpoint = r })))
        (ap₂ (λ h n. record { host = h; port = n }) (sym no_host) (sym no_port))
        (Moves-absent lib printer law (codes "Endpoint") (endpoint_text no_endpoint)
          (with_peer st (record p { endpoint = no_endpoint })))
  Moves-endpoint e p (inr (host, port)) =
      let present : (length e.host == 0) ≡ false = nonempty e.host (host.0.0) in
      rw present (
        Moves-peer_field lib printer law PeerKey.endpoint (endpoint_text e) st
          (record p { endpoint = no_endpoint }) (record p { endpoint = e })
          (endpoint_text-IsValue lib e host)
          (unfold set_known_peer_key in rw (parse_endpoint-endpoint_text lib e host port) refl))
    where
      nonempty : (s : Text) → is_empty s ≡ false → (length s == 0) ≡ false
      nonempty [] h = absurd (ground arith)
      nonempty (c ∷ s) h = ground arith

  Moves-persistent_keepalive :
      (n : ℕ) (p : Peer)
      → n ≤ 65535
      → Moves lib
          (with_peer st (record p { persistent_keepalive = 0 }))
          (write_number no_comments (codes "PersistentKeepalive") n)
          (with_peer st (record p { persistent_keepalive = n }))
  Moves-persistent_keepalive n p h =
      Moves-peer_number lib printer law PeerKey.persistent_keepalive st
        (λ k. record p { persistent_keepalive = k }) n
        (unfold set_known_peer_key in rw (parse_persistent_keepalive-itoa n h) refl)

module _ (lib : Library) (printer : Printer) (law : IsLawful lib printer) where
  Moves-without_comments :
      (p : Peer) (st : Parsing)
      → IsWritablePeer lib p
      → Moves lib
          (settled st)
          (write_peer printer (without_comments p))
          (with_peer (behind st) (headed (without_comments p)))
  unfolding write_peer
  Moves-without_comments p st h =
      let on = behind st in
      let p0 = headed no_peer in
      let p1 = record p0 { public_key = p.public_key } in
      let p2 = record p1 { preshared_key = p.preshared_key } in
      let p3 = record p2 { allowed_ips = p.allowed_ips } in
      let p4 = record p3 { endpoint = p.endpoint } in
      Moves-blank lib printer law st
      then_reads Moves-peer_header lib printer law st
      then_reads Moves-public_key lib printer law on p.public_key p0 h.public_key
      then_reads Moves-preshared_key lib printer law on p.preshared_key p1 h.preshared_key
      then_reads Moves-allowed_ips lib printer law on p.allowed_ips p2 h.allowed_ips
      then_reads Moves-endpoint lib printer law on p.endpoint p3 h.endpoint
      then_reads Moves-persistent_keepalive lib printer law on p.persistent_keepalive p4
          h.persistent_keepalive

  -- The section is read back as the peer, but for the blank line above it.
  pub Moves-peer :
      (p : Peer) (st : Parsing)
      → IsWritablePeer lib p
      → Moves lib (settled st) (write_peer printer p) (with_peer (behind st) (headed p))
  Moves-peer p st h =
      subst (λ q. Moves lib (settled st) (write_peer printer q) (with_peer (behind st) (headed q)))
        (IsWritablePeer-same p h) (Moves-without_comments p st h)
    where
      IsWritablePeer-same : (p : Peer) → IsWritablePeer lib p → without_comments p ≡ p
      IsWritablePeer-same p h = λ i. record p {
        rx_bytes = sym h.rx_bytes i;
        tx_bytes = sym h.tx_bytes i;
        last_handshake_time = sym h.last_handshake_time i;
        comments = sym h.comments i;
      }
