-- ===== src/Conf/RoundTrip/Interfaces.antt =====
-- conf/parser.go behind conf/writer.go: the section of the interface.
use wireroute_windows.Base.{
  ℕ, ◌≤◌, ◌<◌, ◌≡◌, refl, ap, subst, ◌⊎◌, inl, inr, List, [], ◌∷◌, ◌++◌, map, Bool, true, false,
  All, arith,
}
use wireroute_windows.Base.Numbers.{itoa}
use wireroute_windows.Base.Pieces.{IsToken}
use wireroute_windows.Base.Result.{ok}
use wireroute_windows.Base.Text.{Text, codes}
use wireroute_windows.Conf.Config.{Key, Interface}
use wireroute_windows.Conf.Config.Operations.{no_comments}
use wireroute_windows.Conf.Netip.{Addr, Prefix}
use wireroute_windows.Conf.Parser.{Library}
use wireroute_windows.Conf.Parser.Quick.Keys.{InterfaceKey, set_known_interface_key}
use wireroute_windows.Conf.Parser.Values.{split_list}
use wireroute_windows.Conf.RoundTrip.{IsLawful, IsKey, IsPrefix, IsAddr, IsDomain}
use wireroute_windows.Conf.RoundTrip.Entries.{
  parse_key_base64-encode_to_string, All-prefix-IsToken, parse_prefixes-prefix_text,
  All-dns-IsToken, add_dns-addr_text,
}
use wireroute_windows.Conf.RoundTrip.Fields.{
  interface_name, is_script, inside, Moves-interface_field, Moves-nothing, Moves-number,
}
use wireroute_windows.Conf.RoundTrip.Lines.{Moves}
use wireroute_windows.Conf.RoundTrip.Values.{
  IsToken-IsValue, split_list-joined, joined-IsValue, parse_port-itoa, parse_mtu-itoa,
}
use wireroute_windows.Conf.Writer.{Printer, joined, write_list, write_number, write_field}

module _ (lib : Library) (printer : Printer) (law : IsLawful lib printer) where
  pub Moves-private_key :
      (k : Key) (i : Interface) (seen : Bool)
      → IsKey k
      → Moves lib
          (inside i seen)
          (write_field no_comments (codes "PrivateKey") true (printer.encode_to_string k))
          (inside (record i { private_key = k }) true)
  Moves-private_key k i seen h =
      Moves-interface_field lib printer law InterfaceKey.private_key (printer.encode_to_string k) i
        (record i { private_key = k }) seen true refl
        (IsToken-IsValue (printer.encode_to_string k) (law.key_token k h))
        (unfold set_known_interface_key in
          rw (parse_key_base64-encode_to_string lib printer law k h) refl)

  pub Moves-listen_port :
      (n : ℕ) (i : Interface) (seen : Bool)
      → n ≤ 65535
      → Moves lib
          (inside (record i { listen_port = 0 }) seen)
          (write_number no_comments (codes "ListenPort") n)
          (inside (record i { listen_port = n }) seen)
  Moves-listen_port n i seen h =
      Moves-number lib printer law InterfaceKey.listen_port (λ p. record i { listen_port = p }) n
        seen refl (λ positive. unfold set_known_interface_key in rw (parse_port-itoa n h) refl)

  pub Moves-mtu :
      (n : ℕ) (i : Interface) (seen : Bool)
      → (n ≡ 0) ⊎ ((576 ≤ n) × (n ≤ 65535))
      → Moves lib
          (inside (record i { mtu = 0 }) seen)
          (write_number no_comments (codes "MTU") n)
          (inside (record i { mtu = n }) seen)
  Moves-mtu n i seen h =
      Moves-number lib printer law InterfaceKey.mtu (λ m. record i { mtu = m }) n seen refl
        (λ positive. read h positive)
    where
      read :
          (n ≡ 0) ⊎ ((576 ≤ n) × (n ≤ 65535))
          → 0 < n
          → set_known_interface_key lib InterfaceKey.mtu (itoa n) (record i { mtu = 0 }) seen
            ≡ ok (record i { mtu = n }, seen)
      read (inl h) k = absurd (omega arith)
      read (inr (low, high)) k =
          unfold set_known_interface_key in rw (parse_mtu-itoa n low high) refl

  -- A list of entries that are tokens, read as one value.
  Moves-list :
      (k : InterfaceKey) (texts : List Text) (i j : Interface) (seen : Bool)
      → is_script k ≡ false
      → All IsToken texts
      → (texts ≡ [] → i ≡ j)
      → (split_list (joined texts) ≡ ok texts
          → set_known_interface_key lib k (joined texts) i seen ≡ ok (j, seen))
      → Moves lib (inside i seen) (write_list no_comments (interface_name k) texts) (inside j seen)
  unfolding write_list
  Moves-list k [] i j seen script tokens empty e =
      subst (λ r. Moves lib (inside i seen) [] (inside r seen)) (empty refl)
        (Moves-nothing lib printer law (inside i seen))
  Moves-list k (t ∷ texts) i j seen script tokens empty e =
      Moves-interface_field lib printer law k (joined (t ∷ texts)) i j seen seen script
        (joined-IsValue t texts tokens) (e (split_list-joined t texts tokens))

  pub Moves-addresses :
      (ps : List Prefix) (i : Interface) (seen : Bool)
      → All IsPrefix ps
      → Moves lib
          (inside (record i { addresses = [] }) seen)
          (write_list no_comments (codes "Address") (map printer.prefix_text ps))
          (inside (record i { addresses = ps }) seen)
  Moves-addresses ps i seen h =
      Moves-list InterfaceKey.address (map printer.prefix_text ps) (record i { addresses = [] })
        (record i { addresses = ps }) seen refl (All-prefix-IsToken lib printer law ps h)
        (λ none. ap (λ r. record i { addresses = r }) (map_empty ps none))
        (λ e.
          unfold set_known_interface_key in
          rw e (rw (parse_prefixes-prefix_text lib printer law ps h) refl))
    where
      map_empty : (ps : List Prefix) → map printer.prefix_text ps ≡ [] → [] ≡ ps
      map_empty [] e = refl
      map_empty (p ∷ ps) e = cc

  pub Moves-dns :
      (addrs : List Addr) (domains : List Text) (i : Interface) (seen : Bool)
      → All IsAddr addrs
      → All (IsDomain lib) domains
      → Moves lib
          (inside (record i { dns = []; dns_search = [] }) seen)
          (write_list no_comments (codes "DNS") (map printer.addr_text addrs ++ domains))
          (inside (record i { dns = addrs; dns_search = domains }) seen)
  Moves-dns addrs domains i seen h k =
      Moves-list InterfaceKey.dns (map printer.addr_text addrs ++ domains)
        (record i { dns = []; dns_search = [] }) (record i { dns = addrs; dns_search = domains })
        seen refl (All-dns-IsToken lib printer law addrs domains h k)
        (λ none. both_empty addrs domains none)
        (λ e.
          unfold set_known_interface_key in
          rw e (
            ap (λ r. ok (r, seen))
              (add_dns-addr_text lib printer law addrs domains
                (record i { dns = []; dns_search = [] }) h k)))
    where
      both_empty :
          (addrs : List Addr) (domains : List Text)
          → map printer.addr_text addrs ++ domains ≡ []
          → ◌≡◌ {A = Interface}
              (record i { dns = []; dns_search = [] })
              (record i { dns = addrs; dns_search = domains })
      both_empty [] [] e = refl
      both_empty [] (d ∷ domains) e = cc
      both_empty (a ∷ addrs) domains e = cc
