-- ===== src/Conf/RoundTrip/Section.antt =====
-- conf/parser.go behind conf/writer.go: the whole section of the interface.
use wireroute_windows.Base.{◌≡◌, refl, sym, ap, subst, Bool, true, false, if◌then◌else◌}
use wireroute_windows.Base.Text.{
  codes, same, contains, cut, is_space, trim_left, trim_right, trim_space,
}
use wireroute_windows.Conf.Config.{Interface}
use wireroute_windows.Conf.Config.Operations.{no_comments}
use wireroute_windows.Conf.Name.{ascii_lower}
use wireroute_windows.Conf.Parser.{Library}
use wireroute_windows.Conf.Parser.Comments.{add_comments}
use wireroute_windows.Conf.Parser.Quick.{
  at_start, no_interface, parse_line, code_line, line_comment, open_interface, maybe_add_peer,
}
use wireroute_windows.Conf.Parser.Quick.Keys.{InterfaceKey, set_known_interface_key}
use wireroute_windows.Conf.Parser.Values.{parse_table_off}
use wireroute_windows.Conf.RoundTrip.{IsLawful, IsWritableInterface}
use wireroute_windows.Conf.RoundTrip.Fields.{
  inside, Moves-interface_field, Moves-absent, Moves-script,
}
use wireroute_windows.Conf.RoundTrip.Interfaces.{
  Moves-private_key, Moves-listen_port, Moves-mtu, Moves-addresses, Moves-dns,
}
use wireroute_windows.Conf.RoundTrip.Lines.{Moves, Moves-line, ◌then_reads◌}
use wireroute_windows.Conf.RoundTrip.Values.{IsValue}
use wireroute_windows.Conf.Writer.{Printer, lines_of, write_field, write_line, write_interface}

module _ (lib : Library) (printer : Printer) (law : IsLawful lib printer) where
  Moves-header :
      Moves lib at_start
        (write_line no_comments.header (codes "[Interface]"))
        (inside no_interface false)
  unfolding write_line lines_of
  Moves-header =
      Moves-line lib at_start (inside no_interface false) (codes "[Interface]")
        (unfold contains in refl)
        (unfold parse_line code_line line_comment open_interface maybe_add_peer add_comments cut
            trim_space trim_left trim_right is_space same ascii_lower in
          rw (law.lower (codes "[Interface]") refl) refl)

  off-IsValue : IsValue (codes "off")
  off-IsValue = unfold contains trim_left trim_right is_space in ((refl, refl, refl), refl, refl)

  Moves-table :
      (off : Bool) (i : Interface)
      → Moves lib
          (inside (record i { table_off = false }) true)
          (write_field no_comments (codes "Table") off (if off then codes "off" else codes "auto"))
          (inside (record i { table_off = off }) true)
  Moves-table false i =
      Moves-absent lib printer law (codes "Table") (codes "auto")
        (inside (record i { table_off = false }) true)
  Moves-table true i =
      Moves-interface_field lib printer law InterfaceKey.table (codes "off")
        (record i { table_off = false }) (record i { table_off = true }) true true refl off-IsValue
        (unfold set_known_interface_key parse_table_off same in refl)

  abbrev without_comments : Interface → Interface
  without_comments i = record i { comments = no_comments }

  Moves-without_comments :
      (i : Interface)
      → IsWritableInterface lib i
      → Moves lib at_start
          (write_interface printer (without_comments i))
          (inside (without_comments i) true)
  unfolding write_interface
  Moves-without_comments i h =
      let i1 = record no_interface { private_key = i.private_key } in
      let i2 = record i1 { listen_port = i.listen_port } in
      let i3 = record i2 { addresses = i.addresses } in
      let i4 = record i3 { dns = i.dns; dns_search = i.dns_search } in
      let i5 = record i4 { mtu = i.mtu } in
      let i6 = record i5 { pre_up = i.pre_up } in
      let i7 = record i6 { post_up = i.post_up } in
      let i8 = record i7 { pre_down = i.pre_down } in
      let i9 = record i8 { post_down = i.post_down } in
      Moves-header
      then_reads Moves-private_key lib printer law i.private_key no_interface false h.private_key
      then_reads Moves-listen_port lib printer law i.listen_port i1 true h.listen_port
      then_reads Moves-addresses lib printer law i.addresses i2 true h.addresses
      then_reads Moves-dns lib printer law i.dns i.dns_search i3 true h.dns h.dns_search
      then_reads Moves-mtu lib printer law i.mtu i4 true h.mtu
      then_reads Moves-script lib printer law InterfaceKey.pre_up (λ s. record i5 { pre_up = s })
          i.pre_up true refl h.pre_up (unfold set_known_interface_key in refl)
      then_reads Moves-script lib printer law InterfaceKey.post_up (λ s. record i6 { post_up = s })
          i.post_up true refl h.post_up (unfold set_known_interface_key in refl)
      then_reads Moves-script lib printer law InterfaceKey.pre_down
          (λ s. record i7 { pre_down = s }) i.pre_down true refl h.pre_down
          (unfold set_known_interface_key in refl)
      then_reads Moves-script lib printer law InterfaceKey.post_down
          (λ s. record i8 { post_down = s }) i.post_down true refl h.post_down
          (unfold set_known_interface_key in refl)
      then_reads Moves-table i.table_off i9

  -- The section is read back as the interface.
  pub Moves-interface :
      (i : Interface)
      → IsWritableInterface lib i
      → Moves lib at_start (write_interface printer i) (inside i true)
  Moves-interface i h =
      let same_interface : without_comments i ≡ i =
        ap (λ c. record i { comments = c }) (sym h.comments) in
      subst (λ j. Moves lib at_start (write_interface printer j) (inside j true)) same_interface
        (Moves-without_comments i h)
