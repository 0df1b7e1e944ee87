-- ===== src/Conf/Writer.antt =====
-- conf/writer.go: `ToWgQuick`.
use wireroute_windows.Base.{
  ℕ, List, [], ◌∷◌, ◌++◌, map, Bool, true, not, ◌&&◌, ◌==◌, ltb, length, if◌then◌else◌,
}
use wireroute_windows.Base.Numbers.{itoa}
use wireroute_windows.Base.Text.{Text, codes, is_empty}
use wireroute_windows.Conf.Config.{Key, Comments, SectionComments, Peer, Interface, Config}
use wireroute_windows.Conf.Config.Operations.{is_zero, endpoint_is_empty, endpoint_text}
use wireroute_windows.Conf.Name.{ascii_lower}
use wireroute_windows.Conf.Netip.{Addr, Prefix}
use wireroute_windows.Conf.Parser.Comments.{comments_of}

-- What the writer takes from net/netip and encoding/base64.
pub record Printer : Type 0 where
  pub addr_text : Addr → Text
  pub prefix_text : Prefix → Text
  pub encode_to_string : Key → Text

-- `strings.Join(texts, ", ")`.
unfoldable pub joined : List Text → Text
joined [] = []
joined (t ∷ []) = t
joined (t ∷ (u ∷ texts)) = t ++ codes ", " ++ joined (u ∷ texts)

-- Each on a line of its own.
unfoldable pub lines_of : List Text → Text
lines_of [] = []
lines_of (line ∷ lines) = line ++ b'\n' ∷ lines_of lines

unfoldable pub write_line : Comments → Text → Text
write_line c line =
    lines_of c.before
    ++ line
    ++ (if not (is_empty c.suffix) then b' ' ∷ c.suffix else [])
    ++ codes "\n"

-- The keys are ASCII, so that this is `strings.ToLower` of them.
unfoldable pub write_field :
    SectionComments → (key : Text) → (present : Bool) → (value : Text) → Text
write_field comments key present value =
    let c = comments_of (map ascii_lower key) comments.lines in
    if not present && length c.before == 0 && is_empty c.suffix
    then []
    else write_line c (key ++ codes " = " ++ value)

-- A list of values, none of which stand in the text where the list is empty.
unfoldable pub write_list : SectionComments → (key : Text) → List Text → Text
write_list comments key [] = []
write_list comments key (v ∷ values) = write_field comments key true (joined (v ∷ values))

unfoldable pub write_number : SectionComments → (key : Text) → ℕ → Text
write_number comments key n = write_field comments key (ltb 0 n) (itoa n)

unfoldable pub write_script : SectionComments → (key : Text) → Text → Text
write_script comments key script = write_field comments key (not (is_empty script)) script

module _ (printer : Printer) where
  unfoldable pub write_interface : Interface → Text
  write_interface i =
      write_line i.comments.header (codes "[Interface]")
      ++ write_field i.comments (codes "PrivateKey") true (printer.encode_to_string i.private_key)
      ++ write_number i.comments (codes "ListenPort") i.listen_port
      ++ write_list i.comments (codes "Address") (map printer.prefix_text i.addresses)
      ++ write_list i.comments (codes "DNS") (map printer.addr_text i.dns ++ i.dns_search)
      ++ write_number i.comments (codes "MTU") i.mtu
      ++ write_script i.comments (codes "PreUp") i.pre_up
      ++ write_script i.comments (codes "PostUp") i.post_up
      ++ write_script i.comments (codes "PreDown") i.pre_down
      ++ write_script i.comments (codes "PostDown") i.post_down
      ++ write_field i.comments (codes "Table") i.table_off
          (if i.table_off then codes "off" else codes "auto")

  unfoldable pub write_peer : Peer → Text
  write_peer p =
      codes "\n"
      ++ write_line p.comments.header (codes "[Peer]")
      ++ write_field p.comments (codes "PublicKey") true (printer.encode_to_string p.public_key)
      ++ write_field p.comments (codes "PresharedKey") (not (is_zero p.preshared_key))
          (printer.encode_to_string p.preshared_key)
      ++ write_list p.comments (codes "AllowedIPs") (map printer.prefix_text p.allowed_ips)
      ++ write_field p.comments (codes "Endpoint") (not (endpoint_is_empty p.endpoint))
          (endpoint_text p.endpoint)
      ++ write_number p.comments (codes "PersistentKeepalive") p.persistent_keepalive

  unfoldable pub write_peers : List Peer → Text
  write_peers [] = []
  write_peers (p ∷ peers) = write_peer p ++ write_peers peers

  unfoldable pub to_wg_quick : Config → Text
  to_wg_quick conf =
      write_interface conf.interface ++ write_peers conf.peers ++ lines_of conf.trailing_comments
