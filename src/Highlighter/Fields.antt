-- ===== src/Highlighter/Fields.antt =====
-- ui/syntax/highlighter.go: the keys and the sections.
use wireroute_windows.Base.{Bool, true, false, if◌then◌else◌}
use wireroute_windows.Base.Text.{codes}
use wireroute_windows.Highlighter.{Memory, StringSpan, is_caseless_same}

pub data Field : Type 0 where
  interface_section private_key listen_port address dns mtu table pre_up post_up pre_down
        post_down :
      Field
  peer_section public_key preshared_key allowed_ips endpoint persistent_keepalive invalid : Field

unfoldable pub section_for_field : Field → Field
section_for_field interface_section = invalid
section_for_field peer_section = invalid
section_for_field invalid = invalid
section_for_field public_key = peer_section
section_for_field preshared_key = peer_section
section_for_field allowed_ips = peer_section
section_for_field endpoint = peer_section
section_for_field persistent_keepalive = peer_section
section_for_field _ = interface_section

unfoldable pub is_invalid : Field → Bool
is_invalid invalid = true
is_invalid _ = false

-- `section == currentSection`, where the first is that of a field.
unfoldable pub same_section : Field → Field → Bool
same_section interface_section interface_section = true
same_section peer_section peer_section = true
same_section invalid invalid = true
same_section _ _ = false

module _ (m : Memory) where
  unfoldable pub field_of : StringSpan → Field
  field_of s =
      if is_caseless_same m s (codes "PrivateKey")
      then private_key
      else (if is_caseless_same m s (codes "ListenPort")
          then listen_port
          else (if is_caseless_same m s (codes "Address")
              then address
              else (if is_caseless_same m s (codes "DNS")
                  then dns
                  else (if is_caseless_same m s (codes "MTU")
                      then mtu
                      else (if is_caseless_same m s (codes "Table")
                          then table
                          else (if is_caseless_same m s (codes "PublicKey")
                              then public_key
                              else (if is_caseless_same m s (codes "PresharedKey")
                                  then preshared_key
                                  else (if is_caseless_same m s (codes "AllowedIPs")
                                      then allowed_ips
                                      else (if is_caseless_same m s (codes "Endpoint")
                                          then endpoint
                                          else (if is_caseless_same m s
                                                (codes "PersistentKeepalive")
                                              then persistent_keepalive
                                              else (if is_caseless_same m s (codes "PreUp")
                                                  then pre_up
                                                  else (if is_caseless_same m s (codes "PostUp")
                                                      then post_up
                                                      else (if is_caseless_same m s
                                                            (codes "PreDown")
                                                          then pre_down
                                                          else (if is_caseless_same m s
                                                            (codes "PostDown")
                                                            then post_down
                                                            else invalid))))))))))))))

  unfoldable pub section_type : StringSpan → Field
  section_type s =
      if is_caseless_same m s (codes "[Peer]")
      then peer_section
      else (if is_caseless_same m s (codes "[Interface]") then interface_section else invalid)
