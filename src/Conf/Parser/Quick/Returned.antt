-- ===== src/Conf/Parser/Quick/Returned.antt =====
-- What `FromWgQuick` returns.
use wireroute_windows.Base.{◌≡◌, refl, List, [], ◌∷◌, map, true, false, not, any, All, arith, ◌∙◌}
use wireroute_windows.Base.Result.{
  Result, ok, ◌>>=◌, ◌>>◌, reject_if, Holds, Holds->>=, Holds-reject_if, Holds_ok,
}
use wireroute_windows.Base.Text.{Text, codes, split}
use wireroute_windows.Conf.Config.{Peer, Config}
use wireroute_windows.Conf.Config.Operations.{is_zero}
use wireroute_windows.Conf.Name.{tunnel_name_is_valid}
use wireroute_windows.Conf.Parser.{
  ParseError, parse_error, no_private_key, no_public_key, tunnel_name_not_valid, Library,
}
use wireroute_windows.Conf.Parser.Comments.{prune_section_comments, prune_comments}
use wireroute_windows.Conf.Parser.Quick.{
  Parsing, at_start, maybe_add_peer, parse_lines, finish, from_wg_quick, prune_peer,
}
use wireroute_windows.Conf.Parser.Quick.Valid.{IsValidInterface, IsValidPeer}
use wireroute_windows.Conf.Parser.Quick.Lines.{
  IsValidParsing, at_start-IsValidParsing, maybe_add_peer-All, parse_lines-Holds,
}

-- The name is the one asked for, and valid; keys have 32 bytes and numbers their range; and every
-- peer has a public key that is not zero.
unfoldable pub IsValidConfig : Text → Config → Type 0
IsValidConfig name conf =
    (conf.name ≡ name)
    × (tunnel_name_is_valid name ≡ true)
    × IsValidInterface conf.interface
    × All IsValidPeer conf.peers
    × (any (λ p. is_zero p.public_key) conf.peers ≡ false)

All-prune_peer : (ps : List Peer) → All IsValidPeer ps → All IsValidPeer (map prune_peer ps)
unfolding prune_peer
All-prune_peer [] h = tt
All-prune_peer (p ∷ ps) h = (h.0, All-prune_peer ps h.1)

any-prune_peer :
    (ps : List Peer)
    → any (λ p. is_zero p.public_key) (map prune_peer ps) ≡ any (λ p. is_zero p.public_key) ps
unfolding prune_peer
any-prune_peer [] = refl
any-prune_peer (p ∷ ps) = ground (arith, any-prune_peer ps)

finish-Holds :
    (name : Text) (st : Parsing)
    → tunnel_name_is_valid name ≡ true
    → IsValidParsing st
    → Holds (IsValidConfig name) (finish name st)
unfolding finish IsValidConfig
finish-Holds name st v h =
    let peers = maybe_add_peer st.peer st.peers in
    let result : Result ParseError Config = ok (record {
      name = name;
      interface = record (st.interface) { comments = prune_section_comments st.interface.comments };
      peers = map prune_peer peers;
      trailing_comments = prune_comments st.pending_comments false true;
    }) in
    let no_zero = any (λ p. is_zero p.public_key) peers in
    let missing = codes "[none specified]" in
    Holds-reject_if (IsValidConfig name) (not st.saw_private_key)
      (parse_error no_private_key missing)
      (reject_if no_zero (parse_error no_public_key missing) >> result)
      (λ _.
        Holds-reject_if (IsValidConfig name) no_zero (parse_error no_public_key missing) result
          (λ e. (
            refl,
            v,
            h.0,
            All-prune_peer peers (maybe_add_peer-All st.peer st.peers h.2 h.1),
            any-prune_peer peers ∙ e,
          )))

from_wg_quick-Holds :
    (lib : Library) (s name : Text) → Holds (IsValidConfig name) (from_wg_quick lib s name)
unfolding from_wg_quick
from_wg_quick-Holds lib s name =
    Holds-reject_if (IsValidConfig name) (not (tunnel_name_is_valid name))
      (parse_error tunnel_name_not_valid name)
      (parse_lines lib at_start (split b'\n' s) >>= finish name)
      (λ v.
        Holds->>= IsValidParsing (IsValidConfig name) (parse_lines lib at_start (split b'\n' s))
          (finish name) (parse_lines-Holds lib at_start (split b'\n' s) at_start-IsValidParsing)
          (λ st h. finish-Holds name st (ground arith) h))

-- A configuration that `FromWgQuick` returns has the name asked for, which is valid, keys of 32
-- bytes, ports and keepalive intervals of 16 bits, an MTU that is unset or from 576 to 65535, and
-- no peer without a public key.
pub from_wg_quick-IsValidConfig :
    (lib : Library) (s name : Text) (conf : Config)
    → from_wg_quick lib s name ≡ ok conf
    → IsValidConfig name conf
from_wg_quick-IsValidConfig lib s name conf e =
    Holds_ok (IsValidConfig name) e (from_wg_quick-Holds lib s name)
