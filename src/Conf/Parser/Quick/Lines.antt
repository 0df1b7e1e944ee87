-- ===== src/Conf/Parser/Quick/Lines.antt =====
-- What the loop of `FromWgQuick` keeps true of its variables.
use wireroute_windows.Base.{
  ◌≡◌, inl, refl, List, [], ◌∷◌, Bool, not, ◌&&◌, All, All-append, if◌then◌else◌, Option, none,
  some, arith,
}
use wireroute_windows.Base.Result.{
  ok, ◌>>◌, reject_if, Holds, Holds->>=, Holds-if, Holds-reject_if, Holds_ok,
}
use wireroute_windows.Base.Text.{Text, codes, same, is_empty, cut, trim_space}
use wireroute_windows.Conf.Config.{Peer}
use wireroute_windows.Conf.Parser.{
  parse_error, line_not_in_section, missing_equals, missing_value, Library,
}
use wireroute_windows.Conf.Parser.Quick.Keys.{set_interface_key, set_peer_key}
use wireroute_windows.Conf.Parser.Quick.{
  ParserState, in_interface_section, in_peer_section, not_in_a_section, Parsing, at_start,
  maybe_add_peer, open_interface, open_peer, set_interface, set_peer, set_key, is_not_in_a_section,
  is_script_key, key_line, line_comment, code_line, parse_line, parse_lines,
}
use wireroute_windows.Conf.Parser.Quick.Valid.{
  IsValidInterface, IsValidPeer, set_interface_key-Holds, set_peer_key-Holds,
}

abbrev pub HoldsPeer : Option Peer → Type 0
HoldsPeer none = Unit
HoldsPeer (some p) = IsValidPeer p

-- In a peer's section there is a peer: the pointer that its keys go through is not nil.
abbrev pub HasPeer : ParserState → Option Peer → Type 0
HasPeer in_peer_section none = ⊥
HasPeer _ _ = Unit

-- What the loop keeps true of its variables.
abbrev pub IsValidParsing : Parsing → Type 0
IsValidParsing st =
    IsValidInterface st.interface
    × All IsValidPeer st.peers
    × HoldsPeer st.peer
    × HasPeer st.parser_state st.peer

HasPeer-some : (s : ParserState) (p : Peer) → HasPeer s (some p)
HasPeer-some in_interface_section p = tt
HasPeer-some in_peer_section p = tt
HasPeer-some not_in_a_section p = tt

pub maybe_add_peer-All :
    (o : Option Peer) (ps : List Peer)
    → HoldsPeer o
    → All IsValidPeer ps
    → All IsValidPeer (maybe_add_peer o ps)
unfolding maybe_add_peer
maybe_add_peer-All none ps h k = k
maybe_add_peer-All (some p) ps h k = All-append IsValidPeer ps (p ∷ []) k (h, tt)

open_interface-IsValidParsing :
    (comment : Text) (st : Parsing) → IsValidParsing st → IsValidParsing (open_interface comment st)
unfolding open_interface
open_interface-IsValidParsing comment st h =
    (h.0, maybe_add_peer-All st.peer st.peers h.2 h.1, h.2, tt)

open_peer-IsValidParsing :
    (comment : Text) (st : Parsing) → IsValidParsing st → IsValidParsing (open_peer comment st)
unfolding open_peer
open_peer-IsValidParsing comment st h =
    (h.0, maybe_add_peer-All st.peer st.peers h.2 h.1, (refl, refl, omega arith, omega arith), tt)

module _ (lib : Library) where
  set_interface-Holds :
      (key val comment : Text) (st : Parsing)
      → IsValidParsing st
      → Holds IsValidParsing (set_interface lib key val comment st)
  unfolding set_interface
  set_interface-Holds key val comment st h =
      Holds->>= _ _ (set_interface_key lib key val _ st.saw_private_key) _
        (set_interface_key-Holds lib key val _ st.saw_private_key h.0) (λ r e. (e, h.1, h.2, h.3))

  set_peer-Holds :
      (key val comment : Text) (st : Parsing) (o : Option Peer)
      → IsValidParsing st
      → HoldsPeer o
      → Holds IsValidParsing (set_peer lib key val comment st o)
  unfolding set_peer
  set_peer-Holds key val comment st none h k = tt
  set_peer-Holds key val comment st (some p) h k =
      Holds->>= _ _ (set_peer_key lib key val _) _ (set_peer_key-Holds lib key val _ k)
        (λ q e. (h.0, h.1, e, HasPeer-some st.parser_state q))

  set_key-Holds :
      (s : ParserState) (key val comment : Text) (st : Parsing)
      → IsValidParsing st
      → Holds IsValidParsing (set_key s lib key val comment st)
  unfolding set_key
  set_key-Holds in_interface_section key val comment st h = set_interface-Holds key val comment st h
  set_key-Holds in_peer_section key val comment st h =
      set_peer-Holds key val comment st st.peer h h.2
  set_key-Holds not_in_a_section key val comment st h = h

  key_line-Holds :
      (line stripped key value : Text) (has_value : Bool) (comment : Text) (st : Parsing)
      → IsValidParsing st
      → Holds IsValidParsing (key_line lib line stripped key value has_value comment st)
  unfolding key_line
  key_line-Holds line stripped key value has_value comment st h =
      let val = trim_space (if is_script_key key then (cut b'=' line).1 else value) in
      let set =
        set_key st.parser_state lib key val (if is_script_key key then [] else comment) st in
      Holds-reject_if IsValidParsing (is_not_in_a_section st.parser_state)
        (parse_error line_not_in_section stripped)
        (reject_if (not has_value) (parse_error missing_equals stripped)
          >> (reject_if (is_empty val) (parse_error missing_value stripped) >> set))
        (λ _.
          Holds-reject_if IsValidParsing (not has_value) (parse_error missing_equals stripped)
            (reject_if (is_empty val) (parse_error missing_value stripped) >> set)
            (λ _.
              Holds-reject_if IsValidParsing (is_empty val) (parse_error missing_value stripped) set
                (λ _. set_key-Holds st.parser_state key val _ st h)))

  code_line-Holds :
      (line stripped comment : Text) (st : Parsing)
      → IsValidParsing st
      → Holds IsValidParsing (code_line lib line stripped comment st)
  unfolding code_line
  code_line-Holds line stripped comment st h =
      let kv = cut b'=' stripped in
      let key = lib.to_lower (trim_space kv.0) in
      let other = key_line lib line stripped key kv.1 kv.2 comment st in
      Holds-if IsValidParsing (same key (codes "[interface]") && not kv.2)
        (ok (open_interface comment st))
        (if same key (codes "[peer]") && not kv.2 then ok (open_peer comment st) else other)
        (λ _. open_interface-IsValidParsing comment st h)
        (λ _.
          Holds-if IsValidParsing (same key (codes "[peer]") && not kv.2)
            (ok (open_peer comment st)) other (λ _. open_peer-IsValidParsing comment st h)
            (λ _. key_line-Holds line stripped key kv.1 kv.2 comment st h))

  parse_line-Holds :
      (st : Parsing) (line : Text)
      → IsValidParsing st
      → Holds IsValidParsing (parse_line lib st line)
  unfolding parse_line
  parse_line-Holds st line h =
      Holds-if IsValidParsing (is_empty (trim_space (cut b'#' line).0)) (ok _)
        (code_line lib line (trim_space (cut b'#' line).0) (line_comment (cut b'#' line)) st)
        (λ _. h) (λ _. code_line-Holds line _ _ st h)

  pub parse_lines-Holds :
      (st : Parsing) (lines : List Text)
      → IsValidParsing st
      → Holds IsValidParsing (parse_lines lib st lines)
  unfolding parse_lines
  parse_lines-Holds st [] h = h
  parse_lines-Holds st (line ∷ lines) h =
      Holds->>= IsValidParsing IsValidParsing (parse_line lib st line)
        (λ next. parse_lines lib next lines) (parse_line-Holds st line h)
        (λ next k. parse_lines-Holds next lines k)

pub at_start-IsValidParsing : IsValidParsing at_start
at_start-IsValidParsing = ((refl, omega arith, inl refl), tt, tt, tt)

-- Whatever lines have been read, the parser is in a peer's section only if it has a peer.
pub parse_lines-HasPeer :
    (lib : Library) (lines : List Text) (st : Parsing)
    → parse_lines lib at_start lines ≡ ok st
    → HasPeer st.parser_state st.peer
parse_lines-HasPeer lib lines st e =
    (Holds_ok IsValidParsing e (parse_lines-Holds lib at_start lines at_start-IsValidParsing)).3
