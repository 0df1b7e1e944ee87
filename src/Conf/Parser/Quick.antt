-- ===== src/Conf/Parser/Quick.antt =====
-- conf/parser.go: `FromWgQuick`.
pub mod Keys
pub mod Valid
pub mod Lines
pub mod Returned
use wireroute_windows.Base.{
  ℕ, List, [], ◌∷◌, ◌++◌, map, Bool, true, false, not, ◌&&◌, ◌||◌, ◌==◌, if◌then◌else◌, replicate,
  Option, none, some, any,
}
use wireroute_windows.Base.Result.{Result, ok, err, ◌>>=◌, ◌>>◌, reject_if}
use wireroute_windows.Base.Text.{Text, codes, same, is_empty, cut, split, trim_space, trim_right}
use wireroute_windows.Conf.Config.{Config, Interface, Peer, Comments, SectionComments}
use wireroute_windows.Conf.Config.Operations.{zero_key, no_comments, is_zero}
use wireroute_windows.Conf.Name.{tunnel_name_is_valid}
use wireroute_windows.Conf.Parser.{
  ParseError, parse_error, nil_dereference, tunnel_name_not_valid, line_not_in_section,
  missing_equals, missing_value, no_private_key, no_public_key, Library,
}
use wireroute_windows.Conf.Parser.Comments.{
  no_comment, add_comments, add_line_comments, prune_comments, prune_section_comments,
}
use wireroute_windows.Conf.Parser.Quick.Keys.{set_interface_key, set_peer_key}

pub data ParserState : Type 0 where
  in_interface_section : ParserState
  in_peer_section : ParserState
  not_in_a_section : ParserState

abbrev pub no_interface : Interface
no_interface = record {
  private_key = zero_key;
  addresses = [];
  listen_port = 0;
  mtu = 0;
  dns = [];
  dns_search = [];
  pre_up = [];
  post_up = [];
  pre_down = [];
  post_down = [];
  table_off = false;
  comments = no_comments;
}

abbrev pub no_peer : Peer
no_peer = record {
  public_key = zero_key;
  preshared_key = zero_key;
  allowed_ips = [];
  endpoint = record { host = []; port = 0 };
  persistent_keepalive = 0;
  rx_bytes = 0;
  tx_bytes = 0;
  last_handshake_time = 0;
  comments = no_comments;
}

-- The variables of the loop over the lines.
pub record Parsing : Type 0 where
  pub parser_state : ParserState
  pub interface : Interface
  pub peers : List Peer
  pub saw_private_key : Bool
  pub peer : Option Peer
  pub pending_comments : List Text

abbrev pub at_start : Parsing
at_start = record {
  parser_state = not_in_a_section;
  interface = no_interface;
  peers = [];
  saw_private_key = false;
  peer = none;
  pending_comments = [];
}

unfoldable pub maybe_add_peer : Option Peer → List Peer → List Peer
maybe_add_peer none peers = peers
maybe_add_peer (some p) peers = peers ++ (p ∷ [])

-- The peer in progress stays in `peer`.
unfoldable pub open_interface : Text → Parsing → Parsing
open_interface comment st = record st {
  parser_state = in_interface_section;
  peers = maybe_add_peer st.peer st.peers;
  interface = record (st.interface) {
    comments = record (st.interface.comments) {
      header = add_comments st.pending_comments comment st.interface.comments.header;
    };
  };
  pending_comments = [];
}

unfoldable pub open_peer : Text → Parsing → Parsing
open_peer comment st = record st {
  parser_state = in_peer_section;
  peers = maybe_add_peer st.peer st.peers;
  peer = some (record no_peer {
    comments = record no_comments {
      header = record { before = st.pending_comments; suffix = comment };
    };
  });
  pending_comments = [];
}

unfoldable pub set_interface : Library → Text → Text → Text → Parsing → Result ParseError Parsing
set_interface lib key val comment st = do
  let i = record (st.interface) {
    comments = add_line_comments key st.pending_comments comment st.interface.comments;
  }
  r ← set_interface_key lib key val i st.saw_private_key
  ok (record st { interface = r.0; saw_private_key = r.1; pending_comments = [] })

unfoldable pub set_peer :
    Library → Text → Text → Text → Parsing → Option Peer → Result ParseError Parsing
set_peer lib key val comment st none = err nil_dereference
set_peer lib key val comment st (some p) = do
  q ←
      set_peer_key lib key val
        (record p { comments = add_line_comments key st.pending_comments comment p.comments })
  ok (record st { peer = some q; pending_comments = [] })

unfoldable pub set_key :
    ParserState → Library → Text → Text → Text → Parsing → Result ParseError Parsing
set_key in_interface_section lib key val comment st = set_interface lib key val comment st
set_key in_peer_section lib key val comment st = set_peer lib key val comment st st.peer
set_key not_in_a_section lib key val comment st = ok (record st { pending_comments = [] })

unfoldable pub is_not_in_a_section : ParserState → Bool
is_not_in_a_section not_in_a_section = true
is_not_in_a_section _ = false

-- The four keys of scripts, whose values hold all that follows the equals sign.
unfoldable pub is_script_key : Text → Bool
is_script_key key =
    any (same key) (codes "preup" ∷ codes "postup" ∷ codes "predown" ∷ codes "postdown" ∷ [])

-- A line with a key, once it is neither blank nor a section's header.
unfoldable pub key_line :
    Library → (line stripped key value : Text) → Bool → Text → Parsing → Result ParseError Parsing
key_line lib line stripped key value has_value comment st = do
  reject_if (is_not_in_a_section st.parser_state) (parse_error line_not_in_section stripped)
  reject_if (not has_value) (parse_error missing_equals stripped)
  let script = is_script_key key
  let val = trim_space (if script then (cut b'=' line).1 else value)
  reject_if (is_empty val) (parse_error missing_value stripped)
  set_key st.parser_state lib key val (if script then [] else comment) st

unfoldable pub line_comment : Text × Text × Bool → Text
line_comment (code, after, has_comment) =
    if has_comment then b'#' ∷ trim_right (λ c. c == b' ' || c == b'\t' || c == b'\r') after else []

unfoldable pub code_line :
    Library → (line stripped comment : Text) → Parsing → Result ParseError Parsing
code_line lib line stripped comment st =
    let kv = cut b'=' stripped in
    let key = lib.to_lower (trim_space kv.0) in
    if same key (codes "[interface]") && not kv.2
    then ok (open_interface comment st)
    else (if same key (codes "[peer]") && not kv.2
        then ok (open_peer comment st)
        else key_line lib line stripped key kv.1 kv.2 comment st)

-- One round of the loop.
unfoldable pub parse_line : Library → Parsing → Text → Result ParseError Parsing
parse_line lib st line =
    let comment = line_comment (cut b'#' line) in
    let stripped = trim_space (cut b'#' line).0 in
    if is_empty stripped
    then ok (record st {
      pending_comments = st.pending_comments ++ ((if is_empty comment then [] else comment) ∷ []);
    })
    else code_line lib line stripped comment st

unfoldable pub parse_lines : Library → Parsing → List Text → Result ParseError Parsing
parse_lines lib st [] = ok st
parse_lines lib st (line ∷ lines) = do next ← parse_line lib st line; parse_lines lib next lines

unfoldable pub prune_peer : Peer → Peer
prune_peer p = record p { comments = prune_section_comments p.comments }

unfoldable pub finish : Text → Parsing → Result ParseError Config
finish name st = do
  let peers = maybe_add_peer st.peer st.peers
  reject_if (not st.saw_private_key) (parse_error no_private_key (codes "[none specified]"))
  reject_if (any (λ p. is_zero p.public_key) peers)
      (parse_error no_public_key (codes "[none specified]"))
  ok (record {
    name = name;
    interface = record (st.interface) { comments = prune_section_comments st.interface.comments };
    peers = map prune_peer peers;
    trailing_comments = prune_comments st.pending_comments false true;
  })

unfoldable pub from_wg_quick : Library → (s name : Text) → Result ParseError Config
from_wg_quick lib s name = do
  reject_if (not (tunnel_name_is_valid name)) (parse_error tunnel_name_not_valid name)
  st ← parse_lines lib at_start (split b'\n' s)
  finish name st
