-- ===== src/Conf/RoundTrip/Whole.antt =====
-- conf/parser.go behind conf/writer.go: a configuration that is written is read back as it was.
use wireroute_windows.Base.{
  ◌≡◌, refl, sym, ap, ap₂, ◌∙◌, List, [], ◌∷◌, ◌++◌, append-nil, append_assoc, map, true, false,
  any, All,
}
use wireroute_windows.Base.Result.{Result, ok}
use wireroute_windows.Base.Text.{Text, cut, split, trim_space, trim_left, trim_right}
use wireroute_windows.Conf.Config.{Interface, Peer, Config, SectionComments}
use wireroute_windows.Conf.Config.Operations.{no_comments, is_zero}
use wireroute_windows.Conf.Parser.{ParseError, Library}
use wireroute_windows.Conf.Parser.Comments.{
  prune_section_comments, prune_comments, prune_lines, squeeze, trim_leading, trim_trailing,
  unless_blank, starts_blank, ends_blank,
}
use wireroute_windows.Conf.Parser.Quick.{
  Parsing, at_start, maybe_add_peer, parse_line, parse_lines, line_comment, prune_peer, finish,
  from_wg_quick,
}
use wireroute_windows.Conf.RoundTrip.{IsLawful, IsWritablePeer, IsWritable}
use wireroute_windows.Conf.RoundTrip.Fields.{inside, with_peer, Moves-nothing}
use wireroute_windows.Conf.RoundTrip.Lines.{reads, Moves, ◌then_reads◌}
use wireroute_windows.Conf.RoundTrip.Peers.{headed, settled, behind, Moves-peer}
use wireroute_windows.Conf.RoundTrip.Section.{Moves-interface}
use wireroute_windows.Conf.Writer.{Printer, lines_of, write_interface, write_peers, to_wg_quick}

-- The parser behind the sections of some peers.
abbrev after : Parsing → List Peer → Parsing
after st [] = settled st
after st (p ∷ ps) = after (with_peer (behind st) (headed p)) ps

after_peers :
    (st : Parsing) (ps : List Peer)
    → maybe_add_peer (after st ps).peer (after st ps).peers
      ≡ maybe_add_peer st.peer st.peers ++ map headed ps
unfolding maybe_add_peer
after_peers st [] = sym (append-nil (maybe_add_peer st.peer st.peers))
after_peers st (p ∷ ps) =
    after_peers (with_peer (behind st) (headed p)) ps
    ∙ append_assoc (maybe_add_peer st.peer st.peers) (headed p ∷ []) (map headed ps)

-- What the sections of peers leave as it was.
after_rest :
    (st : Parsing) (ps : List Peer)
    → ((after st ps).interface ≡ st.interface)
      × ((after st ps).saw_private_key ≡ st.saw_private_key)
      × ((after st ps).pending_comments ≡ [])
after_rest st [] = (refl, refl, refl)
after_rest st (p ∷ ps) = after_rest (with_peer (behind st) (headed p)) ps

-- The blank line above a peer is pruned.
prune_peer-headed : (p : Peer) → p.comments ≡ no_comments → prune_peer (headed p) ≡ p
unfolding prune_peer prune_section_comments prune_comments prune_lines squeeze trim_leading
    trim_trailing unless_blank starts_blank ends_blank
prune_peer-headed p h = ap (λ c. record p { comments = c }) (sym h)

prune_none : prune_section_comments no_comments ≡ no_comments
unfolding prune_section_comments prune_comments prune_lines squeeze trim_leading trim_trailing
    unless_blank starts_blank ends_blank
prune_none = refl

prune_blank : prune_comments ([] ∷ []) false true ≡ []
unfolding prune_comments squeeze trim_leading trim_trailing unless_blank starts_blank ends_blank
prune_blank = refl

abbrev as_config :
    Text → Interface → List Peer → SectionComments → List Text → Result ParseError Config
as_config name i ps comments trailing = ok (record {
  name = name;
  interface = record i { comments = comments };
  peers = ps;
  trailing_comments = trailing;
})

module _ (lib : Library) where
  prune_peer-map :
      (ps : List Peer) → All (IsWritablePeer lib) ps → map prune_peer (map headed ps) ≡ ps
  prune_peer-map [] h = refl
  prune_peer-map (p ∷ ps) (h, hs) =
      ap₂ (λ q qs. q ∷ qs) (prune_peer-headed p h.comments) (prune_peer-map ps hs)

  none_zero :
      (ps : List Peer)
      → All (IsWritablePeer lib) ps
      → any (λ p. is_zero p.public_key) (map headed ps) ≡ false
  none_zero [] h = refl
  none_zero (p ∷ ps) (h, hs) = rw h.public_key_set (none_zero ps hs)

  -- The end of the text is a blank line.
  reads_nil :
      (st : Parsing)
      → reads lib st [] ≡ ok (record st { pending_comments = st.pending_comments ++ ([] ∷ []) })
  unfolding parse_lines parse_line line_comment split cut trim_space trim_left trim_right
  reads_nil st = refl

  finish_lem :
      (name : Text) (st : Parsing) (i : Interface) (ps : List Peer)
      → All (IsWritablePeer lib) ps
      → i.comments ≡ no_comments
      → maybe_add_peer st.peer st.peers ≡ map headed ps
      → st.interface ≡ i
      → st.saw_private_key ≡ true
      → st.pending_comments ≡ [] ∷ []
      → finish name st
        ≡ ok (record { name = name; interface = i; peers = ps; trailing_comments = [] })
  unfolding finish
  finish_lem name st i ps h c peers interface saw pending = rw peers (
      rw saw (
        rw pending (
          rw interface (
            rw (none_zero ps h) (
              rw (prune_peer-map ps h) (
                ap₂ (as_config name i ps) (ap prune_section_comments c ∙ prune_none ∙ sym c)
                  prune_blank))))))

module _ (lib : Library) (printer : Printer) (law : IsLawful lib printer) where
  Moves-peers :
      (ps : List Peer) (st : Parsing)
      → All (IsWritablePeer lib) ps
      → Moves lib (settled st) (write_peers printer ps) (after st ps)
  unfolding write_peers
  Moves-peers [] st h = Moves-nothing lib printer law (settled st)
  Moves-peers (p ∷ ps) st (h, hs) =
      Moves-peer lib printer law p st h
      then_reads Moves-peers ps (with_peer (behind st) (headed p)) hs

  reads-to_wg_quick :
      (conf : Config)
      → IsWritable lib conf
      → reads lib at_start (to_wg_quick printer conf)
        ≡ reads lib (after (inside conf.interface true) conf.peers) []
  unfolding to_wg_quick lines_of
  reads-to_wg_quick conf h =
      let sections = write_interface printer conf.interface ++ write_peers printer conf.peers in
      let moves =
        Moves-interface lib printer law conf.interface h.interface
        then_reads Moves-peers conf.peers (inside conf.interface true) h.peers in
      ap (λ (t : List Text). reads lib at_start (sections ++ lines_of t)) h.trailing_comments
      ∙ moves.behind []

  -- If the packages read what they print, a configuration without comments whose values are in their
  -- ranges and can stand in text is what `FromWgQuick` returns for the text that `ToWgQuick` writes.
  pub from_wg_quick-to_wg_quick :
      (conf : Config)
      → IsWritable lib conf
      → from_wg_quick lib (to_wg_quick printer conf) conf.name ≡ ok conf
  unfolding from_wg_quick maybe_add_peer
  from_wg_quick-to_wg_quick conf h =
      let st = after (inside conf.interface true) conf.peers in
      let rest = after_rest (inside conf.interface true) conf.peers in
      rw h.name (
        rw (reads-to_wg_quick conf h ∙ reads_nil lib st) (
          finish_lem lib conf.name
            (record st { pending_comments = st.pending_comments ++ ([] ∷ []) }) conf.interface
            conf.peers h.peers h.interface.comments
            (after_peers (inside conf.interface true) conf.peers) rest.0 rest.1
            (ap (λ (t : List Text). t ++ ([] ∷ [])) rest.2)
          ∙ ap (λ t. ok (record conf { trailing_comments = t })) (sym h.trailing_comments)))
