-- ===== src/Highlighter/Tests.antt =====
-- The theorems on the highlighter at concrete inputs, and runs of its code.
use wireroute_windows.Base.{ℕ, ◌≡◌, refl, List, [], ◌∷◌, some, true, get_or, ◌≤◌}
use wireroute_windows.Base.Result.{ok}
use wireroute_windows.Base.Text.{Text, codes}
use wireroute_windows.Conf.Parser.Values.{parse_mtu}
use wireroute_windows.Highlighter.{
  field, delimiter, port, section, HighlightSpan, Memory, span, is_decimal, is_alphabet, or32,
  capital, agrees, is_caseless_same, each, validate_highlight,
}
use wireroute_windows.Highlighter.Fields.{
  section_for_field, is_invalid, same_section, field_of, section_type,
}
use wireroute_windows.Highlighter.Laws.{InOrder}
use wireroute_windows.Highlighter.Laws.Accepted.{text_of, is_valid_mtu-parse_mtu}
use wireroute_windows.Highlighter.Laws.InRange.{highlight_memory-InOrder}
use wireroute_windows.Highlighter.Scan.{
  is_on_comment, is_on_key, end_value, end_item, next_item, end_key, begun, within_item, scan_byte,
  scanned, scan_from, highlight_memory, highlight_config,
}
use wireroute_windows.Highlighter.Validators.{
  hostname_loop, is_valid_hostname, digits_from, is_valid_uint, is_valid_mtu, is_valid_port,
}
use wireroute_windows.Highlighter.Values.{append, highlight_value}

abbrev bytes : Text → Memory
bytes s i = get_or s i 0

abbrev port_line : Text
port_line = codes "[Interface]\nListenPort = 51820"

-- A section, a key of it, and its value.
highlighted :
    highlight_config port_line
    ≡ some (
        record { t = section; s = 0; len = 11 }
        ∷ record { t = field; s = 12; len = 10 }
        ∷ record { t = delimiter; s = 23; len = 1 }
        ∷ record { t = port; s = 25; len = 5 }
        ∷ [])
unfolding highlight_config highlight_memory scan_from scan_byte scanned within_item end_item
    end_value next_item end_key begun is_on_comment is_on_key append highlight_value
    section_for_field is_invalid same_section field_of section_type is_caseless_same agrees capital
    is_valid_port is_valid_uint each digits_from is_decimal validate_highlight
highlighted = refl

-- The test for two dots in a row is behind a branch that has gone on, so that it never refuses a name.
two_dots : is_valid_hostname (bytes (codes "a..b")) (span 0 4) ≡ true
unfolding is_valid_hostname hostname_loop is_decimal is_alphabet or32
two_dots = refl

highlight_memory-InOrder_example :
    (r : List HighlightSpan) × (highlight_memory (bytes port_line) 30 ≡ some r) × InOrder 0 r 30
highlight_memory-InOrder_example = highlight_memory-InOrder (bytes port_line) 30

mtu_valid : is_valid_mtu (bytes (codes "1420")) (span 0 4) ≡ true
unfolding is_valid_mtu is_valid_uint each digits_from is_decimal
mtu_valid = refl

is_valid_mtu-parse_mtu_example :
    (v : ℕ) × (parse_mtu (text_of (bytes (codes "1420")) 0 4) ≡ ok v) × (576 ≤ v) × (v ≤ 65535)
is_valid_mtu-parse_mtu_example = is_valid_mtu-parse_mtu (bytes (codes "1420")) (span 0 4) mtu_valid
