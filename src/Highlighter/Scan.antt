-- ===== src/Highlighter/Scan.antt =====
-- ui/syntax/highlighter.go: `highlightConfig`.
use wireroute_windows.Base.{
  ℕ, zero, suc, List, [], Bool, true, false, not, ◌&&◌, ◌||◌, ◌==◌, if◌then◌else◌, Option, none,
  some, length, get_or,
}
use wireroute_windows.Base.Text.{Text}
use wireroute_windows.Highlighter.{
  section, field, comment, delimiter, error, HighlightSpan, Memory, StringSpan, span,
  validate_highlight,
}
use wireroute_windows.Highlighter.Fields.{
  Field, invalid, section_for_field, is_invalid, same_section, field_of, section_type,
}
use wireroute_windows.Highlighter.Values.{append, highlight_value}

pub data State : Type 0 where
  on_none on_key on_value on_comment on_section : State

unfoldable pub is_on_comment : State → Bool
is_on_comment on_comment = true
is_on_comment _ = false

unfoldable pub is_on_key : State → Bool
is_on_key on_key = true
is_on_key _ = false

-- The variables of the loop.
pub record Scanning : Type 0 where
  pub ret : List HighlightSpan
  pub current_span : StringSpan
  pub current_section : Field
  pub current_field : Field
  pub state : State
  pub len_at_last_space : ℕ
  pub equals_location : ℕ

abbrev pub at_first : Scanning
at_first = record {
  ret = [];
  current_span = span 0 0;
  current_section = invalid;
  current_field = invalid;
  state = on_none;
  len_at_last_space = 0;
  equals_location = 0;
}

module _ (m : Memory) where
  -- The spans of a value behind its equals sign.
  unfoldable pub end_value : Scanning → Option (List HighlightSpan)
  end_value st =
      let equals = span st.equals_location 1 in
      if not (st.current_span.len == 0)
      then highlight_value m (append st.ret equals delimiter)
          (span st.current_span.s st.len_at_last_space) st.current_field
      else some (append st.ret equals error)

  -- What ends at the end of a line, before a comment, or at the end of all: the spans and the section.
  unfoldable pub end_item : State → Scanning → Option (List HighlightSpan × Field)
  end_item on_key st =
      some (append st.ret (span st.current_span.s st.len_at_last_space) error, st.current_section)
  end_item on_value st = paired (end_value st)
    where
      paired : Option (List HighlightSpan) → Option (List HighlightSpan × Field)
      paired none = none
      paired (some ret) = some (ret, st.current_section)
  end_item on_section st =
      let current = span st.current_span.s st.len_at_last_space in
      let found = section_type m current in
      some (append st.ret current (validate_highlight (not (is_invalid found)) section), found)
  end_item on_comment st = some (append st.ret st.current_span comment, st.current_section)
  end_item on_none st = some (st.ret, st.current_section)

  -- What follows it: a comment, or the next line.
  unfoldable pub next_item :
      (i : ℕ) → Option (List HighlightSpan × Field) → Scanning → Option Scanning
  next_item i none st = none
  next_item i (some (ret, found)) st = some (record st {
    ret = ret;
    current_section = found;
    len_at_last_space = 0;
    current_field = invalid;
    current_span = if m i == b'#' then span i 1 else span (suc i) 0;
    state = if m i == b'#' then on_comment else on_none;
  })

  -- An equals sign behind a key.
  unfoldable pub end_key : (i : ℕ) → Scanning → Scanning
  end_key i st =
      let current = span st.current_span.s st.len_at_last_space in
      let found = field_of m current in
      let expected = section_for_field found in
      record st {
        ret = append st.ret current (
            if is_invalid expected
              || is_invalid found
              || not (same_section expected st.current_section)
            then error
            else field);
        current_field = found;
        equals_location = i;
        current_span = span (suc i) 0;
        state = on_value;
      }

  unfoldable pub begun : State → (is_bracket : Bool) → State
  begun on_none is_bracket = if is_bracket then on_section else on_key
  begun state is_bracket = state

  -- The branches of the loop but the first, which may fail.
  unfoldable pub within_item : (i : ℕ) → Scanning → Scanning
  within_item i st =
      if is_on_comment st.state
      then record st { current_span = span st.current_span.s (suc st.current_span.len) }
      else (if m i == b' ' || m i == b'\t'
          then (if i == st.current_span.s && st.current_span.len == 0
              then record st { current_span = span (suc st.current_span.s) 0 }
              else record st { current_span = span st.current_span.s (suc st.current_span.len) })
          else (if m i == b'=' && is_on_key st.state then end_key i st else record st {
            state = begun st.state (m i == b'[');
            current_span = span st.current_span.s (suc st.current_span.len);
            len_at_last_space = suc st.current_span.len;
          }))

  unfoldable pub scan_byte : (i : ℕ) → Scanning → Option Scanning
  scan_byte i st =
      if m i == b'\n' || not (is_on_comment st.state) && m i == b'#'
      then next_item i (end_item st.state st) st
      else some (within_item i st)

  -- The spans at the end.
  unfoldable pub scanned : Option (List HighlightSpan × Field) → Option (List HighlightSpan)
  scanned none = none
  scanned (some (ret, _)) = some ret

  unfoldable pub scan_from : (rounds i : ℕ) → Option Scanning → Option (List HighlightSpan)
  scan_from rounds i none = none
  scan_from zero i (some st) = scanned (end_item st.state st)
  scan_from (suc rounds) i (some st) = scan_from rounds (suc i) (scan_byte i st)

-- On memory in which a configuration of `len` bytes begins.
unfoldable pub highlight_memory : Memory → (len : ℕ) → Option (List HighlightSpan)
highlight_memory m len = scan_from m len 0 (some at_first)

-- The bytes of the configuration, and 0 behind them.
unfoldable pub highlight_config : Text → Option (List HighlightSpan)
highlight_config config = highlight_memory (λ i. get_or config i 0) (length config)
