-- ===== src/Conf/RoundTrip/Lines.antt =====
-- conf/parser.go behind conf/writer.go: one line of a key.
use wireroute_windows.Base.{
  ℕ, ◌≡◌, refl, sym, ap, ◌∙◌, [], ◌∷◌, ◌++◌, append_assoc, true, false, if◌then◌else◌, arith,
}
use wireroute_windows.Base.Pieces.{
  IsTrimmed, contains-append, cut_none, cut_at, split_at, trim_space_behind_blank,
  trim_right-append_fixed, trim_right_behind,
}
use wireroute_windows.Base.Result.{Result, ok}
use wireroute_windows.Base.Text.{
  Text, codes, contains, is_empty, is_space, cut, split, trim_left, trim_right, trim_space,
}
use wireroute_windows.Base.Trim.{is_empty-append}
use wireroute_windows.Conf.Parser.{ParseError, Library}
use wireroute_windows.Conf.Parser.Quick.{
  Parsing, is_not_in_a_section, is_script_key, set_key, key_line, line_comment, code_line,
  parse_line, parse_lines,
}
use wireroute_windows.Conf.RoundTrip.Values.{IsValue, trim_left-append}

-- Reading a text from a state of the parser.
abbrev pub reads : Library → Parsing → Text → Result ParseError Parsing
reads lib st text = parse_lines lib st (split b'\n' text)

-- The text takes the parser from one state to the other, whatever follows it.
pub record Moves (lib : Library) (st : Parsing) (text : Text) (next : Parsing) : Type 0 where
  pub behind : (rest : Text) → reads lib st (text ++ rest) ≡ reads lib next rest

infixl 4 ◌then_reads◌
pub ◌then_reads◌ :
    {lib : Library} {st mid next : Parsing} {s t : Text}
    → Moves lib st s mid
    → Moves lib mid t next
    → Moves lib st (s ++ t) next
◌then_reads◌ {lib} {st} {mid} {next} {s} {t} h k = record {
  behind = λ rest. ap (reads lib st) (append_assoc s t rest) ∙ h.behind (t ++ rest) ∙ k.behind rest;
}

module _ (lib : Library) where
  pub Moves-line :
      (st next : Parsing) (line : Text)
      → contains b'\n' line ≡ false
      → parse_line lib st line ≡ ok next
      → Moves lib st (line ++ codes "\n") next
  Moves-line st next line h k = record {
    behind = λ rest.
        ap (reads lib st) (append_assoc line (codes "\n") rest)
        ∙ ap (parse_lines lib st) (split_at b'\n' line rest h)
        ∙ parse_lines_step rest;
  }
    where
      parse_lines_step :
          (rest : Text) → parse_lines lib st (line ∷ split b'\n' rest) ≡ reads lib next rest
      parse_lines_step rest = unfold parse_lines in rw k refl

-- A key as the writer spells it, and as the parser has it.
pub record IsKeyName (lib : Library) (name key : Text) : Type 0 where
  pub nonempty : is_empty name ≡ false
  pub begins : trim_left is_space name ≡ name
  pub ends : trim_space (name ++ codes " ") ≡ name
  pub no_equals : contains b'=' name ≡ false
  pub no_sharp : contains b'#' name ≡ false
  pub no_newline : contains b'\n' name ≡ false
  pub lower : lib.to_lower name ≡ key

cut_behind :
    (sep : ℕ) (s t : Text) → contains sep s ≡ false → (cut sep (s ++ t)).0 ≡ s ++ (cut sep t).0
unfolding contains cut
cut_behind sep [] t h = refl
cut_behind sep (c ∷ s) t h = ground (arith, cut_behind sep s t)

-- The line of a key and a value, with the equals sign in view.
abbrev pub line_of : (name value : Text) → Text
line_of name value = name ++ codes " " ++ b'=' ∷ b' ' ∷ value

pub line_of_lem : (name value : Text) → name ++ codes " = " ++ value ≡ line_of name value
line_of_lem name value =
    append_assoc name (codes " = ") value
    ∙ sym (append_assoc name (codes " ") (b'=' ∷ b' ' ∷ value))

module _ (lib : Library) (name key : Text) (named : IsKeyName lib name key) where
  abbrev front : Text
  front = name ++ codes " "

  front_no_equals : contains b'=' front ≡ false
  front_no_equals = contains-append b'=' name (codes " ") named.no_equals (unfold contains in refl)

  front_no_sharp : contains b'#' front ≡ false
  front_no_sharp = contains-append b'#' name (codes " ") named.no_sharp (unfold contains in refl)

  pub line_no_newline :
      (v : Text) → contains b'\n' v ≡ false → contains b'\n' (line_of name v) ≡ false
  line_no_newline v h =
      contains-append b'\n' front (b'=' ∷ b' ' ∷ v)
        (contains-append b'\n' name (codes " ") named.no_newline (unfold contains in refl))
        (unfold contains in h)

  -- White space behind the key's value goes.
  trim_space-front :
      (w : Text) → trim_space (front ++ b'=' ∷ w) ≡ front ++ b'=' ∷ trim_right is_space w
  unfolding trim_space
  trim_space-front w =
      ap (trim_right is_space) (
        ap (trim_left is_space) (append_assoc name (codes " ") (b'=' ∷ w))
        ∙ trim_left-append name (b' ' ∷ b'=' ∷ w) named.nonempty named.begins
        ∙ sym (append_assoc name (codes " ") (b'=' ∷ w)))
      ∙ trim_right_behind is_space front b'=' w (unfold is_space in refl)

  code_line_lem :
      (line comment w : Text) (st : Parsing)
      → let stripped = front ++ b'=' ∷ w in
        code_line lib line stripped comment st ≡ key_line lib line stripped key w true comment st
  unfolding code_line
  code_line_lem line comment w st =
      rw (cut_at b'=' front w front_no_equals) (rw named.ends (rw named.lower (ground arith)))

  key_line_lem :
      (line stripped w comment v : Text) (st : Parsing)
      → is_not_in_a_section st.parser_state ≡ false
      → trim_space (if is_script_key key then (cut b'=' line).1 else w) ≡ v
      → is_empty v ≡ false
      → key_line lib line stripped key w true comment st
        ≡ set_key st.parser_state lib key v (if is_script_key key then [] else comment) st
  unfolding key_line
  key_line_lem line stripped w comment v st section e n = rw section (rw e (rw n refl))

  -- A line whose code, in front of a sharp, has the key and the equals sign.
  parse_line_at :
      (line w v : Text) (st : Parsing)
      → (cut b'#' line).0 ≡ front ++ b'=' ∷ w
      → is_not_in_a_section st.parser_state ≡ false
      → trim_space (if is_script_key key then (cut b'=' line).1 else trim_right is_space w) ≡ v
      → is_empty v ≡ false
      → parse_line lib st line
        ≡ set_key st.parser_state lib key v
            (if is_script_key key then [] else line_comment (cut b'#' line))
            st
  unfolding parse_line cut
  parse_line_at line w v st code section e n =
      let comment = line_comment (cut b'#' line) in
      let stripped = front ++ b'=' ∷ trim_right is_space w in
      let nonempty : is_empty stripped ≡ false =
        is_empty-append front (b'=' ∷ trim_right is_space w) refl in
      rw code (
        rw (trim_space-front w) (
          rw nonempty (
            code_line_lem line comment (trim_right is_space w) st
            ∙ key_line_lem line stripped (trim_right is_space w) comment v st section e n)))

  value_behind_blank : (v : Text) → IsTrimmed v → trim_right is_space (b' ' ∷ v) ≡ b' ' ∷ v
  value_behind_blank v (e, l, r) = trim_right-append_fixed is_space (b' ' ∷ []) v r e

  -- A value behind a key that is no script's.
  pub parse_line-value :
      (v : Text) (st : Parsing)
      → IsValue v
      → is_script_key key ≡ false
      → is_not_in_a_section st.parser_state ≡ false
      → parse_line lib st (line_of name v) ≡ set_key st.parser_state lib key v [] st
  parse_line-value v st (t, hash, newline) script section =
      let line = line_of name v in
      let no_sharp =
        contains-append b'#' front (b'=' ∷ b' ' ∷ v) front_no_sharp (unfold contains in hash) in
      let whole = cut_none b'#' line no_sharp in
      parse_line_at line (b' ' ∷ v) v st (ap (λ r. r.0) whole) section
        (rw script (rw (value_behind_blank v t) (trim_space_behind_blank v t))) (t.0)
      ∙ rw script (rw whole (unfold line_comment in refl))

  -- A script is read up to the end of its line, whatever sharps it has.
  pub parse_line-script :
      (v : Text) (st : Parsing)
      → IsTrimmed v
      → is_script_key key ≡ true
      → is_not_in_a_section st.parser_state ≡ false
      → parse_line lib st (line_of name v) ≡ set_key st.parser_state lib key v [] st
  parse_line-script v st t script section =
      let line = line_of name v in
      let w = (cut b'#' (b' ' ∷ v)).0 in
      let behind = ap (λ r. r.1) (cut_at b'=' front (b' ' ∷ v) front_no_equals) in
      parse_line_at line w v st
        (cut_behind b'#' front (b'=' ∷ b' ' ∷ v) front_no_sharp ∙ unfold cut in refl) section
        (rw script (ap trim_space behind ∙ trim_space_behind_blank v t)) (t.0)
      ∙ rw script refl
