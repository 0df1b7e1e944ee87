-- ===== src/Conf/Parser/Comments.antt =====
-- conf/parser.go: the comments of a section.
pub mod Pruned
use wireroute_windows.Base.{
  ℕ, List, [], ◌∷◌, ◌++◌, map, reverse, Bool, true, false, not, ◌&&◌, ◌||◌, ◌==◌, if◌then◌else◌,
  drop, take, length, ◌-◌,
}
use wireroute_windows.Base.Map.{put}
use wireroute_windows.Base.Text.{Text, codes, same, is_empty}
use wireroute_windows.Conf.Config.{Comments, SectionComments}

abbrev pub no_comment : Comments
no_comment = record { before = []; suffix = [] }

-- A lookup in the map of a section's lines: the zero value if the key is missing.
unfoldable pub comments_of : Text → List (Text × Comments) → Comments
comments_of key [] = no_comment
comments_of key (l ∷ lines) = if same key l.0 then l.1 else comments_of key lines

-- Comments found above a line and behind it, added to those that it has.
unfoldable pub add_comments : List Text → Text → Comments → Comments
add_comments pending comment c = record {
  before = c.before ++ pending;
  suffix = joined (is_empty comment) (is_empty c.suffix);
}
  where
    joined : Bool → Bool → Text
    joined true _ = c.suffix
    joined false true = comment
    joined false false = c.suffix ++ codes " " ++ comment

unfoldable pub add_line_comments : Text → List Text → Text → SectionComments → SectionComments
add_line_comments key pending comment section =
    if not (length pending == 0) || not (is_empty comment)
    then record section {
      lines = put key (add_comments pending comment (comments_of key section.lines)) section.lines;
    }
    else section

-- Is the last of the lines there, and blank?
unfoldable pub ends_blank : List Text → Bool
ends_blank [] = false
ends_blank (line ∷ []) = is_empty line
ends_blank (line ∷ (next ∷ run)) = ends_blank (next ∷ run)

unfoldable pub starts_blank : List Text → Bool
starts_blank [] = false
starts_blank (line ∷ run) = is_empty line

-- The loop of `pruneComments`: a blank line goes if one stands at the end of what is kept.
unfoldable pub squeeze : (out : List Text) → List Text → List Text
squeeze out [] = out
squeeze out (line ∷ run) =
    squeeze (if is_empty line && ends_blank out then out else out ++ (line ∷ [])) run

unfoldable pub trim_leading : Bool → List Text → List Text
trim_leading drop_leading out = if drop_leading && starts_blank out then drop 1 out else out

unfoldable pub trim_trailing : Bool → List Text → List Text
trim_trailing drop_trailing out =
    if drop_trailing && ends_blank out then take (length out - 1) out else out

unfoldable pub unless_blank : List Text → List Text
unless_blank out = if length out == 0 || length out == 1 && starts_blank out then [] else out

unfoldable pub prune_comments : List Text → (drop_leading drop_trailing : Bool) → List Text
prune_comments run drop_leading drop_trailing =
    unless_blank (trim_trailing drop_trailing (trim_leading drop_leading (squeeze [] run)))

-- The loop over the lines of a section: what is left without a comment goes.
unfoldable pub prune_lines : List (Text × Comments) → List (Text × Comments)
prune_lines [] = []
prune_lines (l ∷ lines) =
    let rest = prune_lines lines in
    let before = prune_comments l.1.before false false in
    if length before == 0 && is_empty l.1.suffix
    then rest
    else (l.0, record (l.1) { before = before }) ∷ rest

unfoldable pub prune_section_comments : SectionComments → SectionComments
prune_section_comments s = record {
  header = record (s.header) { before = prune_comments s.header.before true false };
  lines = prune_lines s.lines;
}
