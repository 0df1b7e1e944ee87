-- ===== src/Conf/RoundTrip/Values.antt =====
-- conf/parser.go behind conf/writer.go: each kind of value.
use wireroute_windows.Base.{
  ℕ, ◌≤◌, ◌≡◌, refl, ◌∙◌, ap, List, [], ◌∷◌, ◌++◌, map, append_assoc, true, false, All, some, arith,
}
use wireroute_windows.Base.Decimal.{atoi-itoa, contains-itoa}
use wireroute_windows.Base.Numbers.{ℤ, atoi, itoa, is_digit}
use wireroute_windows.Base.Pieces.{
  IsToken, IsTrimmed, IsToken-IsTrimmed, IsToken-contains, contains-append, split_at, split_none,
  trim_space-IsTrimmed, trim_space_behind_blank, trim_right-append_fixed,
}
use wireroute_windows.Base.Result.{ok}
use wireroute_windows.Base.Text.{
  Text, codes, same, contains, is_empty, is_space, into_first, split, trim_left, trim_space,
}
use wireroute_windows.Base.Trim.{trim_left_head, is_empty-append}
use wireroute_windows.Conf.Parser.{ParseError}
use wireroute_windows.Conf.Parser.Values.{
  in_range, atoi_in, parse_mtu, parse_port, parse_persistent_keepalive, trimmed_pieces, split_list,
}
use wireroute_windows.Conf.Writer.{joined}

-- What may stand behind the equals sign of a key.
abbrev pub IsValue : Text → Type 0
IsValue v = IsTrimmed v × (contains b'#' v ≡ false) × (contains b'\n' v ≡ false)

pub IsToken-IsValue : (s : Text) → IsToken s → IsValue s
IsToken-IsValue s h = (
  IsToken-IsTrimmed s h,
  IsToken-contains b'#' s (λ c b. ground arith) h,
  IsToken-contains b'\n' s (λ c b. unfold is_space in ground arith) h,
)

pub trim_left-append :
    (s t : Text)
    → is_empty s ≡ false
    → trim_left is_space s ≡ s
    → trim_left is_space (s ++ t) ≡ s ++ t
trim_left-append [] t e h = absurd (ground arith)
trim_left-append (c ∷ s) t e h =
    let kept = trim_left_head is_space (c ∷ s) c s h in unfold trim_left in rw kept refl

pub IsValue-append :
    (s m t : Text)
    → IsValue s
    → IsValue t
    → contains b'#' m ≡ false
    → contains b'\n' m ≡ false
    → IsValue (s ++ m ++ t)
IsValue-append s m t ((e, l, r), hash, line) ((f, k, q), hash_t, line_t) hash_m line_m =
    let first = is_empty-append (s ++ m) t f in
    (
      (
        first,
        trim_left-append (s ++ m) t (nonempty s m e) (trim_left-append s m e l),
        trim_right-append_fixed is_space (s ++ m) t q f,
      ),
      contains-append b'#' (s ++ m) t (contains-append b'#' s m hash hash_m) hash_t,
      contains-append b'\n' (s ++ m) t (contains-append b'\n' s m line line_m) line_t,
    )
  where
    nonempty : (s m : Text) → is_empty s ≡ false → is_empty (s ++ m) ≡ false
    nonempty [] m h = absurd (ground arith)
    nonempty (c ∷ s) m h = refl

atoi_in-itoa :
    (low high n : ℕ) (e : ParseError)
    → low ≤ n
    → n ≤ high
    → high ≤ 65535
    → atoi_in low high e (itoa n) ≡ ok n
unfolding atoi_in in_range
atoi_in-itoa low high n e l h k =
    let read : atoi (itoa n) ≡ some (ℤ.pos n) = atoi-itoa n (omega arith) in rw read (ground arith)

pub parse_mtu-itoa : (n : ℕ) → 576 ≤ n → n ≤ 65535 → parse_mtu (itoa n) ≡ ok n
unfolding parse_mtu
parse_mtu-itoa n l h = atoi_in-itoa 576 65535 n _ l h (omega arith)

pub parse_port-itoa : (n : ℕ) → n ≤ 65535 → parse_port (itoa n) ≡ ok n
unfolding parse_port
parse_port-itoa n h = atoi_in-itoa 0 65535 n _ (omega arith) h (omega arith)

same-contains : (c : ℕ) (s t : Text) → contains c s ≡ false → contains c t ≡ true → same s t ≡ false
unfolding contains same
same-contains c [] [] h k = ground arith
same-contains c [] (y ∷ t) h k = refl
same-contains c (x ∷ s) [] h k = refl
same-contains c (x ∷ s) (y ∷ t) h k = ground (arith, same-contains c s t)

pub parse_persistent_keepalive-itoa :
    (n : ℕ) → n ≤ 65535 → parse_persistent_keepalive (itoa n) ≡ ok n
unfolding parse_persistent_keepalive
parse_persistent_keepalive-itoa n h =
    let other = contains-itoa b'o' (λ c d. unfold is_digit in ground arith) n in
    rw (same-contains b'o' (itoa n) (codes "off") other (unfold contains in refl))
      (atoi_in-itoa 0 65535 n _ (omega arith) h (omega arith))

-- The pieces behind the first begin with a blank.
abbrev blank : Text → Text
blank t = b' ' ∷ t

no_comma : (t : Text) → IsToken t → contains b',' t ≡ false
no_comma t h = IsToken-contains b',' t (λ c b. ground arith) h

split-joined :
    (t : Text) (texts : List Text)
    → All IsToken (t ∷ texts)
    → split b',' (joined (t ∷ texts)) ≡ t ∷ map blank texts
unfolding joined into_first
split-joined t [] h = split_none b',' t (no_comma t (h.0))
split-joined t (u ∷ texts) (h, hs) =
    let behind = blank (joined (u ∷ texts)) in
    ap (split b',') (append_assoc t (codes ", ") (joined (u ∷ texts)))
    ∙ split_at b',' t behind (no_comma t h)
    ∙ ap (λ r. t ∷ r)
        (blank_first (joined (u ∷ texts)) ∙ ap (into_first b' ') (split-joined u texts hs))
  where
    blank_first : (w : Text) → split b',' (blank w) ≡ into_first b' ' (split b',' w)
    blank_first w = unfold split in refl

trimmed_pieces_step :
    (whole piece t : Text) (pieces texts : List Text)
    → IsToken t
    → trim_space piece ≡ t
    → trimmed_pieces whole pieces ≡ ok texts
    → trimmed_pieces whole (piece ∷ pieces) ≡ ok (t ∷ texts)
unfolding trimmed_pieces
trimmed_pieces_step whole piece t pieces texts h e k = rw e (rw (h.0) (rw k refl))

trimmed_pieces-blank :
    (whole : Text) (texts : List Text)
    → All IsToken texts
    → trimmed_pieces whole (map blank texts) ≡ ok texts
trimmed_pieces-blank whole [] h = unfold trimmed_pieces in refl
trimmed_pieces-blank whole (t ∷ texts) (h, hs) =
    trimmed_pieces_step whole (blank t) t (map blank texts) texts h
      (trim_space_behind_blank t (IsToken-IsTrimmed t h)) (trimmed_pieces-blank whole texts hs)

-- A list of tokens is read back.
pub split_list-joined :
    (t : Text) (texts : List Text)
    → All IsToken (t ∷ texts)
    → split_list (joined (t ∷ texts)) ≡ ok (t ∷ texts)
unfolding split_list
split_list-joined t texts h =
    let whole = joined (t ∷ texts) in
    ap (trimmed_pieces whole) (split-joined t texts h)
    ∙ trimmed_pieces_step whole t t (map blank texts) texts h.0
        (trim_space-IsTrimmed t (IsToken-IsTrimmed t h.0)) (trimmed_pieces-blank whole texts h.1)

pub joined-IsValue :
    (t : Text) (texts : List Text) → All IsToken (t ∷ texts) → IsValue (joined (t ∷ texts))
unfolding joined
joined-IsValue t [] h = IsToken-IsValue t (h.0)
joined-IsValue t (u ∷ texts) (h, hs) =
    IsValue-append t (codes ", ") (joined (u ∷ texts)) (IsToken-IsValue t h)
      (joined-IsValue u texts hs) (unfold contains in refl) (unfold contains in refl)
