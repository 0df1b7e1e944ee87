-- ===== src/Conf/Name.antt =====
-- conf/name.go, names as lists of code points.
pub mod Valid
pub mod Sort
use Prim.Native.String.{String}
use wireroute_windows.Base.{
  ℕ, ◌+◌, ◌-◌, ◌≤◌, List, [], ◌∷◌, ◌++◌, map, Bool, true, false, not, ◌&&◌, ◌||◌, ◌==◌, leb, length,
  any, all, if◌then◌else◌,
}
use wireroute_windows.Base.Result.{Result, ok, err}
use wireroute_windows.Base.Text.{Text, codes, same, contains, cut}

unfoldable pub reserved_names : List Text
reserved_names =
    codes "CON"
    ∷ codes "PRN"
    ∷ codes "AUX"
    ∷ codes "NUL"
    ∷ codes "COM1"
    ∷ codes "COM2"
    ∷ codes "COM3"
    ∷ codes "COM4"
    ∷ codes "COM5"
    ∷ codes "COM6"
    ∷ codes "COM7"
    ∷ codes "COM8"
    ∷ codes "COM9"
    ∷ codes "LPT1"
    ∷ codes "LPT2"
    ∷ codes "LPT3"
    ∷ codes "LPT4"
    ∷ codes "LPT5"
    ∷ codes "LPT6"
    ∷ codes "LPT7"
    ∷ codes "LPT8"
    ∷ codes "LPT9"
    ∷ []

abbrev pub service_name_forbidden : Text
service_name_forbidden = b'$' ∷ []

abbrev pub netshell_dll_forbidden : Text
netshell_dll_forbidden = codes "\\/:*?\"<>|\t"

-- The control characters from 1 to 31, and 0.
abbrev pub special_chars : Text
special_chars =
    codes "/\\<>:\"|?*"
    ++ (1 ∷ 2 ∷ 3 ∷ 4 ∷ 5 ∷ 6 ∷ 7 ∷ 8 ∷ 9 ∷ 10 ∷ 11 ∷ 12 ∷ 13 ∷ 14 ∷ 15 ∷ 16 ∷ 17 ∷ 18 ∷ 19 ∷ 20
        ∷ 21 ∷ 22 ∷ 23 ∷ 24 ∷ 25 ∷ 26 ∷ 27 ∷ 28 ∷ 29 ∷ 30 ∷ 31 ∷ 0 ∷ [])

unfoldable pub ascii_lower : ℕ → ℕ
ascii_lower c = if leb b'A' c && leb c b'Z' then c + 32 else c

-- `strings.EqualFold` against a reserved name. None of their letters is the fold of a character
-- outside ASCII (only K and S are), so folding ASCII is all that there is to it.
unfoldable pub equal_fold : Text → Text → Bool
unfolding ascii_lower same
equal_fold a b = same (map ascii_lower a) (map ascii_lower b)

unfoldable pub is_reserved : Text → Bool
unfolding reserved_names equal_fold cut
is_reserved name = any (equal_fold (cut b'.' name).0) reserved_names

unfoldable pub contains_any : Text → Text → Bool
unfolding contains
contains_any s chars = any (λ c. contains c chars) s

-- `strings.HasPrefix(s, ".")` and `strings.HasSuffix(s, ".")`, for one character.
unfoldable pub starts_with : ℕ → Text → Bool
starts_with c [] = false
starts_with c (d ∷ s) = d == c

unfoldable pub ends_with : ℕ → Text → Bool
ends_with c [] = false
ends_with c (d ∷ []) = d == c
ends_with c (d ∷ (e ∷ s)) = ends_with c (e ∷ s)

unfoldable pub has_special_chars : Text → Bool
has_special_chars name =
    contains_any name special_chars
    || contains_any name netshell_dll_forbidden
    || contains_any name service_name_forbidden
    || starts_with b'.' name
    || ends_with b'.' name

-- The characters of `allowedNameFormat`.
unfoldable pub is_allowed : ℕ → Bool
is_allowed c =
    leb b'a' c && leb c b'z'
    || leb b'A' c && leb c b'Z'
    || leb b'0' c && leb c b'9'
    || c == b'_'
    || c == b'='
    || c == b'+'
    || c == b'.'
    || c == b'-'

unfoldable pub matches_allowed_name_format : Text → Bool
matches_allowed_name_format name =
    leb 1 (length name) && leb (length name) 32 && all is_allowed name

unfoldable pub tunnel_name_is_valid : Text → Bool
tunnel_name_is_valid name =
    if is_reserved name || has_special_chars name then false else matches_allowed_name_format name

-- Why a name has no service.
pub data NameError : Type 0 where
  name_not_valid : NameError

unfoldable pub service_name_of_tunnel : Text → Result NameError Text
service_name_of_tunnel name =
    if not (tunnel_name_is_valid name)
    then err name_not_valid
    else ok (codes "WireGuardTunnel$" ++ name)
