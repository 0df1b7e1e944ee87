-- ===== src/Conf/Tests.antt =====
-- The theorems on conf at concrete inputs, and runs of its code.
pub mod Driver
pub mod RoundTrip
pub mod Samples
pub mod Config
pub mod Parser
pub mod Store
use wireroute_windows.Base.{◌≡◌, refl, map, Bool, true, false, not, ◌&&◌, leb, length, all}
use wireroute_windows.Base.Numbers.{parse_digits}
use wireroute_windows.Base.Order.{IsStrictWeakOrder, is_greater, is_less, lex, then_by, nat_compare}
use wireroute_windows.Base.Text.{Text, codes, same}
use wireroute_windows.Conf.Name.{
  ascii_lower, is_allowed, is_reserved, starts_with, ends_with, tunnel_name_is_valid, contains_any,
  has_special_chars, matches_allowed_name_format,
}
use wireroute_windows.Conf.Name.Valid.{tunnel_name_is_valid_iff}
use wireroute_windows.Conf.Name.Sort.{
  natural_sort_tokens, less_tokens, find_all, fields_joined, token_cmp, token_of, atoi_run,
  string_compare, tunnel_name_is_less,
}
use wireroute_windows.Conf.Name.Sort.Laws.{tunnel_name_is_less-IsStrictWeakOrder}

abbrev office : Text
office = codes "office-2.eu"

tunnel_name_is_valid_iff_example : tunnel_name_is_valid office ≡ (
    leb 1 (length office)
    && leb (length office) 32
    && all is_allowed office
    && not (starts_with b'.' office)
    && not (ends_with b'.' office)
    && not (is_reserved office))
tunnel_name_is_valid_iff_example = tunnel_name_is_valid_iff office

office_valid : tunnel_name_is_valid office ≡ true
unfolding tunnel_name_is_valid is_reserved has_special_chars matches_allowed_name_format
    contains_any starts_with ends_with is_allowed
office_valid = refl

device_not_valid : tunnel_name_is_valid (codes "nul.conf") ≡ false
unfolding tunnel_name_is_valid is_reserved has_special_chars matches_allowed_name_format
    contains_any starts_with ends_with is_allowed
device_not_valid = refl

unfoldable lower : Text → Text
unfolding ascii_lower
lower = map ascii_lower

tunnel_name_is_less-IsStrictWeakOrder_example : IsStrictWeakOrder (tunnel_name_is_less lower)
tunnel_name_is_less-IsStrictWeakOrder_example = tunnel_name_is_less-IsStrictWeakOrder lower

natural : tunnel_name_is_less lower (codes "site2") (codes "Site 10") ≡ true
unfolding lower natural_sort_tokens tunnel_name_is_less same less_tokens find_all fields_joined
    token_cmp token_of atoi_run parse_digits is_greater string_compare lex then_by nat_compare
    is_less
natural = refl
