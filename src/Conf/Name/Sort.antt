-- ===== src/Conf/Name/Sort.antt =====
-- The natural order of tunnel names, in conf/name.go.
pub mod Laws
use wireroute_windows.Base.{
  ℕ, ◌+◌, ◌*◌, ◌-◌, ◌^◌, List, [], ◌∷◌, ◌++◌, map, Bool, true, false, ◌&&◌, ◌||◌, ◌==◌, ltb, leb,
  length, all, if◌then◌else◌, Option, none, some,
}
use wireroute_windows.Base.Numbers.{is_digit, parse_digits}
use wireroute_windows.Base.Order.{
  Order, less, equal, greater, is_less, is_greater, lex, nat_compare,
}
use wireroute_windows.Base.Text.{Text, same, is_space, trim_left}

-- The words of `strings.Fields`, joined again by one space: the space before a word is written if a
-- word stands before it.
unfoldable pub fields_joined : (started : Bool) → (spaced : Bool) → Text → Text
unfolding is_space
fields_joined started spaced [] = []
fields_joined started spaced (c ∷ s) =
    let skip = fields_joined started started s in
    let keep = fields_joined true false s in
    if is_space c then skip else (if spaced then b' ' ∷ c ∷ keep else c ∷ keep)

unfoldable pub extend : ℕ → List Text → List Text
unfolding is_digit
extend c ((d ∷ x) ∷ xs) =
    if same_class (is_digit c) (is_digit d) then (c ∷ (d ∷ x)) ∷ xs else (c ∷ []) ∷ ((d ∷ x) ∷ xs)
  where
    same_class : Bool → Bool → Bool
    same_class true b = b
    same_class false true = false
    same_class false false = true
extend c xs = (c ∷ []) ∷ xs

-- `naturalSortDigitFinder.FindAllString(s, -1)`: the longest runs of digits and of other characters.
unfoldable pub find_all : Text → List Text
unfolding extend
find_all [] = []
find_all (c ∷ s) = extend c (find_all s)

-- `strconv.Atoi` on a run: only digits, and a value below 2^63. A run of other characters is none of
-- its numbers, since a sign is not followed by a digit there.
unfoldable pub atoi_run : Text → Option ℕ
atoi_run = parse_digits (2 ^ 63)

pub record NaturalSortToken : Type 0 where
  maybe_string : Text
  maybe_number : ℕ

unfoldable pub token_of : Text → NaturalSortToken
token_of x = of_number (atoi_run x)
  where
    of_number : Option ℕ → NaturalSortToken
    of_number (some n) = record { maybe_string = []; maybe_number = n }
    of_number none = record { maybe_string = x; maybe_number = 0 }

-- Go's order of strings. The bytes of UTF-8 are in the order of the code points.
unfoldable pub string_compare : Text → Text → Order
string_compare = lex nat_compare

-- `Cmp`, whose -1, 0 and 1 are `less`, `equal` and `greater`.
unfoldable pub token_cmp : NaturalSortToken → NaturalSortToken → Order
token_cmp f1 f2 =
    if length f1.maybe_string == 0
    then (if ltb 0 (length f2.maybe_string) || ltb f1.maybe_number f2.maybe_number
        then less
        else (if ltb f2.maybe_number f1.maybe_number then greater else equal))
    else (if length f2.maybe_string == 0
          || is_greater (string_compare f1.maybe_string f2.maybe_string)
        then greater
        else (if is_less (string_compare f1.maybe_string f2.maybe_string) then less else equal))

-- The switch of the loop, over what its later rounds return.
unfoldable pub switch_cmp : Order → Bool → Bool
switch_cmp less later = true
switch_cmp greater later = false
switch_cmp equal later = later

-- The loop of `TunnelNameIsLess`, over the tokens of b.
unfoldable pub less_tokens : List NaturalSortToken → List NaturalSortToken → Bool
unfolding switch_cmp
less_tokens na [] = false
less_tokens [] (t ∷ nb) = true
less_tokens (u ∷ na) (t ∷ nb) = switch_cmp (token_cmp u t) (less_tokens na nb)

-- `strings.ToLower` on code points.
module _ (to_lower : Text → Text) where
  unfoldable pub natural_sort_tokens : Text → List NaturalSortToken
  natural_sort_tokens s = map token_of (find_all (to_lower (fields_joined false false s)))

  unfoldable pub tunnel_name_is_less : Text → Text → Bool
  tunnel_name_is_less a b =
      if same a b then false else less_tokens (natural_sort_tokens a) (natural_sort_tokens b)
