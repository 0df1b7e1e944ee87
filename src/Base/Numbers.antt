-- ===== src/Base/Numbers.antt =====
-- Go's integers in text: what package strconv reads.
use Prim.Native.Nat.{ℕ, zero, suc, ◌+◌, ◌*◌, ◌-◌, ◌/◌, ◌%◌, ◌^◌}
use mathlib.Core.Bool.{Bool, true, false, ◌&&◌}
use mathlib.Core.List.{[], ◌∷◌, ◌++◌}
use mathlib.Core.Option.{Option, none, some}
use wireroute_windows.Base.Lists.{length, all}
use wireroute_windows.Base.Tests.{ltb, leb, ◌==◌, if◌then◌else◌}
use wireroute_windows.Base.Text.{Text}

-- The integers, over the native numbers: `negsuc n` is -(n + 1).
pub data ℤ : Type 0 where
  pos : ℕ → ℤ
  negsuc : ℕ → ℤ

unfoldable pub is_digit : ℕ → Bool
is_digit c = leb b'0' c && leb c b'9'

unfoldable pub digits_value : ℕ → Text → ℕ
digits_value n [] = n
digits_value n (c ∷ s) = digits_value (n * 10 + (c - b'0')) s

-- Digits, at least one, of a value below the bound.
unfoldable pub parse_digits : (bound : ℕ) → Text → Option ℕ
unfolding is_digit digits_value
parse_digits bound s =
    if leb 1 (length s) && all is_digit s && ltb (digits_value 0 s) bound
    then some (digits_value 0 s)
    else none

unfoldable pub to_pos : Option ℕ → Option ℤ
to_pos (some n) = some (ℤ.pos n)
to_pos none = none

unfoldable pub to_neg : Option ℕ → Option ℤ
to_neg (some (suc n)) = some (ℤ.negsuc n)
to_neg (some zero) = some (ℤ.pos 0)
to_neg none = none

-- `strconv.Atoi`: a sign may stand in front, and the value is in the range of a 64-bit integer.
unfoldable pub atoi : Text → Option ℤ
atoi [] = none
atoi (c ∷ s) =
    if c == b'-'
    then to_neg (parse_digits (2 ^ 63 + 1) s)
    else (if c == b'+'
        then to_pos (parse_digits (2 ^ 63) s)
        else to_pos (parse_digits (2 ^ 63) (c ∷ s)))

-- `%d`. Every round divides by ten, so as many rounds as the number says are more than enough.
unfoldable pub digits : (rounds : ℕ) → ℕ → Text
digits zero n = []
digits (suc rounds) n = elim (ltb n 10) [
  | true ↦ (b'0' + n) ∷ []
  | false ↦ digits rounds (n / 10) ++ ((b'0' + n % 10) ∷ [])
]

unfoldable pub itoa : ℕ → Text
unfolding digits
itoa n = digits (suc n) n

unfoldable pub lt_int : ℤ → ℤ → Bool
lt_int (ℤ.pos a) (ℤ.pos b) = ltb a b
lt_int (ℤ.pos a) (ℤ.negsuc b) = false
lt_int (ℤ.negsuc a) (ℤ.pos b) = true
lt_int (ℤ.negsuc a) (ℤ.negsuc b) = ltb b a

unfoldable pub same_int : ℤ → ℤ → Bool
same_int (ℤ.pos a) (ℤ.pos b) = a == b
same_int (ℤ.negsuc a) (ℤ.negsuc b) = a == b
same_int _ _ = false
