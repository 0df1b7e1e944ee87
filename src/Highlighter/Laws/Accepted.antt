-- ===== src/Highlighter/Laws/Accepted.antt =====
-- Numbers that are shown as valid, and the parser of configurations.
use wireroute_windows.Base.{
  ℕ, zero, suc, ◌+◌, ◌-◌, ◌*◌, ◌^◌, ◌≤◌, ◌<◌, ◌≡◌, refl, ap, ◌∙◌, [], ◌∷◌, true, false, ◌&&◌, ◌==◌,
  leb, arith, some, length, all,
}
use wireroute_windows.Base.Numbers.{ℤ, is_digit, digits_value, parse_digits, to_pos, atoi}
use wireroute_windows.Base.Result.{ok}
use wireroute_windows.Base.Text.{Text}
use wireroute_windows.Conf.Parser.{ParseError}
use wireroute_windows.Conf.Parser.Values.{in_range, atoi_in, parse_mtu, parse_port}
use wireroute_windows.Highlighter.{Memory, StringSpan, is_decimal, each}
use wireroute_windows.Highlighter.Validators.{
  digits_from, is_valid_uint, is_valid_mtu, is_valid_port,
}

-- The text of a span.
unfoldable pub text_of : Memory → (address n : ℕ) → Text
text_of m address zero = []
text_of m address (suc n) = m address ∷ text_of m (suc address) n

length-text_of : (m : Memory) (address n : ℕ) → length (text_of m address n) ≡ n
unfolding text_of
length-text_of m address zero = refl
length-text_of m address (suc n) = ap suc (length-text_of m (suc address) n)

all-text_of :
    (m : Memory) (address n : ℕ) → each m is_decimal n address ≡ all is_digit (text_of m address n)
unfolding each is_decimal is_digit text_of
all-text_of m address zero = refl
all-text_of m address (suc n) =
    ap (λ b. is_decimal (m address) && b) (all-text_of m (suc address) n)

digits_value-text_of :
    (m : Memory) (address n val : ℕ)
    → digits_from m 10 (λ c. c - b'0') n address val ≡ digits_value val (text_of m address n)
unfolding digits_from digits_value text_of
digits_value-text_of m address zero val = refl
digits_value-text_of m address (suc n) val =
    ap (λ v. digits_from m 10 (λ c. c - b'0') n (suc address) (v + (m address - b'0')))
      {x = 10 * val} {y = val * 10} (omega arith)
    ∙ digits_value-text_of m (suc address) n (val * 10 + (m address - b'0'))

parse_digits-digits :
    (bound : ℕ) (s : Text)
    → leb 1 (length s) ≡ true
    → all is_digit s ≡ true
    → digits_value 0 s < bound
    → parse_digits bound s ≡ some (digits_value 0 s)
unfolding parse_digits
parse_digits-digits bound s h d k = ground arith

not_a_sign : (c : ℕ) → is_digit c ≡ true → ((c == b'-') ≡ false) × ((c == b'+') ≡ false)
unfolding is_digit
not_a_sign c h = (ground arith, ground arith)

atoi_digits :
    (s : Text)
    → leb 1 (length s) ≡ true
    → all is_digit s ≡ true
    → digits_value 0 s < 2 ^ 63
    → atoi s ≡ some (ℤ.pos (digits_value 0 s))
unfolding atoi to_pos
atoi_digits [] h d k = absurd (ground arith)
atoi_digits (c ∷ s) h d k =
    let sign = not_a_sign c (ground (arith, d)) in
    rw (sign.0, sign.1, parse_digits-digits (2 ^ 63) (c ∷ s) h d k) refl

-- Digits are read as their value, where it is in the range.
atoi_in_digits :
    (low high : ℕ) (e : ParseError) (s : Text)
    → leb 1 (length s) ≡ true
    → all is_digit s ≡ true
    → low ≤ digits_value 0 s
    → digits_value 0 s ≤ high
    → high < 2 ^ 63
    → atoi_in low high e s ≡ ok (digits_value 0 s)
unfolding atoi_in in_range
atoi_in_digits low high e s h d l k b = rw (atoi_digits s h d (omega arith)) (ground arith)

module _ (m : Memory) (sp : StringSpan) where
  abbrev pub shown : Text
  shown = text_of m sp.s sp.len

  is_valid_uint-atoi_in :
      (low high : ℕ) (e : ParseError)
      → high < 2 ^ 63
      → is_valid_uint m false low high sp ≡ true
      → (v : ℕ) × (atoi_in low high e shown ≡ ok v) × (low ≤ v) × (v ≤ high)
  unfolding is_valid_uint
  is_valid_uint-atoi_in low high e b h =
      let value = digits_value-text_of m sp.s sp.len 0 in
      let digits = all-text_of m sp.s sp.len in
      let size = length-text_of m sp.s sp.len in
      let v = digits_value 0 shown in
      let low_enough : low ≤ v = ground (arith, h, value) in
      let high_enough : v ≤ high = ground (arith, h, value) in
      (
        v,
        atoi_in_digits low high e shown (ground (arith, h, size)) (ground (arith, h, digits))
            low_enough high_enough b,
        low_enough,
        high_enough,
      )

  -- An MTU that is shown as valid is one that the parser takes, as a number from 576 to 65535.
  pub is_valid_mtu-parse_mtu :
      is_valid_mtu m sp ≡ true → (v : ℕ) × (parse_mtu shown ≡ ok v) × (576 ≤ v) × (v ≤ 65535)
  unfolding is_valid_mtu parse_mtu
  is_valid_mtu-parse_mtu h = is_valid_uint-atoi_in 576 65535 _ (omega arith) h

  -- A port that is shown as valid is one that the parser takes, as a number up to 65535.
  pub is_valid_port-parse_port :
      is_valid_port m sp ≡ true → (v : ℕ) × (parse_port shown ≡ ok v) × (v ≤ 65535)
  unfolding is_valid_port parse_port
  is_valid_port-parse_port h =
      let parsed = is_valid_uint-atoi_in 0 65535 _ (omega arith) h in (parsed.0, parsed.1, parsed.3)
