-- ===== src/Base/Decimal.antt =====
-- A number that is printed with `%d` is read back by `strconv.Atoi`.
use wireroute_windows.Base.{
  ℕ, zero, suc, ◌+◌, ◌*◌, ◌-◌, ◌/◌, ◌%◌, ◌^◌, ◌<◌, ◌≡◌, refl, ◌∙◌, [], ◌∷◌, ◌++◌, true, false, ◌==◌,
  ltb, all, any, some, Bool-cases, inl, inr, arith,
}
use wireroute_windows.Base.Numbers.{
  ℤ, is_digit, digits_value, parse_digits, to_pos, atoi, digits, itoa,
}
use wireroute_windows.Base.Pieces.{IsToken, is_break}
use wireroute_windows.Base.Text.{Text, is_empty, is_space, contains}
use wireroute_windows.Base.Trim.{all-append, is_empty-append}

digits_value-append :
    (a : ℕ) (s t : Text) → digits_value a (s ++ t) ≡ digits_value (digits_value a s) t
unfolding digits_value
digits_value-append a [] t = refl
digits_value-append a (c ∷ s) t = digits_value-append (a * 10 + (c - b'0')) s t

digits_one : (rounds n : ℕ) → ltb n 10 ≡ true → digits (suc rounds) n ≡ (b'0' + n) ∷ []
unfolding digits
digits_one rounds n e = ground arith

digits_more :
    (rounds n : ℕ)
    → ltb n 10 ≡ false
    → digits (suc rounds) n ≡ digits rounds (n / 10) ++ ((b'0' + n % 10) ∷ [])
unfolding digits
digits_more rounds n e = ground arith

digits_value-digits : (rounds n : ℕ) → n < rounds → digits_value 0 (digits rounds n) ≡ n
digits_value-digits zero n h = absurd (omega arith)
digits_value-digits (suc rounds) n h = elim (Bool-cases (ltb n 10)) [
  | inl e ↦ rw (digits_one rounds n e) (unfold digits_value in ground arith)
  | inr e ↦
      let shorter : n / 10 < rounds = ground arith in
      rw (digits_more rounds n e) (
        digits_value-append 0 (digits rounds (n / 10)) ((b'0' + n % 10) ∷ [])
        ∙ rw (digits_value-digits rounds (n / 10) shorter) (unfold digits_value in ground arith))
]

all-digits : (rounds n : ℕ) → all is_digit (digits rounds n) ≡ true
all-digits zero n = unfold digits in refl
all-digits (suc rounds) n = elim (Bool-cases (ltb n 10)) [
  | inl e ↦ rw (digits_one rounds n e) (unfold is_digit in ground arith)
  | inr e ↦ rw (digits_more rounds n e) (
      all-append is_digit (digits rounds (n / 10)) ((b'0' + n % 10) ∷ [])
        (all-digits rounds (n / 10)) (unfold is_digit in ground arith))
]

digits_nonempty : (rounds n : ℕ) → is_empty (digits (suc rounds) n) ≡ false
digits_nonempty rounds n = elim (Bool-cases (ltb n 10)) [
  | inl e ↦ rw (digits_one rounds n e) refl
  | inr e ↦ rw (digits_more rounds n e) (is_empty-append (digits rounds (n / 10)) _ refl)
]

any-is_break : (s : Text) → all is_digit s ≡ true → any is_break s ≡ false
unfolding is_digit is_space
any-is_break [] h = refl
any-is_break (c ∷ s) h = ground (arith, any-is_break s)

pub itoa-IsToken : (n : ℕ) → IsToken (itoa n)
unfolding itoa
itoa-IsToken n = (digits_nonempty n n, any-is_break (digits (suc n) n) (all-digits (suc n) n))

module _ (sep : ℕ) (other : (c : ℕ) → is_digit c ≡ true → (c == sep) ≡ false) where
  no_digit : (s : Text) → all is_digit s ≡ true → contains sep s ≡ false
  unfolding contains
  no_digit [] h = refl
  no_digit (c ∷ s) h = ground (arith, no_digit s, other c)

  -- A number in text has no character that is not a digit.
  pub contains-itoa : (n : ℕ) → contains sep (itoa n) ≡ false
  unfolding itoa
  contains-itoa n = no_digit (digits (suc n) n) (all-digits (suc n) n)

atoi-digits :
    (s : Text) (n : ℕ)
    → is_empty s ≡ false
    → all is_digit s ≡ true
    → digits_value 0 s ≡ n
    → n < 2 ^ 63
    → atoi s ≡ some (ℤ.pos n)
unfolding atoi parse_digits to_pos is_digit
atoi-digits [] n e h v k = ground arith
atoi-digits (c ∷ s) n e h v k = ground arith

pub atoi-itoa : (n : ℕ) → n < 2 ^ 63 → atoi (itoa n) ≡ some (ℤ.pos n)
unfolding itoa
atoi-itoa n k =
    atoi-digits (digits (suc n) n) n (digits_nonempty n n) (all-digits (suc n) n)
      (digits_value-digits (suc n) n (omega arith)) k
