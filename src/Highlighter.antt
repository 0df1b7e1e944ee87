-- ===== src/Highlighter.antt =====
-- ui/syntax/highlighter.go: the bytes of memory, and spans of them.
pub mod Validators
pub mod Fields
pub mod Values
pub mod Scan
pub mod Laws
pub mod Tests
use wireroute_windows.Base.{
  ℕ, zero, suc, ◌+◌, ◌-◌, ◌/◌, ◌%◌, List, [], ◌∷◌, Bool, true, false, ◌&&◌, ◌||◌, ◌==◌, leb, length,
  if◌then◌else◌,
}
use wireroute_windows.Base.Text.{Text}

pub data Highlight : Type 0 where
  section field private_key public_key preshared_key ip cidr host port mtu keepalive comment :
      Highlight
  delimiter table cmd error : Highlight

unfoldable pub validate_highlight : Bool → Highlight → Highlight
validate_highlight true t = t
validate_highlight false t = error

pub record HighlightSpan : Type 0 where
  pub t : Highlight
  pub s : ℕ
  pub len : ℕ

-- The bytes by their addresses, counted from that of the configuration. Behind it stands a 0, and
-- behind that whatever is there.
abbrev pub Memory : Type 0
Memory = ℕ → ℕ

pub record StringSpan : Type 0 where
  pub s : ℕ
  pub len : ℕ

abbrev pub span : ℕ → ℕ → StringSpan
span s len = record { s = s; len = len }

-- `c | 32`, of a byte.
unfoldable pub or32 : ℕ → ℕ
or32 c = if c / 32 % 2 == 0 then c + 32 else c

unfoldable pub is_decimal : ℕ → Bool
is_decimal c = leb b'0' c && leb c b'9'

unfoldable pub is_hexadecimal : ℕ → Bool
is_hexadecimal c = is_decimal c || leb b'a' (or32 c) && leb (or32 c) b'f'

unfoldable pub is_alphabet : ℕ → Bool
is_alphabet c = leb b'a' (or32 c) && leb (or32 c) b'z'

-- A small letter as a capital one: `a &= 95` under its test.
unfoldable pub capital : ℕ → ℕ
capital a = if leb b'a' a && leb a b'z' then a - 32 else a

module _ (m : Memory) where
  abbrev pub at : StringSpan → ℕ → ℕ
  at sp i = m (sp.s + i)

  -- Do the bytes from an address on, each changed by `f`, agree with those of a text?
  unfoldable pub agrees : (f : ℕ → ℕ) → (address : ℕ) → Text → Bool
  agrees f address [] = true
  agrees f address (c ∷ cs) = f (m address) == f c && agrees f (suc address) cs

  unfoldable pub is_same : StringSpan → Text → Bool
  is_same sp c = sp.len == length c && agrees (λ a. a) sp.s c

  unfoldable pub is_caseless_same : StringSpan → Text → Bool
  is_caseless_same sp c = sp.len == length c && agrees capital sp.s c

  -- Does a test hold of n bytes?
  unfoldable pub each : (test : ℕ → Bool) → (n address : ℕ) → Bool
  each test zero address = true
  each test (suc n) address = test (m address) && each test n (suc address)
