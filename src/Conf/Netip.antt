-- ===== src/Conf/Netip.antt =====
-- What conf uses of Go's package net/netip, on addresses as numbers of 32 and of 128 bits.
use wireroute_windows.Base.{
  ℕ, suc, ◌+◌, ◌*◌, ◌-◌, ◌/◌, ◌^◌, ◌≡◌, ◌↔◌, Bool, true, false, ◌&&◌, ◌==◌, leb, arith,
  if◌then◌else◌, [],
}
use wireroute_windows.Base.Text.{Text, same, same_iff}

pub data Addr : Type 0 where
  zero_addr : Addr
  v4 : ℕ → Addr
  v6 : ℕ → Text → Addr

unfoldable pub bit_len : Addr → ℕ
bit_len zero_addr = 0
bit_len (v4 n) = 32
bit_len (v6 n zone) = 128

unfoldable pub is6 : Addr → Bool
is6 (v6 n zone) = true
is6 _ = false

unfoldable pub is4 : Addr → Bool
is4 (v4 n) = true
is4 _ = false

unfoldable pub without_zone : Addr → Addr
without_zone (v6 n zone) = v6 n []
without_zone a = a

unfoldable pub same_addr : Addr → Addr → Bool
same_addr zero_addr zero_addr = true
same_addr (v4 m) (v4 n) = m == n
same_addr (v6 m y) (v6 n z) = m == n && same y z
same_addr _ _ = false

-- As in the package: no bits at all, and so 0 here, stand for a prefix that is not valid.
pub record Prefix : Type 0 where
  pub ip : Addr
  pub bits_plus_one : ℕ

unfoldable pub same_prefix : Prefix → Prefix → Bool
same_prefix p q = same_addr p.ip q.ip && p.bits_plus_one == q.bits_plus_one

unfoldable pub prefix_from : Addr → ℕ → Prefix
unfolding bit_len without_zone
prefix_from zero_addr bits = record { ip = zero_addr; bits_plus_one = 0 }
prefix_from a bits = record {
  ip = without_zone a;
  bits_plus_one = if leb bits (bit_len a) then bits + 1 else 0;
}

-- The first bits of a number of w bits, the others cleared.
unfoldable pub clear_host : ℕ → ℕ → ℕ → ℕ
clear_host w bits n = n / 2 ^ (w - bits) * 2 ^ (w - bits)

unfoldable pub masked : Prefix → Prefix
unfolding clear_host
masked p = masked_to p.ip p.bits_plus_one
  where
    masked_to : Addr → ℕ → Prefix
    masked_to (v4 n) (suc b) = record { ip = v4 (clear_host 32 b n); bits_plus_one = suc b }
    masked_to (v6 n zone) (suc b) = record {
      ip = v6 (clear_host 128 b n) [];
      bits_plus_one = suc b;
    }
    masked_to _ _ = record { ip = zero_addr; bits_plus_one = 0 }

-- `Prefix.Contains`: an address with a zone is in no prefix.
unfoldable pub contains_addr : Prefix → Addr → Bool
unfolding clear_host
contains_addr p a = within p.ip p.bits_plus_one a
  where
    within : Addr → ℕ → Addr → Bool
    within (v4 n) (suc b) (v4 m) = clear_host 32 b m == clear_host 32 b n
    within (v6 n zone) (suc b) (v6 m []) = clear_host 128 b m == clear_host 128 b n
    within _ _ _ = false

pub same_addr_iff : (a b : Addr) → (same_addr a b ≡ true) ↔ (a ≡ b)
unfolding same_addr
same_addr_iff (v6 m y) (v6 n z) = ground (arith, same_iff y z)
same_addr_iff _ _ = ground arith

pub same_prefix_iff : (p q : Prefix) → (same_prefix p q ≡ true) ↔ (p ≡ q)
unfolding same_prefix
same_prefix_iff p q = ground (arith, same_addr_iff p.ip q.ip)
