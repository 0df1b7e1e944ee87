-- ===== src/Base/Table.antt =====
-- A fact about every number below a bound, by evaluation.
use wireroute_windows.Base.{ℕ, zero, suc, ◌<◌, ◌≡◌, Bool, true, ◌&&◌, arith}

unfoldable pub holds_below : ℕ → (ℕ → Bool) → Bool
holds_below zero p = true
holds_below (suc n) p = p n && holds_below n p

pub holds_below_sound : (n : ℕ) (p : ℕ → Bool) (x : ℕ) → holds_below n p ≡ true → x < n → p x ≡ true
unfolding holds_below
holds_below_sound zero p x h lt = elim lt [ ]
holds_below_sound (suc n) p x h lt = ground (arith, holds_below_sound n p x)
