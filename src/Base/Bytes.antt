-- ===== src/Base/Bytes.antt =====
-- Machine words as bytes, the lowest byte first: what package binary calls LittleEndian.
use Prim.Native.Nat.{ℕ, zero, suc, ◌+◌, ◌*◌, ◌/◌, ◌%◌, ◌^◌, ◌<◌}
use mathlib.Core.List.{List, [], ◌∷◌}
use mathlib.Core.Path.{◌≡◌, refl, ap}
use native.Mathlib.Omega.{arith}
use wireroute_windows.Base.Lists.{length}

-- n bytes of a number.
unfoldable pub little_endian : ℕ → ℕ → List ℕ
little_endian zero v = []
little_endian (suc n) v = v % 256 ∷ little_endian n (v / 256)

unfoldable pub from_little_endian : List ℕ → ℕ
from_little_endian [] = 0
from_little_endian (b ∷ bytes) = b + 256 * from_little_endian bytes

pub length-little_endian : (n v : ℕ) → length (little_endian n v) ≡ n
unfolding little_endian
length-little_endian zero v = refl
length-little_endian (suc n) v = ap suc (length-little_endian n (v / 256))

pub from_little_endian-little_endian :
    (v : ℕ) → v < 2 ^ 32 → from_little_endian (little_endian 4 v) ≡ v
unfolding little_endian from_little_endian
from_little_endian-little_endian v h = omega arith
