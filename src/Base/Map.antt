-- ===== src/Base/Map.antt =====
-- A Go map from strings as the list of its entries.
use mathlib.Core.List.{List, [], ◌∷◌}
use wireroute_windows.Base.Tests.{if◌then◌else◌}
use wireroute_windows.Base.Text.{Text, same}

-- `m[key] = value`: in place of the entry of that key, or behind all.
unfoldable pub put {ℓ} : {V : Type ℓ} → Text → V → List (Text × V) → List (Text × V)
put key value [] = (key, value) ∷ []
put key value (e ∷ m) =
    let rest = put key value m in if same key e.0 then (key, value) ∷ m else e ∷ rest
