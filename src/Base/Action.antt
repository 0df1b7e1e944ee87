-- ===== src/Base/Action.antt =====
-- Code that changes a state and may fail: on failure the state is what the failing call left.
use mathlib.Core.Bool.{Bool, true, false}
use mathlib.Core.List.{List, [], ◌∷◌}
use wireroute_windows.Base.Result.{Result, ok, err}

abbrev pub Action {ℓ κ} : Type ℓ → Type ℓ → Type κ → Type (ℓ ⊔ κ)
Action S E A = S → Result E A × S

module _ {S E : Type 0} where
  unfoldable pub ret : {A : Type 0} → A → Action S E A
  ret a s = (ok a, s)

  unfoldable pub fail : {A : Type 0} → E → Action S E A
  fail e s = (err e, s)

  -- What follows a call that returned `r` and left state `s`.
  abbrev pub continue : {A B : Type 0} → Result E A → S → (A → Action S E B) → Result E B × S
  continue (ok a) s f = f a s
  continue (err e) s f = (err e, s)

  infixl 5 ◌>>=◌ ◌>>◌
  unfoldable pub ◌>>=◌ : {A B : Type 0} → Action S E A → (A → Action S E B) → Action S E B
  ◌>>=◌ m f s = continue (m s).0 (m s).1 f

  abbrev pub ◌>>◌ : {B : Type 0} → Action S E (Unit {0}) → Action S E B → Action S E B
  ◌>>◌ m k = m >>= λ _. k

  unfoldable pub lift : {A : Type 0} → Result E A → Action S E A
  lift r s = (r, s)

  -- `if test { … }`.
  abbrev pub when : Bool → Action S E (Unit {0}) → Action S E (Unit {0})
  when true m = m
  when false m = ret tt

  -- `for _, x := range xs { … }`, up to the first error.
  unfoldable pub for_each :
      {A : Type 0} → List A → (A → Action S E (Unit {0})) → Action S E (Unit {0})
  for_each [] f = ret tt
  for_each (x ∷ xs) f = f x >> for_each xs f

  -- `if err != nil { clean up; return err }` behind a call.
  abbrev pub or_undo : {A : Type 0} → Result E A × S → (S → S) → Result E A × S
  or_undo (ok a, s) undo = (ok a, s)
  or_undo (err e, s) undo = (err e, undo s)

  unfoldable pub on_error : {A : Type 0} → Action S E A → (S → S) → Action S E A
  on_error m undo s = or_undo (m s) undo
