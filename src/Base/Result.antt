-- ===== src/Base/Result.antt =====
-- A Go function that returns `(T, error)`: a value, or an error.
use mathlib.Core.Path.{◌≡◌, refl, subst}
use mathlib.Core.Logic.{◌⊎◌, inl, inr}
use mathlib.Core.Option.{Option, none, some}
use mathlib.Core.Bool.{Bool, true, false}
use wireroute_windows.Base.Tests.{if◌then◌else◌}

pub data Result {ℓ κ} (E : Type ℓ) (A : Type κ) : Type (ℓ ⊔ κ) where
  ok : A → Result E A
  err : E → Result E A

module _ {ℓ} {E : Type ℓ} where
  infixl 5 ◌>>=◌ ◌>>◌
  abbrev pub ◌>>=◌ {κ μ} : {A : Type κ} {B : Type μ} → Result E A → (A → Result E B) → Result E B
  ok a >>= f = f a
  err e >>= f = err e

  abbrev pub ◌>>◌ {κ} : {B : Type κ} → Result E (Unit {0}) → Result E B → Result E B
  m >> k = m >>= λ _. k

  -- `if test { return err }`.
  abbrev pub reject_if : Bool → E → Result E (Unit {0})
  reject_if bad e = if bad then err e else ok tt

  -- The value behind a success.
  pub ok-injective {κ} : {A : Type κ} {a b : A} → ◌≡◌ {A = Result E A} (ok a) (ok b) → a ≡ b
  ok-injective p = cc

  pub err-injective {κ} : {A : Type κ} {a b : E} → ◌≡◌ {A = Result E A} (err a) (err b) → a ≡ b
  err-injective p = cc

  -- The value, or `d` where there is none.
  abbrev pub value_or {κ} : {A : Type κ} → A → Result E A → A
  value_or d (ok a) = a
  value_or d (err e) = d

-- What holds of the value if there is one.
abbrev pub Holds {ℓ κ μ} : {E : Type ℓ} {A : Type κ} → (A → Type μ) → Result E A → Type μ
Holds P (ok a) = P a
Holds P (err e) = Unit

pub Holds->>= {ℓ κ υ μ ν} :
    {E : Type ℓ} {A : Type κ} {B : Type υ} (P : A → Type μ) (Q : B → Type ν) (r : Result E A)
    (f : A → Result E B)
    → Holds P r
    → ((a : A) → P a → Holds Q (f a))
    → Holds Q (r >>= f)
Holds->>= P Q (ok a) f h k = k a h
Holds->>= P Q (err e) f h k = tt

pub Holds-any {ℓ κ} : {E : Type ℓ} {A : Type κ} (r : Result E A) → Holds (λ _. Unit {0}) r
Holds-any (ok a) = tt
Holds-any (err e) = tt

pub Holds-map {ℓ κ μ ν} :
    {E : Type ℓ} {A : Type κ} (P : A → Type μ) (Q : A → Type ν) (r : Result E A)
    → ((a : A) → P a → Q a)
    → Holds P r
    → Holds Q r
Holds-map P Q (ok a) f h = f a h
Holds-map P Q (err e) f h = tt

pub Holds-if {ℓ κ μ} :
    {E : Type ℓ} {A : Type κ} (P : A → Type μ) (b : Bool) (r s : Result E A)
    → (b ≡ true → Holds P r)
    → (b ≡ false → Holds P s)
    → Holds P (if b then r else s)
Holds-if P true r s h k = h refl
Holds-if P false r s h k = k refl

pub Holds-reject_if {ℓ κ μ} :
    {E : Type ℓ} {A : Type κ} (P : A → Type μ) (bad : Bool) (e : E) (r : Result E A)
    → (bad ≡ false → Holds P r)
    → Holds P (reject_if bad e >> r)
Holds-reject_if P true e r h = tt
Holds-reject_if P false e r h = h refl

pub Holds_ok {ℓ κ μ} :
    {E : Type ℓ} {A : Type κ} (P : A → Type μ) {r : Result E A} {a : A} → r ≡ ok a → Holds P r → P a
Holds_ok P {r = ok b} e h = subst P (ok-injective e) h
Holds_ok P {r = err b} e h = absurd (cc)

-- `if err != nil { return err }` behind a call that has a value or none.
abbrev pub require {ℓ κ} : {E : Type ℓ} {A : Type κ} → Option A → E → Result E A
require none e = err e
require (some a) e = ok a

pub Result-cases {ℓ κ} :
    {E : Type ℓ} {A : Type κ} (r : Result E A) → ((a : A) × (r ≡ ok a)) ⊎ ((e : E) × (r ≡ err e))
Result-cases (ok a) = inl (a, refl)
Result-cases (err e) = inr (e, refl)
