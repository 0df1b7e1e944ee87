-- ===== src/Base/Order.antt =====
-- Three-way comparisons, and the lexicographic one on lists.
use Prim.Native.Nat.{ℕ}
use mathlib.Core.Path.{◌≡◌, refl, sym}
use mathlib.Core.Logic.{◌⊎◌, inl, inr}
use mathlib.Core.Bool.{Bool, true, false}
use mathlib.Core.List.{List, [], ◌∷◌}
use native.Mathlib.Omega.{arith}
use wireroute_windows.Base.Tests.{ltb, if◌then◌else◌}

pub data Order : Type 0 where
  less : Order
  equal : Order
  greater : Order

unfoldable pub flip : Order → Order
flip less = greater
flip equal = equal
flip greater = less

unfoldable pub is_less : Order → Bool
is_less less = true
is_less equal = false
is_less greater = false

unfoldable pub is_greater : Order → Bool
is_greater greater = true
is_greater equal = false
is_greater less = false

unfoldable pub then_by : Order → Order → Order
then_by less _ = less
then_by equal o = o
then_by greater _ = greater

unfoldable pub lex {ℓ} : {A : Type ℓ} → (A → A → Order) → List A → List A → Order
lex cmp [] [] = equal
lex cmp [] (b ∷ ys) = less
lex cmp (a ∷ xs) [] = greater
lex cmp (a ∷ xs) (b ∷ ys) = then_by (cmp a b) (lex cmp xs ys)

unfoldable pub nat_compare : ℕ → ℕ → Order
nat_compare a b = if ltb a b then less else (if ltb b a then greater else equal)

-- A comparison that is a total preorder.
unfoldable pub IsOrder {ℓ} : {A : Type ℓ} → (A → A → Order) → Type ℓ
IsOrder {A = A} cmp =
    ((a b : A) → cmp b a ≡ flip (cmp a b))
    × ((a b c : A) → cmp a b ≡ less → cmp b c ≡ less → cmp a c ≡ less)
    × ((a b c : A) → cmp a b ≡ equal → cmp a c ≡ cmp b c)

pub Order-cases : (o : Order) → (o ≡ less) ⊎ (o ≡ equal) ⊎ (o ≡ greater)
Order-cases less = inl refl
Order-cases equal = inr (inl refl)
Order-cases greater = inr (inr refl)

flip-then_by : (o p : Order) → flip (then_by o p) ≡ then_by (flip o) (flip p)
unfolding flip then_by
flip-then_by less p = refl
flip-then_by equal p = refl
flip-then_by greater p = refl

lex-flip {ℓ} :
    {A : Type ℓ}
    → (cmp : A → A → Order) → ((a b : A) → cmp b a ≡ flip (cmp a b))
    → (xs ys : List A) → lex cmp ys xs ≡ flip (lex cmp xs ys)
unfolding lex flip
lex-flip cmp h [] [] = refl
lex-flip cmp h [] (b ∷ ys) = refl
lex-flip cmp h (a ∷ xs) [] = refl
lex-flip cmp h (a ∷ xs) (b ∷ ys) =
    rw (h a b, lex-flip cmp h xs ys) (sym (flip-then_by (cmp a b) (lex cmp xs ys)))

lex-equal {ℓ} :
    {A : Type ℓ}
    → (cmp : A → A → Order) → ((a b c : A) → cmp a b ≡ equal → cmp a c ≡ cmp b c)
    → (xs ys zs : List A) → lex cmp xs ys ≡ equal
    → lex cmp xs zs ≡ lex cmp ys zs
unfolding lex then_by
lex-equal cmp h [] [] zs e = refl
lex-equal cmp h [] (b ∷ ys) zs e = ground arith
lex-equal cmp h (a ∷ xs) [] zs e = ground arith
lex-equal cmp h (a ∷ xs) (b ∷ ys) [] e = refl
lex-equal cmp h (a ∷ xs) (b ∷ ys) (c ∷ zs) e = ground (arith, h a b c, lex-equal cmp h xs ys zs)

lex_trans {ℓ} :
    {A : Type ℓ}
    → (cmp : A → A → Order) → IsOrder cmp
    → (xs ys zs : List A) → lex cmp xs ys ≡ less
    → lex cmp ys zs ≡ less
    → lex cmp xs zs ≡ less
unfolding lex then_by IsOrder flip
lex_trans cmp h [] [] [] e f = e
lex_trans cmp h [] (b ∷ ys) [] e f = ground arith
lex_trans cmp h [] ys (c ∷ zs) e f = refl
lex_trans cmp h (a ∷ xs) [] zs e f = ground arith
lex_trans cmp h (a ∷ xs) (b ∷ ys) [] e f = ground arith
lex_trans cmp h (a ∷ xs) (b ∷ ys) (c ∷ zs) e f =
    ground
      (arith, h.1 a b c, h.2 a b c, h.2 b c a, h.0 b c, h.0 a c, h.0 a b, lex_trans cmp h xs ys zs)

pub lex-IsOrder {ℓ} : {A : Type ℓ} → (cmp : A → A → Order) → IsOrder cmp → IsOrder (lex cmp)
unfolding IsOrder
lex-IsOrder cmp h = (lex-flip cmp h.0, lex_trans cmp h, lex-equal cmp h.2)

pub nat_compare-IsOrder : IsOrder nat_compare
unfolding IsOrder nat_compare flip
nat_compare-IsOrder =
    ((λ a b. ground arith), (λ a b c e f. ground arith), (λ a b c e. ground arith))

-- A strict weak order: what `sort.Slice` asks of its comparison.
unfoldable pub IsStrictWeakOrder {ℓ} : {A : Type ℓ} → (A → A → Bool) → Type ℓ
IsStrictWeakOrder {A = A} lt =
    ((a : A) → lt a a ≡ false)
    × ((a b : A) → lt a b ≡ true → lt b a ≡ false)
    × ((a b c : A) → lt a b ≡ true → lt b c ≡ true → lt a c ≡ true)
    × ((a b c : A) → lt a c ≡ true → (lt a b ≡ true) ⊎ (lt b c ≡ true))

pub is_less-IsStrictWeakOrder {ℓ κ} :
    {A : Type ℓ} {B : Type κ}
    → (key : A → B) → (cmp : B → B → Order) → IsOrder cmp
    → IsStrictWeakOrder (λ a b. is_less (cmp (key a) (key b)))
unfolding IsOrder IsStrictWeakOrder is_less flip
is_less-IsStrictWeakOrder key cmp h = (
  (λ a. ground (arith, h.0 (key a) (key a))),
  (λ a b e. ground (arith, h.0 (key a) (key b))),
  (λ a b c e f. ground (arith, h.1 (key a) (key b) (key c))),
  (λ a b c e.
      ground
        (arith, h.0 (key a) (key b), h.1 (key b) (key a) (key c), h.2 (key a) (key b) (key c))),
)
