-- ===== src/Conf/Name/Sort/Laws.antt =====
-- `TunnelNameIsLess` as an order.
use wireroute_windows.Base.{
  ◌≡◌, refl, sym, ◌∙◌, List, [], ◌∷◌, false, inl, inr, arith, length, Bool-cases, fun_ext, subst,
}
use wireroute_windows.Base.Order.{
  equal, flip, is_less, is_greater, lex, then_by, nat_compare, IsOrder, IsStrictWeakOrder,
  lex-IsOrder, nat_compare-IsOrder, is_less-IsStrictWeakOrder,
}
use wireroute_windows.Base.Text.{Text, same, same_iff}
use wireroute_windows.Conf.Name.Sort.{
  NaturalSortToken, string_compare, token_cmp, switch_cmp, less_tokens, natural_sort_tokens,
  tunnel_name_is_less,
}

string_compare-IsOrder : IsOrder string_compare
unfolding string_compare
string_compare-IsOrder = lex-IsOrder nat_compare nat_compare-IsOrder

string_compare-empty : (x y : Text) → length x ≡ 0 → length y ≡ 0 → string_compare x y ≡ equal
unfolding string_compare lex
string_compare-empty [] [] e f = refl
string_compare-empty (c ∷ x) y e f = ground arith
string_compare-empty x (c ∷ y) e f = ground arith

string_compare-equal : (x y : Text) → string_compare x y ≡ equal → length x ≡ length y
unfolding string_compare lex then_by nat_compare
string_compare-equal [] [] e = refl
string_compare-equal [] (c ∷ y) e = ground arith
string_compare-equal (c ∷ x) [] e = ground arith
string_compare-equal (c ∷ x) (d ∷ y) e = ground (arith, string_compare-equal x y)

token_cmp-IsOrder : IsOrder token_cmp
unfolding IsOrder token_cmp is_greater is_less flip
token_cmp-IsOrder = (
  (λ a b. ground (arith, string_compare-IsOrder.0 a.maybe_string b.maybe_string)),
  (λ a b c e f.
      ground (arith, string_compare-IsOrder.1 a.maybe_string b.maybe_string c.maybe_string)),
  (λ a b c e. ground (
    arith,
    string_compare-IsOrder.2 a.maybe_string b.maybe_string c.maybe_string,
    string_compare-equal a.maybe_string b.maybe_string,
  )),
)

less_tokens-lex :
    (na nb : List NaturalSortToken) → less_tokens na nb ≡ is_less (lex token_cmp na nb)
unfolding less_tokens lex is_less switch_cmp then_by
less_tokens-lex [] [] = refl
less_tokens-lex (u ∷ na) [] = refl
less_tokens-lex [] (t ∷ nb) = refl
less_tokens-lex (u ∷ na) (t ∷ nb) = ground (arith, less_tokens-lex na nb)

less_tokens_refl : (na : List NaturalSortToken) → less_tokens na na ≡ false
unfolding IsStrictWeakOrder
less_tokens_refl na =
    less_tokens-lex na na
    ∙ (is_less-IsStrictWeakOrder (λ xs. xs) (lex token_cmp)
          (lex-IsOrder token_cmp token_cmp-IsOrder)).0
        na

module _ (to_lower : Text → Text) where
  -- The test for equal names only saves work: equal names have equal tokens.
  tunnel_name_is_less-lex :
      (a b : Text)
      → tunnel_name_is_less to_lower a b
        ≡ is_less (lex token_cmp (natural_sort_tokens to_lower a) (natural_sort_tokens to_lower b))
  unfolding tunnel_name_is_less
  tunnel_name_is_less-lex a b = elim (Bool-cases (same a b)) [
    | inl e ↦
        rw
          (
            e,
            (same_iff a b).0 e,
            sym (less_tokens-lex (natural_sort_tokens to_lower b) (natural_sort_tokens to_lower b)),
          )
          (sym (less_tokens_refl (natural_sort_tokens to_lower b)))
    | inr e ↦
        rw e (less_tokens-lex (natural_sort_tokens to_lower a) (natural_sort_tokens to_lower b))
  ]

  -- `TunnelNameIsLess` is a strict weak order, whatever `strings.ToLower` makes of the names: no name
  -- is less than itself, it is asymmetric and transitive, and so is being in no order.
  pub tunnel_name_is_less-IsStrictWeakOrder : IsStrictWeakOrder (tunnel_name_is_less to_lower)
  tunnel_name_is_less-IsStrictWeakOrder =
      subst IsStrictWeakOrder (sym (fun_ext (λ a. fun_ext (λ b. tunnel_name_is_less-lex a b)))) (
        is_less-IsStrictWeakOrder (natural_sort_tokens to_lower) (lex token_cmp)
          (lex-IsOrder token_cmp token_cmp-IsOrder))
