-- ===== src/Conf/Config/Operations/Compaction.antt =====
-- What `DeduplicateNetworkEntries` leaves of each list.
use wireroute_windows.Base.{
  ℕ, zero, suc, ◌+◌, ◌≤◌, ◌<◌, ◌≡◌, refl, sym, ap, ◌∙◌, List, [], ◌∷◌, ◌++◌, true, false, length,
  get_elem?, set, take, drop, any, length-set, if◌then◌else◌, none, some, arith, Bool-cases,
  Option-cases, inl, inr, append_assoc, append-nil,
}
use wireroute_windows.Base.Text.{Text, same}
use wireroute_windows.Conf.Config.Operations.{compact_loop, compact}

module _ {ℓ} {A : Type ℓ} where
  take-suc-set :
      (i : ℕ) (xs : List A) (x : A)
      → i < length xs
      → take (suc i) (set xs i x) ≡ take i xs ++ (x ∷ [])
  take-suc-set i [] x h = elim h [ ]
  take-suc-set zero (y ∷ xs) x h = refl
  take-suc-set (suc i) (y ∷ xs) x h = ap (λ r. y ∷ r) (take-suc-set i xs x (omega arith))

  drop-suc-set :
      (i k : ℕ) (xs : List A) (x : A) → i ≤ k → drop (suc k) (set xs i x) ≡ drop (suc k) xs
  drop-suc-set i k [] x h = refl
  drop-suc-set zero k (y ∷ xs) x h = refl
  drop-suc-set (suc i) zero (y ∷ xs) x h = elim h [ ]
  drop-suc-set (suc i) (suc k) (y ∷ xs) x h = drop-suc-set i k xs x (omega arith)

  drop-get_elem? :
      (k : ℕ) (xs : List A) (x : A) → get_elem? xs k ≡ some x → drop k xs ≡ x ∷ drop (suc k) xs
  drop-get_elem? zero (y ∷ xs) x h = ground arith
  drop-get_elem? (suc k) (y ∷ xs) x h = drop-get_elem? k xs x h
  drop-get_elem? k [] x h = ground arith

  get_elem?-lt : (k : ℕ) (xs : List A) → get_elem? xs k ≡ none → length xs ≤ k
  get_elem?-lt k [] h = omega arith
  get_elem?-lt zero (y ∷ xs) h = ground arith
  get_elem?-lt (suc k) (y ∷ xs) h = omega (arith, get_elem?-lt k xs h)

  drop_all : (k : ℕ) (xs : List A) → length xs ≤ k → drop k xs ≡ []
  drop_all zero [] h = refl
  drop_all (suc k) [] h = refl
  drop_all zero (x ∷ xs) h = elim h [ ]
  drop_all (suc k) (x ∷ xs) h = drop_all k xs (omega arith)

  module _ (to_string : A → Text) where
    -- The entries whose string is not among those seen, each string once, in their order.
    unfoldable pub first_entries : List Text → List A → List A
    first_entries seen [] = []
    first_entries seen (x ∷ xs) =
        let later = first_entries seen xs in
        let fresh = first_entries (to_string x ∷ seen) xs in
        if any (same (to_string x)) seen then later else x ∷ fresh

    module _ (todo k i : ℕ) (seen : List Text) (xs : List A) (x : A)
        (h : get_elem? xs k ≡ some x) where
      compact_loop_seen :
          any (same (to_string x)) seen ≡ true
          → compact_loop to_string (suc todo) k i seen xs
            ≡ compact_loop to_string todo (suc k) i seen xs
      unfolding compact_loop
      compact_loop_seen e = rw (h, e, compact_loop) refl

      compact_loop_fresh :
          any (same (to_string x)) seen ≡ false
          → compact_loop to_string (suc todo) k i seen xs
            ≡ compact_loop to_string todo (suc k) (suc i) (to_string x ∷ seen) (set xs i x)
      unfolding compact_loop
      compact_loop_fresh e = rw (h, e, compact_loop) refl

      first_entries_seen :
          any (same (to_string x)) seen ≡ true
          → first_entries seen (drop k xs) ≡ first_entries seen (drop (suc k) xs)
      unfolding first_entries
      first_entries_seen e = rw (drop-get_elem? k xs x h, e) refl

      first_entries_fresh :
          any (same (to_string x)) seen ≡ false
          → first_entries seen (drop k xs)
            ≡ x ∷ first_entries (to_string x ∷ seen) (drop (suc k) xs)
      unfolding first_entries
      first_entries_fresh e = rw (drop-get_elem? k xs x h, e) refl

    taken : List A × ℕ → List A
    taken r = take r.1 r.0

    -- The first i entries are done, and the entries from k on are still the list's own.
    compact_loop-first_entries :
        (todo k i : ℕ) (seen : List Text) (xs : List A)
        → i ≤ k
        → todo + k ≡ length xs
        → taken (compact_loop to_string todo k i seen xs)
          ≡ take i xs ++ first_entries seen (drop k xs)
    unfolding compact_loop first_entries taken
    compact_loop-first_entries zero k i seen xs h e =
        rw (drop_all k xs (omega arith)) (sym (append-nil (take i xs)))
    compact_loop-first_entries (suc todo) k i seen xs h e = elim (Option-cases (get_elem? xs k)) [
      | inl at_end ↦ absurd (omega (arith, get_elem?-lt k xs at_end))
      | inr (x, at_k) ↦ elim (Bool-cases (any (same (to_string x)) seen)) [
        | inl repeated ↦
            ap taken (compact_loop_seen todo k i seen xs x at_k repeated)
            ∙ compact_loop-first_entries todo (suc k) i seen xs (omega arith) (omega arith)
            ∙ ap (λ r. take i xs ++ r) (sym (first_entries_seen todo k i seen xs x at_k repeated))
        | inr fresh ↦
            ap taken (compact_loop_fresh todo k i seen xs x at_k fresh)
            ∙ compact_loop-first_entries todo (suc k) (suc i) (to_string x ∷ seen) (set xs i x)
                (omega arith) (omega (arith, length-set xs i x))
            ∙ ap (λ r. r ++ first_entries (to_string x ∷ seen) (drop (suc k) (set xs i x)))
                (take-suc-set i xs x (omega arith))
            ∙ append_assoc (take i xs) (x ∷ [])
                (first_entries (to_string x ∷ seen) (drop (suc k) (set xs i x)))
            ∙ ap (λ r. take i xs ++ x ∷ first_entries (to_string x ∷ seen) r)
                (drop-suc-set i k xs x h)
            ∙ ap (λ r. take i xs ++ r) (sym (first_entries_fresh todo k i seen xs x at_k fresh))
      ]
    ]

    -- The loop, which moves the entries within their slice, leaves the first entry of each string.
    pub compact-first_entries : (xs : List A) → compact to_string xs ≡ first_entries [] xs
    unfolding compact taken
    compact-first_entries xs =
        compact_loop-first_entries (length xs) 0 0 [] xs (omega arith) (omega arith)
