-- ===== src/Firewall/Policy/Groups.antt =====
-- The filters in groups of one weight and one action, and how groups decide together.
use wireroute_windows.Base.{
  ℕ, ◌<◌, ◌≡◌, refl, ◌∙◌, ap, List, [], ◌∷◌, ◌++◌, Bool, true, false, ◌&&◌, ◌||◌, ◌==◌, ◌⊎◌, inl,
  inr, any, All, All-append, any_left, any_right, arith, if◌then◌else◌,
}
use wireroute_windows.Firewall.Types.{uint8, Verdict, permit, block, Filter}
use wireroute_windows.Firewall.Classifier.{Classifier, ClassifierLaws, Agrees, weight_number}

module _ (c : Classifier) (t : c.Traffic) where
  -- Filters of weight `w` that say `v`; one of them matches if `b` is true, and none otherwise.
  pub record Group (w : ℕ) (v : Verdict) (b : Bool) (fs : List Filter) : Type 0 where
    pub uniform : All (λ f. (f.weight ≡ uint8 w) × (f.action ≡ v)) fs
    pub hits : any (λ f. c.matches f t) fs ≡ b

  -- Why a group does not speak against the verdict `v'` of weight `w'`.
  abbrev pub Yields : ℕ → Verdict → Bool → ℕ → Verdict → Type 0
  Yields w v b w' v' = (v ≡ v') ⊎ ((w < w') ⊎ (b ≡ false))

  Agrees-Yields :
      (w : ℕ) (v : Verdict) (w' : ℕ) (v' : Verdict) (fs : List Filter)
      → All (λ f. (f.weight ≡ uint8 w) × (f.action ≡ v)) fs
      → Yields w v (any (λ f. c.matches f t) fs) w' v'
      → All (Agrees c t w' v') fs
  Agrees-Yields w v w' v' [] u y = tt
  Agrees-Yields w v w' v' (f ∷ fs) u (inl e) =
      (λ _ _. u.0.1 ∙ e, Agrees-Yields w v w' v' fs u.1 (inl e))
  Agrees-Yields w v w' v' (f ∷ fs) u (inr (inl lt)) = (
    λ _ h. absurd (omega (arith, ap weight_number u.0.0)),
    Agrees-Yields w v w' v' fs u.1 (inr (inl lt)),
  )
  Agrees-Yields w v w' v' (f ∷ fs) u (inr (inr off)) =
      (λ h _. ground arith, Agrees-Yields w v w' v' fs u.1 (inr (inr (ground arith))))

  pub Group-Agrees :
      {w : ℕ} {v : Verdict} {b : Bool} {fs : List Filter} (w' : ℕ) (v' : Verdict)
      → Group w v b fs
      → Yields w v b w' v'
      → All (Agrees c t w' v') fs
  Group-Agrees {w} {v} {b} {fs} w' v' g y = Agrees-Yields w v w' v' fs g.uniform (rw g.hits y)

  some_of_hits :
      (w : ℕ) (v : Verdict) (fs : List Filter)
      → All (λ f. (f.weight ≡ uint8 w) × (f.action ≡ v)) fs
      → any (λ f. c.matches f t) fs ≡ true
      → any (λ f. (weight_number f.weight == w) && c.matches f t) fs ≡ true
  some_of_hits w v [] u h = cc
  some_of_hits w v (f ∷ fs) u h = ground (arith, ap weight_number u.0.0, some_of_hits w v fs u.1)

  pub Group-some :
      {w : ℕ} {v : Verdict} {fs : List Filter}
      → Group w v true fs
      → any (λ f. (weight_number f.weight == w) && c.matches f t) fs ≡ true
  Group-some {w} {v} {fs} g = some_of_hits w v fs g.uniform g.hits

-- The rules are eight groups in a row, by falling weight but for the DNS servers.
module _ (c : Classifier) (laws : ClassifierLaws c) (t : c.Traffic)
    (s d a lo tu dh nd bl : List Filter) where
  abbrev pub in_a_row : List Filter
  in_a_row = s ++ ((d ++ a) ++ (lo ++ (tu ++ (dh ++ (nd ++ bl)))))

  abbrev Hit : ℕ → List Filter → Type 0
  Hit w fs = any (λ f. (weight_number f.weight == w) && c.matches f t) fs ≡ true

  module _ (w : ℕ) where
    abbrev at_weight : Filter → Bool
    at_weight f = (weight_number f.weight == w) && c.matches f t

    abbrev hit_s : Hit w s → Hit w in_a_row
    hit_s h = any_left at_weight s _ h

    abbrev hit_from_d : Hit w ((d ++ a) ++ (lo ++ (tu ++ (dh ++ (nd ++ bl))))) → Hit w in_a_row
    hit_from_d h = any_right at_weight s _ h

    abbrev hit_d : Hit w d → Hit w in_a_row
    hit_d h = hit_from_d (any_left at_weight (d ++ a) _ (any_left at_weight d a h))

    abbrev hit_a : Hit w a → Hit w in_a_row
    hit_a h = hit_from_d (any_left at_weight (d ++ a) _ (any_right at_weight d a h))

    abbrev hit_from_lo : Hit w (lo ++ (tu ++ (dh ++ (nd ++ bl)))) → Hit w in_a_row
    hit_from_lo h = hit_from_d (any_right at_weight (d ++ a) _ h)

    abbrev hit_from_tu : Hit w (tu ++ (dh ++ (nd ++ bl))) → Hit w in_a_row
    hit_from_tu h = hit_from_lo (any_right at_weight lo _ h)

    abbrev hit_from_dh : Hit w (dh ++ (nd ++ bl)) → Hit w in_a_row
    hit_from_dh h = hit_from_tu (any_right at_weight tu _ h)

    abbrev hit_from_nd : Hit w (nd ++ bl) → Hit w in_a_row
    hit_from_nd h = hit_from_dh (any_right at_weight dh _ h)

  module _ (bs bd bx bo bt bh bn : Bool) (gs : Group c t 15 permit bs s)
      (gd : Group c t 14 block bd d) (ga : Group c t 15 permit (bd && bx) a)
      (go : Group c t 13 permit bo lo) (gt : Group c t 12 permit bt tu)
      (gh : Group c t 12 permit bh dh) (gn : Group c t 12 permit bn nd)
      (gb : Group c t 0 block true bl) where
    -- A verdict stands if it has a match, and no group speaks against it.
    stands :
        (w : ℕ) (v : Verdict)
        → Hit w in_a_row
        → Yields c t 15 permit bs w v
        → Yields c t 14 block bd w v
        → Yields c t 15 permit (bd && bx) w v
        → Yields c t 13 permit bo w v
        → Yields c t 12 permit bt w v
        → Yields c t 12 permit bh w v
        → Yields c t 12 permit bn w v
        → Yields c t 0 block true w v
        → c.verdict in_a_row t ≡ v
    stands w v hit ys yd ya yo yt yh yn yb = laws.verdict_lem in_a_row t w v (record {
      some_matches = hit;
      others_agree = All-append P s _ (Group-Agrees c t w v gs ys) (
          All-append P (d ++ a) _
            (All-append P d a (Group-Agrees c t w v gd yd) (Group-Agrees c t w v ga ya))
            (All-append P lo _ (Group-Agrees c t w v go yo) (
              All-append P tu _ (Group-Agrees c t w v gt yt) (
                All-append P dh _ (Group-Agrees c t w v gh yh) (
                  All-append P nd bl (Group-Agrees c t w v gn yn) (Group-Agrees c t w v gb yb))))));
    })
      where
        P : Filter → Type 0
        P = Agrees c t w v

  pub decide :
      (bs bd bx bo bt bh bn : Bool)
      → Group c t 15 permit bs s
      → Group c t 14 block bd d
      → Group c t 15 permit (bd && bx) a
      → Group c t 13 permit bo lo
      → Group c t 12 permit bt tu
      → Group c t 12 permit bh dh
      → Group c t 12 permit bn nd
      → Group c t 0 block true bl
      → c.verdict in_a_row t ≡ (
          if bs
          then permit
          else if bd
          then if bx then permit else block
          else if bo || bt || bh || bn
          then permit
          else block)
  decide true bd bx bo bt bh bn gs gd ga go gt gh gn gb =
      stands true bd bx bo bt bh bn gs gd ga go gt gh gn gb 15 permit (hit_s 15 (Group-some c t gs))
        (inl refl) (inr (inl (omega arith))) (inl refl) (inl refl) (inl refl) (inl refl) (inl refl)
        (inr (inl (omega arith)))
  decide false true true bo bt bh bn gs gd ga go gt gh gn gb =
      stands false true true bo bt bh bn gs gd ga go gt gh gn gb 15 permit
        (hit_a 15 (Group-some c t ga)) (inl refl) (inr (inl (omega arith))) (inl refl) (inl refl)
        (inl refl) (inl refl) (inl refl) (inr (inl (omega arith)))
  decide false true false bo bt bh bn gs gd ga go gt gh gn gb =
      stands false true false bo bt bh bn gs gd ga go gt gh gn gb 14 block
        (hit_d 14 (Group-some c t gd)) (inr (inr refl)) (inl refl) (inr (inr refl))
        (inr (inl (omega arith))) (inr (inl (omega arith))) (inr (inl (omega arith)))
        (inr (inl (omega arith))) (inl refl)
  decide false false bx true bt bh bn gs gd ga go gt gh gn gb =
      stands false false bx true bt bh bn gs gd ga go gt gh gn gb 13 permit
        (hit_from_lo 13 (any_left (at_weight 13) lo _ (Group-some c t go))) (inl refl)
        (inr (inr refl)) (inl refl) (inl refl) (inl refl) (inl refl) (inl refl)
        (inr (inl (omega arith)))
  decide false false bx false true bh bn gs gd ga go gt gh gn gb =
      stands false false bx false true bh bn gs gd ga go gt gh gn gb 12 permit
        (hit_from_tu 12 (any_left (at_weight 12) tu _ (Group-some c t gt))) (inl refl)
        (inr (inr refl)) (inl refl) (inl refl) (inl refl) (inl refl) (inl refl)
        (inr (inl (omega arith)))
  decide false false bx false false true bn gs gd ga go gt gh gn gb =
      stands false false bx false false true bn gs gd ga go gt gh gn gb 12 permit
        (hit_from_dh 12 (any_left (at_weight 12) dh _ (Group-some c t gh))) (inl refl)
        (inr (inr refl)) (inl refl) (inl refl) (inl refl) (inl refl) (inl refl)
        (inr (inl (omega arith)))
  decide false false bx false false false true gs gd ga go gt gh gn gb =
      stands false false bx false false false true gs gd ga go gt gh gn gb 12 permit
        (hit_from_nd 12 (any_left (at_weight 12) nd bl (Group-some c t gn))) (inl refl)
        (inr (inr refl)) (inl refl) (inl refl) (inl refl) (inl refl) (inl refl)
        (inr (inl (omega arith)))
  decide false false bx false false false false gs gd ga go gt gh gn gb =
      stands false false bx false false false false gs gd ga go gt gh gn gb 0 block
        (hit_from_nd 0 (any_right (at_weight 0) nd bl (Group-some c t gb))) (inr (inr refl))
        (inl refl) (inr (inr refl)) (inr (inr refl)) (inr (inr refl)) (inr (inr refl))
        (inr (inr refl)) (inl refl)
