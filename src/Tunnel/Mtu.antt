-- ===== src/Tunnel/Mtu.antt =====
-- tunnel/mtumonitor.go: the MTU of the tunnel after that of the default route.
use wireroute_windows.Base.{
  ℕ, zero, suc, ◌+◌, ◌-◌, ◌≤◌, ◌^◌, List, [], ◌∷◌, Bool, not, ◌&&◌, ◌||◌, ◌==◌, ltb, All, Any,
  arith, if◌then◌else◌, Option, none, some, Bool-cases, inl, inr, ◌⊎◌, ◌≡◌, refl, sym, subst, ◌∙◌,
}
use wireroute_windows.Base.Result.{Result, ok, err}
use wireroute_windows.Tunnel.Address.{Family, inet, inet6}

pub record Route : Type 0 where
  pub prefix_length : ℕ
  pub interface_luid : ℕ
  pub interface_index : ℕ
  pub metric : ℕ

pub record InterfaceRow : Type 0 where
  pub is_up : Bool
  pub mtu : ℕ

-- The calls of package winipcfg that read: the routes, the rows of adapters, and their metrics.
pub record Reading : Type 0 where
  pub get_ip_forward_table : Family → Result ℕ (List Route)
  pub interface : (luid : ℕ) → Result ℕ InterfaceRow
  pub ip_metric : (luid : ℕ) → Family → Result ℕ ℕ

-- Both of the tunnel's interface rows: the call that reads it for writing, and the write.
pub record Writing : Type 0 where
  pub ip_interface : (luid : ℕ) → Family → Result ℕ (Unit {0})
  pub set_nl_mtu : (luid : ℕ) → Family → ℕ → Result ℕ (Unit {0})

-- The best so far: its metric, LUID and index.
pub record Best : Type 0 where
  pub lowest_metric : ℕ
  pub luid : ℕ
  pub index : ℕ

abbrev pub no_best : Best
no_best = record { lowest_metric = 2 ^ 64 - 1; luid = 0; index = 0 }

-- What the callbacks keep. The MTU that was set last is an output too.
pub record Monitor : Type 0 where
  pub last_luid : ℕ
  pub last_index : ℕ
  pub last_mtu : ℕ

unfoldable pub min_mtu : Family → ℕ
min_mtu inet = 576
min_mtu inet6 = 1280

abbrev pub AtLeast : ℕ → Option ℕ → Type 0
AtLeast low none = Unit
AtLeast low (some metric) = low ≤ metric

AtLeast-le : {low lower : ℕ} (o : Option ℕ) → lower ≤ low → AtLeast low o → AtLeast lower o
AtLeast-le none h k = tt
AtLeast-le (some metric) h k = omega arith

module _ (r : Reading) (family : Family) (our_luid : ℕ) where
  -- The metric of a route that counts: of all destinations, on another adapter that is up.
  unfoldable pub combined_metric : Route → Option ℕ
  combined_metric route =
      if not (route.prefix_length == 0) || route.interface_luid == our_luid
      then none
      else up (r.interface route.interface_luid)
    where
      with_metric : Result ℕ ℕ → Option ℕ
      with_metric (err e) = none
      with_metric (ok metric) = some (route.metric + metric)

      up : Result ℕ InterfaceRow → Option ℕ
      up (err e) = none
      up (ok row) =
          if row.is_up then with_metric (r.ip_metric route.interface_luid family) else none

  unfoldable pub better : Route → Option ℕ → Best → Best
  better route none best = best
  better route (some metric) best =
      if ltb metric best.lowest_metric
      then record {
        lowest_metric = metric;
        luid = route.interface_luid;
        index = route.interface_index;
      }
      else best

  unfoldable pub best_of : List Route → Best → Best
  best_of [] best = best
  best_of (route ∷ routes) best = best_of routes (better route (combined_metric route) best)

  unfoldable pub find_default_luid : Monitor → Result ℕ Monitor
  find_default_luid last = found (r.get_ip_forward_table family)
    where
      found : Result ℕ (List Route) → Result ℕ Monitor
      found (err e) = err e
      found (ok routes) =
          let best = best_of routes no_best in
          ok (
            if best.luid == last.last_luid && best.index == last.last_index
            then last
            else record last { last_luid = best.luid; last_index = best.index })

  -- Is the metric of a route, if it counts, no lower than this?
  abbrev pub IsLowest : ℕ → Route → Type 0
  IsLowest low route = AtLeast low (combined_metric route)

  better_le :
      (route : Route) (o : Option ℕ) (best : Best)
      → ((better route o best).lowest_metric ≤ best.lowest_metric)
        × AtLeast (better route o best).lowest_metric o
  unfolding better
  better_le route none best = (omega arith, tt)
  better_le route (some metric) best = elim (Bool-cases (ltb metric best.lowest_metric)) [
    | inl e ↦ rw e (ground arith, omega arith)
    | inr e ↦ rw e (omega arith, ground arith)
  ]

  best_of-IsLowest :
      (routes : List Route) (best : Best)
      → ((best_of routes best).lowest_metric ≤ best.lowest_metric)
        × All (IsLowest (best_of routes best).lowest_metric) routes
  unfolding best_of
  best_of-IsLowest [] best = (omega arith, tt)
  best_of-IsLowest (route ∷ routes) best =
      let next = better route (combined_metric route) best in
      let first = better_le route (combined_metric route) best in
      let rest = best_of-IsLowest routes next in
      (omega (arith, first.0, rest.0), (AtLeast-le (combined_metric route) rest.0 first.1, rest.1))

  -- The route that the best so far was taken from.
  abbrev pub IsFrom : Best → Route → Type 0
  IsFrom best route =
      (combined_metric route ≡ some best.lowest_metric)
      × (best.luid ≡ route.interface_luid)
      × (best.index ≡ route.interface_index)

  better_cases :
      (route : Route) (best : Best) (o : Option ℕ)
      → combined_metric route ≡ o
      → (better route o best ≡ best) ⊎ IsFrom (better route o best) route
  unfolding better
  better_cases route best none h = inl refl
  better_cases route best (some metric) h = elim (Bool-cases (ltb metric best.lowest_metric)) [
    | inl e ↦ rw e (inr (h, refl, refl))
    | inr e ↦ rw e (inl refl)
  ]

  best_of-IsFrom :
      (routes : List Route) (best : Best)
      → (best_of routes best ≡ best) ⊎ Any (IsFrom (best_of routes best)) routes
  unfolding best_of
  best_of-IsFrom [] best = inl refl
  best_of-IsFrom (route ∷ routes) best =
      let next = better route (combined_metric route) best in
      elim (best_of-IsFrom routes next) [
        | inr found ↦ inr (inr found)
        | inl e ↦ elim (better_cases route best (combined_metric route) refl) [
          | inl k ↦ inl (e ∙ k)
          | inr from ↦ inr (inl (subst (λ b. IsFrom b route) (sym e) from))
        ]
      ]

  -- From any best so far: the best of some routes is that one or is taken from a route among them,
  -- with its LUID and index, and its metric is no higher than that of any route that counts, or
  -- than that of the best so far.
  pub best_of_cases :
      (routes : List Route) (best : Best)
      → ((best_of routes best ≡ best) ⊎ Any (IsFrom (best_of routes best)) routes)
        × ((best_of routes best).lowest_metric ≤ best.lowest_metric)
        × All (IsLowest (best_of routes best).lowest_metric) routes
  best_of_cases routes best =
      let low = best_of-IsLowest routes best in (best_of-IsFrom routes best, low.0, low.1)

-- The MTU that is set: 80 less than that of the default route, and no less than the family's least.
unfoldable pub tunnel_mtu : Family → ℕ → ℕ
tunnel_mtu family mtu = if ltb (mtu - 80) (min_mtu family) then min_mtu family else mtu - 80

module _ (r : Reading) (w : Writing) (family : Family) (our_luid : ℕ) where
  -- The MTU of the adapter with the default route; 0 if there is none.
  unfoldable pub default_mtu : (luid : ℕ) → Result ℕ ℕ
  default_mtu zero = ok 0
  default_mtu (suc luid) = read (r.interface (suc luid))
    where
      read : Result ℕ InterfaceRow → Result ℕ ℕ
      read (err e) = err e
      read (ok row) = ok row.mtu

  -- `doIt`: its error, what it keeps, and what it has set.
  unfoldable pub do_it : Monitor → Result ℕ (Unit {0}) × Monitor × Option ℕ
  do_it last = found (find_default_luid r family our_luid last)
    where
      set : Result ℕ (Unit {0}) → Monitor → (mtu : ℕ) → Result ℕ (Unit {0}) × Monitor × Option ℕ
      set (err e) now mtu = (err e, now, none)
      set (ok _) now mtu = (ok tt, record now { last_mtu = mtu }, some (tunnel_mtu family mtu))

      write : Result ℕ (Unit {0}) → Monitor → (mtu : ℕ) → Result ℕ (Unit {0}) × Monitor × Option ℕ
      write (err e) now mtu = (err e, now, none)
      write (ok _) now mtu = set (w.set_nl_mtu our_luid family (tunnel_mtu family mtu)) now mtu

      changed : Result ℕ ℕ → Monitor → Result ℕ (Unit {0}) × Monitor × Option ℕ
      changed (err e) now = (err e, now, none)
      changed (ok mtu) now =
          if not (mtu == 0) && not (now.last_mtu == mtu)
          then write (w.ip_interface our_luid family) now mtu
          else (ok tt, now, none)

      found : Result ℕ Monitor → Result ℕ (Unit {0}) × Monitor × Option ℕ
      found (err e) = (err e, last, none)
      found (ok now) = changed (default_mtu now.last_luid) now
