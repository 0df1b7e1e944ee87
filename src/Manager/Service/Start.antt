-- ===== src/Manager/Service/Start.antt =====
-- Which tunnels `Start` has stopped, and when it refuses.
use wireroute_windows.Base.{
  ◌≡◌, refl, sym, ap, ◌⊎◌, inl, inr, List, [], ◌∷◌, ◌++◌, append_assoc, append-nil, Bool, true,
  false, not, ◌&&◌, any, if◌then◌else◌, Option, none, some, arith, Bool-cases,
}
use wireroute_windows.Base.Result.{ok, err, Result-cases}
use wireroute_windows.Base.Text.{Text, is_empty}
use wireroute_windows.Conf.Config.{Config}
use wireroute_windows.Manager.Host.{TunnelState, still_activating, Host}
use wireroute_windows.Manager.Service.{
  Manager, is_in_transition, on_world, intersects, scan, after_scan, start,
}

module _ {S : Type 0} (host : Host S) (c : Config) (w : S) where
  -- Has the start to wait for this tunnel?
  abbrev pub blocks : Text × TunnelState → Bool
  blocks t = intersects host c w t.0 && (not (is_empty t.0) && is_in_transition t.1)

  -- The names of the tunnels that intersect.
  unfoldable pub intersecting : List (Text × TunnelState) → List Text
  intersecting [] = []
  intersecting (t ∷ tunnels) =
      let rest = intersecting tunnels in if intersects host c w t.0 then t.0 ∷ rest else rest

  scan_blocked :
      (tunnels : List (Text × TunnelState)) (names : List Text)
      → any blocks tunnels ≡ true
      → (t : Text) × ((scan host c w tunnels names).1 ≡ some t)
  unfolding scan
  scan_blocked [] names h = ground arith
  scan_blocked (t ∷ tunnels) names h = elim (Bool-cases (blocks t)) [
    | inl e ↦ (t.0, ground arith)
    | inr e ↦ elim (Bool-cases (intersects host c w t.0)) [
      | inl i ↦
          let rest = scan_blocked tunnels (names ++ (t.0 ∷ [])) (ground arith) in
          (rest.0, ground (arith, rest.1))
      | inr i ↦
          let rest = scan_blocked tunnels names (ground arith) in (rest.0, ground (arith, rest.1))
    ]
  ]

  scan_free :
      (tunnels : List (Text × TunnelState)) (names : List Text)
      → any blocks tunnels ≡ false
      → scan host c w tunnels names ≡ (names ++ intersecting tunnels, none)
  unfolding scan intersecting
  scan_free [] names h = ap (λ r. (r, none)) (sym (append-nil names))
  scan_free (t ∷ tunnels) names h = ground (
    arith,
    scan_free tunnels names,
    scan_free tunnels (names ++ (t.0 ∷ [])),
    append_assoc names (t.0 ∷ []) (intersecting tunnels),
  )

module _ {S : Type 0} (host : Host S) where
  after_scan_blocked :
      (c : Config) (r : List Text × Option Text) (t : Text)
      → r.1 ≡ some t
      → (m : Manager S) → after_scan host c r m ≡ (err (still_activating t), m)
  unfolding after_scan
  after_scan_blocked c (names, o) t e m = rw e refl

  after_scan_free :
      (c : Config) (names : List Text) (m : Manager S)
      → let after = (after_scan host c (names, none) m).1 in
        (after.to_stop ≡ m.to_stop ++ (names ∷ []))
        × (after.tracked_tunnels ≡ m.tracked_tunnels)
        × (after.have_quit ≡ m.have_quit)
  unfolding after_scan on_world
  after_scan_free c names m = elim (Result-cases (host.path m.world c)) [
    | inl (p, e) ↦ rw e (refl, refl, refl)
    | inr (x, e) ↦ rw e (refl, refl, refl)
  ]

  -- Start of a tunnel whose configuration is there: if it intersects with a tracked tunnel that is
  -- starting or in an unknown state, it is refused and nothing changes; otherwise the tracked tunnels
  -- that intersect, and no others, are handed over to be stopped.
  pub start_cases :
      (name : Text) (c : Config) (m : Manager S)
      → host.load_from_name m.world name ≡ ok c
      → ((any (blocks host c m.world) m.tracked_tunnels ≡ true)
          × ((t : Text) × (start host name m ≡ (err (still_activating t), m))))
        ⊎ ((any (blocks host c m.world) m.tracked_tunnels ≡ false)
            × ((start host name m).1.to_stop
                ≡ m.to_stop ++ (intersecting host c m.world m.tracked_tunnels ∷ []))
            × ((start host name m).1.tracked_tunnels ≡ m.tracked_tunnels)
            × ((start host name m).1.have_quit ≡ m.have_quit))
  unfolding start
  start_cases name c m h = elim (Bool-cases (any (blocks host c m.world) m.tracked_tunnels)) [
    | inl e ↦
        let found = scan_blocked host c m.world m.tracked_tunnels [] e in
        inl (
          e,
          (
            found.0,
            rw h
                (after_scan_blocked c (scan host c m.world m.tracked_tunnels []) found.0 found.1 m),
          ),
        )
    | inr e ↦
        let after = after_scan_free c (intersecting host c m.world m.tracked_tunnels) m in
        inr (
          e,
          rw (h, scan_free host c m.world m.tracked_tunnels [] e) (after.0),
          rw (h, scan_free host c m.world m.tracked_tunnels [] e) (after.1),
          rw (h, scan_free host c m.world m.tracked_tunnels [] e) (after.2),
        )
  ]
