-- ===== src/Tunnel/Address/Attempts.antt =====
-- How often the configuration of an adapter is tried.
use wireroute_windows.Base.{
  ℕ, zero, suc, ◌+◌, ◌≤◌, ◌≡◌, refl, sym, ap, ◌∙◌, ◌<◌, Bool, true, false, arith, Option, some, inl,
  inr,
}
use wireroute_windows.Base.Action.{Action, ret, continue, ◌>>=◌, when}
use wireroute_windows.Base.Result.{Result, ok, err, Result-cases}
use wireroute_windows.Conf.Config.{Config}
use wireroute_windows.Tunnel.Address.{
  Family, WinIpCfg, Stop, again, failed, check, read_interface, attempt, still_retries,
  after_attempt, attempts, configure_interface,
}

abbrev is_again : {A : Type 0} → Result Stop A → Bool
is_again (err again) = true
is_again _ = false

module _ {S : Type 0} where
  abbrev NeverAgain : {A : Type 0} → Action S Stop A → Type 0
  NeverAgain call = (w : S) → is_again (call w).0 ≡ false

  NeverAgain->>= :
      {A B : Type 0} (call : Action S Stop A) (f : A → Action S Stop B)
      → NeverAgain call
      → ((a : A) → NeverAgain (f a))
      → NeverAgain (call >>= f)
  unfolding ◌>>=◌
  NeverAgain->>= {A = A} call f h k w = behind (call w).0 (call w).1 (h w)
    where
      behind :
          (r : Result Stop A) (v : S) → is_again r ≡ false → is_again (continue r v f).0 ≡ false
      behind (ok a) v e = k a v
      behind (err again) v p = p
      behind (err (failed e)) v p = refl

  NeverAgain-when :
      (test : Bool) (call : Action S Stop (Unit {0}))
      → NeverAgain call
      → NeverAgain (when test call)
  unfolding ret
  NeverAgain-when true call h w = h w
  NeverAgain-when false call h w = refl

module _ {S : Type 0} (win : WinIpCfg S) where
  check-NeverAgain : (call : Action S ℕ (Unit {0})) → NeverAgain (check win false call)
  unfolding check
  check-NeverAgain call w = elim (Result-cases (call w).0) [
    | inl (u, e) ↦ rw e refl
    | inr (n, e) ↦ rw e (ground arith)
  ]

  read_interface-NeverAgain :
      (luid : ℕ) (family : Family) → NeverAgain (read_interface win luid family)
  unfolding read_interface
  read_interface-NeverAgain luid family w = elim (Result-cases (win.ip_interface luid family w)) [
    | inl (row, e) ↦ rw e refl
    | inr (n, e) ↦ rw e refl
  ]

  -- Where retrying is over, no attempt asks for another.
  attempt-NeverAgain :
      (family : Family) (conf : Config) (luid : ℕ) → NeverAgain (attempt win false family conf luid)
  unfolding attempt
  attempt-NeverAgain family conf luid =
      NeverAgain->>= _ _ (NeverAgain-when _ _ (check-NeverAgain _)) λ _.
        NeverAgain->>= _ _ (NeverAgain-when _ _ (check-NeverAgain _)) λ _.
          NeverAgain->>= _ _ (read_interface-NeverAgain luid family)
            λ row. NeverAgain->>= _ _ (check-NeverAgain _) λ _. check-NeverAgain _

  module _ (family : Family) (conf : Config) (luid : ℕ) where
    abbrev Ends : Option (Result ℕ (Unit {0}) × S) → Type 0
    Ends o = (r : Result ℕ (Unit {0}) × S) × (o ≡ some r)

    -- Retrying is over behind fifteen attempts.
    still_retries_lt :
        (try_times : ℕ) (retry : Bool) → still_retries win try_times retry ≡ true → try_times < 15
    unfolding still_retries
    still_retries_lt try_times retry h = ground arith

    still_retries-again :
        (now : Bool) (w : S) → (attempt win now family conf luid w).0 ≡ err again → now ≡ true
    still_retries-again true w e = refl
    still_retries-again false w e =
        absurd (ground (arith, ap is_again (sym e) ∙ attempt-NeverAgain family conf luid w))

    after_attempt-Ends :
        (next : S → Option (Result ℕ (Unit {0}) × S)) (r : Result Stop (Unit {0})) (v : S)
        → (r ≡ err again → (v : S) → Ends (next v))
        → Ends (after_attempt win next r v)
    unfolding after_attempt
    after_attempt-Ends next (ok u) v f = ((ok tt, v), refl)
    after_attempt-Ends next (err (failed e)) v f = ((err e, v), refl)
    after_attempt-Ends next (err again) v f = f refl v

    attempts_end :
        (rounds try_times : ℕ) (retry : Bool) (w : S)
        → 16 ≤ try_times + rounds
        → 1 ≤ rounds
        → Ends (attempts win rounds try_times retry family conf luid w)
    unfolding attempts
    attempts_end zero try_times retry w h k = absurd (omega arith)
    attempts_end (suc rounds) try_times retry w h k =
        let now = still_retries win try_times retry in
        let r = attempt win now family conf luid w in
        after_attempt-Ends (attempts win rounds (suc try_times) now family conf luid) r.0 r.1 λ e v.
          let early = still_retries_lt try_times retry (still_retries-again now w e) in
          attempts_end rounds (suc try_times) now v (omega arith) (omega arith)

    -- The configuration of an adapter ends, whatever its calls return: sixteen attempts are enough.
    pub configure_interface_ends :
        (started_at_boot : Bool) (w : S)
        → (r : Result ℕ (Unit {0}) × S) × (configure_interface win started_at_boot family conf luid
              w
            ≡ some r)
    unfolding configure_interface
    configure_interface_ends started_at_boot w =
        attempts_end 16 0 started_at_boot w (omega arith) (omega arith)
