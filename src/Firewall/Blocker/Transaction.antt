-- ===== src/Firewall/Blocker/Transaction.antt =====
-- `runTransaction` of tunnel/firewall/helpers.go, over any operation.
use wireroute_windows.Base.{ℕ, ◌≡◌, refl, ◌∙◌, List}
use wireroute_windows.Base.Result.{Result, ok, err}
use wireroute_windows.Base.Action.{Action, on_error, or_undo, continue, ◌>>=◌, ◌>>◌}
use wireroute_windows.Firewall.Types.{Filter, Error}
use wireroute_windows.Firewall.Engine.{Engine, IsOpen, EngineLaws}
use wireroute_windows.Firewall.Blocker.{run_transaction}

abbrev Outcome : Type 0
Outcome = Result Error (Unit {0})

-- How a transaction on session `h` may end, where its beginning returned `begun`, and its operation
-- returned `done` and left the state `opened`: both succeeded and all that was pending there is in
-- force, or what was in force before is.
abbrev pub AllOrNothing :
    (e : Engine)
    → ℕ
    → List Filter
    → Result Error (Unit {0})
    → Result Error (Unit {0})
    → e.State
    → Result Error (Unit {0}) × e.State
    → Type 0
AllOrNothing e h before begun done opened (ok _, s) =
    (begun ≡ ok tt) × (done ≡ ok tt) × (e.active h s ≡ e.pending h opened)
AllOrNothing e h before begun done opened (err _, s) = e.active h s ≡ before

module _ (e : Engine) (laws : EngineLaws e) (h : ℕ) (op : ℕ → Action e.State Error (Unit {0})) where
  commit_cases :
      (before : List Filter) (done r : Outcome) (s s' : e.State)
      → done ≡ ok tt
      → (r ≡ ok tt → e.active h s' ≡ e.pending h s)
      → ((x : Error) → r ≡ err x → e.active h s' ≡ before)
      → AllOrNothing e h before (ok tt) done s (or_undo (r, s') (e.transaction_abort h))
  commit_cases before done (ok tt) s s' d p q = (refl, d, p refl)
  commit_cases before done (err x) s s' d p q = laws.abort_active h s' ∙ q x refl

  operation_cases :
      (before : List Filter) (r : Outcome) (s : e.State)
      → e.active h s ≡ before
      → let out = or_undo (r, s) (e.transaction_abort h) in
        AllOrNothing e h before
          (ok tt)
          r
          s
          (continue out.0 out.1 (λ _. on_error (e.transaction_commit h) (e.transaction_abort h)))
  unfolding on_error
  operation_cases before (ok tt) s p =
      commit_cases before (ok tt) (e.transaction_commit h s).0 s (e.transaction_commit h s).1 refl
        (laws.commit_ok h s) (λ x q. laws.commit_err h s q ∙ p)
  operation_cases before (err x) s p = laws.abort_active h s ∙ p

  begin_cases :
      (s0 s : e.State) (r : Outcome)
      → ((s : e.State) → IsOpen e h s → e.active h (op h s).1 ≡ e.active h s)
      → (r ≡ ok tt → IsOpen e h s)
      → e.active h s ≡ e.active h s0
      → AllOrNothing e h (e.active h s0) r (op h s).0 (op h s).1 (
          continue r s λ _. do
            on_error (op h) (e.transaction_abort h)
            on_error (e.transaction_commit h) (e.transaction_abort h))
  unfolding ◌>>=◌ on_error
  begin_cases s0 s (ok tt) inert o p =
      operation_cases (e.active h s0) (op h s).0 (op h s).1 (inert s (o refl) ∙ p)
  begin_cases s0 s (err x) inert o p = p

  -- For an operation that itself puts nothing in force while a transaction is open: if the
  -- transaction succeeds then so did the operation and all that it left pending is in force, and if
  -- it fails the session has in force what it had before.
  pub run_transaction-AllOrNothing :
      ((s : e.State) → IsOpen e h s → e.active h (op h s).1 ≡ e.active h s)
      → (s : e.State)
      → let (begun, s') = e.transaction_begin h s in
        let (done, opened) = op h s' in
        AllOrNothing e h (e.active h s) begun done opened (run_transaction e h op s)
  unfolding run_transaction ◌>>=◌
  run_transaction-AllOrNothing inert s =
      begin_cases s (e.transaction_begin h s).1 (e.transaction_begin h s).0 inert
        (laws.begin_open h s) (laws.begin_active h s)
