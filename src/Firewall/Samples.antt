-- ===== src/Firewall/Samples.antt =====
-- A small system that keeps the laws of `Engine` and `Classifier`, for the tests.
use wireroute_windows.Base.{
  ℕ, ◌≤◌, ◌≡◌, refl, sym, ap, ◌∙◌, List, [], ◌∷◌, ◌++◌, append-nil, map, Bool, true, false, ◌&&◌,
  ◌==◌, leb, leb→le, ◌⊎◌, Option, none, some, any, All, arith, if◌then◌else◌, Bool-cases, inl, inr,
}
use wireroute_windows.Base.Result.{ok, err, ok-injective}
use wireroute_windows.Base.Action.{Action}
use wireroute_windows.Firewall.Types.{Layer, Condition, Verdict, block, Filter, Error, system}
use wireroute_windows.Firewall.Engine.{Engine, Keeps, EngineLaws}
use wireroute_windows.Firewall.Rules.Lists.{bare}
use wireroute_windows.Firewall.Classifier.{
  Classifier, ClassifierLaws, Agrees, fulfilled, stands_at, weight_number,
}

-- What is in force, what is pending, and whether a transaction is open.
abbrev pub Store : Type 0
Store = List Filter × List Filter × Bool

-- Outside a transaction a filter is in force at once.
abbrev add : Filter → Bool → Store → Store
add f true s = (s.0, s.1 ++ (f ∷ []), true)
add f false s = (s.0 ++ (f ∷ []), s.1, false)

-- Calls succeed while `healthy`; the session has handle 1.
abbrev pub store : Bool → Engine
store healthy = record {
  State = Store;
  utf16_ptr_from_string = λ s. ok [];
  generate_guid = λ s. (ok 5, s);
  current_process_app_id = ok (1 ∷ []);
  current_process_security_descriptor = ok (2 ∷ []);
  engine_open = λ x s. (ok 1, ([], [], false));
  engine_close = λ h s. ([], [], false);
  transaction_begin = λ h s. (ok tt, (s.0, s.0, true));
  transaction_commit = λ h s. if healthy then (ok tt, (s.1, s.1, false)) else (err (system 5), s);
  transaction_abort = λ h s. (s.0, s.0, false);
  provider_add = λ h p s. (ok tt, s);
  sub_layer_add = λ h l s. (ok tt, s);
  filter_add = λ h f s. (ok tt, add f s.2 s);
  is_open = λ h s. s.2;
  active = λ h s. s.0;
  pending = λ h s. s.1;
}

commit_ok :
    (healthy : Bool) (h : ℕ) (s : Store)
    → ((store healthy).transaction_commit h s).0 ≡ ok tt
    → (store healthy).active h ((store healthy).transaction_commit h s).1 ≡ s.1
commit_ok true h s p = refl
commit_ok false h s p = cc

commit_err :
    (healthy : Bool) (h : ℕ) (s : Store) {x : Error}
    → ((store healthy).transaction_commit h s).0 ≡ err x
    → (store healthy).active h ((store healthy).transaction_commit h s).1 ≡ s.0
commit_err true h s p = cc
commit_err false h s p = refl

-- A call that changes nothing.
unchanged :
    (healthy : Bool) (h : ℕ) {A : Type 0} {m : Action Store Error A}
    → ((s : Store) → (m s).1 ≡ s)
    → Keeps (store healthy) h [] m
unchanged healthy h same = record {
  adds = λ s o p. ap (λ t. t.1) (same s) ∙ sym (append-nil s.1);
  stays = λ s o p. ap (λ t. t.2) (same s) ∙ o;
  inert = λ s o. ap (λ t. t.0) (same s);
}

pub store-laws : (healthy : Bool) → EngineLaws (store healthy)
store-laws healthy = record {
  open_handle = λ x s p. omega (arith, ok-injective p);
  open_active = λ x s p. refl;
  close_active = λ h s. refl;
  begin_pending = λ h s p. refl;
  begin_open = λ h s p. refl;
  begin_active = λ h s. refl;
  commit_ok = commit_ok healthy;
  commit_err = λ h s p. commit_err healthy h s p;
  abort_active = λ h s. refl;
  guid_keeps = λ h. unchanged healthy h (λ s. refl);
  provider_keeps = λ h p. unchanged healthy h (λ s. refl);
  sub_layer_keeps = λ h l. unchanged healthy h (λ s. refl);
  filter_keeps = λ h f. record {
    adds = λ s o q. ap (λ b. (add f b s).1) o;
    stays = λ s o q. ap (λ b. (add f b s).2) o;
    inert = λ s o. ap (λ b. (add f b s).0) o;
  };
}

-- The weight and the action of the heaviest filter that matches, the first of several.
abbrev heavier : ℕ × Verdict → Option (ℕ × Verdict) → Option (ℕ × Verdict)
heavier f none = some f
heavier f (some g) = if leb g.0 f.0 then some f else some g

abbrev pub heaviest : (Filter → Bool) → List Filter → Option (ℕ × Verdict)
heaviest matches [] = none
heaviest matches (f ∷ fs) =
    let rest = heaviest matches fs in
    if matches f then heavier (weight_number f.weight, f.action) rest else rest

abbrev verdict_of : Option (ℕ × Verdict) → Verdict
verdict_of none = block
verdict_of (some f) = f.1

-- A piece of traffic: its layer, and which conditions hold of it.
abbrev pub Packet : Type 0
Packet = Layer × (Condition → Bool)

abbrev picks : Packet → Filter → Bool
picks t f = stands_at f.layer_key t.0 && fulfilled t.1 f.conditions

abbrev pub sampled : Classifier
sampled = record {
  Traffic = Packet;
  layer = λ t. t.0;
  holds = λ t. t.1;
  matches = λ f t. picks t f;
  verdict = λ fs t. verdict_of (heaviest (picks t) fs);
}

module _ (t : Packet) (w : ℕ) (v : Verdict) where
  abbrev Fits : Option (ℕ × Verdict) → Type 0
  Fits none = Unit
  Fits (some f) = w ≤ f.0 → f.1 ≡ v

  heavier-Fits :
      (f : ℕ × Verdict) (o : Option (ℕ × Verdict))
      → (w ≤ f.0 → f.1 ≡ v)
      → Fits o
      → Fits (heavier f o)
  heavier-Fits f none p q = p
  heavier-Fits f (some g) p q = elim (Bool-cases (leb g.0 f.0)) [ inl e ↦ rw e p | inr e ↦ rw e q ]

  heaviest-Fits : (fs : List Filter) → All (Agrees sampled t w v) fs → Fits (heaviest (picks t) fs)
  heaviest-Fits [] h = tt
  heaviest-Fits (f ∷ fs) h = elim (Bool-cases (picks t f)) [
    | inl e ↦ rw e (heavier-Fits _ (heaviest (picks t) fs) (h.0 e) (heaviest-Fits fs h.1))
    | inr e ↦ rw e (heaviest-Fits fs h.1)
  ]

  abbrev Reaches : Option (ℕ × Verdict) → Type 0
  Reaches none = ⊥
  Reaches (some f) = w ≤ f.0

  heavier-Reaches :
      (f : ℕ × Verdict) (o : Option (ℕ × Verdict)) → (w ≤ f.0) ⊎ Reaches o → Reaches (heavier f o)
  heavier-Reaches f none (inl p) = p
  heavier-Reaches f none (inr p) = elim p [ ]
  heavier-Reaches f (some g) p = elim (Bool-cases (leb g.0 f.0)) [
    | inl e ↦ rw e (omega (arith, leb→le g.0 f.0 e))
    | inr e ↦ rw e (ground arith)
  ]

  heaviest-Reaches :
      (fs : List Filter)
      → any (λ f. (weight_number f.weight == w) && picks t f) fs ≡ true
      → Reaches (heaviest (picks t) fs)
  heaviest-Reaches [] h = cc
  heaviest-Reaches (f ∷ fs) h = elim (Bool-cases (picks t f)) [
    | inl e ↦ rw e (
        heavier-Reaches _ (heaviest (picks t) fs) (elim (Bool-cases (weight_number f.weight == w)) [
          | inl k ↦ inl (ground arith)
          | inr k ↦ inr (heaviest-Reaches fs (rw k at h))
        ]))
    | inr e ↦ rw e (heaviest-Reaches fs (ground arith))
  ]

  verdict_of-Fits : (o : Option (ℕ × Verdict)) → Fits o → Reaches o → verdict_of o ≡ v
  verdict_of-Fits none p q = elim q [ ]
  verdict_of-Fits (some f) p q = p q

heaviest-bare :
    (t : Packet) (fs : List Filter) → heaviest (picks t) (map bare fs) ≡ heaviest (picks t) fs
heaviest-bare t [] = refl
heaviest-bare t (f ∷ fs) = rw (heaviest-bare t fs)

pub sampled-laws : ClassifierLaws sampled
sampled-laws = record {
  matches_lem = λ f t. refl;
  verdict_lem = λ fs t w v d.
      verdict_of-Fits t w v (heaviest (picks t) fs) (heaviest-Fits t w v fs d.others_agree)
        (heaviest-Reaches t w v fs d.some_matches);
  verdict-bare = λ fs t. ap verdict_of (heaviest-bare t fs);
}
