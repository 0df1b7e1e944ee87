-- ===== src/Firewall/Engine.antt =====
-- The Windows calls of tunnel/firewall (fwpuclnt.dll and the process token), as an interface: each
-- returns its result with the new state of the system. `EngineLaws` states what Microsoft's
-- documentation says of a dynamic session and of its transactions.
use Prim.Native.String.{String}
use wireroute_windows.Base.{ℕ, ◌<◌, ◌≡◌, List, [], ◌∷◌, ◌++◌, Bool, true}
use wireroute_windows.Base.Result.{Result, ok, err}
use wireroute_windows.Base.Action.{Action}
use wireroute_windows.Firewall.Types.{Filter, Provider, SubLayer, Session, Error}

pub record Engine : Type 1 where
  pub State : Type 0
  -- `windows.UTF16PtrFromString`
  pub utf16_ptr_from_string : String → Result Error (List ℕ)
  pub generate_guid : Action State Error ℕ
  -- `getCurrentProcessAppID` and `getCurrentProcessSecurityDescriptor`
  pub current_process_app_id : Result Error (List ℕ)
  pub current_process_security_descriptor : Result Error (List ℕ)
  pub engine_open : Session → Action State Error ℕ
  pub engine_close : ℕ → State → State
  pub transaction_begin : ℕ → Action State Error (Unit {0})
  pub transaction_commit : ℕ → Action State Error (Unit {0})
  pub transaction_abort : ℕ → State → State
  pub provider_add : ℕ → Provider → Action State Error (Unit {0})
  pub sub_layer_add : ℕ → SubLayer → Action State Error (Unit {0})
  pub filter_add : ℕ → Filter → Action State Error (Unit {0})
  -- Whether a session has an open transaction, what it has in force, and what its open transaction
  -- would put in force.
  pub is_open : ℕ → State → Bool
  pub active : ℕ → State → List Filter
  pub pending : ℕ → State → List Filter

abbrev pub IsOpen : (e : Engine) → ℕ → e.State → Type 0
IsOpen e h s = e.is_open h s ≡ true

-- A call of an open transaction that succeeds adds `fs` and leaves it open, and none puts anything in
-- force.
pub record Keeps (e : Engine) (h : ℕ) {A : Type 0} (fs : List Filter) (m : Action e.State Error A)
    : Type 0 where
  pub adds :
      (s : e.State) {a : A}
      → IsOpen e h s
      → (m s).0 ≡ ok a
      → e.pending h (m s).1 ≡ e.pending h s ++ fs
  pub stays : (s : e.State) {a : A} → IsOpen e h s → (m s).0 ≡ ok a → IsOpen e h (m s).1
  pub inert : (s : e.State) → IsOpen e h s → e.active h (m s).1 ≡ e.active h s

pub record EngineLaws (e : Engine) : Type 0 where
  pub open_handle : (x : Session) (s : e.State) {h : ℕ} → (e.engine_open x s).0 ≡ ok h → 0 < h
  pub open_active :
      (x : Session) (s : e.State) {h : ℕ}
      → (e.engine_open x s).0 ≡ ok h
      → e.active h (e.engine_open x s).1 ≡ []
  pub close_active : (h : ℕ) (s : e.State) → e.active h (e.engine_close h s) ≡ []
  pub begin_pending :
      (h : ℕ) (s : e.State)
      → (e.transaction_begin h s).0 ≡ ok tt
      → e.pending h (e.transaction_begin h s).1 ≡ e.active h s
  pub begin_open :
      (h : ℕ) (s : e.State)
      → (e.transaction_begin h s).0 ≡ ok tt
      → IsOpen e h (e.transaction_begin h s).1
  pub begin_active : (h : ℕ) (s : e.State) → e.active h (e.transaction_begin h s).1 ≡ e.active h s
  pub commit_ok :
      (h : ℕ) (s : e.State)
      → (e.transaction_commit h s).0 ≡ ok tt
      → e.active h (e.transaction_commit h s).1 ≡ e.pending h s
  pub commit_err :
      (h : ℕ) (s : e.State) {x : Error}
      → (e.transaction_commit h s).0 ≡ err x
      → e.active h (e.transaction_commit h s).1 ≡ e.active h s
  pub abort_active : (h : ℕ) (s : e.State) → e.active h (e.transaction_abort h s) ≡ e.active h s
  pub guid_keeps : (h : ℕ) → Keeps e h [] e.generate_guid
  pub provider_keeps : (h : ℕ) (p : Provider) → Keeps e h [] (e.provider_add h p)
  pub sub_layer_keeps : (h : ℕ) (l : SubLayer) → Keeps e h [] (e.sub_layer_add h l)
  pub filter_keeps : (h : ℕ) (f : Filter) → Keeps e h (f ∷ []) (e.filter_add h f)
