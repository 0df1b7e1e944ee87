-- ===== src/Manager/Events.antt =====
-- manager/protocol_v1.go: the events that a session's client is told of.
use wireroute_windows.Base.{
  ℕ, suc, ◌+◌, ◌<◌, ◌%◌, ◌^◌, ◌≡◌, refl, ap, ◌∙◌, List, [], ◌∷◌, Bool, length, Option, none, some,
  arith, if◌then◌else◌,
}
use wireroute_windows.Base.Numbers.{ℤ}
use wireroute_windows.Base.Result.{Result, ok, err}
use wireroute_windows.Base.Text.{Text, codes}
use wireroute_windows.Conf.Name.Sort.{tunnel_name_is_less}
use wireroute_windows.Manager.Host.{TunnelState, Error}
use wireroute_windows.Manager.Frames.{write_frame}
use wireroute_windows.Manager.Profiles.{Packages, state_name}
use wireroute_windows.Manager.Protocol.{protocol_version}

-- The payloads, one constructor for each name of an event.
pub data Payload : Type 0 where
  profiles_changed : (profile_names : List Text) → Payload
  tunnel_state_changed : (name state : Text) → (error_code : Option Text) → Payload
  manager_stopping : (reason : Text) → Payload

pub record Event : Type 0 where
  pub version : ℤ
  pub sequence : ℕ
  pub payload : Payload

-- The part of a `managerV1Service` that is about events; the file is gone when the session has ended.
pub record EventSink (W : Type 0) : Type 0 where
  pub events : Option W
  pub event_sequence : ℕ

-- None if the directory cannot be read.
unfoldable pub notify_profiles_changed :
    Packages → (listed : Result Error (List Text)) → Option Payload
notify_profiles_changed packages (err e) = none
notify_profiles_changed packages (ok names) =
    some
      (profiles_changed (packages.sort_slice (tunnel_name_is_less packages.library.to_lower) names))

unfoldable pub notify_tunnel_changed : Text → TunnelState → (failed : Bool) → Payload
notify_tunnel_changed name state failed =
    tunnel_state_changed name (state_name state)
      (if failed then some (codes "tunnelError") else none)

unfoldable pub notify_manager_stopping : Payload
notify_manager_stopping = manager_stopping (codes "serviceStopping")

module _ {W : Type 0} (write : W → Text → (ℕ × Bool) × W) (marshal : Event → Option Text) where
  -- The routine of `managerV1Notify` for one session. A write that fails is passed over.
  unfoldable pub notify : Payload → EventSink W → EventSink W
  notify payload sink = open_file sink.events
    where
      open_file : Option W → EventSink W
      open_file none = sink
      open_file (some file) =
          let sequence = (sink.event_sequence + 1) % 2 ^ 64 in
          record {
            events =
                some
                  (write_frame write
                    (marshal (record {
                      version = protocol_version;
                      sequence = sequence;
                      payload = payload;
                    }))
                    file).1;
            event_sequence = sequence;
          }

  unfoldable pub notify_all : List Payload → EventSink W → EventSink W
  notify_all [] sink = sink
  notify_all (payload ∷ payloads) sink = notify_all payloads (notify payload sink)

  -- The file behind the write of an event with this number.
  abbrev pub written : ℕ → Payload → W → W
  written n payload file =
      (write_frame write
        (marshal (record { version = protocol_version; sequence = n; payload = payload })) file).1

  -- The events of these payloads with numbers from n on, written one behind the other.
  abbrev pub numbered_from : ℕ → List Payload → W → W
  numbered_from n [] file = file
  numbered_from n (payload ∷ payloads) file =
      numbered_from (suc n) payloads (written n payload file)

  notify_open :
      (payload : Payload) (n : ℕ) (file : W)
      → suc n < 2 ^ 64
      → notify payload (record { events = some file; event_sequence = n })
        ≡ record { events = some (written (suc n) payload file); event_sequence = suc n }
  unfolding notify
  notify_open payload n file h =
      ap (λ k. record { events = some (written k payload file); event_sequence = k })
        {x = (n + 1) % 2 ^ 64} {y = suc n} (omega arith)

  -- The events of an open session are numbered without a gap, whether they can be written or not, as
  -- long as there are fewer than 2^64.
  pub notify_all-numbered_from :
      (payloads : List Payload) (n : ℕ) (file : W)
      → n + length payloads < 2 ^ 64
      → (notify_all payloads (record { events = some file; event_sequence = n })).events
        ≡ some (numbered_from (suc n) payloads file)
  unfolding notify_all
  notify_all-numbered_from [] n file h = refl
  notify_all-numbered_from (payload ∷ payloads) n file h =
      ap (λ sink. (notify_all payloads sink).events) (notify_open payload n file (omega arith))
      ∙ notify_all-numbered_from payloads (suc n) (written (suc n) payload file) (omega arith)
