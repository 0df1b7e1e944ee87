-- ===== src/Manager/Tests.antt =====
-- The theorems on the manager at concrete inputs, and runs of its code.
pub mod Samples
pub mod Sessions
use wireroute_windows.Base.{
  ℕ, ◌≡◌, ◌⊎◌, refl, List, [], ◌∷◌, ◌++◌, Bool, true, false, any, some, length, arith, ◌≤◌, ◌<◌,
}
use wireroute_windows.Base.Bytes.{little_endian, from_little_endian}
use wireroute_windows.Base.Result.{Result, ok, err}
use wireroute_windows.Base.Text.{
  Text, codes, same, trim, trim_left, trim_right, trim_space, is_space,
}
use wireroute_windows.Conf.Config.{Config}
use wireroute_windows.Conf.Name.{
  tunnel_name_is_valid, is_allowed, has_special_chars, contains_any, matches_allowed_name_format,
  starts_with, ends_with, is_reserved,
}
use wireroute_windows.Conf.Tests.Samples.{sample_config, interface_text}
use wireroute_windows.Conf.Config.Operations.{redact, is_zero}
use wireroute_windows.Manager.Available.{
  base_name, first_base, sanitized, shortened, is_dot_or_dash, is_taken, candidate, available_name,
}
use wireroute_windows.Manager.Available.Chosen.{is_free, available_name_cases}
use wireroute_windows.Manager.Available.Laws.{base_name-is_valid}
use wireroute_windows.Manager.Display.{
  validate_display_name, display_name, with_display_name, is_control,
}
use wireroute_windows.Manager.Display.Laws.{display_name-with_display_name}
use wireroute_windows.Manager.Events.{
  Event, Payload, manager_stopping, profiles_changed, notify_all, numbered_from,
  notify_all-numbered_from,
}
use wireroute_windows.Manager.Frames.{read_full, read_payload, write_all, write_bytes, write_frame}
use wireroute_windows.Manager.Frames.Laws.{Sends, write_all-Sends, write_frame-read_payload}
use wireroute_windows.Manager.Host.{Error, remote, name_conflict, access_denied, still_activating}
use wireroute_windows.Manager.Profiles.{ImportProfileRequest, detail, import_profile}
use wireroute_windows.Manager.Profiles.Detail.{with_secrets, detail-with_secrets}
use wireroute_windows.Manager.Profiles.Import.{IsImportable, import_profile_cases}
use wireroute_windows.Manager.Service.{
  Manager, delete, create, quit, stored_config, on_world, start,
}
use wireroute_windows.Manager.Service.Start.{blocks, intersecting, start_cases}
use wireroute_windows.Manager.Tests.Samples.{
  find_config, memory_host, sample_manager, administrator, user, shifted, shifted-IsLawful,
  sample_packages, pipe, pipe-IsWriter, frame_of_two,
}

abbrev no_punctuation : ℕ → Bool
no_punctuation c = false

abbrev existing : List Text
existing = codes "WG0" ∷ []

-- A device's name, a name of spaces, and one that is there already.
derived :
    (base_name no_punctuation (codes "nul") ≡ codes "WireRoute-nul")
    × (base_name no_punctuation (codes "   ") ≡ codes "WireRoute")
    × (base_name no_punctuation (codes "my home") ≡ codes "my-home")
unfolding base_name first_base sanitized shortened trim trim_left trim_right is_dot_or_dash
    is_allowed is_space tunnel_name_is_valid has_special_chars contains_any
    matches_allowed_name_format starts_with ends_with is_reserved
derived = (refl, refl, refl)

available_name_cases_example :
    ((name : Text) × (available_name no_punctuation (ok existing) (codes "wg0") ≡ ok name)
      × (tunnel_name_is_valid name ≡ true)
      × (is_taken existing name ≡ false))
    ⊎ ((available_name no_punctuation (ok existing) (codes "wg0") ≡ err (remote name_conflict))
        × (is_taken existing (base_name no_punctuation (codes "wg0")) ≡ true)
        × (is_free existing (candidate (base_name no_punctuation (codes "wg0")) 3) ≡ false))
available_name_cases_example =
    available_name_cases no_punctuation existing (codes "wg0") 3 (omega arith) (omega arith)

base_name-is_valid_example : tunnel_name_is_valid (base_name no_punctuation (codes "nul")) ≡ true
base_name-is_valid_example = base_name-is_valid no_punctuation (codes "nul")

office_validated : validate_display_name (codes " Office ") ≡ ok (codes "Office")
unfolding validate_display_name trim_space
office_validated = refl

display_name-with_display_name_example :
    display_name shifted (with_display_name shifted (codes "Office") sample_config) ≡ codes "Office"
display_name-with_display_name_example =
    display_name-with_display_name shifted shifted-IsLawful (codes " Office ") (codes "Office")
      sample_config office_validated

written_well : (write_frame pipe (some (codes "wg")) []).0 ≡ ok tt
unfolding write_frame write_all write_bytes little_endian
written_well = refl

write_frame-read_payload_example :
    (bytes : Text) × ((write_frame pipe (some (codes "wg")) []).1 ≡ [] ++ bytes)
    × ((rest : Text) → read_payload (bytes ++ rest) ≡ ok (codes "wg", rest))
write_frame-read_payload_example =
    write_frame-read_payload pipe (λ w. w) pipe-IsWriter (codes "wg") [] written_well

write_all-Sends_example : Sends pipe (λ w. w) (codes "abc") [] (write_all pipe (codes "abc") [])
write_all-Sends_example = write_all-Sends pipe (λ w. w) pipe-IsWriter (codes "abc") []

abbrev office_request : ImportProfileRequest
office_request = record { display_name = codes " Office "; wg_quick_configuration = interface_text }

import_profile_cases_example :
    ((e : Error) × (import_profile sample_packages memory_host administrator office_request
          sample_manager
        ≡ (err e, sample_manager)))
    ⊎ ((config : Config) × IsImportable sample_packages memory_host office_request
          sample_manager.world config
        × ((import_profile sample_packages memory_host administrator office_request
              sample_manager).1
            ≡ (on_world memory_host (memory_host.save config false) sample_manager).1))
import_profile_cases_example =
    import_profile_cases sample_packages memory_host administrator office_request sample_manager
      shifted-IsLawful

detail-with_secrets_example :
    detail sample_packages (with_secrets (1 ∷ []) (λ k. k) sample_config)
    ≡ detail sample_packages sample_config
detail-with_secrets_example =
    detail-with_secrets sample_packages (λ k. k) (λ k. refl) (1 ∷ []) sample_config

sample_found : find_config (codes "wg0") (sample_config ∷ []) ≡ ok sample_config
unfolding find_config same
sample_found = refl

start_cases_example :
    ((any (blocks memory_host sample_config sample_manager.world) sample_manager.tracked_tunnels
        ≡ true)
      × ((t : Text) × (start memory_host (codes "wg0") sample_manager
            ≡ (err (still_activating t), sample_manager))))
    ⊎ ((any (blocks memory_host sample_config sample_manager.world) sample_manager.tracked_tunnels
          ≡ false)
        × ((start memory_host (codes "wg0") sample_manager).1.to_stop
            ≡ []
              ++ (intersecting memory_host sample_config sample_manager.world
                    sample_manager.tracked_tunnels
                  ∷ []))
        × ((start memory_host (codes "wg0") sample_manager).1.tracked_tunnels
            ≡ sample_manager.tracked_tunnels)
        × ((start memory_host (codes "wg0") sample_manager).1.have_quit ≡ false))
start_cases_example =
    start_cases memory_host (codes "wg0") sample_config sample_manager sample_found

abbrev two_payloads : List Payload
two_payloads = profiles_changed existing ∷ manager_stopping (codes "serviceStopping") ∷ []

notify_all-numbered_from_example :
    (notify_all pipe
      (λ e. some (e.sequence ∷ []))
      two_payloads
      (record { events = some []; event_sequence = 4 })).events
    ≡ some (numbered_from pipe (λ e. some (e.sequence ∷ [])) 5 two_payloads [])
notify_all-numbered_from_example =
    notify_all-numbered_from pipe (λ e. some (e.sequence ∷ [])) two_payloads 4 [] (omega arith)
