-- ===== src/Manager/Profiles/Import.antt =====
-- What `profiles.import` saves.
use wireroute_windows.Base.{
  ℕ, ◌≡◌, ◌⊎◌, refl, sym, ap, ◌∙◌, List, true, false, ◌||◌, ◌==◌, ltb, inl, inr,
}
use wireroute_windows.Base.Result.{ok, err, ◌>>=◌, Holds, Holds_ok, Holds-if, Result-cases}
use wireroute_windows.Base.Text.{Text, utf8_length}
use wireroute_windows.Conf.Config.{Config}
use wireroute_windows.Conf.Name.{tunnel_name_is_valid}
use wireroute_windows.Conf.Parser.Quick.{from_wg_quick}
use wireroute_windows.Conf.Parser.Quick.Returned.{IsValidConfig, from_wg_quick-IsValidConfig}
use wireroute_windows.Manager.Host.{
  Error, remote, cannot_import, profile_empty_or_large, hooks_not_allowed, Host,
}
use wireroute_windows.Manager.Frames.{maximum_frame_length}
use wireroute_windows.Manager.Service.{Manager, ManagerService, on_world}
use wireroute_windows.Manager.Available.{is_taken, available_name}
use wireroute_windows.Manager.Available.Chosen.{available_name_ok}
use wireroute_windows.Manager.Display.{validate_display_name, display_name, with_display_name}
use wireroute_windows.Manager.Display.Laws.{IsLawful, display_name-with_display_name}
use wireroute_windows.Manager.Profiles.{
  Packages, ImportProfileRequest, has_hooks, checked, parsed, sized, imported, import_profile,
}

-- What holds of a configuration that is saved: it runs no commands, it is shown under the name that
-- was asked for, less the spaces around it, and its tunnel has a valid name that no stored one has.
unfoldable pub IsImportable :
    {S : Type 0} → Packages → Host S → ImportProfileRequest → S → Config → Type 0
IsImportable packages host request w config =
    (has_hooks config ≡ false)
    × (validate_display_name request.display_name ≡ ok (display_name packages.encodings config))
    × (tunnel_name_is_valid config.name ≡ true)
    × ((existing : List Text) × (host.list_config_names w ≡ ok existing)
        × (is_taken existing config.name ≡ false))

has_hooks-with_display_name :
    (packages : Packages) (name : Text) (config : Config)
    → has_hooks (with_display_name packages.encodings name config) ≡ has_hooks config
unfolding has_hooks with_display_name
has_hooks-with_display_name packages name config = refl

module _ {S : Type 0} (packages : Packages) (host : Host S) (lawful : IsLawful packages.encodings)
    (request : ImportProfileRequest) (w : S) where
  checked-Holds :
      (name tunnel : Text)
      → validate_display_name request.display_name ≡ ok name
      → available_name packages.is_punct (host.list_config_names w) name ≡ ok tunnel
      → (config : Config) → config.name ≡ tunnel
      → Holds (IsImportable packages host request w) (checked packages host name (ok config))
  unfolding checked IsImportable with_display_name
  checked-Holds name tunnel e f config named =
      let free = available_name_ok packages.is_punct (host.list_config_names w) name tunnel f in
      Holds-if (IsImportable packages host request w) (has_hooks config)
        (err (remote hooks_not_allowed)) (ok (with_display_name packages.encodings name config))
        (λ _. tt)
        (λ h. (
          has_hooks-with_display_name packages name config ∙ h,
          e
              ∙ ap ok (
                  sym (
                    display_name-with_display_name packages.encodings lawful request.display_name
                      name config e)),
          ap tunnel_name_is_valid named ∙ free.2,
          (free.0, free.1, ap (is_taken free.0) named ∙ free.3),
        ))

  parsed-Holds :
      (name tunnel : Text)
      → validate_display_name request.display_name ≡ ok name
      → available_name packages.is_punct (host.list_config_names w) name ≡ ok tunnel
      → Holds (IsImportable packages host request w) (parsed packages host request name tunnel)
  unfolding parsed checked IsValidConfig
  parsed-Holds name tunnel e f =
      elim (Result-cases (from_wg_quick packages.library request.wg_quick_configuration tunnel)) [
        | inl (config, p) ↦ rw p (
            checked-Holds name tunnel e f config
              (from_wg_quick-IsValidConfig packages.library request.wg_quick_configuration tunnel
                config p).0)
        | inr (x, p) ↦ rw p tt
      ]

  sized-Holds :
      (name : Text)
      → validate_display_name request.display_name ≡ ok name
      → Holds (IsImportable packages host request w) (sized packages host request w name)
  unfolding sized
  sized-Holds name e =
      let size = utf8_length request.wg_quick_configuration in
      let available = available_name packages.is_punct (host.list_config_names w) name in
      Holds-if (IsImportable packages host request w) (size == 0 || ltb maximum_frame_length size)
        (err (remote profile_empty_or_large)) (available >>= parsed packages host request name)
        (λ _. tt)
        (λ _. elim (Result-cases available) [
          | inl (tunnel, f) ↦ rw f (parsed-Holds name tunnel e f)
          | inr (x, f) ↦ rw f tt
        ])

  imported-Holds :
      (token : ℕ)
      → Holds (IsImportable packages host request w) (imported packages host token request w)
  unfolding imported
  imported-Holds token =
      Holds-if (IsImportable packages host request w) (token == 0) (err (remote cannot_import))
        (validate_display_name request.display_name >>= sized packages host request w) (λ _. tt)
        (λ _. elim (Result-cases (validate_display_name request.display_name)) [
          | inl (name, e) ↦ rw e (sized-Holds name e)
          | inr (x, e) ↦ rw e tt
        ])

module _ {S : Type 0} (packages : Packages) (host : Host S) where
  -- An import either saves nothing, with nothing changed, or calls for one configuration to be saved
  -- and for none to be overwritten. That configuration runs no commands; it is shown under the name
  -- that was asked for, less the spaces around it; and its tunnel has a valid name that, but for the
  -- case of letters, no stored one has. Base64 and UTF-8 are those of Go.
  pub import_profile_cases :
      (s : ManagerService) (request : ImportProfileRequest) (m : Manager S)
      → IsLawful packages.encodings
      → ((e : Error) × (import_profile packages host s request m ≡ (err e, m)))
        ⊎ ((config : Config) × IsImportable packages host request m.world config
            × ((import_profile packages host s request m).1
                ≡ (on_world host (host.save config false) m).1))
  unfolding import_profile on_world
  import_profile_cases s request m lawful =
      elim (Result-cases (imported packages host s.elevated_token request m.world)) [
        | inl (config, e) ↦ inr (
          config,
          Holds_ok (IsImportable packages host request m.world) e
              (imported-Holds packages host lawful request m.world s.elevated_token),
          rw e (elim (Result-cases (host.save config false m.world).0) [
            | inl (a, p) ↦ rw p refl
            | inr (x, p) ↦ rw p refl
          ]),
        )
        | inr (x, e) ↦ inl (x, rw e refl)
      ]
