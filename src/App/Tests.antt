-- ===== src/App/Tests.antt =====
-- The commands on a concrete state.
use hidden_steps.Prelude.{
  List, Result, Text, [], any, codes, err, false, none, not, ok, refl, some, true, ℕ, ◌&&◌, ◌+◌,
  ◌∷◌, ◌≡◌, ◌⊎◌,
}
use hidden_steps.Samples.{Node, empty_store, one_code, tree_json, whole}
use hidden_steps.Domain.Privacy.{
  PrivacyLevel, PrivacyState, as_u8, from_u8, initial, level_eq, manual, workflow_metadata,
}
use hidden_steps.Gate.{new_gate}
use hidden_steps.Policy.{EnterprisePolicy, effective_privacy_level}
use hidden_steps.Store.Erase.{is_empty}
use hidden_steps.Store.State.{get_privacy_state, privacy_row}
use hidden_steps.App.{AppState, CommandError}
use hidden_steps.App.Privacy.{set_privacy_level}
use hidden_steps.App.Privacy.Laws.{set_privacy_level_cases}
use hidden_steps.App.Providers.{SetAiProviderRequest, Vault, set_ai_provider}
use hidden_steps.App.Providers.Secret.{set_ai_provider-with_key, with_key}
use hidden_steps.App.Settings.Synced.{Synced}
use hidden_steps.App.Launch.{launch, no_policy}
use hidden_steps.App.Commands.{
  Command, Outside, consent_set, level_requested, manifest_acknowledged, onboarding_completed,
  run_commands,
}
use hidden_steps.App.Commands.Consent.{launch-run_commands-Synced}
use hidden_steps.App.Commands.Informed.{
  acknowledges_manifest, observes-any, requests_level, starts_observation,
}
use hidden_steps.App.Observation.{observes}
use hidden_steps.Store.{of_bool}

abbrev no_json : Text → Result EnterprisePolicy Text
no_json t = err (codes "no policy")

abbrev fresh : AppState ℕ
fresh = record {
  store = record empty_store { privacy_state = some (privacy_row one_code (initial 3)) };
  gate = new_gate;
  enterprise_policy = no_policy;
}

abbrev permissions : List Text
permissions = codes "app_focus" ∷ []

set_privacy_level_cases_example :
    ((e : CommandError) × (set_privacy_level tree_json one_code 7 2 permissions fresh
        ≡ (err e, fresh)))
    ⊎ ((requested : PrivacyLevel) × (current : PrivacyState) × (after : AppState ℕ) × (as_u8
            requested
          ≡ 2)
        × (not (level_eq requested manual) && is_empty permissions ≡ false)
        × (get_privacy_state one_code fresh.store ≡ ok current)
        × (set_privacy_level tree_json one_code 7 2 permissions fresh
            ≡ (ok (as_u8 (effective_privacy_level no_policy requested)), after))
        × (get_privacy_state one_code after.store
            ≡ ok (record current {
              current_level = effective_privacy_level no_policy requested;
              updated_at = 7;
            })))
set_privacy_level_cases_example = set_privacy_level_cases tree_json one_code 7 2 permissions fresh

-- A vault that counts what it was given.
abbrev pub counting_vault : Vault ℕ
counting_vault = record { set = λ entry secret n. (ok tt, n + 1); get = λ entry n. ok none }

abbrev cloud : SetAiProviderRequest
cloud = record {
  id = codes "openai";
  provider_type = codes "openai";
  is_local = false;
  model_name = some (codes "m");
  endpoint = none;
  api_key = none;
}

set_ai_provider-with_key_example :
    (set_ai_provider tree_json one_code counting_vault 7 (with_key (codes "a") cloud) fresh 0).0
    ≡ (set_ai_provider tree_json one_code counting_vault 7 (with_key (codes "b") cloud) fresh 5).0
set_ai_provider-with_key_example =
    set_ai_provider-with_key tree_json one_code counting_vault 7 cloud (codes "a") (codes "b") fresh
      0 5 1 6 refl refl

abbrev outside : Outside ℕ
outside = record { vault = counting_vault; fails = λ s. false; rekey = λ key n. (ok tt, n) }

abbrev onboarding : List (ℕ × Command Node)
onboarding =
    (4, level_requested 2 permissions)
    ∷ (5, manifest_acknowledged)
    ∷ (6, onboarding_completed)
    ∷ (7, consent_set true)
    ∷ []

launch-run_commands-Synced_example :
    Synced tree_json one_code
      (run_commands tree_json one_code whole outside onboarding
        (launch tree_json one_code no_json 3 none empty_store)
        0).0
launch-run_commands-Synced_example =
    launch-run_commands-Synced tree_json one_code whole outside no_json 3 none empty_store
      onboarding 0 refl

abbrev pub observing : PrivacyState
observing = record {
  current_level = workflow_metadata;
  consented_manifest_version = 1;
  observation_active = true;
  updated_at = 6;
}

onboarding_observes :
    get_privacy_state one_code
      (run_commands tree_json one_code whole outside onboarding
        (launch tree_json one_code no_json 3 none empty_store)
        0).0.store
    ≡ ok observing
unfolding get_privacy_state run_commands launch from_u8 of_bool
onboarding_observes = refl

observing-observes : observes observing ≡ true
unfolding observes
observing-observes = refl

observes-any_example :
    (any (λ c. starts_observation c.1) onboarding ≡ true)
    × (any (λ c. requests_level c.1) onboarding ≡ true)
    × (any (λ c. acknowledges_manifest c.1) onboarding ≡ true)
observes-any_example =
    observes-any tree_json one_code whole outside no_json none 3 empty_store onboarding 0 observing
      refl onboarding_observes observing-observes
