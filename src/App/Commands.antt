-- ===== src/App/Commands.antt =====
-- apps/desktop/src-tauri/src/commands.rs: the commands that change the state, as the values that the
-- interface sends, and their sequences. A command that only reads leaves the state as it is.
pub mod Frame
pub mod Moves
pub mod Consent
pub mod Informed
use hidden_steps.Prelude.{Bool, List, Option, Result, Text, [], ℕ, ◌∷◌}
use hidden_steps.Float.{Float}
use hidden_steps.Json.{Json}
use hidden_steps.Store.{Engine, EventStoreError}
use hidden_steps.Store.Erase.{Statement}
use hidden_steps.App.{AppState}
use hidden_steps.App.Data.{
  delete_all_data_command, delete_events_command, export_data_command,
  set_recommendation_status_command,
}
use hidden_steps.App.Privacy.{
  acknowledge_privacy_manifest, complete_onboarding, pause_observation, resume_observation,
  set_privacy_level,
}
use hidden_steps.App.Providers.{SetAiProviderRequest, Vault, set_ai_provider}
use hidden_steps.App.Settings.{set_cloud_consent, update_settings}

pub data Command (Value : Type 0) : Type 0 where
  provider_chosen : SetAiProviderRequest → Command Value
  level_requested : (level : ℕ) (acknowledged : List Text) → Command Value
  onboarding_completed manifest_acknowledged : Command Value
  observation_paused observation_resumed : Command Value
  events_erased : List ℕ → Command Value
  data_exported : Command Value
  all_erased : (new_key : Text) → Command Value
  recommendation_marked : (id : ℕ) (status : Text) (reason : Option Text) → Command Value
  consent_set : Bool → Command Value
  setting_written : Text → Value → Command Value

-- What commands use outside the program: the vault, the statements that fail, and `PRAGMA rekey`.
pub record Outside (World : Type 0) : Type 0 where
  pub vault : Vault World
  pub fails : Statement → Bool
  pub rekey : Text → World → Result (Unit {0}) EventStoreError × World

module _ (j : Json) (db : Engine j.Value) (float : Float) {World : Type 0}
    (outside : Outside World) where
  unfoldable pub run_command :
      ℕ → Command j.Value → AppState float.F → World → AppState float.F × World
  unfolding set_ai_provider set_privacy_level complete_onboarding acknowledge_privacy_manifest
      pause_observation resume_observation delete_events_command export_data_command
      delete_all_data_command set_recommendation_status_command set_cloud_consent update_settings
  run_command now (provider_chosen query) state world =
      let (result, after) = set_ai_provider j db outside.vault now query state world in
      (result.1, after)
  run_command now (level_requested level acknowledged) state world =
      ((set_privacy_level j db now level acknowledged state).1, world)
  run_command now onboarding_completed state world = ((complete_onboarding j db now state).1, world)
  run_command now manifest_acknowledged state world =
      ((acknowledge_privacy_manifest j db now state).1, world)
  run_command now observation_paused state world = ((pause_observation j db now state).1, world)
  run_command now observation_resumed state world = ((resume_observation j db now state).1, world)
  run_command now (events_erased ids) state world =
      ((delete_events_command j db float now ids state).1, world)
  run_command now data_exported state world = ((export_data_command j db float now state).1, world)
  run_command now (all_erased new_key) state world =
      let (result, after) =
        delete_all_data_command j db float outside.vault outside.fails outside.rekey now new_key
          state world in
      (result.1, after)
  run_command now (recommendation_marked id status reason) state world =
      ((set_recommendation_status_command j db float id status reason state).1, world)
  run_command now (consent_set granted) state world =
      ((set_cloud_consent j db now granted state).1, world)
  run_command now (setting_written key value) state world =
      ((update_settings j db key value state).1, world)

  unfoldable pub run_commands :
      List (ℕ × Command j.Value) → AppState float.F → World → AppState float.F × World
  unfolding run_command
  run_commands [] state world = (state, world)
  run_commands ((now, command) ∷ commands) state world =
      let (after, outer) = run_command now command state world in run_commands commands after outer
