-- ===== src/App/Commands/Consent.antt =====
-- apps/desktop/src-tauri/src/commands.rs and main.rs: the general consent along the commands.
use hidden_steps.Prelude.{
  Bool, Bool-cases, List, Option, Result, Text, [], all, and-true, err, false, inl, inr, not, ok,
  refl, true, ℕ, ◌&&◌, ◌∙◌, ◌∷◌, ◌≡◌,
}
use hidden_steps.Domain.Privacy.{
  PrivacyLevel, PrivacyLevelError, PrivacyState, from_u8, level_eq, manual,
}
use hidden_steps.Float.{Float}
use hidden_steps.Json.{Json}
use hidden_steps.Policy.{EnterprisePolicy, effective_privacy_level}
use hidden_steps.Store.{Engine, EventStore}
use hidden_steps.Store.Erase.{is_empty}
use hidden_steps.App.{AppState, CommandError, log_audit}
use hidden_steps.App.Launch.{launch}
use hidden_steps.App.Privacy.{
  acknowledge_privacy_manifest, answered, change_privacy, complete_onboarding, level_changed,
  pause_observation, resume_observation, set_privacy_level, with_level,
}
use hidden_steps.App.Privacy.Laws.{change_privacy_cases}
use hidden_steps.App.Settings.Synced.{Synced, Synced-kept, launch-Synced, set_cloud_consent-Synced}
use hidden_steps.App.Commands.{
  Command, Outside, all_erased, consent_set, data_exported, events_erased, level_requested,
  manifest_acknowledged, observation_paused, observation_resumed, onboarding_completed,
  provider_chosen, recommendation_marked, run_command, run_commands, setting_written,
}
use hidden_steps.App.Commands.Frame.{
  SameControls, delete_events-SameControls, export_data-SameControls, set_ai_provider-SameControls,
  set_recommendation_status-SameControls,
}
use hidden_steps.Gate.Consent.{current_manifest_version}

-- The commands that do not write the settings behind the gate's back.
abbrev pub respects_gate : {Value : Type 0} → Command Value → Bool
respects_gate (all_erased _) = false
respects_gate (setting_written _ _) = false
respects_gate _ = true

module _ (j : Json) (db : Engine j.Value) {F : Type 0} where
  same-Synced :
      {before after : AppState F}
      → SameControls before after
      → Synced j db before
      → Synced j db after
  same-Synced {before} {after} same_all h =
      Synced-kept j db before after same_all.settings same_all.gate h

  change_privacy-Synced :
      {B : Type 0} (now : ℕ) (change : PrivacyState → PrivacyState) (state : AppState F)
      (rest : PrivacyState → AppState F → Result B CommandError × AppState F)
      → ((p : PrivacyState) (s : AppState F) → (rest p s).1.store.settings ≡ s.store.settings)
      → ((p : PrivacyState) (s : AppState F) → (rest p s).1.gate ≡ s.gate)
      → Synced j db state
      → Synced j db (change_privacy j db now change state rest).1
  change_privacy-Synced now change state rest logs gates h =
      elim (change_privacy_cases j db now change state rest) [
        | inl (e, _, failed) ↦ rw failed h
        | inr (current, after, _, returns, _, settings, gate) ↦ rw returns (
            Synced-kept j db state (rest current after).1 (logs current after ∙ settings)
              (gates current after ∙ gate) h)
      ]

  with_level-Synced :
      (now : ℕ) (acknowledged : List Text) (state : AppState F)
      (requested : Result PrivacyLevel PrivacyLevelError)
      → Synced j db state
      → Synced j db (with_level j db now acknowledged state requested).1
  unfolding with_level level_changed log_audit
  with_level-Synced now acknowledged state (err e) h = h
  with_level-Synced now acknowledged state (ok requested) h =
      let effective = effective_privacy_level state.enterprise_policy requested in
      elim (Bool-cases (not (level_eq requested manual) && is_empty acknowledged)) [
        | inl refused ↦ rw refused h
        | inr fine ↦ rw fine (
            change_privacy-Synced now (λ c. record c { current_level = effective }) state
              (level_changed j db now acknowledged requested effective) (λ p s. refl) (λ p s. refl)
              h)
      ]

  answered-Synced :
      (now : ℕ) (change : PrivacyState → PrivacyState) (answer : Bool) (action : Text)
      (details : j.Map) (state : AppState F)
      → Synced j db state
      → Synced j db
          (change_privacy j db now change state (answered j db now answer action details)).1
  unfolding answered log_audit
  answered-Synced now change answer action details state h =
      change_privacy-Synced now change state (answered j db now answer action details) (λ p s. refl)
        (λ p s. refl) h

module _ (j : Json) (db : Engine j.Value) (float : Float) {World : Type 0}
    (outside : Outside World) where
  run_command-Synced :
      (now : ℕ) (c : Command j.Value) (state : AppState float.F) (world : World)
      → respects_gate c ≡ true
      → Synced j db state
      → Synced j db (run_command j db float outside now c state world).0
  unfolding run_command set_privacy_level complete_onboarding acknowledge_privacy_manifest
      pause_observation resume_observation
  run_command-Synced now (provider_chosen query) state world r h =
      same-Synced j db (set_ai_provider-SameControls j db float now outside.vault query state world)
        h
  run_command-Synced now (level_requested level acknowledged) state world r h =
      with_level-Synced j db now acknowledged state (from_u8 level) h
  run_command-Synced now onboarding_completed state world r h =
      answered-Synced j db now (λ c. record c { observation_active = true }) true _ _ state h
  run_command-Synced now manifest_acknowledged state world r h =
      answered-Synced j db now
        (λ c. record c { consented_manifest_version = current_manifest_version }) true _ _ state h
  run_command-Synced now observation_paused state world r h =
      answered-Synced j db now (λ c. record c { observation_active = false }) false _ _ state h
  run_command-Synced now observation_resumed state world r h =
      answered-Synced j db now (λ c. record c { observation_active = true }) true _ _ state h
  run_command-Synced now (events_erased ids) state world r h =
      same-Synced j db (delete_events-SameControls j db float now ids state) h
  run_command-Synced now data_exported state world r h =
      same-Synced j db (export_data-SameControls j db float now state) h
  run_command-Synced now (all_erased new_key) state world r h = cc
  run_command-Synced now (recommendation_marked id status reason) state world r h =
      same-Synced j db
        (set_recommendation_status-SameControls j db float now id status reason state) h
  run_command-Synced now (consent_set granted) state world r h =
      set_cloud_consent-Synced j db now granted state h
  run_command-Synced now (setting_written key value) state world r h = cc

  run_commands-Synced :
      (commands : List (ℕ × Command j.Value)) (state : AppState float.F) (world : World)
      → all (λ c. respects_gate c.1) commands ≡ true
      → Synced j db state
      → Synced j db (run_commands j db float outside commands state world).0
  unfolding run_commands
  run_commands-Synced [] state world r h = h
  run_commands-Synced ((now, c) ∷ commands) state world r h =
      let (respects, rest) = and-true (respects_gate c) _ r in
      let (after, outer) = run_command j db float outside now c state world in
      run_commands-Synced commands after outer rest
        (run_command-Synced now c state world respects h)

  -- After a launch with any store and policy file, and any commands but the deletion of all data and
  -- the general command that writes a setting, the gate in memory has the general cloud consent
  -- exactly when the settings hold it, so that the next launch gives the gate the same.
  pub launch-run_commands-Synced :
      {E : Type 0} (from_str : Text → Result EnterprisePolicy E) (now : ℕ)
      (policy_file : Option Text) (opened : EventStore float.F)
      (commands : List (ℕ × Command j.Value)) (world : World)
      → all (λ c. respects_gate c.1) commands ≡ true
      → Synced j db
          (run_commands j db float outside commands
            (launch j db from_str now policy_file opened)
            world).0
  launch-run_commands-Synced from_str now policy_file opened commands world respects =
      run_commands-Synced commands (launch j db from_str now policy_file opened) world respects
        (launch-Synced j db from_str now policy_file opened)
