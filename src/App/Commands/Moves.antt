-- ===== src/App/Commands/Moves.antt =====
-- apps/desktop/src-tauri/src/commands.rs: what each command does to the privacy state.
use hidden_steps.Prelude.{
  Bool, Bool-cases, List, Option-cases, Result, Result-cases, Text, ap, codes, err, false, inl, inr,
  not, ok, refl, some, sym, true, ℕ, ◌&&◌, ◌||◌, ◌∙◌, ◌≡◌,
}
use hidden_steps.Domain.Privacy.{
  PrivacyLevel, PrivacyLevelError, PrivacyState, as_u8, from_u8, initial, level_eq, manual,
}
use hidden_steps.Gate.Consent.{current_manifest_version}
use hidden_steps.Store.{Engine, EventStore, EventStoreError, PrivacyRow, of_bool}
use hidden_steps.Store.Erase.Laws.{delete_all_data_atomic, wiped}
use hidden_steps.Store.Rows.{printed}
use hidden_steps.Policy.{effective_privacy_level}
use hidden_steps.Store.State.{get_privacy_state, privacy_row, set_privacy_state, set_setting}
use hidden_steps.Store.State.Laws.{
  get_privacy_state-none, get_privacy_state-set_privacy_state, get_privacy_state_row,
}
use hidden_steps.App.Commands.{
  Command, Outside, all_erased, consent_set, data_exported, events_erased, level_requested,
  manifest_acknowledged, observation_paused, observation_resumed, onboarding_completed,
  provider_chosen, recommendation_marked, run_command, setting_written,
}
use hidden_steps.Store.Erase.{is_empty, reset_privacy_state, vacuum}
use hidden_steps.Float.{Float}
use hidden_steps.Json.{Json}
use hidden_steps.App.{AppState, CommandError, call_store, log_audit}
use hidden_steps.App.Privacy.{
  acknowledge_privacy_manifest, answered, change_privacy, complete_onboarding, level_changed,
  pause_observation, resume_observation, set_privacy_level, with_level,
}
use hidden_steps.App.Privacy.Laws.{change_privacy_cases}
use hidden_steps.App.Settings.{check_setting_key, set_cloud_consent, update_settings}
use hidden_steps.App.Data.{cleared, delete_all_data_command}
use hidden_steps.App.Commands.Frame.{
  delete_events-SameControls, export_data-SameControls, set_ai_provider-SameControls,
  set_recommendation_status-SameControls,
}

-- What a command may do to the privacy state.
pub data Effect {Value : Type 0} : Command Value → PrivacyState → PrivacyState → Type 0 where
  levels :
      {n : ℕ} {acknowledged : List Text} {p : PrivacyState} (l : PrivacyLevel) (t : ℕ)
      → Effect (level_requested n acknowledged) p (record p { current_level = l; updated_at = t })
  starts :
      {p : PrivacyState} (t : ℕ)
      → Effect onboarding_completed p (record p { observation_active = true; updated_at = t })
  resumes :
      {p : PrivacyState} (t : ℕ)
      → Effect observation_resumed p (record p { observation_active = true; updated_at = t })
  pauses :
      {p : PrivacyState} (t : ℕ)
      → Effect observation_paused p (record p { observation_active = false; updated_at = t })
  acknowledges :
      {p : PrivacyState} (t : ℕ)
      → Effect manifest_acknowledged p
          (record p { consented_manifest_version = current_manifest_version; updated_at = t })

-- A condition on the privacy state that only some commands bring about.
pub record Brought {Value : Type 0} (condition : PrivacyState → Bool) (by : Command Value → Bool)
    : Type 0 where
  pub brought :
      {c : Command Value} {p q : PrivacyState}
      → Effect c p q
      → condition q ≡ true
      → (condition p || by c) ≡ true
  pub not_initial : (t : ℕ) → condition (initial t) ≡ false

unfoldable pub met : (PrivacyState → Bool) → Result PrivacyState EventStoreError → Bool
met condition (err _) = false
met condition (ok p) = condition p

module _ {Value : Type 0} (db : Engine Value) {F : Type 0} where
  -- Whether the stored privacy state meets the condition.
  unfoldable pub meets : (PrivacyState → Bool) → EventStore F → Bool
  unfolding met
  meets condition store = met condition (get_privacy_state db store)

  -- How a command changed what is read.
  pub data Moves (c : Command Value) (before after : EventStore F) : Type 0 where
    kept : after.privacy_state ≡ before.privacy_state → Moves c before after
    moved :
        {p q : PrivacyState}
        → get_privacy_state db before ≡ ok p
        → get_privacy_state db after ≡ ok q
        → Effect c p q
        → Moves c before after
    erased :
        (t : ℕ) → after.privacy_state ≡ (wiped db t before).privacy_state → Moves c before after

  get-wiped :
      (t : ℕ) (store : EventStore F) (row : PrivacyRow)
      → store.privacy_state ≡ some row
      → get_privacy_state db (wiped db t store) ≡ ok (initial t)
  unfolding wiped reset_privacy_state initial set_privacy_state privacy_row as_u8 of_bool
  get-wiped t store row present =
      get_privacy_state_row db (wiped db t store) (set_privacy_state db (initial t) store).1 refl
      ∙ get_privacy_state-set_privacy_state db (initial t) store row present

  module _ (condition : PrivacyState → Bool) where
    meets-kept :
        (before after : EventStore F)
        → after.privacy_state ≡ before.privacy_state
        → meets condition after ≡ meets condition before
    unfolding meets
    meets-kept before after same_row =
        ap (met condition) (get_privacy_state_row db after before same_row)

    meets-wiped :
        (t : ℕ) (store : EventStore F)
        → condition (initial t) ≡ false
        → meets condition (wiped db t store) ≡ false
    unfolding meets met wiped reset_privacy_state
    meets-wiped t store h = elim (Option-cases store.privacy_state) [
      | inr (row, present) ↦ rw (get-wiped t store row present) h
      | inl missing ↦
          ap (met condition) (get_privacy_state-none db (wiped db t store) (rw missing refl))
    ]

    pub meets-Moves :
        {by : Command Value → Bool} (law : Brought condition by) {c : Command Value}
        {before after : EventStore F}
        → Moves c before after
        → meets condition after ≡ true
        → (meets condition before || by c) ≡ true
    unfolding meets met
    meets-Moves law {before = before} {after = after} (kept same_row) h =
        rw (sym (meets-kept before after same_row) ∙ h) refl
    meets-Moves law (moved read_p read_q effect) h = rw read_p (law.brought effect (rw read_q at h))
    meets-Moves law {before = before} {after = after} (erased t reset) h = absurd (
        cc
          (h, meets-kept (wiped db t before) after reset, meets-wiped t before (law.not_initial t)))

module _ (j : Json) (db : Engine j.Value) (float : Float) (now : ℕ) where
  change_privacy-Moves :
      {c : Command j.Value} {B : Type 0} (change : PrivacyState → PrivacyState)
      (state : AppState float.F)
      (rest : PrivacyState → AppState float.F → Result B CommandError × AppState float.F)
      → ((p : PrivacyState) → Effect c p (record (change p) { updated_at = now }))
      → ((p : PrivacyState) (s : AppState float.F)
          → (rest p s).1.store.privacy_state ≡ s.store.privacy_state)
      → Moves db c state.store (change_privacy j db now change state rest).1.store
  change_privacy-Moves change state rest effect logs =
      elim (change_privacy_cases j db now change state rest) [
        | inl (e, _, failed) ↦ rw failed (kept refl)
        | inr (current, after, found, returns, back, _, _) ↦ rw returns (
            moved found
              (get_privacy_state_row db (rest current after).1.store after.store
                  (logs current after)
                ∙ back)
              (effect current))
      ]

  set_cloud_consent-Moves :
      (granted : Bool) (state : AppState float.F)
      → Moves db
          (consent_set granted)
          state.store
          (set_cloud_consent j db now granted state).1.store
  unfolding set_cloud_consent set_setting call_store log_audit
  set_cloud_consent-Moves granted state =
      elim (Result-cases (printed db.value_json (j.boolean granted))) [
        | inl (t, e) ↦ rw e (kept refl)
        | inr (f, e) ↦ rw e (kept refl)
      ]

  update_settings-Moves :
      (key : Text) (value : j.Value) (state : AppState float.F)
      → Moves db
          (setting_written key value)
          state.store
          (update_settings j db key value state).1.store
  unfolding update_settings set_setting call_store
  update_settings-Moves key value state = elim (Result-cases (check_setting_key key)) [
    | inr (f, refused) ↦ rw (refused, update_settings) (kept refl)
    | inl (u, fine) ↦ elim (Result-cases (printed db.value_json value)) [
      | inl (t, e) ↦ rw (fine, update_settings) (rw e (kept refl))
      | inr (f, e) ↦ rw (fine, update_settings) (rw e (kept refl))
    ]
  ]

  -- The check before a level is changed.
  with_level-Moves :
      (n : ℕ) (acknowledged : List Text) (state : AppState float.F)
      (requested : Result PrivacyLevel PrivacyLevelError)
      → Moves db
          (level_requested n acknowledged)
          state.store
          (with_level j db now acknowledged state requested).1.store
  unfolding with_level level_changed log_audit
  with_level-Moves n acknowledged state (err e) = kept refl
  with_level-Moves n acknowledged state (ok requested) =
      let effective = effective_privacy_level state.enterprise_policy requested in
      elim (Bool-cases (not (level_eq requested manual) && is_empty acknowledged)) [
        | inl refused ↦ rw refused (kept refl)
        | inr fine ↦ rw fine (
            change_privacy-Moves (λ c. record c { current_level = effective }) state
              (level_changed j db now acknowledged requested effective) (λ p. levels effective now)
              (λ p s. refl))
      ]

  module _ {World : Type 0} (outside : Outside World) where
    delete_all_data-Moves :
        (new_key : Text) (state : AppState float.F) (world : World)
        → Moves db
            (all_erased new_key)
            state.store
            (delete_all_data_command j db float outside.vault outside.fails outside.rekey now
              new_key state world).0.1.store
    unfolding delete_all_data_command cleared
    delete_all_data-Moves new_key state world =
        elim (delete_all_data_atomic db outside.fails now state.store) [
          | inl (s, _, failed) ↦ rw failed (kept refl)
          | inr wiped_all ↦ elim (Bool-cases (outside.fails vacuum)) [
            | inl failed ↦ rw wiped_all (rw failed (erased now refl))
            | inr fine ↦ rw wiped_all (rw fine (erased now refl))
          ]
        ]

    pub run_command-Moves :
        (c : Command j.Value) (state : AppState float.F) (world : World)
        → Moves db c state.store (run_command j db float outside now c state world).0.store
    unfolding run_command set_privacy_level complete_onboarding acknowledge_privacy_manifest
        pause_observation resume_observation answered log_audit
    run_command-Moves (provider_chosen query) state world =
        kept (set_ai_provider-SameControls j db float now outside.vault query state world).privacy
    run_command-Moves (level_requested level acknowledged) state world =
        with_level-Moves level acknowledged state (from_u8 level)
    run_command-Moves onboarding_completed state world =
        change_privacy-Moves (λ c. record c { observation_active = true }) state
          (answered j db now true (codes "observation_started") j.empty) (λ p. starts now)
          (λ p s. refl)
    run_command-Moves manifest_acknowledged state world =
        change_privacy-Moves
          (λ c. record c { consented_manifest_version = current_manifest_version }) state
          (answered j db now true (codes "privacy_manifest_reconsented")
            (j.insert (codes "version") (j.number current_manifest_version) j.empty))
          (λ p. acknowledges now) (λ p s. refl)
    run_command-Moves observation_paused state world =
        change_privacy-Moves (λ c. record c { observation_active = false }) state
          (answered j db now false (codes "observation_paused") j.empty) (λ p. pauses now)
          (λ p s. refl)
    run_command-Moves observation_resumed state world =
        change_privacy-Moves (λ c. record c { observation_active = true }) state
          (answered j db now true (codes "observation_resumed") j.empty) (λ p. resumes now)
          (λ p s. refl)
    run_command-Moves (events_erased ids) state world =
        kept (delete_events-SameControls j db float now ids state).privacy
    run_command-Moves data_exported state world =
        kept (export_data-SameControls j db float now state).privacy
    run_command-Moves (all_erased new_key) state world = delete_all_data-Moves new_key state world
    run_command-Moves (recommendation_marked id status reason) state world =
        kept (set_recommendation_status-SameControls j db float now id status reason state).privacy
    run_command-Moves (consent_set granted) state world = set_cloud_consent-Moves granted state
    run_command-Moves (setting_written key value) state world =
        update_settings-Moves key value state
