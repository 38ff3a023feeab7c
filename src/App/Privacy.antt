-- ===== src/App/Privacy.antt =====
-- apps/desktop/src-tauri/src/commands.rs: the commands on the privacy state.
pub mod Laws
use hidden_steps.Prelude.{
  Bool, List, Result, Text, codes, err, false, if◌then◌else◌, map, not, ok, true, ℕ, ◌&&◌, ◌||◌,
}
use hidden_steps.Domain.Privacy.{
  PrivacyLevel, PrivacyLevelError, PrivacyState, as_u8, from_u8, level_eq, manual,
}
use hidden_steps.Gate.Consent.{current_manifest_version, requires_reconsent}
use hidden_steps.Json.{Json}
use hidden_steps.Policy.{effective_privacy_level}
use hidden_steps.Store.{Engine}
use hidden_steps.Store.Erase.{is_empty}
use hidden_steps.Store.State.{get_privacy_state, set_privacy_state}
use hidden_steps.App.{
  AppState, CommandError, acknowledgment_required, call_store, level_error, log_audit, log_user,
  read_store,
}

pub record PrivacyManifestStatus : Type 0 where
  pub current_version : ℕ
  pub consented_version : ℕ
  pub reconsent_required : Bool

-- The details of the audit entry of a change of the level.
unfoldable pub level_details : (j : Json) → ℕ → ℕ → ℕ → List Text → j.Map
level_details j from requested to acknowledged =
    j.insert (codes "acknowledged_permissions") (j.array (map j.string acknowledged)) (
      j.insert (codes "to") (j.number to) (
        j.insert (codes "requested") (j.number requested)
          (j.insert (codes "from") (j.number from) j.empty)))

module _ (j : Json) (db : Engine j.Value) {F : Type 0} (now : ℕ) where
  -- Read the privacy state, change it, stamp it and write it. The rest gets the state read.
  unfoldable pub change_privacy :
      {B : Type 0}
      → (PrivacyState → PrivacyState)
      → AppState F
      → (PrivacyState → AppState F → Result B CommandError × AppState F)
      → Result B CommandError × AppState F
  unfolding get_privacy_state set_privacy_state read_store call_store
  change_privacy change state rest = read_store (get_privacy_state db state.store) state λ current.
      call_store (set_privacy_state db (record (change current) { updated_at = now }) state.store)
        state λ _ after. rest current after

  -- The audit entry and the answer of the commands without an argument.
  unfoldable pub answered :
      Bool → Text → j.Map → PrivacyState → AppState F → Result Bool CommandError × AppState F
  unfolding log_audit
  answered answer action details _ after = (ok answer, log_user j db now action details after)

  unfoldable pub get_onboarding_state : AppState F → Result Bool CommandError × AppState F
  unfolding get_privacy_state read_store level_eq
  get_onboarding_state state = read_store (get_privacy_state db state.store) state λ privacy.
      (ok (privacy.observation_active || not (level_eq privacy.current_level manual)), state)

  -- The audit entry and the answer, behind the change of the level.
  unfoldable pub level_changed :
      List Text
      → PrivacyLevel
      → PrivacyLevel
      → PrivacyState
      → AppState F
      → Result ℕ CommandError × AppState F
  unfolding as_u8 level_details log_audit
  level_changed acknowledged requested effective old after = (
    ok (as_u8 effective),
    log_user j db now (codes "privacy_level_changed")
        (level_details j (as_u8 old.current_level) (as_u8 requested) (as_u8 effective) acknowledged)
        after,
  )

  unfoldable pub with_level :
      List Text
      → AppState F
      → Result PrivacyLevel PrivacyLevelError
      → Result ℕ CommandError × AppState F
  unfolding level_eq is_empty effective_privacy_level change_privacy level_changed
  with_level acknowledged state (err e) = (err (level_error e), state)
  with_level acknowledged state (ok requested) =
      let effective = effective_privacy_level state.enterprise_policy requested in
      if not (level_eq requested manual) && is_empty acknowledged
      then (err (acknowledgment_required (as_u8 requested)), state)
      else change_privacy (λ c. record c { current_level = effective }) state
          (level_changed acknowledged requested effective)

  unfoldable pub set_privacy_level : ℕ → List Text → AppState F → Result ℕ CommandError × AppState F
  unfolding with_level
  set_privacy_level level acknowledged_permissions state =
      with_level acknowledged_permissions state (from_u8 level)

  unfoldable pub complete_onboarding : AppState F → Result Bool CommandError × AppState F
  unfolding change_privacy answered
  complete_onboarding state =
      change_privacy (λ c. record c { observation_active = true }) state
        λ _ after. (ok true, log_user j db now (codes "observation_started") j.empty after)

  unfoldable pub get_observation_status : AppState F → Result PrivacyState CommandError × AppState F
  unfolding get_privacy_state read_store
  get_observation_status state =
      read_store (get_privacy_state db state.store) state λ privacy. (ok privacy, state)

  unfoldable pub get_privacy_manifest_status :
      AppState F → Result PrivacyManifestStatus CommandError × AppState F
  unfolding get_privacy_state read_store requires_reconsent
  get_privacy_manifest_status state = read_store (get_privacy_state db state.store) state λ privacy.
      (
        ok (record {
          current_version = current_manifest_version;
          consented_version = privacy.consented_manifest_version;
          reconsent_required =
              requires_reconsent privacy.consented_manifest_version current_manifest_version;
        }),
        state,
      )

  unfoldable pub acknowledge_privacy_manifest : AppState F → Result Bool CommandError × AppState F
  unfolding change_privacy answered
  acknowledge_privacy_manifest state =
      change_privacy (λ c. record c { consented_manifest_version = current_manifest_version }) state
        (answered true (codes "privacy_manifest_reconsented")
          (j.insert (codes "version") (j.number current_manifest_version) j.empty))

  unfoldable pub pause_observation : AppState F → Result Bool CommandError × AppState F
  unfolding change_privacy answered
  pause_observation state =
      change_privacy (λ c. record c { observation_active = false }) state
        λ _ after. (ok false, log_user j db now (codes "observation_paused") j.empty after)

  unfoldable pub resume_observation : AppState F → Result Bool CommandError × AppState F
  unfolding change_privacy answered
  resume_observation state =
      change_privacy (λ c. record c { observation_active = true }) state
        λ _ after. (ok true, log_user j db now (codes "observation_resumed") j.empty after)
