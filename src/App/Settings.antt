-- ===== src/App/Settings.antt =====
-- apps/desktop/src-tauri/src/commands.rs: the consent to send summaries to the cloud, and the
-- settings.
pub mod Synced
use hidden_steps.Prelude.{
  Bool, List, Option, Result, Text, [], any, codes, err, false, if◌then◌else◌, none, ok, some,
  text_eq, true, ℕ, ◌∷◌,
}
use hidden_steps.Gate.{DispatchGate, grant_general_cloud_consent, revoke_general_cloud_consent}
use hidden_steps.Json.{Json}
use hidden_steps.Store.{Engine}
use hidden_steps.Store.State.{get_setting, set_setting}
use hidden_steps.App.{
  AppState, CommandError, call_store, log_audit, log_user, read_store, setting_not_accessible,
}

abbrev pub cloud_consent_setting_key : Text
cloud_consent_setting_key = codes "cloud_consent_general"

abbrev pub allowed_setting_keys : List Text
allowed_setting_keys = cloud_consent_setting_key ∷ []

unfoldable pub check_setting_key : Text → Result (Unit {0}) CommandError
check_setting_key key =
    if any (λ k. text_eq k key) allowed_setting_keys
    then ok tt
    else err (setting_not_accessible key)

-- `if granted { grant } else { revoke }`
unfoldable pub apply_consent : Bool → DispatchGate → DispatchGate
apply_consent true gate = grant_general_cloud_consent gate
apply_consent false gate = revoke_general_cloud_consent gate

module _ (j : Json) where
  -- `matches!(value, Some(Value::Bool(true)))`
  unfoldable pub is_true : Option j.Value → Bool
  is_true none = false
  is_true (some v) = elim (j.as_bool v) [ none ↦ false | some b ↦ b ]

  module _ (db : Engine j.Value) {F : Type 0} where
    unfoldable pub get_cloud_consent : AppState F → Result Bool CommandError × AppState F
    unfolding get_setting read_store is_true
    get_cloud_consent state =
        read_store (get_setting db cloud_consent_setting_key state.store) state
          λ value. (ok (is_true value), state)

    unfoldable pub set_cloud_consent : ℕ → Bool → AppState F → Result Bool CommandError × AppState F
    unfolding set_setting call_store apply_consent log_audit
    set_cloud_consent now granted state =
        call_store (set_setting db cloud_consent_setting_key (j.boolean granted) state.store) state
          λ _ after. (
            ok granted,
            log_user j db now (codes "cloud_consent_changed")
                (j.insert (codes "granted") (j.boolean granted) j.empty)
                (record after { gate = apply_consent granted after.gate }),
          )

    unfoldable pub get_settings :
        Text → AppState F → Result (Option j.Value) CommandError × AppState F
    unfolding check_setting_key get_setting read_store
    get_settings key state = elim (check_setting_key key) [
      | err e ↦ (err e, state)
      | ok _ ↦ read_store (get_setting db key state.store) state λ value. (ok value, state)
    ]

    unfoldable pub update_settings :
        Text → j.Value → AppState F → Result Bool CommandError × AppState F
    unfolding check_setting_key set_setting call_store
    update_settings key value state = elim (check_setting_key key) [
      | err e ↦ (err e, state)
      | ok _ ↦ call_store (set_setting db key value state.store) state λ _ after. (ok true, after)
    ]
