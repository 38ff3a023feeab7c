-- ===== src/App/Settings/Synced.antt =====
-- apps/desktop/src-tauri/src/main.rs and commands.rs: the gate in memory and the consent in the
-- settings.
use hidden_steps.Prelude.{
  Bool, Bool-cases, Option, Result, Text, ap, err, false, inl, inr, ok, refl, some, sym,
  text_eq_refl, true, ℕ, ◌∙◌, ◌≡◌,
}
use hidden_steps.Gate.{DispatchGate, grant_general_cloud_consent, revoke_general_cloud_consent}
use hidden_steps.Json.{Json}
use hidden_steps.Policy.{EnterprisePolicy}
use hidden_steps.Store.{Engine, EventStore, EventStoreError}
use hidden_steps.Store.State.{get_setting, migrate}
use hidden_steps.Store.State.Laws.{get_setting-set_value, get_setting_row}
use hidden_steps.App.{AppState, call_store, log_audit}
use hidden_steps.App.Launch.{launch, launched_gate}
use hidden_steps.App.Launch.Laws.{launch-kept}
use hidden_steps.App.Settings.{apply_consent, cloud_consent_setting_key, is_true, set_cloud_consent}

general_applied :
    (granted : Bool) (gate : DispatchGate)
    → (apply_consent granted gate).general_cloud_consent ≡ granted
unfolding apply_consent grant_general_cloud_consent revoke_general_cloud_consent
general_applied true gate = refl
general_applied false gate = refl

module _ (j : Json) where
  persisted : Result (Option j.Value) EventStoreError → Bool
  persisted (err _) = false
  persisted (ok value) = is_true j value

  is_true-boolean : (granted : Bool) → is_true j (some (j.boolean granted)) ≡ granted
  unfolding is_true
  is_true-boolean granted = rw (j.as_bool-boolean granted, is_true) refl

module _ (j : Json) (db : Engine j.Value) {F : Type 0} where
  -- The consent that the settings hold.
  unfoldable pub consent_in : EventStore F → Bool
  unfolding persisted
  consent_in store = persisted j (get_setting db cloud_consent_setting_key store)

  -- The gate has the general consent exactly when the settings hold it.
  unfoldable pub Synced : AppState F → Type 0
  Synced state = state.gate.general_cloud_consent ≡ consent_in state.store

  consent_in_row : (a b : EventStore F) → a.settings ≡ b.settings → consent_in a ≡ consent_in b
  unfolding consent_in
  consent_in_row a b e = ap (persisted j) (get_setting_row db cloud_consent_setting_key a b e)

  -- What keeps the gate and the settings keeps them synced.
  pub Synced-kept :
      (before after : AppState F)
      → after.store.settings ≡ before.store.settings
      → after.gate ≡ before.gate
      → Synced before
      → Synced after
  unfolding Synced
  Synced-kept before after settings gate h =
      ap (λ g. g.general_cloud_consent) gate
      ∙ h
      ∙ sym (consent_in_row after.store before.store settings)

  -- A change of the consent that succeeds is what both the gate and the settings have.
  pub set_cloud_consent-Synced :
      (now : ℕ) (granted : Bool) (state : AppState F)
      → Synced state
      → Synced (set_cloud_consent j db now granted state).1
  unfolding Synced set_cloud_consent call_store log_audit consent_in persisted get_setting
  set_cloud_consent-Synced now granted state h =
      elim (get_setting-set_value db cloud_consent_setting_key (j.boolean granted)
        cloud_consent_setting_key state.store) [
          | inl (e, failed) ↦ rw failed h
          | inr (after, stored, read) ↦ rw stored (
              general_applied granted state.gate
              ∙ sym (
                  ap (persisted j) (rw (text_eq_refl cloud_consent_setting_key) at read)
                  ∙ is_true-boolean j granted))
        ]

  launched :
      (read : Result (Option j.Value) EventStoreError) (store : EventStore F)
      → get_setting db cloud_consent_setting_key store ≡ read
      → (launched_gate j db store).general_cloud_consent ≡ persisted j read
  unfolding launched_gate persisted grant_general_cloud_consent
  launched (err e) store known = rw (known, launched_gate) refl
  launched (ok value) store known = elim (Bool-cases (is_true j value)) [
    | inl granted ↦ rw (known, launched_gate) (rw granted refl)
    | inr not_granted ↦ rw (known, launched_gate) (rw not_granted refl)
  ]

  -- A launch grants the gate the consent that the settings hold, and no other.
  pub launch-Synced :
      {E : Type 0} (from_str : Text → Result EnterprisePolicy E) (now : ℕ)
      (policy_file : Option Text) (opened : EventStore F)
      → Synced (launch j db from_str now policy_file opened)
  unfolding Synced launch persisted consent_in
  launch-Synced from_str now policy_file opened =
      let store = migrate db now opened in
      let after = (launch j db from_str now policy_file opened).store in
      launched (get_setting db cloud_consent_setting_key store) store refl
      ∙ sym (consent_in_row after store (launch-kept j db from_str now policy_file opened).1)
