-- ===== src/App/Privacy/Laws.antt =====
-- apps/desktop/src-tauri/src/commands.rs: what the commands on the privacy state write.
use hidden_steps.Prelude.{
  Bool-cases, List, Result, Result-cases, Text, err, false, inl, inr, not, ok, refl, ℕ, ◌&&◌, ◌≡◌,
  ◌⊎◌,
}
use hidden_steps.Domain.Privacy.{PrivacyLevel, PrivacyState, as_u8, from_u8, level_eq, manual}
use hidden_steps.Json.{Json}
use hidden_steps.Store.{Engine, EventStoreError}
use hidden_steps.Store.State.{get_privacy_state, set_privacy_state}
use hidden_steps.Store.State.Laws.{get_privacy_state-ok, get_privacy_state-set_privacy_state}
use hidden_steps.App.{
  AppState, CommandError, acknowledgment_required, call_store, level_error, log_audit, read_store,
  store_error,
}
use hidden_steps.App.Privacy.{change_privacy, level_changed, set_privacy_level, with_level}
use hidden_steps.Policy.{effective_privacy_level}
use hidden_steps.Store.Erase.{is_empty}
use hidden_steps.Domain.Privacy.Laws.{from_u8_sound}

module _ (j : Json) (db : Engine j.Value) {F : Type 0} (now : ℕ) where
  -- A change of the privacy state fails and changes nothing, or is read back.
  pub change_privacy_cases :
      {B : Type 0} (change : PrivacyState → PrivacyState) (state : AppState F)
      (rest : PrivacyState → AppState F → Result B CommandError × AppState F)
      → ((e : EventStoreError) × (get_privacy_state db state.store ≡ err e)
          × (change_privacy j db now change state rest ≡ (err (store_error e), state)))
        ⊎ ((current : PrivacyState) × (after : AppState F) × (get_privacy_state db state.store
              ≡ ok current)
            × (change_privacy j db now change state rest ≡ rest current after)
            × (get_privacy_state db after.store ≡ ok (record (change current) { updated_at = now }))
            × (after.store.settings ≡ state.store.settings)
            × (after.gate ≡ state.gate))
  unfolding change_privacy read_store call_store set_privacy_state
  change_privacy_cases change state rest = elim (Result-cases (get_privacy_state db state.store)) [
    | inr (e, failed) ↦ inl (e, failed, rw failed refl)
    | inl (current, found) ↦
        let (row, present) = get_privacy_state-ok db state.store current found in
        let updated = record (change current) { updated_at = now } in
        inr (
          current,
          record state { store = (set_privacy_state db updated state.store).1 },
          found,
          rw found refl,
          get_privacy_state-set_privacy_state db updated state.store row present,
          refl,
          refl,
        )
  ]

  -- A request for a privacy level either fails and leaves everything as it is; or the requested
  -- level is Manual or came with acknowledged permissions, and what is stored and returned is the
  -- level that the enterprise policy makes of it, with the rest of the privacy state as it was.
  pub set_privacy_level_cases :
      (level : ℕ) (acknowledged : List Text) (state : AppState F)
      → ((e : CommandError) × (set_privacy_level j db now level acknowledged state
            ≡ (err e, state)))
        ⊎ ((requested : PrivacyLevel) × (current : PrivacyState) × (after : AppState F) × (as_u8
                requested
              ≡ level)
            × (not (level_eq requested manual) && is_empty acknowledged ≡ false)
            × (get_privacy_state db state.store ≡ ok current)
            × (set_privacy_level j db now level acknowledged state
                ≡ (ok (as_u8 (effective_privacy_level state.enterprise_policy requested)), after))
            × (get_privacy_state db after.store
                ≡ ok (record current {
                  current_level = effective_privacy_level state.enterprise_policy requested;
                  updated_at = now;
                })))
  unfolding set_privacy_level with_level level_changed log_audit
  set_privacy_level_cases level acknowledged state = elim (Result-cases (from_u8 level)) [
    | inr (e, unknown) ↦ inl (level_error e, rw unknown refl)
    | inl (requested, known) ↦
        let unacknowledged = not (level_eq requested manual) && is_empty acknowledged in
        elim (Bool-cases unacknowledged) [
          | inl refused ↦
              inl (acknowledgment_required (as_u8 requested), rw known (rw refused refl))
          | inr fine ↦
              let effective = effective_privacy_level state.enterprise_policy requested in
              let rest = level_changed j db now acknowledged requested effective in
              elim (change_privacy_cases (λ c. record c { current_level = effective }) state rest) [
                | inl (e, _, failed) ↦ inl (store_error e, rw known (rw fine failed))
                | inr (current, after, found, returns, back, _, _) ↦ inr (
                  requested,
                  current,
                  (rest current after).1,
                  from_u8_sound level requested known,
                  fine,
                  found,
                  rw known (rw fine returns),
                  back,
                )
              ]
        ]
  ]
