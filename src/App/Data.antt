-- ===== src/App/Data.antt =====
-- apps/desktop/src-tauri/src/commands.rs: the commands on events, patterns and recommendations, and
-- the export and deletion of all data.
use hidden_steps.Prelude.{
  Bool, List, Option, Result, Text, codes, err, false, find, if◌then◌else◌, none, ok, ok_or, some,
  text_eq, true, ℕ, ◌==◌, ◌>>=◌,
}
use hidden_steps.Domain.Pattern.{
  AuditEntry, LlmProviderConfig, Pattern, PatternStatus, Recommendation, RecommendationStatus,
}
use hidden_steps.Domain.Privacy.{as_u8}
use hidden_steps.Domain.Signal.{EventSummary}
use hidden_steps.Float.{Float}
use hidden_steps.Json.{Json}
use hidden_steps.Store.{Engine, EventStore, EventStoreError, map_err}
use hidden_steps.Store.Erase.{ExportedData, Statement, count_rows, delete_all_data, export_data}
use hidden_steps.Store.Events.{delete_events, list_audit_log, list_recent_events}
use hidden_steps.Store.Patterns.{
  list_pattern_events, list_patterns, list_recommendations, set_recommendation_status,
}
use hidden_steps.Store.Providers.{get_active_llm_provider}
use hidden_steps.Store.State.{get_privacy_state}
use hidden_steps.App.{
  AppState, CommandError, call_store, log_audit, log_user, read_store, recommendation_not_found,
  store_error, unknown_status, vault_error,
}
use hidden_steps.App.Providers.{Vault}

unfoldable pub parse_pattern_status : Text → Result PatternStatus CommandError
parse_pattern_status value =
    if text_eq value (codes "active")
    then ok PatternStatus.active
    else if text_eq value (codes "stale")
    then ok PatternStatus.stale
    else if text_eq value (codes "dismissed")
    then ok PatternStatus.dismissed
    else err (unknown_status value)

unfoldable pub parse_recommendation_status : Text → Result RecommendationStatus CommandError
parse_recommendation_status value =
    if text_eq value (codes "suggested")
    then ok RecommendationStatus.suggested
    else if text_eq value (codes "implemented")
    then ok RecommendationStatus.implemented
    else if text_eq value (codes "dismissed")
    then ok RecommendationStatus.dismissed
    else err (unknown_status value)

-- `status_filter.map(parse).transpose()`
unfoldable pub parsed_filter :
    {A : Type 0} → (Text → Result A CommandError) → Option Text → Result (Option A) CommandError
parsed_filter parse none = ok none
parsed_filter parse (some value) = do status ← parse value; ok (some status)

pub record RecommendationDetail (Value F : Type 0) : Type 0 where
  pub recommendation : Recommendation F
  pub contributing_events : List (EventSummary Value)

pub record Diagnostics : Type 0 where
  pub privacy_level : ℕ
  pub observation_active : Bool
  pub active_provider : Option LlmProviderConfig
  pub event_count : ℕ
  pub pattern_count : ℕ
  pub recommendation_count : ℕ
  pub audit_log_count : ℕ
  pub storage_bytes : Option ℕ

-- `map_err(to_err)`
abbrev reported : {A : Type 0} → Result A EventStoreError → Result A CommandError
unfolding map_err
reported result = map_err store_error result

module _ (j : Json) (db : Engine j.Value) (float : Float) where
  unfoldable pub get_recent_events :
      Option ℕ → AppState float.F → Result (List (EventSummary j.Value)) CommandError
  unfolding list_recent_events map_err
  get_recent_events limit state = reported (list_recent_events db limit state.store)

  unfoldable pub list_patterns_command :
      Option Text → AppState float.F → Result (List (Pattern j.Value float.F)) CommandError
  unfolding parsed_filter parse_pattern_status list_patterns map_err
  list_patterns_command status_filter state = do
    filter ← parsed_filter parse_pattern_status status_filter
    reported (list_patterns db filter state.store)

  unfoldable pub list_recommendations_command :
      Option Text → AppState float.F → Result (List (Recommendation float.F)) CommandError
  unfolding parsed_filter parse_recommendation_status list_recommendations map_err
  list_recommendations_command status_filter state = do
    filter ← parsed_filter parse_recommendation_status status_filter
    reported (list_recommendations db float filter state.store)

  -- `r.id == Some(id)`
  unfoldable pub is_recommendation : ℕ → Recommendation float.F → Bool
  is_recommendation id r = elim r.id [ none ↦ false | some i ↦ i == id ]

  unfoldable pub get_recommendation_detail :
      ℕ → AppState float.F → Result (RecommendationDetail j.Value float.F) CommandError
  unfolding list_recommendations list_pattern_events is_recommendation map_err
  get_recommendation_detail id state = do
    recommendations ← reported (list_recommendations db float none state.store)
    recommendation ←
        ok_or (find (is_recommendation id) recommendations) (recommendation_not_found id)
    events ← reported (list_pattern_events db recommendation.pattern_id state.store)
    ok (record { recommendation = recommendation; contributing_events = events })

  unfoldable pub get_audit_log :
      Option ℕ → AppState float.F → Result (List (AuditEntry j.Value)) CommandError
  unfolding list_audit_log map_err
  get_audit_log limit state = reported (list_audit_log db limit state.store)

  -- `storage_bytes` is the size that the file system reports.
  unfoldable pub get_diagnostics : Option ℕ → AppState float.F → Result Diagnostics CommandError
  unfolding get_privacy_state get_active_llm_provider count_rows as_u8 map_err
  get_diagnostics storage_bytes state = do
    privacy_state ← reported (get_privacy_state db state.store)
    active_provider ← reported (get_active_llm_provider state.store)
    event_count ← reported (count_rows (codes "event_summaries") state.store)
    pattern_count ← reported (count_rows (codes "patterns") state.store)
    recommendation_count ← reported (count_rows (codes "recommendations") state.store)
    audit_log_count ← reported (count_rows (codes "audit_log") state.store)
    ok (record {
      privacy_level = as_u8 privacy_state.current_level;
      observation_active = privacy_state.observation_active;
      active_provider = active_provider;
      event_count = event_count;
      pattern_count = pattern_count;
      recommendation_count = recommendation_count;
      audit_log_count = audit_log_count;
      storage_bytes = storage_bytes;
    })

  module _ (now : ℕ) where
    unfoldable pub delete_events_command :
        List ℕ → AppState float.F → Result ℕ CommandError × AppState float.F
    unfolding delete_events call_store log_audit
    delete_events_command event_ids state =
        call_store (delete_events event_ids state.store) state λ count after. (
          ok count,
          log_user j db now (codes "events_deleted")
              (j.insert (codes "count") (j.number count) j.empty) after,
        )

    unfoldable pub export_data_command :
        AppState float.F → Result (ExportedData j.Value float.F) CommandError × AppState float.F
    unfolding export_data read_store log_audit
    export_data_command state =
        read_store (export_data db float state.store) state
          λ exported. (ok exported, log_user j db now (codes "data_exported") j.empty state)

  unfoldable pub set_recommendation_status_command :
      ℕ → Text → Option Text → AppState float.F → Result Bool CommandError × AppState float.F
  unfolding parse_recommendation_status set_recommendation_status call_store
  set_recommendation_status_command id status dismissal_reason state =
      elim (parse_recommendation_status status) [
        | err e ↦ (err e, state)
        | ok parsed ↦
            call_store (set_recommendation_status id parsed dismissal_reason state.store) state
              λ _ after. (ok true, after)
      ]

  -- `rekey` is SQLCipher's `PRAGMA rekey` with the check of the new key.
  module _ {World : Type 0} (vault : Vault World) (fails : Statement → Bool)
      (rekey : Text → World → Result (Unit {0}) EventStoreError × World) where
    keep_key : Result (Unit {0}) Text × World → Result Bool CommandError × World
    keep_key (ok _, world) = (ok true, world)
    keep_key (err e, world) = (err (vault_error e), world)

    change_key : Text → Result (Unit {0}) EventStoreError × World → Result Bool CommandError × World
    unfolding keep_key
    change_key new_key (ok _, world) = keep_key (vault.set (codes "db-master-key") new_key world)
    change_key new_key (err e, world) = (err (store_error e), world)

    unfoldable pub cleared :
        Text
        → AppState float.F
        → Result (Unit {0}) EventStoreError × EventStore float.F
        → World
        → (Result Bool CommandError × AppState float.F) × World
    unfolding change_key
    cleared new_key state (err e, store) world =
        ((err (store_error e), record state { store = store }), world)
    cleared new_key state (ok _, store) world =
        let (result, after) = change_key new_key (rekey new_key world) in
        ((result, record state { store = store }), after)

    unfoldable pub delete_all_data_command :
        ℕ → Text → AppState float.F → World → (Result Bool CommandError × AppState float.F) × World
    unfolding delete_all_data cleared
    delete_all_data_command now new_key state world =
        cleared new_key state (delete_all_data db fails now state.store) world
