-- ===== src/Store/Rows.antt =====
-- crates/event-store/src/store.rs: how values become rows, and the `row_to_` functions that read
-- them back.
pub mod Laws
use mathlib.Core.Option
use hidden_steps.Prelude.{Option, Result, Text, none, not, ok, some, ℕ, ◌%◌, ◌==◌, ◌>>=◌, ◌^◌}
use hidden_steps.Domain.Privacy.{as_u8, from_u8}
use hidden_steps.Domain.Signal.{EventSummary}
use hidden_steps.Domain.Pattern.{AuditEntry, Pattern, Recommendation}
use hidden_steps.Store.{
  AuditRow, Engine, EventRow, EventStoreError, PatternRow, RecommendationRow, Serde, conversion,
  invalid_level, map_err, of_bool, serialization, timestamp,
}
use hidden_steps.Store.Labels.{
  actor_from_str, actor_to_str, level_from_str, level_to_str, pattern_status_from_str,
  pattern_status_to_str, recommendation_category_from_str, recommendation_category_to_str,
  recommendation_status_from_str, recommendation_status_to_str, signal_type_from_str,
  signal_type_to_str,
}

-- `serde_json::to_string(x)?` and, in a row, `serde_json::from_str(x).map_err(Serialization)`
abbrev pub printed : {A : Type 0} → Serde A → A → Result Text EventStoreError
printed json a = map_err serialization (json.to_string a)

abbrev pub read_back : {A : Type 0} → Serde A → Text → Result A EventStoreError
read_back json t = map_err serialization (json.from_str t)

module _ {Value : Type 0} (db : Engine Value) where
  unfoldable pub from_rfc3339 : Text → Result ℕ EventStoreError
  unfolding map_err
  from_rfc3339 text = map_err timestamp (db.rfc3339_parse text)

  -- `Option::map(from_rfc3339).transpose()`
  unfoldable pub optional_time : Option Text → Result (Option ℕ) EventStoreError
  unfolding from_rfc3339
  optional_time none = ok none
  optional_time (some s) = do t ← from_rfc3339 s; ok (some t)

  -- The columns that `insert_event_summary` writes, under the id that the table gives.
  unfoldable pub event_row : ℕ → EventSummary Value → Result EventRow EventStoreError
  unfolding map_err
  event_row id event = do
    summary_json ← printed db.value_json event.summary
    ok (record {
      id = id;
      occurred_at = db.to_rfc3339 event.occurred_at;
      source_id = event.source_id;
      signal_type = signal_type_to_str event.signal_type;
      privacy_level_at_capture = as_u8 event.privacy_level_at_capture;
      summary_json = summary_json;
      is_deep_mode = of_bool event.is_deep_mode;
      ttl_expires_at = Option.map db.to_rfc3339 event.ttl_expires_at;
    })

  event_of : EventRow → Result (EventSummary Value) EventStoreError
  unfolding from_rfc3339 optional_time map_err
  event_of row = do
    occurred_at ← from_rfc3339 row.occurred_at
    signal_type ← signal_type_from_str row.signal_type
    level ← map_err invalid_level (from_u8 (row.privacy_level_at_capture % 2 ^ 8))
    summary ← read_back db.value_json row.summary_json
    ttl_expires_at ← optional_time row.ttl_expires_at
    ok (record {
      id = some row.id;
      occurred_at = occurred_at;
      source_id = row.source_id;
      signal_type = signal_type;
      privacy_level_at_capture = level;
      summary = summary;
      is_deep_mode = not (row.is_deep_mode == 0);
      ttl_expires_at = ttl_expires_at;
    })

  -- An error in a row is an error of the database.
  unfoldable pub row_to_event_summary : EventRow → Result (EventSummary Value) EventStoreError
  unfolding event_of
  row_to_event_summary row = map_err conversion (event_of row)

  unfoldable pub audit_row : ℕ → AuditEntry Value → Result AuditRow EventStoreError
  unfolding map_err
  audit_row id entry = do
    details_json ← printed db.value_json entry.details
    ok (record {
      id = id;
      occurred_at = db.to_rfc3339 entry.occurred_at;
      actor = actor_to_str entry.actor;
      action_type = entry.action_type;
      details_json = details_json;
    })

  audit_of : AuditRow → Result (AuditEntry Value) EventStoreError
  unfolding from_rfc3339 map_err
  audit_of row = do
    occurred_at ← from_rfc3339 row.occurred_at
    actor ← actor_from_str row.actor
    details ← read_back db.value_json row.details_json
    ok (record {
      id = some row.id;
      occurred_at = occurred_at;
      actor = actor;
      action_type = row.action_type;
      details = details;
    })

  unfoldable pub row_to_audit_entry : AuditRow → Result (AuditEntry Value) EventStoreError
  unfolding audit_of
  row_to_audit_entry row = map_err conversion (audit_of row)

  module _ {F : Type 0} where
    unfoldable pub pattern_row : ℕ → Pattern Value F → Result (PatternRow F) EventStoreError
    unfolding map_err
    pattern_row id pattern = do
      signature_json ← printed db.value_json pattern.sequence_signature
      ok (record {
        id = id;
        first_seen_at = db.to_rfc3339 pattern.first_seen_at;
        last_seen_at = db.to_rfc3339 pattern.last_seen_at;
        occurrence_count = pattern.occurrence_count;
        estimated_minutes_per_occurrence = pattern.estimated_minutes_per_occurrence;
        sequence_signature_json = signature_json;
        status = pattern_status_to_str pattern.status;
      })

    pattern_of_row : PatternRow F → Result (Pattern Value F) EventStoreError
    unfolding from_rfc3339 map_err
    pattern_of_row row = do
      first_seen_at ← from_rfc3339 row.first_seen_at
      last_seen_at ← from_rfc3339 row.last_seen_at
      signature ← read_back db.value_json row.sequence_signature_json
      status ← pattern_status_from_str row.status
      ok (record {
        id = some row.id;
        first_seen_at = first_seen_at;
        last_seen_at = last_seen_at;
        occurrence_count = row.occurrence_count % 2 ^ 32;
        estimated_minutes_per_occurrence = row.estimated_minutes_per_occurrence;
        sequence_signature = signature;
        status = status;
      })

    unfoldable pub row_to_pattern : PatternRow F → Result (Pattern Value F) EventStoreError
    unfolding pattern_of_row
    row_to_pattern row = map_err conversion (pattern_of_row row)

    -- The columns that `insert_recommendation` writes.
    unfoldable pub recommendation_row :
        ℕ → Recommendation F → Result (RecommendationRow F) EventStoreError
    unfolding map_err
    recommendation_row id rec = do
      alternatives_json ← printed db.alternatives_json rec.alternatives
      assumptions_json ← printed db.texts_json rec.assumptions
      ignored_information_json ← printed db.texts_json rec.ignored_information
      ok (record {
        id = id;
        pattern_id = rec.pattern_id;
        created_at = db.to_rfc3339 rec.created_at;
        title = rec.title;
        category = recommendation_category_to_str rec.category;
        why = rec.why;
        confidence = rec.confidence;
        estimated_time_saved_minutes = rec.estimated_time_saved_minutes;
        difficulty = level_to_str rec.difficulty;
        maintenance_burden = level_to_str rec.maintenance_burden;
        privacy_implications = rec.privacy_implications;
        implementation_effort = rec.implementation_effort;
        alternatives_json = alternatives_json;
        assumptions_json = assumptions_json;
        ignored_information_json = ignored_information_json;
        generating_provider = rec.generating_provider;
        status = recommendation_status_to_str rec.status;
        dismissal_reason = rec.dismissal_reason;
      })

    recommendation_of_row : RecommendationRow F → Result (Recommendation F) EventStoreError
    unfolding from_rfc3339 map_err
    recommendation_of_row row = do
      alternatives ← read_back db.alternatives_json row.alternatives_json
      assumptions ← read_back db.texts_json row.assumptions_json
      ignored_information ← read_back db.texts_json row.ignored_information_json
      created_at ← from_rfc3339 row.created_at
      category ← recommendation_category_from_str row.category
      difficulty ← level_from_str row.difficulty
      maintenance_burden ← level_from_str row.maintenance_burden
      status ← recommendation_status_from_str row.status
      ok (record {
        id = some row.id;
        pattern_id = row.pattern_id;
        created_at = created_at;
        title = row.title;
        category = category;
        why = row.why;
        confidence = row.confidence;
        estimated_time_saved_minutes = row.estimated_time_saved_minutes;
        difficulty = difficulty;
        maintenance_burden = maintenance_burden;
        privacy_implications = row.privacy_implications;
        implementation_effort = row.implementation_effort;
        alternatives = alternatives;
        assumptions = assumptions;
        ignored_information = ignored_information;
        generating_provider = row.generating_provider;
        status = status;
        dismissal_reason = row.dismissal_reason;
      })

    unfoldable pub row_to_recommendation :
        RecommendationRow F → Result (Recommendation F) EventStoreError
    unfolding recommendation_of_row
    row_to_recommendation row = map_err conversion (recommendation_of_row row)
