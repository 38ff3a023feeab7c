-- ===== src/Store/Erase.antt =====
-- crates/event-store/src/store.rs: the deletion of all data in a transaction, the export of all
-- data and the counts of rows. Which statements fail for a reason outside the store is a parameter.
pub mod Laws
use mathlib.Core.Option
use hidden_steps.Prelude.{
  Bool, List, Option, Result, Text, [], codes, err, false, if◌then◌else◌, length, ltb, none, ok,
  text_eq, true, ℕ, ◌%◌, ◌+◌, ◌/◌, ◌>>=◌, ◌||◌, ◌∷◌,
}
use hidden_steps.Float.{Float}
use hidden_steps.Domain.Pattern.{AuditEntry, Pattern, Recommendation}
use hidden_steps.Domain.Privacy.{PrivacyState}
use hidden_steps.Domain.Signal.{EventSummary}
use hidden_steps.Store.{
  Engine, EventStore, EventStoreError, Table, foreign_key_failed, io_failed, table_not_allowed,
}
use hidden_steps.Store.Events.{list_audit_log, list_recent_events}
use hidden_steps.Store.Patterns.{list_patterns, list_recommendations}
use hidden_steps.Store.State.{get_privacy_state}

pub data TableName : Type 0 where
  pattern_events_table pattern_embeddings_table workflow_edges_table : TableName
  workflow_nodes_table recommendations_table patterns_table : TableName
  event_summaries_table observation_sources_table llm_providers_table : TableName
  audit_log_table settings_table enterprise_policy_table : TableName

-- `TABLES`
abbrev pub cleared_tables : List TableName
cleared_tables =
    pattern_events_table ∷ pattern_embeddings_table ∷ workflow_edges_table ∷ workflow_nodes_table
    ∷ recommendations_table ∷ patterns_table ∷ event_summaries_table ∷ observation_sources_table
    ∷ llm_providers_table ∷ audit_log_table ∷ settings_table ∷ enterprise_policy_table ∷ []

-- The statements of `delete_all_data`.
pub data Statement : Type 0 where
  delete_from : TableName → Statement
  reset_privacy commit vacuum : Statement

unfoldable pub is_empty : {A : Type 0} → List A → Bool
is_empty [] = true
is_empty (_ ∷ _) = false

-- `DELETE` keeps what `AUTOINCREMENT` counts.
unfoldable pub emptied : {Row : Type 0} → Table Row → Table Row
emptied table = record table { rows = [] }

module _ {F : Type 0} where
  -- `DELETE FROM ...`: rows that refer to a deleted one go with it, but a pattern that a
  -- recommendation refers to cannot be deleted.
  unfoldable pub delete_table : TableName → EventStore F → Result (EventStore F) EventStoreError
  unfolding is_empty emptied
  delete_table pattern_events_table store = ok (record store { pattern_events = [] })
  delete_table pattern_embeddings_table store = ok (record store { pattern_embeddings = [] })
  delete_table workflow_edges_table store = ok (record store { workflow_edges = [] })
  delete_table workflow_nodes_table store =
      ok (record store { workflow_nodes = []; workflow_edges = [] })
  delete_table recommendations_table store =
      ok (record store { recommendations = emptied store.recommendations })
  delete_table patterns_table store =
      if is_empty store.recommendations.rows || is_empty store.patterns.rows
      then ok (record store {
        patterns = emptied store.patterns;
        pattern_events = [];
        pattern_embeddings = [];
      })
      else err foreign_key_failed
  delete_table event_summaries_table store =
      ok (record store { event_summaries = emptied store.event_summaries; pattern_events = [] })
  delete_table observation_sources_table store = ok (record store { observation_sources = [] })
  delete_table llm_providers_table store = ok (record store { llm_providers = [] })
  delete_table audit_log_table store = ok (record store { audit_log = emptied store.audit_log })
  delete_table settings_table store = ok (record store { settings = [] })
  delete_table enterprise_policy_table store = ok (record store { enterprise_policy = none })

  module _ (fails : Statement → Bool) where
    -- `tx.execute(...)?`
    unfoldable pub execute :
        Statement → Result (EventStore F) EventStoreError → Result (EventStore F) EventStoreError
    execute statement result = if fails statement then err io_failed else result

    unfoldable pub delete_tables :
        List TableName → EventStore F → Result (EventStore F) EventStoreError
    unfolding execute delete_table
    delete_tables [] store = ok store
    delete_tables (table ∷ tables) store = do
      after ← execute (delete_from table) (delete_table table store)
      delete_tables tables after

module _ {Value : Type 0} (db : Engine Value) {F : Type 0} where
  unfoldable pub reset_privacy_state : ℕ → EventStore F → EventStore F
  reset_privacy_state now store = record store {
    privacy_state =
        Option.map
          (λ _. record {
            current_level = 0;
            consented_manifest_version = 0;
            observation_active = 0;
            updated_at = db.to_rfc3339 now;
          })
          store.privacy_state;
  }

  module _ (fails : Statement → Bool) where
    -- What is in the transaction, up to its `commit`.
    unfoldable pub transaction : ℕ → EventStore F → Result (EventStore F) EventStoreError
    unfolding delete_tables execute reset_privacy_state
    transaction now store = do
      after ← delete_tables fails cleared_tables store
      reset ← execute fails reset_privacy (ok (reset_privacy_state now after))
      execute fails commit (ok reset)

    -- A transaction that is dropped before its commit is rolled back.
    unfoldable pub delete_all_data :
        ℕ → EventStore F → Result (Unit {0}) EventStoreError × EventStore F
    unfolding transaction
    delete_all_data now store = elim (transaction now store) [
      | err e ↦ (err e, store)
      | ok after ↦ if fails vacuum then (err io_failed, after) else (ok tt, after)
    ]

-- The object that `export_data` returns.
pub record ExportedData (Value F : Type 0) : Type 0 where
  pub privacy_state : PrivacyState
  pub event_summaries : List (EventSummary Value)
  pub audit_log : List (AuditEntry Value)
  pub patterns : List (Pattern Value F)
  pub recommendations : List (Recommendation F)

-- `LIMIT i64::MAX` is no limit: a table has no more rows.
module _ {Value : Type 0} (db : Engine Value) (float : Float) where
  unfoldable pub export_data :
      EventStore float.F → Result (ExportedData Value float.F) EventStoreError
  unfolding list_recent_events list_audit_log get_privacy_state list_patterns list_recommendations
  export_data store = do
    events ← list_recent_events db none store
    audit_log ← list_audit_log db none store
    privacy_state ← get_privacy_state db store
    patterns ← list_patterns db none store
    recommendations ← list_recommendations db float none store
    ok (record {
      privacy_state = privacy_state;
      event_summaries = events;
      audit_log = audit_log;
      patterns = patterns;
      recommendations = recommendations;
    })

unfoldable pub count_rows : {F : Type 0} → Text → EventStore F → Result ℕ EventStoreError
count_rows table store =
    if text_eq table (codes "event_summaries")
    then ok (length store.event_summaries.rows)
    else if text_eq table (codes "patterns")
    then ok (length store.patterns.rows)
    else if text_eq table (codes "recommendations")
    then ok (length store.recommendations.rows)
    else if text_eq table (codes "audit_log")
    then ok (length store.audit_log.rows)
    else err (table_not_allowed table)

abbrev hex_digit : ℕ → ℕ
hex_digit n = if ltb n 10 then 48 + n else 87 + n

-- `format!("{b:02x}")` of every byte
unfoldable pub to_hex : List ℕ → Text
to_hex [] = []
to_hex (b ∷ bytes) = hex_digit (b / 16) ∷ hex_digit (b % 16) ∷ to_hex bytes
