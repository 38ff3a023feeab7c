-- ===== src/Store/Patterns.antt =====
-- crates/event-store/src/store.rs: the tables of patterns, of their links to events and of
-- recommendations. Where the program states no order, the rows are in that of the table.
pub mod Links
use mathlib.Core.Option
use hidden_steps.Prelude.{
  Bool, List, Option, Result, Text, [], any, err, if◌then◌else◌, keep, map, none, ok, some, text_eq,
  ℕ, ◌&&◌, ◌++◌, ◌==◌, ◌>>=◌, ◌∷◌,
}
use hidden_steps.Float.{Float}
use hidden_steps.Domain.Pattern.{Pattern, PatternStatus, Recommendation, RecommendationStatus}
use hidden_steps.Domain.Signal.{EventSummary}
use hidden_steps.Store.{
  Engine, EventStore, EventStoreError, RecommendationRow, Table, append_row, check_failed, collect,
  foreign_key_failed,
}
use hidden_steps.Store.Labels.{pattern_status_to_str, recommendation_status_to_str}
use hidden_steps.Store.Rows.{
  pattern_row, recommendation_row, row_to_event_summary, row_to_pattern, row_to_recommendation,
}

-- `UPDATE ... WHERE id = ?`: nothing happens when no row has the id.
unfoldable pub update_row : {Row : Type 0} → (Row → Bool) → (Row → Row) → Table Row → Table Row
update_row selected change table = record table {
  rows = map (λ r. if selected r then change r else r) table.rows;
}

-- `WHERE status = ?1`, when there is a filter.
unfoldable pub where_status : {Row : Type 0} → (Row → Text) → Option Text → List Row → List Row
where_status status_of none rows = rows
where_status status_of (some status) rows = keep (λ r. text_eq (status_of r) status) rows

unfoldable pub linked : ℕ → ℕ → List (ℕ × ℕ) → Bool
linked pattern_id event_id links = any (λ l. l.0 == pattern_id && l.1 == event_id) links

module _ {Value : Type 0} (db : Engine Value) {F : Type 0} where
  unfoldable pub insert_pattern :
      Pattern Value F → EventStore F → Result ℕ EventStoreError × EventStore F
  unfolding append_row pattern_row
  insert_pattern pattern store =
      let table = store.patterns in
      let (result, after) = append_row table (pattern_row db table.next_id pattern) in
      (result, record store { patterns = after })

  unfoldable pub update_pattern_stats :
      ℕ → ℕ → ℕ → Option F → EventStore F → Result (Unit {0}) EventStoreError × EventStore F
  unfolding update_row
  update_pattern_stats pattern_id last_seen_at occurrence_count estimate store = (
    ok tt,
    record store {
      patterns =
          update_row (λ r. r.id == pattern_id)
            (λ r. record r {
              last_seen_at = db.to_rfc3339 last_seen_at;
              occurrence_count = occurrence_count;
              estimated_minutes_per_occurrence = estimate;
            })
            store.patterns;
    },
  )

  unfoldable pub list_patterns :
      Option PatternStatus → EventStore F → Result (List (Pattern Value F)) EventStoreError
  unfolding collect where_status row_to_pattern
  list_patterns status_filter store = collect (row_to_pattern db) (
      where_status (λ r. r.status) (Option.map pattern_status_to_str status_filter)
        store.patterns.rows)

  unfoldable pub list_pattern_events :
      ℕ → EventStore F → Result (List (EventSummary Value)) EventStoreError
  unfolding collect linked row_to_event_summary
  list_pattern_events pattern_id store = collect (row_to_event_summary db) (
      db.order_by (λ r. r.occurred_at)
        (keep (λ r. linked pattern_id r.id store.pattern_events) store.event_summaries.rows))

module _ {F : Type 0} where
  unfoldable pub set_pattern_status :
      ℕ → PatternStatus → EventStore F → Result (Unit {0}) EventStoreError × EventStore F
  unfolding update_row
  set_pattern_status pattern_id status store = (
    ok tt,
    record store {
      patterns =
          update_row (λ r. r.id == pattern_id)
            (λ r. record r { status = pattern_status_to_str status }) store.patterns;
    },
  )

  unfoldable pub pattern_exists : ℕ → EventStore F → Bool
  pattern_exists id store = any (λ r. r.id == id) store.patterns.rows

  unfoldable pub event_exists : ℕ → EventStore F → Bool
  event_exists id store = any (λ r. r.id == id) store.event_summaries.rows

  -- `INSERT OR IGNORE` of one link: a link that is there is left, and one to a row that is not
  -- there violates the table's foreign keys, which `OR IGNORE` does not suppress.
  unfoldable pub link_event :
      ℕ → ℕ → EventStore F → Result (Unit {0}) EventStoreError × EventStore F
  unfolding linked pattern_exists event_exists
  link_event pattern_id event_id store =
      if linked pattern_id event_id store.pattern_events
      then (ok tt, store)
      else if pattern_exists pattern_id store && event_exists event_id store
      then (
        ok tt,
        record store { pattern_events = store.pattern_events ++ (pattern_id, event_id) ∷ [] },
      )
      else (err foreign_key_failed, store)

  -- The first failure ends the loop, and the links made before it stay.
  unfoldable pub link_pattern_events :
      ℕ → List ℕ → EventStore F → Result (Unit {0}) EventStoreError × EventStore F
  unfolding link_event
  link_pattern_events pattern_id [] store = (ok tt, store)
  link_pattern_events pattern_id (id ∷ ids) store =
      let (result, after) = link_event pattern_id id store in
      elim result [ ok _ ↦ link_pattern_events pattern_id ids after | err e ↦ (err e, after) ]

  unfoldable pub set_recommendation_status :
      ℕ
      → RecommendationStatus
      → Option Text
      → EventStore F
      → Result (Unit {0}) EventStoreError × EventStore F
  unfolding update_row
  set_recommendation_status id status dismissal_reason store = (
    ok tt,
    record store {
      recommendations =
          update_row (λ r. r.id == id)
            (λ r. record r {
              status = recommendation_status_to_str status;
              dismissal_reason = dismissal_reason;
            })
            store.recommendations;
    },
  )

module _ {Value : Type 0} (db : Engine Value) (float : Float) where
  -- `CHECK (confidence BETWEEN 0 AND 1)` and `REFERENCES patterns(id)`
  unfoldable pub checked :
      EventStore float.F
      → RecommendationRow float.F
      → Result (RecommendationRow float.F) EventStoreError
  unfolding pattern_exists
  checked store row =
      if float.less_eq (float.of_ℕ 0) row.confidence && float.less_eq row.confidence (float.of_ℕ 1)
      then if pattern_exists row.pattern_id store then ok row else err foreign_key_failed
      else err check_failed

  unfoldable pub insert_recommendation :
      Recommendation float.F → EventStore float.F → Result ℕ EventStoreError × EventStore float.F
  unfolding append_row recommendation_row checked
  insert_recommendation rec store =
      let table = store.recommendations in
      let (result, after) =
        append_row table (recommendation_row db table.next_id rec >>= checked store) in
      (result, record store { recommendations = after })

  unfoldable pub list_recommendations :
      Option RecommendationStatus
      → EventStore float.F
      → Result (List (Recommendation float.F)) EventStoreError
  unfolding collect where_status row_to_recommendation
  list_recommendations status_filter store = collect (row_to_recommendation db) (
      where_status (λ r. r.status) (Option.map recommendation_status_to_str status_filter)
        store.recommendations.rows)
