-- ===== src/Store/Events.antt =====
-- crates/event-store/src/store.rs: the tables of event summaries and of the audit log. A method
-- returns its result and the store that it leaves.
pub mod Refines
pub mod Expiry
use hidden_steps.Prelude.{
  Bool, List, Option, Result, Text, [], any, false, keep, length, none, not, ok, some, text_le, ℕ,
  ◌&&◌, ◌==◌, ◌∷◌,
}
use hidden_steps.Domain.Signal.{EventSummary}
use hidden_steps.Domain.Pattern.{AuditEntry}
use hidden_steps.Store.{Engine, EventRow, EventStore, EventStoreError, append_row, collect, limited}
use hidden_steps.Store.Rows.{audit_row, event_row, row_to_audit_entry, row_to_event_summary}

-- `DELETE FROM event_summaries WHERE`: the rows of `pattern_events` that refer to a deleted event go
-- with it (`ON DELETE CASCADE`). The number is that of the deleted events.
unfoldable pub delete_events_where :
    {F : Type 0} → (EventRow → Bool) → EventStore F → ℕ × EventStore F
delete_events_where condition store =
    let rows = store.event_summaries.rows in
    (
      length (keep condition rows),
      record store {
        event_summaries = record (store.event_summaries) {
          rows = keep (λ r. not (condition r)) rows;
        };
        pattern_events =
            keep (λ l. not (any (λ r. condition r && r.id == l.1) rows)) store.pattern_events;
      },
    )

-- `id IN (...)`
unfoldable pub among : List ℕ → ℕ → Bool
among ids id = any (λ i. i == id) ids

unfoldable pub delete_events :
    {F : Type 0} → List ℕ → EventStore F → Result ℕ EventStoreError × EventStore F
unfolding delete_events_where among
delete_events [] store = (ok 0, store)
delete_events (id ∷ ids) store =
    let (count, after) = delete_events_where (λ r. among (id ∷ ids) r.id) store in (ok count, after)

-- `ttl_expires_at IS NOT NULL AND ttl_expires_at <= ?1`
unfoldable pub ttl_passed : Text → Option Text → Bool
ttl_passed now none = false
ttl_passed now (some ttl) = text_le ttl now

module _ {Value : Type 0} (db : Engine Value) {F : Type 0} where
  unfoldable pub insert_event_summary :
      EventSummary Value → EventStore F → Result ℕ EventStoreError × EventStore F
  unfolding append_row event_row
  insert_event_summary event store =
      let table = store.event_summaries in
      let (result, after) = append_row table (event_row db table.next_id event) in
      (result, record store { event_summaries = after })

  unfoldable pub list_recent_events :
      Option ℕ → EventStore F → Result (List (EventSummary Value)) EventStoreError
  unfolding collect limited row_to_event_summary
  list_recent_events limit store =
      collect (row_to_event_summary db)
        (limited limit (db.order_by_desc (λ r. r.occurred_at) store.event_summaries.rows))

  unfoldable pub delete_expired_events : ℕ → EventStore F → Result ℕ EventStoreError × EventStore F
  unfolding delete_events_where ttl_passed
  delete_expired_events now store =
      let (count, after) =
        delete_events_where (λ r. ttl_passed (db.to_rfc3339 now) r.ttl_expires_at) store in
      (ok count, after)

  unfoldable pub append_audit_entry :
      AuditEntry Value → EventStore F → Result ℕ EventStoreError × EventStore F
  unfolding append_row audit_row
  append_audit_entry entry store =
      let table = store.audit_log in
      let (result, after) = append_row table (audit_row db table.next_id entry) in
      (result, record store { audit_log = after })

  unfoldable pub list_audit_log :
      Option ℕ → EventStore F → Result (List (AuditEntry Value)) EventStoreError
  unfolding collect limited row_to_audit_entry
  list_audit_log limit store =
      collect (row_to_audit_entry db)
        (limited limit (db.order_by_desc (λ r. r.occurred_at) store.audit_log.rows))
