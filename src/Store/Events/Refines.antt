-- ===== src/Store/Events/Refines.antt =====
-- crates/event-store/src/store.rs: the table of event summaries as a list of summaries.
use mathlib.Core.Option
use hidden_steps.Prelude.{
  Bool, List, Option-cases, Result, Result-cases, Text, [], ap, err, false, inl, inr, keep,
  keep_all, none, not, ok, ok_inj, refl, some, subst, sym, true, ℕ, ◌++◌, ◌+◌, ◌∙◌, ◌∷◌, ◌≡◌,
}
use hidden_steps.Domain.Signal.{EventSummary}
use hidden_steps.Store.{Engine, EventRow, EventStore, append_row, limited, map_err, serialization}
use hidden_steps.Store.Rows.{event_row, row_to_event_summary}
use hidden_steps.Store.Paired.{
  Paired, Paired-Reordered, Paired-append, Paired-keep, collect-Paired, no_pair, pair,
}
use hidden_steps.Store.Events.{
  among, delete_events, delete_events_where, delete_expired_events, insert_event_summary,
  list_recent_events, ttl_passed,
}
use hidden_steps.HashMap.{Reordered}
use hidden_steps.Store.Rows.Laws.{row_to_event_summary-event_row}

-- A change of the table that the program makes.
pub data EventChange (Value : Type 0) : Type 0 where
  inserted : EventSummary Value → EventChange Value
  deleted : List ℕ → EventChange Value
  expired : (now : ℕ) → EventChange Value

-- What the store promises: the summaries it holds, each under its id, and the next id.
pub record EventLog (Value : Type 0) : Type 0 where
  pub next : ℕ
  pub events : List (EventSummary Value)

unfoldable pub has_id : {Value : Type 0} → (ℕ → Bool) → EventSummary Value → Bool
has_id test event = elim event.id [ none ↦ false | some id ↦ test id ]

module _ {Value : Type 0} (db : Engine Value) where
  unfoldable pub log_inserted :
      Result Text Text → EventSummary Value → EventLog Value → EventLog Value
  log_inserted (err _) event log = log
  log_inserted (ok _) event log = record {
    next = log.next + 1;
    events = log.events ++ record event { id = some log.next } ∷ [];
  }

  -- A summary whose value cannot be printed is refused.
  unfoldable pub log_change : EventChange Value → EventLog Value → EventLog Value
  unfolding log_inserted has_id among ttl_passed
  log_change (inserted event) log = log_inserted (db.value_json.to_string event.summary) event log
  log_change (deleted ids) log = record log {
    events = keep (λ e. not (has_id (among ids) e)) log.events;
  }
  log_change (expired now) log = record log {
    events =
        keep (λ e. not (ttl_passed (db.to_rfc3339 now) (Option.map db.to_rfc3339 e.ttl_expires_at)))
          log.events;
  }

  unfoldable pub log_changes : List (EventChange Value) → EventLog Value → EventLog Value
  unfolding log_change
  log_changes [] log = log
  log_changes (c ∷ cs) log = log_changes cs (log_change c log)

  unfoldable pub store_change : {F : Type 0} → EventChange Value → EventStore F → EventStore F
  unfolding insert_event_summary delete_events delete_expired_events
  store_change (inserted event) store = (insert_event_summary db event store).1
  store_change (deleted ids) store = (delete_events ids store).1
  store_change (expired now) store = (delete_expired_events db now store).1

  unfoldable pub store_changes :
      {F : Type 0} → List (EventChange Value) → EventStore F → EventStore F
  unfolding store_change
  store_changes [] store = store
  store_changes (c ∷ cs) store = store_changes cs (store_change c store)

  -- A row as the insertion of an event wrote it.
  abbrev pub Writes : EventRow → EventSummary Value → Type 0
  Writes row event = (event_row db row.id event ≡ ok row) × (event.id ≡ some row.id)

  unfoldable pub Represents : {F : Type 0} → EventStore F → EventLog Value → Type 0
  Represents store log =
      (store.event_summaries.next_id ≡ log.next)
      × Paired Writes store.event_summaries.rows log.events

  event_row-columns :
      (id : ℕ) (event : EventSummary Value) (row : EventRow)
      → event_row db id event ≡ ok row
      → (row.id ≡ id) × (row.ttl_expires_at ≡ Option.map db.to_rfc3339 event.ttl_expires_at)
  unfolding event_row map_err
  event_row-columns id event row h = elim (Result-cases (db.value_json.to_string event.summary)) [
    | inr e ↦ absurd (cc (rw e.1 at h))
    | inl (t, e) ↦
        subst
          (λ r. (r.id ≡ id) × (r.ttl_expires_at ≡ Option.map db.to_rfc3339 event.ttl_expires_at))
          (ok_inj (rw e at h)) (refl, refl)
  ]

  no_id_deleted : (event : EventSummary Value) → not (has_id (among []) event) ≡ true
  unfolding has_id among
  no_id_deleted event = elim (Option-cases event.id) [ inl e ↦ rw e refl | inr (id, e) ↦ rw e refl ]

  module _ {F : Type 0} where
    pub insertion-Represents :
        (event : EventSummary Value) (store : EventStore F) (log : EventLog Value)
        (text : Result Text Text)
        → db.value_json.to_string event.summary ≡ text
        → Represents store log
        → Represents (store_change (inserted event) store) (log_inserted text event log)
    unfolding Represents store_change insert_event_summary append_row event_row map_err log_inserted
    insertion-Represents event store log (err t) e (next, rows) = rw e (next, rows)
    insertion-Represents event store log (ok t) e (next, rows) = rw e (
      ap (λ n. n + 1) next,
      Paired-append rows
          (pair {y = record event { id = some log.next }} (rw e refl, ap some (sym next)) no_pair),
    )

    -- The id that an insertion returns.
    pub inserted_id :
        (event : EventSummary Value) (store : EventStore F) (text : Result Text Text)
        → db.value_json.to_string event.summary ≡ text
        → (insert_event_summary db event store).0
          ≡ elim text [ ok _ ↦ ok store.event_summaries.next_id | err t ↦ err (serialization t) ]
    unfolding insert_event_summary append_row event_row map_err
    inserted_id event store (ok t) e = rw e refl
    inserted_id event store (err t) e = rw e refl

    deletion-Represents :
        (ids : List ℕ) (store : EventStore F) (log : EventLog Value)
        → Represents store log
        → Represents (store_change (deleted ids) store) (log_change (deleted ids) log)
    unfolding Represents store_change delete_events delete_events_where among log_change has_id
    deletion-Represents [] store log (next, rows) =
        (next, rw (keep_all _ no_id_deleted log.events) rows)
    deletion-Represents (id ∷ ids) store log (next, rows) =
        (next, Paired-keep _ _ (λ r e (written, known). rw known refl) rows)

    expiry-Represents :
        (now : ℕ) (store : EventStore F) (log : EventLog Value)
        → Represents store log
        → Represents (store_change (expired now) store) (log_change (expired now) log)
    unfolding Represents store_change delete_expired_events delete_events_where log_change
    expiry-Represents now store log (next, rows) = (
      next,
      Paired-keep _ _
          (λ r e (written, known).
            ap (λ ttl. not (ttl_passed (db.to_rfc3339 now) ttl))
              (event_row-columns r.id e r written).1)
          rows,
    )

    change-Represents :
        (change : EventChange Value) (store : EventStore F) (log : EventLog Value)
        → Represents store log
        → Represents (store_change change store) (log_change change log)
    unfolding log_change
    change-Represents (inserted event) store log h =
        insertion-Represents event store log (db.value_json.to_string event.summary) refl h
    change-Represents (deleted ids) store log h = deletion-Represents ids store log h
    change-Represents (expired now) store log h = expiry-Represents now store log h

    changes-Represents :
        (changes : List (EventChange Value)) (store : EventStore F) (log : EventLog Value)
        → Represents store log
        → Represents (store_changes changes store) (log_changes changes log)
    unfolding store_changes log_changes
    changes-Represents [] store log h = h
    changes-Represents (c ∷ cs) store log h =
        changes-Represents cs (store_change c store) (log_change c log)
          (change-Represents c store log h)

    -- After any insertions, deletions and expiries, in any order, from a store that represents a
    -- log of events, listing all events succeeds and returns exactly the events of the log after
    -- the same changes, in another order.
    pub list_recent_events-refines :
        (changes : List (EventChange Value)) (store : EventStore F) (log : EventLog Value)
        → Represents store log
        → (events : List (EventSummary Value)) × (list_recent_events db none
              (store_changes changes store)
            ≡ ok events)
          × Reordered (log_changes changes log).events events
    unfolding Represents list_recent_events limited
    list_recent_events-refines changes store log h =
        let after = store_changes changes store in
        let (next, rows) = changes-Represents changes store log h in
        let (events, order, sorted) =
          Paired-Reordered
            (db.order_by_desc-Reordered (λ r. r.occurred_at) after.event_summaries.rows) rows in
        (
          events,
          collect-Paired (row_to_event_summary db)
              (λ r e (written, known).
                row_to_event_summary-event_row db r.id e r written
                ∙ ap (λ id. ok (record e { id = id })) (sym known))
              sorted,
          order,
        )
