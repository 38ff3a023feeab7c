-- ===== src/Store/Erase/Laws.antt =====
-- crates/event-store/src/store.rs: the deletion of all data is all or nothing.
use hidden_steps.Prelude.{
  Bool, Bool-cases, List, Result-cases, [], ap, err, false, if◌then◌else◌, inl, inr, none, ok, refl,
  some, true, ℕ, ◌∙◌, ◌∷◌, ◌≡◌, ◌⊎◌,
}
use hidden_steps.HashMap.{Reordered, chain, done, same, swap}
use hidden_steps.Float.{Float}
use hidden_steps.Domain.Privacy.{as_u8, from_u8, initial}
use hidden_steps.Store.{
  AuditRow, Engine, EventRow, EventStore, PrivacyRow, collect, io_failed, limited, map_err,
}
use hidden_steps.Store.Erase.{
  Statement, TableName, cleared_tables, commit, delete_all_data, delete_from, delete_table,
  delete_tables, emptied, execute, export_data, is_empty, reset_privacy, reset_privacy_state,
  transaction, vacuum,
}
use hidden_steps.Store.Rows.Laws.{from-to_rfc3339}
use hidden_steps.Store.Events.{list_audit_log, list_recent_events}
use hidden_steps.Store.State.{get_privacy_state}
use hidden_steps.Store.Patterns.{list_patterns, list_recommendations, where_status}

abbrev pub nothing_fails : Statement → Bool
nothing_fails _ = false

module _ {F : Type 0} (fails : Statement → Bool) where
  -- The deletions fail when a statement does, and otherwise are as if none could.
  delete_tables_cases :
      (tables : List TableName) (store : EventStore F)
      → ((s : Statement) × (fails s ≡ true) × (delete_tables fails tables store ≡ err io_failed))
        ⊎ (delete_tables fails tables store ≡ delete_tables nothing_fails tables store)
  unfolding delete_tables execute
  delete_tables_cases [] store = inr refl
  delete_tables_cases (t ∷ ts) store = elim (Bool-cases (fails (delete_from t))) [
    | inl failed ↦ inl (delete_from t, failed, rw failed refl)
    | inr fine ↦ elim (Result-cases (delete_table t store)) [
      | inr (e, failed) ↦ inr (rw fine (rw failed refl))
      | inl (after, deleted) ↦ elim (delete_tables_cases ts after) [
        | inl (s, failed, ended) ↦ inl (s, failed, rw fine (rw deleted ended))
        | inr same_end ↦ inr (rw fine (rw deleted same_end))
      ]
    ]
  ]

module _ {Value : Type 0} (db : Engine Value) {F : Type 0} where
  -- A store without data, which keeps its schema version and what `AUTOINCREMENT` counts.
  unfoldable pub wiped : ℕ → EventStore F → EventStore F
  unfolding reset_privacy_state emptied
  wiped now store = reset_privacy_state db now (record {
    schema_version = store.schema_version;
    privacy_state = store.privacy_state;
    enterprise_policy = none;
    event_summaries = emptied store.event_summaries;
    audit_log = emptied store.audit_log;
    patterns = emptied store.patterns;
    pattern_events = [];
    pattern_embeddings = [];
    recommendations = emptied store.recommendations;
    llm_providers = [];
    settings = [];
    observation_sources = [];
    workflow_nodes = [];
    workflow_edges = [];
  })

  deletions_wipe :
      (now : ℕ) (store : EventStore F)
      → (after : EventStore F) × (delete_tables nothing_fails cleared_tables store ≡ ok after)
        × (reset_privacy_state db now after ≡ wiped now store)
  unfolding delete_tables execute delete_table is_empty emptied wiped
  deletions_wipe now store = (_, refl, refl)

  transaction_cases :
      (fails : Statement → Bool) (now : ℕ) (store : EventStore F)
      → ((s : Statement) × (fails s ≡ true) × (transaction db fails now store ≡ err io_failed))
        ⊎ (transaction db fails now store ≡ ok (wiped now store))
  unfolding transaction execute
  transaction_cases fails now store = elim (delete_tables_cases fails cleared_tables store) [
    | inl (s, failed, ended) ↦ inl (s, failed, rw ended refl)
    | inr unfailing ↦
        let (after, deleted, wipe) = deletions_wipe now store in
        elim (Bool-cases (fails reset_privacy)) [
          | inl failed ↦ inl (reset_privacy, failed, rw (unfailing ∙ deleted) (rw failed refl))
          | inr fine ↦ elim (Bool-cases (fails commit)) [
            | inl failed ↦ inl (commit, failed, rw (unfailing ∙ deleted) (rw fine (rw failed refl)))
            | inr committed ↦ inr (rw (unfailing ∙ deleted) (rw fine (rw committed (ap ok wipe))))
          ]
        ]
  ]

  -- Deleting all data is all or nothing: either a statement failed, the result is an error and the
  -- store is as it was; or every table but that of the schema version is empty, the privacy state is
  -- reset and the result is an error exactly when reclaiming the space failed.
  pub delete_all_data_atomic :
      (fails : Statement → Bool) (now : ℕ) (store : EventStore F)
      → ((s : Statement) × (fails s ≡ true)
          × (delete_all_data db fails now store ≡ (err io_failed, store)))
        ⊎ (delete_all_data db fails now store
            ≡ (if fails vacuum then err io_failed else ok tt, wiped now store))
  unfolding delete_all_data
  delete_all_data_atomic fails now store = elim (transaction_cases fails now store) [
    | inl (s, failed, ended) ↦ inl (s, failed, rw (ended, delete_all_data) refl)
    | inr committed ↦ elim (Bool-cases (fails vacuum)) [
      | inl failed ↦ inr (rw (committed, delete_all_data) (rw failed refl))
      | inr fine ↦ inr (rw (committed, delete_all_data) (rw fine refl))
    ]
  ]

nil-Reordered : {A : Type 0} {xs ys : List A} → Reordered xs ys → xs ≡ [] → ys ≡ []
nil-Reordered done e = refl
nil-Reordered (same r) e = cc
nil-Reordered swap e = cc
nil-Reordered (chain r s) e = nil-Reordered s (nil-Reordered r e)

module _ {Value : Type 0} (db : Engine Value) (float : Float) where
  export_wiped :
      (now : ℕ) (store : EventStore float.F) (row : PrivacyRow)
      → store.privacy_state ≡ some row
      → export_data db float (wiped db now store)
        ≡ ok (record {
          privacy_state = initial now;
          event_summaries = [];
          audit_log = [];
          patterns = [];
          recommendations = [];
        })
  unfolding export_data list_recent_events list_audit_log get_privacy_state list_patterns
      list_recommendations limited collect where_status wiped reset_privacy_state emptied initial
      from_u8 as_u8 map_err
  export_wiped now store row privacy =
      rw
        (
          nil-Reordered (db.order_by_desc-Reordered (λ (r : EventRow). r.occurred_at) []) refl,
          nil-Reordered (db.order_by_desc-Reordered (λ (r : AuditRow). r.occurred_at) []) refl,
          privacy,
          from-to_rfc3339 db now,
        )
        refl

  -- When no statement fails, what is exported after the deletion of all data is the initial privacy
  -- state and no event, audit entry, pattern or recommendation.
  pub export_data-delete_all_data :
      (now : ℕ) (store : EventStore float.F) (row : PrivacyRow)
      → store.privacy_state ≡ some row
      → export_data db float (delete_all_data db nothing_fails now store).1
        ≡ ok (record {
          privacy_state = initial now;
          event_summaries = [];
          audit_log = [];
          patterns = [];
          recommendations = [];
        })
  export_data-delete_all_data now store row privacy =
      elim (delete_all_data_atomic db nothing_fails now store) [
        | inl (s, failed, _) ↦ absurd (cc failed)
        | inr deleted ↦ rw deleted (export_wiped now store row privacy)
      ]
