-- ===== src/Store/Rows/Laws.antt =====
-- What is written to a row is read back from it.
use mathlib.Core.Option
use hidden_steps.Prelude.{
  Bool, Option, Result-cases, Text, ap, arith, false, inl, inr, none, not, ok, ok_inj, refl, some,
  subst, true, ℕ, ◌%◌, ◌<◌, ◌==◌, ◌^◌, ◌∙◌, ◌≡◌,
}
use hidden_steps.Domain.Privacy.{PrivacyLevel, as_u8, from_u8}
use hidden_steps.Domain.Privacy.Laws.{as_u8-le_four, from_u8-as_u8}
use hidden_steps.Domain.Signal.{EventSummary}
use hidden_steps.Store.{
  AuditRow, Engine, EventRow, PatternRow, RecommendationRow, Serde, map_err, of_bool, serialization,
}
use hidden_steps.Store.Rows.{
  audit_row, event_row, from_rfc3339, optional_time, pattern_row, printed, recommendation_row,
  row_to_audit_entry, row_to_event_summary, row_to_pattern, row_to_recommendation,
}
use hidden_steps.Domain.Pattern.{AuditEntry, Pattern, Recommendation}
use hidden_steps.Store.Labels.Laws.{
  actor-round, category-round, level-round, pattern_status-round, recommendation_status-round,
  signal_type-round,
}

pub bool_back : (b : Bool) → not (of_bool b == 0) ≡ b
unfolding of_bool
bool_back true = refl
bool_back false = refl

pub level_back : (level : PrivacyLevel) → from_u8 (as_u8 level % 2 ^ 8) ≡ ok level
level_back level = ap from_u8 (omega (arith, as_u8-le_four level)) ∙ from_u8-as_u8 level

module _ {Value : Type 0} (db : Engine Value) where
  pub from-to_rfc3339 : (t : ℕ) → from_rfc3339 db (db.to_rfc3339 t) ≡ ok t
  unfolding from_rfc3339 map_err
  from-to_rfc3339 t = rw (db.parse-to_rfc3339 t) refl

  optional_back : (o : Option ℕ) → optional_time db (Option.map db.to_rfc3339 o) ≡ ok o
  unfolding optional_time
  optional_back none = refl
  optional_back (some t) = rw (from-to_rfc3339 t) refl

  -- What was printed without an error is read back.
  pub read-printed :
      {A : Type 0} (json : Serde A) (a : A) (t : Text)
      → map_err serialization (json.to_string a) ≡ ok t
      → map_err serialization (json.from_str t) ≡ ok a
  unfolding map_err
  read-printed json a t h = elim (Result-cases (json.to_string a)) [
    | inl (s, e) ↦ rw (json.read-print a t (e ∙ ap ok (ok_inj (rw e at h)))) refl
    | inr (s, e) ↦ absurd (cc (rw e at h))
  ]

  -- A stored event is read back as it was, with the id of its row.
  pub row_to_event_summary-event_row :
      (id : ℕ) (event : EventSummary Value) (row : EventRow)
      → event_row db id event ≡ ok row
      → row_to_event_summary db row ≡ ok (record event { id = some id })
  unfolding row_to_event_summary event_row
  row_to_event_summary-event_row id event row h =
      elim (Result-cases (printed db.value_json event.summary)) [
        | inr e ↦ absurd (cc (rw e.1 at h))
        | inl (t, e) ↦
            subst (λ r. row_to_event_summary db r ≡ ok (record event { id = some id }))
              (ok_inj (rw e at h))
              (rw
                (
                  from-to_rfc3339 event.occurred_at,
                  signal_type-round event.signal_type,
                  level_back event.privacy_level_at_capture,
                  read-printed db.value_json event.summary t e,
                  optional_back event.ttl_expires_at,
                  bool_back event.is_deep_mode,
                )
                refl)
      ]

  pub row_to_audit_entry-audit_row :
      (id : ℕ) (entry : AuditEntry Value) (row : AuditRow)
      → audit_row db id entry ≡ ok row
      → row_to_audit_entry db row ≡ ok (record entry { id = some id })
  unfolding row_to_audit_entry audit_row
  row_to_audit_entry-audit_row id entry row h =
      elim (Result-cases (printed db.value_json entry.details)) [
        | inr e ↦ absurd (cc (rw e.1 at h))
        | inl (t, e) ↦
            subst (λ r. row_to_audit_entry db r ≡ ok (record entry { id = some id }))
              (ok_inj (rw e at h))
              (rw
                (
                  from-to_rfc3339 entry.occurred_at,
                  actor-round entry.actor,
                  read-printed db.value_json entry.details t e,
                )
                refl)
      ]

  -- The count of a pattern is read back when it fits into 32 bits, as a `u32` does.
  pub row_to_pattern-pattern_row :
      {F : Type 0} (id : ℕ) (pattern : Pattern Value F) (row : PatternRow F)
      → pattern.occurrence_count < 2 ^ 32
      → pattern_row db id pattern ≡ ok row
      → row_to_pattern db row ≡ ok (record pattern { id = some id })
  unfolding row_to_pattern pattern_row
  row_to_pattern-pattern_row id pattern row fits h =
      elim (Result-cases (printed db.value_json pattern.sequence_signature)) [
        | inr e ↦ absurd (cc (rw e.1 at h))
        | inl (t, e) ↦
            let count : pattern.occurrence_count % 2 ^ 32 ≡ pattern.occurrence_count =
              omega (arith, fits) in
            subst (λ r. row_to_pattern db r ≡ ok (record pattern { id = some id }))
              (ok_inj (rw e at h))
              (rw
                (
                  from-to_rfc3339 pattern.first_seen_at,
                  from-to_rfc3339 pattern.last_seen_at,
                  read-printed db.value_json pattern.sequence_signature t e,
                  pattern_status-round pattern.status,
                  count,
                )
                refl)
      ]

  pub row_to_recommendation-recommendation_row :
      {F : Type 0} (id : ℕ) (rec : Recommendation F) (row : RecommendationRow F)
      → recommendation_row db id rec ≡ ok row
      → row_to_recommendation db row ≡ ok (record rec { id = some id })
  unfolding row_to_recommendation recommendation_row
  row_to_recommendation-recommendation_row id rec row h =
      elim (Result-cases (printed db.alternatives_json rec.alternatives)) [
        | inr e ↦ absurd (cc (rw e.1 at h))
        | inl (a, ea) ↦ elim (Result-cases (printed db.texts_json rec.assumptions)) [
          | inr e ↦ absurd (cc (rw (ea, e.1) at h))
          | inl (b, eb) ↦ elim (Result-cases (printed db.texts_json rec.ignored_information)) [
            | inr e ↦ absurd (cc (rw (ea, eb, e.1) at h))
            | inl (c, ec) ↦
                subst (λ r. row_to_recommendation db r ≡ ok (record rec { id = some id }))
                  (ok_inj (rw (ea, eb, ec) at h))
                  (rw
                    (
                      read-printed db.alternatives_json rec.alternatives a ea,
                      read-printed db.texts_json rec.assumptions b eb,
                      read-printed db.texts_json rec.ignored_information c ec,
                      from-to_rfc3339 rec.created_at,
                      category-round rec.category,
                      level-round rec.difficulty,
                      level-round rec.maintenance_burden,
                      recommendation_status-round rec.status,
                    )
                    refl)
          ]
        ]
      ]
