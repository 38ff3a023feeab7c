-- ===== src/Pipeline/Process/Verdict.antt =====
-- Which allowed signals are dropped for their content, and that all others are summarized.
use hidden_steps.Prelude.{
  Bool, Option, Text, [], any, arith, false, inl, inr, none, refl, some, sym, true, ℕ, ◌↔◌, ◌∙◌,
  ◌∷◌, ◌≡◌, ◌⊎◌,
}
use hidden_steps.Json.{Json}
use hidden_steps.Domain.Privacy.{PrivacyLevel, level_gt}
use hidden_steps.Domain.Signal.{CapturedSignal, EventSummary}
use hidden_steps.Redaction.Engine.{RedactionOutcome, clean, dropped, redacted}
use hidden_steps.Pipeline.Classify.{
  FieldValue, Fields, classify, minimum_level_for, passthrough, redactable,
}
use hidden_steps.Pipeline.Process.{
  EventPipeline, drop_event, extracted, finish, process, redact_field, redaction_uncertain,
  summarized, summary_made, summary_of, with_extracted,
}
use hidden_steps.Pipeline.Process.Gate.{drop_event-ne, type_of}

abbrev is_panic : Option RedactionOutcome → Bool
is_panic none = true
is_panic (some o) = false

abbrev is_drop : Option RedactionOutcome → Bool
is_drop none = false
is_drop (some (clean t)) = false
is_drop (some (redacted t)) = false
is_drop (some dropped) = true

module _ {Value : Type 0} (redactor : Text → Option RedactionOutcome) where
  -- A field whose text the redactor panics on, and one whose text it drops.
  abbrev pub panics : Text × FieldValue Value → Bool
  panics (name, passthrough v) = false
  panics (name, redactable text) = is_panic (redactor text)

  abbrev pub withheld : Text × FieldValue Value → Bool
  withheld (name, passthrough v) = false
  withheld (name, redactable text) = is_drop (redactor text)

module _ (j : Json) (redactor : Text → Option RedactionOutcome) where
  -- What the loop makes of a field, when the redactor does not panic on it.
  redact_field-cases :
      (name : Text) (value : FieldValue j.Value)
      → panics redactor (name, value) ≡ false
      → (withheld redactor (name, value) ≡ true) × (redact_field j redactor value ≡ some none)
        ⊎ (v : j.Value) × (withheld redactor (name, value) ≡ false)
          × (redact_field j redactor value ≡ some (some v))
  unfolding redact_field
  redact_field-cases name (passthrough v) h = inr (v, refl, refl)
  redact_field-cases name (redactable text) h = go (redactor text) h
    where
      go :
          (o : Option RedactionOutcome)
          → is_panic o ≡ false
          → (is_drop o ≡ true)
              × (elim o [
                | none ↦ none
                | some (clean t) ↦ some (some (j.string t))
                | some (redacted t) ↦ some (some (j.string t))
                | some dropped ↦ some none
              ]
                  ≡ some none)
            ⊎ (v : j.Value) × (is_drop o ≡ false)
              × (elim o [
                | none ↦ none
                | some (clean t) ↦ some (some (j.string t))
                | some (redacted t) ↦ some (some (j.string t))
                | some dropped ↦ some none
              ]
                  ≡ some (some v))
      go none h = absurd cc
      go (some (clean t)) h = inr (j.string t, refl, refl)
      go (some (redacted t)) h = inr (j.string t, refl, refl)
      go (some dropped) h = inl (refl, refl)

  summary_of-cases :
      (fields : Fields j.Value) (acc : j.Map)
      → any (panics redactor) fields ≡ false
      → (any (withheld redactor) fields ≡ true) × (summary_of j redactor fields acc ≡ some none)
        ⊎ (m : j.Map) × (any (withheld redactor) fields ≡ false)
          × (summary_of j redactor fields acc ≡ some (some m))
  unfolding summary_of
  summary_of-cases [] acc h = inr (acc, refl, refl)
  summary_of-cases ((name, value) ∷ fields) acc h =
      elim (redact_field-cases name value (ground arith)) [
        | inl d ↦ inl (ground (arith, d.0), rw d.1)
        | inr d ↦ elim (summary_of-cases fields (j.insert name d.0 acc) (ground arith)) [
          | inl r ↦ inl (ground (arith, d.1, r.0), rw d.2 r.1)
          | inr r ↦ inr (r.0, ground (arith, d.1, r.1), rw d.2 r.2)
        ]
      ]

module _ (j : Json) (pipeline : EventPipeline) (signal : CapturedSignal) (level : PrivacyLevel)
    (now : ℕ) where
  -- An allowed signal whose fields are known is summarized when the redactor neither panics on the
  -- text of a field of it nor drops one.
  pub process-summarizes :
      (fields : Fields j.Value)
      → level_gt (minimum_level_for (type_of j signal)) level ≡ false
      → extracted j pipeline (classify j signal.payload) ≡ some fields
      → any (panics pipeline.redactor) fields ≡ false
      → any (withheld pipeline.redactor) fields ≡ false
      → (e : EventSummary j.Value) × (process j pipeline signal level now ≡ some (summarized e))
  unfolding process with_extracted finish
  process-summarizes fields allowed found safe kept =
      elim (summary_of-cases j pipeline.redactor fields j.empty safe) [
        | inl r ↦ absurd cc
        | inr r ↦ (
          summary_made j pipeline signal (type_of j signal) level now r.0,
          rw allowed (rw found (rw r.2)),
        )
      ]

  -- An allowed signal whose fields are known and whose texts the redactor does not panic on is
  -- dropped as uncertain exactly when the redactor drops the text of one of its fields.
  pub process-redaction_uncertain_iff :
      (fields : Fields j.Value)
      → level_gt (minimum_level_for (type_of j signal)) level ≡ false
      → extracted j pipeline (classify j signal.payload) ≡ some fields
      → any (panics pipeline.redactor) fields ≡ false
      → (process j pipeline signal level now ≡ some (drop_event redaction_uncertain))
        ↔ (any (withheld pipeline.redactor) fields ≡ true)
  unfolding process with_extracted finish
  process-redaction_uncertain_iff fields allowed found safe =
      elim (summary_of-cases j pipeline.redactor fields j.empty safe) [
        | inl r ↦ (λ _. r.0, λ _. rw allowed (rw found (rw r.1)))
        | inr r ↦ (
          λ h. absurd (
              drop_event-ne j pipeline signal level now
                (sym h ∙ (process-summarizes fields allowed found safe r.1).1)),
          λ h. absurd cc,
        )
      ]
