-- ===== src/Pipeline/Process/Content.antt =====
-- What the object of a summary holds: for each name what the redactor made of the field.
use mathlib.Core.Option
use hidden_steps.Prelude.{
  Bool-cases, Option, Text, [], and_then, ap, if◌then◌else◌, inl, inr, none, refl, some, some_inj,
  sym, text_eq, ℕ, ◌∙◌, ◌∷◌, ◌≡◌,
}
use hidden_steps.Json.{Json}
use hidden_steps.Domain.Privacy.{PrivacyLevel, level_gt}
use hidden_steps.Domain.Signal.{CapturedSignal, EventSummary, SignalType, new_summary}
use hidden_steps.Redaction.Engine.{RedactionOutcome, clean, dropped, redacted}
use hidden_steps.Pipeline.Classify.{
  FieldValue, Fields, classify, minimum_level_for, passthrough, redactable,
}
use hidden_steps.Pipeline.Process.{
  EventPipeline, extracted, process, redact_field, summarized, summary_made, summary_of,
}
use hidden_steps.Pipeline.Process.Gate.{drop_event-ne, type_of, with_extracted-summarized}

-- The text that may be stored for what a redactor answered.
abbrev text_of : Option RedactionOutcome → Option Text
text_of (some (clean t)) = some t
text_of (some (redacted t)) = some t
text_of (some dropped) = none
text_of none = none

module _ (j : Json) (redactor : Text → Option RedactionOutcome) where
  -- What may be stored for a field: a value that needs no redaction, or what the redactor let by.
  abbrev shown : FieldValue j.Value → Option j.Value
  shown (passthrough v) = some v
  shown (redactable text) = Option.map j.string (text_of (redactor text))

  -- What is stored under a name: what the last field of that name shows, else what was there.
  abbrev pub stored : Fields j.Value → Text → Option j.Value → Option j.Value
  stored [] k before = before
  stored ((name, value) ∷ fields) k before =
      stored fields k (if text_eq name k then shown value else before)

  redact_field-shown :
      (value : FieldValue j.Value) (v : j.Value)
      → redact_field j redactor value ≡ some (some v)
      → shown value ≡ some v
  unfolding redact_field
  redact_field-shown (passthrough w) v h = cc
  redact_field-shown (redactable text) v h = go (redactor text) h
    where
      go :
          (o : Option RedactionOutcome)
          → elim o [
            | none ↦ none
            | some (clean t) ↦ some (some (j.string t))
            | some (redacted t) ↦ some (some (j.string t))
            | some dropped ↦ some none
          ]
            ≡ some (some v)
          → Option.map j.string (text_of o) ≡ some v
      go none h = cc
      go (some (clean t)) h = cc
      go (some (redacted t)) h = cc
      go (some dropped) h = cc

  field_done :
      {o : Option (Option j.Value)} {f : j.Value → Option (Option j.Map)} {m : j.Map}
      → (and_then o λ outcome. elim outcome [ none ↦ some none | some v ↦ f v ]) ≡ some (some m)
      → (v : j.Value) × (o ≡ some (some v)) × (f v ≡ some (some m))
  field_done {o = none} h = cc
  field_done {o = some none} h = cc
  field_done {o = some (some v)} h = (v, refl, h)

  summary_of-stored :
      (fields : Fields j.Value) (acc m : j.Map) (k : Text)
      → summary_of j redactor fields acc ≡ some (some m)
      → j.get k m ≡ stored fields k (j.get k acc)
  unfolding summary_of
  summary_of-stored [] acc m k h = ap (j.get k) (sym (some_inj (some_inj h)))
  summary_of-stored ((name, value) ∷ fields) acc m k h =
      let step = field_done {o = redact_field j redactor value} h in
      rw (redact_field-shown value step.0 step.1) (
        rw (← j.get-insert name k step.0 acc)
          (summary_of-stored fields (j.insert name step.0 acc) m k step.2))

-- What `process-stored` says, of the finished loop.
summary_made-stored :
    (j : Json) (pipeline : EventPipeline) (signal : CapturedSignal) (signal_type : SignalType)
    (level : PrivacyLevel) (now : ℕ) (k : Text) {o : Option (Fields j.Value)}
    {e : EventSummary j.Value} (m : j.Map) (fs : Fields j.Value)
    → summary_made j pipeline signal signal_type level now m ≡ e
    → o ≡ some fs
    → summary_of j pipeline.redactor fs j.empty ≡ some (some m)
    → and_then (j.as_object e.summary) (j.get k)
      ≡ and_then o λ fields. stored j pipeline.redactor fields k none
unfolding summary_made new_summary
summary_made-stored j pipeline signal signal_type level now k {o} {e} m fs made found done =
    rw (← made) (
      rw found (
        rw j.as_object-object (
          summary_of-stored j pipeline.redactor fs j.empty m k done
          ∙ ap (stored j pipeline.redactor fs k) (j.get-empty k))))

-- The object of a summary holds, under each name, what the last field of that name shows: a value
-- that needs no redaction as it is, and a text only as the redactor answered it. Under any other
-- name it holds nothing.
pub process-stored :
    (j : Json) (pipeline : EventPipeline) (signal : CapturedSignal) (level : PrivacyLevel) (now : ℕ)
    (k : Text) (e : EventSummary j.Value)
    → process j pipeline signal level now ≡ some (summarized e)
    → and_then (j.as_object e.summary) (j.get k)
      ≡ and_then
          (extracted j pipeline (classify j signal.payload))
          λ fields. stored j pipeline.redactor fields k none
unfolding process
process-stored j pipeline signal level now k e eq =
    elim (Bool-cases (level_gt (minimum_level_for (type_of j signal)) level)) [
      | inl h ↦ absurd (drop_event-ne j pipeline signal level now (rw h at eq))
      | inr h ↦
          let found =
            with_extracted-summarized j pipeline signal level now
              (extracted j pipeline (classify j signal.payload)) (rw h at eq) in
          summary_made-stored j pipeline signal (type_of j signal) level now k found.0 found.2
            found.1 found.3 found.4
    ]
