-- ===== src/Pipeline/Process.antt =====
-- crates/pipeline/src/pipeline.rs: `EventPipeline::process`. The redactor is a parameter of the
-- pipeline here; `none` is a panic of the redactor.
pub mod Gate
pub mod Content
pub mod Verdict
use mathlib.Core.Option
use hidden_steps.Prelude.{
  List, Option, Text, [], and_then, codes, if◌then◌else◌, none, some, ℕ, ◌*◌, ◌+◌, ◌∷◌,
}
use hidden_steps.Json.{Json}
use hidden_steps.Domain.Privacy.{PrivacyLevel, level_eq, level_gt, maximum_assistance}
use hidden_steps.Domain.Signal.{CapturedSignal, EventSummary, SignalType, new_summary}
use hidden_steps.Redaction.Engine.{RedactionOutcome, clean, dropped, redacted}
use hidden_steps.Pipeline.Classify.{
  ClassifiedSignal, FieldValue, Fields, classified_type, classify, minimum_level_for, passthrough,
  redactable, requires_extraction, with_fields,
}

pub data DropReason : Type 0 where
  redaction_uncertain ocr_unavailable signal_not_allowed_at_current_level : DropReason

pub data PipelineOutcome (Value : Type 0) : Type 0 where
  summarized : EventSummary Value → PipelineOutcome Value
  drop_event : DropReason → PipelineOutcome Value

-- 90 days in nanoseconds.
abbrev pub default_deep_mode_ttl : ℕ
default_deep_mode_ttl = 90 * 86400 * 1000000000

pub record EventPipeline : Type 0 where
  pub redactor : Text → Option RedactionOutcome
  pub text_extractor : List ℕ → Option Text
  pub deep_mode_ttl : Option ℕ

unfoldable pub no_text_extraction : List ℕ → Option Text
no_text_extraction raw_bytes = none

-- `EventPipeline::new`
unfoldable pub new_pipeline : (Text → Option RedactionOutcome) → EventPipeline
unfolding no_text_extraction
new_pipeline redactor = record {
  redactor = redactor;
  text_extractor = no_text_extraction;
  deep_mode_ttl = some default_deep_mode_ttl;
}

module _ (j : Json) where
  -- The fields to redact: those of the signal, or the text read out of its bytes.
  unfoldable pub extracted : EventPipeline → ClassifiedSignal j.Value → Option (Fields j.Value)
  extracted pipeline (with_fields signal_type fields) = some fields
  extracted pipeline (requires_extraction signal_type raw_bytes) =
      Option.map (λ text. (codes "text", redactable text) ∷ []) (pipeline.text_extractor raw_bytes)

  -- What the loop over the fields makes of one field.
  redact_field : (Text → Option RedactionOutcome) → FieldValue j.Value → Option (Option j.Value)
  redact_field redactor (passthrough v) = some (some v)
  redact_field redactor (redactable text) = elim (redactor text) [
    | none ↦ none
    | some (clean t) ↦ some (some (j.string t))
    | some (redacted t) ↦ some (some (j.string t))
    | some dropped ↦ some none
  ]

  -- The loop over the fields: `none` is a panic, `some none` drops the event.
  pub summary_of : (Text → Option RedactionOutcome) → Fields j.Value → j.Map → Option (Option j.Map)
  unfolding redact_field
  summary_of redactor [] summary = some (some summary)
  summary_of redactor ((name, value) ∷ fields) summary =
      and_then (redact_field redactor value) λ outcome. elim outcome [
        | none ↦ some none
        | some v ↦ summary_of redactor fields (j.insert name v summary)
      ]

  unfoldable pub summary_made :
      EventPipeline → CapturedSignal → SignalType → PrivacyLevel → ℕ → j.Map → EventSummary j.Value
  summary_made pipeline signal signal_type privacy_level now summary =
      new_summary now signal.source_id signal_type privacy_level (j.object summary) (
        if level_eq privacy_level maximum_assistance
        then Option.map (λ ttl. now + ttl) pipeline.deep_mode_ttl
        else none)

  finish :
      EventPipeline
      → CapturedSignal
      → SignalType
      → PrivacyLevel
      → ℕ
      → Option j.Map
      → PipelineOutcome j.Value
  finish pipeline signal signal_type privacy_level now none = drop_event redaction_uncertain
  finish pipeline signal signal_type privacy_level now (some summary) =
      summarized (summary_made pipeline signal signal_type privacy_level now summary)

  pub with_extracted :
      EventPipeline
      → CapturedSignal
      → SignalType
      → PrivacyLevel
      → ℕ
      → Option (Fields j.Value)
      → Option (PipelineOutcome j.Value)
  unfolding summary_of finish
  with_extracted pipeline signal signal_type privacy_level now none =
      some (drop_event ocr_unavailable)
  with_extracted pipeline signal signal_type privacy_level now (some fields) =
      Option.map (finish pipeline signal signal_type privacy_level now)
        (summary_of pipeline.redactor fields j.empty)

  unfoldable pub process :
      EventPipeline → CapturedSignal → PrivacyLevel → ℕ → Option (PipelineOutcome j.Value)
  unfolding with_extracted
  process pipeline signal privacy_level now =
      let classified = classify j signal.payload in
      let signal_type = classified_type classified in
      if level_gt (minimum_level_for signal_type) privacy_level
      then some (drop_event signal_not_allowed_at_current_level)
      else with_extracted pipeline signal signal_type privacy_level now
          (extracted pipeline classified)
