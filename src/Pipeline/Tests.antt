-- ===== src/Pipeline/Tests.antt =====
-- The pipeline on a window title, with a redactor that drops one text and masks another.
use hidden_steps.Prelude.{
  Option, Text, [], and_then, any, codes, if◌then◌else◌, none, refl, some, text_eq, true, ◌↔◌, ◌∷◌,
  ◌≡◌,
}
use hidden_steps.Samples.{Node, member, no_more, object_node, text_node, tree_json}
use hidden_steps.Domain.Privacy.{as_u8, context_aware, level_gt, manual}
use hidden_steps.Domain.Signal.{
  CapturedPayload, CapturedSignal, EventSummary, SignalType, new_summary,
}
use hidden_steps.Redaction.Engine.{RedactionOutcome, clean, dropped}
use hidden_steps.Pipeline.Classify.{
  Fields, classified_type, classify, minimum_level_for, redactable,
}
use hidden_steps.Pipeline.Process.{
  EventPipeline, drop_event, extracted, new_pipeline, process, redaction_uncertain,
  signal_not_allowed_at_current_level, summarized, summary_made,
}
use hidden_steps.Pipeline.Process.Gate.{
  IsFaithful, process-IsFaithful, process-not_allowed_iff, type_of,
}
use hidden_steps.Pipeline.Process.Content.{process-stored, stored}
use hidden_steps.Pipeline.Process.Verdict.{
  process-redaction_uncertain_iff, process-summarizes, withheld,
}

abbrev secret : Text
secret = codes "secret"

abbrev redactor : Text → Option RedactionOutcome
redactor text = if text_eq text secret then some dropped else some (clean text)

abbrev pipeline : EventPipeline
pipeline = new_pipeline redactor

abbrev titled : Text → CapturedSignal
titled title = record { source_id = codes "x11"; payload = CapturedPayload.window_title title }

abbrev inbox : Text
inbox = codes "Inbox"

abbrev summary : EventSummary Node
summary =
    new_summary 7 (codes "x11") SignalType.window_title context_aware
      (object_node (member (codes "title") (text_node inbox) no_more)) none

summarizes : process tree_json pipeline (titled inbox) context_aware 7 ≡ some (summarized summary)
unfolding process classify minimum_level_for level_gt as_u8 classified_type new_pipeline text_eq
    new_summary extracted summary_made
summarizes = refl

process-IsFaithful_example : IsFaithful tree_json pipeline (titled inbox) context_aware 7 summary
process-IsFaithful_example =
    process-IsFaithful tree_json pipeline (titled inbox) context_aware 7 summary summarizes

process-not_allowed_iff_example :
    (process tree_json pipeline (titled inbox) manual 7
      ≡ some (drop_event signal_not_allowed_at_current_level))
    ↔ (level_gt (minimum_level_for (type_of tree_json (titled inbox))) manual ≡ true)
process-not_allowed_iff_example = process-not_allowed_iff tree_json pipeline (titled inbox) manual 7

process-stored_example :
    and_then (tree_json.as_object summary.summary) (tree_json.get (codes "title"))
    ≡ and_then
        (extracted tree_json pipeline (classify tree_json (titled inbox).payload))
        λ fields. stored tree_json pipeline.redactor fields (codes "title") none
process-stored_example =
    process-stored tree_json pipeline (titled inbox) context_aware 7 (codes "title") summary
      summarizes

abbrev secret_fields : Fields Node
secret_fields = (codes "title", redactable secret) ∷ []

abbrev inbox_fields : Fields Node
inbox_fields = (codes "title", redactable inbox) ∷ []

process-redaction_uncertain_iff_example :
    (process tree_json pipeline (titled secret) context_aware 7
      ≡ some (drop_event redaction_uncertain))
    ↔ (any (withheld pipeline.redactor) secret_fields ≡ true)
unfolding classify minimum_level_for level_gt as_u8 classified_type new_pipeline text_eq extracted
process-redaction_uncertain_iff_example =
    process-redaction_uncertain_iff tree_json pipeline (titled secret) context_aware 7 secret_fields
      refl refl refl

process-summarizes_example :
    (e : EventSummary Node) × (process tree_json pipeline (titled inbox) context_aware 7
      ≡ some (summarized e))
unfolding classify minimum_level_for level_gt as_u8 classified_type new_pipeline text_eq extracted
process-summarizes_example =
    process-summarizes tree_json pipeline (titled inbox) context_aware 7 inbox_fields refl refl refl
      refl
