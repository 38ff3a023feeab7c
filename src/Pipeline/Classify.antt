-- ===== src/Pipeline/Classify.antt =====
-- crates/pipeline/src/classify.rs: the type of a signal, its fields, and the level it needs.
use hidden_steps.Prelude.{List, Text, [], codes, ℕ, ◌∷◌}
use hidden_steps.Json.{Json}
use hidden_steps.Domain.Privacy.{
  PrivacyLevel, application_metadata, maximum_assistance, workflow_metadata,
}
use hidden_steps.Domain.Signal.{CapturedPayload, SignalType}

unfoldable pub minimum_level_for : SignalType → PrivacyLevel
minimum_level_for SignalType.app_focus_change = application_metadata
minimum_level_for SignalType.window_title = application_metadata
minimum_level_for SignalType.shortcut_used = application_metadata
minimum_level_for SignalType.app_action_event = workflow_metadata
minimum_level_for SignalType.browser_domain_visited = workflow_metadata
minimum_level_for SignalType.clipboard_metadata = workflow_metadata
minimum_level_for SignalType.file_operation_metadata = workflow_metadata
minimum_level_for SignalType.ocr_text = maximum_assistance
minimum_level_for SignalType.screenshot = maximum_assistance
minimum_level_for SignalType.accessibility_tree = maximum_assistance

pub data FieldValue (Value : Type 0) : Type 0 where
  redactable : Text → FieldValue Value
  passthrough : Value → FieldValue Value

abbrev pub Fields : Type 0 → Type 0
Fields Value = List (Text × FieldValue Value)

pub data ClassifiedSignal (Value : Type 0) : Type 0 where
  with_fields : SignalType → Fields Value → ClassifiedSignal Value
  requires_extraction : SignalType → List ℕ → ClassifiedSignal Value

unfoldable pub classify : (j : Json) → CapturedPayload → ClassifiedSignal j.Value
classify j (CapturedPayload.app_focus_change app_identifier) =
    with_fields SignalType.app_focus_change ((codes "app", redactable app_identifier) ∷ [])
classify j (CapturedPayload.window_title title) =
    with_fields SignalType.window_title ((codes "title", redactable title) ∷ [])
classify j (CapturedPayload.shortcut_invoked shortcut) =
    with_fields SignalType.shortcut_used ((codes "shortcut", redactable shortcut) ∷ [])
classify j (CapturedPayload.browser_domain_visited domain) =
    with_fields SignalType.browser_domain_visited ((codes "domain", redactable domain) ∷ [])
classify j (CapturedPayload.clipboard_metadata content_type size_bytes) =
    with_fields SignalType.clipboard_metadata (
      (codes "content_type", passthrough (j.string content_type))
      ∷ (codes "size_bytes", passthrough (j.number size_bytes))
      ∷ [])
classify j (CapturedPayload.file_operation path operation) =
    with_fields SignalType.file_operation_metadata
      ((codes "path", redactable path) ∷ (codes "operation", passthrough (j.string operation)) ∷ [])
classify j (CapturedPayload.ocr_text text) =
    with_fields SignalType.ocr_text ((codes "text", redactable text) ∷ [])
classify j (CapturedPayload.screenshot raw_bytes) =
    requires_extraction SignalType.screenshot raw_bytes
classify j (CapturedPayload.accessibility_tree serialized) =
    with_fields SignalType.accessibility_tree ((codes "tree", redactable serialized) ∷ [])

unfoldable pub classified_type : {Value : Type 0} → ClassifiedSignal Value → SignalType
classified_type (with_fields signal_type fields) = signal_type
classified_type (requires_extraction signal_type raw_bytes) = signal_type
