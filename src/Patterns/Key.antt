-- ===== src/Patterns/Key.antt =====
-- crates/patterns/src/detector.rs: `action_key` and what a signature says of verbatim content.
-- `extension` stands for `Path::new(path).extension()` followed by `to_str`.
use hidden_steps.Prelude.{
  Bool, List, Option, Text, and_then, any, codes, none, some, starts_with, unwrap_or, ◌++◌,
}
use hidden_steps.Json.{Json}
use hidden_steps.Domain.Signal.{EventSummary, SignalType}

unfoldable pub signal_type_label : SignalType → Text
signal_type_label SignalType.app_focus_change = codes "app_focus_change"
signal_type_label SignalType.window_title = codes "window_title"
signal_type_label SignalType.shortcut_used = codes "shortcut_used"
signal_type_label SignalType.app_action_event = codes "app_action_event"
signal_type_label SignalType.browser_domain_visited = codes "browser_domain_visited"
signal_type_label SignalType.clipboard_metadata = codes "clipboard_metadata"
signal_type_label SignalType.file_operation_metadata = codes "file_operation_metadata"
signal_type_label SignalType.ocr_text = codes "ocr_text"
signal_type_label SignalType.screenshot = codes "screenshot"
signal_type_label SignalType.accessibility_tree = codes "accessibility_tree"

unfoldable pub signature_contains_verbatim : List Text → Bool
signature_contains_verbatim signature =
    any (λ key. starts_with key (codes "browser_domain_visited:")) signature

module _ (j : Json) (extension : Text → Option Text) where
  unfoldable pub str_field : Text → j.Map → Option Text
  str_field name obj = and_then (j.get name obj) j.as_str

  subject_in : SignalType → j.Map → Option Text
  unfolding str_field
  subject_in SignalType.app_focus_change obj = str_field (codes "app") obj
  subject_in SignalType.shortcut_used obj = str_field (codes "shortcut") obj
  subject_in SignalType.browser_domain_visited obj = str_field (codes "domain") obj
  subject_in SignalType.clipboard_metadata obj = str_field (codes "content_type") obj
  subject_in SignalType.file_operation_metadata obj =
      and_then (str_field (codes "operation") obj) λ operation. some (
        operation
        ++ (codes ":"
            ++ unwrap_or (and_then (str_field (codes "path") obj) extension)
                (codes "no_extension")))
  subject_in SignalType.window_title obj = none
  subject_in SignalType.app_action_event obj = none
  subject_in SignalType.ocr_text obj = none
  subject_in SignalType.screenshot obj = none
  subject_in SignalType.accessibility_tree obj = none

  unfoldable pub subject : EventSummary j.Value → Option Text
  unfolding subject_in
  subject event = and_then (j.as_object event.summary) (subject_in event.signal_type)

  key_of : EventSummary j.Value → Option Text → Text
  key_of event (some value) = signal_type_label event.signal_type ++ (codes ":" ++ value)
  key_of event none = event.source_id ++ (codes ":" ++ signal_type_label event.signal_type)

  unfoldable pub action_key : EventSummary j.Value → Text
  unfolding key_of subject
  action_key event = key_of event (subject event)
