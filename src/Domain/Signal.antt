-- ===== src/Domain/Signal.antt =====
-- crates/domain/src/captured_signal.rs and event.rs: a signal before the pipeline and the
-- summary that comes out of it. `Value` stands for `serde_json::Value`.
use hidden_steps.Prelude.{Bool, List, Option, Text, if◌then◌else◌, none, ℕ}
use hidden_steps.Domain.Privacy.{PrivacyLevel, level_eq, maximum_assistance}

pub data CapturedPayload : Type 0 where
  app_focus_change : (app_identifier : Text) → CapturedPayload
  window_title : (title : Text) → CapturedPayload
  shortcut_invoked : (shortcut : Text) → CapturedPayload
  browser_domain_visited : (domain : Text) → CapturedPayload
  clipboard_metadata : (content_type : Text) (size_bytes : ℕ) → CapturedPayload
  file_operation : (path operation : Text) → CapturedPayload
  ocr_text : (text : Text) → CapturedPayload
  screenshot : (raw_bytes : List ℕ) → CapturedPayload
  accessibility_tree : (serialized : Text) → CapturedPayload

pub record CapturedSignal : Type 0 where
  pub source_id : Text
  pub payload : CapturedPayload

pub data SignalType : Type 0 where
  app_focus_change window_title shortcut_used app_action_event : SignalType
  browser_domain_visited clipboard_metadata file_operation_metadata : SignalType
  ocr_text screenshot accessibility_tree : SignalType

pub record EventSummary (Value : Type 0) : Type 0 where
  pub id : Option ℕ
  pub occurred_at : ℕ
  pub source_id : Text
  pub signal_type : SignalType
  pub privacy_level_at_capture : PrivacyLevel
  pub summary : Value
  pub is_deep_mode : Bool
  pub ttl_expires_at : Option ℕ

-- `EventSummary::new`
unfoldable pub new_summary :
    {Value : Type 0} → ℕ → Text → SignalType → PrivacyLevel → Value → Option ℕ → EventSummary Value
unfolding level_eq
new_summary occurred_at source_id signal_type privacy_level_at_capture summary ttl_expires_at =
    let is_deep_mode = level_eq privacy_level_at_capture maximum_assistance in
    record {
      id = none;
      occurred_at = occurred_at;
      source_id = source_id;
      signal_type = signal_type;
      privacy_level_at_capture = privacy_level_at_capture;
      summary = summary;
      is_deep_mode = is_deep_mode;
      ttl_expires_at = if is_deep_mode then ttl_expires_at else none;
    }
