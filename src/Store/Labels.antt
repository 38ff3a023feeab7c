-- ===== src/Store/Labels.antt =====
-- crates/event-store/src/store.rs: the texts that stand for the enumerations in the tables.
pub mod Laws
use hidden_steps.Prelude.{Result, Text, codes, err, if◌then◌else◌, ok, text_eq}
use hidden_steps.Domain.Signal.{SignalType}
use hidden_steps.Domain.Pattern.{
  AuditActor, Level, PatternStatus, RecommendationCategory, RecommendationStatus,
}
use hidden_steps.Store.{EventStoreError, unknown_label}

unfoldable pub signal_type_to_str : SignalType → Text
signal_type_to_str SignalType.app_focus_change = codes "app_focus_change"
signal_type_to_str SignalType.window_title = codes "window_title"
signal_type_to_str SignalType.shortcut_used = codes "shortcut_used"
signal_type_to_str SignalType.app_action_event = codes "app_action_event"
signal_type_to_str SignalType.browser_domain_visited = codes "browser_domain_visited"
signal_type_to_str SignalType.clipboard_metadata = codes "clipboard_metadata"
signal_type_to_str SignalType.file_operation_metadata = codes "file_operation_metadata"
signal_type_to_str SignalType.ocr_text = codes "ocr_text"
signal_type_to_str SignalType.screenshot = codes "screenshot"
signal_type_to_str SignalType.accessibility_tree = codes "accessibility_tree"

unfoldable pub signal_type_from_str : Text → Result SignalType EventStoreError
signal_type_from_str value =
    if text_eq value (codes "app_focus_change")
    then ok SignalType.app_focus_change
    else if text_eq value (codes "window_title")
    then ok SignalType.window_title
    else if text_eq value (codes "shortcut_used")
    then ok SignalType.shortcut_used
    else if text_eq value (codes "app_action_event")
    then ok SignalType.app_action_event
    else if text_eq value (codes "browser_domain_visited")
    then ok SignalType.browser_domain_visited
    else if text_eq value (codes "clipboard_metadata")
    then ok SignalType.clipboard_metadata
    else if text_eq value (codes "file_operation_metadata")
    then ok SignalType.file_operation_metadata
    else if text_eq value (codes "ocr_text")
    then ok SignalType.ocr_text
    else if text_eq value (codes "screenshot")
    then ok SignalType.screenshot
    else if text_eq value (codes "accessibility_tree")
    then ok SignalType.accessibility_tree
    else err (unknown_label (codes "signal_type") value)

unfoldable pub actor_to_str : AuditActor → Text
actor_to_str AuditActor.user = codes "user"
actor_to_str AuditActor.system = codes "system"

unfoldable pub actor_from_str : Text → Result AuditActor EventStoreError
actor_from_str value =
    if text_eq value (codes "user")
    then ok AuditActor.user
    else if text_eq value (codes "system")
    then ok AuditActor.system
    else err (unknown_label (codes "actor") value)

unfoldable pub pattern_status_to_str : PatternStatus → Text
pattern_status_to_str PatternStatus.active = codes "active"
pattern_status_to_str PatternStatus.stale = codes "stale"
pattern_status_to_str PatternStatus.dismissed = codes "dismissed"

unfoldable pub pattern_status_from_str : Text → Result PatternStatus EventStoreError
pattern_status_from_str value =
    if text_eq value (codes "active")
    then ok PatternStatus.active
    else if text_eq value (codes "stale")
    then ok PatternStatus.stale
    else if text_eq value (codes "dismissed")
    then ok PatternStatus.dismissed
    else err (unknown_label (codes "pattern status") value)

unfoldable pub level_to_str : Level → Text
level_to_str Level.low = codes "low"
level_to_str Level.medium = codes "medium"
level_to_str Level.high = codes "high"

unfoldable pub level_from_str : Text → Result Level EventStoreError
level_from_str value =
    if text_eq value (codes "low")
    then ok Level.low
    else if text_eq value (codes "medium")
    then ok Level.medium
    else if text_eq value (codes "high")
    then ok Level.high
    else err (unknown_label (codes "level") value)

unfoldable pub recommendation_category_to_str : RecommendationCategory → Text
recommendation_category_to_str RecommendationCategory.shortcut = codes "shortcut"
recommendation_category_to_str RecommendationCategory.template = codes "template"
recommendation_category_to_str RecommendationCategory.script = codes "script"
recommendation_category_to_str RecommendationCategory.browser_automation =
    codes "browser_automation"
recommendation_category_to_str RecommendationCategory.rpa = codes "rpa"
recommendation_category_to_str RecommendationCategory.workflow_platform = codes "workflow_platform"
recommendation_category_to_str RecommendationCategory.ai_agent = codes "ai_agent"
recommendation_category_to_str RecommendationCategory.hybrid = codes "hybrid"

unfoldable pub recommendation_category_from_str :
    Text → Result RecommendationCategory EventStoreError
recommendation_category_from_str value =
    if text_eq value (codes "shortcut")
    then ok RecommendationCategory.shortcut
    else if text_eq value (codes "template")
    then ok RecommendationCategory.template
    else if text_eq value (codes "script")
    then ok RecommendationCategory.script
    else if text_eq value (codes "browser_automation")
    then ok RecommendationCategory.browser_automation
    else if text_eq value (codes "rpa")
    then ok RecommendationCategory.rpa
    else if text_eq value (codes "workflow_platform")
    then ok RecommendationCategory.workflow_platform
    else if text_eq value (codes "ai_agent")
    then ok RecommendationCategory.ai_agent
    else if text_eq value (codes "hybrid")
    then ok RecommendationCategory.hybrid
    else err (unknown_label (codes "recommendation category") value)

unfoldable pub recommendation_status_to_str : RecommendationStatus → Text
recommendation_status_to_str RecommendationStatus.suggested = codes "suggested"
recommendation_status_to_str RecommendationStatus.implemented = codes "implemented"
recommendation_status_to_str RecommendationStatus.dismissed = codes "dismissed"

unfoldable pub recommendation_status_from_str : Text → Result RecommendationStatus EventStoreError
recommendation_status_from_str value =
    if text_eq value (codes "suggested")
    then ok RecommendationStatus.suggested
    else if text_eq value (codes "implemented")
    then ok RecommendationStatus.implemented
    else if text_eq value (codes "dismissed")
    then ok RecommendationStatus.dismissed
    else err (unknown_label (codes "recommendation status") value)
