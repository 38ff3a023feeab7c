-- ===== src/Store/Labels/Laws.antt =====
-- Every label is read back as what it was written for.
use hidden_steps.Prelude.{arith, ok, text_eq, ◌≡◌}
use hidden_steps.Domain.Signal.{SignalType}
use hidden_steps.Domain.Pattern.{
  AuditActor, Level, PatternStatus, RecommendationCategory, RecommendationStatus,
}
use hidden_steps.Store.Labels.{
  actor_from_str, actor_to_str, level_from_str, level_to_str, pattern_status_from_str,
  pattern_status_to_str, recommendation_category_from_str, recommendation_category_to_str,
  recommendation_status_from_str, recommendation_status_to_str, signal_type_from_str,
  signal_type_to_str,
}

pub signal_type-round : (x : SignalType) → signal_type_from_str (signal_type_to_str x) ≡ ok x
unfolding signal_type_from_str signal_type_to_str text_eq
signal_type-round x = ground arith

pub actor-round : (x : AuditActor) → actor_from_str (actor_to_str x) ≡ ok x
unfolding actor_from_str actor_to_str text_eq
actor-round x = ground arith

pub pattern_status-round :
    (x : PatternStatus) → pattern_status_from_str (pattern_status_to_str x) ≡ ok x
unfolding pattern_status_from_str pattern_status_to_str text_eq
pattern_status-round x = ground arith

pub level-round : (x : Level) → level_from_str (level_to_str x) ≡ ok x
unfolding level_from_str level_to_str text_eq
level-round x = ground arith

pub category-round :
    (x : RecommendationCategory)
    → recommendation_category_from_str (recommendation_category_to_str x) ≡ ok x
unfolding recommendation_category_from_str recommendation_category_to_str text_eq
category-round x = ground arith

pub recommendation_status-round :
    (x : RecommendationStatus)
    → recommendation_status_from_str (recommendation_status_to_str x) ≡ ok x
unfolding recommendation_status_from_str recommendation_status_to_str text_eq
recommendation_status-round x = ground arith
