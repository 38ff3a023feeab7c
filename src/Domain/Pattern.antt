-- ===== src/Domain/Pattern.antt =====
-- crates/domain/src/pattern.rs, recommendation.rs, audit.rs and llm_provider_config.rs: the rows
-- of the store. `Value` stands for `serde_json::Value`, `F` for the floating-point numbers.
use mathlib.Core.Option
use hidden_steps.Float.{Float}
use hidden_steps.Prelude.{Bool, List, Option, Text, none, ℕ}

pub data PatternStatus : Type 0 where
  active stale dismissed : PatternStatus

pub record Pattern (Value F : Type 0) : Type 0 where
  pub id : Option ℕ
  pub first_seen_at : ℕ
  pub last_seen_at : ℕ
  pub occurrence_count : ℕ
  pub estimated_minutes_per_occurrence : Option F
  pub sequence_signature : Value
  pub status : PatternStatus

module _ (float : Float) {Value : Type 0} where
  unfoldable pub total_estimated_minutes : Pattern Value float.F → Option float.F
  total_estimated_minutes pattern =
      Option.map (λ per_occurrence. float.mul per_occurrence (float.of_ℕ pattern.occurrence_count))
        pattern.estimated_minutes_per_occurrence

pub data RecommendationCategory : Type 0 where
  shortcut template script browser_automation : RecommendationCategory
  rpa workflow_platform ai_agent hybrid : RecommendationCategory

pub data Level : Type 0 where
  low medium high : Level

pub data RecommendationStatus : Type 0 where
  suggested implemented dismissed : RecommendationStatus

pub record Alternative : Type 0 where
  pub approach : Text
  pub tradeoff : Text

pub record Recommendation (F : Type 0) : Type 0 where
  pub id : Option ℕ
  pub pattern_id : ℕ
  pub created_at : ℕ
  pub title : Text
  pub category : RecommendationCategory
  pub why : Text
  pub confidence : F
  pub estimated_time_saved_minutes : F
  pub difficulty : Level
  pub maintenance_burden : Level
  pub privacy_implications : Text
  pub implementation_effort : Text
  pub alternatives : List Alternative
  pub assumptions : List Text
  pub ignored_information : List Text
  pub generating_provider : Text
  pub status : RecommendationStatus
  pub dismissal_reason : Option Text

pub data AuditActor : Type 0 where
  user system : AuditActor

pub record AuditEntry (Value : Type 0) : Type 0 where
  pub id : Option ℕ
  pub occurred_at : ℕ
  pub actor : AuditActor
  pub action_type : Text
  pub details : Value

-- `AuditEntry::new`, at the time it is called.
unfoldable pub new_entry : {Value : Type 0} → ℕ → AuditActor → Text → Value → AuditEntry Value
new_entry now actor action_type details = record {
  id = none;
  occurred_at = now;
  actor = actor;
  action_type = action_type;
  details = details;
}

pub record LlmProviderConfig : Type 0 where
  pub id : Text
  pub provider_type : Text
  pub is_local : Bool
  pub model_name : Option Text
  pub endpoint : Option Text
  pub vault_key_ref : Option Text
  pub active : Bool
