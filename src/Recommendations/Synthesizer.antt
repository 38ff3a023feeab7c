-- ===== src/Recommendations/Synthesizer.antt =====
-- crates/recommendations/src/synthesizer.rs. The prompts are texts that are passed in, reading the
-- fields (`serde_json::from_str`) and the clock are parameters; the messages of errors are data.
pub mod Grounded
pub mod Calls
use hidden_steps.Prelude.{
  Bool, List, Option, Result, Text, [], any, codes, err, if◌then◌else◌, none, ok, some, suc,
  text_eq, zero, ℕ, ◌&&◌, ◌++◌, ◌∷◌,
}
use hidden_steps.Float.{Float}
use hidden_steps.Domain.Pattern.{
  Alternative, Level, Recommendation, RecommendationCategory, RecommendationStatus,
}
use hidden_steps.Provider.{CompletionRequest, CompletionResponse, LlmProvider, ProviderError}
use hidden_steps.Patterns.Detector.{DetectedPattern}
use hidden_steps.Recommendations.Extract.{extract_json_object}
use hidden_steps.Recommendations.Counts.{CountMatchers, contradicts_occurrence_count}

pub record SynthesizedFields (F : Type 0) : Type 0 where
  pub title : Text
  pub category : Text
  pub why : Text
  pub confidence : F
  pub difficulty : Text
  pub maintenance_burden : Text
  pub privacy_implications : Text
  pub implementation_effort : Text
  pub alternatives : List Alternative
  pub assumptions : List Text
  pub ignored_information : List Text

-- The reasons that `try_build` gives, each a message of its own in the program.
pub data BuildError (F : Type 0) : Type 0 where
  no_json_object : BuildError F
  unexpected_shape : Text → BuildError F
  contradicts_count : ℕ → BuildError F
  unknown_category : Text → BuildError F
  unknown_level : Text → BuildError F
  confidence_out_of_range : F → BuildError F

-- `none` is the empty message before the first attempt.
pub data SynthesisError (F : Type 0) : Type 0 where
  synthesis_provider : ProviderError → SynthesisError F
  exhausted_retries : ℕ → Option (BuildError F) → SynthesisError F

unfoldable pub parse_category : {F : Type 0} → Text → Result RecommendationCategory (BuildError F)
parse_category value =
    if text_eq value (codes "shortcut")
    then ok RecommendationCategory.shortcut
    else if text_eq value (codes "template")
    then ok RecommendationCategory.template
    else if text_eq value (codes "script")
    then ok RecommendationCategory.script
    else if text_eq value (codes "browser_automation")
    then ok RecommendationCategory.browser_automation
    else if text_eq value (codes "rpa")
    then ok RecommendationCategory.rpa
    else if text_eq value (codes "workflow_platform")
    then ok RecommendationCategory.workflow_platform
    else if text_eq value (codes "ai_agent")
    then ok RecommendationCategory.ai_agent
    else if text_eq value (codes "hybrid")
    then ok RecommendationCategory.hybrid
    else err (unknown_category value)

unfoldable pub parse_level : {F : Type 0} → Text → Result Level (BuildError F)
parse_level value =
    if text_eq value (codes "low")
    then ok Level.low
    else if text_eq value (codes "medium")
    then ok Level.medium
    else if text_eq value (codes "high")
    then ok Level.high
    else err (unknown_level value)

-- `alternatives.iter().flat_map(|a| [a.approach, a.tradeoff])`
unfoldable pub alternative_texts : List Alternative → List Text
alternative_texts [] = []
alternative_texts (a ∷ rest) = a.approach ∷ a.tradeoff ∷ alternative_texts rest

-- `contradiction_check_fields`
unfoldable pub checked_texts : {F : Type 0} → SynthesizedFields F → List Text
unfolding alternative_texts
checked_texts fields =
    fields.why
    ∷ fields.title
    ∷ fields.privacy_implications
    ∷ fields.implementation_effort
    ∷ (fields.assumptions ++ (fields.ignored_information ++ alternative_texts fields.alternatives))

-- `Synthesizer::try_build`, for one pattern, one provider and one point in time.
module _ (f : Float) (m : CountMatchers) (detected : DetectedPattern f.F) (pattern_id : ℕ)
    (provider_id : Text) (created_at : ℕ) where
  unfoldable pub new_recommendation :
      SynthesizedFields f.F → RecommendationCategory → Level → Level → Recommendation f.F
  new_recommendation fields category difficulty maintenance_burden = record {
    id = none;
    pattern_id = pattern_id;
    created_at = created_at;
    title = fields.title;
    category = category;
    why = fields.why;
    confidence = fields.confidence;
    estimated_time_saved_minutes =
        f.mul detected.estimated_minutes_per_occurrence (f.of_ℕ detected.occurrence_count);
    difficulty = difficulty;
    maintenance_burden = maintenance_burden;
    privacy_implications = fields.privacy_implications;
    implementation_effort = fields.implementation_effort;
    alternatives = fields.alternatives;
    assumptions = fields.assumptions;
    ignored_information = fields.ignored_information;
    generating_provider = provider_id;
    status = RecommendationStatus.suggested;
    dismissal_reason = none;
  }

  in_range : f.F → Bool
  in_range confidence = f.less_eq (f.of_ℕ 0) confidence && f.less_eq confidence (f.of_ℕ 1)

  -- The `?` on the three parsed names, in their order, and the check of the confidence.
  assemble :
      SynthesizedFields f.F
      → Result RecommendationCategory (BuildError f.F)
      → Result Level (BuildError f.F)
      → Result Level (BuildError f.F)
      → Result (Recommendation f.F) (BuildError f.F)
  unfolding new_recommendation in_range
  assemble fields (err e) difficulty maintenance_burden = err e
  assemble fields (ok category) (err e) maintenance_burden = err e
  assemble fields (ok category) (ok difficulty) (err e) = err e
  assemble fields (ok category) (ok difficulty) (ok maintenance_burden) =
      if in_range fields.confidence
      then ok (new_recommendation fields category difficulty maintenance_burden)
      else err (confidence_out_of_range fields.confidence)

  build : SynthesizedFields f.F → Result (Recommendation f.F) (BuildError f.F)
  unfolding assemble checked_texts
  build fields =
      if any (λ t. contradicts_occurrence_count m t detected.occurrence_count)
        (checked_texts fields)
      then err (contradicts_count detected.occurrence_count)
      else assemble fields (parse_category fields.category) (parse_level fields.difficulty)
          (parse_level fields.maintenance_burden)

  built : Result (SynthesizedFields f.F) Text → Result (Recommendation f.F) (BuildError f.F)
  unfolding build
  built (ok fields) = build fields
  built (err e) = err (unexpected_shape e)

  from_json :
      (Text → Result (SynthesizedFields f.F) Text)
      → Option Text
      → Result (Recommendation f.F) (BuildError f.F)
  unfolding built
  from_json from_str none = err no_json_object
  from_json from_str (some json) = built (from_str json)

  unfoldable pub try_build :
      (Text → Result (SynthesizedFields f.F) Text)
      → Text
      → Result (Recommendation f.F) (BuildError f.F)
  unfolding from_json
  try_build from_str raw_response = from_json from_str (extract_json_object raw_response)

module _ (f : Float) (m : CountMatchers) {World : Type 0} (now_utc : World → ℕ)
    (from_str : Text → Result (SynthesizedFields f.F) Text) (provider : LlmProvider World f.F)
    (query : CompletionRequest) (pattern_id : ℕ) (detected : DetectedPattern f.F)
    (max_attempts : ℕ) where
  -- `retry` is the rest of the loop.
  after_build :
      (Option (BuildError f.F) → World → Result (Recommendation f.F) (SynthesisError f.F) × World)
      → Result (Recommendation f.F) (BuildError f.F)
      → World
      → Result (Recommendation f.F) (SynthesisError f.F) × World
  after_build retry (ok recommendation) world = (ok recommendation, world)
  after_build retry (err reason) world = retry (some reason) world

  after_call :
      (Option (BuildError f.F) → World → Result (Recommendation f.F) (SynthesisError f.F) × World)
      → Result CompletionResponse ProviderError × World
      → Result (Recommendation f.F) (SynthesisError f.F) × World
  unfolding after_build
  after_call retry (err e, world) = (err (synthesis_provider e), world)
  after_call retry (ok response, world) =
      after_build retry
        (try_build f m detected pattern_id provider.id (now_utc world) from_str response.text) world

  -- The loop over the attempts, with how many are left and the last reason.
  attempts :
      ℕ → Option (BuildError f.F) → World → Result (Recommendation f.F) (SynthesisError f.F) × World
  unfolding after_call
  attempts zero last_error world = (err (exhausted_retries max_attempts last_error), world)
  attempts (suc n) last_error world = after_call (attempts n) (provider.complete query world)

  unfoldable pub synthesize : World → Result (Recommendation f.F) (SynthesisError f.F) × World
  unfolding attempts
  synthesize world = attempts max_attempts none world
