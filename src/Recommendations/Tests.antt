-- ===== src/Recommendations/Tests.antt =====
-- A model that answers with an object in prose, and one answer that is read.
use hidden_steps.Redaction.Numbers.{parse_u32}
use hidden_steps.Prelude.{
  Result, Text, [], codes, false, if◌then◌else◌, none, ok, refl, some, text_eq, true, ℕ, ◌↔◌, ◌∷◌,
  ◌≡◌,
}
use hidden_steps.Samples.{counting, whole}
use hidden_steps.Domain.Pattern.{Level, Recommendation, RecommendationCategory}
use hidden_steps.Provider.{CompletionRequest}
use hidden_steps.Patterns.Detector.{DetectedPattern}
use hidden_steps.Recommendations.Extract.{extract_json_object}
use hidden_steps.Recommendations.Extract.Object.{IsObjectIn, extract_json_object-IsObjectIn}
use hidden_steps.Recommendations.Counts.{CountMatchers, contradicts_occurrence_count}
use hidden_steps.Recommendations.Synthesizer.{
  SynthesizedFields, checked_texts, new_recommendation, parse_category, parse_level, synthesize,
  try_build,
}
use hidden_steps.Recommendations.Synthesizer.Grounded.{IsGrounded, synthesize-IsGrounded}

abbrev wrapped : Text
wrapped = codes "Sure: {\"why\": \"\\\"}\"} ok"

abbrev object_text : Text
object_text = codes "{\"why\": \"\\\"}\"}"

extract_json_object-IsObjectIn_example :
    (extract_json_object wrapped ≡ some object_text) ↔ IsObjectIn wrapped object_text
extract_json_object-IsObjectIn_example = extract_json_object-IsObjectIn wrapped object_text

-- The brace in the string, behind an escaped quotation mark, does not close the object.
extracted_object : extract_json_object wrapped ≡ some object_text
unfolding extract_json_object
extracted_object = refl

abbrev counts : CountMatchers
counts = record {
  occurrence_mention = λ t.
      (if text_eq t (codes "5 times")
        then (0, 7, some (codes "5")) ∷ []
        else if text_eq t (codes "3 times")
        then (0, 7, some (codes "3")) ∷ []
        else []);
  spelled_compound = λ t. [];
  spelled_single = λ t. [];
  once_or_twice = λ t. [];
}

mentions_five : contradicts_occurrence_count counts (codes "5 times") 3 ≡ true
unfolding contradicts_occurrence_count text_eq parse_u32
mentions_five = refl

abbrev detected : DetectedPattern ℕ
detected = record {
  signature = [];
  occurrence_count = 3;
  first_seen_at = 0;
  last_seen_at = 9;
  estimated_minutes_per_occurrence = 2;
  contributing_event_ids = [];
  contains_verbatim_strings = false;
}

abbrev fields : SynthesizedFields ℕ
fields = record {
  title = codes "t";
  category = codes "script";
  why = codes "3 times";
  confidence = 1;
  difficulty = codes "low";
  maintenance_burden = codes "high";
  privacy_implications = [];
  implementation_effort = [];
  alternatives = [];
  assumptions = [];
  ignored_information = [];
}

abbrev query : CompletionRequest
query = record { system = none; prompt = wrapped; max_tokens = some 1024; think = some false }

abbrev recommended : Recommendation ℕ
recommended =
    new_recommendation whole counts detected 4 (codes "counting") 1 fields
      RecommendationCategory.script Level.low Level.high

abbrev read_fields : Text → Result (SynthesizedFields ℕ) Text
read_fields json = ok fields

synthesize-IsGrounded_example : IsGrounded whole counts detected 4 (codes "counting") recommended
unfolding synthesize extract_json_object parse_category parse_level text_eq new_recommendation
    contradicts_occurrence_count parse_u32 checked_texts try_build
synthesize-IsGrounded_example =
    synthesize-IsGrounded whole counts (λ calls. calls) read_fields (counting true) query 4 detected
      2 0 recommended refl
