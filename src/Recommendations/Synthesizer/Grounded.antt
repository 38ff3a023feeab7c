-- ===== src/Recommendations/Synthesizer/Grounded.antt =====
-- What a synthesized recommendation owes to the detected pattern.
use hidden_steps.Prelude.{
  All, All-any-false, All-map, Bool, Bool-cases, Option, Option-cases, Result, Text, any, err,
  false, if◌then◌else◌, inl, inr, none, ok, ok_inj, refl, some, subst, suc, true, zero, ℕ, ◌&&◌,
  ◌++◌, ◌∷◌, ◌≡◌,
}
use hidden_steps.Float.{Float}
use hidden_steps.Domain.Pattern.{
  Level, Recommendation, RecommendationCategory, RecommendationStatus,
}
use hidden_steps.Provider.{CompletionRequest, CompletionResponse, LlmProvider, ProviderError}
use hidden_steps.Patterns.Detector.{DetectedPattern}
use hidden_steps.Recommendations.Counts.{CountMatchers, contradicts_occurrence_count}
use hidden_steps.Recommendations.Counts.Agree.{
  MentionsAgree, contradicts_occurrence_count-MentionsAgree,
}
use hidden_steps.Recommendations.Synthesizer.{
  BuildError, SynthesisError, SynthesizedFields, after_build, after_call, alternative_texts,
  assemble, attempts, build, built, checked_texts, confidence_out_of_range, from_json, in_range,
  new_recommendation, parse_category, parse_level, synthesize, try_build,
}
use hidden_steps.Recommendations.Extract.{extract_json_object}

module _ (f : Float) (m : CountMatchers) (detected : DetectedPattern f.F) (pattern_id : ℕ)
    (provider_id : Text) where
  -- The numbers are the detector's, the mentions of counts that the texts have agree with it, and
  -- the confidence lies between 0 and 1.
  pub record IsGrounded (r : Recommendation f.F) : Type 0 where
    pub saved :
        r.estimated_time_saved_minutes
        ≡ f.mul detected.estimated_minutes_per_occurrence (f.of_ℕ detected.occurrence_count)
    pub of_pattern : r.pattern_id ≡ pattern_id
    pub by_provider : r.generating_provider ≡ provider_id
    pub suggested_only : r.status ≡ RecommendationStatus.suggested
    pub consistent : All (MentionsAgree m detected.occurrence_count) (
        r.why
        ∷ r.title
        ∷ r.privacy_implications
        ∷ r.implementation_effort
        ∷ (r.assumptions ++ (r.ignored_information ++ alternative_texts r.alternatives)))
    pub confident : (f.less_eq (f.of_ℕ 0) r.confidence && f.less_eq r.confidence (f.of_ℕ 1)) ≡ true

  if_ok :
      (b : Bool) (fields : SynthesizedFields f.F) {a r : Recommendation f.F}
      → (if b then ok a else err (confidence_out_of_range fields.confidence)) ≡ ok r
      → (b ≡ true) × (a ≡ r)
  if_ok true fields h = (refl, cc)
  if_ok false fields h = cc

  assemble-IsGrounded :
      (created_at : ℕ) (fields : SynthesizedFields f.F)
      (category : Result RecommendationCategory (BuildError f.F))
      (difficulty maintenance_burden : Result Level (BuildError f.F)) (r : Recommendation f.F)
      → any (λ t. contradicts_occurrence_count m t detected.occurrence_count) (checked_texts fields)
        ≡ false
      → assemble f m detected pattern_id provider_id created_at fields category difficulty
          maintenance_burden
        ≡ ok r
      → IsGrounded r
  unfolding assemble new_recommendation checked_texts in_range
  assemble-IsGrounded created_at fields (err e) d b r safe h = cc
  assemble-IsGrounded created_at fields (ok c) (err e) b r safe h = cc
  assemble-IsGrounded created_at fields (ok c) (ok d) (err e) r safe h = cc
  assemble-IsGrounded created_at fields (ok c) (ok d) (ok b) r safe h =
      let checked =
        if_ok (f.less_eq (f.of_ℕ 0) fields.confidence && f.less_eq fields.confidence (f.of_ℕ 1))
          fields h in
      subst IsGrounded checked.1 record {
        saved = refl;
        of_pattern = refl;
        by_provider = refl;
        suggested_only = refl;
        consistent =
            All-map (λ t. contradicts_occurrence_count m t detected.occurrence_count ≡ false)
              (λ t e. contradicts_occurrence_count-MentionsAgree m t detected.occurrence_count e)
              (checked_texts fields) (All-any-false _ (checked_texts fields) safe);
        confident = checked.0;
      }

  build-IsGrounded :
      (created_at : ℕ) (fields : SynthesizedFields f.F) (r : Recommendation f.F)
      → build f m detected pattern_id provider_id created_at fields ≡ ok r
      → IsGrounded r
  unfolding build
  build-IsGrounded created_at fields r h =
      elim (Bool-cases (
        any (λ t. contradicts_occurrence_count m t detected.occurrence_count)
          (checked_texts fields))) [
            | inl e ↦ absurd (cc (rw e at h))
            | inr e ↦
                assemble-IsGrounded created_at fields (parse_category fields.category)
                  (parse_level fields.difficulty) (parse_level fields.maintenance_burden) r e
                  (rw e at h)
          ]

  built-IsGrounded :
      (created_at : ℕ) (found : Result (SynthesizedFields f.F) Text) (r : Recommendation f.F)
      → built f m detected pattern_id provider_id created_at found ≡ ok r
      → IsGrounded r
  unfolding built
  built-IsGrounded created_at (ok fields) r h = build-IsGrounded created_at fields r h
  built-IsGrounded created_at (err e) r h = cc

  try_build-IsGrounded :
      (created_at : ℕ) (from_str : Text → Result (SynthesizedFields f.F) Text) (raw : Text)
      (r : Recommendation f.F)
      → try_build f m detected pattern_id provider_id created_at from_str raw ≡ ok r
      → IsGrounded r
  unfolding try_build from_json
  try_build-IsGrounded created_at from_str raw r h = elim (Option-cases (extract_json_object raw)) [
    | inl e ↦ absurd (cc (rw e at h))
    | inr (json, e) ↦ built-IsGrounded created_at (from_str json) r (rw e at h)
  ]

module _ (f : Float) (m : CountMatchers) {World : Type 0} (now_utc : World → ℕ)
    (from_str : Text → Result (SynthesizedFields f.F) Text) (provider : LlmProvider World f.F)
    (query : CompletionRequest) (pattern_id : ℕ) (detected : DetectedPattern f.F)
    (max_attempts : ℕ) where
  after_call-IsGrounded :
      (retry : Option (BuildError f.F)
        → World
        → Result (Recommendation f.F) (SynthesisError f.F) × World)
      → ((reason : Option (BuildError f.F)) (world : World) (r : Recommendation f.F)
          → (retry reason world).0 ≡ ok r
          → IsGrounded f m detected pattern_id provider.id r)
      → (answer : Result CompletionResponse ProviderError × World) (r : Recommendation f.F)
      → (after_call f m now_utc from_str provider query pattern_id detected max_attempts retry
          answer).0
        ≡ ok r
      → IsGrounded f m detected pattern_id provider.id r
  unfolding after_call
  after_call-IsGrounded retry later (err e, world) r h = cc
  after_call-IsGrounded retry later (ok response, world) r h =
      go (try_build f m detected pattern_id provider.id (now_utc world) from_str response.text) refl
        h
    where
      go :
          (o : Result (Recommendation f.F) (BuildError f.F))
          → try_build f m detected pattern_id provider.id (now_utc world) from_str response.text ≡ o
          → (after_build f m now_utc from_str provider query pattern_id detected max_attempts retry
              o world).0
            ≡ ok r
          → IsGrounded f m detected pattern_id provider.id r
      go (ok made) e same_one =
          subst (IsGrounded f m detected pattern_id provider.id) (ok_inj same_one) (
            try_build-IsGrounded f m detected pattern_id provider.id (now_utc world) from_str
              response.text made e)
      go (err reason) e again = later (some reason) world r again

  attempts-IsGrounded :
      (n : ℕ) (last_error : Option (BuildError f.F)) (world : World) (r : Recommendation f.F)
      → (attempts f m now_utc from_str provider query pattern_id detected max_attempts n last_error
          world).0
        ≡ ok r
      → IsGrounded f m detected pattern_id provider.id r
  unfolding attempts
  attempts-IsGrounded zero last_error world r h = cc
  attempts-IsGrounded (suc n) last_error world r h =
      after_call-IsGrounded
        (attempts f m now_utc from_str provider query pattern_id detected max_attempts n)
        (attempts-IsGrounded n) (provider.complete query world) r h

  -- A recommendation that is synthesized, whatever the model answered in however many attempts,
  -- takes its saved time from the detected pattern alone, belongs to that pattern and provider, is
  -- only suggested, and has a confidence between 0 and 1. Of what the four regular expressions match
  -- in its texts, every number that can be read is the number of occurrences of the pattern, except
  -- for single words that lie within another match.
  pub synthesize-IsGrounded :
      (world : World) (r : Recommendation f.F)
      → (synthesize f m now_utc from_str provider query pattern_id detected max_attempts world).0
        ≡ ok r
      → IsGrounded f m detected pattern_id provider.id r
  unfolding synthesize
  synthesize-IsGrounded world r h = attempts-IsGrounded max_attempts none world r h
