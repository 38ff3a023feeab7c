-- ===== src/Recommendations/Synthesizer/Calls.antt =====
-- crates/recommendations/src/synthesizer.rs: the world changes by calls of the provider only.
use hidden_steps.Prelude.{Option, Result, Text, err, none, ok, some, suc, zero, ℕ}
use hidden_steps.Float.{Float}
use hidden_steps.Domain.Pattern.{Recommendation}
use hidden_steps.Provider.{CompletionRequest, CompletionResponse, LlmProvider, ProviderError}
use hidden_steps.Patterns.Detector.{DetectedPattern}
use hidden_steps.Recommendations.Counts.{CountMatchers}
use hidden_steps.Recommendations.Synthesizer.{
  BuildError, SynthesisError, SynthesizedFields, after_build, after_call, attempts, synthesize,
  try_build,
}

module _ (f : Float) (m : CountMatchers) {World : Type 0} (now_utc : World → ℕ)
    (from_str : Text → Result (SynthesizedFields f.F) Text) (provider : LlmProvider World f.F)
    (query : CompletionRequest) (pattern_id : ℕ) (detected : DetectedPattern f.F) (max_attempts : ℕ)
    (P : World → Type 0) where
  after_call-closed :
      (retry : Option (BuildError f.F)
        → World
        → Result (Recommendation f.F) (SynthesisError f.F) × World)
      → ((reason : Option (BuildError f.F)) (world : World) → P world → P (retry reason world).1)
      → (answer : Result CompletionResponse ProviderError × World) → P answer.1
      → P
          (after_call f m now_utc from_str provider query pattern_id detected max_attempts retry
            answer).1
  unfolding after_call
  after_call-closed retry later (err e, world) h = h
  after_call-closed retry later (ok response, world) h =
      go (try_build f m detected pattern_id provider.id (now_utc world) from_str response.text)
    where
      go :
          (o : Result (Recommendation f.F) (BuildError f.F))
          → P
              (after_build f m now_utc from_str provider query pattern_id detected max_attempts
                retry o world).1
      go (ok made) = h
      go (err reason) = later (some reason) world h

  attempts-closed :
      ((world : World) → P world → P (provider.complete query world).1)
      → (n : ℕ) (last_error : Option (BuildError f.F)) (world : World) → P world
      → P
          (attempts f m now_utc from_str provider query pattern_id detected max_attempts n
            last_error world).1
  unfolding attempts
  attempts-closed calls zero last_error world h = h
  attempts-closed calls (suc n) last_error world h =
      after_call-closed
        (attempts f m now_utc from_str provider query pattern_id detected max_attempts n)
        (attempts-closed calls n) (provider.complete query world) (calls world h)

  -- What every call of the provider keeps, the synthesis keeps.
  pub synthesize-closed :
      ((world : World) → P world → P (provider.complete query world).1)
      → (world : World) → P world
      → P (synthesize f m now_utc from_str provider query pattern_id detected max_attempts world).1
  unfolding synthesize
  synthesize-closed calls world h = attempts-closed calls max_attempts none world h
