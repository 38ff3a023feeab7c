-- ===== src/App/Sweep/Saved.antt =====
-- apps/desktop/src-tauri/src/recommendation_loop.rs: what is promised for a pattern and what is
-- stored of it.
use hidden_steps.Prelude.{ap, ok, some, sym, ℕ, ◌≡◌}
use hidden_steps.Domain.Pattern.{Recommendation, total_estimated_minutes}
use hidden_steps.Float.{Float}
use hidden_steps.Gate.{DispatchGate}
use hidden_steps.Json.{Json}
use hidden_steps.Patterns.Detector.{DetectedPattern}
use hidden_steps.Provider.{CompletionRequest, LlmProvider}
use hidden_steps.Recommendations.Synthesizer.{synthesize}
use hidden_steps.Recommendations.Synthesizer.Grounded.{synthesize-IsGrounded}
use hidden_steps.Store.{Engine}
use hidden_steps.App.Providers.{Vault}
use hidden_steps.App.Sweep.{Clients, Engines, default_attempts}
use hidden_steps.App.Sweep.Once.{pattern_from}

module _ (j : Json) (db : Engine j.Value) (float : Float) {World : Type 0}
    (clients : Clients World float.F) (vault : Vault World) (engines : Engines j float World)
    (gate : DispatchGate) (now : ℕ) where
  -- The time that a synthesized recommendation promises to save is the total of the estimated
  -- minutes of the pattern that the sweep stores, whatever the model answered.
  total_estimated_minutes-pattern_from :
      (provider : LlmProvider World float.F) (query : CompletionRequest)
      (detected : DetectedPattern float.F) (pattern_id : ℕ) (world : World)
      (r : Recommendation float.F)
      → (synthesize float engines.matchers engines.now_utc engines.from_str provider query
          pattern_id detected default_attempts world).0
        ≡ ok r
      → total_estimated_minutes float
          (pattern_from j db float clients vault engines gate now detected)
        ≡ some r.estimated_time_saved_minutes
  unfolding total_estimated_minutes pattern_from
  total_estimated_minutes-pattern_from provider query detected pattern_id world r h =
      let grounded =
        synthesize-IsGrounded float engines.matchers engines.now_utc engines.from_str provider query
          pattern_id detected default_attempts world r h in
      ap some (sym grounded.saved)
