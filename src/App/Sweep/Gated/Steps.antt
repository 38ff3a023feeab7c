-- ===== src/App/Sweep/Gated/Steps.antt =====
-- apps/desktop/src-tauri/src/recommendation_loop.rs: every step of a sweep calls the active provider
-- through the gate only.
use mathlib.Core.List.{Memᴰ}
use hidden_steps.Prelude.{
  All, Bool-cases, List, Option, Option-cases, Result, Result-cases, [], ap, err, find, inl, inr,
  none, ok, refl, some, ℕ, ◌&&◌, ◌∙◌, ◌∷◌, ◌≡◌,
}
use hidden_steps.Members.{All-Mem}
use hidden_steps.Domain.Pattern.{LlmProviderConfig, Pattern, Recommendation}
use hidden_steps.Domain.Privacy.{PrivacyLevel}
use hidden_steps.Float.{Float}
use hidden_steps.Gate.{DispatchDecision, DispatchGate, allow, ask_consent, blocked}
use hidden_steps.Gate.Provider.{WasGated, complete_if_allowed-world}
use hidden_steps.Json.{Json}
use hidden_steps.Patterns.Detector.{DetectedPattern}
use hidden_steps.Provider.{CompletionRequest, LlmProvider}
use hidden_steps.Recommendations.Synthesizer.{SynthesisError}
use hidden_steps.Recommendations.Synthesizer.Calls.{synthesize-closed}
use hidden_steps.Store.{Engine, EventStore, EventStoreError}
use hidden_steps.Store.Patterns.{
  event_exists, insert_pattern, link_event, link_pattern_events, linked, list_patterns,
  pattern_exists, update_pattern_stats,
}
use hidden_steps.Store.Providers.{get_active_llm_provider}
use hidden_steps.App.Providers.{Vault}
use hidden_steps.App.Sweep.{
  Clients, Engines, build_provider, default_attempts, dispatched, keep_recommendation, log_system,
  pattern_summary, synthesis_provider, try_synthesize, with_provider,
}
use hidden_steps.App.Sweep.Once.{
  each_pattern, new_pattern_stored, one_pattern, pattern_from, refreshed, signature_json,
  with_detected,
}

-- The worlds that calls of a sweep lead to. Each call is one of a provider that was built, in a world
-- that was reached before, from the active provider of the store; and that provider is on the device,
-- or the consents given allow it the summary of one of the patterns at the level.
module _ {World F : Type 0} (clients : Clients World F) (vault : Vault World) (gate : DispatchGate)
    (store : EventStore F) (level : PrivacyLevel) (patterns : List (DetectedPattern F)) where
  pub data Sent (before : World) : World → Type 0 where
    none_sent : Sent before before
    sent :
        {built_in middle : World} (config : LlmProviderConfig) (provider : LlmProvider World F)
        (detected : DetectedPattern F) (query : CompletionRequest)
        → get_active_llm_provider store ≡ ok (some config)
        → Sent before built_in
        → build_provider clients vault config built_in ≡ some provider
        → Memᴰ detected patterns
        → WasGated
            (record { inner = provider; gate = gate })
            level
            pattern_summary
            detected.contains_verbatim_strings
        → Sent before middle
        → Sent before (provider.complete query middle).1

-- A sweep of a store at a level, with the detected patterns, from a world on.
module _ (j : Json) (db : Engine j.Value) (float : Float) {World : Type 0}
    (clients : Clients World float.F) (vault : Vault World) (engines : Engines j float World)
    (gate : DispatchGate) (now : ℕ) (swept : EventStore float.F) (level : PrivacyLevel)
    (patterns : List (DetectedPattern float.F)) (start : World) where
  -- What every step keeps: the providers, and that the world was reached by gated calls.
  abbrev Guarded : EventStore float.F × World → Type 0
  Guarded (store, world) =
      (store.llm_providers ≡ swept.llm_providers)
      × Sent clients vault gate swept level patterns start world

  -- The same of a step that may fail.
  abbrev GuardedStep : (Result (Unit {0}) EventStoreError × EventStore float.F) × World → Type 0
  GuardedStep ((result, store), world) = Guarded (store, world)

  link_event-llm_providers :
      (pattern_id id : ℕ) (store : EventStore float.F)
      → (link_event pattern_id id store).1.llm_providers ≡ store.llm_providers
  unfolding link_event
  link_event-llm_providers pattern_id id store =
      elim (Bool-cases (linked pattern_id id store.pattern_events)) [
        | inl there ↦ rw there refl
        | inr new ↦ elim (Bool-cases (pattern_exists pattern_id store && event_exists id store)) [
          | inl both ↦ rw new (rw both refl)
          | inr missing ↦ rw new (rw missing refl)
        ]
      ]

  refreshed-llm_providers :
      (detected : DetectedPattern float.F) (id : Option ℕ) (store : EventStore float.F)
      → (refreshed j db float clients vault engines gate now detected id store).llm_providers
        ≡ store.llm_providers
  unfolding refreshed update_pattern_stats
  refreshed-llm_providers detected none store = refl
  refreshed-llm_providers detected (some id) store = refl

  insert_pattern-llm_providers :
      (pattern : Pattern j.Value float.F) (store : EventStore float.F)
      → (insert_pattern db pattern store).1.llm_providers ≡ store.llm_providers
  unfolding insert_pattern
  insert_pattern-llm_providers pattern store = refl

  keep_recommendation-Guarded :
      (pattern_id : ℕ) (store : EventStore float.F)
      (answer : Result (Recommendation float.F) (SynthesisError float.F) × World)
      → Guarded (store, answer.1)
      → Guarded
          (keep_recommendation j db float clients vault engines gate now pattern_id store answer)
  unfolding keep_recommendation log_system
  keep_recommendation-Guarded pattern_id store (ok r, world) h = h
  keep_recommendation-Guarded pattern_id store (err e, world) h = h

  dispatched-Guarded :
      (pattern_id : ℕ) (detected : DetectedPattern float.F) (store : EventStore float.F)
      (world : World) (config : LlmProviderConfig) (provider : LlmProvider World float.F)
      (decision : DispatchDecision)
      → get_active_llm_provider swept ≡ ok (some config)
      → build_provider clients vault config world ≡ some provider
      → Memᴰ detected patterns
      → Guarded (store, world)
      → Guarded (
          dispatched j db float clients vault engines gate now level pattern_id detected store world
            provider decision)
  unfolding dispatched synthesis_provider log_system
  dispatched-Guarded pattern_id detected store world config provider allow chosen built m h =
      keep_recommendation-Guarded pattern_id store _ (
        h.0,
        synthesize-closed float engines.matchers engines.now_utc engines.from_str
            (synthesis_provider engines.message (record { inner = provider; gate = gate }) level
              detected.contains_verbatim_strings)
            (engines.prompt detected) pattern_id detected default_attempts
            (Sent clients vault gate swept level patterns start)
            (λ reached r.
              elim (complete_if_allowed-world (record { inner = provider; gate = gate }) level
                pattern_summary detected.contains_verbatim_strings (engines.prompt detected)
                reached) [
                  | inl (gated, e) ↦ rw e (
                      sent config provider detected (engines.prompt detected) chosen h.1 built m
                        gated r)
                  | inr e ↦ rw e r
                ])
            world h.1,
      )
  dispatched-Guarded pattern_id detected store world config provider (ask_consent c) chosen built m
        h =
      h
  dispatched-Guarded pattern_id detected store world config provider blocked chosen built m h = h

  try_synthesize-Guarded :
      (pattern_id : ℕ) (detected : DetectedPattern float.F) (store : EventStore float.F)
      (world : World)
      → Memᴰ detected patterns
      → Guarded (store, world)
      → Guarded (
          try_synthesize j db float clients vault engines gate now level pattern_id detected store
            world)
  unfolding try_synthesize with_provider get_active_llm_provider
  try_synthesize-Guarded pattern_id detected store world m h =
      elim (Option-cases (find (λ p. p.active) store.llm_providers)) [
        | inl e ↦ rw e h
        | inr (config, e) ↦ elim (Option-cases (build_provider clients vault config world)) [
          | inl f ↦ rw e (rw f h)
          | inr (provider, f) ↦ rw e (
              rw f (
                dispatched-Guarded pattern_id detected store world config provider _
                  (ap ok (rw (← h.0) e)) f m h))
        ]
      ]

  link_pattern_events-llm_providers :
      (pattern_id : ℕ) (ids : List ℕ) (store : EventStore float.F)
      → (link_pattern_events pattern_id ids store).1.llm_providers ≡ store.llm_providers
  unfolding link_pattern_events
  link_pattern_events-llm_providers pattern_id [] store = refl
  link_pattern_events-llm_providers pattern_id (id ∷ ids) store =
      elim (Result-cases (link_event pattern_id id store).0) [
        | inl (u, e) ↦
            rw (e, link_pattern_events)
              (link_pattern_events-llm_providers pattern_id ids (link_event pattern_id id store).1
                ∙ link_event-llm_providers pattern_id id store)
        | inr (failure, e) ↦
            rw (e, link_pattern_events) (link_event-llm_providers pattern_id id store)
      ]

  new_pattern-Guarded :
      (detected : DetectedPattern float.F) (inserted : Result ℕ EventStoreError)
      (store : EventStore float.F) (world : World)
      → Memᴰ detected patterns
      → Guarded (store, world)
      → GuardedStep (
          new_pattern_stored j db float clients vault engines gate now level detected
            (inserted, store)
            world)
  unfolding new_pattern_stored
  new_pattern-Guarded detected (err e) store world m h = h
  new_pattern-Guarded detected (ok pattern_id) store world m h =
      try_synthesize-Guarded pattern_id detected
        (link_pattern_events pattern_id detected.contributing_event_ids store).1 world m
        (
          link_pattern_events-llm_providers pattern_id detected.contributing_event_ids store ∙ h.0,
          h.1,
        )

  one_pattern-Guarded :
      (detected : DetectedPattern float.F) (known : Option (Pattern j.Value float.F))
      (store : EventStore float.F) (world : World)
      → Memᴰ detected patterns
      → Guarded (store, world)
      → GuardedStep
          (one_pattern j db float clients vault engines gate now level detected known store world)
  unfolding one_pattern
  one_pattern-Guarded detected (some p) store world m h =
      (refreshed-llm_providers detected p.id store ∙ h.0, h.1)
  one_pattern-Guarded detected none store world m h =
      let stored =
        insert_pattern db (pattern_from j db float clients vault engines gate now detected) store in
      new_pattern-Guarded detected stored.0 stored.1 world m (
        insert_pattern-llm_providers
              (pattern_from j db float clients vault engines gate now detected) store
            ∙ h.0,
        h.1,
      )

  each_pattern-Guarded :
      (existing : List (Pattern j.Value float.F)) (rest : List (DetectedPattern float.F))
      (store : EventStore float.F) (world : World)
      → All (λ d. Memᴰ d patterns) rest
      → Guarded (store, world)
      → GuardedStep
          (each_pattern j db float clients vault engines gate now level existing rest store world)
  unfolding each_pattern
  each_pattern-Guarded existing [] store world m h = h
  each_pattern-Guarded existing (detected ∷ rest) store world m h =
      let signature = signature_json j db float clients vault engines gate now detected.signature in
      let known = find (λ p. engines.value_eq p.sequence_signature signature) existing in
      let step =
        one_pattern j db float clients vault engines gate now level detected known store world in
      let step_guarded = one_pattern-Guarded detected known store world m.0 h in
      elim (Result-cases step.0.0) [
        | inr (e, failed) ↦ rw (failed, each_pattern) step_guarded
        | inl (u, fine) ↦
            rw (fine, each_pattern)
              (each_pattern-Guarded existing rest step.0.1 step.1 m.1 step_guarded)
      ]

  pub with_detected-Sent :
      (store : EventStore float.F) (world : World)
      → Guarded (store, world)
      → Sent clients vault gate swept level patterns start
          (with_detected j db float clients vault engines gate now level store world patterns).1
  unfolding with_detected
  with_detected-Sent store world h = go patterns (All-Mem patterns)
    where
      go :
          (ds : List (DetectedPattern float.F))
          → All (λ d. Memᴰ d patterns) ds
          → Sent clients vault gate swept level patterns start
              (with_detected j db float clients vault engines gate now level store world ds).1
      go [] m = h.1
      go (d ∷ ds) m = elim (Result-cases (list_patterns db none store)) [
        | inr (e, failed) ↦ rw (failed, with_detected) h.1
        | inl (existing, listed) ↦
            rw (listed, with_detected) (each_pattern-Guarded existing (d ∷ ds) store world m h).1
      ]
