-- ===== src/App/Sweep.antt =====
-- apps/desktop/src-tauri/src/recommendation_loop.rs: one sweep over the stored events. What a
-- provider does outside the program is in `World`; `none` is a panic of the detector.
pub mod Once
pub mod Gated
mod Saved
mod Tests
use hidden_steps.Prelude.{
  Bool, Option, Result, Text, [], and_then, codes, err, if◌then◌else◌, none, ok, ok_of, some,
  text_eq, unwrap_or, ℕ,
}
use hidden_steps.Domain.Pattern.{AuditActor, LlmProviderConfig, Recommendation, new_entry}
use hidden_steps.Domain.Privacy.{PrivacyLevel}
use hidden_steps.Float.{Float}
use hidden_steps.Gate.{DispatchDecision, DispatchGate, allow, ask_consent, blocked, evaluate}
use hidden_steps.Gate.Provider.{GateError, PrivacyGatedProvider, complete_if_allowed}
use hidden_steps.HashMap.{HashOrder}
use hidden_steps.Recommendations.Counts.{CountMatchers}
use hidden_steps.Recommendations.Synthesizer.{SynthesisError, SynthesizedFields, synthesize}
use hidden_steps.Json.{Json}
use hidden_steps.Patterns.Detector.{DetectedPattern}
use hidden_steps.Provider.{CompletionRequest, LlmProvider, embeddings_unsupported, request}
use hidden_steps.Store.{Engine, EventStore, EventStoreError}
use hidden_steps.Store.Events.{append_audit_entry}
use hidden_steps.Store.Patterns.{insert_recommendation}
use hidden_steps.Store.Providers.{get_active_llm_provider}
use hidden_steps.App.Providers.{Vault}

-- `unwrap_or_else(|| default.to_string())`
abbrev endpoint_or : LlmProviderConfig → Text → Text
endpoint_or config default = unwrap_or config.endpoint default

-- The three clients that are built, and `str::trim`.
pub record Clients (World F : Type 0) : Type 0 where
  pub ollama : (endpoint model : Text) → LlmProvider World F
  pub anthropic : (endpoint api_key model : Text) → LlmProvider World F
  pub openai_compatible : (endpoint api_key model : Text) → LlmProvider World F
  pub trim : Text → Text

module _ {World F : Type 0} (clients : Clients World F) (vault : Vault World) where
  -- A key that the vault does not give is the empty one. The bytes of a key are its text: those that
  -- are not UTF-8, which the code replaces, are left as they are.
  unfoldable pub api_key_of : Option Text → World → Text
  api_key_of none world = []
  api_key_of (some key_ref) world = unwrap_or (and_then (ok_of (vault.get key_ref world)) λ k. k) []

  client_of : LlmProviderConfig → Text → Text → LlmProvider World F
  client_of config api_key model =
      if text_eq config.provider_type (codes "ollama")
      then clients.ollama (endpoint_or config (codes "http://localhost:11434")) model
      else if text_eq config.provider_type (codes "anthropic")
      then clients.anthropic (endpoint_or config (codes "https://api.anthropic.com")) api_key model
      else clients.openai_compatible (endpoint_or config (codes "https://api.openai.com")) api_key
          model

  -- A model of blanks is none.
  unfoldable pub build_provider : LlmProviderConfig → World → Option (LlmProvider World F)
  unfolding api_key_of client_of
  build_provider config world = and_then config.model_name λ model.
      if text_eq (clients.trim model) []
      then none
      else some (client_of config (api_key_of config.vault_key_ref world) model)

abbrev pub pattern_summary : Text
pattern_summary = codes "pattern_summary"

-- `GatedSynthesisProvider`, with `message` for `GateError::to_string`.
unfoldable pub synthesis_provider :
    {World F : Type 0}
    → (GateError → Text)
    → PrivacyGatedProvider World F
    → PrivacyLevel
    → Bool
    → LlmProvider World F
unfolding complete_if_allowed
synthesis_provider message gated privacy_level contains_verbatim_strings = record {
  id = gated.inner.id;
  is_local = gated.inner.is_local;
  complete = λ query world.
      let (result, after) =
        complete_if_allowed gated query privacy_level pattern_summary contains_verbatim_strings
          world in
      (elim result [ ok r ↦ ok r | err e ↦ err (request (message e)) ], after);
  embed = λ text world. (err embeddings_unsupported, world);
}

-- What a sweep takes from elsewhere: the extension of a path and the span between points in time, the
-- order of a map, the matchers of counts, the clock, the reading of fields, the prompts, the equality
-- of values, and the messages of errors.
pub record Engines (j : Json) (float : Float) (World : Type 0) : Type 1 where
  pub extension : Text → Option Text
  pub seconds_between : ℕ → ℕ → float.F
  pub hash : HashOrder
  pub matchers : CountMatchers
  pub now_utc : World → ℕ
  pub from_str : Text → Result (SynthesizedFields float.F) Text
  pub prompt : DetectedPattern float.F → CompletionRequest
  pub value_eq : j.Value → j.Value → Bool
  pub message : GateError → Text
  pub synthesis_message : SynthesisError float.F → Text
  pub store_message : EventStoreError → Text

-- `Synthesizer::new`
abbrev pub default_attempts : ℕ
default_attempts = 2

module _ (j : Json) (db : Engine j.Value) (float : Float) {World : Type 0}
    (clients : Clients World float.F) (vault : Vault World) (engines : Engines j float World)
    (gate : DispatchGate) (now : ℕ) where
  -- `log_audit` of the system.
  unfoldable pub log_system : Text → j.Map → EventStore float.F → EventStore float.F
  unfolding append_audit_entry new_entry
  log_system action details store =
      (append_audit_entry db (new_entry now AuditActor.system action (j.object details)) store).1

  abbrev about_pattern : ℕ → j.Map
  about_pattern pattern_id = j.insert (codes "pattern_id") (j.number pattern_id) j.empty

  keep_recommendation :
      ℕ
      → EventStore float.F
      → Result (Recommendation float.F) (SynthesisError float.F) × World
      → EventStore float.F × World
  unfolding insert_recommendation log_system
  keep_recommendation pattern_id store (ok recommendation, world) =
      ((insert_recommendation db float recommendation store).1, world)
  keep_recommendation pattern_id store (err e, world) = (
    log_system (codes "recommendation_synthesis_failed")
        (j.insert (codes "error") (j.string (engines.synthesis_message e))
          (about_pattern pattern_id))
        store,
    world,
  )

  pub dispatched :
      PrivacyLevel
      → ℕ
      → DetectedPattern float.F
      → EventStore float.F
      → World
      → LlmProvider World float.F
      → DispatchDecision
      → EventStore float.F × World
  unfolding keep_recommendation synthesis_provider synthesize log_system
  dispatched level pattern_id detected store world provider allow =
      keep_recommendation pattern_id store (
        synthesize float engines.matchers engines.now_utc engines.from_str
          (synthesis_provider engines.message (record { inner = provider; gate = gate }) level
            detected.contains_verbatim_strings)
          (engines.prompt detected) pattern_id detected default_attempts world)
  dispatched level pattern_id detected store world provider (ask_consent _) = (
    log_system (codes "recommendation_blocked_by_privacy_gate") (about_pattern pattern_id) store,
    world,
  )
  dispatched level pattern_id detected store world provider blocked = (
    log_system (codes "recommendation_blocked_by_privacy_gate") (about_pattern pattern_id) store,
    world,
  )

  with_provider :
      PrivacyLevel
      → ℕ
      → DetectedPattern float.F
      → EventStore float.F
      → World
      → Option (LlmProvider World float.F)
      → EventStore float.F × World
  unfolding dispatched evaluate
  with_provider level pattern_id detected store world none = (store, world)
  with_provider level pattern_id detected store world (some provider) =
      dispatched level pattern_id detected store world provider
        (evaluate gate provider.is_local level pattern_summary detected.contains_verbatim_strings)

  unfoldable pub try_synthesize :
      PrivacyLevel
      → ℕ
      → DetectedPattern float.F
      → EventStore float.F
      → World
      → EventStore float.F × World
  unfolding get_active_llm_provider build_provider with_provider
  try_synthesize level pattern_id detected store world =
      with_provider level pattern_id detected store world (
        and_then (and_then (ok_of (get_active_llm_provider store)) λ c. c)
          λ config. build_provider clients vault config world)
