-- ===== src/App/Observation.antt =====
-- apps/desktop/src-tauri/src/observation_loop.rs: one turn of the loop from the signals that the
-- sources return to the stored events. Events that are emitted to the interface are returned.
pub mod Guarded
pub mod Tests
use mathlib.Core.Option
use hidden_steps.Prelude.{
  Bool, List, Option, Result, Text, [], and_then, err, if◌then◌else◌, not, ok, some, ℕ, ◌++◌, ◌||◌,
  ◌∷◌,
}
use hidden_steps.Domain.Privacy.{PrivacyLevel, PrivacyState, level_eq, manual}
use hidden_steps.Domain.Signal.{CapturedSignal, EventSummary}
use hidden_steps.Gate.Consent.{current_manifest_version, requires_reconsent}
use hidden_steps.Json.{Json}
use hidden_steps.Pipeline.Process.{EventPipeline, PipelineOutcome, drop_event, process, summarized}
use hidden_steps.Store.{Engine, EventStore, EventStoreError}
use hidden_steps.Store.Events.{insert_event_summary}
use hidden_steps.Store.State.{get_privacy_state}

-- The negation of the condition under which the loop waits.
unfoldable pub observes : PrivacyState → Bool
unfolding level_eq requires_reconsent
observes state = not (
    not state.observation_active
    || (level_eq state.current_level manual
        || requires_reconsent state.consented_manifest_version current_manifest_version))

-- How a turn ends: the loop is left, or goes on with the events that it emitted; `none` stands for a
-- panic of the redactor.
pub data Turn (Value F : Type 0) : Type 0 where
  loop_left : Turn Value F
  goes_on : EventStore F → List (EventSummary Value) → Turn Value F

-- The store and the emitted events so far.
abbrev pub Progress : (Value F : Type 0) → Type 0
Progress Value F = EventStore F × List (EventSummary Value)

module _ (j : Json) (db : Engine j.Value) {F : Type 0} where
  -- `if let Ok(id) = store.insert_event_summary(&event)`
  store_event :
      EventSummary j.Value
      → List (EventSummary j.Value)
      → Result ℕ EventStoreError × EventStore F
      → Progress j.Value F
  store_event event emitted (ok id, store) = (store, emitted ++ record event { id = some id } ∷ [])
  store_event event emitted (err _, store) = (store, emitted)

  unfoldable pub keep_outcome : PipelineOutcome j.Value → Progress j.Value F → Progress j.Value F
  unfolding insert_event_summary store_event
  keep_outcome (summarized event) (store, emitted) =
      store_event event emitted (insert_event_summary db event store)
  keep_outcome (drop_event _) progress = progress

module _ (j : Json) (db : Engine j.Value) (pipeline : EventPipeline) {F : Type 0} where
  -- The time is that of the signal's turn, given with the signal.
  unfoldable pub process_signals :
      PrivacyLevel → List (CapturedSignal × ℕ) → Progress j.Value F → Option (Progress j.Value F)
  unfolding process keep_outcome
  process_signals level [] progress = some progress
  process_signals level ((signal, now) ∷ signals) progress =
      and_then (process j pipeline signal level now)
        λ outcome. process_signals level signals (keep_outcome j db outcome progress)

  -- A source that fails to answer is asked again in the next turn.
  unfoldable pub poll_sources :
      PrivacyLevel
      → List (Result (List (CapturedSignal × ℕ)) Text)
      → Progress j.Value F
      → Option (Progress j.Value F)
  unfolding process_signals
  poll_sources level [] progress = some progress
  poll_sources level (err _ ∷ polls) progress = poll_sources level polls progress
  poll_sources level (ok signals ∷ polls) progress =
      and_then (process_signals level signals progress) (poll_sources level polls)

  turn_with :
      List (Result (List (CapturedSignal × ℕ)) Text)
      → EventStore F
      → Result PrivacyState EventStoreError
      → Option (Turn j.Value F)
  unfolding observes poll_sources
  turn_with polls store (err _) = some loop_left
  turn_with polls store (ok state) =
      if observes state
      then Option.map (λ progress. goes_on progress.0 progress.1)
          (poll_sources state.current_level polls (store, []))
      else some (goes_on store [])

  -- The sources are polled only in a turn that observes.
  unfoldable pub turn :
      List (Result (List (CapturedSignal × ℕ)) Text) → EventStore F → Option (Turn j.Value F)
  unfolding get_privacy_state turn_with
  turn polls store = turn_with polls store (get_privacy_state db store)
