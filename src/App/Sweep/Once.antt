-- ===== src/App/Sweep/Once.antt =====
-- apps/desktop/src-tauri/src/recommendation_loop.rs: the expiry, the detection and the loop over the
-- detected patterns. `none` is a panic of the detector.
use mathlib.Core.Option
use mathlib.Core.List.{reverse}
use hidden_steps.Prelude.{
  List, Option, Result, Text, [], codes, err, find, if◌then◌else◌, map, none, ok, some, ℕ, ◌==◌,
  ◌∷◌,
}
use hidden_steps.Domain.Pattern.{Pattern, PatternStatus}
use hidden_steps.Domain.Privacy.{PrivacyLevel, PrivacyState}
use hidden_steps.Domain.Signal.{EventSummary}
use hidden_steps.Float.{Float}
use hidden_steps.Gate.{DispatchGate}
use hidden_steps.Json.{Json}
use hidden_steps.Patterns.Detector.{DetectedPattern, default_detector, detect}
use hidden_steps.Store.{Engine, EventStore, EventStoreError}
use hidden_steps.Store.Events.{delete_expired_events, list_recent_events}
use hidden_steps.Store.Patterns.{
  insert_pattern, link_pattern_events, list_patterns, update_pattern_stats,
}
use hidden_steps.Store.State.{get_privacy_state}
use hidden_steps.App.Providers.{Vault}
use hidden_steps.App.Sweep.{Clients, Engines, log_system, try_synthesize}

-- `EVENT_HISTORY_LIMIT`
abbrev pub event_history_limit : ℕ
event_history_limit = 2000

module _ (j : Json) (db : Engine j.Value) (float : Float) {World : Type 0}
    (clients : Clients World float.F) (vault : Vault World) (engines : Engines j float World)
    (gate : DispatchGate) (now : ℕ) where
  -- `serde_json::to_value(&pattern.signature)`
  abbrev pub signature_json : List Text → j.Value
  signature_json signature = j.array (map j.string signature)

  unfoldable pub pattern_from : DetectedPattern float.F → Pattern j.Value float.F
  pattern_from detected = record {
    id = none;
    first_seen_at = detected.first_seen_at;
    last_seen_at = detected.last_seen_at;
    occurrence_count = detected.occurrence_count;
    estimated_minutes_per_occurrence = some detected.estimated_minutes_per_occurrence;
    sequence_signature = signature_json detected.signature;
    status = PatternStatus.active;
  }

  -- `let _ = store.update_pattern_stats(...)`, where the known pattern has an id.
  unfoldable pub refreshed :
      DetectedPattern float.F → Option ℕ → EventStore float.F → EventStore float.F
  unfolding update_pattern_stats
  refreshed detected none store = store
  refreshed detected (some id) store =
      (update_pattern_stats db id detected.last_seen_at detected.occurrence_count
        (some detected.estimated_minutes_per_occurrence) store).1

  -- A pattern that is new is stored, linked to its events and given to the synthesis.
  unfoldable pub new_pattern_stored :
      PrivacyLevel
      → DetectedPattern float.F
      → Result ℕ EventStoreError × EventStore float.F
      → World
      → (Result (Unit {0}) EventStoreError × EventStore float.F) × World
  unfolding link_pattern_events try_synthesize
  new_pattern_stored level detected (err e, store) world = ((err e, store), world)
  new_pattern_stored level detected (ok pattern_id, store) world =
      let with_links = (link_pattern_events pattern_id detected.contributing_event_ids store).1 in
      let (after, outer) =
        try_synthesize j db float clients vault engines gate now level pattern_id detected
          with_links world in
      ((ok tt, after), outer)

  unfoldable pub one_pattern :
      PrivacyLevel
      → DetectedPattern float.F
      → Option (Pattern j.Value float.F)
      → EventStore float.F
      → World
      → (Result (Unit {0}) EventStoreError × EventStore float.F) × World
  unfolding refreshed insert_pattern pattern_from new_pattern_stored
  one_pattern level detected (some known) store world =
      ((ok tt, refreshed detected known.id store), world)
  one_pattern level detected none store world =
      new_pattern_stored level detected (insert_pattern db (pattern_from detected) store) world

  -- The loop over the detected patterns, which the first failed insertion ends.
  unfoldable pub each_pattern :
      PrivacyLevel
      → List (Pattern j.Value float.F)
      → List (DetectedPattern float.F)
      → EventStore float.F
      → World
      → (Result (Unit {0}) EventStoreError × EventStore float.F) × World
  unfolding one_pattern
  each_pattern level existing [] store world = ((ok tt, store), world)
  each_pattern level existing (detected ∷ rest) store world =
      let known =
        find (λ p. engines.value_eq p.sequence_signature (signature_json detected.signature))
          existing in
      let ((result, after), outer) = one_pattern level detected known store world in
      elim result [
        | ok _ ↦ each_pattern level existing rest after outer
        | err e ↦ ((err e, after), outer)
      ]

  -- The audit entries of the expiry.
  unfoldable pub log_expiry : Result ℕ EventStoreError × EventStore float.F → EventStore float.F
  unfolding log_system
  log_expiry (ok count, store) =
      if count == 0
      then store
      else log_system j db float clients vault engines gate now
          (codes "deep_mode_ttl_expired_events_deleted")
          (j.insert (codes "count") (j.number count) j.empty) store
  log_expiry (err e, store) =
      log_system j db float clients vault engines gate now (codes "deep_mode_ttl_sweep_error")
        (j.insert (codes "error") (j.string (engines.store_message e)) j.empty) store

  unfoldable pub with_detected :
      PrivacyLevel
      → EventStore float.F
      → World
      → List (DetectedPattern float.F)
      → (Result (Unit {0}) EventStoreError × EventStore float.F) × World
  unfolding list_patterns each_pattern
  with_detected level store world [] = ((ok tt, store), world)
  with_detected level store world (d ∷ ds) = elim (list_patterns db none store) [
    | err e ↦ ((err e, store), world)
    | ok existing ↦ each_pattern level existing (d ∷ ds) store world
  ]

  -- The events come newest first and are detected oldest first.
  unfoldable pub with_events :
      PrivacyLevel
      → EventStore float.F
      → World
      → List (EventSummary j.Value)
      → Option ((Result (Unit {0}) EventStoreError × EventStore float.F) × World)
  unfolding with_detected detect
  with_events level store world [] = some ((ok tt, store), world)
  with_events level store world (e ∷ es) = Option.map (with_detected level store world) (
      detect float j engines.extension engines.seconds_between engines.hash default_detector
        (reverse (e ∷ es)))

  unfoldable pub with_recent :
      PrivacyLevel
      → EventStore float.F
      → World
      → Result (List (EventSummary j.Value)) EventStoreError
      → Option ((Result (Unit {0}) EventStoreError × EventStore float.F) × World)
  unfolding with_events
  with_recent level store world (err e) = some ((err e, store), world)
  with_recent level store world (ok events) = with_events level store world events

  unfoldable pub with_state :
      EventStore float.F
      → World
      → Result PrivacyState EventStoreError
      → Option ((Result (Unit {0}) EventStoreError × EventStore float.F) × World)
  unfolding with_recent list_recent_events
  with_state store world (err e) = some ((err e, store), world)
  with_state store world (ok state) =
      with_recent state.current_level store world
        (list_recent_events db (some event_history_limit) store)

  unfoldable pub sweep_once :
      EventStore float.F
      → World
      → Option ((Result (Unit {0}) EventStoreError × EventStore float.F) × World)
  unfolding delete_expired_events log_expiry get_privacy_state with_state
  sweep_once store world =
      let swept = log_expiry (delete_expired_events db now store) in
      with_state swept world (get_privacy_state db swept)

  -- The turn of the loop: an error of the sweep is logged.
  unfoldable pub sweep_turn : EventStore float.F → World → Option (EventStore float.F × World)
  unfolding sweep_once log_system
  sweep_turn store world =
      Option.map
        (λ swept. elim swept.0.0 [
          | ok _ ↦ (swept.0.1, swept.1)
          | err e ↦ (
            log_system j db float clients vault engines gate now
                (codes "recommendation_sweep_error")
                (j.insert (codes "error") (j.string (engines.store_message e)) j.empty) swept.0.1,
            swept.1,
          )
        ])
        (sweep_once store world)
