-- ===== src/App/Observation/Guarded.antt =====
-- apps/desktop/src-tauri/src/observation_loop.rs: what a turn of the loop may store.
use mathlib.Core.Option
use mathlib.Core.List.{append_assoc, append-nil}
use hidden_steps.Prelude.{
  All, All-append, Bool-cases, List, Option, Option-cases, Result, Text, [], and_then-eq-some, ap,
  arith, err, false, inl, inr, length, length-append, ok, refl, some, some_inj, subst, sym, true, ℕ,
  ◌++◌, ◌+◌, ◌∙◌, ◌∷◌, ◌≡◌, ◌⊎◌,
}
use hidden_steps.Domain.Privacy.{PrivacyLevel, PrivacyState, level_gt}
use hidden_steps.Domain.Signal.{CapturedSignal, EventSummary}
use hidden_steps.Json.{Json}
use hidden_steps.Pipeline.Classify.{minimum_level_for}
use hidden_steps.Pipeline.Process.{EventPipeline, PipelineOutcome, drop_event, process, summarized}
use hidden_steps.Store.{Engine, EventStore, EventStoreError}
use hidden_steps.Store.Events.Refines.{
  EventLog, Represents, inserted_id, insertion-Represents, log_inserted, store_change,
}
use hidden_steps.App.Observation.{
  Progress, Turn, goes_on, keep_outcome, observes, poll_sources, process_signals, store_event, turn,
  turn_with,
}
use hidden_steps.Store.Events.{insert_event_summary}
use hidden_steps.Pipeline.Process.Gate.{process-IsFaithful}
use hidden_steps.Store.State.{get_privacy_state}

-- An event that was captured at the level, of a type that the level allows.
abbrev pub CapturedAt : {Value : Type 0} → PrivacyLevel → EventSummary Value → Type 0
CapturedAt level e =
    (e.privacy_level_at_capture ≡ level)
    × (level_gt (minimum_level_for e.signal_type) level ≡ false)

-- A log with more events, each under the id that came next.
unfoldable pub grown :
    {Value : Type 0} → EventLog Value → List (EventSummary Value) → EventLog Value
grown log events = record { next = log.next + length events; events = log.events ++ events }

grown-append :
    {Value : Type 0} (log : EventLog Value) (emitted : List (EventSummary Value))
    (e : EventSummary Value)
    → ◌≡◌ {A = EventLog Value}
        (record {
          next = log.next + length emitted + 1;
          events = (log.events ++ emitted) ++ e ∷ [];
        })
        (grown log (emitted ++ e ∷ []))
unfolding grown
grown-append log emitted e =
    let size : log.next + length emitted + 1 ≡ log.next + length (emitted ++ e ∷ []) =
      omega (arith, length-append emitted (e ∷ [])) in
    rw size (rw (append_assoc log.events emitted (e ∷ [])) refl)

grown-nil : {Value : Type 0} (log : EventLog Value) → log ≡ grown log []
unfolding grown
grown-nil log =
    let size : log.next + 0 ≡ log.next = omega arith in rw size (rw (append-nil log.events) refl)

module _ (j : Json) (db : Engine j.Value) {F : Type 0} (level : PrivacyLevel)
    (log : EventLog j.Value) where
  -- The store holds what it did and the emitted events.
  Kept : Progress j.Value F → Type 0
  Kept progress =
      Represents db progress.0 (grown log progress.1) × All (CapturedAt level) progress.1

  keep-Kept :
      (event : EventSummary j.Value) (store : EventStore F) (emitted : List (EventSummary j.Value))
      (text : Result Text Text)
      → db.value_json.to_string event.summary ≡ text
      → CapturedAt level event
      → Kept (store, emitted)
      → Kept (keep_outcome j db (summarized event) (store, emitted))
  unfolding Kept keep_outcome store_event store_change log_inserted Represents grown
  keep-Kept event store emitted (err t) e captured (h, captures) =
      rw (inserted_id db event store (err t) e)
        (insertion-Represents db event store (grown log emitted) (err t) e h, captures)
  keep-Kept event store emitted (ok t) e captured (h, captures) =
      let stored = record event { id = some store.event_summaries.next_id } in
      let after = (insert_event_summary db event store).1 in
      let represented = insertion-Represents db event store (grown log emitted) (ok t) e h in
      rw (inserted_id db event store (ok t) e) (
        subst (Represents db after) (grown-append log emitted stored) (
            subst
              (λ n. Represents db after (record {
                next = log.next + length emitted + 1;
                events = (log.events ++ emitted) ++ record event { id = some n } ∷ [];
              }))
              (sym h.0) represented),
        All-append _ emitted (stored ∷ []) captures (captured, tt),
      )

  outcome-Kept :
      (outcome : PipelineOutcome j.Value) (progress : Progress j.Value F)
      → ((e : EventSummary j.Value) → outcome ≡ summarized e → CapturedAt level e)
      → Kept progress
      → Kept (keep_outcome j db outcome progress)
  unfolding keep_outcome
  outcome-Kept (summarized event) (store, emitted) captured h =
      keep-Kept event store emitted (db.value_json.to_string event.summary) refl
        (captured event refl) h
  outcome-Kept (drop_event r) progress captured h = h

  module _ (pipeline : EventPipeline) where
    signals-Kept :
        (signals : List (CapturedSignal × ℕ)) (progress after : Progress j.Value F)
        → process_signals j db pipeline level signals progress ≡ some after
        → Kept progress
        → Kept after
    unfolding process_signals
    signals-Kept [] progress after e h = subst Kept (some_inj e) h
    signals-Kept ((signal, now) ∷ signals) progress after e h =
        let (outcome, processed, rest) =
          and_then-eq-some (process j pipeline signal level now)
            (λ o. process_signals j db pipeline level signals (keep_outcome j db o progress)) e in
        signals-Kept signals (keep_outcome j db outcome progress) after rest (
          outcome-Kept outcome progress
            (λ s is_s.
              let faithful =
                process-IsFaithful j pipeline signal level now s (processed ∙ ap some is_s) in
              (faithful.level_kept, faithful.allowed))
            h)

    polls-Kept :
        (polls : List (Result (List (CapturedSignal × ℕ)) Text))
        (progress after : Progress j.Value F)
        → poll_sources j db pipeline level polls progress ≡ some after
        → Kept progress
        → Kept after
    unfolding poll_sources
    polls-Kept [] progress after e h = subst Kept (some_inj e) h
    polls-Kept (err _ ∷ polls) progress after e h = polls-Kept polls progress after e h
    polls-Kept (ok signals ∷ polls) progress after e h =
        let (middle, processed, rest) =
          and_then-eq-some (process_signals j db pipeline level signals progress)
            (poll_sources j db pipeline level polls) e in
        polls-Kept polls middle after rest (signals-Kept signals progress middle processed h)

goes_on_inj :
    {Value F : Type 0} {after store : EventStore F} {emitted events : List (EventSummary Value)}
    → ◌≡◌ {A = Option (Turn Value F)} (some (goes_on store events)) (some (goes_on after emitted))
    → (store ≡ after) × (events ≡ emitted)
goes_on_inj e = (cc, cc)

module _ (j : Json) (db : Engine j.Value) (pipeline : EventPipeline) {F : Type 0}
    (polls : List (Result (List (CapturedSignal × ℕ)) Text)) (store after : EventStore F)
    (log : EventLog j.Value) (emitted : List (EventSummary j.Value)) where
  -- How a turn may end that does not leave the loop.
  abbrev pub Guarded : Type 0
  Guarded =
      ((after ≡ store) × (emitted ≡ []))
      ⊎ ((state : PrivacyState) × (get_privacy_state db store ≡ ok state)
          × (observes state ≡ true)
          × Represents db after (grown log emitted)
          × All (CapturedAt state.current_level) emitted)

  polled :
      (level : PrivacyLevel)
      → Represents db store log
      → Option.map
          (λ progress. goes_on progress.0 progress.1)
          (poll_sources j db pipeline level polls (store, []))
        ≡ some (goes_on after emitted)
      → Represents db after (grown log emitted) × All (CapturedAt level) emitted
  unfolding Kept
  polled level h e = elim (Option-cases (poll_sources j db pipeline level polls (store, []))) [
    | inl panicked ↦ absurd (cc (rw panicked at e))
    | inr (progress, done) ↦
        let (stores, events) = goes_on_inj (rw done at e) in
        let (represented, captured) =
          polls-Kept j db level log pipeline polls (store, []) progress done
            (subst (Represents db store) (grown-nil log) h, tt) in
        (
          subst (λ s. Represents db s (grown log emitted)) stores
              (subst (λ es. Represents db progress.0 (grown log es)) events represented),
          subst (All (CapturedAt level)) events captured,
        )
  ]

  turned :
      (read : Result PrivacyState EventStoreError)
      → get_privacy_state db store ≡ read
      → Represents db store log
      → turn_with j db pipeline polls store read ≡ some (goes_on after emitted)
      → Guarded
  unfolding turn_with
  turned (err f) known h e = absurd (cc e)
  turned (ok state) known h e = elim (Bool-cases (observes state)) [
    | inr waits ↦ let (stores, events) = goes_on_inj (rw waits at e) in inl (sym stores, sym events)
    | inl may ↦
        let (represented, captured) = polled state.current_level h (rw may at e) in
        inr (state, known, may, represented, captured)
  ]

  -- A turn of the loop, from a store that represents a log of events, either leaves the store as it
  -- is and emits nothing; or the stored privacy state lets the loop observe, that is, observation is
  -- active, the level is not Manual and the current manifest was consented to. Then the store
  -- represents the log with exactly the emitted events added, and each of them was captured at the
  -- stored level and is of a type that this level allows.
  pub turn-Guarded :
      Represents db store log
      → turn j db pipeline polls store ≡ some (goes_on after emitted)
      → Guarded
  unfolding turn
  turn-Guarded h e = turned (get_privacy_state db store) refl h e
