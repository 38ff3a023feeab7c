-- ===== src/App/Sweep/Gated.antt =====
-- apps/desktop/src-tauri/src/recommendation_loop.rs: a sweep calls providers through the gate only.
mod Steps
use mathlib.Core.List.{reverse}
use hidden_steps.Prelude.{
  List, Option-cases, Result, Result-cases, [], ap, inl, inr, ok, refl, some, some_inj, subst, sym,
  ℕ, ◌∷◌, ◌≡◌, ◌⊎◌,
}
use hidden_steps.Domain.Privacy.{PrivacyState}
use hidden_steps.Domain.Signal.{EventSummary}
use hidden_steps.Float.{Float}
use hidden_steps.Gate.{DispatchGate}
use hidden_steps.Json.{Json}
use hidden_steps.Patterns.Detector.{DetectedPattern, default_detector, detect}
use hidden_steps.Store.{Engine, EventStore, EventStoreError}
use hidden_steps.Store.Events.{delete_expired_events, list_recent_events}
use hidden_steps.Store.State.{get_privacy_state}
use hidden_steps.App.Providers.{Vault}
use hidden_steps.App.Sweep.{Clients, Engines}
use hidden_steps.App.Sweep.Once.{
  event_history_limit, log_expiry, sweep_once, with_events, with_recent, with_state,
}
use hidden_steps.Store.State.Laws.{found}
use hidden_steps.App.Sweep.Gated.Steps.{Sent, none_sent, with_detected-Sent}

module _ (j : Json) (db : Engine j.Value) (float : Float) {World : Type 0}
    (clients : Clients World float.F) (vault : Vault World) (engines : Engines j float World)
    (gate : DispatchGate) (now : ℕ) where
  -- What a sweep may do in the world after the expiry: it leaves it as it is; or a state, events and
  -- patterns are found, and the world is reached by gated calls about these patterns.
  abbrev pub SweptFrom : EventStore float.F → World → World → Type 0
  SweptFrom store world after =
      (after ≡ world)
      ⊎ ((state : PrivacyState) × (events : List (EventSummary j.Value)) × (patterns : List
            (DetectedPattern float.F))
          × (get_privacy_state db store ≡ ok state)
          × (list_recent_events db (some event_history_limit) store ≡ ok events)
          × (detect float j engines.extension engines.seconds_between engines.hash default_detector
                (reverse events)
              ≡ some patterns)
          × Sent clients vault gate store state.current_level patterns world after)

  with_events-Sent :
      (store : EventStore float.F) (state : PrivacyState) (events : List (EventSummary j.Value))
      (world : World) (result : (Result (Unit {0}) EventStoreError × EventStore float.F) × World)
      → get_privacy_state db store ≡ ok state
      → list_recent_events db (some event_history_limit) store ≡ ok events
      → with_events j db float clients vault engines gate now state.current_level store world events
        ≡ some result
      → SweptFrom store world result.1
  unfolding with_events
  with_events-Sent store state [] world result read listed h =
      inl (ap (λ r. r.1) (sym (some_inj h)))
  with_events-Sent store state (e ∷ es) world result read listed h =
      elim (Option-cases (
        detect float j engines.extension engines.seconds_between engines.hash default_detector
          (reverse (e ∷ es)))) [
            | inl panicked ↦ absurd (cc (rw panicked at h))
            | inr (patterns, found) ↦ inr (
              state,
              e ∷ es,
              patterns,
              read,
              listed,
              found,
              subst (λ r. Sent clients vault gate store state.current_level patterns world r.1)
                  (some_inj (rw found at h))
                  (with_detected-Sent j db float clients vault engines gate now store
                    state.current_level patterns world store world (refl, none_sent)),
            )
          ]

  with_state-Sent :
      (store : EventStore float.F) (world : World)
      (result : (Result (Unit {0}) EventStoreError × EventStore float.F) × World)
      → with_state j db float clients vault engines gate now store world
          (get_privacy_state db store)
        ≡ some result
      → SweptFrom store world result.1
  unfolding with_state with_recent
  with_state-Sent store world result h = elim (Result-cases (get_privacy_state db store)) [
    | inr (e, failed) ↦ inl (ap (λ r. r.1) (sym (some_inj (rw failed at h))))
    | inl (state, read) ↦
        elim (Result-cases (list_recent_events db (some event_history_limit) store)) [
          | inr (e, failed) ↦ inl (ap (λ r. r.1) (sym (some_inj (rw failed at (rw read at h)))))
          | inl (events, listed) ↦
              with_events-Sent store state events world result read listed
                (rw listed at (rw read at h))
        ]
  ]

  -- A sweep that returns leaves the world outside the program as it was; or else, behind the expiry,
  -- the store has a privacy state and its newest events have patterns. Then the world after it is
  -- reached by calls of the active provider only, and for each of these calls that provider is on the
  -- device, or the consents given allow it the summary of one of these patterns at the stored level.
  pub sweep_once-Sent :
      (store : EventStore float.F) (world : World)
      (result : (Result (Unit {0}) EventStoreError × EventStore float.F) × World)
      → sweep_once j db float clients vault engines gate now store world ≡ some result
      → SweptFrom
          (log_expiry j db float clients vault engines gate now
            (delete_expired_events db now store))
          world
          result.1
  unfolding sweep_once
  sweep_once-Sent store world result h =
      with_state-Sent
        (log_expiry j db float clients vault engines gate now (delete_expired_events db now store))
        world result h
