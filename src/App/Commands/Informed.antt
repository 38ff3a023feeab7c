-- ===== src/App/Commands/Informed.antt =====
-- apps/desktop/src-tauri/src/commands.rs and observation_loop.rs: which commands it takes until the
-- loop observes.
use hidden_steps.Prelude.{
  Bool, Bool-cases, List, Option, Result, Text, [], any, arith, false, inl, inr, not, ok, refl,
  true, ℕ, ◌||◌, ◌∷◌, ◌≡◌,
}
use hidden_steps.Domain.Privacy.{PrivacyState, initial, level_eq, manual}
use hidden_steps.Gate.Consent.{current_manifest_version, requires_reconsent}
use hidden_steps.App.Commands.{
  Command, Outside, level_requested, manifest_acknowledged, observation_resumed,
  onboarding_completed, run_command, run_commands,
}
use hidden_steps.App.Commands.Moves.{
  Brought, Effect, acknowledges, levels, meets, meets-Moves, met, pauses, resumes,
  run_command-Moves, starts,
}
use hidden_steps.Float.{Float}
use hidden_steps.Json.{Json}
use hidden_steps.Store.{Engine, EventStore}
use hidden_steps.App.{AppState}
use hidden_steps.Policy.{EnterprisePolicy}
use hidden_steps.Store.State.{get_privacy_state}
use hidden_steps.App.Launch.{launch}
use hidden_steps.App.Launch.Laws.{launch-initial}
use hidden_steps.App.Observation.{observes}

abbrev pub starts_observation : {Value : Type 0} → Command Value → Bool
starts_observation onboarding_completed = true
starts_observation observation_resumed = true
starts_observation _ = false

abbrev pub requests_level : {Value : Type 0} → Command Value → Bool
requests_level (level_requested _ _) = true
requests_level _ = false

abbrev pub acknowledges_manifest : {Value : Type 0} → Command Value → Bool
acknowledges_manifest manifest_acknowledged = true
acknowledges_manifest _ = false

is_active : PrivacyState → Bool
is_active p = p.observation_active

is_raised : PrivacyState → Bool
is_raised p = not (level_eq p.current_level manual)

is_informed : PrivacyState → Bool
is_informed p = not (requires_reconsent p.consented_manifest_version current_manifest_version)

or_left : (a b : Bool) → a ≡ true → (a || b) ≡ true
or_left a b h = rw h refl

module _ {Value : Type 0} where
  active-Brought : Brought {Value = Value} is_active starts_observation
  unfolding is_active initial
  active-Brought = record { brought = step; not_initial = λ t. refl }
    where
      step :
          {c : Command Value} {p q : PrivacyState}
          → Effect c p q
          → is_active q ≡ true
          → (is_active p || starts_observation c) ≡ true
      step (levels {p = p} l t) h = or_left p.observation_active false h
      step (starts {p = p} t) h = ground arith
      step (resumes {p = p} t) h = ground arith
      step (pauses t) h = cc
      step (acknowledges {p = p} t) h = or_left p.observation_active false h

  raised-Brought : Brought {Value = Value} is_raised requests_level
  unfolding is_raised initial level_eq
  raised-Brought = record { brought = step; not_initial = λ t. refl }
    where
      step :
          {c : Command Value} {p q : PrivacyState}
          → Effect c p q
          → is_raised q ≡ true
          → (is_raised p || requests_level c) ≡ true
      step (levels {p = p} l t) h = ground arith
      step (starts {p = p} t) h = or_left (is_raised p) false h
      step (resumes {p = p} t) h = or_left (is_raised p) false h
      step (pauses {p = p} t) h = or_left (is_raised p) false h
      step (acknowledges {p = p} t) h = or_left (is_raised p) false h

  informed-Brought : Brought {Value = Value} is_informed acknowledges_manifest
  unfolding is_informed initial requires_reconsent
  informed-Brought = record { brought = step; not_initial = λ t. refl }
    where
      step :
          {c : Command Value} {p q : PrivacyState}
          → Effect c p q
          → is_informed q ≡ true
          → (is_informed p || acknowledges_manifest c) ≡ true
      step (levels {p = p} l t) h = or_left (is_informed p) false h
      step (starts {p = p} t) h = or_left (is_informed p) false h
      step (resumes {p = p} t) h = or_left (is_informed p) false h
      step (pauses {p = p} t) h = or_left (is_informed p) false h
      step (acknowledges {p = p} t) h = ground arith

all_of :
    (active is_manual outdated : Bool)
    → not (not active || (is_manual || outdated)) ≡ true
    → (active ≡ true) × (not is_manual ≡ true) × (not outdated ≡ true)
all_of active is_manual outdated h = ground arith

or_step : (a b c d : Bool) → (a || b) ≡ true → (a ≡ true → (c || d) ≡ true) → (c || (d || b)) ≡ true
or_step a b c d h k = elim (Bool-cases a) [ inl e ↦ ground (arith, k e) | inr e ↦ ground arith ]

module _ (j : Json) (db : Engine j.Value) (float : Float) {World : Type 0}
    (outside : Outside World) where
  commands-meet :
      (condition : PrivacyState → Bool) {by : Command j.Value → Bool} (law : Brought condition by)
      (commands : List (ℕ × Command j.Value)) (state : AppState float.F) (world : World)
      → meets db condition (run_commands j db float outside commands state world).0.store ≡ true
      → (meets db condition state.store || any (λ c. by c.1) commands) ≡ true
  unfolding run_commands
  commands-meet condition law [] state world h = or_left _ false h
  commands-meet condition {by} law ((now, c) ∷ commands) state world h =
      let (after, outer) = run_command j db float outside now c state world in
      or_step (meets db condition after.store) (any (λ c. by c.1) commands)
        (meets db condition state.store) (by c) (commands-meet condition law commands after outer h)
        (meets-Moves db condition law (run_command-Moves j db float now outside c state world))

  module _ {E : Type 0} (from_str : Text → Result EnterprisePolicy E) where
    Brought-since_launch :
        (condition : PrivacyState → Bool) {by : Command j.Value → Bool} (law : Brought condition by)
        (policy_file : Option Text) (now : ℕ) (opened : EventStore float.F)
        (commands : List (ℕ × Command j.Value)) (world : World) (p : PrivacyState)
        → opened.schema_version ≡ []
        → get_privacy_state db
            (run_commands j db float outside commands
              (launch j db from_str now policy_file opened)
              world).0.store
          ≡ ok p
        → condition p ≡ true
        → any (λ c. by c.1) commands ≡ true
    unfolding meets met
    Brought-since_launch condition law policy_file now opened commands world p fresh read holds =
        let launched = launch j db from_str now policy_file opened in
        let before : meets db condition launched.store ≡ false =
          rw (launch-initial j db from_str now policy_file opened fresh) (law.not_initial now) in
        rw before at (commands-meet condition law commands launched world (rw read holds))

    -- Nothing is observed without consent. From the first launch with an empty store, whatever
    -- commands were sent and whatever policy file was found: when the privacy state that is then
    -- stored lets the loop observe, then among the commands were one that starts or resumes
    -- observation, one that requests a privacy level, and one that acknowledges the manifest.
    pub observes-any :
        (policy_file : Option Text) (now : ℕ) (opened : EventStore float.F)
        (commands : List (ℕ × Command j.Value)) (world : World) (p : PrivacyState)
        → opened.schema_version ≡ []
        → get_privacy_state db
            (run_commands j db float outside commands
              (launch j db from_str now policy_file opened)
              world).0.store
          ≡ ok p
        → observes p ≡ true
        → (any (λ c. starts_observation c.1) commands ≡ true)
          × (any (λ c. requests_level c.1) commands ≡ true)
          × (any (λ c. acknowledges_manifest c.1) commands ≡ true)
    unfolding observes is_active is_raised is_informed
    observes-any policy_file now opened commands world p fresh read may =
        let (active, raised, informed) =
          all_of p.observation_active (level_eq p.current_level manual)
            (requires_reconsent p.consented_manifest_version current_manifest_version) may in
        (
          Brought-since_launch is_active active-Brought policy_file now opened commands world p
              fresh read active,
          Brought-since_launch is_raised raised-Brought policy_file now opened commands world p
              fresh read raised,
          Brought-since_launch is_informed informed-Brought policy_file now opened commands world p
              fresh read informed,
        )
