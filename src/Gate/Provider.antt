-- ===== src/Gate/Provider.antt =====
-- crates/privacy-engine/src/gated_provider.rs: the wrapper that asks the gate before each call.
use hidden_steps.Prelude.{Bool, List, Result, Text, err, false, inl, inr, ok, refl, true, ◌≡◌, ◌⊎◌}
use hidden_steps.Domain.Privacy.{PrivacyLevel, maximum_assistance}
use hidden_steps.Provider.{CompletionRequest, CompletionResponse, LlmProvider, ProviderError}
use hidden_steps.Gate.{
  DispatchDecision, DispatchGate, allow, ask_consent, blocked, evaluate, new_gate,
}
use hidden_steps.Gate.Laws.{MaySend, evaluate-allow_iff}
use hidden_steps.Gate.History.{Change, blocked_after, changes}

pub data GateError : Type 0 where
  gate_blocked : GateError
  gate_requires_consent : Text → GateError
  gate_provider : ProviderError → GateError

pub record PrivacyGatedProvider (World F : Type 0) : Type 0 where
  pub inner : LlmProvider World F
  pub gate : DispatchGate

-- `Ok(call.await?)`: the call's outcome, its error wrapped.
lift_call : {A World : Type 0} → Result A ProviderError × World → Result A GateError × World
lift_call (ok a, world) = (ok a, world)
lift_call (err e, world) = (err (gate_provider e), world)

dispatch :
    {A World : Type 0}
    → DispatchDecision
    → (World → Result A ProviderError × World)
    → World
    → Result A GateError × World
unfolding lift_call
dispatch allow call world = lift_call (call world)
dispatch (ask_consent class) call world = (err (gate_requires_consent class), world)
dispatch blocked call world = (err gate_blocked, world)

module _ {World F : Type 0} (p : PrivacyGatedProvider World F) where
  unfoldable pub complete_if_allowed :
      CompletionRequest
      → PrivacyLevel
      → Text
      → Bool
      → World
      → Result CompletionResponse GateError × World
  unfolding dispatch
  complete_if_allowed query privacy_level content_class contains_verbatim_strings =
      dispatch
        (evaluate p.gate p.inner.is_local privacy_level content_class contains_verbatim_strings)
        (p.inner.complete query)

  unfoldable pub embed_if_allowed :
      Text → PrivacyLevel → Text → Bool → World → Result (List F) GateError × World
  unfolding dispatch
  embed_if_allowed text privacy_level content_class contains_verbatim_strings =
      dispatch
        (evaluate p.gate p.inner.is_local privacy_level content_class contains_verbatim_strings)
        (p.inner.embed text)

-- What a call must satisfy that changed the world, or that did not end in an error of the gate.
pub data WasGated {World F : Type 0} (p : PrivacyGatedProvider World F) (level : PrivacyLevel)
    (c : Text) (verbatim : Bool) : Type 0 where
  on_device : p.inner.is_local ≡ true → WasGated p level c verbatim
  consented : MaySend p.gate level c verbatim → WasGated p level c verbatim

module _ {World F : Type 0} (p : PrivacyGatedProvider World F) (level : PrivacyLevel) (c : Text)
    (verbatim : Bool) where
  allow-WasGated :
      evaluate p.gate p.inner.is_local level c verbatim ≡ allow → WasGated p level c verbatim
  allow-WasGated h = elim ((evaluate-allow_iff p.gate p.inner.is_local level c verbatim).0 h) [
    | inl local ↦ on_device local
    | inr (_, may) ↦ consented may
  ]

module _ {A World : Type 0} (call : World → Result A ProviderError × World) (world : World) where
  dispatch_cases :
      (d : DispatchDecision)
      → (d ≡ allow) ⊎ (((e : GateError) × (dispatch d call world ≡ (err e, world))))
  unfolding dispatch
  dispatch_cases allow = inl refl
  dispatch_cases (ask_consent class) = inr (gate_requires_consent class, refl)
  dispatch_cases blocked = inr (gate_blocked, refl)

-- Neither `complete` nor `embed` reaches the wrapped provider unless that provider is local or the
-- consents given allow this content: otherwise the result is an error and the outside world is
-- exactly as it was.
pub gated-WasGated :
    {World F : Type 0} (p : PrivacyGatedProvider World F) (level : PrivacyLevel) (c : Text)
    (verbatim : Bool) (query : CompletionRequest) (text : Text) (world : World)
    → WasGated p level c verbatim
      ⊎ (((e : GateError) × (complete_if_allowed p query level c verbatim world ≡ (err e, world)))
          × ((e : GateError) × (embed_if_allowed p text level c verbatim world ≡ (err e, world))))
unfolding complete_if_allowed embed_if_allowed
gated-WasGated p level c verbatim query text world =
    let d = evaluate p.gate p.inner.is_local level c verbatim in
    elim (dispatch_cases (p.inner.complete query) world d) [
      | inl yes_allow ↦ inl (allow-WasGated p level c verbatim yes_allow)
      | inr first ↦ elim (dispatch_cases (p.inner.embed text) world d) [
        | inl yes_allow ↦ inl (allow-WasGated p level c verbatim yes_allow)
        | inr second ↦ inr (first, second)
      ]
    ]

lift_call-world :
    {A World : Type 0} (answer : Result A ProviderError × World) → (lift_call answer).1 ≡ answer.1
unfolding lift_call
lift_call-world (ok a, world) = refl
lift_call-world (err e, world) = refl

-- The world after `complete` is that after the gated call of the wrapped provider, or as before.
pub complete_if_allowed-world :
    {World F : Type 0} (p : PrivacyGatedProvider World F) (level : PrivacyLevel) (c : Text)
    (verbatim : Bool) (query : CompletionRequest) (world : World)
    → (WasGated p level c verbatim
        × ((complete_if_allowed p query level c verbatim world).1
            ≡ (p.inner.complete query world).1))
      ⊎ ((complete_if_allowed p query level c verbatim world).1 ≡ world)
unfolding complete_if_allowed dispatch
complete_if_allowed-world p level c verbatim query world =
    elim (dispatch_cases (p.inner.complete query) world
      (evaluate p.gate p.inner.is_local level c verbatim)) [
        | inl yes_allow ↦ inl (
          allow-WasGated p level c verbatim yes_allow,
          rw yes_allow (lift_call-world (p.inner.complete query world)),
        )
        | inr (e, refused) ↦ inr (rw refused refl)
      ]

-- Content of Level 4 never reaches a cloud provider: whatever was granted or revoked before, and in
-- whatever order, both calls are refused as blocked and the outside world is as it was.
pub deep_mode_stays_on_device :
    {World F : Type 0} (inner : LlmProvider World F) (ops : List Change) (c : Text)
    (verbatim : Bool) (query : CompletionRequest) (text : Text) (world : World)
    → inner.is_local ≡ false
    → (complete_if_allowed
          (record { inner = inner; gate = changes new_gate ops })
          query
          maximum_assistance
          c
          verbatim
          world
        ≡ (err gate_blocked, world))
      × (embed_if_allowed
            (record { inner = inner; gate = changes new_gate ops })
            text
            maximum_assistance
            c
            verbatim
            world
          ≡ (err gate_blocked, world))
unfolding complete_if_allowed embed_if_allowed
deep_mode_stays_on_device inner ops c verbatim query text world cloud =
    rw cloud (rw (blocked_after ops c verbatim) (refl, refl))
