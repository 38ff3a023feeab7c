-- ===== src/Gate/Tests.antt =====
-- The gate and the wrapper on concrete consents.
use hidden_steps.Prelude.{List, Text, [], codes, err, false, none, refl, true, ◌↔◌, ◌∷◌, ◌≡◌, ◌⊎◌}
use hidden_steps.Samples.{counting}
use hidden_steps.Domain.Privacy.{context_aware, maximum_assistance, workflow_metadata}
use hidden_steps.Provider.{CompletionRequest}
use hidden_steps.Gate.{DispatchGate, allow, evaluate, new_gate}
use hidden_steps.Gate.Laws.{MaySend, evaluate-allow_iff}
use hidden_steps.Gate.History.{
  Change, changes, decision_after, evaluate-changes, grant_class, grant_general, revoke_class,
}
use hidden_steps.Gate.Provider.{
  GateError, WasGated, complete_if_allowed, deep_mode_stays_on_device, embed_if_allowed,
  gate_blocked, gated-WasGated,
}

abbrev browser : Text
browser = codes "browser"

abbrev query : CompletionRequest
query = record { system = none; prompt = codes "hi"; max_tokens = none; think = none }

abbrev granted_then_revoked : List Change
granted_then_revoked = grant_general ∷ grant_class browser ∷ revoke_class browser ∷ []

abbrev general_only : DispatchGate
general_only = record { general_cloud_consent = true; per_class_consent = [] }

deep_mode_stays_on_device_example :
    (complete_if_allowed
        (record { inner = counting false; gate = changes new_gate granted_then_revoked })
        query
        maximum_assistance
        browser
        true
        0
      ≡ (err gate_blocked, 0))
    × (embed_if_allowed
          (record { inner = counting false; gate = changes new_gate granted_then_revoked })
          (codes "hi")
          maximum_assistance
          browser
          true
          0
        ≡ (err gate_blocked, 0))
deep_mode_stays_on_device_example =
    deep_mode_stays_on_device (counting false) granted_then_revoked browser true query (codes "hi")
      0 refl

gated-WasGated_example :
    WasGated (record { inner = counting false; gate = general_only }) context_aware browser true
    ⊎ (((e : GateError) × (complete_if_allowed
              (record { inner = counting false; gate = general_only })
              query
              context_aware
              browser
              true
              0
            ≡ (err e, 0)))
        × ((e : GateError) × (embed_if_allowed
                (record { inner = counting false; gate = general_only })
                (codes "hi")
                context_aware
                browser
                true
                0
              ≡ (err e, 0))))
gated-WasGated_example =
    gated-WasGated (record { inner = counting false; gate = general_only }) context_aware browser
      true query (codes "hi") 0

evaluate-changes_example :
    evaluate (changes new_gate granted_then_revoked) false context_aware browser true
    ≡ decision_after granted_then_revoked context_aware browser true
evaluate-changes_example = evaluate-changes granted_then_revoked context_aware browser true

evaluate-allow_iff_example :
    (evaluate general_only false workflow_metadata browser false ≡ allow)
    ↔ ((false ≡ true) ⊎ ((false ≡ false) × MaySend general_only workflow_metadata browser false))
evaluate-allow_iff_example = evaluate-allow_iff general_only false workflow_metadata browser false
