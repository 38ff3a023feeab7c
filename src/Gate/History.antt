-- ===== src/Gate/History.antt =====
-- Consent over time: a gate after any grants and revocations, against the record of them.
use hidden_steps.Prelude.{
  Bool, List, Text, [], arith, false, if◌then◌else◌, keep, not, refl, text_eq, text_eq_iff, true,
  ◌&&◌, ◌∙◌, ◌∷◌, ◌≡◌,
}
use hidden_steps.Domain.Privacy.{PrivacyLevel, level_eq, maximum_assistance}
use hidden_steps.Gate.{
  DispatchDecision, DispatchGate, allow, ask_consent, blocked, contains, evaluate,
  grant_class_consent, grant_general_cloud_consent, new_gate, revoke_class_consent,
  revoke_general_cloud_consent,
}

-- The calls of the methods that change a gate.
pub data Change : Type 0 where
  grant_general revoke_general : Change
  grant_class revoke_class : Text → Change

unfoldable pub change : DispatchGate → Change → DispatchGate
unfolding grant_general_cloud_consent revoke_general_cloud_consent grant_class_consent
    revoke_class_consent
change gate grant_general = grant_general_cloud_consent gate
change gate revoke_general = revoke_general_cloud_consent gate
change gate (grant_class c) = grant_class_consent c gate
change gate (revoke_class c) = revoke_class_consent c gate

unfoldable pub changes : DispatchGate → List Change → DispatchGate
changes gate [] = gate
changes gate (op ∷ ops) = changes (change gate op) ops

-- The last word on general consent, and on the consent of one class.
general_step : Bool → Change → Bool
general_step now grant_general = true
general_step now revoke_general = false
general_step now (grant_class d) = now
general_step now (revoke_class d) = now

pub general_after : Bool → List Change → Bool
general_after now [] = now
general_after now (op ∷ ops) = general_after (general_step now op) ops

class_step : Text → Bool → Change → Bool
class_step c now (grant_class d) = if text_eq d c then true else now
class_step c now (revoke_class d) = if text_eq d c then false else now
class_step c now grant_general = now
class_step c now revoke_general = now

pub class_after : Text → Bool → List Change → Bool
class_after c now [] = now
class_after c now (op ∷ ops) = class_after c (class_step c now op) ops

contains-remove :
    (l : List Text) (d c : Text)
    → contains (keep (λ x. not (text_eq x d)) l) c ≡ (if text_eq d c then false else contains l c)
unfolding contains
contains-remove [] d c = ground arith
contains-remove (x ∷ l) d c =
    ground (arith, contains-remove l d c, text_eq_iff x d, text_eq_iff x c, text_eq_iff d c)

contains-change :
    (gate : DispatchGate) (op : Change) (c : Text)
    → contains (change gate op).per_class_consent c
      ≡ class_step c (contains gate.per_class_consent c) op
unfolding change class_step
contains-change gate grant_general c = refl
contains-change gate revoke_general c = refl
contains-change gate (grant_class d) c = unfold contains in ground (arith, text_eq_iff d c)
contains-change gate (revoke_class d) c = contains-remove gate.per_class_consent d c

general-change :
    (gate : DispatchGate) (op : Change)
    → (change gate op).general_cloud_consent ≡ general_step gate.general_cloud_consent op
unfolding change general_step
general-change gate grant_general = refl
general-change gate revoke_general = refl
general-change gate (grant_class d) = ground arith
general-change gate (revoke_class d) = refl

general-changes :
    (ops : List Change) (gate : DispatchGate)
    → (changes gate ops).general_cloud_consent ≡ general_after gate.general_cloud_consent ops
unfolding changes general_after
general-changes [] gate = refl
general-changes (op ∷ ops) gate =
    rw (← general-change gate op) (general-changes ops (change gate op))

class-changes :
    (ops : List Change) (gate : DispatchGate) (c : Text)
    → contains (changes gate ops).per_class_consent c
      ≡ class_after c (contains gate.per_class_consent c) ops
unfolding changes class_after
class-changes [] gate c = refl
class-changes (op ∷ ops) gate c =
    rw (← contains-change gate op c) (class-changes ops (change gate op) c)

-- What the gate decides about a cloud provider, from the record of grants and revocations alone.
pub decision_after : List Change → PrivacyLevel → Text → Bool → DispatchDecision
decision_after ops level c verbatim =
    if not (general_after false ops)
    then blocked
    else if level_eq level maximum_assistance
    then blocked
    else if verbatim && not (class_after c false ops)
    then ask_consent c
    else allow

-- After any sequence of grants and revocations from a new gate, the decision about a cloud provider
-- depends only on the last word about general consent and the last word about the content's own
-- class: a revocation takes effect at once, and no order of grants opens Level 4.
pub evaluate-changes :
    (ops : List Change) (level : PrivacyLevel) (c : Text) (verbatim : Bool)
    → evaluate (changes new_gate ops) false level c verbatim ≡ decision_after ops level c verbatim
unfolding evaluate decision_after
evaluate-changes ops level c verbatim = ground (arith, general-changes ops new_gate, classes)
  where
    classes : contains (changes new_gate ops).per_class_consent c ≡ class_after c false ops
    classes = unfold contains in class-changes ops new_gate c

pub blocked_after :
    (ops : List Change) (c : Text) (verbatim : Bool)
    → evaluate (changes new_gate ops) false maximum_assistance c verbatim ≡ blocked
unfolding decision_after level_eq
blocked_after ops c verbatim = evaluate-changes ops maximum_assistance c verbatim ∙ ground arith
