-- ===== src/Gate.antt =====
-- crates/privacy-engine/src/gate.rs: which content may go to which provider.
pub mod Laws
pub mod History
pub mod Consent
pub mod Provider
mod Tests
use hidden_steps.Prelude.{
  Bool, List, Text, [], any, false, if◌then◌else◌, keep, not, text_eq, true, ◌∷◌,
}
use hidden_steps.Domain.Privacy.{PrivacyLevel, level_eq, maximum_assistance}

pub data CloudEligibility : Type 0 where
  always_eligible requires_consent never_eligible : CloudEligibility

unfoldable pub cloud_eligibility : PrivacyLevel → Bool → CloudEligibility
unfolding level_eq
cloud_eligibility privacy_level contains_verbatim_strings =
    if level_eq privacy_level maximum_assistance
    then never_eligible
    else if contains_verbatim_strings
    then requires_consent
    else always_eligible

pub data DispatchDecision : Type 0 where
  allow : DispatchDecision
  ask_consent : Text → DispatchDecision
  blocked : DispatchDecision

-- `HashSet<String>`, as the list of its members.
unfoldable pub contains : List Text → Text → Bool
contains classes c = any (λ x. text_eq x c) classes

pub record DispatchGate : Type 0 where
  pub general_cloud_consent : Bool
  pub per_class_consent : List Text

abbrev pub new_gate : DispatchGate
new_gate = record { general_cloud_consent = false; per_class_consent = [] }

unfoldable pub grant_general_cloud_consent : DispatchGate → DispatchGate
grant_general_cloud_consent gate = record gate { general_cloud_consent = true }

unfoldable pub revoke_general_cloud_consent : DispatchGate → DispatchGate
revoke_general_cloud_consent gate = record gate { general_cloud_consent = false }

-- `HashSet::insert` keeps the set as it is if the class is there already.
unfoldable pub grant_class_consent : Text → DispatchGate → DispatchGate
unfolding contains
grant_class_consent content_class gate =
    if contains gate.per_class_consent content_class
    then gate
    else record gate { per_class_consent = content_class ∷ gate.per_class_consent }

unfoldable pub revoke_class_consent : Text → DispatchGate → DispatchGate
revoke_class_consent content_class gate = record gate {
  per_class_consent = keep (λ x. not (text_eq x content_class)) gate.per_class_consent;
}

decide_tier : CloudEligibility → Bool → Text → DispatchDecision
decide_tier never_eligible consented content_class = blocked
decide_tier always_eligible consented content_class = allow
decide_tier requires_consent consented content_class =
    if consented then allow else ask_consent content_class

unfoldable pub evaluate : DispatchGate → Bool → PrivacyLevel → Text → Bool → DispatchDecision
unfolding cloud_eligibility decide_tier
evaluate gate provider_is_local privacy_level content_class contains_verbatim_strings =
    if provider_is_local
    then allow
    else if not gate.general_cloud_consent
    then blocked
    else decide_tier (cloud_eligibility privacy_level contains_verbatim_strings)
        (contains gate.per_class_consent content_class) content_class
