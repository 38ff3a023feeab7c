-- ===== src/Policy.antt =====
-- crates/enterprise-policy/src/lib.rs: the policy that an organisation applies to a device.
pub mod Laws
mod Tests
use hidden_steps.Prelude.{
  Bool, List, Option, Result, Text, and_then, any, err, if◌then◌else◌, none, ok, ok_of, some,
  text_eq, true, ℕ,
}
use hidden_steps.Domain.Privacy.{PrivacyLevel, PrivacyLevelError, from_u8, level_gt}

pub record EnterprisePolicy : Type 0 where
  pub policy_source : Option Text
  pub privacy_level_floor : Option ℕ
  pub provider_allowlist : Option (List Text)

pub data PolicyError (SerdeError : Type 0) : Type 0 where
  parse_failed : SerdeError → PolicyError SerdeError
  invalid_floor : PrivacyLevelError → PolicyError SerdeError

-- `PrivacyLevel::from_u8(floor)?; Ok(policy)`
if_level :
    {E : Type 0}
    → EnterprisePolicy
    → Result PrivacyLevel PrivacyLevelError
    → Result EnterprisePolicy (PolicyError E)
if_level policy (ok _) = ok policy
if_level policy (err e) = err (invalid_floor e)

check_floor : {E : Type 0} → EnterprisePolicy → Option ℕ → Result EnterprisePolicy (PolicyError E)
unfolding if_level
check_floor policy none = ok policy
check_floor policy (some floor) = if_level policy (from_u8 floor)

parsed : {E : Type 0} → Result EnterprisePolicy E → Result EnterprisePolicy (PolicyError E)
unfolding check_floor
parsed (ok policy) = check_floor policy policy.privacy_level_floor
parsed (err e) = err (parse_failed e)

-- `from_str` is `serde_json::from_str` at this type.
unfoldable pub parse :
    {E : Type 0}
    → (Text → Result EnterprisePolicy E)
    → Text
    → Result EnterprisePolicy (PolicyError E)
unfolding parsed
parse from_str json = parsed (from_str json)

raise_to : Option PrivacyLevel → PrivacyLevel → PrivacyLevel
raise_to none user_choice = user_choice
raise_to (some floor) user_choice = if level_gt floor user_choice then floor else user_choice

unfoldable pub effective_privacy_level : EnterprisePolicy → PrivacyLevel → PrivacyLevel
unfolding raise_to
effective_privacy_level policy user_choice =
    raise_to (and_then policy.privacy_level_floor (λ f. ok_of (from_u8 f))) user_choice

allowed_by : Option (List Text) → Text → Bool
allowed_by none provider_id = true
allowed_by (some allowed) provider_id = any (λ p. text_eq p provider_id) allowed

unfoldable pub is_provider_allowed : EnterprisePolicy → Text → Bool
unfolding allowed_by
is_provider_allowed policy provider_id = allowed_by policy.provider_allowlist provider_id
