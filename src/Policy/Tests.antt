-- ===== src/Policy/Tests.antt =====
-- A parsed policy raises a lower choice.
use hidden_steps.Prelude.{
  Result, Text, [], codes, false, max, none, ok, refl, some, text_eq, ◌∷◌, ◌≡◌,
}
use hidden_steps.Domain.Privacy.{as_u8, from_u8, manual}
use hidden_steps.Policy.{EnterprisePolicy, effective_privacy_level, is_provider_allowed, parse}
use hidden_steps.Policy.Laws.{effective-eq-max, floor_number}

abbrev floor_two : EnterprisePolicy
floor_two = record {
  policy_source = none;
  privacy_level_floor = some 2;
  provider_allowlist = some (codes "ollama" ∷ []);
}

abbrev read_floor_two : Text → Result EnterprisePolicy Text
read_floor_two json = ok floor_two

-- A policy with a floor of 2 parses, and lets only the listed provider be used.
listed_only : (is_provider_allowed floor_two (codes "openai") ≡ false)
unfolding is_provider_allowed text_eq
listed_only = refl

effective-eq-max_example :
    as_u8 (effective_privacy_level floor_two manual)
    ≡ max (floor_number floor_two.privacy_level_floor) (as_u8 manual)
unfolding parse from_u8
effective-eq-max_example = effective-eq-max read_floor_two (codes "{}") floor_two manual refl
