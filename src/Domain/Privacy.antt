-- ===== src/Domain/Privacy.antt =====
-- crates/domain/src/privacy.rs: the five privacy levels and the stored privacy state.
pub mod Laws
use hidden_steps.Prelude.{Bool, List, Result, [], false, find, ltb, not, ok_or, ℕ, ◌==◌, ◌∷◌}

pub data PrivacyLevel : Type 0 where
  manual application_metadata workflow_metadata context_aware maximum_assistance : PrivacyLevel

pub data PrivacyLevelError : Type 0 where
  out_of_range : ℕ → PrivacyLevelError

unfoldable pub as_u8 : PrivacyLevel → ℕ
as_u8 manual = 0
as_u8 application_metadata = 1
as_u8 workflow_metadata = 2
as_u8 context_aware = 3
as_u8 maximum_assistance = 4

abbrev pub all_levels : List PrivacyLevel
all_levels =
    manual ∷ application_metadata ∷ workflow_metadata ∷ context_aware ∷ maximum_assistance ∷ []

-- The first of `ALL` whose discriminant is the value.
unfoldable pub from_u8 : ℕ → Result PrivacyLevel PrivacyLevelError
unfolding as_u8
from_u8 value = ok_or (find (λ level. as_u8 level == value) all_levels) (out_of_range value)

-- The derived `PartialEq` and `Ord` compare the discriminants.
unfoldable pub level_eq : PrivacyLevel → PrivacyLevel → Bool
unfolding as_u8
level_eq a b = as_u8 a == as_u8 b

-- `a > b`
unfoldable pub level_gt : PrivacyLevel → PrivacyLevel → Bool
unfolding as_u8
level_gt a b = ltb (as_u8 b) (as_u8 a)

unfoldable pub is_cloud_eligible : PrivacyLevel → Bool
unfolding level_eq
is_cloud_eligible level = not (level_eq level maximum_assistance)

unfoldable pub requires_ttl_sweep : PrivacyLevel → Bool
unfolding level_eq
requires_ttl_sweep level = level_eq level maximum_assistance

-- `updated_at` is a point in time, counted in nanoseconds from a fixed origin.
pub record PrivacyState : Type 0 where
  pub current_level : PrivacyLevel
  pub consented_manifest_version : ℕ
  pub observation_active : Bool
  pub updated_at : ℕ

unfoldable pub initial : ℕ → PrivacyState
initial now = record {
  current_level = manual;
  consented_manifest_version = 0;
  observation_active = false;
  updated_at = now;
}
