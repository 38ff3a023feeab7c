-- ===== src/Policy/Laws.antt =====
-- The floor that a policy sets.
use hidden_steps.Prelude.{
  Bool-cases, Option, Result, Result-cases, Text, and_then, ap, arith, err, if◌then◌else◌, inl, inr,
  ltb, max, none, not_ltb→le, ok, ok_of, some, subst, tests, ℕ, ◌≡◌,
}
use hidden_steps.Domain.Privacy.Laws.{from_u8_sound}
use hidden_steps.Domain.Privacy.{PrivacyLevel, PrivacyLevelError, as_u8, from_u8, level_gt}
use hidden_steps.Policy.{
  EnterprisePolicy, check_floor, effective_privacy_level, if_level, parse, parsed, raise_to,
}

pub floor_number : Option ℕ → ℕ
floor_number none = 0
floor_number (some f) = f

raise-eq-max :
    (floor user : PrivacyLevel)
    → as_u8 (if level_gt floor user then floor else user) ≡ max (as_u8 floor) (as_u8 user)
unfolding level_gt
raise-eq-max floor user = elim (Bool-cases (ltb (as_u8 user) (as_u8 floor))) [
  | inl above ↦ rw above (omega tests)
  | inr other ↦ rw other (omega (arith, not_ltb→le (as_u8 user) (as_u8 floor)))
]

bad_floor :
    {E : Type 0} (before after : EnterprisePolicy) (error : PrivacyLevelError)
    → if_level {E = E} before (err error) ≡ ok after
    → ⊥
unfolding if_level
bad_floor before after error h = cc

-- A floor that passed the check is the number of a level.
floor-eq-max :
    {E : Type 0} (before after : EnterprisePolicy) (floor : Option ℕ) (user : PrivacyLevel)
    → check_floor {E = E} before floor ≡ ok after
    → as_u8 (raise_to (and_then floor (λ f. ok_of (from_u8 f))) user)
      ≡ max (floor_number floor) (as_u8 user)
unfolding check_floor raise_to floor_number
floor-eq-max before after none user h = omega arith
floor-eq-max before after (some f) user h = elim (Result-cases (from_u8 f)) [
  | inl (level, e) ↦
      rw e (rw (raise-eq-max level user) (ap (λ n. max n (as_u8 user)) (from_u8_sound f level e)))
  | inr (error, e) ↦ absurd (bad_floor before after error (rw e at h))
]

check_floor-eq :
    {E : Type 0} (before after : EnterprisePolicy) (floor : Option ℕ)
    → check_floor {E = E} before floor ≡ ok after
    → before ≡ after
unfolding check_floor
check_floor-eq before after floor h = ground arith

-- The level in force under a policy that was parsed is the larger number of the floor and the
-- user's choice: the floor is never undercut, a higher choice is kept, and nothing else can result.
pub effective-eq-max :
    {E : Type 0} (from_str : Text → Result EnterprisePolicy E) (json : Text)
    (policy : EnterprisePolicy) (user_choice : PrivacyLevel)
    → parse from_str json ≡ ok policy
    → as_u8 (effective_privacy_level policy user_choice)
      ≡ max (floor_number policy.privacy_level_floor) (as_u8 user_choice)
unfolding parse effective_privacy_level
effective-eq-max {E} from_str json policy user_choice h = go (from_str json) h
  where
    go :
        (r : Result EnterprisePolicy E)
        → parsed r ≡ ok policy
        → as_u8 (effective_privacy_level policy user_choice)
          ≡ max (floor_number policy.privacy_level_floor) (as_u8 user_choice)
    go (ok p) e =
        let same = check_floor-eq p policy p.privacy_level_floor e in
        floor-eq-max {E = E} p policy policy.privacy_level_floor user_choice (
          subst (λ (q : EnterprisePolicy). check_floor {E = E} p q.privacy_level_floor ≡ ok policy)
            same e)
    go (err x) e = cc
