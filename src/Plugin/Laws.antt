-- ===== src/Plugin/Laws.antt =====
-- Which manifests are accepted.
use hidden_steps.Prelude.{
  Bool-cases, List, [], any, arith, false, inl, inr, ltb, not_ltb→le, ok, refl, ℕ, ◌&&◌, ◌↔◌, ◌∷◌,
  ◌≡◌, ◌≤◌,
}
use hidden_steps.Plugin.{
  Capability, PluginManifest, check_capabilities, requires_level_four, validate,
}

accepted_level :
    (level : ℕ) (cs : List Capability)
    → (check_capabilities level cs ≡ ok tt) ↔ ((any requires_level_four cs && ltb level 4) ≡ false)
unfolding check_capabilities
accepted_level level [] = (λ h. refl, λ h. refl)
accepted_level level (c ∷ cs) = elim (Bool-cases (requires_level_four c && ltb level 4)) [
  | inl e ↦ (λ h. absurd (cc (rw e at h)), λ h. absurd (ground arith))
  | inr e ↦ rw e (
    λ h. ground (arith, e, (accepted_level level cs).0 h),
    λ h. (accepted_level level cs).1 (ground (arith, e, h)),
  )
]

-- A manifest is accepted exactly when its level is one of the five and, if it asks for anything that
-- only the highest level may have, is the highest.
pub validate-ok_iff :
    (manifest : PluginManifest)
    → (validate manifest ≡ ok tt) ↔ (
        (manifest.min_privacy_level ≤ 4)
        × ((any requires_level_four manifest.capabilities && ltb manifest.min_privacy_level 4)
            ≡ false))
unfolding validate
validate-ok_iff manifest = elim (Bool-cases (ltb 4 manifest.min_privacy_level)) [
  | inl e ↦ (λ h. absurd (cc (rw e at h)), λ h. absurd (ground (arith, e, h.0)))
  | inr e ↦ rw e (
    λ h. (
      not_ltb→le 4 manifest.min_privacy_level e,
      (accepted_level manifest.min_privacy_level manifest.capabilities).0 h,
    ),
    λ h. (accepted_level manifest.min_privacy_level manifest.capabilities).1 h.1,
  )
]
