-- ===== src/Gate/Consent.antt =====
-- crates/privacy-engine/src/consent.rs: the version of the privacy manifest.
use hidden_steps.Prelude.{Bool, ltb, ℕ}

abbrev pub current_manifest_version : ℕ
current_manifest_version = 1

unfoldable pub requires_reconsent : ℕ → ℕ → Bool
requires_reconsent consented_manifest_version current = ltb consented_manifest_version current
