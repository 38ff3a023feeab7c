-- ===== src/Gate/Laws.antt =====
-- What `evaluate` decides, over all gates.
use hidden_steps.Prelude.{
  Bool, Text, arith, false, inl, inr, not, refl, true, ◌&&◌, ◌↔◌, ◌≡◌, ◌≢◌, ◌⊎◌,
}
use hidden_steps.Domain.Privacy.{PrivacyLevel, maximum_assistance}
use hidden_steps.Gate.{DispatchGate, allow, ask_consent, contains, evaluate}

-- A cloud provider may be sent content exactly when the user consented to cloud use at all, the
-- content is not of Level 4, and verbatim content has the consent of its own class.
pub record MaySend (gate : DispatchGate) (level : PrivacyLevel) (c : Text) (verbatim : Bool)
    : Type 0 where
  pub general : gate.general_cloud_consent ≡ true
  pub below_four : level ≢ maximum_assistance
  pub class : (verbatim && not (contains gate.per_class_consent c)) ≡ false

MaySend-allow :
    (gate : DispatchGate) (level : PrivacyLevel) (c : Text) (verbatim : Bool)
    → MaySend gate level c verbatim
    → evaluate gate false level c verbatim ≡ allow
unfolding evaluate
MaySend-allow gate level c true may =
    let general = may.general in let class = may.class in let below = may.below_four in ground arith
MaySend-allow gate level c false may =
    let general = may.general in let below = may.below_four in ground arith

allow-MaySend :
    (gate : DispatchGate) (level : PrivacyLevel) (c : Text) (verbatim : Bool)
    → evaluate gate false level c verbatim ≡ allow
    → MaySend gate level c verbatim
unfolding evaluate
allow-MaySend gate level c true h = record {
  general = ground arith;
  below_four = λ e. ground arith;
  class = ground arith;
}
allow-MaySend gate level c false h = record {
  general = ground arith;
  below_four = λ e. ground arith;
  class = refl;
}

-- The gate allows exactly: everything for a local provider, and for a cloud provider the content
-- that may be sent under the consents given.
pub evaluate-allow_iff :
    (gate : DispatchGate) (local : Bool) (level : PrivacyLevel) (c : Text) (verbatim : Bool)
    → (evaluate gate local level c verbatim ≡ allow)
      ↔ ((local ≡ true) ⊎ ((local ≡ false) × MaySend gate level c verbatim))
unfolding evaluate
evaluate-allow_iff gate true level c verbatim = (λ _. inl refl, λ _. refl)
evaluate-allow_iff gate false level c verbatim = (
  λ h. inr (refl, allow-MaySend gate level c verbatim h),
  elim [ inl e ↦ cc | inr (e, may) ↦ MaySend-allow gate level c verbatim may ],
)

-- Consent is asked for exactly when the missing consent of the content's own class is all that
-- stands in the way, and the class that is named is the one that was passed.
evaluate-ask_consent_iff :
    (gate : DispatchGate) (local : Bool) (level : PrivacyLevel) (c : Text) (verbatim : Bool)
    → (evaluate gate local level c verbatim ≡ ask_consent c) ↔ (
        (local ≡ false)
        × (gate.general_cloud_consent ≡ true)
        × (level ≢ maximum_assistance)
        × (verbatim ≡ true)
        × (contains gate.per_class_consent c ≡ false))
unfolding evaluate
evaluate-ask_consent_iff gate local level c verbatim = (
  λ h. (ground arith, ground arith, λ e. ground arith, ground arith, ground arith),
  λ (l, g, b, v, n). ground arith,
)
