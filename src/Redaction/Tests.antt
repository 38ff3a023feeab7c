-- ===== src/Redaction/Tests.antt =====
-- Redaction on concrete texts.
use mathlib.Core.List.{Memᴰ}
use hidden_steps.Prelude.{
  All, List, Text, [], arith, codes, false, map, none, refl, some, true, ℕ, ◌++◌, ◌↔◌, ◌∷◌, ◌≡◌,
}
use hidden_steps.Float.{Float}
use hidden_steps.Samples.{whole}
use hidden_steps.Redaction.{
  Detection, ambiguous, ambiguous_secret, credit_card, high, is_char_boundary, password,
}
use hidden_steps.Redaction.Luhn.{
  digit_positions, find_luhn_valid_window, is_ascii_digit, luhn_valid, window,
}
use hidden_steps.Redaction.Luhn.Errors.{single_digit_error}
use hidden_steps.Redaction.Engine.{apply_redactions, dropped, marker, scan}
use hidden_steps.Redaction.Engine.Mask.{apply_redactions-eq-mask, mask}
use hidden_steps.Redaction.Engine.Safety.{overlap_leaks}
use hidden_steps.Redaction.Detect.{
  Matchers, Span, certain, dashless_detections, detect_all, looks_secret, piece,
}
use hidden_steps.Redaction.Luhn.Window.{FoundCard, find_complete, find_sound}
use hidden_steps.Redaction.Detect.Tiers.{Clash, detect_all-NoClash}
use hidden_steps.Redaction.Detect.Dropping.{IsClearOf, IsSecret, scan-dropped_iff}
use hidden_steps.Redaction.Detect.Ssn.{detect_all_panics, detect_all_returns}

-- "password: 4532 0151 1283 0366": the value that the key-value rule takes, and the card number.
abbrev leaky : Text
leaky = codes "password: 4532 0151 1283 0366"

abbrev value_found : Detection
value_found = record { start = 10; end = 14; category = password; confidence = high }

abbrev card_found : Detection
card_found = record { start = 10; end = 29; category = credit_card; confidence = high }

abbrev token_found : Detection
token_found = record { start = 15; end = 19; category = ambiguous_secret; confidence = ambiguous }

abbrev matchers : Matchers
matchers = record {
  pem_private_key = λ t. [];
  aws_access_key = λ t. [];
  github_token = λ t. [];
  slack_token = λ t. [];
  jwt = λ t. [];
  key_value_secret = λ t. some (10, 14) ∷ [];
  medical_key_value = λ t. [];
  email_address = λ t. [];
  ssn_dashed = λ t. [];
  ssn_spaced = λ t. [];
  ssn_dashless = λ t. [];
  credit_card_candidate = λ t. (10, 29) ∷ [];
  high_entropy_candidate = λ t. [];
}

-- Nine digits of two bytes each (U+0660), as the rule for nine digits finds them.
abbrev arabic_zeros : Text
arabic_zeros =
    217 ∷ 160 ∷ 217 ∷ 160 ∷ 217 ∷ 160 ∷ 217 ∷ 160 ∷ 217 ∷ 160 ∷ 217 ∷ 160 ∷ 217 ∷ 160 ∷ 217 ∷ 160
    ∷ 217 ∷ 160 ∷ []

abbrev nine_digits : List Span → Matchers
nine_digits spans = record matchers { ssn_dashless = λ t. spans }

apply_redactions-eq-mask_example :
    apply_redactions leaky (value_found ∷ []) ≡ some (mask 0 leaky (value_found ∷ []))
unfolding is_char_boundary
apply_redactions-eq-mask_example =
    apply_redactions-eq-mask leaky (value_found ∷ [])
      (omega arith, omega arith, omega arith, refl, refl, tt) refl

overlap_leaks_example :
    apply_redactions leaky (value_found ∷ card_found ∷ [])
    ≡ some (codes "password: " ++ (marker password ++ codes " 0151 1283 0366"))
unfolding is_char_boundary
overlap_leaks_example =
    overlap_leaks leaky value_found card_found (omega arith, omega arith, refl, refl) (omega arith)
      refl

single_digit_error_example : luhn_valid (codes "453201511283036" ++ b'7' ∷ []) ≡ false
unfolding luhn_valid is_ascii_digit
single_digit_error_example =
    single_digit_error (codes "453201511283036") [] b'6' b'7' refl refl (λ e. omega (arith, e))
      (omega arith) refl

abbrev card_text : Text
card_text = codes "4532 0151 1283 0366"

find_sound_example : FoundCard (digit_positions 10 card_text) (10, 29)
unfolding find_luhn_valid_window
find_sound_example = find_sound card_text 10 (10, 29) refl

abbrev no_card : Text
no_card = codes "1111-1111-1111-1"

find_complete_example :
    luhn_valid (map (λ (p : ℕ × ℕ). p.0) (window (digit_positions 0 no_card) 13 0)) ≡ false
unfolding find_luhn_valid_window digit_positions
find_complete_example =
    find_complete no_card 0 13 0 (omega arith) refl (omega arith) (omega arith) (omega arith)
      (omega arith)

-- A secret by its name, and two tokens: the first is claimed, the second only looks like a secret.
abbrev secrets : Text
secrets = codes "password: 4532 Zq8"

abbrev tokens : Matchers
tokens = record matchers {
  credit_card_candidate = λ t. [];
  high_entropy_candidate = λ t. (10, 14) ∷ (15, 18) ∷ [];
}

abbrev all_high : Float
all_high = record whole { less_eq = λ a b. true }

abbrev detected : List Detection
detected =
    value_found
    ∷ record { start = 15; end = 18; category = ambiguous_secret; confidence = ambiguous }
    ∷ []

detects : detect_all all_high tokens secrets ≡ some detected
unfolding detect_all looks_secret piece
detects = refl

detect_all-NoClash_example : All (λ a. All (λ d. ¬ Clash a d) detected) detected
detect_all-NoClash_example = detect_all-NoClash all_high tokens secrets detected detects

scan-dropped_iff_example : (scan (detect_all all_high tokens) secrets ≡ some dropped) ↔ (
    (span : Span) × Memᴰ span (tokens.high_entropy_candidate secrets)
    × IsSecret all_high (piece secrets span)
    × All (IsClearOf span) (certain tokens secrets []))
unfolding dashless_detections
scan-dropped_iff_example = scan-dropped_iff all_high tokens secrets [] refl

detect_all_returns_example :
    (ds : List Detection) × (detect_all whole (nine_digits ((0, 9) ∷ [])) (codes "123456789")
      ≡ some ds)
unfolding is_ascii_digit piece
detect_all_returns_example =
    detect_all_returns whole (nine_digits ((0, 9) ∷ [])) (codes "123456789") ((refl, refl), tt)

detect_all_panics_example : detect_all whole (nine_digits ((0, 18) ∷ [])) arabic_zeros ≡ none
unfolding is_char_boundary piece
detect_all_panics_example =
    detect_all_panics whole (nine_digits ((0, 18) ∷ [])) arabic_zeros [] [] (0, 18) refl refl
