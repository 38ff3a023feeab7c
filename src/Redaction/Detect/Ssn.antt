-- ===== src/Redaction/Detect/Ssn.antt =====
-- The detector of nine digits without separators cuts its match at fixed byte offsets.
use hidden_steps.Prelude.{
  All, List, Option-cases, Text, [], all, and-true, arith, drop, false, inl, inr, leb, length, none,
  refl, some, suc, take, true, zero, ℕ, ◌&&◌, ◌++◌, ◌∷◌, ◌≡◌, ◌≤◌,
}
use hidden_steps.Float.{Float}
use hidden_steps.Redaction.{Detection, is_char_boundary, slice}
use hidden_steps.Redaction.Luhn.{is_ascii_digit}
use hidden_steps.Redaction.Detect.{
  Matchers, Span, dashless_detections, detect_all, judge_ssn, piece, sort_by_start, split_ssn,
  unsorted,
}

-- Nine ASCII digits, which is what the cuts are made for.
abbrev pub IsNineDigits : Text → Type 0
IsNineDigits s = (length s ≡ 9) × (all is_ascii_digit s ≡ true)

ascii_boundary :
    (s : Text) (i : ℕ) → all is_ascii_digit s ≡ true → i ≤ length s → is_char_boundary s i ≡ true
unfolding is_char_boundary is_ascii_digit
ascii_boundary [] zero h fits = refl
ascii_boundary [] (suc i) h fits = absurd (omega arith)
ascii_boundary (b ∷ s) zero h fits = ground arith
ascii_boundary (b ∷ s) (suc i) h fits =
    ascii_boundary s i (and-true (leb b'0' b && leb b b'9') _ h).1 (omega arith)

split_returns :
    (s : Text) → IsNineDigits s → (groups : Text × Text × Text) × (split_ssn s ≡ some groups)
unfolding split_ssn slice
split_returns s (nine, digits) =
    let b0 = ascii_boundary s 0 digits (omega arith) in
    let b3 = ascii_boundary s 3 digits (omega arith) in
    let b5 = ascii_boundary s 5 digits (omega arith) in
    let b9 = ascii_boundary s 9 digits (omega arith) in
    ((take 3 s, take 2 (drop 3 s), take 4 (drop 5 s)), ground arith)

dashless_returns :
    (text : Text) (spans : List Span)
    → All (λ span. IsNineDigits (piece text span)) spans
    → (ds : List Detection) × (dashless_detections text spans ≡ some ds)
unfolding dashless_detections
dashless_returns text [] h = ([], refl)
dashless_returns text (span ∷ spans) h =
    let (groups, cut) = split_returns (piece text span) h.0 in
    let (rest, more) = dashless_returns text spans h.1 in
    (judge_ssn span groups rest, rw (cut, more))

-- The detection does not panic when every match of nine digits consists of ASCII digits.
pub detect_all_returns :
    (fl : Float) (m : Matchers) (text : Text)
    → All (λ span. IsNineDigits (piece text span)) (m.ssn_dashless text)
    → (ds : List Detection) × (detect_all fl m text ≡ some ds)
unfolding detect_all
detect_all_returns fl m text h =
    let (dashless, e) = dashless_returns text (m.ssn_dashless text) h in
    (sort_by_start (unsorted fl m text dashless), rw e)

split_panics :
    (s : Text) → (is_char_boundary s 3 && is_char_boundary s 5) ≡ false → split_ssn s ≡ none
unfolding split_ssn slice
split_panics s h = ground arith

dashless_panics :
    (text : Text) (before after : List Span) (span : Span)
    → split_ssn (piece text span) ≡ none
    → dashless_detections text (before ++ span ∷ after) ≡ none
unfolding dashless_detections
dashless_panics text [] after span h = rw h
dashless_panics text (b ∷ before) after span h =
    let later = dashless_panics text before after span h in
    elim (Option-cases (split_ssn (piece text b))) [
      | inl e ↦ rw e
      | inr (groups, e) ↦ rw (e, later)
    ]

-- The detection panics whenever some match of nine digits has the middle of a character at byte 3 or
-- at byte 5, as any nine digits do that take two, three or four bytes each.
pub detect_all_panics :
    (fl : Float) (m : Matchers) (text : Text) (before after : List Span) (span : Span)
    → m.ssn_dashless text ≡ before ++ span ∷ after
    → (is_char_boundary (piece text span) 3 && is_char_boundary (piece text span) 5) ≡ false
    → detect_all fl m text ≡ none
unfolding detect_all
detect_all_panics fl m text before after span h middle =
    rw h (rw (dashless_panics text before after span (split_panics (piece text span) middle)))
