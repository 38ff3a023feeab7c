-- ===== src/Redaction.antt =====
-- crates/redaction: finding sensitive text, and taking it out.
pub mod Luhn
pub mod Numbers
pub mod Engine
pub mod Entropy
pub mod Detect
mod Tests
use hidden_steps.Prelude.{
  Bool, Option, Text, [], codes, drop, false, if◌then◌else◌, leb, ltb, none, not, some, suc, take,
  true, zero, ℕ, ◌&&◌, ◌-◌, ◌∷◌,
}

-- detectors.rs
pub data Category : Type 0 where
  api_key_or_token password private_key email credit_card : Category
  government_id medical ambiguous_secret : Category

unfoldable pub label : Category → Text
label api_key_or_token = codes "api_key_or_token"
label password = codes "password"
label private_key = codes "private_key"
label email = codes "email"
label credit_card = codes "credit_card"
label government_id = codes "government_id"
label medical = codes "medical"
label ambiguous_secret = codes "ambiguous_secret"

pub data Confidence : Type 0 where
  high ambiguous : Confidence

pub record Detection : Type 0 where
  pub start : ℕ
  pub end : ℕ
  pub category : Category
  pub confidence : Confidence

-- A byte that continues a character, so that no slice may begin or end before it.
unfoldable pub is_continuation : ℕ → Bool
is_continuation b = leb 128 b && ltb b 192

-- `str::is_char_boundary`
unfoldable pub is_char_boundary : Text → ℕ → Bool
unfolding is_continuation
is_char_boundary [] zero = true
is_char_boundary [] (suc i) = false
is_char_boundary (b ∷ s) zero = not (is_continuation b)
is_char_boundary (b ∷ s) (suc i) = is_char_boundary s i

-- `&text[a..b]`; `none` is the panic of a bad range.
unfoldable pub slice : Text → ℕ → ℕ → Option Text
unfolding is_char_boundary
slice text a b =
    if leb a b && (is_char_boundary text a && is_char_boundary text b)
    then some (take (b - a) (drop a text))
    else none
