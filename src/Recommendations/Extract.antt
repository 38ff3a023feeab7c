-- ===== src/Recommendations/Extract.antt =====
-- crates/recommendations/src/prompt.rs: `extract_json_object`. The characters that it looks for are
-- ASCII, so the loop over characters is a loop over bytes.
pub mod Object
use mathlib.Core.Option
use hidden_steps.Prelude.{
  Bool, Option, Text, [], and_then, false, if◌then◌else◌, none, not, some, true, ℕ, ◌&&◌, ◌+◌, ◌-◌,
  ◌==◌, ◌∷◌,
}

-- `&text[text.find('{')?..]`
unfoldable pub from_brace : Text → Option Text
from_brace [] = none
from_brace (c ∷ s) = if c == b'{' then some (c ∷ s) else from_brace s

-- The loop's variables. A depth is never negative: the text begins with an opening brace.
pub record Scanner : Type 0 where
  pub depth : ℕ
  pub in_string : Bool
  pub escaped : Bool

unfoldable pub step_in_string : Scanner → ℕ → Scanner
step_in_string st ch =
    if st.escaped
    then record st { escaped = false }
    else if ch == b'\\'
    then record st { escaped = true }
    else if ch == b'"'
    then record st { in_string = false }
    else st

unfoldable pub step_outside : Scanner → ℕ → Scanner
step_outside st ch =
    if ch == b'"'
    then record st { in_string = true }
    else if ch == b'{'
    then record st { depth = st.depth + 1 }
    else if ch == b'}'
    then record st { depth = st.depth - 1 }
    else st

unfoldable pub step : Scanner → ℕ → Scanner
unfolding step_in_string step_outside
step st ch = if st.in_string then step_in_string st ch else step_outside st ch

-- Whether this character closes the object.
unfoldable pub closes : Scanner → ℕ → Bool
unfolding step
closes st ch = not st.in_string && ch == b'}' && (step st ch).depth == 0

-- The text up to and with the character that closes the object.
unfoldable pub object_from : Scanner → Text → Option Text
unfolding step closes
object_from st [] = none
object_from st (ch ∷ s) =
    let later = object_from (step st ch) s in
    if closes st ch then some (ch ∷ []) else Option.map (λ t. ch ∷ t) later

abbrev pub outside : Scanner
outside = record { depth = 0; in_string = false; escaped = false }

unfoldable pub extract_json_object : Text → Option Text
unfolding from_brace object_from
extract_json_object text = and_then (from_brace text) (object_from outside)
