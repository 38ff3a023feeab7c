-- ===== src/Redaction/Engine.antt =====
-- crates/redaction/src/engine.rs: what becomes of a text, given what was detected in it.
pub mod Mask
pub mod Safety
use mathlib.Core.Option
use hidden_steps.Prelude.{
  Bool, List, Option, Text, [], and_then, any, codes, false, if◌then◌else◌, length, ltb, none, some,
  true, ℕ, ◌++◌, ◌∷◌,
}
use hidden_steps.Redaction.{Category, Detection, ambiguous, high, label, slice}

pub data RedactionOutcome : Type 0 where
  clean redacted : Text → RedactionOutcome
  dropped : RedactionOutcome

unfoldable pub marker : Category → Text
marker category = codes "[REDACTED:" ++ (label category ++ codes "]")

-- The text in front of a marker, the marker, and what follows; a panic anywhere is a panic.
join : Option Text → Text → Option Text → Option Text
join (some before) mark (some rest) = some (before ++ (mark ++ rest))
join _ mark _ = none

-- The loop over the detections, from the byte `cursor` on; `none` is a panic of a slice.
redact_from : Text → ℕ → List Detection → Option Text
redact_from text cursor [] = slice text cursor (length text)
redact_from text cursor (d ∷ ds) =
    let skipped = redact_from text cursor ds in
    let replaced =
      join (slice text cursor d.start) (marker d.category) (redact_from text d.end ds) in
    if ltb d.start cursor then skipped else replaced

unfoldable pub apply_redactions : Text → List Detection → Option Text
unfolding redact_from join slice
apply_redactions text detections = redact_from text 0 detections

unfoldable pub is_ambiguous : Detection → Bool
is_ambiguous d = elim d.confidence [ ambiguous ↦ true | high ↦ false ]

decide : Text → List Detection → Option RedactionOutcome
unfolding is_ambiguous apply_redactions
decide text [] = some (clean text)
decide text (d ∷ ds) =
    if any is_ambiguous (d ∷ ds)
    then some dropped
    else Option.map redacted (apply_redactions text (d ∷ ds))

-- `RedactionEngine::scan`, over the detector; `none` is a panic.
unfoldable pub scan : (Text → Option (List Detection)) → Text → Option RedactionOutcome
unfolding decide
scan detect_all text = and_then (detect_all text) (decide text)
