-- ===== src/Redaction/Engine/Safety.antt =====
-- When the redaction does not panic, what overlapping detections do, and what `scan` answers.
use mathlib.Core.Option
use hidden_steps.Prelude.{
  All, Bool-cases, List, Option, Text, [], any, arith, drop, false, inl, inr, length, length-drop,
  ltb, none, not_ltb→le, some, take, take_all, true, ℕ, ◌++◌, ◌-◌, ◌<◌, ◌↔◌, ◌∷◌, ◌≡◌, ◌≢◌, ◌≤◌,
}
use hidden_steps.Redaction.{Detection, is_char_boundary}
use hidden_steps.Redaction.Engine.{
  apply_redactions, decide, dropped, is_ambiguous, join, marker, redact_from, redacted, scan,
}
use hidden_steps.Redaction.Engine.Mask.{
  Separate, apply_redactions-eq-mask, boundary_at_end, mask, slice-eq,
}

-- A range that can be cut out of the text.
abbrev pub IsInText : Text → Detection → Type 0
IsInText text d =
    (d.start ≤ d.end)
    × (d.end ≤ length text)
    × (is_char_boundary text d.start ≡ true)
    × (is_char_boundary text d.end ≡ true)

redact_from_returns :
    (text : Text) (ds : List Detection) (cursor : ℕ)
    → All (IsInText text) ds
    → cursor ≤ length text
    → is_char_boundary text cursor ≡ true
    → (t : Text) × (redact_from text cursor ds ≡ some t)
unfolding redact_from join
redact_from_returns text [] cursor ok_all h at_cursor = (
  take (length text - cursor) (drop cursor text),
  slice-eq text cursor (length text) h at_cursor (boundary_at_end text),
)
redact_from_returns text (d ∷ ds) cursor ok_all h at_cursor =
    let (skipped, e) = redact_from_returns text ds cursor ok_all.1 h at_cursor in
    let (rest, e') = redact_from_returns text ds d.end ok_all.1 ok_all.0.1 ok_all.0.3 in
    elim (Bool-cases (ltb d.start cursor)) [
      | inl before ↦ (skipped, rw before e)
      | inr behind ↦ (
        take (d.start - cursor) (drop cursor text) ++ (marker d.category ++ rest),
        rw (
          behind,
          slice-eq text cursor d.start (not_ltb→le d.start cursor behind) at_cursor ok_all.0.2,
          e',
        ),
      )
    ]

-- The redaction of a text never panics when each detection is a range of the text, whatever the
-- order of the detections and however they overlap.
apply_redactions_returns :
    (text : Text) (ds : List Detection)
    → All (IsInText text) ds
    → is_char_boundary text 0 ≡ true
    → (t : Text) × (apply_redactions text ds ≡ some t)
unfolding apply_redactions
apply_redactions_returns text ds ok_all starts =
    redact_from_returns text ds 0 ok_all (omega arith) starts

-- Of two overlapping detections only the first is taken out: the bytes of the second that lie
-- behind the end of the first stay in the text.
pub overlap_leaks :
    (text : Text) (d e : Detection)
    → IsInText text d
    → e.start < d.end
    → is_char_boundary text 0 ≡ true
    → apply_redactions text (d ∷ e ∷ [])
      ≡ some (take d.start text ++ (marker d.category ++ drop d.end text))
unfolding apply_redactions redact_from join
overlap_leaks text d e good overlap starts = ground (
  arith,
  overlap,
  slice-eq text 0 d.start (omega arith) starts good.2,
  slice-eq text d.end (length text) good.1 good.3 (boundary_at_end text),
  take_all (length text - d.end) (drop d.end text) (omega (arith, length-drop {0} d.end text)),
)

redacted-ne-dropped : (o : Option Text) → Option.map redacted o ≢ some dropped
redacted-ne-dropped none e = cc
redacted-ne-dropped (some t) e = cc

decide-dropped_iff :
    (text : Text) (ds : List Detection)
    → (decide text ds ≡ some dropped) ↔ (any is_ambiguous ds ≡ true)
unfolding decide
decide-dropped_iff text [] = (λ e. cc, λ e. cc)
decide-dropped_iff text (d ∷ ds) = elim (Bool-cases (any is_ambiguous (d ∷ ds))) [
  | inl e ↦ (λ _. e, λ _. rw e)
  | inr e ↦
      (λ h. absurd (redacted-ne-dropped (apply_redactions text (d ∷ ds)) (rw e at h)), λ h. cc)
]

-- The text is dropped exactly when some detection is ambiguous.
pub scan-dropped_any :
    (detect_all : Text → Option (List Detection)) (text : Text) (ds : List Detection)
    → detect_all text ≡ some ds
    → (scan detect_all text ≡ some dropped) ↔ (any is_ambiguous ds ≡ true)
unfolding scan
scan-dropped_any detect_all text ds found = rw found (decide-dropped_iff text ds)

-- A text whose detections are in order, separate, on character boundaries and not ambiguous comes out
-- as its mask.
scan-eq-mask :
    (detect_all : Text → Option (List Detection)) (text : Text) (d : Detection)
    (ds : List Detection)
    → detect_all text ≡ some (d ∷ ds)
    → any is_ambiguous (d ∷ ds) ≡ false
    → Separate text 0 (d ∷ ds)
    → is_char_boundary text 0 ≡ true
    → scan detect_all text ≡ some (redacted (mask 0 text (d ∷ ds)))
unfolding scan decide
scan-eq-mask detect_all text d ds found sure sep starts =
    rw found (rw sure (rw (apply_redactions-eq-mask text (d ∷ ds) sep starts)))
