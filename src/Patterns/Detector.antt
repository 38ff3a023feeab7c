-- ===== src/Patterns/Detector.antt =====
-- crates/patterns/src/detector.rs: `PatternDetector`. `none` is a panic. `seconds_between` stands
-- for `(last - first).as_seconds_f64()` of the `time` crate; the iteration order of the map of
-- groups is a parameter.
pub mod Sound
use mathlib.Core.Option
use hidden_steps.Prelude.{
  Bool, List, Option, Text, [], and_then, each, if◌then◌else◌, leb, length, ltb, max, min, none,
  some, suc, zero, ℕ, ◌%◌, ◌++◌, ◌+◌, ◌-◌, ◌==◌, ◌^◌, ◌||◌, ◌∷◌,
}
use hidden_steps.Json.{Json}
use hidden_steps.HashMap.{HashOrder}
use hidden_steps.Float.{Float}
use hidden_steps.Domain.Signal.{EventSummary}
use hidden_steps.Patterns.Key.{action_key, signature_contains_verbatim}
use hidden_steps.Patterns.Select.{Occurrence, select_non_overlapping}
use hidden_steps.Patterns.Groups.{windows_by_signature}

pub record DetectedPattern (F : Type 0) : Type 0 where
  pub signature : List Text
  pub occurrence_count : ℕ
  pub first_seen_at : ℕ
  pub last_seen_at : ℕ
  pub estimated_minutes_per_occurrence : F
  pub contributing_event_ids : List ℕ
  pub contains_verbatim_strings : Bool

-- The inclusive range of window sizes, and the fewest occurrences of a pattern.
pub record PatternDetector : Type 0 where
  pub first_size : ℕ
  pub last_size : ℕ
  pub min_occurrences : ℕ

abbrev pub default_detector : PatternDetector
default_detector = record { first_size = 2; last_size = 5; min_occurrences = 3 }

-- `slice.first()`, `slice.last()`
unfoldable pub first : {A : Type 0} → List A → Option A
first [] = none
first (x ∷ xs) = some x

unfoldable pub last : {A : Type 0} → List A → Option A
last [] = none
last (x ∷ []) = some x
last (x ∷ y ∷ xs) = last (y ∷ xs)

-- `Iterator::min` and `Iterator::max`
unfoldable pub least : List ℕ → Option ℕ
least [] = none
least (x ∷ xs) = elim (least xs) [ none ↦ some x | some m ↦ some (min x m) ]

unfoldable pub greatest : List ℕ → Option ℕ
greatest [] = none
greatest (x ∷ xs) = elim (greatest xs) [ none ↦ some x | some m ↦ some (max x m) ]

-- `slice.iter().filter_map(|e| e.id)`
unfoldable pub ids_of : {Value : Type 0} → List (EventSummary Value) → List ℕ
ids_of [] = []
ids_of (e ∷ es) = elim e.id [ none ↦ ids_of es | some id ↦ id ∷ ids_of es ]

unfoldable pub contributing : {Value : Type 0} → List (Occurrence (EventSummary Value)) → List ℕ
unfolding ids_of
contributing [] = []
contributing (o ∷ os) = ids_of o.slice ++ contributing os

-- `len() as u32`
abbrev pub as_u32 : ℕ → ℕ
as_u32 n = n % 2 ^ 32

-- `start..=last`
unfoldable pub range_from : ℕ → ℕ → List ℕ
range_from start zero = []
range_from start (suc count) = start ∷ range_from (start + 1) count

unfoldable pub sizes : PatternDetector → List ℕ
unfolding range_from
sizes detector = range_from detector.first_size (detector.last_size + 1 - detector.first_size)

module _ (f : Float) (j : Json) (seconds_between : ℕ → ℕ → f.F) where
  unfoldable pub starts_at : Occurrence (EventSummary j.Value) → Option ℕ
  unfolding first
  starts_at o = Option.map (λ e. e.occurred_at) (first o.slice)

  unfoldable pub ends_at : Occurrence (EventSummary j.Value) → Option ℕ
  unfolding last
  ends_at o = Option.map (λ e. e.occurred_at) (last o.slice)

  unfoldable pub span_minutes : Occurrence (EventSummary j.Value) → Option f.F
  unfolding starts_at ends_at
  span_minutes o = and_then (ends_at o) λ ended.
      and_then (starts_at o) λ started. some (f.div (seconds_between ended started) (f.of_ℕ 60))

  unfoldable pub new_pattern :
      List Text → List (Occurrence (EventSummary j.Value)) → ℕ → ℕ → List f.F → DetectedPattern f.F
  unfolding contributing signature_contains_verbatim
  new_pattern signature occurrences first_seen_at last_seen_at spans = record {
    signature = signature;
    occurrence_count = as_u32 (length occurrences);
    first_seen_at = first_seen_at;
    last_seen_at = last_seen_at;
    estimated_minutes_per_occurrence = f.div (f.sum spans) (f.of_ℕ (length occurrences));
    contributing_event_ids = contributing occurrences;
    contains_verbatim_strings = signature_contains_verbatim signature;
  }

  -- The closure that makes a pattern of a signature and its occurrences.
  unfoldable pub pattern_of :
      List Text → List (Occurrence (EventSummary j.Value)) → Option (DetectedPattern f.F)
  unfolding starts_at ends_at span_minutes least greatest new_pattern
  pattern_of signature occurrences =
      and_then (and_then (each starts_at occurrences) least) λ first_seen_at.
        and_then (and_then (each ends_at occurrences) greatest) λ last_seen_at.
          and_then (each span_minutes occurrences)
            λ spans. some (new_pattern signature occurrences first_seen_at last_seen_at spans)

  -- Select, filter and map, entry by entry.
  unfoldable pub patterns_of :
      ℕ
      → List (List Text × List (Occurrence (EventSummary j.Value)))
      → Option (List (DetectedPattern f.F))
  unfolding pattern_of select_non_overlapping
  patterns_of min_occurrences [] = some []
  patterns_of min_occurrences ((signature, all_windows) ∷ groups) =
      let occurrences = select_non_overlapping all_windows in
      let rest = patterns_of min_occurrences groups in
      if leb min_occurrences (as_u32 (length occurrences))
      then and_then (pattern_of signature occurrences) (λ p. and_then rest (λ ps. some (p ∷ ps)))
      else rest

module _ (f : Float) (j : Json) (extension : Text → Option Text) (seconds_between : ℕ → ℕ → f.F)
    (hash : HashOrder) where
  unfoldable pub detect_for_window :
      PatternDetector → List (EventSummary j.Value) → ℕ → Option (List (DetectedPattern f.F))
  unfolding patterns_of windows_by_signature
  detect_for_window detector events window =
      patterns_of f j seconds_between detector.min_occurrences
        (hash.order (windows_by_signature (action_key j extension) events window))

  -- The loop over the window sizes.
  unfoldable pub detect_sizes :
      PatternDetector → List (EventSummary j.Value) → List ℕ → Option (List (DetectedPattern f.F))
  unfolding detect_for_window
  detect_sizes detector events [] = some []
  detect_sizes detector events (window ∷ windows) =
      let rest = detect_sizes detector events windows in
      let found = detect_for_window detector events window in
      if (window == 0) || ltb (length events) window
      then rest
      else and_then found (λ ps. and_then rest (λ qs. some (ps ++ qs)))

  unfoldable pub detect :
      PatternDetector → List (EventSummary j.Value) → Option (List (DetectedPattern f.F))
  unfolding detect_sizes sizes
  detect detector events = detect_sizes detector events (sizes detector)
