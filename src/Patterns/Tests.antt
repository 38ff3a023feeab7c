-- ===== src/Patterns/Tests.antt =====
-- Patterns in a history of two alternating actions.
use hidden_steps.Prelude.{
  All, List, Option, Text, [], codes, false, keep, length, map, none, refl, some, ℕ, ◌%◌, ◌+◌, ◌-◌,
  ◌^◌, ◌∷◌, ◌≡◌, ◌≤◌,
}
use hidden_steps.Samples.{Node, in_order, member, no_more, object_node, text_node, tree_json, whole}
use hidden_steps.Domain.Signal.{EventSummary, SignalType}
use hidden_steps.Domain.Privacy.{context_aware}
use hidden_steps.Patterns.Key.{action_key}
use hidden_steps.Patterns.Select.{Occurrence, select_non_overlapping, sort_by_start}
use hidden_steps.Patterns.Select.Greedy.{keep_one, select_non_overlapping-greatest, skip, stop}
use hidden_steps.Patterns.Groups.{texts_eq, windows_by_signature}
use hidden_steps.Patterns.Groups.Laws.{values, values-windows_by_signature, windows_from}
use hidden_steps.Patterns.Detector.{DetectedPattern, PatternDetector, detect}
use hidden_steps.Patterns.Detector.Sound.{IsPattern, detect-IsPattern}
use hidden_steps.Patterns.Graph.{weights_from}
use hidden_steps.Patterns.Graph.Laws.{transitions, weight_of, weight_of-eq-transitions}

abbrev event : ℕ → Text → EventSummary Node
event at app = record {
  id = some at;
  occurred_at = at;
  source_id = codes "x11";
  signal_type = SignalType.app_focus_change;
  privacy_level_at_capture = context_aware;
  summary = object_node (member (codes "app") (text_node app) no_more);
  is_deep_mode = false;
  ttl_expires_at = none;
}

abbrev history : List (EventSummary Node)
history = event 1 (codes "a") ∷ event 2 (codes "b") ∷ event 3 (codes "a") ∷ event 4 (codes "b") ∷ []

abbrev no_extension : Text → Option Text
no_extension path = none

abbrev minutes : ℕ → ℕ → ℕ
minutes ended started = ended - started

abbrev twice : PatternDetector
twice = record { first_size = 2; last_size = 2; min_occurrences = 2 }

abbrev window_at : ℕ → Occurrence ℕ
window_at start = record { start = start; slice = 0 ∷ 0 ∷ [] }

abbrev windows : List (Occurrence ℕ)
windows = window_at 0 ∷ window_at 1 ∷ window_at 2 ∷ []

detect-IsPattern_example :
    (ps : List (DetectedPattern ℕ)) × (detect whole tree_json no_extension minutes in_order twice
        history
      ≡ some ps)
    × All
        (λ p. (w : ℕ) × IsPattern whole tree_json no_extension in_order minutes twice history w p)
        ps
detect-IsPattern_example =
    detect-IsPattern whole tree_json no_extension in_order minutes twice history

select_non_overlapping-greatest_example :
    length (window_at 1 ∷ []) ≤ length (select_non_overlapping windows)
unfolding sort_by_start
select_non_overlapping-greatest_example =
    select_non_overlapping-greatest 2 windows (window_at 1 ∷ []) (refl, (refl, (refl, tt)))
      (skip (keep_one (skip stop))) (tt, tt)

abbrev signature : List Text
signature = codes "app_focus_change:a" ∷ codes "app_focus_change:b" ∷ []

values-windows_by_signature_example :
    values signature (windows_by_signature (action_key tree_json no_extension) history 2)
    ≡ keep
        (λ o. texts_eq (map (action_key tree_json no_extension) o.slice) signature)
        (windows_from (action_key tree_json no_extension) history 2 0 (4 - 2 + 1))
values-windows_by_signature_example =
    values-windows_by_signature (action_key tree_json no_extension) history 2 signature

weight_of-eq-transitions_example :
    weight_of (codes "a") (codes "b") (weights_from [] (codes "a" ∷ codes "b" ∷ []))
    ≡ transitions (codes "a") (codes "b") (codes "a" ∷ codes "b" ∷ []) % 2 ^ 32
weight_of-eq-transitions_example =
    weight_of-eq-transitions (codes "a") (codes "b") (codes "a" ∷ codes "b" ∷ [])
