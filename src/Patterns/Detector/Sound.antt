-- ===== src/Patterns/Detector/Sound.antt =====
-- Detection never panics, and what it reports really recurs in the history.
use hidden_steps.Prelude.{
  All, All-append, All-map, Bool-cases, List, Option, Option-cases, Text, [], ap, arith, drop, each,
  inl, inr, leb, length, length-drop, length-take, ltb, max, min, refl, some, suc, ℕ, ◌++◌, ◌==◌,
  ◌||◌, ◌∷◌, ◌≡◌, ◌≤◌,
}
use hidden_steps.Json.{Json}
use hidden_steps.HashMap.{All-Reordered, HashOrder}
use hidden_steps.Float.{Float}
use hidden_steps.Domain.Signal.{EventSummary}
use hidden_steps.Patterns.Key.{action_key, signature_contains_verbatim}
use hidden_steps.Patterns.Select.{Occurrence, select_non_overlapping}
use hidden_steps.Patterns.Select.Greedy.{Apart, select_non_overlapping-Apart}
use hidden_steps.Patterns.Groups.Laws.{IsGroup, IsWindow, windows_by_signature-IsGroup}
use hidden_steps.Patterns.Detector.{
  DetectedPattern, PatternDetector, as_u32, contributing, detect, detect_for_window, detect_sizes,
  ends_at, first, greatest, last, least, new_pattern, pattern_of, patterns_of, sizes, span_minutes,
  starts_at,
}
use hidden_steps.Patterns.Select.Kept.{length-select, select_non_overlapping-All}
use hidden_steps.Patterns.Groups.{windows_by_signature}

-- A step that yields a result.
abbrev Yields : {A B : Type 0} → (A → Option B) → A → Type 0
Yields {B = B} f a = (b : B) × (f a ≡ some b)

each-Yields :
    {A B : Type 0} (f : A → Option B) (xs : List A)
    → All (Yields f) xs
    → (ys : List B) × (each f xs ≡ some ys) × (length ys ≡ length xs)
each-Yields f [] h = ([], refl, refl)
each-Yields f (x ∷ xs) h =
    let rest = each-Yields f xs h.1 in (h.0.0 ∷ rest.0, rw h.0.1 (rw rest.1 refl), ap suc rest.2)

least-Yields : (xs : List ℕ) → 1 ≤ length xs → Yields least xs
unfolding least
least-Yields [] h = absurd (omega arith)
least-Yields (x ∷ xs) h = elim (Option-cases (least xs)) [
  | inl e ↦ (x, rw e refl)
  | inr e ↦ (min x e.0, rw e.1 refl)
]

greatest-Yields : (xs : List ℕ) → 1 ≤ length xs → Yields greatest xs
unfolding greatest
greatest-Yields [] h = absurd (omega arith)
greatest-Yields (x ∷ xs) h = elim (Option-cases (greatest xs)) [
  | inl e ↦ (x, rw e refl)
  | inr e ↦ (max x e.0, rw e.1 refl)
]

first-Yields : {A : Type 0} (xs : List A) → 1 ≤ length xs → Yields first xs
unfolding first
first-Yields [] h = absurd (omega arith)
first-Yields (x ∷ xs) h = (x, refl)

last-Yields : {A : Type 0} (xs : List A) → 1 ≤ length xs → Yields last xs
unfolding last
last-Yields [] h = absurd (omega arith)
last-Yields (x ∷ []) h = (x, refl)
last-Yields (x ∷ y ∷ xs) h = last-Yields (y ∷ xs) (omega arith)

module _ (f : Float) (j : Json) (extension : Text → Option Text) (hash : HashOrder)
    (seconds_between : ℕ → ℕ → f.F) (detector : PatternDetector)
    (events : List (EventSummary j.Value)) where
  -- What a reported pattern stands for: windows of the history that do not overlap, at least as
  -- many as asked for, each with the pattern's signature; they give the count and the event ids.
  pub record IsPattern (window : ℕ) (p : DetectedPattern f.F) : Type 0 where
    pub occurrences : List (Occurrence (EventSummary j.Value))
    pub windows : All (IsWindow (action_key j extension) events window p.signature) occurrences
    pub apart : Apart occurrences
    pub enough : detector.min_occurrences ≤ p.occurrence_count
    pub counted : p.occurrence_count ≡ as_u32 (length occurrences)
    pub ids : p.contributing_event_ids ≡ contributing occurrences
    pub verbatim : p.contains_verbatim_strings ≡ signature_contains_verbatim p.signature

  slice-filled :
      (window : ℕ) (signature : List Text) (o : Occurrence (EventSummary j.Value))
      → 1 ≤ window
      → IsWindow (action_key j extension) events window signature o
      → 1 ≤ length o.slice
  slice-filled window signature o h w = rw w.contents (
      rw
        (length-take window (drop o.start events)
          (omega (arith, length-drop o.start events, w.fits)))
        h)

  window-starts :
      (window : ℕ) (signature : List Text)
      → 1 ≤ window
      → (o : Occurrence (EventSummary j.Value))
      → IsWindow (action_key j extension) events window signature o
      → Yields (starts_at f j seconds_between) o
  unfolding starts_at
  window-starts window signature h o w =
      let found = first-Yields o.slice (slice-filled window signature o h w) in
      (found.0.occurred_at, rw found.1 refl)

  window-ends :
      (window : ℕ) (signature : List Text)
      → 1 ≤ window
      → (o : Occurrence (EventSummary j.Value))
      → IsWindow (action_key j extension) events window signature o
      → Yields (ends_at f j seconds_between) o
  unfolding ends_at
  window-ends window signature h o w =
      let found = last-Yields o.slice (slice-filled window signature o h w) in
      (found.0.occurred_at, rw found.1 refl)

  window-span :
      (window : ℕ) (signature : List Text)
      → 1 ≤ window
      → (o : Occurrence (EventSummary j.Value))
      → IsWindow (action_key j extension) events window signature o
      → Yields (span_minutes f j seconds_between) o
  unfolding span_minutes
  window-span window signature h o w =
      let started = window-starts window signature h o w in
      let ended = window-ends window signature h o w in
      (f.div (seconds_between ended.0 started.0) (f.of_ℕ 60), rw ended.1 (rw started.1 refl))

  pattern_of-IsPattern :
      (window : ℕ) (signature : List Text) (os : List (Occurrence (EventSummary j.Value)))
      → 1 ≤ window
      → 1 ≤ length os
      → All (IsWindow (action_key j extension) events window signature) os
      → Apart os
      → detector.min_occurrences ≤ as_u32 (length os)
      → (p : DetectedPattern f.F) × (pattern_of f j seconds_between signature os ≡ some p)
        × IsPattern window p
  unfolding pattern_of new_pattern
  pattern_of-IsPattern window signature os size filled windows apart enough =
      let W = IsWindow (action_key j extension) events window signature in
      let starts =
        each-Yields (starts_at f j seconds_between) os
          (All-map W (window-starts window signature size) os windows) in
      let ends =
        each-Yields (ends_at f j seconds_between) os
          (All-map W (window-ends window signature size) os windows) in
      let spans =
        each-Yields (span_minutes f j seconds_between) os
          (All-map W (window-span window signature size) os windows) in
      let from = least-Yields starts.0 (omega (arith, starts.2, filled)) in
      let to = greatest-Yields ends.0 (omega (arith, ends.2, filled)) in
      (
        new_pattern f j seconds_between signature os from.0 to.0 spans.0,
        rw starts.1 (rw from.1 (rw ends.1 (rw to.1 (rw spans.1 refl)))),
        record {
          occurrences = os;
          windows = windows;
          apart = apart;
          enough = enough;
          counted = refl;
          ids = refl;
          verbatim = refl;
        },
      )

  patterns_of-IsPattern :
      (window : ℕ)
      → 1 ≤ window
      → (groups : List (List Text × List (Occurrence (EventSummary j.Value))))
      → All (IsGroup (action_key j extension) events window) groups
      → (ps : List (DetectedPattern f.F)) × (patterns_of f j seconds_between
            detector.min_occurrences groups
          ≡ some ps)
        × All (λ p. (w : ℕ) × IsPattern w p) ps
  unfolding patterns_of
  patterns_of-IsPattern window size [] h = ([], refl, tt)
  patterns_of-IsPattern window size ((signature, os) ∷ groups) h =
      let rest = patterns_of-IsPattern window size groups h.1 in
      elim (Bool-cases
        (leb detector.min_occurrences (as_u32 (length (select_non_overlapping os))))) [
          | inr e ↦ (rest.0, rw e rest.1, rest.2)
          | inl e ↦
              let one =
                pattern_of-IsPattern window signature (select_non_overlapping os) size
                  (length-select os h.0.0)
                  (select_non_overlapping-All
                    (IsWindow (action_key j extension) events window signature) os h.0.1)
                  (select_non_overlapping-Apart os) (ground arith) in
              (one.0 ∷ rest.0, rw e (rw one.1 (rw rest.1 refl)), ((window, one.2), rest.2))
        ]

  detect_sizes-IsPattern :
      (windows : List ℕ)
      → (ps : List (DetectedPattern f.F)) × (detect_sizes f j extension seconds_between hash
            detector events windows
          ≡ some ps)
        × All (λ p. (w : ℕ) × IsPattern w p) ps
  unfolding detect_sizes detect_for_window
  detect_sizes-IsPattern [] = ([], refl, tt)
  detect_sizes-IsPattern (window ∷ windows) =
      let rest = detect_sizes-IsPattern windows in
      elim (Bool-cases ((window == 0) || ltb (length events) window)) [
        | inl e ↦ (rest.0, rw e rest.1, rest.2)
        | inr e ↦
            let groups = windows_by_signature (action_key j extension) events window in
            let one = patterns_of-IsPattern window (ground arith) (hash.order groups) (
              All-Reordered (IsGroup (action_key j extension) events window)
                (hash.order-Reordered groups)
                (windows_by_signature-IsGroup (action_key j extension) events window
                  (ground arith))) in
            (
              one.0 ++ rest.0,
              rw e (rw one.1 (rw rest.1 refl)),
              All-append (λ p. (w : ℕ) × IsPattern w p) one.0 rest.0 one.2 rest.2,
            )
      ]

  -- For every range of window sizes, every fewest number of occurrences, even none, and every
  -- iteration order, detection returns, and each pattern that it reports stands for windows of the
  -- history that have its signature and do not overlap, at least as many as asked for.
  pub detect-IsPattern :
      (ps : List (DetectedPattern f.F)) × (detect f j extension seconds_between hash detector events
        ≡ some ps)
      × All (λ p. (w : ℕ) × IsPattern w p) ps
  unfolding detect
  detect-IsPattern = detect_sizes-IsPattern (sizes detector)
