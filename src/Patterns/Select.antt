-- ===== src/Patterns/Select.antt =====
-- crates/patterns/src/detector.rs: `select_non_overlapping`.
pub mod Greedy
pub mod Kept
use hidden_steps.Prelude.{List, [], if◌then◌else◌, leb, length, ℕ, ◌+◌, ◌∷◌}

-- A window of the history; `slice` is the events in it.
pub record Occurrence (Event : Type 0) : Type 0 where
  pub start : ℕ
  pub slice : List Event

module _ {Event : Type 0} where
  -- `sort_by_key(|o| o.start)`, which is stable: an earlier occurrence goes in front of its equals.
  pub insert_by_start : Occurrence Event → List (Occurrence Event) → List (Occurrence Event)
  insert_by_start o [] = o ∷ []
  insert_by_start o (p ∷ os) =
      let rest = insert_by_start o os in if leb o.start p.start then o ∷ p ∷ os else p ∷ rest

  unfoldable pub sort_by_start : List (Occurrence Event) → List (Occurrence Event)
  unfolding insert_by_start
  sort_by_start [] = []
  sort_by_start (o ∷ os) = insert_by_start o (sort_by_start os)

  -- The loop: the occurrences taken that start at `next_allowed_start` or later.
  pub select_from : ℕ → List (Occurrence Event) → List (Occurrence Event)
  select_from next_allowed_start [] = []
  select_from next_allowed_start (o ∷ os) =
      let taken = select_from (o.start + length o.slice) os in
      let skipped = select_from next_allowed_start os in
      if leb next_allowed_start o.start then o ∷ taken else skipped

  unfoldable pub select_non_overlapping : List (Occurrence Event) → List (Occurrence Event)
  unfolding sort_by_start select_from
  select_non_overlapping occurrences = select_from 0 (sort_by_start occurrences)
