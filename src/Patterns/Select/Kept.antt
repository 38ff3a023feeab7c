-- ===== src/Patterns/Select/Kept.antt =====
-- What holds of all windows holds of those kept, and of a filled group some are kept.
use hidden_steps.Prelude.{
  All, Bool-cases, List, [], arith, inl, inr, leb, length, le→leb, ℕ, ◌+◌, ◌∷◌, ◌≤◌,
}
use hidden_steps.Patterns.Select.{
  Occurrence, insert_by_start, select_from, select_non_overlapping, sort_by_start,
}
use hidden_steps.Patterns.Select.Greedy.{sort_by_start-All}

module _ {Ev : Type 0} where
  select_from-All :
      (P : Occurrence Ev → Type 0) (n : ℕ) (os : List (Occurrence Ev))
      → All P os
      → All P (select_from n os)
  unfolding select_from
  select_from-All P n [] h = tt
  select_from-All P n (o ∷ os) h = elim (Bool-cases (leb n o.start)) [
    | inl e ↦ rw e (h.0, select_from-All P (o.start + length o.slice) os h.1)
    | inr e ↦ rw e (select_from-All P n os h.1)
  ]

  pub select_non_overlapping-All :
      (P : Occurrence Ev → Type 0) (os : List (Occurrence Ev))
      → All P os
      → All P (select_non_overlapping os)
  unfolding select_non_overlapping
  select_non_overlapping-All P os h =
      select_from-All P 0 (sort_by_start os) (sort_by_start-All P os h)

  length-insert :
      (o : Occurrence Ev) (os : List (Occurrence Ev)) → 1 ≤ length (insert_by_start o os)
  unfolding insert_by_start
  length-insert o [] = omega arith
  length-insert o (p ∷ os) = elim (Bool-cases (leb o.start p.start)) [
    | inl e ↦ rw e (omega arith)
    | inr e ↦ rw e (omega arith)
  ]

  length-sort : (os : List (Occurrence Ev)) → 1 ≤ length os → 1 ≤ length (sort_by_start os)
  unfolding sort_by_start
  length-sort [] h = absurd (omega arith)
  length-sort (o ∷ os) h = length-insert o (sort_by_start os)

  length-select_from : (os : List (Occurrence Ev)) → 1 ≤ length os → 1 ≤ length (select_from 0 os)
  unfolding select_from
  length-select_from [] h = absurd (omega arith)
  length-select_from (o ∷ os) h = rw (le→leb 0 o.start (omega arith)) (omega arith)

  pub length-select :
      (os : List (Occurrence Ev)) → 1 ≤ length os → 1 ≤ length (select_non_overlapping os)
  unfolding select_non_overlapping
  length-select os h = length-select_from (sort_by_start os) (length-sort os h)
