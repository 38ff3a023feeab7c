-- ===== src/Redaction/Detect/Sort.antt =====
-- The detections come in the order of their starts.
use hidden_steps.Prelude.{
  All, Bool-cases, List, Text, [], and_then-eq-some, arith, inl, inr, leb, leb→le, some, some_inj,
  subst, ℕ, ◌∷◌, ◌≡◌, ◌≤◌,
}
use hidden_steps.Float.{Float}
use hidden_steps.Redaction.{Detection}
use hidden_steps.Redaction.Detect.{
  Matchers, dashless_detections, detect_all, insert_by_start, sort_by_start, unsorted,
}

-- Starts that do not fall, from `low` on.
abbrev pub InOrder : ℕ → List Detection → Type 0
InOrder low [] = Unit
InOrder low (d ∷ ds) = (low ≤ d.start) × InOrder d.start ds

InOrder-insert :
    (d : Detection) (l : List Detection) (low : ℕ)
    → low ≤ d.start
    → InOrder low l
    → InOrder low (insert_by_start d l)
unfolding insert_by_start
InOrder-insert d [] low h o = (h, tt)
InOrder-insert d (e ∷ l) low h o = elim (Bool-cases (leb d.start e.start)) [
  | inl first ↦ rw first (h, (leb→le d.start e.start first, o.1))
  | inr later ↦ rw later (o.0, InOrder-insert d l e.start (ground arith) o.1)
]

InOrder-sort : (ds : List Detection) → InOrder 0 (sort_by_start ds)
unfolding sort_by_start
InOrder-sort [] = tt
InOrder-sort (d ∷ ds) = InOrder-insert d (sort_by_start ds) 0 (omega arith) (InOrder-sort ds)

module _ (P : Detection → Type 0) where
  All-insert : (d : Detection) (l : List Detection) → P d → All P l → All P (insert_by_start d l)
  unfolding insert_by_start
  All-insert d [] p h = (p, tt)
  All-insert d (e ∷ l) p h = elim (Bool-cases (leb d.start e.start)) [
    | inl first ↦ rw first (p, h)
    | inr later ↦ rw later (h.0, All-insert d l p h.1)
  ]

  pub All-sort : (ds : List Detection) → All P ds → All P (sort_by_start ds)
  unfolding sort_by_start
  All-sort [] h = tt
  All-sort (d ∷ ds) h = All-insert d (sort_by_start ds) h.0 (All-sort ds h.1)

-- What `detect_all` returns is the sorted list of what was found.
pub detect_all_sorts :
    (fl : Float) (m : Matchers) (text : Text) (ds : List Detection)
    → detect_all fl m text ≡ some ds
    → (dashless : List Detection) × (dashless_detections text (m.ssn_dashless text) ≡ some dashless)
      × (sort_by_start (unsorted fl m text dashless) ≡ ds)
unfolding detect_all
detect_all_sorts fl m text ds h =
    let (dashless, found, sorted) =
      and_then-eq-some (dashless_detections text (m.ssn_dashless text)) _ h in
    (dashless, found, some_inj sorted)

-- What `detect_all` returns is in the order of the starts, as the redaction loop relies on.
detect_all-InOrder :
    (fl : Float) (m : Matchers) (text : Text) (ds : List Detection)
    → detect_all fl m text ≡ some ds
    → InOrder 0 ds
detect_all-InOrder fl m text ds h =
    let (dashless, found, sorted) = detect_all_sorts fl m text ds h in
    subst (InOrder 0) sorted (InOrder-sort (unsorted fl m text dashless))
