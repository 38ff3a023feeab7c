-- ===== src/Patterns/Groups.antt =====
-- crates/patterns/src/detector.rs: the windows of a history, grouped by their signatures.
pub mod Laws
use hidden_steps.Prelude.{
  Bool, List, Text, [], drop, false, if◌then◌else◌, length, map, suc, take, text_eq, true, zero, ℕ,
  ◌&&◌, ◌++◌, ◌+◌, ◌-◌, ◌∷◌,
}
use hidden_steps.Patterns.Select.{Occurrence}

unfoldable pub texts_eq : List Text → List Text → Bool
texts_eq [] [] = true
texts_eq (s ∷ ss) (t ∷ ts) = text_eq s t && texts_eq ss ts
texts_eq _ _ = false

-- A `HashMap<Vec<String>, Vec<V>>`, as the list of its entries.
abbrev pub Groups : Type 0 → Type 0
Groups V = List (List Text × List V)

-- `groups.entry(k).or_default().push(v)`
unfoldable pub push_to : {V : Type 0} → List Text → V → Groups V → Groups V
unfolding texts_eq
push_to k v [] = (k, v ∷ []) ∷ []
push_to k v ((l, vs) ∷ groups) =
    let rest = push_to k v groups in
    if texts_eq l k then (l, vs ++ (v ∷ [])) ∷ groups else (l, vs) ∷ rest

module _ {Event : Type 0} (events : List Event) (window : ℕ) where
  unfoldable pub occurrence_at : ℕ → Occurrence Event
  occurrence_at start = record { start = start; slice = take window (drop start events) }

module _ {Event : Type 0} (key : Event → Text) (events : List Event) (window : ℕ) where
  -- The loop over `count` windows from `start` on.
  unfoldable pub group_from : ℕ → ℕ → Groups (Occurrence Event) → Groups (Occurrence Event)
  unfolding push_to occurrence_at
  group_from start zero groups = groups
  group_from start (suc count) groups =
      let o = occurrence_at events window start in
      group_from (start + 1) count (push_to (map key o.slice) o groups)

  -- The loop over `0..=(events.len() - window)`.
  unfoldable pub windows_by_signature : Groups (Occurrence Event)
  unfolding group_from
  windows_by_signature = group_from 0 (length events - window + 1) []
