-- ===== src/Patterns/Select/Greedy.antt =====
-- The occurrences kept do not overlap, and no choice without overlaps keeps more of them.
use hidden_steps.Prelude.{
  All, All-map, Bool-cases, List, [], arith, inl, inr, leb, leb→le, length, le→leb, suc, ℕ, ◌+◌,
  ◌∷◌, ◌≡◌, ◌≤◌,
}
use hidden_steps.Patterns.Select.{
  Occurrence, insert_by_start, select_from, select_non_overlapping, sort_by_start,
}

module _ {Event : Type 0} where
  -- Each occurrence ends no later than any of those after it starts.
  abbrev pub Apart : List (Occurrence Event) → Type 0
  Apart [] = Unit
  Apart (o ∷ os) = All (λ p. o.start + length o.slice ≤ p.start) os × Apart os

  -- The first list is what is left of the second when some of its elements are taken out.
  pub data Sublist : List (Occurrence Event) → List (Occurrence Event) → Type 0 where
    stop : Sublist [] []
    skip :
        {o : Occurrence Event} {os ps : List (Occurrence Event)}
        → Sublist os ps
        → Sublist os (o ∷ ps)
    keep_one :
        {o : Occurrence Event} {os ps : List (Occurrence Event)}
        → Sublist os ps
        → Sublist (o ∷ os) (o ∷ ps)

  -- Every occurrence starts no later than those after it.
  abbrev pub Sorted : List (Occurrence Event) → Type 0
  Sorted [] = Unit
  Sorted (o ∷ os) = All (λ p. o.start ≤ p.start) os × Sorted os

  select_from-Apart :
      (n : ℕ) (os : List (Occurrence Event))
      → All (λ p. n ≤ p.start) (select_from n os) × Apart (select_from n os)
  unfolding select_from
  select_from-Apart n [] = (tt, tt)
  select_from-Apart n (o ∷ os) = elim (Bool-cases (leb n o.start)) [
    | inl h ↦
        let rest = select_from-Apart (o.start + length o.slice) os in
        rw h (
          (
            leb→le n o.start h,
            All-map (λ p. o.start + length o.slice ≤ p.start)
                (λ p q. omega (arith, q, leb→le n o.start h))
                (select_from (o.start + length o.slice) os) rest.0,
          ),
          rest,
        )
    | inr h ↦ rw h (select_from-Apart n os)
  ]

  -- No two of the occurrences kept overlap, however the windows were given.
  pub select_non_overlapping-Apart :
      (os : List (Occurrence Event)) → Apart (select_non_overlapping os)
  unfolding select_non_overlapping
  select_non_overlapping-Apart os = (select_from-Apart 0 (sort_by_start os)).1

  All-Sublist :
      (P : Occurrence Event → Type 0) {os ps : List (Occurrence Event)}
      → Sublist os ps
      → All P ps
      → All P os
  All-Sublist P stop h = tt
  All-Sublist P (skip s) h = All-Sublist P s h.1
  All-Sublist P (keep_one s) h = (h.0, All-Sublist P s h.1)

  Sublist-tail :
      {c : Occurrence Event} {cs ps : List (Occurrence Event)} → Sublist (c ∷ cs) ps → Sublist cs ps
  Sublist-tail (skip s) = skip (Sublist-tail s)
  Sublist-tail (keep_one s) = skip s

  -- What is left of a choice behind an occurrence that starts no later than its first.
  behind :
      (w n : ℕ) {cs ps : List (Occurrence Event)} (more : List (Occurrence Event))
      → Sublist cs ps
      → All (λ p. n ≤ p.start) ps
      → All (λ p. length p.slice ≡ w) ps
      → Apart cs
      → ((ds : List (Occurrence Event))
          → Sublist ds ps
          → Apart ds
          → All (λ p. n + w ≤ p.start) ds
          → length ds ≤ length more)
      → length cs ≤ suc (length more)
  behind w n {cs = []} more s late sized apart bound = omega arith
  behind w n {cs = c ∷ cs} more s late sized apart bound =
      let c_late = (All-Sublist (λ p. n ≤ p.start) s late).0 in
      let c_sized = (All-Sublist (λ p. length p.slice ≡ w) s sized).0 in
      omega (
        arith,
        bound cs (Sublist-tail s) apart.1 (
            All-map (λ p. c.start + length c.slice ≤ p.start)
              (λ p q. omega (arith, q, c_late, c_sized)) cs apart.0),
      )

  select_from-greatest :
      (w n : ℕ) (ps cs : List (Occurrence Event))
      → Sublist cs ps
      → Sorted ps
      → All (λ p. length p.slice ≡ w) ps
      → Apart cs
      → All (λ p. n ≤ p.start) cs
      → length cs ≤ length (select_from n ps)
  unfolding select_from
  select_from-greatest w n [] [] stop sorted sized apart late = omega arith
  select_from-greatest w n [] (d ∷ ds) s sorted sized apart late = elim s [ ]
  select_from-greatest w n (o ∷ ps) (_ ∷ ds) (keep_one t) sorted sized apart late =
      rw (le→leb n o.start late.0) (
        rw sized.0 (
          omega (
            arith,
            select_from-greatest w (o.start + w) ps ds t sorted.1 sized.1 apart.1
                (rw sized.0 at apart.0),
          )))
  select_from-greatest w n (o ∷ ps) cs (skip t) sorted sized apart late =
      elim (Bool-cases (leb n o.start)) [
        | inl h ↦ rw h (
            rw sized.0 (
              behind w o.start (select_from (o.start + w) ps) t sorted.0 sized.1 apart
                λ ds sub far late.
                  select_from-greatest w (o.start + w) ps ds sub sorted.1 sized.1 far late))
        | inr h ↦ rw h (select_from-greatest w n ps cs t sorted.1 sized.1 apart late)
      ]

  from_0 : (cs : List (Occurrence Event)) → All (λ p. 0 ≤ p.start) cs
  from_0 [] = tt
  from_0 (c ∷ cs) = (omega arith, from_0 cs)

  insert_by_start-All :
      (P : Occurrence Event → Type 0) (o : Occurrence Event) (os : List (Occurrence Event))
      → P o
      → All P os
      → All P (insert_by_start o os)
  unfolding insert_by_start
  insert_by_start-All P o [] po h = (po, h)
  insert_by_start-All P o (p ∷ os) po h = elim (Bool-cases (leb o.start p.start)) [
    | inl e ↦ rw e (po, h)
    | inr e ↦ rw e (h.0, insert_by_start-All P o os po h.1)
  ]

  insert_by_start-Sorted :
      (o : Occurrence Event) (os : List (Occurrence Event))
      → Sorted os
      → Sorted (insert_by_start o os)
  unfolding insert_by_start
  insert_by_start-Sorted o [] h = (tt, tt)
  insert_by_start-Sorted o (p ∷ os) h = elim (Bool-cases (leb o.start p.start)) [
    | inl e ↦
        let le = leb→le o.start p.start e in
        rw e ((le, All-map (λ q. p.start ≤ q.start) (λ q r. omega (arith, le, r)) os h.0), h)
    | inr e ↦ rw e (
      insert_by_start-All (λ q. p.start ≤ q.start) o os (ground arith) h.0,
      insert_by_start-Sorted o os h.1,
    )
  ]

  pub sort_by_start-All :
      (P : Occurrence Event → Type 0) (os : List (Occurrence Event))
      → All P os
      → All P (sort_by_start os)
  unfolding sort_by_start
  sort_by_start-All P [] h = tt
  sort_by_start-All P (o ∷ os) h =
      insert_by_start-All P o (sort_by_start os) h.0 (sort_by_start-All P os h.1)

  sort_by_start-Sorted : (os : List (Occurrence Event)) → Sorted (sort_by_start os)
  unfolding sort_by_start
  sort_by_start-Sorted [] = tt
  sort_by_start-Sorted (o ∷ os) =
      insert_by_start-Sorted o (sort_by_start os) (sort_by_start-Sorted os)

  -- Of windows that all have the same length, no choice without overlaps is larger than the one
  -- that is made.
  pub select_non_overlapping-greatest :
      (w : ℕ) (os cs : List (Occurrence Event))
      → All (λ p. length p.slice ≡ w) os
      → Sublist cs (sort_by_start os)
      → Apart cs
      → length cs ≤ length (select_non_overlapping os)
  unfolding select_non_overlapping
  select_non_overlapping-greatest w os cs sized s apart =
      select_from-greatest w 0 (sort_by_start os) cs s (sort_by_start-Sorted os)
        (sort_by_start-All (λ p. length p.slice ≡ w) os sized) apart (from_0 cs)
