-- ===== src/Store/Paired.antt =====
-- The rows of a table beside the values that they stand for, and what queries and deletions do to
-- both.
use hidden_steps.Prelude.{
  Bool, Bool-cases, List, Result, [], inl, inr, keep, ok, refl, ◌++◌, ◌∷◌, ◌≡◌,
}
use hidden_steps.HashMap.{Reordered, chain, done, same, swap}
use hidden_steps.Store.{EventStoreError, collect}

pub data Paired {A B : Type 0} (R : A → B → Type 0) : List A → List B → Type 0 where
  no_pair : Paired R [] []
  pair :
      {x : A} {y : B} {xs : List A} {ys : List B}
      → R x y
      → Paired R xs ys
      → Paired R (x ∷ xs) (y ∷ ys)

module _ {A B : Type 0} {R : A → B → Type 0} where
  pub Paired-keep :
      (p : A → Bool) (q : B → Bool)
      → ((x : A) (y : B) → R x y → p x ≡ q y)
      → {xs : List A} {ys : List B} → Paired R xs ys
      → Paired R (keep p xs) (keep q ys)
  Paired-keep p q agree no_pair = no_pair
  Paired-keep p q agree (pair {x = x} {y = y} r rest) = elim (Bool-cases (q y)) [
    | inl kept ↦ rw (agree x y r) (rw kept (pair r (Paired-keep p q agree rest)))
    | inr gone ↦ rw (agree x y r) (rw gone (Paired-keep p q agree rest))
  ]

  pub Paired-append :
      {xs more : List A} {ys others : List B}
      → Paired R xs ys
      → Paired R more others
      → Paired R (xs ++ more) (ys ++ others)
  Paired-append no_pair k = k
  Paired-append (pair r rest) k = pair r (Paired-append rest k)

  -- Rows in another order stand for the values in that order.
  pub Paired-Reordered :
      {xs sorted : List A}
      → Reordered xs sorted
      → {ys : List B} → Paired R xs ys
      → (zs : List B) × Reordered ys zs × Paired R sorted zs
  Paired-Reordered done no_pair = ([], done, no_pair)
  Paired-Reordered (same order) (pair {y = y} r rest) =
      let (zs, reordered, paired) = Paired-Reordered order rest in
      (y ∷ zs, same reordered, pair r paired)
  Paired-Reordered swap (pair {y = y} r (pair {y = z} {ys = ys} s rest)) =
      (z ∷ y ∷ ys, swap, pair s (pair r rest))
  Paired-Reordered (chain first second) h =
      let (zs, to_zs, middle) = Paired-Reordered first h in
      let (ws, to_ws, last) = Paired-Reordered second middle in (ws, chain to_zs to_ws, last)

  pub collect-Paired :
      (f : A → Result B EventStoreError)
      → ((x : A) (y : B) → R x y → f x ≡ ok y)
      → {xs : List A} {ys : List B} → Paired R xs ys
      → collect f xs ≡ ok ys
  unfolding collect
  collect-Paired f reads no_pair = refl
  collect-Paired f reads (pair {x = x} {y = y} r rest) =
      rw (reads x y r) (rw (collect-Paired f reads rest) refl)
