-- ===== src/Store/Embeddings/Laws.antt =====
-- crates/event-store/src/store.rs: embeddings are read back, and the search ranks all of them.
use hidden_steps.Prelude.{
  Bool-cases, List, [], ap, arith, false, inl, inr, length, map, ok, refl, take, true, ℕ, ◌*◌, ◌∷◌,
  ◌≡◌,
}
use hidden_steps.Float.{Float}
use hidden_steps.HashMap.{Reordered, chain, done, same, swap}
use hidden_steps.Store.{EventStore}
use hidden_steps.Store.Embeddings.{
  FourBytes, decode_embedding, encode_embedding, find_similar_patterns, insert_scored, less, scored,
  sort_scored,
}

-- An embedding is read back from its bytes as it was written, and takes four bytes a number.
pub decode_embedding-encode_embedding :
    {F : Type 0} (bytes : FourBytes F) (vector : List F)
    → (decode_embedding bytes (encode_embedding bytes vector) ≡ vector)
      × (length (encode_embedding bytes vector) ≡ 4 * length vector)
unfolding decode_embedding encode_embedding
decode_embedding-encode_embedding bytes [] = (refl, refl)
decode_embedding-encode_embedding bytes (x ∷ xs) =
    let (back, size) = decode_embedding-encode_embedding bytes xs in
    (rw (bytes.from_le_bytes-to_le_bytes x) (ap (λ l. x ∷ l) back), omega (arith, size))

module _ (float : Float) where
  -- No pair is more similar than the one before it.
  unfoldable pub Ranked : List (ℕ × float.F) → Type 0
  Ranked [] = Unit
  Ranked (p ∷ []) = Unit
  Ranked (p ∷ q ∷ rest) = (less float p.1 q.1 ≡ false) × Ranked (q ∷ rest)

  less-asymmetric : (x y : float.F) → less float x y ≡ true → less float y x ≡ false
  unfolding less
  less-asymmetric x y h = ground arith

  Ranked-insert_scored :
      (p : ℕ × float.F) (ps : List (ℕ × float.F)) → Ranked ps → Ranked (insert_scored float p ps)
  unfolding Ranked insert_scored
  Ranked-insert_scored p [] h = tt
  Ranked-insert_scored p (q ∷ []) h = elim (Bool-cases (less float p.1 q.1)) [
    | inr e ↦ rw e (e, tt)
    | inl e ↦ rw e (less-asymmetric p.1 q.1 e, tt)
  ]
  Ranked-insert_scored p (q ∷ r ∷ rest) h = elim (Bool-cases (less float p.1 q.1)) [
    | inr e ↦ rw e (e, h)
    | inl e ↦ elim (Bool-cases (less float p.1 r.1)) [
      | inr f ↦ rw (e, f) (less-asymmetric p.1 q.1 e, (f, h.1))
      | inl f ↦
          let ranked = Ranked-insert_scored p (r ∷ rest) h.1 in rw (e, f) (h.0, rw f at ranked)
    ]
  ]

  Ranked-sort_scored : (ps : List (ℕ × float.F)) → Ranked (sort_scored float ps)
  unfolding sort_scored Ranked
  Ranked-sort_scored [] = tt
  Ranked-sort_scored (p ∷ ps) =
      Ranked-insert_scored p (sort_scored float ps) (Ranked-sort_scored ps)

  Reordered-refl : (ps : List (ℕ × float.F)) → Reordered ps ps
  Reordered-refl [] = done
  Reordered-refl (p ∷ ps) = same (Reordered-refl ps)

  insert_scored-Reordered :
      (p : ℕ × float.F) (ps : List (ℕ × float.F)) → Reordered (p ∷ ps) (insert_scored float p ps)
  unfolding insert_scored
  insert_scored-Reordered p [] = same done
  insert_scored-Reordered p (q ∷ qs) = elim (Bool-cases (less float p.1 q.1)) [
    | inr e ↦ rw e (Reordered-refl (p ∷ q ∷ qs))
    | inl e ↦ rw e (chain swap (same (insert_scored-Reordered p qs)))
  ]

  sort_scored-Reordered : (ps : List (ℕ × float.F)) → Reordered ps (sort_scored float ps)
  unfolding sort_scored
  sort_scored-Reordered [] = done
  sort_scored-Reordered (p ∷ ps) =
      chain (same (sort_scored-Reordered ps)) (insert_scored-Reordered p (sort_scored float ps))

  -- The search returns the first `top_k` of a list of all stored patterns with their similarities to
  -- the query, in which no pattern is more similar than the one before it.
  pub find_similar_patterns-Ranked :
      (bytes : FourBytes float.F) (query : List float.F) (top_k : ℕ) (store : EventStore float.F)
      → (ranking : List (ℕ × float.F)) × (find_similar_patterns float bytes query top_k store
          ≡ ok (take top_k ranking))
        × Ranked ranking
        × Reordered (map (scored float bytes query) store.pattern_embeddings) ranking
  unfolding find_similar_patterns
  find_similar_patterns-Ranked bytes query top_k store =
      let pairs = map (scored float bytes query) store.pattern_embeddings in
      (sort_scored float pairs, refl, Ranked-sort_scored pairs, sort_scored-Reordered pairs)
