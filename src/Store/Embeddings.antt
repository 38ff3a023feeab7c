-- ===== src/Store/Embeddings.antt =====
-- crates/event-store/src/store.rs: embeddings as bytes, and the search for similar patterns.
pub mod Laws
use hidden_steps.Prelude.{
  Bool, List, Result, [], err, if◌then◌else◌, length, map, not, ok, take, zero, ℕ, ◌&&◌, ◌==◌, ◌||◌,
  ◌∷◌, ◌≡◌,
}
use hidden_steps.Float.{Float}
use hidden_steps.Store.{EmbeddingRow, EventStore, EventStoreError, foreign_key_failed}
use hidden_steps.Store.Patterns.{pattern_exists}

-- `f32::to_le_bytes` and `from_le_bytes`
pub record FourBytes (F : Type 0) : Type 0 where
  pub to_le_bytes : F → ℕ × ℕ × ℕ × ℕ
  pub from_le_bytes : ℕ × ℕ × ℕ × ℕ → F
  pub from_le_bytes-to_le_bytes : (x : F) → from_le_bytes (to_le_bytes x) ≡ x

module _ {F : Type 0} (bytes : FourBytes F) where
  unfoldable pub encode_embedding : List F → List ℕ
  encode_embedding [] = []
  encode_embedding (x ∷ xs) =
      let (a, b, c, d) = bytes.to_le_bytes x in a ∷ b ∷ c ∷ d ∷ encode_embedding xs

  -- `chunks_exact(4)` leaves out what is after the last four.
  unfoldable pub decode_embedding : List ℕ → List F
  decode_embedding (a ∷ b ∷ c ∷ d ∷ rest) = bytes.from_le_bytes (a, b, c, d) ∷ decode_embedding rest
  decode_embedding _ = []

  -- `INSERT ... ON CONFLICT(pattern_id) DO UPDATE`
  unfoldable pub upsert_embedding : EmbeddingRow → List EmbeddingRow → List EmbeddingRow
  upsert_embedding row [] = row ∷ []
  upsert_embedding row (r ∷ rows) =
      let rest = upsert_embedding row rows in
      if r.pattern_id == row.pattern_id then row ∷ rows else r ∷ rest

  unfoldable pub upsert_pattern_embedding :
      ℕ → List F → EventStore F → Result (Unit {0}) EventStoreError × EventStore F
  unfolding encode_embedding upsert_embedding pattern_exists
  upsert_pattern_embedding pattern_id embedding store =
      if pattern_exists pattern_id store
      then (
        ok tt,
        record store {
          pattern_embeddings =
              upsert_embedding
                (record {
                  pattern_id = pattern_id;
                  embedding = encode_embedding embedding;
                  dimensions = length embedding;
                })
                store.pattern_embeddings;
        },
      )
      else (err foreign_key_failed, store)

module _ (float : Float) where
  -- `a.iter().zip(b).map(|(x, y)| x * y)`
  unfoldable pub products : List float.F → List float.F → List float.F
  products (x ∷ xs) (y ∷ ys) = float.mul x y ∷ products xs ys
  products _ _ = []

  unfoldable pub cosine_similarity : List float.F → List float.F → float.F
  unfolding products
  cosine_similarity a b =
      let zero = float.of_ℕ 0 in
      let norm_a = float.sqrt (float.sum (products a a)) in
      let norm_b = float.sqrt (float.sum (products b b)) in
      if not (length a == length b) || length a == 0
      then zero
      else if float.equal norm_a zero || float.equal norm_b zero
      then zero
      else float.div (float.sum (products a b)) (float.mul norm_a norm_b)

  -- Whether `partial_cmp` finds the first less; a number that is no number is equal to all.
  unfoldable pub less : float.F → float.F → Bool
  less x y = float.less_eq x y && not (float.less_eq y x)

  -- `sort_by(|a, b| b.1.partial_cmp(&a.1).unwrap_or(Equal))`, which keeps the order of equals: a pair
  -- goes before the first whose similarity is no more than its own.
  unfoldable pub insert_scored : ℕ × float.F → List (ℕ × float.F) → List (ℕ × float.F)
  unfolding less
  insert_scored p [] = p ∷ []
  insert_scored p (q ∷ qs) =
      let rest = insert_scored p qs in if less p.1 q.1 then q ∷ rest else p ∷ q ∷ qs

  unfoldable pub sort_scored : List (ℕ × float.F) → List (ℕ × float.F)
  unfolding insert_scored
  sort_scored [] = []
  sort_scored (p ∷ ps) = insert_scored p (sort_scored ps)

  unfoldable pub scored : FourBytes float.F → List float.F → EmbeddingRow → ℕ × float.F
  unfolding cosine_similarity decode_embedding
  scored bytes query row =
      (row.pattern_id, cosine_similarity query (decode_embedding bytes row.embedding))

  unfoldable pub find_similar_patterns :
      FourBytes float.F
      → List float.F
      → ℕ
      → EventStore float.F
      → Result (List (ℕ × float.F)) EventStoreError
  unfolding sort_scored scored
  find_similar_patterns bytes query top_k store =
      ok (take top_k (sort_scored (map (scored bytes query) store.pattern_embeddings)))
