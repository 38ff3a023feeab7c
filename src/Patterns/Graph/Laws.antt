-- ===== src/Patterns/Graph/Laws.antt =====
-- The nodes are the keys of the events, each once; an edge counts its transitions.
use hidden_steps.Prelude.{
  Bool, Bool-cases, List, Option, Text, [], and-true, any, arith, false, if◌then◌else◌, inl, inr,
  map, refl, subst, sym, text_eq, text_eq_iff, text_eq_refl, true, ℕ, ◌%◌, ◌&&◌, ◌++◌, ◌+◌, ◌<◌,
  ◌^◌, ◌||◌, ◌∙◌, ◌∷◌, ◌≡◌,
}
use hidden_steps.Json.{Json}
use hidden_steps.HashMap.{HashOrder}
use hidden_steps.Domain.Signal.{EventSummary}
use hidden_steps.Patterns.Key.{action_key}
use hidden_steps.Patterns.Graph.{
  Weights, add_edge, add_node, build_workflow_graph, contains_key, nodes_from, weights_from,
  with_single,
}

any-append :
    {A : Type 0} (p : A → Bool) (xs ys : List A) → any p (xs ++ ys) ≡ (any p xs || any p ys)
any-append p [] ys = refl
any-append p (x ∷ xs) ys = ground (arith, any-append p xs ys)

same_key :
    (nodes : List Text) (a k : Text)
    → contains_key nodes a ≡ true
    → text_eq a k ≡ true
    → contains_key nodes k ≡ true
same_key nodes a k h e = subst (λ x. contains_key nodes x ≡ true) ((text_eq_iff a k).0 e) h

contains_key-add_node :
    (nodes : List Text) (a k : Text)
    → contains_key (add_node nodes a) k ≡ (contains_key nodes k || text_eq a k)
unfolding add_node contains_key
contains_key-add_node nodes a k = elim (Bool-cases (contains_key nodes a)) [
  | inl h ↦ elim (Bool-cases (text_eq a k)) [
    | inl e ↦ rw h (ground (arith, same_key nodes a k h e, e))
    | inr e ↦ rw h (ground (arith, e))
  ]
  | inr h ↦ rw h (ground (arith, any-append (λ n. text_eq n k) nodes (a ∷ [])))
]

contains_key-nodes_from :
    (nodes : List Text) (a b : Text) (keys : List Text) (k : Text)
    → contains_key (nodes_from nodes (a ∷ b ∷ keys)) k
      ≡ (contains_key nodes k || any (λ n. text_eq n k) (a ∷ b ∷ keys))
unfolding nodes_from
contains_key-nodes_from nodes a b [] k =
    ground (arith, contains_key-add_node (add_node nodes a) b k, contains_key-add_node nodes a k)
contains_key-nodes_from nodes a b (c ∷ keys) k = ground (
  arith,
  contains_key-nodes_from (add_node (add_node nodes a) b) b c keys k,
  contains_key-add_node (add_node nodes a) b k,
  contains_key-add_node nodes a k,
)

contains_key-with_single :
    (keys : List Text) (k : Text)
    → contains_key (with_single (nodes_from [] keys) keys) k ≡ any (λ n. text_eq n k) keys
unfolding with_single nodes_from contains_key
contains_key-with_single [] k = refl
contains_key-with_single (a ∷ []) k = refl
contains_key-with_single (a ∷ b ∷ keys) k = contains_key-nodes_from [] a b keys k

-- The nodes of the graph are exactly the keys of the events.
nodes-eq-keys :
    (j : Json) (extension : Text → Option Text) (hash : HashOrder)
    (events : List (EventSummary j.Value)) (k : Text)
    → contains_key (build_workflow_graph j extension hash events).nodes k
      ≡ any (λ n. text_eq n k) (map (action_key j extension) events)
unfolding build_workflow_graph
nodes-eq-keys j extension hash events k =
    contains_key-with_single (map (action_key j extension) events) k

-- How often the second key follows the first.
abbrev pub transitions : Text → Text → List Text → ℕ
transitions a b [] = 0
transitions a b (c ∷ []) = 0
transitions a b (c ∷ d ∷ keys) =
    (if text_eq c a && text_eq d b then 1 else 0) + transitions a b (d ∷ keys)

abbrev pub weight_of : Text → Text → Weights → ℕ
weight_of a b [] = 0
weight_of a b ((c, d, n) ∷ weights) =
    if text_eq c a && text_eq d b then n else weight_of a b weights

same_pair : (a b c d : Text) → (text_eq c a && text_eq d b) ≡ true → (c ≡ a) × (d ≡ b)
same_pair a b c d h =
    let both = and-true (text_eq c a) (text_eq d b) h in
    ((text_eq_iff c a).0 both.0, (text_eq_iff d b).0 both.1)

other_pair :
    (a b c d e f : Text)
    → (text_eq e c && text_eq f d) ≡ false
    → (text_eq e a && text_eq f b) ≡ true
    → (text_eq c a && text_eq d b) ≡ false
other_pair a b c d e f ne h = elim (Bool-cases (text_eq c a && text_eq d b)) [
  | inr apart ↦ apart
  | inl hit ↦
      let p = same_pair a b e f h in
      let q = same_pair a b c d hit in
      absurd (
        ground (
          arith,
          text_eq_refl c,
          text_eq_refl d,
          rw (p.0 ∙ sym q.0) at ne,
          rw (p.1 ∙ sym q.1) at ne,
        ))
]

add_edge_here :
    (t : Bool) (n w : ℕ)
    → (if t then n else w) < 2 ^ 32
    → (if t then (n + 1) % 2 ^ 32 else w) ≡ ((if t then n else w) + (if t then 1 else 0)) % 2 ^ 32
add_edge_here true n w h = refl
add_edge_here false n w h = omega (arith, h)

weight_of-add_edge :
    (a b c d : Text) (weights : Weights)
    → weight_of a b weights < 2 ^ 32
    → weight_of a b (add_edge weights c d)
      ≡ (weight_of a b weights + (if text_eq c a && text_eq d b then 1 else 0)) % 2 ^ 32
unfolding add_edge
weight_of-add_edge a b c d [] h = ground arith
weight_of-add_edge a b c d ((e, f, n) ∷ weights) h =
    elim (Bool-cases (text_eq e c && text_eq f d)) [
      | inl hit ↦
          let p = same_pair c d e f hit in
          rw hit (
            rw (← p.0)
              (rw (← p.1) (add_edge_here (text_eq e a && text_eq f b) n (weight_of a b weights) h)))
      | inr other ↦ rw other (elim (Bool-cases (text_eq e a && text_eq f b)) [
        | inl here ↦ rw here (rw (other_pair a b c d e f other here) (omega (arith, rw here at h)))
        | inr there ↦ rw there (weight_of-add_edge a b c d weights (rw there at h))
      ])
    ]

weight_of-weights_from :
    (a b : Text) (weights : Weights) (keys : List Text)
    → weight_of a b weights < 2 ^ 32
    → weight_of a b (weights_from weights keys)
      ≡ (weight_of a b weights + transitions a b keys) % 2 ^ 32
unfolding weights_from
weight_of-weights_from a b weights [] h = omega (arith, h)
weight_of-weights_from a b weights (c ∷ []) h = omega (arith, h)
weight_of-weights_from a b weights (c ∷ d ∷ keys) h =
    let step = weight_of-add_edge a b c d weights h in
    omega (
      arith,
      weight_of-weights_from a b (add_edge weights c d) (d ∷ keys) (omega (arith, step)),
      step,
    )

-- The weight kept for a transition is the number of times that it occurs in the history, modulo
-- 2 ^ 32.
pub weight_of-eq-transitions :
    (a b : Text) (keys : List Text)
    → weight_of a b (weights_from [] keys) ≡ transitions a b keys % 2 ^ 32
weight_of-eq-transitions a b keys = omega (arith, weight_of-weights_from a b [] keys (omega arith))
