-- ===== src/Patterns/Graph.antt =====
-- crates/patterns/src/workflow_graph.rs: the graph of what follows what. Overflow of an edge's
-- weight wraps, as in a release build.
pub mod Laws
use hidden_steps.Prelude.{
  Bool, List, Option, Text, [], any, if◌then◌else◌, keep, map, text_eq, ℕ, ◌%◌, ◌&&◌, ◌++◌, ◌+◌,
  ◌^◌, ◌∷◌,
}
use hidden_steps.Json.{Json}
use hidden_steps.HashMap.{HashOrder}
use hidden_steps.Domain.Signal.{EventSummary}
use hidden_steps.Patterns.Key.{action_key}

pub record WorkflowEdge : Type 0 where
  pub from : Text
  pub to : Text
  pub weight : ℕ

pub record WorkflowGraph : Type 0 where
  pub nodes : List Text
  pub edges : List WorkflowEdge

unfoldable pub edges_from : WorkflowGraph → Text → List WorkflowEdge
edges_from graph node = keep (λ e. text_eq e.from node) graph.edges

-- Membership in `seen_nodes`, which holds exactly what is in `node_set`.
unfoldable pub contains_key : List Text → Text → Bool
contains_key nodes key = any (λ n. text_eq n key) nodes

unfoldable pub add_node : List Text → Text → List Text
unfolding contains_key
add_node nodes key = if contains_key nodes key then nodes else nodes ++ (key ∷ [])

-- The entries of `edge_weights`.
abbrev pub Weights : Type 0
Weights = List (Text × Text × ℕ)

-- `*edge_weights.entry((from, to)).or_insert(0) += 1`
unfoldable pub add_edge : Weights → Text → Text → Weights
add_edge [] a b = (a, b, 1) ∷ []
add_edge ((c, d, n) ∷ weights) a b =
    let rest = add_edge weights a b in
    if text_eq c a && text_eq d b then (c, d, (n + 1) % 2 ^ 32) ∷ weights else (c, d, n) ∷ rest

edge_of : Text × Text × ℕ → WorkflowEdge
edge_of (a, b, n) = record { from = a; to = b; weight = n }

-- The loop over `events.windows(2)`, on the keys of the events.
unfoldable pub nodes_from : List Text → List Text → List Text
unfolding add_node
nodes_from nodes [] = nodes
nodes_from nodes (a ∷ []) = nodes
nodes_from nodes (a ∷ b ∷ keys) = nodes_from (add_node (add_node nodes a) b) (b ∷ keys)

unfoldable pub weights_from : Weights → List Text → Weights
unfolding add_edge
weights_from weights [] = weights
weights_from weights (a ∷ []) = weights
weights_from weights (a ∷ b ∷ keys) = weights_from (add_edge weights a b) (b ∷ keys)

-- The single node of a history of one event.
unfoldable pub with_single : List Text → List Text → List Text
with_single nodes (a ∷ []) = nodes ++ (a ∷ [])
with_single nodes _ = nodes

module _ (j : Json) (extension : Text → Option Text) (hash : HashOrder) where
  unfoldable pub build_workflow_graph : List (EventSummary j.Value) → WorkflowGraph
  unfolding nodes_from weights_from with_single edge_of
  build_workflow_graph events =
      let keys = map (action_key j extension) events in
      record {
        nodes = with_single (nodes_from [] keys) keys;
        edges = map edge_of (hash.order (weights_from [] keys));
      }
