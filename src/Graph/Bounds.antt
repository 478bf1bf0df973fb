-- ===== src/Graph/Bounds.antt =====
-- The limits on the nodes and edges of a graph (build_limited_structural_graph of
-- src/graph/mod.rs).
use llm.Base.{
  ℕ, zero, suc, ◌==◌, ◌≤◌, ◌≡◌, arith, String, true, false, Option, List, [], ◌∷◌, length, ltb, has,
  not, take, retain, All, retain-All, All-map, map, inl, inr, Bool-cases,
}
use llm.Staging.Json.{Value}
use llm.Graph.{Uuids, Document, GraphNode, GraphEdge, GraphBuildLimits, GeneratedChunk}
use llm.Graph.Nodes.{all_nodes}
use llm.Graph.Select.{logical_blocks_from_metadata, select_blocks_for_graph}
use llm.Graph.Edges.{Draft, is_source}
use llm.Graph.Build.{
  joins_nodes, filter_edges_to_existing_nodes, all_edges, finished, build_limited_structural_graph,
  truncated,
}
use llm.Graph.Small.{IsSmall, all_edges-IsSmall}

length-take-le {ℓ} : {A : Type ℓ} (n : ℕ) (xs : List A) → length (take n xs) ≤ n
length-take-le zero xs = omega arith
length-take-le (suc n) [] = omega arith
length-take-le (suc n) (x ∷ xs) = omega (arith, length-take-le n xs)

All-take {ℓ κ} : {A : Type ℓ} (P : A → Type κ) (n : ℕ) (xs : List A) → All P xs → All P (take n xs)
All-take P zero xs h = tt
All-take P (suc n) [] h = tt
All-take P (suc n) (x ∷ xs) h = (h.0, All-take P n xs h.1)

truncated-le {ℓ} :
    {A : Type ℓ} (limit : ℕ) (w : String) (xs : List A) (ws : List String)
    → length (truncated limit w xs ws).0 ≤ limit
truncated-le limit w xs ws = elim (Bool-cases (ltb limit (length xs))) [
  | inl e ↦ rw e (length-take-le limit xs)
  | inr e ↦ rw e (ground arith)
]

truncated-All {ℓ κ} :
    {A : Type ℓ} (P : A → Type κ) (limit : ℕ) (w : String) (xs : List A) (ws : List String)
    → All P xs
    → All P (truncated limit w xs ws).0
truncated-All P limit w xs ws h = elim (Bool-cases (ltb limit (length xs))) [
  | inl e ↦ rw e (All-take P limit xs h)
  | inr e ↦ rw e h
]

-- Two different nodes of the graph.
pub record IsJoined (ids : List ℕ) (e : GraphEdge) : Type 0 where
  pub differ : (e.source_node_id == e.target_node_id) ≡ false
  pub source : has e.source_node_id ids ≡ true
  pub target : has e.target_node_id ids ≡ true

joins_nodes-IsJoined : (ids : List ℕ) (e : GraphEdge) → joins_nodes ids e ≡ true → IsJoined ids e
unfolding joins_nodes
joins_nodes-IsJoined ids e h = record {
  differ = ground arith;
  source = ground arith;
  target = ground arith;
}

-- The number of nodes, the number of edges, and the edges of a finished graph.
finished-limits :
    (limits : GraphBuildLimits) (nodes : List GraphNode) (d : Draft)
    → IsSmall limits d
    → (length (finished limits nodes d).nodes ≤ limits.max_document_graph_nodes)
      × (length (finished limits nodes d).edges ≤ limits.max_document_graph_edges)
      × All
          (IsJoined (map (λ n. n.node_id) (finished limits nodes d).nodes))
          (finished limits nodes d).edges
unfolding finished filter_edges_to_existing_nodes
finished-limits limits nodes d h =
    let nodes' =
      truncated limits.max_document_graph_nodes "GRAPH_NODE_LIMIT_REACHED" nodes d.warnings in
    let kept = retain (joins_nodes (map (λ n. n.node_id) nodes'.0)) d.edges in
    (
      truncated-le _ _ nodes d.warnings,
      truncated-le _ _ kept _,
      truncated-All _ _ _ kept _ (
          All-map (joins_nodes-IsJoined (map (λ n. n.node_id) nodes'.0)) kept
            (retain-All (joins_nodes (map (λ n. n.node_id) nodes'.0)) d.edges)),
    )

-- The graph of a document has at most `max_document_graph_nodes` nodes and
-- `max_document_graph_edges` edges, and each edge runs between two different nodes of the graph.
pub build_limited_structural_graph-limits :
    (uuids : Uuids) (from_str : String → Option Value) (doc : Document)
    (chunks : List GeneratedChunk) (limits : GraphBuildLimits)
    → let r = build_limited_structural_graph uuids from_str doc chunks limits in
      (length r.nodes ≤ limits.max_document_graph_nodes)
      × (length r.edges ≤ limits.max_document_graph_edges)
      × All (IsJoined (map (λ n. n.node_id) r.nodes)) r.edges
unfolding build_limited_structural_graph
build_limited_structural_graph-limits uuids from_str doc chunks limits =
    let blocks = logical_blocks_from_metadata from_str doc.metadata in
    let selection = select_blocks_for_graph limits blocks chunks [] in
    let noded = take limits.max_chunk_nodes (retain (λ c. not (is_source c)) chunks) in
    finished-limits limits (all_nodes uuids doc selection.selected noded)
      (all_edges uuids doc limits selection.selected noded chunks selection.warnings)
      (all_edges-IsSmall uuids doc limits selection.selected noded chunks selection.warnings)
