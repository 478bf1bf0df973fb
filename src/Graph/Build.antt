-- ===== src/Graph/Build.antt =====
-- The structural graph of a document (build_limited_structural_graph and
-- filter_edges_to_existing_nodes of src/graph/mod.rs).
use llm.Base.{
  ℕ, ◌-◌, String, Bool, ◌&&◌, not, Option, List, [], ◌∷◌, ◌++◌, ltb, ◌==◌, if◌then◌else◌, length,
  take, retain, map, has,
}
use llm.Staging.Json.{Value}
use llm.Strings.{decimal}
use llm.Graph.{
  Uuids, GraphNode, GraphEdge, GraphBuildLimits, LogicalBlockLite, GeneratedChunk, Document,
  node_id,
}
use llm.Graph.Select.{logical_blocks_from_metadata, select_blocks_for_graph}
use Prim.Native.String.{◌++◌ as join}
use llm.Graph.Nodes.{block_node_id, chunk_node_id, all_nodes}
use llm.Graph.Edges.{Draft, block_edges, is_source, chunk_edges}
use llm.Graph.Pairs.{add_adjacent_sibling_edges, add_same_table_edges}

-- An edge between two different nodes, both of the graph.
unfoldable pub joins_nodes : List ℕ → GraphEdge → Bool
unfolding has
joins_nodes node_ids e =
    not (e.source_node_id == e.target_node_id)
    && has e.source_node_id node_ids
    && has e.target_node_id node_ids

unfoldable pub filter_edges_to_existing_nodes : List GraphNode → Draft → Draft
unfolding joins_nodes
filter_edges_to_existing_nodes nodes d =
    let kept = retain (joins_nodes (map (λ n. n.node_id) nodes)) d.edges in
    record {
      edges = kept;
      warnings =
          if length kept == length d.edges
          then d.warnings
          else d.warnings
            ++ (join "GRAPH_ORPHAN_OR_SELF_LOOP_EDGES_DROPPED:"
                  (decimal (length d.edges - length kept))
                ∷ []);
    }

pub record GraphBuildResult : Type 0 where
  pub nodes : List GraphNode
  pub edges : List GraphEdge
  pub warnings : List String

-- A list cut to its limit, with the warning of the cut.
abbrev pub truncated {ℓ} : {A : Type ℓ} → ℕ → String → List A → List String → List A × List String
truncated limit warning xs warnings =
    if ltb limit (length xs) then (take limit xs, warnings ++ (warning ∷ [])) else (xs, warnings)

abbrev pub block_ids_of : Uuids → Document → List LogicalBlockLite → List (String × ℕ)
block_ids_of uuids doc blocks = map (λ b. (b.block_id, block_node_id uuids doc b)) blocks

abbrev pub chunk_ids_of : Uuids → Document → List GeneratedChunk → List (ℕ × ℕ)
chunk_ids_of uuids doc noded = map (λ c. (c.id, chunk_node_id uuids doc c)) noded

abbrev pub chunk_warnings : GraphBuildLimits → List GeneratedChunk → List String → List String
chunk_warnings limits chunks warnings =
    if ltb limits.max_chunk_nodes (length chunks)
    then warnings ++ ("GRAPH_CHUNK_NODE_LIMIT_REACHED" ∷ [])
    else warnings

-- The edges of the blocks, then those of the chunks.
unfoldable pub contained :
    Uuids
    → Document
    → GraphBuildLimits
    → List LogicalBlockLite
    → List GeneratedChunk
    → List GeneratedChunk
    → List String
    → Draft
unfolding block_edges chunk_edges node_id
contained uuids doc limits blocks noded chunks warnings =
    let block_ids = block_ids_of uuids doc blocks in
    let d =
      block_edges uuids doc limits block_ids (record { edges = []; warnings = warnings }) blocks in
    chunk_edges uuids doc limits block_ids (chunk_ids_of uuids doc noded)
      (record { edges = d.edges; warnings = chunk_warnings limits chunks d.warnings })
      (retain (λ c. not (is_source c)) chunks)

-- The edges that the stages propose, in their order.
unfoldable pub all_edges :
    Uuids
    → Document
    → GraphBuildLimits
    → List LogicalBlockLite
    → List GeneratedChunk
    → List GeneratedChunk
    → List String
    → Draft
unfolding contained add_adjacent_sibling_edges add_same_table_edges node_id
all_edges uuids doc limits blocks noded chunks warnings =
    let chunk_ids = chunk_ids_of uuids doc noded in
    add_same_table_edges uuids doc limits chunk_ids chunks (
      add_adjacent_sibling_edges uuids doc limits chunk_ids chunks
        (contained uuids doc limits blocks noded chunks warnings))

-- The cuts at the end.
unfoldable pub finished : GraphBuildLimits → List GraphNode → Draft → GraphBuildResult
unfolding filter_edges_to_existing_nodes
finished limits nodes d =
    let (kept, warnings) =
      truncated limits.max_document_graph_nodes "GRAPH_NODE_LIMIT_REACHED" nodes d.warnings in
    let d = filter_edges_to_existing_nodes kept (record d { warnings = warnings }) in
    let (edges, warnings) =
      truncated limits.max_document_graph_edges "GRAPH_EDGE_LIMIT_REACHED" d.edges d.warnings in
    record { nodes = kept; edges = edges; warnings = warnings }

unfoldable pub build_limited_structural_graph :
    Uuids
    → (String → Option Value)
    → Document
    → List GeneratedChunk
    → GraphBuildLimits
    → GraphBuildResult
unfolding logical_blocks_from_metadata select_blocks_for_graph all_nodes all_edges finished
build_limited_structural_graph uuids from_str doc chunks limits =
    let blocks = logical_blocks_from_metadata from_str doc.metadata in
    let selection = select_blocks_for_graph limits blocks chunks [] in
    let noded = take limits.max_chunk_nodes (retain (λ c. not (is_source c)) chunks) in
    finished limits (all_nodes uuids doc selection.selected noded)
      (all_edges uuids doc limits selection.selected noded chunks selection.warnings)
