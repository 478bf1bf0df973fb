-- ===== src/Graph/Edges.antt =====
-- The edges of blocks and of single chunks (push_edge and build_limited_structural_graph of
-- src/graph/mod.rs). A map from identifiers to nodes is a list: equal keys have equal values.
use llm.Base.{
  ℕ, String, Bool, false, Option, none, some, List, [], ◌∷◌, ◌++◌, leb, ◌==◌, if◌then◌else◌, length,
  any,
}
use llm.Staging.Json.{ℤ, pos, object, end, bind}
use llm.Strings.{same}
use llm.Graph.{
  Uuids, GraphNodeType, GraphEdge, GraphBuildLimits, LogicalBlockLite, as_db_str, GeneratedChunk,
  Document, expires_at, i64_text, node_id,
}
use llm.Graph.Relation.{
  GraphRelationType, as_str as relation_str, document_contains_block, block_contains_block,
  block_produced_chunk, chunk_produced_by_block, chunk_has_parent,
}
use Prim.Native.String.{◌++◌ as join}
use llm.Graph.Nodes.{document_node_id}

-- The edges and the warnings so far.
pub record Draft : Type 0 where
  pub edges : List GraphEdge
  pub warnings : List String

abbrev i32_text : Option ℤ → String
i32_text none = "0"
i32_text (some r) = i64_text r

unfoldable pub push_edge :
    Uuids
    → Document
    → GraphBuildLimits
    → GraphNodeType
    → ℕ
    → GraphNodeType
    → ℕ
    → GraphRelationType
    → Option ℤ
    → Draft
    → Draft
push_edge uuids doc limits source_type source target_type target relation rank d =
    if leb limits.max_document_graph_edges (length d.edges)
    then record d {
      warnings =
          if any (λ w. same w "GRAPH_EDGE_LIMIT_REACHED") d.warnings
          then d.warnings
          else d.warnings ++ ("GRAPH_EDGE_LIMIT_REACHED" ∷ []);
    }
    else record d {
      edges =
          d.edges
          ++ (record {
            access_zone_id = doc.access_zone_id;
            edge_id = uuids.new_v5 (
                join (uuids.to_string source) (
                  join ":" (
                    join (uuids.to_string target)
                      (join ":" (join (relation_str relation) (join ":" (i32_text rank)))))));
            source_node_type = source_type;
            source_node_id = source;
            target_node_type = target_type;
            target_node_id = target;
            relation_type = relation;
            relation_source = "STRUCTURAL";
            relation_rank = rank;
            document_id = some doc.document_id;
            document_version = some doc.document_version;
            lifecycle_status = "ACTIVE";
            expires_at = expires_at doc;
            quarantined = false;
            properties = object end;
          }
              ∷ []);
    }

abbrev pub lookup_block : List (String × ℕ) → String → Option ℕ
lookup_block [] k = none
lookup_block ((j, v) ∷ m) k = if same j k then some v else lookup_block m k

abbrev pub lookup_chunk : List (ℕ × ℕ) → ℕ → Option ℕ
lookup_chunk [] k = none
lookup_chunk ((j, v) ∷ m) k = if j == k then some v else lookup_chunk m k

-- The edge to a block from its parent, or from the document when the parent has no node.
unfoldable pub block_edge :
    Uuids → Document → GraphBuildLimits → List (String × ℕ) → Draft → LogicalBlockLite → Draft
unfolding push_edge node_id
block_edge uuids doc limits block_ids d b = elim (lookup_block block_ids b.block_id) [
  | none ↦ d
  | some target ↦ elim (bind b.parent_block_id (lookup_block block_ids)) [
    | some source ↦
        push_edge uuids doc limits GraphNodeType.logical_block source GraphNodeType.logical_block
          target block_contains_block none d
    | none ↦
        push_edge uuids doc limits GraphNodeType.document (document_node_id uuids doc)
          GraphNodeType.logical_block target document_contains_block none d
  ]
]

unfoldable pub block_edges :
    Uuids → Document → GraphBuildLimits → List (String × ℕ) → Draft → List LogicalBlockLite → Draft
unfolding block_edge
block_edges uuids doc limits block_ids d [] = d
block_edges uuids doc limits block_ids d (b ∷ bs) =
    block_edges uuids doc limits block_ids (block_edge uuids doc limits block_ids d b) bs

abbrev pub is_source : GeneratedChunk → Bool
is_source c = same (as_db_str c.granularity) "SOURCE"

unfoldable pub provenance_edges : Uuids → Document → GraphBuildLimits → Option ℕ → ℕ → Draft → Draft
unfolding push_edge
provenance_edges uuids doc limits none chunk d = d
provenance_edges uuids doc limits (some block) chunk d =
    push_edge uuids doc limits GraphNodeType.chunk chunk GraphNodeType.logical_block block
      chunk_produced_by_block none
      (push_edge uuids doc limits GraphNodeType.logical_block block GraphNodeType.chunk chunk
        block_produced_chunk none d)

unfoldable pub parent_edge : Uuids → Document → GraphBuildLimits → Option ℕ → ℕ → Draft → Draft
unfolding push_edge
parent_edge uuids doc limits none chunk d = d
parent_edge uuids doc limits (some parent) chunk d =
    push_edge uuids doc limits GraphNodeType.chunk chunk GraphNodeType.chunk parent chunk_has_parent
      (some (pos 0)) d

unfoldable pub chunk_edge :
    Uuids
    → Document
    → GraphBuildLimits
    → List (String × ℕ)
    → List (ℕ × ℕ)
    → Draft
    → GeneratedChunk
    → Draft
unfolding provenance_edges parent_edge
chunk_edge uuids doc limits block_ids chunk_ids d c = elim (lookup_chunk chunk_ids c.id) [
  | none ↦ d
  | some chunk ↦
      parent_edge uuids doc limits (bind c.parent_id (lookup_chunk chunk_ids)) chunk (
        provenance_edges uuids doc limits (bind c.source_block_id (lookup_block block_ids)) chunk d)
]

unfoldable pub chunk_edges :
    Uuids
    → Document
    → GraphBuildLimits
    → List (String × ℕ)
    → List (ℕ × ℕ)
    → Draft
    → List GeneratedChunk
    → Draft
unfolding chunk_edge
chunk_edges uuids doc limits block_ids chunk_ids d [] = d
chunk_edges uuids doc limits block_ids chunk_ids d (c ∷ cs) =
    chunk_edges uuids doc limits block_ids chunk_ids
      (chunk_edge uuids doc limits block_ids chunk_ids d c) cs
