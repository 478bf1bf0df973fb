-- ===== src/Graph/Small.antt =====
-- The limit on the edges, in every stage of a build (src/graph/mod.rs).
use llm.Base.{
  ℕ, ◌==◌, ◌+◌, ◌≤◌, arith, String, Option, none, some, List, [], ◌∷◌, length, length-append, leb,
  ltb, not, sort_by, retain, inl, inr, Bool-cases, Option-cases,
}
use llm.Staging.Json.{ℤ, pos, negsuc, bind}
use llm.Graph.{Uuids, Document, GraphNodeType, GraphBuildLimits, LogicalBlockLite, GeneratedChunk}
use llm.Graph.Relation.{
  GraphRelationType, document_contains_block, block_contains_block, block_produced_chunk,
  chunk_produced_by_block, chunk_has_parent, chunk_next_sibling, chunk_previous_sibling,
  chunk_same_table,
}
use llm.Graph.Nodes.{document_node_id}
use llm.Strings.{same, string_leb}
use llm.Graph.Edges.{
  Draft, is_source, push_edge, block_edge, block_edges, lookup_block, lookup_chunk,
  provenance_edges, parent_edge, chunk_edge, chunk_edges,
}
use llm.Graph.Pairs.{
  both_edges, pair_edges, keys, group_windows, sibling_key, by_sequence, table_key, by_row,
  add_adjacent_sibling_edges, add_same_table_edges,
}
use llm.Graph.Build.{contained, block_ids_of, chunk_ids_of, chunk_warnings, all_edges}

-- The draft holds at most as many edges as the limit.
pub record IsSmall (limits : GraphBuildLimits) (d : Draft) : Type 0 where
  pub size : length d.edges ≤ limits.max_document_graph_edges

module _ (uuids : Uuids) (doc : Document) (limits : GraphBuildLimits) where
  push_edge-IsSmall :
      (s : GraphNodeType) (a : ℕ) (t : GraphNodeType) (b : ℕ) (r : GraphRelationType)
      (rank : Option ℤ) (d : Draft)
      → IsSmall limits d
      → IsSmall limits (push_edge uuids doc limits s a t b r rank d)
  unfolding push_edge
  push_edge-IsSmall s a t b r rank d h =
      elim (Bool-cases (leb limits.max_document_graph_edges (length d.edges))) [
        | inl e ↦ record { size = rw e h.size }
        | inr e ↦ record { size = rw e (rw (length-append d.edges) (ground arith)) }
      ]

  block_edge-IsSmall :
      (ids : List (String × ℕ)) (d : Draft) (b : LogicalBlockLite)
      → IsSmall limits d
      → IsSmall limits (block_edge uuids doc limits ids d b)
  unfolding block_edge
  block_edge-IsSmall ids d b h = elim (Option-cases (lookup_block ids b.block_id)) [
    | inl e ↦ rw (e, block_edge) h
    | inr (target, e) ↦ elim (Option-cases (bind b.parent_block_id (lookup_block ids))) [
      | inl f ↦
          rw (e, f, block_edge)
            (push_edge-IsSmall GraphNodeType.document (document_node_id uuids doc)
              GraphNodeType.logical_block target document_contains_block none d h)
      | inr (source, f) ↦
          rw (e, f, block_edge)
            (push_edge-IsSmall GraphNodeType.logical_block source GraphNodeType.logical_block target
              block_contains_block none d h)
    ]
  ]

  block_edges-IsSmall :
      (ids : List (String × ℕ)) (d : Draft) (bs : List LogicalBlockLite)
      → IsSmall limits d
      → IsSmall limits (block_edges uuids doc limits ids d bs)
  unfolding block_edges
  block_edges-IsSmall ids d [] h = h
  block_edges-IsSmall ids d (b ∷ bs) h =
      block_edges-IsSmall ids (block_edge uuids doc limits ids d b) bs
        (block_edge-IsSmall ids d b h)

  provenance_edges-IsSmall :
      (o : Option ℕ) (chunk : ℕ) (d : Draft)
      → IsSmall limits d
      → IsSmall limits (provenance_edges uuids doc limits o chunk d)
  unfolding provenance_edges
  provenance_edges-IsSmall none chunk d h = h
  provenance_edges-IsSmall (some block) chunk d h =
      push_edge-IsSmall GraphNodeType.chunk chunk GraphNodeType.logical_block block
        chunk_produced_by_block none
        (push_edge uuids doc limits GraphNodeType.logical_block block GraphNodeType.chunk chunk
          block_produced_chunk none d)
        (push_edge-IsSmall GraphNodeType.logical_block block GraphNodeType.chunk chunk
          block_produced_chunk none d h)

  parent_edge-IsSmall :
      (o : Option ℕ) (chunk : ℕ) (d : Draft)
      → IsSmall limits d
      → IsSmall limits (parent_edge uuids doc limits o chunk d)
  unfolding parent_edge
  parent_edge-IsSmall none chunk d h = h
  parent_edge-IsSmall (some parent) chunk d h =
      push_edge-IsSmall GraphNodeType.chunk chunk GraphNodeType.chunk parent chunk_has_parent
        (some (pos 0)) d h

  chunk_edge-IsSmall :
      (ids : List (String × ℕ)) (chunks : List (ℕ × ℕ)) (d : Draft) (c : GeneratedChunk)
      → IsSmall limits d
      → IsSmall limits (chunk_edge uuids doc limits ids chunks d c)
  unfolding chunk_edge
  chunk_edge-IsSmall ids chunks d c h = elim (Option-cases (lookup_chunk chunks c.id)) [
    | inl e ↦ rw (e, chunk_edge) h
    | inr (node, e) ↦
        rw (e, chunk_edge)
          (parent_edge-IsSmall (bind c.parent_id (lookup_chunk chunks)) node
            (provenance_edges uuids doc limits (bind c.source_block_id (lookup_block ids)) node d)
            (provenance_edges-IsSmall (bind c.source_block_id (lookup_block ids)) node d h))
  ]

  chunk_edges-IsSmall :
      (ids : List (String × ℕ)) (chunks : List (ℕ × ℕ)) (d : Draft) (cs : List GeneratedChunk)
      → IsSmall limits d
      → IsSmall limits (chunk_edges uuids doc limits ids chunks d cs)
  unfolding chunk_edges
  chunk_edges-IsSmall ids chunks d [] h = h
  chunk_edges-IsSmall ids chunks d (c ∷ cs) h =
      chunk_edges-IsSmall ids chunks (chunk_edge uuids doc limits ids chunks d c) cs
        (chunk_edge-IsSmall ids chunks d c h)

  both_edges-IsSmall :
      (rs : GraphRelationType × GraphRelationType) (a b : ℕ) (d : Draft)
      → IsSmall limits d
      → IsSmall limits (both_edges uuids doc limits rs a b d)
  unfolding both_edges
  both_edges-IsSmall rs a b d h =
      push_edge-IsSmall GraphNodeType.chunk b GraphNodeType.chunk a rs.1 (some (negsuc 0))
        (push_edge uuids doc limits GraphNodeType.chunk a GraphNodeType.chunk b rs.0 (some (pos 1))
          d)
        (push_edge-IsSmall GraphNodeType.chunk a GraphNodeType.chunk b rs.0 (some (pos 1)) d h)

  pair_edges-IsSmall :
      (rs : GraphRelationType × GraphRelationType) (limit : ℕ) (w : String) (ids : List (ℕ × ℕ))
      (count : ℕ) (d : Draft) (ps : List (GeneratedChunk × GeneratedChunk))
      → IsSmall limits d
      → IsSmall limits (pair_edges uuids doc limits rs limit w ids count d ps)
  unfolding pair_edges
  pair_edges-IsSmall rs limit w ids count d [] h = h
  pair_edges-IsSmall rs limit w ids count d ((x, y) ∷ ps) h =
      elim (Bool-cases (ltb limit (count + 2))) [
        | inl e ↦ record { size = rw (e, pair_edges) h.size }
        | inr e ↦ elim (Option-cases (lookup_chunk ids x.id)) [
          | inl f ↦ rw (e, f, pair_edges) (pair_edges-IsSmall rs limit w ids count d ps h)
          | inr (a, f) ↦ elim (Option-cases (lookup_chunk ids y.id)) [
            | inl g ↦ rw (e, f, g, pair_edges) (pair_edges-IsSmall rs limit w ids count d ps h)
            | inr (b, g) ↦
                rw (e, f, g, pair_edges)
                  (pair_edges-IsSmall rs limit w ids (count + 2)
                    (both_edges uuids doc limits rs a b d) ps (both_edges-IsSmall rs a b d h))
          ]
        ]
      ]

  contained-IsSmall :
      (blocks : List LogicalBlockLite) (noded chunks : List GeneratedChunk) (warnings : List String)
      → IsSmall limits (contained uuids doc limits blocks noded chunks warnings)
  unfolding contained
  contained-IsSmall blocks noded chunks warnings =
      let start : IsSmall limits (record { edges = []; warnings = warnings }) = record {
        size = omega arith;
      } in
      let blocked = block_edges-IsSmall (block_ids_of uuids doc blocks) _ blocks start in
      chunk_edges-IsSmall (block_ids_of uuids doc blocks) (chunk_ids_of uuids doc noded)
        (record {
          edges =
              (block_edges uuids doc limits (block_ids_of uuids doc blocks)
                (record { edges = []; warnings = warnings }) blocks).edges;
          warnings =
              chunk_warnings limits chunks
                (block_edges uuids doc limits (block_ids_of uuids doc blocks)
                  (record { edges = []; warnings = warnings }) blocks).warnings;
        })
        (retain (λ c. not (is_source c)) chunks) (record { size = blocked.size })

  siblings-IsSmall :
      (ids : List (ℕ × ℕ)) (chunks : List GeneratedChunk) (d : Draft)
      → IsSmall limits d
      → IsSmall limits (add_adjacent_sibling_edges uuids doc limits ids chunks d)
  unfolding add_adjacent_sibling_edges
  siblings-IsSmall ids chunks d h =
      pair_edges-IsSmall (chunk_next_sibling, chunk_previous_sibling) limits.max_same_parent_edges
        "GRAPH_EDGE_LIMIT_REACHED" ids 0 d
        (group_windows leb (λ j k. j == k) sibling_key by_sequence chunks
          (sort_by leb (keys leb (λ j k. j == k) sibling_key chunks)))
        h

  same_table-IsSmall :
      (ids : List (ℕ × ℕ)) (chunks : List GeneratedChunk) (d : Draft)
      → IsSmall limits d
      → IsSmall limits (add_same_table_edges uuids doc limits ids chunks d)
  unfolding add_same_table_edges
  same_table-IsSmall ids chunks d h =
      pair_edges-IsSmall (chunk_same_table, chunk_same_table) limits.max_same_table_edges
        "GRAPH_SAME_TABLE_EDGE_LIMIT_REACHED" ids 0 d
        (group_windows string_leb same table_key by_row chunks
          (sort_by string_leb (keys string_leb same table_key chunks)))
        h

  -- No stage goes past the limit, so that the cut of the edges at the end finds nothing to cut.
  pub all_edges-IsSmall :
      (blocks : List LogicalBlockLite) (noded chunks : List GeneratedChunk) (warnings : List String)
      → IsSmall limits (all_edges uuids doc limits blocks noded chunks warnings)
  unfolding all_edges
  all_edges-IsSmall blocks noded chunks warnings =
      same_table-IsSmall (chunk_ids_of uuids doc noded) chunks
        (add_adjacent_sibling_edges uuids doc limits (chunk_ids_of uuids doc noded) chunks
          (contained uuids doc limits blocks noded chunks warnings))
        (siblings-IsSmall (chunk_ids_of uuids doc noded) chunks
          (contained uuids doc limits blocks noded chunks warnings)
          (contained-IsSmall blocks noded chunks warnings))
