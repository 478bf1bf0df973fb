-- ===== src/Graph/Pairs.antt =====
-- The edges between neighbours of a group (add_adjacent_sibling_edges and add_same_table_edges
-- of src/graph/mod.rs).
use llm.Base.{
  ℕ, ◌+◌, String, Bool, true, false, ◌&&◌, ◌||◌, not, Option, none, some, List, [], ◌∷◌, ◌++◌, ltb,
  leb, ◌==◌, if◌then◌else◌, any, retain, get_or_else, sort_by, same_text, to_ascii_lowercase,
}
use llm.Staging.Json.{pos, negsuc, bind, as_u64, as_str}
use llm.Strings.{same, string_leb, codes, trim, empty}
use llm.Graph.{Uuids, GraphNodeType, GraphBuildLimits, as_db_str, GeneratedChunk, Document}
use llm.Graph.Relation.{
  GraphRelationType, chunk_previous_sibling, chunk_next_sibling, chunk_same_table,
}
use llm.Graph.Select.{member}
use llm.Graph.Edges.{Draft, push_edge, lookup_chunk}

-- `windows(2)`
unfoldable pub windows : List GeneratedChunk → List (GeneratedChunk × GeneratedChunk)
windows [] = []
windows (a ∷ []) = []
windows (a ∷ b ∷ cs) = (a, b) ∷ windows (b ∷ cs)

-- The groups of a `BTreeMap`, in the order of their keys; a chunk without a key is in none.
module _ {ℓ} {K : Type ℓ} (le eq : K → K → Bool) (key : GeneratedChunk → Option K) where
  unfoldable pub keys : List GeneratedChunk → List K
  keys [] = []
  keys (c ∷ cs) =
      let rest = keys cs in
      elim (key c) [ none ↦ rest | some k ↦ if any (eq k) rest then rest else k ∷ rest ]

  abbrev pub in_group : K → GeneratedChunk → Bool
  in_group k c = elim (key c) [ none ↦ false | some j ↦ eq j k ]

  unfoldable pub group_windows :
      (GeneratedChunk → GeneratedChunk → Bool)
      → List GeneratedChunk
      → List K
      → List (GeneratedChunk × GeneratedChunk)
  unfolding windows
  group_windows order cs [] = []
  group_windows order cs (k ∷ ks) =
      windows (sort_by order (retain (in_group k) cs)) ++ group_windows order cs ks

-- An edge each way between two neighbours.
unfoldable pub both_edges :
    Uuids
    → Document
    → GraphBuildLimits
    → GraphRelationType × GraphRelationType
    → ℕ
    → ℕ
    → Draft
    → Draft
unfolding push_edge
both_edges uuids doc limits relations a b d =
    push_edge uuids doc limits GraphNodeType.chunk b GraphNodeType.chunk a relations.1
      (some (negsuc 0))
      (push_edge uuids doc limits GraphNodeType.chunk a GraphNodeType.chunk b relations.0
        (some (pos 1)) d)

-- The loop over the windows of all groups: two edges for each, as far as the limit.
unfoldable pub pair_edges :
    Uuids
    → Document
    → GraphBuildLimits
    → GraphRelationType × GraphRelationType
    → ℕ
    → String
    → List (ℕ × ℕ)
    → ℕ
    → Draft
    → List (GeneratedChunk × GeneratedChunk)
    → Draft
unfolding both_edges
pair_edges uuids doc limits relations limit warning chunk_ids count d [] = d
pair_edges uuids doc limits relations limit warning chunk_ids count d ((x, y) ∷ ps) =
    elim (ltb limit (count + 2)) [
      | true ↦ record d { warnings = d.warnings ++ (warning ∷ []) }
      | false ↦ elim (lookup_chunk chunk_ids x.id) [
        | none ↦ pair_edges uuids doc limits relations limit warning chunk_ids count d ps
        | some a ↦ elim (lookup_chunk chunk_ids y.id) [
          | none ↦ pair_edges uuids doc limits relations limit warning chunk_ids count d ps
          | some b ↦
              pair_edges uuids doc limits relations limit warning chunk_ids (count + 2)
                (both_edges uuids doc limits relations a b d) ps
        ]
      ]
    ]

-- "SUB_180" or "SUB_260".
abbrev pub is_sub : GeneratedChunk → Bool
is_sub c = same (as_db_str c.granularity) "SUB_180" || same (as_db_str c.granularity) "SUB_260"

abbrev pub sibling_key : GeneratedChunk → Option ℕ
sibling_key c = if is_sub c then c.parent_id else none

abbrev pub by_sequence : GeneratedChunk → GeneratedChunk → Bool
by_sequence x y = leb x.sequence_no y.sequence_no

unfoldable pub add_adjacent_sibling_edges :
    Uuids → Document → GraphBuildLimits → List (ℕ × ℕ) → List GeneratedChunk → Draft → Draft
unfolding keys group_windows pair_edges
add_adjacent_sibling_edges uuids doc limits chunk_ids chunks d =
    pair_edges uuids doc limits (chunk_next_sibling, chunk_previous_sibling)
      limits.max_same_parent_edges "GRAPH_EDGE_LIMIT_REACHED" chunk_ids 0 d
      (group_windows leb (λ j k. j == k) sibling_key by_sequence chunks
        (sort_by leb (keys leb (λ j k. j == k) sibling_key chunks)))

abbrev is_some {ℓ} : {A : Type ℓ} → Option A → Bool
is_some none = false
is_some (some a) = true

unfoldable pub is_row_style_table_chunk : GeneratedChunk → Bool
unfolding trim empty
is_row_style_table_chunk c =
    not (empty (trim (get_or_else (bind (member c.source_location "table_id") as_str) "")))
    && (is_some (member c.source_location "row_index")
        || same_text
            (to_ascii_lowercase
              (codes (get_or_else (bind (member c.source_location "block_type") as_str) "")))
            (to_ascii_lowercase (codes "TABLE_ROW")))

-- The trimmed `table_id` of a row.
unfoldable pub table_key : GeneratedChunk → Option String
unfolding is_row_style_table_chunk trim empty
table_key c =
    let table_id = trim (get_or_else (bind (member c.source_location "table_id") as_str) "") in
    if is_row_style_table_chunk c && not (empty table_id) then some table_id else none

abbrev pub row_index : GeneratedChunk → ℕ
row_index c = get_or_else (bind (member c.source_location "row_index") as_u64) c.sequence_no

abbrev pub by_row : GeneratedChunk → GeneratedChunk → Bool
by_row x y = leb (row_index x) (row_index y)

unfoldable pub add_same_table_edges :
    Uuids → Document → GraphBuildLimits → List (ℕ × ℕ) → List GeneratedChunk → Draft → Draft
unfolding keys group_windows pair_edges table_key
add_same_table_edges uuids doc limits chunk_ids chunks d =
    pair_edges uuids doc limits (chunk_same_table, chunk_same_table) limits.max_same_table_edges
      "GRAPH_SAME_TABLE_EDGE_LIMIT_REACHED" chunk_ids 0 d
      (group_windows string_leb same table_key by_row chunks
        (sort_by string_leb (keys string_leb same table_key chunks)))
