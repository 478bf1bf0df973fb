-- ===== src/Tests/Graph.antt =====
-- The graph of a small document.
use llm.Base.{
  ℕ, ◌≤◌, ◌≡◌, ◌↔◌, refl, arith, String, Option, none, some, List, [], ◌∷◌, All, length, map, max,
}
use llm.Staging.Json.{pos, Value, string, array, object, nil, cons, end, field}
use llm.Strings.{codes}
use llm.Graph.{Uuids, Document, GraphBuildLimits, Granularity, GeneratedChunk, LogicalBlockLite}
use llm.Graph.Relation.{explains, as_str, name_of, matched, from_str, from_str_iff}
use llm.Graph.Select.{depth_from, compute_depth, select_blocks_for_graph}
use llm.Graph.Build.{build_limited_structural_graph}
use llm.Graph.Depth.{compute_depth-finishes}
use llm.Graph.Choice.{leaf_count, select_blocks_for_graph-limits}
use llm.Graph.Bounds.{IsJoined, build_limited_structural_graph-limits}
use Prim.Native.String.{len}

abbrev uuids : Uuids
uuids = record { new_v5 = λ s. len s; to_string = λ n. "u" }

abbrev block : String → Option String → String → ℕ → LogicalBlockLite
block id parent type order = record {
  block_id = id;
  parent_block_id = parent;
  block_type = type;
  text = "text";
  order_index = order;
  block_level = none;
  source_location = object end;
}

-- Two of the blocks are each other's parents.
abbrev blocks : List LogicalBlockLite
blocks =
    block "s" none "SECTION" 0
    ∷ block "a" (some "b") "PARAGRAPH" 1
    ∷ block "b" (some "a") "PARAGRAPH" 2
    ∷ block "c" (some "b") "PARAGRAPH" 3
    ∷ []

abbrev limits : GraphBuildLimits
limits = record {
  max_document_graph_nodes = 4;
  max_document_graph_edges = 5;
  max_block_nodes = 3;
  max_chunk_nodes = 2;
  max_children_per_block = 1;
  max_same_parent_edges = 10;
  max_same_table_edges = 10;
}

abbrev json_block : String → String → Value
json_block id type =
    object (field "block_id" (string id) (field "block_type_name" (string type) end))

abbrev parsed : String → Option Value
parsed s = some (array (cons (json_block "s" "SECTION") (cons (json_block "par" "PARAGRAPH") nil)))

abbrev sub : ℕ → ℕ → GeneratedChunk
sub id sequence_no = record {
  id = id;
  root_id = 1;
  source_id = 1;
  parent_id = some 1;
  granularity = Granularity.sub180;
  sequence_no = sequence_no;
  token_count = 5;
  content = "text";
  content_hash = "h";
  source_block_id = some "s";
  source_block_ids = [];
  source_location = object end;
  source_links = object end;
  trace_relation_type = "";
  trace_quality = "";
}

abbrev doc : Document
doc = record {
  access_zone_id = 1;
  document_id = 2;
  document_version = pos 1;
  metadata = object (field "logical_blocks" (string "[]") end);
  access_level = pos 0;
  ttl_days = some (pos 30);
  now = 1000;
}

-- Parents in a cycle.
cyclic : compute_depth blocks "c" ≡ 3
unfolding compute_depth
cyclic = refl

compute_depth-finishes_example :
    (depth_from 100 blocks "c" [] 0 ≡ compute_depth blocks "c")
    × (compute_depth blocks "c" ≤ length blocks)
compute_depth-finishes_example = compute_depth-finishes blocks "c" 100 (omega arith)

-- The text is trimmed and put in upper case.
loose : from_str (codes " Explains ") ≡ some explains
unfolding from_str name_of matched llm.Query.Intent.Sentences.whitespace
loose = refl

from_str_iff_example :
    (from_str (codes " Explains ") ≡ some explains)
    ↔ (name_of (codes " Explains ") ≡ codes (as_str explains))
from_str_iff_example = from_str_iff (codes " Explains ") explains

select_blocks_for_graph-limits_example :
    All (λ b. b.block_level ≡ none) (select_blocks_for_graph limits blocks [] []).selected
    × (length (select_blocks_for_graph limits blocks [] []).selected ≤ max 3 1)
    × (leaf_count (some "b") (select_blocks_for_graph limits blocks [] []).selected ≤ 1)
select_blocks_for_graph-limits_example =
    select_blocks_for_graph-limits limits blocks [] [] (λ b. b.block_level ≡ none) (some "b")
      (refl, (refl, (refl, (refl, tt))))

build_limited_structural_graph-limits_example :
    let r = build_limited_structural_graph uuids parsed doc (sub 3 0 ∷ sub 4 1 ∷ []) limits in
    (length r.nodes ≤ 4)
    × (length r.edges ≤ 5)
    × All (IsJoined (map (λ n. n.node_id) r.nodes)) r.edges
build_limited_structural_graph-limits_example =
    build_limited_structural_graph-limits uuids parsed doc (sub 3 0 ∷ sub 4 1 ∷ []) limits
