-- ===== src/Graph/Nodes.antt =====
-- The nodes of a document's graph (build_limited_structural_graph of src/graph/mod.rs).
use llm.Base.{ℕ, String, false, Option, none, some, List, ◌∷◌, ◌++◌, if◌then◌else◌, map}
use llm.Staging.Json.{ℤ, pos, Value, null, number, string, object, end, field, bind, as_str}
use llm.Strings.{empty, take_chars}
use llm.Graph.{
  Uuids, GraphNodeType, GraphNode, LogicalBlockLite, as_db_str, GeneratedChunk, Document,
  expires_at, i64_text, node_id,
}
use llm.Graph.Select.{member}
use Prim.Native.String.{◌++◌ as join}

abbrev pub version_key : Uuids → Document → String
version_key uuids doc =
    join (uuids.to_string doc.document_id) (join ":" (i64_text doc.document_version))

abbrev pub block_key : Uuids → Document → LogicalBlockLite → String
block_key uuids doc b = join (version_key uuids doc) (join ":" b.block_id)

abbrev pub document_node_id : Uuids → Document → ℕ
document_node_id uuids doc =
    node_id uuids doc.access_zone_id GraphNodeType.document (version_key uuids doc)

abbrev pub block_node_id : Uuids → Document → LogicalBlockLite → ℕ
block_node_id uuids doc b =
    node_id uuids doc.access_zone_id GraphNodeType.logical_block (block_key uuids doc b)

abbrev pub chunk_node_id : Uuids → Document → GeneratedChunk → ℕ
chunk_node_id uuids doc c =
    node_id uuids doc.access_zone_id GraphNodeType.chunk (uuids.to_string c.id)

unfoldable pub document_node : Uuids → Document → GraphNode
unfolding node_id
document_node uuids doc = record {
  access_zone_id = doc.access_zone_id;
  node_id = document_node_id uuids doc;
  node_type = GraphNodeType.document;
  external_id = version_key uuids doc;
  document_id = some doc.document_id;
  document_version = some doc.document_version;
  chunk_id = none;
  block_id = none;
  label = bind (member doc.metadata "document_title") as_str;
  properties = object (field "graph_version" (string "fix3_graph_lite") end);
  lifecycle_status = "ACTIVE";
  expires_at = expires_at doc;
  quarantined = false;
  access_level = doc.access_level;
}

abbrev level_value : Option ℤ → Value
level_value none = null
level_value (some z) = number z

-- The heading, or else the first 80 characters of the text.
unfoldable pub block_label : LogicalBlockLite → Option String
unfolding empty take_chars
block_label b = elim (bind (member b.source_location "heading") as_str) [
  | none ↦ some (take_chars 80 b.text)
  | some h ↦ if empty h then some (take_chars 80 b.text) else some h
]

unfoldable pub block_node : Uuids → Document → LogicalBlockLite → GraphNode
unfolding node_id block_label
block_node uuids doc b = record {
  access_zone_id = doc.access_zone_id;
  node_id = block_node_id uuids doc b;
  node_type = GraphNodeType.logical_block;
  external_id = block_key uuids doc b;
  document_id = some doc.document_id;
  document_version = some doc.document_version;
  chunk_id = none;
  block_id = some b.block_id;
  label = block_label b;
  properties = object (
      field "block_type" (string b.block_type) (
        field "order_index" (number (pos b.order_index))
          (field "block_level" (level_value b.block_level) end)));
  lifecycle_status = "ACTIVE";
  expires_at = expires_at doc;
  quarantined = false;
  access_level = doc.access_level;
}

unfoldable pub chunk_node : Uuids → Document → GeneratedChunk → GraphNode
unfolding node_id take_chars
chunk_node uuids doc c = record {
  access_zone_id = doc.access_zone_id;
  node_id = chunk_node_id uuids doc c;
  node_type = GraphNodeType.chunk;
  external_id = uuids.to_string c.id;
  document_id = some doc.document_id;
  document_version = some doc.document_version;
  chunk_id = some c.id;
  block_id = c.source_block_id;
  label = some (take_chars 80 c.content);
  properties = object (
      field "granularity" (string (as_db_str c.granularity)) (
        field "sequence_no" (number (pos c.sequence_no))
          (field "trace_quality" (string c.trace_quality) end)));
  lifecycle_status = "ACTIVE";
  expires_at = expires_at doc;
  quarantined = false;
  access_level = doc.access_level;
}

-- The nodes before the limit on all of them.
unfoldable pub all_nodes :
    Uuids → Document → List LogicalBlockLite → List GeneratedChunk → List GraphNode
unfolding document_node block_node chunk_node
all_nodes uuids doc blocks chunks =
    document_node uuids doc
    ∷ (map (block_node uuids doc) blocks ++ map (chunk_node uuids doc) chunks)
