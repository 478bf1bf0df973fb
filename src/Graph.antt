-- ===== src/Graph.antt =====
-- The graph of a document: its nodes, edges and limits (src/graph/mod.rs). Identifiers of 128 bits
-- are numbers, and instants are seconds. The hash of a UUID of version 5 and the text of a UUID are
-- those of the `uuid` crate, the parameter `Uuids`.
pub mod Relation
pub mod Select
pub mod Nodes
pub mod Edges
pub mod Pairs
pub mod Build
pub mod Choice
pub mod Depth
pub mod Small
pub mod Bounds
use llm.Base.{ℕ, ◌+◌, ◌-◌, ◌*◌, suc, String, Bool, Option, none, some, List}
use llm.Staging.Json.{ℤ, pos, negsuc, Value}
use llm.Strings.{decimal}
use Prim.Native.String.{◌++◌}
use Relation.{GraphRelationType}

pub record Uuids : Type 0 where
  pub new_v5 : String → ℕ
  pub to_string : ℕ → String

pub data GraphNodeType : Type 0 where
  document logical_block chunk entity_tag : GraphNodeType

abbrev pub node_type_str : GraphNodeType → String
node_type_str GraphNodeType.document = "DOCUMENT"
node_type_str GraphNodeType.logical_block = "LOGICAL_BLOCK"
node_type_str GraphNodeType.chunk = "CHUNK"
node_type_str GraphNodeType.entity_tag = "ENTITY_TAG"

pub record GraphNode : Type 0 where
  pub access_zone_id : ℕ
  pub node_id : ℕ
  pub node_type : GraphNodeType
  pub external_id : String
  pub document_id : Option ℕ
  pub document_version : Option ℤ
  pub chunk_id : Option ℕ
  pub block_id : Option String
  pub label : Option String
  pub properties : Value
  pub lifecycle_status : String
  pub expires_at : Option ℕ
  pub quarantined : Bool
  pub access_level : ℤ

-- `relation_score` is left out: it is 1.0 in the edges that are built here.
pub record GraphEdge : Type 0 where
  pub access_zone_id : ℕ
  pub edge_id : ℕ
  pub source_node_type : GraphNodeType
  pub source_node_id : ℕ
  pub target_node_type : GraphNodeType
  pub target_node_id : ℕ
  pub relation_type : GraphRelationType
  pub relation_source : String
  pub relation_rank : Option ℤ
  pub document_id : Option ℕ
  pub document_version : Option ℤ
  pub lifecycle_status : String
  pub expires_at : Option ℕ
  pub quarantined : Bool
  pub properties : Value

-- The limits of the structural graph.
pub record GraphBuildLimits : Type 0 where
  pub max_document_graph_nodes : ℕ
  pub max_document_graph_edges : ℕ
  pub max_block_nodes : ℕ
  pub max_chunk_nodes : ℕ
  pub max_children_per_block : ℕ
  pub max_same_parent_edges : ℕ
  pub max_same_table_edges : ℕ

pub record LogicalBlockLite : Type 0 where
  pub block_id : String
  pub parent_block_id : Option String
  pub block_type : String
  pub text : String
  pub order_index : ℕ
  pub block_level : Option ℤ
  pub source_location : Value

pub data Granularity : Type 0 where
  source parent sub180 sub260 : Granularity

abbrev pub as_db_str : Granularity → String
as_db_str Granularity.source = "SOURCE"
as_db_str Granularity.parent = "PARENT"
as_db_str Granularity.sub180 = "SUB_180"
as_db_str Granularity.sub260 = "SUB_260"

pub record GeneratedChunk : Type 0 where
  pub id : ℕ
  pub root_id : ℕ
  pub source_id : ℕ
  pub parent_id : Option ℕ
  pub granularity : Granularity
  pub sequence_no : ℕ
  pub token_count : ℕ
  pub content : String
  pub content_hash : String
  pub source_block_id : Option String
  pub source_block_ids : List String
  pub source_location : Value
  pub source_links : Value
  pub trace_relation_type : String
  pub trace_quality : String

-- The arguments that the functions of a build pass on, with the instant it reads.
pub record Document : Type 0 where
  pub access_zone_id : ℕ
  pub document_id : ℕ
  pub document_version : ℤ
  pub metadata : Value
  pub access_level : ℤ
  pub ttl_days : Option ℤ
  pub now : ℕ

abbrev pub plus_days : ℕ → ℤ → ℕ
plus_days now (pos d) = now + 86400 * d
plus_days now (negsuc d) = now - 86400 * suc d

abbrev pub expires_at : Document → Option ℕ
expires_at d = elim (d.ttl_days) [ none ↦ none | some days ↦ some (plus_days d.now days) ]

abbrev pub i64_text : ℤ → String
i64_text (pos n) = decimal n
i64_text (negsuc n) = "-" ++ decimal (suc n)

unfoldable pub node_id : Uuids → ℕ → GraphNodeType → String → ℕ
node_id uuids zone t external_id = uuids.new_v5 (
    "astravector-graph-node:"
    ++ (uuids.to_string zone ++ (":" ++ (node_type_str t ++ (":" ++ external_id)))))
