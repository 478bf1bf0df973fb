-- ===== src/Graph/Select.antt =====
-- The choice of the blocks that become nodes (logical_blocks_from_metadata,
-- select_blocks_for_graph and compute_depth of src/graph/mod.rs). A sum of depths wraps as in a
-- release build.
use llm.Base.{
  ℕ, zero, suc, ◌+◌, ◌-◌, String, Bool, true, false, ◌&&◌, ◌||◌, not, Option, none, some, List, [],
  ◌∷◌, ◌++◌, ltb, leb, if◌then◌else◌, length, any, get_or_else, sort_by, map,
}
use llm.Staging.Json.{
  ℤ, pos, negsuc, Value, object, Items, nil, cons, end, get, bind, as_u64, as_i64, as_str,
  as_object, as_array, as_u32, as_i32,
}
use llm.Strings.{same, trim, empty}
use llm.Graph.{LogicalBlockLite, GeneratedChunk, GraphBuildLimits}

-- `value.get(key)`
abbrev pub member : Value → String → Option Value
member v k = bind (as_object v) (get k)

non_empty : String → Option String
unfolding empty
non_empty s = if empty s then none else some s

-- `block_level`, or else `level`, as a cast to `i32`.
unfoldable pub level_of : Value → Option ℤ
level_of metadata = elim (bind (member metadata "block_level") as_i64) [
  | some v ↦ some (as_i32 v)
  | none ↦ bind (bind (member metadata "level") as_i64) (λ v. some (as_i32 v))
]

unfoldable pub block_from : Value → Option LogicalBlockLite
unfolding non_empty trim level_of
block_from item =
    bind (bind (bind (member item "block_id") as_str) (λ s. non_empty (trim s))) (λ block_id.
      some record {
        block_id = block_id;
        parent_block_id =
            bind (bind (member item "parent_block_id") as_str) (λ s. non_empty (trim s));
        block_type = get_or_else (bind (member item "block_type_name") as_str) "UNSPECIFIED";
        text = get_or_else (bind (member item "text") as_str) "";
        order_index = as_u32 (get_or_else (bind (member item "order_index") as_u64) 0);
        block_level = level_of (get_or_else (member item "metadata") (object end));
        source_location = get_or_else (member item "source_location") (object end);
      })

unfoldable pub blocks_from : Items → List LogicalBlockLite
unfolding block_from
blocks_from nil = []
blocks_from (cons item items) = elim (block_from item) [
  | none ↦ blocks_from items
  | some b ↦ b ∷ blocks_from items
]

-- `from_str` is the parser of JSON texts, of the `serde_json` crate.
unfoldable pub logical_blocks_from_metadata :
    (String → Option Value) → Value → List LogicalBlockLite
unfolding blocks_from
logical_blocks_from_metadata from_str metadata = blocks_from (
    get_or_else (bind (bind (bind (member metadata "logical_blocks") as_str) from_str) as_array)
      nil)

-- The parent recorded for an identifier: that of the last block which has it.
unfoldable pub parent_of : List LogicalBlockLite → String → Option String
parent_of [] id = none
parent_of (b ∷ bs) id =
    if any (λ c. same c.block_id id) bs
    then parent_of bs id
    else if same b.block_id id
    then b.parent_block_id
    else none

-- The walk to the root, which ends at an identifier it has seen.
unfoldable pub depth_from : ℕ → List LogicalBlockLite → String → List String → ℕ → ℕ
unfolding parent_of
depth_from zero bs cur seen depth = depth
depth_from (suc fuel) bs cur seen depth = elim (parent_of bs cur) [
  | none ↦ depth
  | some parent ↦
      if any (same cur) seen then depth else depth_from fuel bs parent (cur ∷ seen) (depth + 1)
]

-- Without the cache, which holds the answers of earlier calls for the same blocks.
unfoldable pub compute_depth : List LogicalBlockLite → String → ℕ
unfolding depth_from
compute_depth bs id = depth_from (suc (length bs)) bs id [] 0

unfoldable pub base_of : String → ℕ
base_of t =
    if same t "DOCUMENT"
    then 0
    else if same t "SECTION"
    then 10
    else if same t "SUBSECTION"
    then 20
    else if same t "TABLE"
    then 30
    else if same t "PARAGRAPH" || same t "TABLE_ROW" || same t "LIST_ITEM" || same t "FAQ_ITEM"
    then 40
    else 90

-- `a + z` for an `i32`.
abbrev pub add_i32 : ℕ → ℤ → ℤ
add_i32 a (pos b) = as_i32 (pos (a + b))
add_i32 a (negsuc b) = if ltb b a then as_i32 (pos (a - suc b)) else as_i32 (negsuc (b - a))

pub record Scored : Type 0 where
  pub score : ℤ
  pub penalty : ℕ
  pub block : LogicalBlockLite

unfoldable pub has_chunk : List GeneratedChunk → String → Bool
has_chunk chunks id =
    any (λ c. elim (c.source_block_id) [ none ↦ false | some b ↦ same b id ]) chunks

unfoldable pub scored : List LogicalBlockLite → List GeneratedChunk → LogicalBlockLite → Scored
unfolding base_of has_chunk compute_depth
scored blocks chunks b = record {
  score =
      add_i32 (base_of b.block_type)
        (get_or_else b.block_level (pos (compute_depth blocks b.block_id)));
  penalty = if has_chunk chunks b.block_id then 0 else 1;
  block = b;
}

abbrev pub int_leb : ℤ → ℤ → Bool
int_leb (pos a) (pos b) = leb a b
int_leb (pos a) (negsuc b) = false
int_leb (negsuc a) (pos b) = true
int_leb (negsuc a) (negsuc b) = leb b a

-- The order of the keys (score, penalty, order_index).
unfoldable pub scored_leb : Scored → Scored → Bool
scored_leb x y =
    if not (int_leb y.score x.score)
    then true
    else if not (int_leb x.score y.score)
    then false
    else if ltb x.penalty y.penalty
    then true
    else if ltb y.penalty x.penalty
    then false
    else leb x.block.order_index y.block.order_index

abbrev pub same_parent : Option String → Option String → Bool
same_parent none none = true
same_parent none (some b) = false
same_parent (some a) none = false
same_parent (some a) (some b) = same a b

abbrev pub is_container : LogicalBlockLite → Bool
is_container b =
    same b.block_type "DOCUMENT" || same b.block_type "SECTION" || same b.block_type "SUBSECTION"

-- How many of the selected blocks have the parent: what `parent_counts` holds.
unfoldable pub parent_count : Option String → List LogicalBlockLite → ℕ
parent_count p [] = 0
parent_count p (b ∷ bs) =
    if same_parent p b.parent_block_id then suc (parent_count p bs) else parent_count p bs

-- A block is left out when its parent has its share of children, unless it is a container.
unfoldable pub skips : GraphBuildLimits → LogicalBlockLite → List LogicalBlockLite → Bool
unfolding parent_count
skips limits b selected =
    leb limits.max_children_per_block (parent_count b.parent_block_id selected)
    && not (is_container b)

unfoldable pub select_loop :
    GraphBuildLimits → List LogicalBlockLite → List LogicalBlockLite → List LogicalBlockLite
unfolding skips
select_loop limits [] selected = selected
select_loop limits (b ∷ bs) selected =
    let skip = skips limits b selected in
    let next = if skip then selected else selected ++ (b ∷ []) in
    let rest = select_loop limits bs next in
    if not skip && leb limits.max_block_nodes (length next) then next else rest

pub record Selection : Type 0 where
  pub selected : List LogicalBlockLite
  pub warnings : List String

unfoldable pub select_blocks_for_graph :
    GraphBuildLimits → List LogicalBlockLite → List GeneratedChunk → List String → Selection
unfolding select_loop scored scored_leb
select_blocks_for_graph limits blocks chunks warnings =
    let order = map (λ x. x.block) (sort_by scored_leb (map (scored blocks chunks) blocks)) in
    let selected = select_loop limits order [] in
    record {
      selected = selected;
      warnings =
          if ltb (length selected) (length blocks)
          then warnings ++ ("GRAPH_NODE_LIMIT_REACHED" ∷ [])
          else warnings;
    }
