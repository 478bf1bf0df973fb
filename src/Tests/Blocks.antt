-- ===== src/Tests/Blocks.antt =====
-- A document with a section and a paragraph.
use llm.Base.{ℕ, refl, none, List, [], ◌∷◌, starts_with, contains}
use llm.Query.Intent.Sentences.{whitespace, trim}
use llm.Blocks.{
  BlockType, LogicalBlock, link_error, validate_source_links, validate_source_location, id_of,
  parent_of, check_block, check_blocks, count_roots, lookup, allowed_parent, validate_parent_child,
  check_named, check_parent, check_all, walk, walk_error, assert_no_logical_block_cycle, block_leb,
  insert, sort, all_checks, validate_and_sort_logical_blocks,
}
use llm.Blocks.Accepted.{IsDocument, validate_and_sort-IsDocument}

abbrev block : List ℕ → List ℕ → BlockType → ℕ → LogicalBlock
block id parent type order = record {
  block_id = id;
  parent_block_id = parent;
  block_type = type;
  text = 120 ∷ [];
  order_index = order;
  source_location = none;
  source_links = [];
}

abbrev root : LogicalBlock
root = block (97 ∷ []) [] BlockType.document 0

abbrev chapter : LogicalBlock
chapter = block (98 ∷ 32 ∷ []) (97 ∷ []) BlockType.section 2

abbrev note : LogicalBlock
note = block (99 ∷ []) (98 ∷ []) BlockType.paragraph 1

validate_and_sort-IsDocument_example :
    IsDocument (note ∷ root ∷ chapter ∷ []) (root ∷ note ∷ chapter ∷ [])
unfolding starts_with contains whitespace trim link_error validate_source_links
    validate_source_location id_of parent_of check_block check_blocks count_roots lookup
    allowed_parent validate_parent_child check_named check_parent check_all walk walk_error
    assert_no_logical_block_cycle block_leb insert sort all_checks validate_and_sort_logical_blocks
validate_and_sort-IsDocument_example =
    validate_and_sort-IsDocument (note ∷ root ∷ chapter ∷ []) (root ∷ note ∷ chapter ∷ []) refl
