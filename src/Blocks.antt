-- ===== src/Blocks.antt =====
-- The blocks of a logical document (src/grpc/mod.rs: `validate_and_sort_logical_blocks`). Texts are
-- lists of UTF-8 bytes.
mod Links
pub mod Tree
pub mod Accepted
pub use Links.{SourceLinkType, SourceLink, SourceLocation, LinkError}
unfoldable pub use Links.{link_error, validate_source_links, validate_source_location}
use llm.Base.{
  ℕ, zero, suc, ◌+◌, Bool, true, false, ◌&&◌, ◌||◌, not, Option, none, some, List, [], ◌∷◌, ltb,
  leb, ◌==◌, if◌then◌else◌, length, is_empty, any, find, same_text, text_leb,
}
use llm.Query.Intent.Sentences.{trim}

-- `pb::BlockType`; a number that is no block type reads as `unspecified`.
pub data BlockType : Type 0 where
  document section subsection paragraph table table_row list list_item faq_item : BlockType
  code_block caption unspecified : BlockType

-- `pb::LogicalBlock`, without the metadata.
pub record LogicalBlock : Type 0 where
  pub block_id : List ℕ
  pub parent_block_id : List ℕ
  pub block_type : BlockType
  pub text : List ℕ
  pub order_index : ℕ
  pub source_location : Option SourceLocation
  pub source_links : List SourceLink

-- The statuses of the code, by the names that their texts start with.
pub data BlockError : Type 0 where
  blocks_empty id_required duplicate_id type_invalid text_empty self_parent : BlockError
  location_invalid root_invalid parent_required parent_not_found parent_child_invalid : BlockError
  tree_cycle : BlockError
  link : LinkError → BlockError

pub data Checked : Type 0 where
  ok : List LogicalBlock → Checked
  err : BlockError → Checked

-- The first of two checks that fails, `?` after each.
abbrev pub first : Option BlockError → Option BlockError → Option BlockError
first none e = e
first (some d) e = some d

unfoldable pub id_of : LogicalBlock → List ℕ
id_of b = trim b.block_id

unfoldable pub parent_of : LogicalBlock → List ℕ
parent_of b = trim b.parent_block_id

abbrev pub is_document : BlockType → Bool
is_document BlockType.document = true
is_document _ = false

abbrev pub is_unspecified : BlockType → Bool
is_unspecified BlockType.unspecified = true
is_unspecified _ = false

of_link : Option LinkError → Option BlockError
of_link none = none
of_link (some e) = some (link e)

-- The body of the first loop; `seen` holds the keys of `by_id`.
unfoldable pub check_block : List (List ℕ) → LogicalBlock → Option BlockError
unfolding of_link
check_block seen b =
    if is_empty (id_of b)
    then some id_required
    else if any (same_text (id_of b)) seen
    then some duplicate_id
    else if is_unspecified b.block_type
    then some type_invalid
    else if is_empty (trim b.text)
    then some text_empty
    else if same_text (parent_of b) (id_of b)
    then some self_parent
    else if not (validate_source_location b.source_location)
    then some location_invalid
    else of_link (validate_source_links b.source_links)

unfoldable pub check_blocks : List (List ℕ) → List LogicalBlock → Option BlockError
unfolding check_block
check_blocks seen [] = none
check_blocks seen (b ∷ bs) = first (check_block seen b) (check_blocks (id_of b ∷ seen) bs)

unfoldable pub count_roots : List LogicalBlock → ℕ
count_roots [] = 0
count_roots (b ∷ bs) = if is_document b.block_type then suc (count_roots bs) else count_roots bs

-- `by_id.get(id)`
unfoldable pub lookup : List LogicalBlock → List ℕ → Option LogicalBlock
unfolding id_of
lookup bs id = find (λ b. same_text (id_of b) id) bs

-- The `match` of `validate_parent_child`; `root` tells whether the child names no parent.
unfoldable pub allowed_parent : BlockType → BlockType → Bool → Bool
allowed_parent BlockType.document _ root = root
allowed_parent BlockType.section BlockType.document root = true
allowed_parent BlockType.section BlockType.section root = true
allowed_parent BlockType.section _ root = false
allowed_parent BlockType.subsection BlockType.section root = true
allowed_parent BlockType.subsection BlockType.subsection root = true
allowed_parent BlockType.subsection _ root = false
allowed_parent BlockType.paragraph BlockType.document root = true
allowed_parent BlockType.paragraph BlockType.section root = true
allowed_parent BlockType.paragraph BlockType.subsection root = true
allowed_parent BlockType.paragraph _ root = false
allowed_parent BlockType.table BlockType.document root = true
allowed_parent BlockType.table BlockType.section root = true
allowed_parent BlockType.table BlockType.subsection root = true
allowed_parent BlockType.table _ root = false
allowed_parent BlockType.table_row BlockType.table root = true
allowed_parent BlockType.table_row _ root = false
allowed_parent BlockType.list BlockType.document root = true
allowed_parent BlockType.list BlockType.section root = true
allowed_parent BlockType.list BlockType.subsection root = true
allowed_parent BlockType.list BlockType.paragraph root = true
allowed_parent BlockType.list _ root = false
allowed_parent BlockType.list_item BlockType.list root = true
allowed_parent BlockType.list_item _ root = false
allowed_parent BlockType.faq_item BlockType.document root = true
allowed_parent BlockType.faq_item BlockType.section root = true
allowed_parent BlockType.faq_item BlockType.subsection root = true
allowed_parent BlockType.faq_item _ root = false
allowed_parent BlockType.code_block BlockType.document root = true
allowed_parent BlockType.code_block BlockType.section root = true
allowed_parent BlockType.code_block BlockType.subsection root = true
allowed_parent BlockType.code_block BlockType.paragraph root = true
allowed_parent BlockType.code_block _ root = false
allowed_parent BlockType.caption BlockType.table root = true
allowed_parent BlockType.caption BlockType.section root = true
allowed_parent BlockType.caption BlockType.subsection root = true
allowed_parent BlockType.caption _ root = false
allowed_parent BlockType.unspecified _ root = false

unfoldable pub validate_parent_child : LogicalBlock → LogicalBlock → Option BlockError
unfolding allowed_parent parent_of
validate_parent_child child parent =
    if allowed_parent child.block_type parent.block_type (is_empty (parent_of child))
    then none
    else some parent_child_invalid

unfoldable pub check_named : LogicalBlock → Option LogicalBlock → Option BlockError
unfolding validate_parent_child
check_named b none = some parent_not_found
check_named b (some p) = validate_parent_child b p

-- The body of the second loop.
unfoldable pub check_parent : List LogicalBlock → LogicalBlock → Option BlockError
unfolding check_named lookup
check_parent bs b =
    if is_empty (parent_of b)
    then if is_document b.block_type then none else some parent_required
    else check_named b (lookup bs (parent_of b))

unfoldable pub check_all :
    (LogicalBlock → Option BlockError) → List LogicalBlock → Option BlockError
check_all f [] = none
check_all f (b ∷ bs) = first (f b) (check_all f bs)

-- How a walk to the root ends; `stuck` is the end of the fuel.
pub data Walk : Type 0 where
  reached stuck : Walk
  failed : BlockError → Walk

-- The `while` loop of `assert_no_logical_block_cycle`, on fuel.
unfoldable pub walk : List LogicalBlock → ℕ → List (List ℕ) → LogicalBlock → Walk
unfolding lookup id_of parent_of
walk bs zero visited b = stuck
walk bs (suc fuel) visited b = elim (is_empty (parent_of b)) [
  | true ↦ reached
  | false ↦ elim (any (same_text (id_of b)) visited) [
    | true ↦ failed tree_cycle
    | false ↦ elim (lookup bs (parent_of b)) [
      | none ↦ failed parent_not_found
      | some p ↦ walk bs fuel (id_of b ∷ visited) p
    ]
  ]
]

unfoldable pub walk_error : Walk → Option BlockError
walk_error reached = none
walk_error stuck = none
walk_error (failed e) = some e

unfoldable pub assert_no_logical_block_cycle : List LogicalBlock → LogicalBlock → Option BlockError
unfolding walk walk_error
assert_no_logical_block_cycle bs b = walk_error (walk bs (length bs + 2) [] b)

unfoldable pub block_leb : LogicalBlock → LogicalBlock → Bool
block_leb a b =
    if a.order_index == b.order_index
    then text_leb a.block_id b.block_id
    else ltb a.order_index b.order_index

unfoldable pub insert : LogicalBlock → List LogicalBlock → List LogicalBlock
unfolding block_leb
insert b [] = b ∷ []
insert b (c ∷ cs) = if block_leb b c then b ∷ c ∷ cs else c ∷ insert b cs

unfoldable pub sort : List LogicalBlock → List LogicalBlock
unfolding insert
sort [] = []
sort (b ∷ bs) = insert b (sort bs)

unfoldable pub all_checks : List LogicalBlock → Option BlockError
unfolding check_blocks count_roots check_all check_parent assert_no_logical_block_cycle
all_checks bs = first (check_blocks [] bs) (
    if not (count_roots bs == 1)
    then some root_invalid
    else first (check_all (check_parent bs) bs) (check_all (assert_no_logical_block_cycle bs) bs))

unfoldable pub validate_and_sort_logical_blocks : List LogicalBlock → Checked
unfolding all_checks sort
validate_and_sort_logical_blocks bs =
    if is_empty bs
    then err blocks_empty
    else elim (all_checks bs) [ none ↦ ok (sort bs) | some e ↦ err e ]
