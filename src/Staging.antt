-- ===== src/Staging.antt =====
-- The staged form of the blocks of a document: a block written to JSON and read back
-- (src/grpc/mod.rs).
pub mod Json
pub mod RoundTrip
use llm.Base.{ℕ, String, Bool, false, Option, none, some, List, [], ◌∷◌, get_or_else}
use llm.Staging.Json.{
  ℤ, pos, Value, bool, number, string, array, object, Items, nil, cons, Fields, end, field, get,
  bind, as_u64, as_i64, as_str, as_bool, as_object, as_array, as_u32, as_i32,
}

pub record SourceLocation : Type 0 where
  pub page_start : ℕ
  pub page_end : ℕ
  pub char_start : ℕ
  pub char_end : ℕ
  pub section_path : String
  pub heading : String
  pub table_id : String
  pub row_index : ℕ
  pub column_index : ℕ

pub record SourceLink : Type 0 where
  pub type : ℤ
  pub url : String
  pub label : String
  pub mime_type : String
  pub requires_auth : Bool
  pub expires_at : String
  pub attributes : List (String × String)

pub record LogicalBlock : Type 0 where
  pub block_id : String
  pub parent_block_id : String
  pub block_type : ℤ
  pub text : String
  pub order_index : ℕ
  pub source_location : Option SourceLocation
  pub source_links : List SourceLink
  pub metadata : List (String × String)

unfoldable pub map_to_json : List (String × String) → Fields
map_to_json [] = end
map_to_json ((k, v) ∷ m) = field k (string v) (map_to_json m)

unfoldable pub location_to_json : SourceLocation → Fields
location_to_json s = field "page_start" (number (pos s.page_start)) (
    field "page_end" (number (pos s.page_end)) (
      field "char_start" (number (pos s.char_start)) (
        field "char_end" (number (pos s.char_end)) (
          field "section_path" (string s.section_path) (
            field "heading" (string s.heading) (
              field "table_id" (string s.table_id) (
                field "row_index" (number (pos s.row_index))
                  (field "column_index" (number (pos s.column_index)) end))))))))

-- A block without a location is written with an empty object.
unfoldable pub optional_location_to_json : Option SourceLocation → Fields
unfolding location_to_json
optional_location_to_json none = end
optional_location_to_json (some s) = location_to_json s

unfoldable pub link_to_json : SourceLink → Fields
unfolding map_to_json
link_to_json l = field "type" (number l.type) (
    field "url" (string l.url) (
      field "label" (string l.label) (
        field "mime_type" (string l.mime_type) (
          field "requires_auth" (bool l.requires_auth) (
            field "expires_at" (string l.expires_at)
              (field "attributes" (object (map_to_json l.attributes)) end))))))

unfoldable pub links_to_json : List SourceLink → Items
unfolding link_to_json
links_to_json [] = nil
links_to_json (l ∷ ls) = cons (object (link_to_json l)) (links_to_json ls)

unfoldable pub logical_block_to_json : LogicalBlock → Value
unfolding map_to_json optional_location_to_json links_to_json
logical_block_to_json b = object (
    field "block_id" (string b.block_id) (
      field "parent_block_id" (string b.parent_block_id) (
        field "block_type" (number b.block_type) (
          field "text" (string b.text) (
            field "order_index" (number (pos b.order_index)) (
              field "metadata" (object (map_to_json b.metadata)) (
                field "source_location" (object (optional_location_to_json b.source_location))
                  (field "source_links" (array (links_to_json b.source_links)) end))))))))

-- A member read with its default, in the type the block holds.
abbrev pub u32_of : Fields → String → ℕ
u32_of fs k = as_u32 (get_or_else (bind (get k fs) as_u64) 0)

abbrev pub i32_of : Fields → String → ℤ
i32_of fs k = as_i32 (get_or_else (bind (get k fs) as_i64) (pos 0))

abbrev pub string_of : Fields → String → String
string_of fs k = get_or_else (bind (get k fs) as_str) ""

abbrev pub bool_of : Fields → String → Bool
bool_of fs k = get_or_else (bind (get k fs) as_bool) false

unfoldable pub map_from_json : Fields → List (String × String)
map_from_json end = []
map_from_json (field k v fs) = (k, get_or_else (as_str v) "") ∷ map_from_json fs

unfoldable pub optional_map : Option Fields → List (String × String)
unfolding map_from_json
optional_map none = []
optional_map (some fs) = map_from_json fs

unfoldable pub location_from_json : Fields → SourceLocation
location_from_json m = record {
  page_start = u32_of m "page_start";
  page_end = u32_of m "page_end";
  char_start = u32_of m "char_start";
  char_end = u32_of m "char_end";
  section_path = string_of m "section_path";
  heading = string_of m "heading";
  table_id = string_of m "table_id";
  row_index = u32_of m "row_index";
  column_index = u32_of m "column_index";
}

unfoldable pub optional_location : Option Fields → Option SourceLocation
unfolding location_from_json
optional_location none = none
optional_location (some m) = some (location_from_json m)

unfoldable pub link_from_json : Fields → SourceLink
unfolding optional_map
link_from_json m = record {
  type = i32_of m "type";
  url = string_of m "url";
  label = string_of m "label";
  mime_type = string_of m "mime_type";
  requires_auth = bool_of m "requires_auth";
  expires_at = string_of m "expires_at";
  attributes = optional_map (bind (get "attributes" m) as_object);
}

-- The items that are not objects are left out.
unfoldable pub links_from_json : Items → List SourceLink
unfolding link_from_json
links_from_json nil = []
links_from_json (cons (object m) xs) = link_from_json m ∷ links_from_json xs
links_from_json (cons v xs) = links_from_json xs

unfoldable pub optional_links : Option Items → List SourceLink
unfolding links_from_json
optional_links none = []
optional_links (some xs) = links_from_json xs

unfoldable pub block_from_fields : Fields → LogicalBlock
unfolding optional_map optional_location optional_links
block_from_fields obj = record {
  block_id = string_of obj "block_id";
  parent_block_id = string_of obj "parent_block_id";
  block_type = i32_of obj "block_type";
  text = string_of obj "text";
  order_index = u32_of obj "order_index";
  source_location = optional_location (bind (get "source_location" obj) as_object);
  source_links = optional_links (bind (get "source_links" obj) as_array);
  metadata = optional_map (bind (get "metadata" obj) as_object);
}

-- `none` is the `data_loss` status of a staged value that is not an object.
unfoldable pub logical_block_from_json : Value → Option LogicalBlock
unfolding block_from_fields
logical_block_from_json (object obj) = some (block_from_fields obj)
logical_block_from_json v = none
