-- ===== src/Staging/RoundTrip.antt =====
-- A staged block read back (logical_block_to_json and logical_block_from_json of
-- src/grpc/mod.rs).
use llm.Base.{
  ℕ, ◌<◌, ◌^◌, ◌≡◌, refl, ap, ap₂, arith, String, Option, none, some, List, [], ◌∷◌, get_or_else,
  All,
}
use llm.Staging.Json.{ℤ, pos, negsuc, number, as_u64, as_i64, as_u32, as_i32}
use llm.Staging.{
  SourceLocation, SourceLink, LogicalBlock, map_to_json, location_to_json,
  optional_location_to_json, link_to_json, links_to_json, logical_block_to_json, map_from_json,
  optional_map, location_from_json, optional_location, link_from_json, links_from_json,
  optional_links, block_from_fields, logical_block_from_json,
}

-- A number that an `i32` holds.
unfoldable pub IsI32 : ℤ → Type 0
IsI32 (pos n) = n < 2 ^ 31
IsI32 (negsuc n) = n < 2 ^ 31

pub record IsLocation (s : SourceLocation) : Type 0 where
  pub page_start : s.page_start < 2 ^ 32
  pub page_end : s.page_end < 2 ^ 32
  pub char_start : s.char_start < 2 ^ 32
  pub char_end : s.char_end < 2 ^ 32
  pub row_index : s.row_index < 2 ^ 32
  pub column_index : s.column_index < 2 ^ 32

unfoldable pub IsOptional : Option SourceLocation → Type 0
IsOptional none = Unit
IsOptional (some s) = IsLocation s

-- Every number of a block is one of its type.
pub record IsTyped (b : LogicalBlock) : Type 0 where
  pub block_type : IsI32 b.block_type
  pub order_index : b.order_index < 2 ^ 32
  pub location : IsOptional b.source_location
  pub links : All (λ l. IsI32 l.type) b.source_links

as_u32_back : (n : ℕ) → n < 2 ^ 32 → as_u32 (get_or_else (as_u64 (number (pos n))) 0) ≡ n
as_u32_back n lt = ground arith

as_i32_back : (z : ℤ) → IsI32 z → as_i32 (get_or_else (as_i64 (number z)) (pos 0)) ≡ z
unfolding IsI32
as_i32_back (pos n) lt = ground arith
as_i32_back (negsuc n) lt = ground arith

map_from-map_to : (m : List (String × String)) → map_from_json (map_to_json m) ≡ m
unfolding map_from_json map_to_json
map_from-map_to [] = refl
map_from-map_to ((k, v) ∷ m) = ap (λ r. (k, v) ∷ r) (map_from-map_to m)

location_from-location_to :
    (s : SourceLocation) → IsLocation s → location_from_json (location_to_json s) ≡ s
unfolding location_from_json location_to_json
location_from-location_to s h = rw (
  as_u32_back s.page_start h.page_start,
  as_u32_back s.page_end h.page_end,
  as_u32_back s.char_start h.char_start,
  as_u32_back s.char_end h.char_end,
  as_u32_back s.row_index h.row_index,
  as_u32_back s.column_index h.column_index,
)

link_from-link_to : (l : SourceLink) → IsI32 l.type → link_from_json (link_to_json l) ≡ l
unfolding link_from_json link_to_json optional_map
link_from-link_to l h = rw (as_i32_back l.type h, map_from-map_to l.attributes)

links_from-links_to :
    (ls : List SourceLink) → All (λ l. IsI32 l.type) ls → links_from_json (links_to_json ls) ≡ ls
unfolding links_from_json links_to_json
links_from-links_to [] h = refl
links_from-links_to (l ∷ ls) h =
    ap₂ (λ x xs. x ∷ xs) (link_from-link_to l h.0) (links_from-links_to ls h.1)

-- The location that a missing one is read back as.
abbrev pub no_location : SourceLocation
no_location = record {
  page_start = 0;
  page_end = 0;
  char_start = 0;
  char_end = 0;
  section_path = "";
  heading = "";
  table_id = "";
  row_index = 0;
  column_index = 0;
}

abbrev pub located : LogicalBlock → LogicalBlock
located b = record b { source_location = some (get_or_else b.source_location no_location) }

optional_back :
    (o : Option SourceLocation)
    → IsOptional o
    → location_from_json (optional_location_to_json o) ≡ get_or_else o no_location
unfolding IsOptional optional_location_to_json location_from_json
optional_back none h = refl
optional_back (some s) h = location_from-location_to s h

-- A block whose numbers are ones of their types is read back from its staged form as it was
-- written, except that a missing source location comes back as the one with every field at its
-- default.
pub logical_block_from_json-logical_block_to_json :
    (b : LogicalBlock)
    → IsTyped b
    → logical_block_from_json (logical_block_to_json b) ≡ some (located b)
unfolding logical_block_from_json logical_block_to_json block_from_fields optional_map
    optional_location optional_links
logical_block_from_json-logical_block_to_json b h = rw (
  as_i32_back b.block_type h.block_type,
  as_u32_back b.order_index h.order_index,
  optional_back b.source_location h.location,
  links_from-links_to b.source_links h.links,
  map_from-map_to b.metadata,
)
