-- ===== src/Tests/Staging.antt =====
-- A block that is staged and read back.
use llm.Base.{◌≡◌, arith, false, none, some, [], ◌∷◌}
use llm.Staging.Json.{pos}
use llm.Staging.{SourceLink, LogicalBlock, logical_block_to_json, logical_block_from_json}
use llm.Staging.RoundTrip.{
  IsI32, IsOptional, IsTyped, located, logical_block_from_json-logical_block_to_json,
}

abbrev preview : SourceLink
preview = record {
  type = pos 2;
  url = "https://a";
  label = "A";
  mime_type = "text/html";
  requires_auth = false;
  expires_at = "";
  attributes = ("lang", "kk") ∷ [];
}

abbrev staged : LogicalBlock
staged = record {
  block_id = "b1";
  parent_block_id = "";
  block_type = pos 3;
  text = "body";
  order_index = 7;
  source_location = none;
  source_links = preview ∷ [];
  metadata = ("k", "v") ∷ [];
}

staged-IsTyped : IsTyped staged
unfolding IsI32 IsOptional
staged-IsTyped = record {
  block_type = omega arith;
  order_index = omega arith;
  location = tt;
  links = (omega arith, tt);
}

logical_block_from_json-logical_block_to_json_example :
    logical_block_from_json (logical_block_to_json staged) ≡ some (located staged)
logical_block_from_json-logical_block_to_json_example =
    logical_block_from_json-logical_block_to_json staged staged-IsTyped
