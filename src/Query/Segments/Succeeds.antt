-- ===== src/Query/Segments/Succeeds.antt =====
-- When a query can be segmented (src/query_processing/segmenter.rs: `segment_normalized_query`).
use llm.Base.{ℕ, ◌-◌, ◌*◌, ◌≤◌, ◌<◌, ◌≡◌, false, List, length, All, ◌⊎◌, u64_max}
use llm.Query.Profile.{Limits}
use llm.Query.Segmenter.{TokenOffset, slice, capacity, window_of}
use llm.Query.Segmenter.Ranges.{IsRange}
use llm.Query.Normalization.{NormalizedQuery, QueryTokenCounter, failed}
use llm.Query.Segments.{
  QuerySegment, QueryPlanningError, planned, refused, token_range, start_byte_at, end_byte_at, cut,
}

-- The tokenizer's offsets follow the text.
unfoldable pub InOrder : List TokenOffset → Type 0
InOrder os = (i j : ℕ) → i ≤ j → j < length os → start_byte_at os i ≤ end_byte_at os j

module _ (q : NormalizedQuery) (counter : QueryTokenCounter) (limits : Limits) where
  abbrev total : ℕ
  total = length q.token_offsets

  -- What the code relies on: the limits leave room for the query, and the offsets of the tokens
  -- follow the text.
  pub record IsSegmentable : Type 0 where
    pub some_tokens : 1 ≤ total
    pub some_room : 1 ≤ limits.segment_max_tokens
    pub no_overflow : limits.max_segments * window_of limits ≤ u64_max
    pub fits : total ≤ capacity limits
    pub in_order : InOrder q.token_offsets

  abbrev Ranges : List (ℕ × ℕ) → Type 0
  Ranges rs = All (IsRange total limits.segment_max_tokens) rs

  -- The tokenizer fails with the error on the text of some range of at most `segment_max_tokens`
  -- tokens of the query.
  pub record Fails (error : List ℕ) : Type 0 where
    pub range : ℕ × ℕ
    pub valid : IsRange total limits.segment_max_tokens range
    pub counted :
        counter.count_tokens
          (slice q.normalized_text
            (start_byte_at q.token_offsets range.0)
            (end_byte_at q.token_offsets (range.1 - 1)))
          limits.segment_max_tokens
          false
        ≡ failed error

  -- A segment with the range, or the tokenizer's error.
  abbrev Outcome : ℕ → ℕ × ℕ → Type 0
  Outcome index r =
      ((s : QuerySegment) × (cut q counter limits index r ≡ planned s) × (token_range s ≡ r))
      ⊎ ((e : List ℕ) × (cut q counter limits index r ≡ refused (QueryPlanningError.tokenization e))
          × Fails e)
