-- ===== src/Query/Normalization/Mapping/Normalized.antt =====
-- A normalized query is well formed (src/query_processing/normalization.rs: `normalize_query`).
use llm.Base.{
  ℕ, ◌≤◌, ◌<◌, ◌≡◌, true, some, List, [], ◌∷◌, arith, length, subst, All, inl, inr, Bool-cases,
}
use llm.Query.Normalization.{
  NormalizedQuery, QueryTokenCounter, Tokenized, tokens, failed, byte_len, original_byte_range,
  with_offsets, normalized_chars, normalize_query, validate_offsets, offset_is_valid,
}
use llm.Query.Segmenter.{TokenOffset}
use llm.Query.Normalization.Mapping.Boundaries.{
  IsMapping, render-IsMapping, original_byte_range_of_IsMapping,
}
use llm.Query.Normalization.Mapping.Chars.{normalized_chars-Ordered}

-- An offset that `validate_offsets` lets pass spans bytes of the text.
pub record IsOffset (text : List ℕ) (o : TokenOffset) : Type 0 where
  pub nonempty : o.start_byte < o.end_byte
  pub inside : o.end_byte ≤ length text

validate_offsets-All :
    (text : List ℕ) (os : List TokenOffset)
    → validate_offsets text os ≡ true
    → All (IsOffset text) os
unfolding validate_offsets offset_is_valid
validate_offsets-All text [] h = tt
validate_offsets-All text (o ∷ os) h = (
  record { nonempty = ground arith; inside = ground arith },
  validate_offsets-All text os (ground arith),
)

-- What a successful normalization gives.
pub record IsNormalized (original : List ℕ) (q : NormalizedQuery) : Type 0 where
  pub mapping : IsMapping (byte_len original) q.normalized_text q.normalized_to_original_byte_map
  pub offsets : All (IsOffset q.normalized_text) q.token_offsets

with_offsets-IsNormalized :
    (original : List ℕ) (r : List ℕ × List ℕ) (o : Tokenized (List TokenOffset))
    (q : NormalizedQuery)
    → IsMapping (byte_len original) r.0 r.1
    → with_offsets original r o ≡ tokens q
    → IsNormalized original q
unfolding with_offsets
with_offsets-IsNormalized original (text, map) (failed e) q m h = cc
with_offsets-IsNormalized original (text, map) (tokens os) q m h =
    elim (Bool-cases (validate_offsets text os)) [
      | inl e ↦
          let same : record {
            original_text = original;
            normalized_text = text;
            normalized_to_original_byte_map = map;
            token_offsets = os;
          }
              ≡ q =
            ground arith in
          subst (IsNormalized original) same
            (record { mapping = m; offsets = validate_offsets-All text os e })
      | inr e ↦ cc
    ]

module _ (original : List ℕ) (counter : QueryTokenCounter) (q : NormalizedQuery) where
  -- If a query is normalized, then the map has an entry for each boundary of the normalized text,
  -- the entries rise up to the length of the original text, and each token offset spans bytes of
  -- the normalized text.
  pub normalize_query-IsNormalized :
      normalize_query original counter ≡ tokens q → IsNormalized original q
  unfolding normalize_query
  normalize_query-IsNormalized h =
      with_offsets-IsNormalized original _ _ q
        (render-IsMapping (byte_len original) (normalized_chars original)
          (normalized_chars-Ordered original))
        h

  -- In a normalized query every range of the normalized text has a range of the original text, which
  -- is in order and ends within that text.
  pub normalize_query-original_byte_range :
      (left right : ℕ)
      → normalize_query original counter ≡ tokens q
      → left ≤ right
      → right ≤ length q.normalized_text
      → (a b : ℕ) × (original_byte_range q left right ≡ some (a, b))
        × (a ≤ b)
        × (b ≤ byte_len original)
  normalize_query-original_byte_range left right h le inside =
      original_byte_range_of_IsMapping q (byte_len original) left right
        (normalize_query-IsNormalized h).mapping le inside
