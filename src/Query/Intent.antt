-- ===== src/Query/Intent.antt =====
-- The intents of a query (src/query_processing/intent.rs). The word lists and regular expressions
-- are tests on a text that the definitions take as an argument; weights are in hundredths.
pub mod Sentences
pub mod Required
use llm.Base.{
  ℕ, ◌+◌, Bool, true, false, ◌&&◌, ◌||◌, not, Option, none, some, List, [], ◌∷◌, ◌++◌, map, ltb,
  leb, ◌==◌, if◌then◌else◌, length, is_empty, all, retain, get_elem?, last, min, max,
}
use llm.Query.Normalization.{NormalizedQuery, original_byte_range}
use llm.Query.Segments.{QuerySegment}
use Sentences.{Sentence, split_intent_sentences, trim, ends_with_question}

pub data QueryIntentKind : Type 0 where
  explicit_question imperative_request constraint technical_evidence context : QueryIntentKind
  implicit_search_intent : QueryIntentKind

-- `QueryIntentUnit` without the text's hash.
pub record QueryIntentUnit : Type 0 where
  pub id : ℕ
  pub kind : QueryIntentKind
  pub text : List ℕ
  pub source_segment_indices : List ℕ
  pub source_token_start : ℕ
  pub source_token_end : ℕ
  pub normalized_byte_start : ℕ
  pub normalized_byte_end : ℕ
  pub original_byte_start : ℕ
  pub original_byte_end : ℕ
  pub required : Bool
  pub searchable : Bool
  pub weight : ℕ

-- The tests of a text against word lists and regular expressions.
pub record TextTests : Type 0 where
  pub looks_like_technical_evidence : List ℕ → Bool
  pub has_imperative_prefix : List ℕ → Bool
  pub has_question_form : List ℕ → Bool
  pub has_constraint_prefix : List ℕ → Bool
  pub has_technical_identifier : List ℕ → Bool
  pub to_lowercase : List ℕ → List ℕ

unfoldable pub ranges_overlap : ℕ → ℕ → ℕ → ℕ → Bool
ranges_overlap left_start left_end right_start right_end =
    ltb left_start right_end && ltb right_start left_end

smallest : List ℕ → Option ℕ
smallest [] = none
smallest (x ∷ xs) = elim (smallest xs) [ none ↦ some x | some y ↦ some (min x y) ]

largest : List ℕ → Option ℕ
largest [] = none
largest (x ∷ xs) = elim (largest xs) [ none ↦ some x | some y ↦ some (max x y) ]

or_else : ℕ → Option ℕ → ℕ
or_else d none = d
or_else d (some a) = a

-- `filter_map(|index| segments.get(*index))`
picked : List QuerySegment → List ℕ → List QuerySegment
picked segments [] = []
picked segments (i ∷ is) =
    let rest = picked segments is in elim (get_elem? segments i) [ none ↦ rest | some s ↦ s ∷ rest ]

unfoldable pub touched : List QuerySegment → Sentence → List ℕ
unfolding ranges_overlap
touched segments sentence =
    map (λ s. s.index)
      (retain
        (λ s. ranges_overlap s.source_byte_start s.source_byte_end sentence.start sentence.end)
        segments)

unfoldable pub append_unit : List QueryIntentUnit → Option QueryIntentUnit → List QueryIntentUnit
append_unit units none = units
append_unit units (some u) = units ++ (u ∷ [])

whole_range : NormalizedQuery → Option (ℕ × ℕ) → ℕ × ℕ
whole_range q none = (0, length q.original_text)
whole_range q (some r) = r

end_of_last : Option QuerySegment → ℕ
end_of_last none = 0
end_of_last (some s) = s.source_token_end

unfoldable pub implicit_unit : NormalizedQuery → List QuerySegment → ℕ → QueryIntentUnit
unfolding whole_range end_of_last trim
implicit_unit q segments id =
    let original = whole_range q (original_byte_range q 0 (length q.normalized_text)) in
    record {
      id = id;
      kind = QueryIntentKind.implicit_search_intent;
      text = trim q.normalized_text;
      source_segment_indices = map (λ s. s.index) (retain (λ s. s.searchable) segments);
      source_token_start = 0;
      source_token_end = end_of_last (last segments);
      normalized_byte_start = 0;
      normalized_byte_end = length q.normalized_text;
      original_byte_start = original.0;
      original_byte_end = original.1;
      required = true;
      searchable = true;
      weight = 100;
    }

unfoldable pub with_implicit :
    NormalizedQuery → List QuerySegment → List QueryIntentUnit → List QueryIntentUnit
unfolding implicit_unit
with_implicit q segments units =
    if all (λ u. not u.required) units
    then units ++ (implicit_unit q segments (length units) ∷ [])
    else units

module _ (tests : TextTests) where
  unfoldable pub classify_intent : List ℕ → QueryIntentKind × Bool × ℕ
  unfolding trim ends_with_question
  classify_intent text =
      let lower = tests.to_lowercase (trim text) in
      if tests.looks_like_technical_evidence text
      then (QueryIntentKind.technical_evidence, false, 65)
      else if ends_with_question (trim text)
      then (QueryIntentKind.explicit_question, true, 100)
      else if tests.has_imperative_prefix lower || tests.has_question_form text
      then (QueryIntentKind.imperative_request, true, 100)
      else if tests.has_constraint_prefix lower
      then (QueryIntentKind.constraint, true, 90)
      else if tests.has_technical_identifier text
      then (QueryIntentKind.technical_evidence, false, 65)
      else (QueryIntentKind.context, false, 40)

  unit_of : ℕ → Sentence → List QuerySegment → List ℕ → Option (ℕ × ℕ) → Option QueryIntentUnit
  unfolding smallest largest or_else picked trim
  unit_of id sentence segments indices none = none
  unit_of id sentence segments indices (some original) =
      let starts =
        or_else 0 (smallest (map (λ s. s.source_token_start) (picked segments indices))) in
      let (kind, required, weight) = classify_intent (trim sentence.text) in
      some (record {
        id = id;
        kind = kind;
        text = trim sentence.text;
        source_segment_indices = indices;
        source_token_start = starts;
        source_token_end =
            or_else starts (largest (map (λ s. s.source_token_end) (picked segments indices)));
        normalized_byte_start = sentence.start;
        normalized_byte_end = sentence.end;
        original_byte_start = original.0;
        original_byte_end = original.1;
        required = required;
        searchable = true;
        weight = weight;
      })

  -- The unit of one sentence, or none where the loop continues.
  unfoldable pub unit_for :
      NormalizedQuery → List QuerySegment → ℕ → Sentence → Option QueryIntentUnit
  unfolding unit_of touched trim
  unit_for q segments id sentence =
      if is_empty (trim sentence.text) || is_empty (touched segments sentence)
      then none
      else unit_of id sentence segments (touched segments sentence)
          (original_byte_range q sentence.start sentence.end)

  -- The `for` loop over the sentences.
  unfoldable pub units_from :
      NormalizedQuery
      → List QuerySegment
      → List QueryIntentUnit
      → List Sentence
      → List QueryIntentUnit
  unfolding append_unit unit_for
  units_from q segments units [] = units
  units_from q segments units (s ∷ ss) =
      units_from q segments (append_unit units (unit_for q segments (length units) s)) ss

  unfoldable pub extract_query_intents_normalized :
      NormalizedQuery → List QuerySegment → List QueryIntentUnit
  unfolding with_implicit units_from split_intent_sentences
  extract_query_intents_normalized q segments =
      with_implicit q segments (units_from q segments [] (split_intent_sentences q.normalized_text))
