-- ===== src/Graph/Relation.antt =====
-- The types of relations in the graph and their names (src/graph/mod.rs).
use llm.Base.{
  ℕ, ◌-◌, ◌≡◌, ◌↔◌, refl, sym, subst, ap, ◌∙◌, none, inl, inr, Bool-cases, String, Bool, true,
  false, ◌&&◌, Option, some, List, [], ◌∷◌, leb, if◌then◌else◌, same_text, same_text-eq, All,
}
use llm.Strings.{codes}
use llm.Query.Intent.Sentences.{trim}

pub data GraphRelationType : Type 0 where
  document_contains_block block_contains_block block_produced_chunk : GraphRelationType
  chunk_produced_by_block chunk_has_parent chunk_previous_sibling : GraphRelationType
  chunk_next_sibling chunk_same_table chunk_semantic_similar : GraphRelationType
  explains related_to repaired_by observed_by constrained_by produces : GraphRelationType
  constrains protected_by requires publishes_to : GraphRelationType

pub data GraphRelationClass : Type 0 where
  structural semantic_similarity semantic_domain : GraphRelationClass

abbrev pub as_str : GraphRelationType → String
as_str document_contains_block = "DOCUMENT_CONTAINS_BLOCK"
as_str block_contains_block = "BLOCK_CONTAINS_BLOCK"
as_str block_produced_chunk = "BLOCK_PRODUCED_CHUNK"
as_str chunk_produced_by_block = "CHUNK_PRODUCED_BY_BLOCK"
as_str chunk_has_parent = "CHUNK_HAS_PARENT"
as_str chunk_previous_sibling = "CHUNK_PREVIOUS_SIBLING"
as_str chunk_next_sibling = "CHUNK_NEXT_SIBLING"
as_str chunk_same_table = "CHUNK_SAME_TABLE"
as_str chunk_semantic_similar = "CHUNK_SEMANTIC_SIMILAR"
as_str explains = "EXPLAINS"
as_str related_to = "RELATED_TO"
as_str repaired_by = "REPAIRED_BY"
as_str observed_by = "OBSERVED_BY"
as_str constrained_by = "CONSTRAINED_BY"
as_str produces = "PRODUCES"
as_str constrains = "CONSTRAINS"
as_str protected_by = "PROTECTED_BY"
as_str requires = "REQUIRES"
as_str publishes_to = "PUBLISHES_TO"

unfoldable pub relation_class : GraphRelationType → GraphRelationClass
relation_class chunk_semantic_similar = GraphRelationClass.semantic_similarity
relation_class explains = GraphRelationClass.semantic_domain
relation_class related_to = GraphRelationClass.semantic_domain
relation_class repaired_by = GraphRelationClass.semantic_domain
relation_class observed_by = GraphRelationClass.semantic_domain
relation_class constrained_by = GraphRelationClass.semantic_domain
relation_class produces = GraphRelationClass.semantic_domain
relation_class constrains = GraphRelationClass.semantic_domain
relation_class protected_by = GraphRelationClass.semantic_domain
relation_class requires = GraphRelationClass.semantic_domain
relation_class publishes_to = GraphRelationClass.semantic_domain
relation_class _ = GraphRelationClass.structural

abbrev pub is_structural_class : GraphRelationClass → Bool
is_structural_class GraphRelationClass.structural = true
is_structural_class _ = false

unfoldable pub is_structural : GraphRelationType → Bool
unfolding relation_class
is_structural r = is_structural_class (relation_class r)

abbrev pub to_ascii_uppercase : List ℕ → List ℕ
to_ascii_uppercase [] = []
to_ascii_uppercase (c ∷ cs) = (if leb 97 c && leb c 122 then c - 32 else c) ∷ to_ascii_uppercase cs

-- The arms of the `match` of `from_str`, in their order.
abbrev pub arms : List (String × GraphRelationType)
arms =
    ("DOCUMENT_CONTAINS_BLOCK", document_contains_block)
    ∷ ("BLOCK_CONTAINS_BLOCK", block_contains_block)
    ∷ ("BLOCK_PRODUCED_CHUNK", block_produced_chunk)
    ∷ ("CHUNK_PRODUCED_BY_BLOCK", chunk_produced_by_block)
    ∷ ("CHUNK_HAS_PARENT", chunk_has_parent)
    ∷ ("CHUNK_PREVIOUS_SIBLING", chunk_previous_sibling)
    ∷ ("CHUNK_NEXT_SIBLING", chunk_next_sibling)
    ∷ ("CHUNK_SAME_TABLE", chunk_same_table)
    ∷ ("CHUNK_SEMANTIC_SIMILAR", chunk_semantic_similar)
    ∷ ("EXPLAINS", explains)
    ∷ ("RELATED_TO", related_to)
    ∷ ("REPAIRED_BY", repaired_by)
    ∷ ("OBSERVED_BY", observed_by)
    ∷ ("CONSTRAINED_BY", constrained_by)
    ∷ ("PRODUCES", produces)
    ∷ ("CONSTRAINS", constrains)
    ∷ ("PROTECTED_BY", protected_by)
    ∷ ("REQUIRES", requires)
    ∷ ("PUBLISHES_TO", publishes_to)
    ∷ []

-- The name in upper case that a text of UTF-8 bytes is read by.
unfoldable pub name_of : List ℕ → List ℕ
unfolding trim
name_of value = to_ascii_uppercase (trim value)

-- The first arm that matches.
unfoldable pub matched : List ℕ → List (String × GraphRelationType) → Option GraphRelationType
matched name [] = none
matched name ((literal, r) ∷ later_arms) =
    let later = matched name later_arms in if same_text name (codes literal) then some r else later

-- `none` is the error for an unsupported relation type.
unfoldable pub from_str : List ℕ → Option GraphRelationType
unfolding name_of matched
from_str value = matched (name_of value) arms

-- The literal of an arm is the name of its relation.
abbrev IsNamed : String × GraphRelationType → Type 0
IsNamed a = codes a.0 ≡ codes (as_str a.1)

arms-IsNamed : All IsNamed arms
arms-IsNamed = (
  refl,
  (
    refl,
    (
      refl,
      (
        refl,
        (
          refl,
          (
            refl,
            (
              refl,
              (
                refl,
                (
                  refl,
                  (
                    refl,
                    (refl, (refl, (refl, (refl, (refl, (refl, (refl, (refl, (refl, tt))))))))),
                  ),
                ),
              ),
            ),
          ),
        ),
      ),
    ),
  ),
)

matched-name :
    (name : List ℕ) (r : GraphRelationType) (later_arms : List (String × GraphRelationType))
    → All IsNamed later_arms
    → matched name later_arms ≡ some r
    → name ≡ codes (as_str r)
unfolding matched
matched-name name r [] h e = cc
matched-name name r ((literal, q) ∷ later_arms) h e =
    elim (Bool-cases (same_text name (codes literal))) [
      | inl m ↦
          let e' = rw m at e in
          let eq : q ≡ r = cc in
          same_text-eq name (codes literal) m ∙ h.0 ∙ ap (λ x. codes (as_str x)) eq
      | inr m ↦ let e' = rw m at e in matched-name name r later_arms h.1 e'
    ]

matched-as_str : (r : GraphRelationType) → matched (codes (as_str r)) arms ≡ some r
unfolding matched
matched-as_str document_contains_block = refl
matched-as_str block_contains_block = refl
matched-as_str block_produced_chunk = refl
matched-as_str chunk_produced_by_block = refl
matched-as_str chunk_has_parent = refl
matched-as_str chunk_previous_sibling = refl
matched-as_str chunk_next_sibling = refl
matched-as_str chunk_same_table = refl
matched-as_str chunk_semantic_similar = refl
matched-as_str explains = refl
matched-as_str related_to = refl
matched-as_str repaired_by = refl
matched-as_str observed_by = refl
matched-as_str constrained_by = refl
matched-as_str produces = refl
matched-as_str constrains = refl
matched-as_str protected_by = refl
matched-as_str requires = refl
matched-as_str publishes_to = refl

name_of-as_str : (r : GraphRelationType) → name_of (codes (as_str r)) ≡ codes (as_str r)
unfolding name_of llm.Query.Intent.Sentences.whitespace
name_of-as_str document_contains_block = refl
name_of-as_str block_contains_block = refl
name_of-as_str block_produced_chunk = refl
name_of-as_str chunk_produced_by_block = refl
name_of-as_str chunk_has_parent = refl
name_of-as_str chunk_previous_sibling = refl
name_of-as_str chunk_next_sibling = refl
name_of-as_str chunk_same_table = refl
name_of-as_str chunk_semantic_similar = refl
name_of-as_str explains = refl
name_of-as_str related_to = refl
name_of-as_str repaired_by = refl
name_of-as_str observed_by = refl
name_of-as_str constrained_by = refl
name_of-as_str produces = refl
name_of-as_str constrains = refl
name_of-as_str protected_by = refl
name_of-as_str requires = refl
name_of-as_str publishes_to = refl

-- A text is read as a relation exactly when, trimmed and in upper case, it is the relation's name.
pub from_str_iff :
    (value : List ℕ) (r : GraphRelationType)
    → (from_str value ≡ some r) ↔ (name_of value ≡ codes (as_str r))
unfolding from_str
from_str_iff value r = (
  λ h. matched-name (name_of value) r arms arms-IsNamed h,
  λ e. subst (λ n. matched n arms ≡ some r) (sym e) (matched-as_str r),
)

-- The name of a relation is read back as the relation.
pub from_str-as_str : (r : GraphRelationType) → from_str (codes (as_str r)) ≡ some r
from_str-as_str r = (from_str_iff (codes (as_str r)) r).1 (name_of-as_str r)
