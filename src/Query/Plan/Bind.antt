-- ===== src/Query/Plan/Bind.antt =====
-- How intents are bound to segments (src/query_processing/planner.rs: `bind_intents_to_segments`).
use llm.Base.{
  ℕ, zero, suc, ◌≤◌, ◌≡◌, ap, refl, Bool, true, false, ◌&&◌, ◌||◌, not, Option, none, some, List,
  [], ◌∷◌, ◌++◌, map, arith, ◌==◌, if◌then◌else◌, length, any, head, get_elem?, inl, inr,
  Bool-cases, ◌∙◌, length-map,
}
use mathlib.Core.List.{append-nil, append_assoc}
use llm.Query.Segments.{QuerySegment}
use llm.Query.Intent.{QueryIntentUnit}
use llm.Query.Plan.Binding.{
  update_at, cleared, marked, listing, list_in, mark_first, bind_intent, bind_all, is_marked,
  fall_back, bind_intents_to_segments,
}

-- The id, once for each time that the position stands in the list.
abbrev pub times : ℕ → ℕ → List ℕ → List ℕ
times id i [] = []
times id i (j ∷ js) = if j == i then id ∷ times id i js else times id i js

-- The ids of the intents that touch the segment at a position.
abbrev pub ids_for : ℕ → List QueryIntentUnit → List ℕ
ids_for i [] = []
ids_for i (u ∷ us) = times u.id i u.source_segment_indices ++ ids_for i us

abbrev leads : ℕ → Option ℕ → Bool
leads i none = false
leads i (some j) = j == i

-- Does a required intent start at the position?
abbrev pub represents : ℕ → List QueryIntentUnit → Bool
represents i [] = false
represents i (u ∷ us) = (u.required && leads i (head u.source_segment_indices)) || represents i us

abbrev pub bound : QuerySegment → List ℕ → Bool → QuerySegment
bound s ids r = record s { intent_unit_ids = ids; required_for_coverage = r }

length-update_at :
    (f : QuerySegment → QuerySegment) (i : ℕ) (ss : List QuerySegment)
    → length (update_at f i ss) ≡ length ss
unfolding update_at
length-update_at f i [] = refl
length-update_at f zero (s ∷ ss) = refl
length-update_at f (suc i) (s ∷ ss) = ap suc (length-update_at f i ss)

get_elem?-update_at :
    (f : QuerySegment → QuerySegment) (j i : ℕ) (ss : List QuerySegment) (s : QuerySegment)
    → get_elem? ss i ≡ some s
    → get_elem? (update_at f j ss) i ≡ some (if j == i then f s else s)
unfolding update_at
get_elem?-update_at f j i [] s h = cc
get_elem?-update_at f zero zero (x ∷ ss) s h = ground arith
get_elem?-update_at f zero (suc i) (x ∷ ss) s h = ground arith
get_elem?-update_at f (suc j) zero (x ∷ ss) s h = ground arith
get_elem?-update_at f (suc j) (suc i) (x ∷ ss) s h =
    ground (arith, get_elem?-update_at f j i ss s h)

get_elem?-list_in :
    (id : ℕ) (js : List ℕ) (i : ℕ) (ss : List QuerySegment) (s : QuerySegment)
    → get_elem? ss i ≡ some s
    → get_elem? (list_in id js ss) i
      ≡ some (bound s (s.intent_unit_ids ++ times id i js) s.required_for_coverage)
unfolding list_in
get_elem?-list_in id [] i ss s h = rw (append-nil s.intent_unit_ids) h
get_elem?-list_in id (j ∷ js) i ss s h = elim (Bool-cases (j == i)) [
  | inl e ↦
      let step : get_elem? (update_at (listing id) j ss) i ≡ some (listing id s) =
        get_elem?-update_at (listing id) j i ss s h ∙ rw e refl in
      get_elem?-list_in id js i (update_at (listing id) j ss) (listing id s) step
      ∙ rw (e, append_assoc s.intent_unit_ids (id ∷ []) (times id i js)) refl
  | inr e ↦
      let step : get_elem? (update_at (listing id) j ss) i ≡ some s =
        get_elem?-update_at (listing id) j i ss s h ∙ rw e refl in
      get_elem?-list_in id js i (update_at (listing id) j ss) s step ∙ rw e refl
]

get_elem?-mark_first :
    (o : Option ℕ) (i : ℕ) (ss : List QuerySegment) (s : QuerySegment)
    → get_elem? ss i ≡ some s
    → get_elem? (mark_first o ss) i
      ≡ some (bound s s.intent_unit_ids (leads i o || s.required_for_coverage))
unfolding mark_first
get_elem?-mark_first none i ss s h = h
get_elem?-mark_first (some j) i ss s h = elim (Bool-cases (j == i)) [
  | inl e ↦ get_elem?-update_at marked j i ss s h ∙ rw e refl
  | inr e ↦ get_elem?-update_at marked j i ss s h ∙ rw e refl
]

abbrev after : QueryIntentUnit → ℕ → QuerySegment → QuerySegment
after u i s =
    bound s (s.intent_unit_ids ++ times u.id i u.source_segment_indices)
      ((u.required && leads i (head u.source_segment_indices)) || s.required_for_coverage)

get_elem?-bind_intent :
    (u : QueryIntentUnit) (i : ℕ) (ss : List QuerySegment) (s : QuerySegment)
    → get_elem? ss i ≡ some s
    → get_elem? (bind_intent u ss) i ≡ some (after u i s)
unfolding bind_intent
get_elem?-bind_intent u i ss s h =
    let listed = get_elem?-list_in u.id u.source_segment_indices i ss s h in
    elim (Bool-cases u.required) [
      | inl e ↦ rw e (
          get_elem?-mark_first (head u.source_segment_indices) i
            (list_in u.id u.source_segment_indices ss) _ listed)
      | inr e ↦ rw e listed
    ]

or-assoc-swap : (a b c : Bool) → (b || (a || c)) ≡ ((a || b) || c)
or-assoc-swap a b c = ground arith

get_elem?-bind_all :
    (us : List QueryIntentUnit) (i : ℕ) (ss : List QuerySegment) (s : QuerySegment)
    → get_elem? ss i ≡ some s
    → get_elem? (bind_all us ss) i
      ≡ some
          (bound s (s.intent_unit_ids ++ ids_for i us) (represents i us || s.required_for_coverage))
unfolding bind_all
get_elem?-bind_all [] i ss s h = rw (append-nil s.intent_unit_ids) h
get_elem?-bind_all (u ∷ us) i ss s h =
    get_elem?-bind_all us i (bind_intent u ss) (after u i s) (get_elem?-bind_intent u i ss s h)
    ∙ rw
        (
          append_assoc s.intent_unit_ids (times u.id i u.source_segment_indices) (ids_for i us),
          or-assoc-swap (u.required && leads i (head u.source_segment_indices)) (represents i us)
              s.required_for_coverage,
        )
        refl

get_elem?-cleared :
    (i : ℕ) (ss : List QuerySegment) (s : QuerySegment)
    → get_elem? ss i ≡ some s
    → get_elem? (map cleared ss) i ≡ some (cleared s)
get_elem?-cleared i [] s h = cc
get_elem?-cleared zero (x ∷ ss) s h = ground arith
get_elem?-cleared (suc i) (x ∷ ss) s h = get_elem?-cleared i ss s h

or-false : (b : Bool) → (b || false) ≡ b
or-false true = refl
or-false false = refl

get_elem?-fall_back :
    (i : ℕ) (ss : List QuerySegment) (s : QuerySegment)
    → get_elem? ss i ≡ some s
    → get_elem? (fall_back ss) i
      ≡ some (
          bound s s.intent_unit_ids (s.required_for_coverage || (not (any is_marked ss) && i == 0)))
unfolding fall_back
get_elem?-fall_back i ss s h = elim (Bool-cases (any is_marked ss)) [
  | inl e ↦ rw e (h ∙ rw (or-false s.required_for_coverage) refl)
  | inr e ↦ rw e (get_elem?-update_at marked 0 i ss s h ∙ first i s)
]
  where
    first :
        (i : ℕ) (s : QuerySegment)
        → some (if 0 == i then marked s else s)
          ≡ some (bound s s.intent_unit_ids (s.required_for_coverage || (true && i == 0)))
    first zero s = ground arith
    first (suc i) s = ground (arith, or-false s.required_for_coverage)

-- Binding changes no segment but for the ids that it lists and its mark: the segment at a position
-- lists the ids of the intents that touch the position, in their order, and is marked if a required
-- intent starts there, or if it is the first one and no required intent starts at a segment.
pub get_elem?-bind_intents :
    (us : List QueryIntentUnit) (i : ℕ) (ss : List QuerySegment) (s : QuerySegment)
    → get_elem? ss i ≡ some s
    → get_elem? (bind_intents_to_segments ss us) i
      ≡ some (
          bound s
            (ids_for i us)
            (represents i us || (not (any is_marked (bind_all us (map cleared ss))) && i == 0)))
unfolding bind_intents_to_segments
get_elem?-bind_intents us i ss s h =
    get_elem?-fall_back i (bind_all us (map cleared ss)) _
      (get_elem?-bind_all us i (map cleared ss) (cleared s) (get_elem?-cleared i ss s h))
    ∙ rw (or-false (represents i us)) refl

fall_back-marked : (ss : List QuerySegment) → 1 ≤ length ss → any is_marked (fall_back ss) ≡ true
unfolding fall_back update_at
fall_back-marked [] le = absurd (omega arith)
fall_back-marked (s ∷ ss) le = ground arith

length-list_in :
    (id : ℕ) (is : List ℕ) (ss : List QuerySegment) → length (list_in id is ss) ≡ length ss
unfolding list_in
length-list_in id [] ss = refl
length-list_in id (i ∷ is) ss =
    length-list_in id is (update_at (listing id) i ss) ∙ length-update_at (listing id) i ss

length-mark_first : (o : Option ℕ) (ss : List QuerySegment) → length (mark_first o ss) ≡ length ss
unfolding mark_first
length-mark_first none ss = refl
length-mark_first (some i) ss = length-update_at marked i ss

length-bind_intent :
    (u : QueryIntentUnit) (ss : List QuerySegment) → length (bind_intent u ss) ≡ length ss
unfolding bind_intent
length-bind_intent u ss =
    let listed = list_in u.id u.source_segment_indices ss in
    let same = length-list_in u.id u.source_segment_indices ss in
    elim (Bool-cases u.required) [
      | inl e ↦ rw e (length-mark_first (head u.source_segment_indices) listed ∙ same)
      | inr e ↦ rw e same
    ]

length-bind_all :
    (us : List QueryIntentUnit) (ss : List QuerySegment) → length (bind_all us ss) ≡ length ss
unfolding bind_all
length-bind_all [] ss = refl
length-bind_all (u ∷ us) ss = length-bind_all us (bind_intent u ss) ∙ length-bind_intent u ss

length-fall_back : (ss : List QuerySegment) → length (fall_back ss) ≡ length ss
unfolding fall_back
length-fall_back ss = elim (Bool-cases (any is_marked ss)) [
  | inl e ↦ rw e refl
  | inr e ↦ rw e (length-update_at marked 0 ss)
]

pub length-bind_intents :
    (us : List QueryIntentUnit) (ss : List QuerySegment)
    → length (bind_intents_to_segments ss us) ≡ length ss
unfolding bind_intents_to_segments
length-bind_intents us ss =
    length-fall_back (bind_all us (map cleared ss))
    ∙ (length-bind_all us (map cleared ss) ∙ length-map cleared ss)

-- After binding at least one segment is marked as required, if there is a segment at all.
pub bind_intents-marked :
    (us : List QueryIntentUnit) (ss : List QuerySegment)
    → 1 ≤ length ss
    → any is_marked (bind_intents_to_segments ss us) ≡ true
unfolding bind_intents_to_segments
bind_intents-marked us ss le =
    fall_back-marked (bind_all us (map cleared ss))
      (omega (arith, length-bind_all us (map cleared ss), length-map cleared ss))
