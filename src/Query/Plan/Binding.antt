-- ===== src/Query/Plan/Binding.antt =====
-- The binding of intents to segments (src/query_processing/planner.rs:
-- `bind_intents_to_segments`).
use llm.Base.{
  ℕ, zero, suc, Bool, true, false, Option, none, some, List, [], ◌∷◌, ◌++◌, map, if◌then◌else◌, any,
  head,
}
use llm.Query.Segments.{QuerySegment}
use llm.Query.Intent.{QueryIntentUnit}

-- `get_mut` and a change of the element, if there is one.
unfoldable pub update_at : (QuerySegment → QuerySegment) → ℕ → List QuerySegment → List QuerySegment
update_at f i [] = []
update_at f zero (s ∷ ss) = f s ∷ ss
update_at f (suc i) (s ∷ ss) = s ∷ update_at f i ss

abbrev pub cleared : QuerySegment → QuerySegment
cleared s = record s { required_for_coverage = false; intent_unit_ids = [] }

abbrev pub marked : QuerySegment → QuerySegment
marked s = record s { required_for_coverage = true }

abbrev pub listing : ℕ → QuerySegment → QuerySegment
listing id s = record s { intent_unit_ids = s.intent_unit_ids ++ (id ∷ []) }

unfoldable pub list_in : ℕ → List ℕ → List QuerySegment → List QuerySegment
unfolding update_at
list_in id [] ss = ss
list_in id (i ∷ is) ss = list_in id is (update_at (listing id) i ss)

unfoldable pub mark_first : Option ℕ → List QuerySegment → List QuerySegment
unfolding update_at
mark_first none ss = ss
mark_first (some i) ss = update_at marked i ss

unfoldable pub bind_intent : QueryIntentUnit → List QuerySegment → List QuerySegment
unfolding list_in mark_first
bind_intent u ss =
    let listed = list_in u.id u.source_segment_indices ss in
    if u.required then mark_first (head u.source_segment_indices) listed else listed

unfoldable pub bind_all : List QueryIntentUnit → List QuerySegment → List QuerySegment
unfolding bind_intent
bind_all [] ss = ss
bind_all (u ∷ us) ss = bind_all us (bind_intent u ss)

abbrev pub is_marked : QuerySegment → Bool
is_marked s = s.required_for_coverage

unfoldable pub fall_back : List QuerySegment → List QuerySegment
unfolding update_at
fall_back ss = if any is_marked ss then ss else update_at marked 0 ss

unfoldable pub bind_intents_to_segments :
    List QuerySegment → List QueryIntentUnit → List QuerySegment
unfolding bind_all fall_back
bind_intents_to_segments ss us = fall_back (bind_all us (map cleared ss))
