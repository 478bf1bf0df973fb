-- ===== src/Scheduler/Round/Conserve.antt =====
-- A round of the scheduler loses no job (src/scheduler/mod.rs: `run_loop`).
use llm.Base.{
  ℕ, ◌+◌, ◌≡◌, refl, subst, Bool, Option, none, some, List, arith, Bool-cases, inl, inr, is_empty,
  ◌&&◌, take,
}
use llm.Error.{AstraError}
use llm.Scheduler.Batch.{QueueKind, query, document, Job, Collect}
use llm.Scheduler.Batch.Count.{count, count_rejected, count-append, count-take-drop}
use llm.Scheduler.Batch.Conserve.{collect-conserves}
use llm.Scheduler.Round.{
  Config, State, Turn, Replies, Round, idle, served, unfinished, receive, round, wake, round_from,
  serve, serve_gathered, put_back, retry_policy, gather,
}
use llm.Scheduler.Round.Answers.{receivers, finish-IsServed}

-- How often a job waits: in a channel or in a queue.
abbrev pub waiting : ℕ → State → ℕ
waiting a s =
    count a s.query_channel
    + count a s.document_channel
    + count a s.pending_query
    + count a s.pending_document

module _ {E : Type 0} where
  -- How often a job waits or has been dealt with when a round ends.
  abbrev pub accounted : ℕ → State → List (Job × AstraError) → Replies E → ℕ
  accounted a s rejected r =
      waiting a s + count_rejected a rejected + count a (receivers r.sent) + count a r.dropped

  abbrev pub IsConserved : ℕ → ℕ → Round E → Type 0
  IsConserved a n (idle s) = waiting a s ≡ n
  IsConserved a n (served k s rejected r) = accounted a s rejected r ≡ n
  IsConserved a n unfinished = Unit

waiting-wake : (a : ℕ) (o : Option QueueKind) (s : State) → waiting a (wake o s) ≡ waiting a s
unfolding wake
waiting-wake a none s = refl
waiting-wake a (some query) s = omega (
  arith,
  count-append a s.pending_query (take 1 s.query_channel),
  count-take-drop a 1 s.query_channel,
)
waiting-wake a (some document) s = omega (
  arith,
  count-append a s.pending_document (take 1 s.document_channel),
  count-take-drop a 1 s.document_channel,
)

module _ {E : Type 0} (cfg : Config) where
  waiting-receive : (t : Turn E) (a : ℕ) (s : State) → waiting a (receive cfg t s) ≡ waiting a s
  unfolding receive
  waiting-receive t a s = omega (
    arith,
    count-append a s.pending_query (take t.visible_query s.query_channel),
    count-append a s.pending_document (take t.visible_document s.document_channel),
    count-take-drop a t.visible_query s.query_channel,
    count-take-drop a t.visible_document s.document_channel,
  )

  serve_gathered-accounted :
      (t : Turn E) (a : ℕ) (kind k : QueueKind) (s s' : State) (c : Collect)
      (rejected : List (Job × AstraError)) (r : Replies E)
      → gather cfg t kind s ≡ some c
      → serve_gathered cfg t kind s (some c) ≡ served k s' rejected r
      → accounted a s' rejected r ≡ waiting a s
  unfolding serve_gathered put_back gather
  serve_gathered-accounted t a query k s s' c rejected r g h =
      let (r', e, fine) = finish-IsServed (retry_policy cfg query) t.engine c.jobs in
      ground (
        arith,
        e,
        fine.each_once a,
        collect-conserves query cfg.query_profile cfg.buckets t.polls s.pending_query
            s.query_channel c g a,
      )
  serve_gathered-accounted t a document k s s' c rejected r g h =
      let (r', e, fine) = finish-IsServed (retry_policy cfg document) t.engine c.jobs in
      ground (
        arith,
        e,
        fine.each_once a,
        collect-conserves document cfg.document_profile cfg.buckets t.polls s.pending_document
            s.document_channel c g a,
      )

  serve_gathered-conserves :
      (t : Turn E) (a : ℕ) (kind : QueueKind) (s : State) (o : Option Collect)
      → gather cfg t kind s ≡ o
      → IsConserved a (waiting a s) (serve_gathered cfg t kind s o)
  unfolding serve_gathered
  serve_gathered-conserves t a kind s none g = tt
  serve_gathered-conserves t a kind s (some c) g =
      let (r, e, _) = finish-IsServed (retry_policy cfg kind) t.engine c.jobs in
      rw (e, serve_gathered)
        (serve_gathered-accounted t a kind kind s (put_back kind c s) c c.rejected r g
          (rw (e, serve_gathered)))

  -- A round loses no job and doubles none: if it ends, each job that waited in a channel or a queue
  -- waits still, or was answered or dropped, as often as before in all; an idle round only moves
  -- jobs.
  pub round-conserves :
      (t : Turn E) (a : ℕ) (s : State) → IsConserved a (waiting a s) (round cfg t s)
  unfolding round round_from serve
  round-conserves t a s =
      subst (λ n. IsConserved a n (round cfg t s)) (waiting-receive t a s)
        (elim (Bool-cases both_empty) [
          | inl e ↦ rw (e, round_from) (waiting-wake a t.woken_by (receive cfg t s))
          | inr e ↦ rw (e, round_from) (serve_gathered-conserves t a _ _ _ refl)
        ])
    where
      both_empty : Bool
      both_empty =
          is_empty (receive cfg t s).pending_query && is_empty (receive cfg t s).pending_document
