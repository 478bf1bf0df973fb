-- ===== src/Scheduler/Round/Fairness.antt =====
-- Which queue is served (src/scheduler/mod.rs: `run_loop`).
use llm.Base.{
  ℕ, suc, ◌⊎◌, ◌+◌, ◌≤◌, ◌<◌, ◌≡◌, ◌≢◌, refl, Bool, Option, none, some, List, [], arith, Bool-cases,
  is_empty, ◌&&◌, inl, inr,
}
use llm.Error.{AstraError}
use llm.Scheduler.Batch.{QueueKind, query, document, Job, Collect}
use llm.Scheduler.Round.{
  Config, State, Turn, Replies, served, choose, charge, receive, round, round_from, serve,
  serve_gathered, put_back,
}

-- The queue that a round serves is never empty.
abbrev pub NonEmpty : QueueKind → State → Type 0
NonEmpty query s = s.pending_query ≢ []
NonEmpty document s = s.pending_document ≢ []

module _ {E : Type 0} (cfg : Config) where
  serve_gathered-counter :
      (t : Turn E) (kind k : QueueKind) (s s' : State) (o : Option Collect)
      (rejected : List (Job × AstraError)) (r : Replies E)
      → serve_gathered cfg t kind s o ≡ served k s' rejected r
      → (k ≡ kind) × (s'.consecutive_query_batches ≡ s.consecutive_query_batches)
  unfolding serve_gathered put_back
  serve_gathered-counter t query k s s' none rejected r h = ground arith
  serve_gathered-counter t document k s s' none rejected r h = ground arith
  serve_gathered-counter t query k s s' (some c) rejected r h = ground arith
  serve_gathered-counter t document k s s' (some c) rejected r h = ground arith

  round_from-counter :
      (t : Turn E) (k : QueueKind) (s s' : State) (rejected : List (Job × AstraError))
      (r : Replies E)
      → round_from cfg t s ≡ served k s' rejected r
      → (k ≡ choose cfg s)
        × (s'.consecutive_query_batches ≡ charge k s.consecutive_query_batches)
        × NonEmpty k s
  unfolding round_from serve choose
  round_from-counter t k s s' rejected r h = elim (Bool-cases both_empty) [
    | inl e ↦ let h' = rw (e, round_from) at h in cc
    | inr e ↦
        let (c, n) =
          serve_gathered-counter t (choose cfg s) k _ s' _ rejected r (rw (e, round_from) at h) in
        ground (arith, c, n, e)
  ]
    where
      both_empty : Bool
      both_empty = is_empty s.pending_query && is_empty s.pending_document

  -- A served round serves a queue that holds a job.
  pub round-NonEmpty :
      (t : Turn E) (k : QueueKind) (s s' : State) (rejected : List (Job × AstraError))
      (r : Replies E)
      → round cfg t s ≡ served k s' rejected r
      → NonEmpty k (receive cfg t s)
  unfolding round
  round-NonEmpty t k s s' rejected r h =
      (round_from-counter t k (receive cfg t s) s' rejected r h).2

  round-query :
      (t : Turn E) (s s' : State) (rejected : List (Job × AstraError)) (r : Replies E)
      → round cfg t s ≡ served query s' rejected r
      → (receive cfg t s).pending_document ≢ []
      → (s.consecutive_query_batches < cfg.max_consecutive_queries)
        × (s'.consecutive_query_batches ≡ s.consecutive_query_batches + 1)
  unfolding round choose charge receive
  round-query t s s' rejected r h waits =
      ground (arith, round_from-counter t query (receive cfg t s) s' rejected r h, waits)

  -- Queries do not starve: after a round that served documents, a round in which queries are
  -- pending serves queries, if at least one query batch in a row is allowed.
  pub round-document_query :
      (t u : Turn E) (k : QueueKind) (s s' s'' : State)
      (rejected rejected' : List (Job × AstraError)) (r r' : Replies E)
      → 0 < cfg.max_consecutive_queries
      → round cfg t s ≡ served document s' rejected r
      → (receive cfg u s').pending_query ≢ []
      → round cfg u s' ≡ served k s'' rejected' r'
      → k ≡ query
  unfolding round choose charge receive
  round-document_query t u k s s' s'' rejected rejected' r r' pos h pending h' = ground (
    arith,
    round_from-counter t document (receive cfg t s) s' rejected r h,
    round_from-counter u k (receive cfg u s') s'' rejected' r' h',
    pending,
  )

module _ (E : Type 0) (cfg : Config) where
  -- Rounds in a row that serve queries while documents wait; the number counts them.
  pub data QueryRun : State → ℕ → Type 0 where
    start : (s : State) → QueryRun s 0
    next :
        (t : Turn E) (s s' : State) (rejected : List (Job × AstraError)) (r : Replies E) (n : ℕ)
        → round cfg t s ≡ served query s' rejected r
        → (receive cfg t s).pending_document ≢ []
        → QueryRun s' n
        → QueryRun s (suc n)

  QueryRun-counter :
      {s : State} {n : ℕ}
      → QueryRun s n
      → (n ≡ 0) ⊎ (s.consecutive_query_batches + n ≤ cfg.max_consecutive_queries)
  QueryRun-counter (start s) = inl refl
  QueryRun-counter (next t s s' rejected r n h waits more) =
      inr (omega (arith, round-query cfg t s s' rejected r h waits, QueryRun-counter more))

  -- Documents do not starve: while document jobs wait, at most `max_consecutive_queries` rounds in
  -- a row serve queries.
  pub QueryRun-le : (s : State) (n : ℕ) → QueryRun s n → n ≤ cfg.max_consecutive_queries
  QueryRun-le s n run = omega (arith, QueryRun-counter run)
