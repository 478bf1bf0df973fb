-- ===== src/Scheduler/Round.antt =====
-- One round of the scheduler's loop: receive, choose a queue, gather a batch, run the engine, answer
-- (src/scheduler/mod.rs: `run_loop`). The channels hold the jobs that are still to be received.
-- Metrics are left out, and so is the end of the loop when both channels are closed.
pub mod Answers
pub mod Fairness
pub mod Conserve
use llm.Base.{
  ℕ, zero, suc, ◌+◌, min, Bool, true, false, ◌&&◌, ◌||◌, not, Option, none, some, List, [], ◌∷◌,
  ◌++◌, map, ltb, leb, ◌==◌, if◌then◌else◌, is_empty, length, retain, take, drop,
}
use llm.Error.{AstraError, Result, ok, err}
use llm.Scheduler.Retry.{RetryPolicyConfig, Attempt, Run, encode_batch_with_retry}
use llm.Scheduler.Batch.{
  QueueKind, query, document, Job, BatchProfile, Collect, Poll, collect, start,
}

pub record Config : Type 0 where
  pub query_profile : BatchProfile
  pub document_profile : BatchProfile
  pub buckets : List ℕ
  pub max_consecutive_queries : ℕ
  pub query_retry : RetryPolicyConfig
  pub document_retry : RetryPolicyConfig

pub record State : Type 0 where
  pub query_channel : List Job
  pub document_channel : List Job
  pub pending_query : List Job
  pub pending_document : List Job
  pub consecutive_query_batches : ℕ

-- What happens around a batch once it is gathered: the clock, the tokens, the engine's turns.
pub record Engine (E : Type 0) : Type 0 where
  pub now : ℕ
  pub cancelled : ℕ → Bool
  pub attempts : List Job → ℕ → Attempt (List E)

-- What the environment does in a round.
pub record Turn (E : Type 0) : Type 0 where
  pub visible_query : ℕ
  pub visible_document : ℕ
  pub woken_by : Option QueueKind
  pub polls : List Poll
  pub engine : Engine E

-- `jobs.iter().map(|job| job.deadline).min()`
unfoldable pub earliest_deadline : List Job → Option ℕ
earliest_deadline [] = none
earliest_deadline (j ∷ js) = elim (earliest_deadline js) [
  | none ↦ some j.deadline
  | some d ↦ some (min j.deadline d)
]

-- `dropped` are the jobs whose answer channel is closed without an answer.
pub record Replies (E : Type 0) : Type 0 where
  pub sent : List (Job × Result E)
  pub dropped : List Job

module _ {E : Type 0} where
  unfoldable pub send_all : AstraError → List Job → List (Job × Result E)
  send_all e [] = []
  send_all e (j ∷ js) = (j, err e) ∷ send_all e js

  unfoldable pub zip_ok : List Job → List E → List (Job × Result E)
  zip_ok (j ∷ js) (r ∷ rs) = (j, ok r) ∷ zip_ok js rs
  zip_ok _ _ = []

  unfoldable pub distribute : List Job → Result (List E) → List (Job × Result E)
  distribute jobs (ok results) =
      if length results == length jobs
      then zip_ok jobs results
      else send_all (AstraError.internal "engine result count mismatch") jobs
  distribute jobs (err e) = send_all e jobs

  -- The batch after its deadline was checked; `none` is a retry loop that does not end.
  encode : RetryPolicyConfig → Engine E → ℕ → List Job → List Job → Option (Replies E)
  encode policy engine deadline dropped [] = some (record { sent = []; dropped = dropped })
  encode policy engine deadline dropped (j ∷ js) =
      elim (encode_batch_with_retry policy deadline (engine.attempts (j ∷ js))) [
        | none ↦ none
        | some run ↦ some (record { sent = distribute (j ∷ js) run.result; dropped = dropped })
      ]

  finish_by : RetryPolicyConfig → Engine E → List Job → Option ℕ → Option (Replies E)
  unfolding encode
  finish_by policy engine jobs none = some (record { sent = []; dropped = [] })
  finish_by policy engine jobs (some deadline) =
      if leb deadline engine.now
      then some (record {
        sent = send_all (AstraError.deadline_exceeded "batch deadline") jobs;
        dropped = [];
      })
      else encode policy engine deadline (retain (λ j. engine.cancelled j.id) jobs)
          (retain (λ j. not (engine.cancelled j.id)) jobs)

  unfoldable pub finish : RetryPolicyConfig → Engine E → List Job → Option (Replies E)
  unfolding finish_by
  finish policy engine jobs = finish_by policy engine jobs (earliest_deadline jobs)

unfoldable pub choose : Config → State → QueueKind
choose cfg s =
    if not (is_empty s.pending_query)
      && (ltb s.consecutive_query_batches cfg.max_consecutive_queries
          || is_empty s.pending_document)
    then query
    else document

unfoldable pub charge : QueueKind → ℕ → ℕ
charge query n = n + 1
charge document n = 0

-- A round ends idle, with a batch that was served, or is still going when the polls end.
pub data Round (E : Type 0) : Type 0 where
  idle : State → Round E
  served : QueueKind → State → List (Job × AstraError) → Replies E → Round E
  unfinished : Round E

-- The `select!` of an idle round: at most one job is received.
wake : Option QueueKind → State → State
wake none s = s
wake (some query) s = record s {
  query_channel = drop 1 s.query_channel;
  pending_query = s.pending_query ++ take 1 s.query_channel;
}
wake (some document) s = record s {
  document_channel = drop 1 s.document_channel;
  pending_document = s.pending_document ++ take 1 s.document_channel;
}

-- The queue and the channel after the batch was gathered.
put_back : QueueKind → Collect → State → State
put_back query c s = record s { pending_query = c.queue; query_channel = c.channel }
put_back document c s = record s { pending_document = c.queue; document_channel = c.channel }

retry_policy : Config → QueueKind → RetryPolicyConfig
retry_policy cfg query = cfg.query_retry
retry_policy cfg document = cfg.document_retry

module _ {E : Type 0} (cfg : Config) where
  unfoldable pub receive : Turn E → State → State
  receive t s = record s {
    query_channel = drop t.visible_query s.query_channel;
    document_channel = drop t.visible_document s.document_channel;
    pending_query = s.pending_query ++ take t.visible_query s.query_channel;
    pending_document = s.pending_document ++ take t.visible_document s.document_channel;
  }

  gather : Turn E → QueueKind → State → Option Collect
  gather t query s =
      collect query cfg.query_profile cfg.buckets t.polls (start s.pending_query s.query_channel)
  gather t document s =
      collect document cfg.document_profile cfg.buckets t.polls
        (start s.pending_document s.document_channel)

  serve_gathered : Turn E → QueueKind → State → Option Collect → Round E
  unfolding put_back retry_policy
  serve_gathered t kind s none = unfinished
  serve_gathered t kind s (some c) = elim (finish (retry_policy cfg kind) t.engine c.jobs) [
    | none ↦ unfinished
    | some answers ↦ served kind (put_back kind c s) c.rejected answers
  ]

  serve : Turn E → QueueKind → State → Round E
  unfolding gather serve_gathered
  serve t kind s =
      let charged = record s {
        consecutive_query_batches = charge kind s.consecutive_query_batches;
      } in
      serve_gathered t kind charged (gather t kind charged)

  round_from : Turn E → State → Round E
  unfolding serve wake
  round_from t s =
      if is_empty s.pending_query && is_empty s.pending_document
      then idle (wake t.woken_by s)
      else serve t (choose cfg s) s

  unfoldable pub round : Turn E → State → Round E
  unfolding round_from receive
  round t s = round_from t (receive t s)
