-- ===== src/Scheduler/Batch.antt =====
-- How the scheduler gathers one batch from a queue (src/scheduler/mod.rs, the inner loop of
-- `run_loop`, and `bucket_for`). What the clock, the channel and the cancellation tokens show in
-- each turn of the loop is a `Poll`; the loop runs over a list of them. Sizes do not wrap.
pub mod Count
pub mod Admission
pub mod Bounds
pub mod Conserve
use llm.Base.{
  ℕ, ◌+◌, ◌-◌, ◌*◌, max, Bool, true, false, ◌&&◌, not, Option, none, some, List, [], ◌∷◌, ◌++◌, map,
  String, ltb, leb, ◌==◌, if◌then◌else◌, is_empty, length, take, drop, find, head, last,
  get_or_else, abs_diff,
}
use llm.Error.{AstraError}
use llm.Scheduler.Retry.{from_millis}

pub data QueueKind : Type 0 where
  query document : QueueKind

-- The answer channel of a job is its `id`.
pub record Job : Type 0 where
  pub id : ℕ
  pub token_count_hint : ℕ
  pub enqueued_at : ℕ
  pub deadline : ℕ

-- config::BatchProfile.
pub record BatchProfile : Type 0 where
  pub max_wait_ms : ℕ
  pub max_items : ℕ
  pub max_padded_tokens : ℕ
  pub max_queue_age_ms : ℕ
  pub min_inference_budget_ms : ℕ
  pub max_deadline_skew_ms : ℕ

-- `channel` holds the jobs that are still to be received, in their order.
pub record Collect : Type 0 where
  pub queue : List Job
  pub channel : List Job
  pub jobs : List Job
  pub target_bucket : Option ℕ
  pub rotations : ℕ
  pub rejected : List (Job × AstraError)

-- `visible` is how many jobs of the channel can be received at this moment.
pub record Poll : Type 0 where
  pub elapsed : ℕ
  pub now : ℕ
  pub cancelled : ℕ → Bool
  pub visible : ℕ

pub data Next : Type 0 where
  proceed break : Collect → Next

unfoldable pub bucket_for : ℕ → List ℕ → ℕ
bucket_for tokens buckets =
    get_or_else (find (λ bucket. leb tokens bucket) buckets) (get_or_else (last buckets) tokens)

is_query : QueueKind → Bool
is_query query = true
is_query document = false

-- Why a job that comes out of the queue is answered with an error at once, if it is.
unfoldable pub refusal : QueueKind → BatchProfile → Poll → Job → Option AstraError
unfolding is_query
refusal kind profile poll job =
    if poll.cancelled job.id
    then some (AstraError.cancelled "request cancelled in queue")
    else if leb job.deadline poll.now
    then some (AstraError.deadline_exceeded "deadline_expired_in_queue")
    else if is_query kind
        && ltb 0 profile.max_queue_age_ms
        && ltb (from_millis profile.max_queue_age_ms) (poll.now - job.enqueued_at)
    then some (AstraError.resource_exhausted "queue_age_exceeded")
    else if ltb 0 profile.min_inference_budget_ms
        && ltb (job.deadline - poll.now) (from_millis profile.min_inference_budget_ms)
    then some (AstraError.deadline_exceeded "insufficient_inference_budget")
    else none

unfoldable pub max_tokens : List Job → ℕ
max_tokens [] = 0
max_tokens (j ∷ js) = max j.token_count_hint (max_tokens js)

module _ (profile : BatchProfile) (buckets : List ℕ) where
  -- Is the deadline of the job too far from that of the first job of the batch?
  skewed : Poll → Job → Option Job → Bool
  skewed poll job none = false
  skewed poll job (some first) =
      ltb 0 profile.max_deadline_skew_ms
      && ltb (from_millis profile.max_deadline_skew_ms)
          (abs_diff (first.deadline - poll.now) (job.deadline - poll.now))

  -- The job goes back to the end of the queue.
  rotate : Collect → Job → Collect
  rotate c job = record c { queue = c.queue ++ job ∷ []; rotations = c.rotations + 1 }

  rotate_skewed : Collect → Next
  rotate_skewed c = if ltb (length c.queue) c.rotations then break c else proceed c

  -- The last part of a turn: the padded size, and the job joins the batch.
  join : Collect → Job → Next
  unfolding max_tokens
  join c job =
      if not (is_empty c.jobs)
        && ltb profile.max_padded_tokens
            ((length c.jobs + 1) * max (max_tokens c.jobs) job.token_count_hint)
      then break (record c { queue = job ∷ c.queue })
      else proceed (record c { jobs = c.jobs ++ job ∷ [] })

  by_bucket : Collect → Job → Option ℕ → Next
  unfolding join rotate
  by_bucket c job none =
      join (record c { target_bucket = some (bucket_for job.token_count_hint buckets) }) job
  by_bucket c job (some target) =
      if not (target == bucket_for job.token_count_hint buckets) && leb c.rotations (length c.queue)
      then proceed (rotate c job)
      else join c job

  unfoldable pub place : Poll → Collect → Job → Next
  unfolding skewed rotate rotate_skewed by_bucket
  place poll c job =
      if skewed poll job (head c.jobs)
      then rotate_skewed (rotate c job)
      else by_bucket c job c.target_bucket

module _ (kind : QueueKind) (profile : BatchProfile) (buckets : List ℕ) where
  -- The job that was popped is answered with the error, or placed.
  dispose : Poll → Collect → Job → Option AstraError → Next
  dispose poll c job (some e) = proceed (record c { rejected = c.rejected ++ (job, e) ∷ [] })
  dispose poll c job none = place profile buckets poll c job

  receive : Poll → Collect → Collect
  receive poll c = record c {
    queue = c.queue ++ take poll.visible c.channel;
    channel = drop poll.visible c.channel;
  }

  turn_from : Poll → Collect → List Job → Next
  unfolding dispose receive
  turn_from poll c [] = proceed (receive poll c)
  turn_from poll c (job ∷ rest) =
      dispose poll (record c { queue = rest }) job (refusal kind profile poll job)

  unfoldable pub turn : Poll → Collect → Next
  unfolding turn_from
  turn poll c = turn_from poll c c.queue

  -- The guard of the `while`.
  unfoldable pub gathers : Poll → Collect → Bool
  gathers poll c =
      ltb (length c.jobs) profile.max_items && ltb poll.elapsed (from_millis profile.max_wait_ms)

  -- `none`: the loop is still going when the polls end.
  unfoldable pub collect : List Poll → Collect → Option Collect
  collect [] c = none
  collect (poll ∷ polls) c = elim (gathers poll c) [
    | false ↦ some c
    | true ↦ elim (turn poll c) [ break c' ↦ some c' | proceed c' ↦ collect polls c' ]
  ]

unfoldable pub start : List Job → List Job → Collect
start queue channel = record {
  queue = queue;
  channel = channel;
  jobs = [];
  target_bucket = none;
  rotations = 0;
  rejected = [];
}
