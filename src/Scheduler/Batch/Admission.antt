-- ===== src/Scheduler/Batch/Admission.antt =====
-- Which jobs come into a batch (src/scheduler/mod.rs, `run_loop`).
use mathlib.Core.List.{Memᴰ}
use llm.Base.{
  ℕ, ◌-◌, ◌≤◌, ◌<◌, ◌≡◌, refl, Option, none, some, false, List, [], ◌∷◌, arith, All, All-append,
  All-map,
}
use llm.Error.{AstraError}
use llm.Scheduler.Retry.{from_millis}
use llm.Scheduler.Batch.{
  QueueKind, query, Job, BatchProfile, Collect, Poll, Next, refusal, place, turn, collect, gathers,
  start, join, by_bucket, dispose, turn_from,
}
use llm.Scheduler.Batch.Conserve.{outcome}

-- At some poll of the run, within the time for gathering, the job was neither cancelled nor expired, and had
-- the time left that the profile asks for; a query was not older than the profile allows.
pub record Admitted (kind : QueueKind) (profile : BatchProfile) (polls : List Poll) (job : Job)
    : Type 0 where
  pub poll : Poll
  pub seen : Memᴰ poll polls
  pub in_time : poll.elapsed < from_millis profile.max_wait_ms
  pub live : poll.cancelled job.id ≡ false
  pub before_deadline : poll.now < job.deadline
  pub budget :
      0 < profile.min_inference_budget_ms
      → from_millis profile.min_inference_budget_ms ≤ job.deadline - poll.now
  pub fresh :
      kind ≡ query
      → 0 < profile.max_queue_age_ms
      → poll.now - job.enqueued_at ≤ from_millis profile.max_queue_age_ms

module _ (kind : QueueKind) (profile : BatchProfile) (buckets : List ℕ)
    (all_polls : List Poll) where
  refusal-Admitted :
      (poll : Poll) (job : Job)
      → Memᴰ poll all_polls
      → poll.elapsed < from_millis profile.max_wait_ms
      → refusal kind profile poll job ≡ none
      → Admitted kind profile all_polls job
  unfolding refusal
  refusal-Admitted poll job m time h = record {
    poll = poll;
    seen = m;
    in_time = time;
    live = ground arith;
    before_deadline = ground arith;
    budget = λ p. ground arith;
    fresh = λ q p. ground arith;
  }

  abbrev Good : Next → Type 0
  Good n = All (Admitted kind profile all_polls) (outcome n).jobs

  join-Good :
      (c : Collect) (job : Job)
      → All (Admitted kind profile all_polls) c.jobs
      → Admitted kind profile all_polls job
      → Good (join profile buckets c job)
  unfolding join
  join-Good c job all good =
      ground (arith, All-append (Admitted kind profile all_polls) c.jobs (job ∷ []) all (good, tt))

  by_bucket-Good :
      (c : Collect) (job : Job) (o : Option ℕ)
      → All (Admitted kind profile all_polls) c.jobs
      → Admitted kind profile all_polls job
      → Good (by_bucket profile buckets c job o)
  unfolding by_bucket
  by_bucket-Good c job none all good = join-Good _ job all good
  by_bucket-Good c job (some target) all good = ground (arith, join-Good c job all good)

  place-Good :
      (poll : Poll) (c : Collect) (job : Job)
      → All (Admitted kind profile all_polls) c.jobs
      → Admitted kind profile all_polls job
      → Good (place profile buckets poll c job)
  unfolding place
  place-Good poll c job all good = ground (arith, by_bucket-Good c job c.target_bucket all good)

  dispose-Good :
      (poll : Poll) (c : Collect) (job : Job) (o : Option AstraError)
      → refusal kind profile poll job ≡ o
      → Memᴰ poll all_polls
      → poll.elapsed < from_millis profile.max_wait_ms
      → All (Admitted kind profile all_polls) c.jobs
      → Good (dispose kind profile buckets poll c job o)
  unfolding dispose
  dispose-Good poll c job (some e) h m time all = all
  dispose-Good poll c job none h m time all =
      place-Good poll c job all (refusal-Admitted poll job m time h)

  turn_from-Good :
      (poll : Poll) (c : Collect) (queue : List Job)
      → Memᴰ poll all_polls
      → poll.elapsed < from_millis profile.max_wait_ms
      → All (Admitted kind profile all_polls) c.jobs
      → Good (turn_from kind profile buckets poll c queue)
  unfolding turn_from
  turn_from-Good poll c [] m time all = all
  turn_from-Good poll c (job ∷ rest) m time all =
      dispose-Good poll (record c { queue = rest }) job _ refl m time all

  collect_from-Admitted :
      (polls : List Poll) (c c' : Collect)
      → All (λ poll. Memᴰ poll all_polls) polls
      → All (Admitted kind profile all_polls) c.jobs
      → collect kind profile buckets polls c ≡ some c'
      → All (Admitted kind profile all_polls) c'.jobs
  unfolding collect turn gathers
  collect_from-Admitted [] c c' ms all h = cc
  collect_from-Admitted (poll ∷ polls) c c' ms all h = ground (
    arith,
    turn_from-Good poll c c.queue ms.0,
    collect_from-Admitted polls (outcome (turn kind profile buckets poll c)) c' ms.1,
  )

-- Each poll of a run is one of them.
polls-Mem : (polls : List Poll) → All (λ poll. Memᴰ poll polls) polls
polls-Mem [] = tt
polls-Mem (p ∷ ps) = (Memᴰ.head refl, All-map (λ q m. Memᴰ.tail m) ps (polls-Mem ps))

-- Every job of a gathered batch passed the checks at some poll of the run within the time for
-- gathering: it was not cancelled then, its deadline lay ahead by at least the configured inference
-- budget, and a query had not been queued for longer than the configured age.
pub collect-Admitted :
    (kind : QueueKind) (profile : BatchProfile) (buckets : List ℕ) (polls : List Poll)
    (queue channel : List Job) (c : Collect)
    → collect kind profile buckets polls (start queue channel) ≡ some c
    → All (Admitted kind profile polls) c.jobs
unfolding start
collect-Admitted kind profile buckets polls queue channel c h =
    collect_from-Admitted kind profile buckets polls polls (start queue channel) c (polls-Mem polls)
      tt h
