-- ===== src/Scheduler/Batch/Conserve.antt =====
-- The gathering of a batch neither loses nor doubles a job (src/scheduler/mod.rs, `run_loop`).
use llm.Base.{ℕ, ◌+◌, ◌≡◌, refl, Option, none, some, List, [], ◌∷◌, arith, ap, take}
use llm.Error.{AstraError}
use llm.Scheduler.Batch.{
  QueueKind, Job, BatchProfile, Collect, Poll, Next, proceed, break, refusal, place, turn, collect,
  start, join, by_bucket, dispose, turn_from,
}
use llm.Scheduler.Batch.Count.{
  count, count_rejected, count-append, count_rejected-append, count-take-drop, held,
}

abbrev pub outcome : Next → Collect
outcome (proceed c) = c
outcome (break c) = c

module _ (profile : BatchProfile) (buckets : List ℕ) where
  held-join :
      (a : ℕ) (c : Collect) (job : Job)
      → held a (outcome (join profile buckets c job)) ≡ count a (job ∷ []) + held a c
  unfolding join
  held-join a c job = ground (arith, count-append a c.jobs (job ∷ []))

  held-by_bucket :
      (a : ℕ) (c : Collect) (job : Job) (o : Option ℕ)
      → held a (outcome (by_bucket profile buckets c job o)) ≡ count a (job ∷ []) + held a c
  unfolding by_bucket
  held-by_bucket a c job none = held-join a _ job
  held-by_bucket a c job (some target) =
      ground (arith, count-append a c.jobs (job ∷ []), count-append a c.queue (job ∷ []))

  held-place :
      (a : ℕ) (poll : Poll) (c : Collect) (job : Job)
      → held a (outcome (place profile buckets poll c job)) ≡ count a (job ∷ []) + held a c
  unfolding place
  held-place a poll c job =
      ground (arith, held-by_bucket a c job c.target_bucket, count-append a c.queue (job ∷ []))

module _ (kind : QueueKind) (profile : BatchProfile) (buckets : List ℕ) where
  held-dispose :
      (a : ℕ) (poll : Poll) (c : Collect) (job : Job) (o : Option AstraError)
      → held a (outcome (dispose kind profile buckets poll c job o)) ≡ count a (job ∷ []) + held a c
  unfolding dispose
  held-dispose a poll c job (some e) =
      omega (arith, count_rejected-append a c.rejected ((job, e) ∷ []))
  held-dispose a poll c job none = held-place profile buckets a poll c job

  held-turn_from :
      (a : ℕ) (poll : Poll) (c : Collect) (queue : List Job)
      → c.queue ≡ queue
      → held a (outcome (turn_from kind profile buckets poll c queue)) ≡ held a c
  unfolding turn_from
  held-turn_from a poll c [] e = ground (
    arith,
    count-append a c.queue (take poll.visible c.channel),
    count-take-drop a poll.visible c.channel,
  )
  held-turn_from a poll c (job ∷ rest) e = omega (
    arith,
    ap (count a) e,
    held-dispose a poll (record c { queue = rest }) job (refusal kind profile poll job),
  )

  held-collect :
      (a : ℕ) (polls : List Poll) (c c' : Collect)
      → collect kind profile buckets polls c ≡ some c'
      → held a c' ≡ held a c
  unfolding collect turn
  held-collect a [] c c' h = cc
  held-collect a (poll ∷ polls) c c' h = ground (
    arith,
    held-turn_from a poll c c.queue refl,
    held-collect a polls (outcome (turn kind profile buckets poll c)) c',
  )

  -- When the gathering ends, each job that was queued or on its way is in exactly one place, as
  -- often as before: still queued, still on its way, in the batch, or answered with an error.
  pub collect-conserves :
      (polls : List Poll) (queue channel : List Job) (c : Collect)
      → collect kind profile buckets polls (start queue channel) ≡ some c
      → (a : ℕ)
      → count a c.queue + count a c.channel + count a c.jobs + count_rejected a c.rejected
        ≡ count a queue + count a channel
  unfolding start
  collect-conserves polls queue channel c h a =
      omega (arith, held-collect a polls (start queue channel) c h)
