-- ===== src/Scheduler/Batch/Bounds.antt =====
-- The limits that a gathered batch keeps, and that its gathering ends (src/scheduler/mod.rs).
use llm.Base.{
  ℕ, ◌+◌, ◌*◌, ◌≤◌, ◌<◌, ◌≡◌, refl, Option, none, some, true, false, List, [], ◌∷◌, ◌++◌, arith,
  max, length, length-append, ◌⊎◌, inl, inr, Bool,
}
use llm.Error.{AstraError}
use llm.Scheduler.Retry.{from_millis}
use llm.Scheduler.Batch.{
  QueueKind, Job, BatchProfile, Collect, Poll, Next, proceed, break, refusal, place, turn, collect,
  gathers, start, join, by_bucket, dispose, turn_from, max_tokens,
}
use llm.Scheduler.Batch.Conserve.{outcome}

-- A batch of two or more jobs fits, padded to its longest job.
pub record Fits (profile : BatchProfile) (jobs : List Job) : Type 0 where
  pub items : length jobs ≤ profile.max_items
  pub padded : 2 ≤ length jobs → length jobs * max_tokens jobs ≤ profile.max_padded_tokens

max_tokens-append :
    (xs : List Job) (j : Job) → max_tokens (xs ++ j ∷ []) ≡ max (max_tokens xs) j.token_count_hint
unfolding max_tokens
max_tokens-append [] j = omega arith
max_tokens-append (x ∷ xs) j = omega (arith, max_tokens-append xs j)

-- Adding the job keeps the bounds, by the two tests that the code makes.
snoc-Fits :
    (profile : BatchProfile) (jobs : List Job) (job : Job)
    → length jobs < profile.max_items
    → (1 ≤ length jobs
        → (length jobs + 1) * max (max_tokens jobs) job.token_count_hint
          ≤ profile.max_padded_tokens)
    → Fits profile (jobs ++ job ∷ [])
snoc-Fits profile jobs job room small = record {
  items = omega (arith, length-append jobs (job ∷ []));
  padded = λ two.
      rw (length-append jobs (job ∷ []), max_tokens-append jobs job)
        (small (omega (arith, length-append jobs (job ∷ []))));
}

module _ (profile : BatchProfile) (buckets : List ℕ) where
  join-Fits :
      (c : Collect) (job : Job) (jobs : List Job)
      → c.jobs ≡ jobs
      → length c.jobs < profile.max_items
      → Fits profile c.jobs
      → Fits profile (outcome (join profile buckets c job)).jobs
  unfolding join
  join-Fits c job [] e room f = ground (arith, snoc-Fits profile c.jobs job room)
  join-Fits c job (x ∷ xs) e room f = ground (arith, snoc-Fits profile c.jobs job room)

  by_bucket-Fits :
      (c : Collect) (job : Job) (o : Option ℕ)
      → length c.jobs < profile.max_items
      → Fits profile c.jobs
      → Fits profile (outcome (by_bucket profile buckets c job o)).jobs
  unfolding by_bucket
  by_bucket-Fits c job none room f = join-Fits _ job c.jobs refl room f
  by_bucket-Fits c job (some target) room f = ground (arith, join-Fits c job c.jobs refl room f)

  place-Fits :
      (poll : Poll) (c : Collect) (job : Job)
      → length c.jobs < profile.max_items
      → Fits profile c.jobs
      → Fits profile (outcome (place profile buckets poll c job)).jobs
  unfolding place
  place-Fits poll c job room f = ground (arith, by_bucket-Fits c job c.target_bucket room f)

-- The time for gathering is over at one of the polls.
abbrev pub TimesOut : BatchProfile → List Poll → Type 0
TimesOut profile [] = ◌≡◌ {A = ℕ} 0 1
TimesOut profile (poll ∷ polls) =
    (from_millis profile.max_wait_ms ≤ poll.elapsed) ⊎ TimesOut profile polls

module _ (kind : QueueKind) (profile : BatchProfile) (buckets : List ℕ) where
  dispose-Fits :
      (poll : Poll) (c : Collect) (job : Job) (o : Option AstraError)
      → length c.jobs < profile.max_items
      → Fits profile c.jobs
      → Fits profile (outcome (dispose kind profile buckets poll c job o)).jobs
  unfolding dispose
  dispose-Fits poll c job (some e) room f = f
  dispose-Fits poll c job none room f = place-Fits profile buckets poll c job room f

  turn_from-Fits :
      (poll : Poll) (c : Collect) (queue : List Job)
      → length c.jobs < profile.max_items
      → Fits profile c.jobs
      → Fits profile (outcome (turn_from kind profile buckets poll c queue)).jobs
  unfolding turn_from
  turn_from-Fits poll c [] room f = f
  turn_from-Fits poll c (job ∷ rest) room f =
      dispose-Fits poll (record c { queue = rest }) job (refusal kind profile poll job) room f

  collect_from-Fits :
      (polls : List Poll) (c c' : Collect)
      → Fits profile c.jobs
      → collect kind profile buckets polls c ≡ some c'
      → Fits profile c'.jobs
  unfolding collect turn gathers
  collect_from-Fits [] c c' f h = cc
  collect_from-Fits (poll ∷ polls) c c' f h = ground (
    arith,
    turn_from-Fits poll c c.queue,
    collect_from-Fits polls (outcome (turn kind profile buckets poll c)) c',
  )

  -- A gathered batch has at most `max_items` jobs, and if it has two or more, its size when padded
  -- to the longest job is at most `max_padded_tokens`.
  pub collect-Fits :
      (polls : List Poll) (queue channel : List Job) (c : Collect)
      → collect kind profile buckets polls (start queue channel) ≡ some c
      → Fits profile c.jobs
  unfolding start max_tokens
  collect-Fits polls queue channel c h =
      collect_from-Fits polls _ c
        (record { items = omega arith; padded = λ two. absurd (omega arith) }) h

  collect-step :
      (poll : Poll) (polls : List Poll) (c : Collect) (b : Bool) (n : Next)
      → gathers kind profile buckets poll c ≡ b
      → turn kind profile buckets poll c ≡ n
      → ((d : Collect) → (c' : Collect) × (collect kind profile buckets polls d ≡ some c'))
      → (c' : Collect) × (collect kind profile buckets (poll ∷ polls) c ≡ some c')
  unfolding collect
  collect-step poll polls c false n e f later = (c, rw (e, collect))
  collect-step poll polls c true (break d) e f later = (d, rw (e, collect) (rw f))
  collect-step poll polls c true (proceed d) e f later =
      ((later d).0, rw (e, collect) (rw f (later d).1))

  collect_from-ends :
      (polls : List Poll) (c : Collect)
      → TimesOut profile polls
      → (c' : Collect) × (collect kind profile buckets polls c ≡ some c')
  unfolding collect gathers
  collect_from-ends [] c h = cc
  collect_from-ends (poll ∷ polls) c (inl late) = (c, ground arith)
  collect_from-ends (poll ∷ polls) c (inr later) =
      collect-step poll polls c _ _ refl refl (λ d. collect_from-ends polls d later)

  -- The gathering of a batch ends at the latest when its time is over, whatever the clock, the
  -- channel and the cancellation tokens do.
  pub collect-ends :
      (polls : List Poll) (queue channel : List Job)
      → TimesOut profile polls
      → (c : Collect) × (collect kind profile buckets polls (start queue channel) ≡ some c)
  collect-ends polls queue channel h = collect_from-ends polls (start queue channel) h
