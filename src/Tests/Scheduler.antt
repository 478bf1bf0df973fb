-- ===== src/Tests/Scheduler.antt =====
-- A scheduler with three queries and one document.
use mathlib.Core.List.{Permᴰ}
use llm.Base.{ℕ, ◌+◌, ◌≤◌, ◌≡◌, ◌≢◌, refl, true, none, some, List, [], ◌∷◌, All, has}
use llm.Error.{AstraError, ok, err}
use llm.Scheduler.Retry.{finished, decide, max_attempts, encode_batch_with_retry}
use llm.Scheduler.Batch.{
  query, document, Job, BatchProfile, Collect, Poll, refusal, bucket_for, place, turn, collect,
  gathers, start, max_tokens,
}
use llm.Scheduler.Batch.Count.{count, count_rejected}
use llm.Scheduler.Batch.Conserve.{collect-conserves}
use llm.Scheduler.Batch.Bounds.{Fits, collect-Fits}
use llm.Scheduler.Batch.Admission.{Admitted, collect-Admitted}
use llm.Scheduler.Round.{
  Config, State, Engine, Turn, Replies, served, earliest_deadline, send_all, zip_ok, distribute,
  finish, choose, charge, receive, round,
}
use llm.Scheduler.Round.Answers.{IsServed, finish-IsServed}
use llm.Scheduler.Round.Fairness.{QueryRun, QueryRun-le}
use llm.Scheduler.Round.Conserve.{waiting, IsConserved, round-conserves}
use llm.Scheduler.Submit.{submit_many}
use llm.Scheduler.Submit.Order.{successes, submit_many-order, submit_many-first_error}
use llm.Tests.Retry.{three_tries}

abbrev profile : BatchProfile
profile = record {
  max_wait_ms = 5;
  max_items = 2;
  max_padded_tokens = 100;
  max_queue_age_ms = 50;
  min_inference_budget_ms = 10;
  max_deadline_skew_ms = 1000;
}

abbrev buckets : List ℕ
buckets = 16 ∷ 64 ∷ []

abbrev job : ℕ → ℕ → Job
job id tokens = record { id = id; token_count_hint = tokens; enqueued_at = 0; deadline = 900000 }

-- Job 1 is cancelled.
abbrev poll : ℕ → Poll
poll elapsed = record {
  elapsed = elapsed;
  now = 1000 + elapsed;
  cancelled = λ id. has id (1 ∷ []);
  visible = 0;
}

abbrev polls : List Poll
polls = poll 0 ∷ poll 10 ∷ poll 20 ∷ poll 30 ∷ poll 6000 ∷ []

abbrev jobs : List Job
jobs = job 1 10 ∷ job 2 12 ∷ job 3 14 ∷ job 4 13 ∷ []

abbrev gathered : Collect
gathered = record {
  queue = job 4 13 ∷ [];
  channel = [];
  jobs = job 2 12 ∷ job 3 14 ∷ [];
  target_bucket = some 16;
  rotations = 0;
  rejected = (job 1 10, AstraError.cancelled "request cancelled in queue") ∷ [];
}

collect_run : collect query profile buckets polls (start jobs []) ≡ some gathered
unfolding collect turn gathers refusal place bucket_for start has max_tokens
collect_run = refl

collect-conserves_example :
    count 3 gathered.queue
      + count 3 gathered.channel
      + count 3 gathered.jobs
      + count_rejected 3 gathered.rejected
    ≡ 1
collect-conserves_example =
    collect-conserves query profile buckets polls jobs [] gathered collect_run 3

collect-Fits_example : Fits profile gathered.jobs
collect-Fits_example = collect-Fits query profile buckets polls jobs [] gathered collect_run

collect-Admitted_example : All (Admitted query profile polls) gathered.jobs
collect-Admitted_example = collect-Admitted query profile buckets polls jobs [] gathered collect_run

abbrev cfg : Config
cfg = record {
  query_profile = profile;
  document_profile = profile;
  buckets = buckets;
  max_consecutive_queries = 1;
  query_retry = three_tries;
  document_retry = three_tries;
}

-- The engine answers a batch with 7 for each job.
abbrev engine : Engine ℕ
engine = record {
  now = 8000;
  cancelled = λ id. has id (1 ∷ []);
  attempts =
      λ js n. record { started = 8000; outcome = finished (ok (7 ∷ 7 ∷ [])); decided = 9000 };
}

finish-IsServed_example :
    (r : Replies ℕ) × (finish three_tries engine jobs ≡ some r) × IsServed engine jobs r
finish-IsServed_example = finish-IsServed three_tries engine jobs

abbrev work : Turn ℕ
work = record {
  visible_query = 4;
  visible_document = 1;
  woken_by = none;
  polls = polls;
  engine = engine;
}

abbrev loaded : State
loaded = record {
  query_channel = jobs;
  document_channel = job 9 14 ∷ [];
  pending_query = [];
  pending_document = [];
  consecutive_query_batches = 0;
}

-- The queries were served and the document waits.
abbrev after_queries : State
after_queries = record {
  query_channel = [];
  document_channel = [];
  pending_query = job 4 13 ∷ [];
  pending_document = job 9 14 ∷ [];
  consecutive_query_batches = 1;
}

abbrev two_sevens : Replies ℕ
two_sevens = record { sent = (job 2 12, ok 7) ∷ (job 3 14, ok 7) ∷ []; dropped = [] }

abbrev one_cancelled : List (Job × AstraError)
one_cancelled = (job 1 10, AstraError.cancelled "request cancelled in queue") ∷ []

serves_queries : round cfg work loaded ≡ served query after_queries one_cancelled two_sevens
unfolding round receive choose charge finish distribute zip_ok earliest_deadline collect turn
    gathers refusal place bucket_for start has max_tokens encode_batch_with_retry decide
    max_attempts
serves_queries = refl

abbrev after_document : State
after_document = record after_queries { pending_document = []; consecutive_query_batches = 0 }

-- One job and two results: the job is answered with an error.
abbrev mismatch : Replies ℕ
mismatch = record {
  sent = (job 9 14, err (AstraError.internal "engine result count mismatch")) ∷ [];
  dropped = [];
}

serves_document : round cfg work after_queries ≡ served document after_document [] mismatch
unfolding round receive choose charge finish distribute send_all earliest_deadline collect turn
    gathers refusal place bucket_for start has max_tokens encode_batch_with_retry decide
    max_attempts
serves_document = refl

document_waits : (receive cfg work loaded).pending_document ≢ []
unfolding receive
document_waits e = cc

QueryRun-le_example : 1 ≤ 1
QueryRun-le_example = QueryRun-le ℕ cfg loaded 1 (
    QueryRun.next work loaded after_queries one_cancelled two_sevens 0 serves_queries document_waits
      (QueryRun.start after_queries))

abbrev after_last : State
after_last = record after_document { pending_query = []; consecutive_query_batches = 1 }

abbrev last_mismatch : Replies ℕ
last_mismatch = record {
  sent = (job 4 13, err (AstraError.internal "engine result count mismatch")) ∷ [];
  dropped = [];
}

serves_last : round cfg work after_document ≡ served query after_last [] last_mismatch
unfolding round receive choose charge finish distribute send_all earliest_deadline collect turn
    gathers refusal place bucket_for start has max_tokens encode_batch_with_retry decide
    max_attempts
serves_last = refl

query_waits : (receive cfg work after_document).pending_query ≢ []
unfolding receive
query_waits e = cc

round-conserves_example : IsConserved 2 (waiting 2 loaded) (round cfg work loaded)
round-conserves_example = round-conserves cfg work 2 loaded

submit_many-order_example :
    submit_many {E = ℕ} {I = ℕ} true (5 ∷ 6 ∷ []) (successes ((1, 60) ∷ (0, 50) ∷ []))
    ≡ ok (50 ∷ 60 ∷ [])
submit_many-order_example =
    submit_many-order 5 (6 ∷ []) (50 ∷ 60 ∷ []) ((1, 60) ∷ (0, 50) ∷ []) (Permᴰ.swap refl refl)

submit_many-first_error_example :
    submit_many {E = ℕ} {I = ℕ} true
      (5 ∷ 6 ∷ [])
      ((1, ok 60) ∷ (0, err (AstraError.internal "x")) ∷ [])
    ≡ err (AstraError.internal "x")
submit_many-first_error_example =
    submit_many-first_error true 5 (6 ∷ []) ((1, 60) ∷ []) 0 (AstraError.internal "x") []
