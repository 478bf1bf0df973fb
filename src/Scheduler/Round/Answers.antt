-- ===== src/Scheduler/Round/Answers.antt =====
-- Every job of a gathered batch is answered (src/scheduler/mod.rs: `run_loop`, after the inner loop).
use llm.Base.{
  ℕ, ◌+◌, ◌≡◌, refl, ap, inl, inr, Bool, true, not, Option, none, some, List, [], ◌∷◌, map, arith,
  All, retain, retain-All, length, Bool-cases, leb,
}
use llm.Error.{AstraError, Result, ok, err}
use llm.Scheduler.Retry.{RetryPolicyConfig}
use llm.Scheduler.Retry.Total.{encode_batch_with_retry-Outcomes}
use llm.Scheduler.Batch.{Job}
use llm.Scheduler.Batch.Count.{count}
use llm.Scheduler.Round.{
  Engine, earliest_deadline, Replies, send_all, zip_ok, distribute, encode, finish_by, finish,
}

abbrev pub receivers {ℓ} : {E : Type ℓ} → List (Job × Result E) → List Job
receivers = map (λ s. s.0)

receivers-send_all :
    (E : Type 0) (e : AstraError) (jobs : List Job) → receivers (send_all {E = E} e jobs) ≡ jobs
unfolding send_all
receivers-send_all E e [] = refl
receivers-send_all E e (j ∷ js) = ap (◌∷◌ j) (receivers-send_all E e js)

module _ {E : Type 0} where
  receivers-zip_ok :
      (jobs : List Job) (results : List E)
      → length results ≡ length jobs
      → receivers (zip_ok jobs results) ≡ jobs
  unfolding zip_ok
  receivers-zip_ok [] results e = refl
  receivers-zip_ok (j ∷ js) [] e = absurd (omega arith)
  receivers-zip_ok (j ∷ js) (r ∷ rs) e = ap (◌∷◌ j) (receivers-zip_ok js rs (omega arith))

  receivers-distribute :
      (jobs : List Job) (r : Result (List E)) → receivers (distribute jobs r) ≡ jobs
  unfolding distribute
  receivers-distribute jobs (err e) = receivers-send_all E e jobs
  receivers-distribute jobs (ok results) = ground (
    arith,
    receivers-zip_ok jobs results,
    receivers-send_all E (AstraError.internal "engine result count mismatch") jobs,
  )

-- Who was answered, and who was dropped.
pub record IsServed {E : Type 0} (engine : Engine E) (jobs : List Job) (r : Replies E)
    : Type 0 where
  pub each_once : (a : ℕ) → count a (receivers r.sent) + count a r.dropped ≡ count a jobs
  pub only_cancelled : All (λ j. engine.cancelled j.id ≡ true) r.dropped

count-retain :
    (p : Job → Bool) (a : ℕ) (jobs : List Job)
    → count a (retain (λ j. not (p j)) jobs) + count a (retain p jobs) ≡ count a jobs
count-retain p a [] = omega arith
count-retain p a (j ∷ js) = ground (arith, count-retain p a js)

module _ {E : Type 0} (policy : RetryPolicyConfig) (engine : Engine E) where
  encode-IsServed :
      (deadline : ℕ) (jobs dropped live : List Job)
      → ((a : ℕ) → count a live + count a dropped ≡ count a jobs)
      → All (λ j. engine.cancelled j.id ≡ true) dropped
      → (r : Replies E) × (encode policy engine deadline dropped live ≡ some r)
        × IsServed engine jobs r
  unfolding encode
  encode-IsServed deadline jobs dropped [] split cancelled = (
    record { sent = []; dropped = dropped },
    refl,
    record { each_once = split; only_cancelled = cancelled },
  )
  encode-IsServed deadline jobs dropped (j ∷ js) split cancelled =
      let (run, runs, _) =
        encode_batch_with_retry-Outcomes policy deadline (engine.attempts (j ∷ js)) in
      (
        record { sent = distribute (j ∷ js) run.result; dropped = dropped },
        rw (runs, encode),
        record {
          each_once = λ a. rw (receivers-distribute (j ∷ js) run.result) (split a);
          only_cancelled = cancelled;
        },
      )

  finish_by-IsServed :
      (jobs : List Job) (o : Option ℕ)
      → earliest_deadline jobs ≡ o
      → (r : Replies E) × (finish_by policy engine jobs o ≡ some r) × IsServed engine jobs r
  unfolding finish_by earliest_deadline
  finish_by-IsServed [] none e = (
    record { sent = []; dropped = [] },
    refl,
    record { each_once = λ a. refl; only_cancelled = tt },
  )
  finish_by-IsServed (j ∷ js) none e = ground arith
  finish_by-IsServed jobs (some deadline) e = elim (Bool-cases (leb deadline engine.now)) [
    | inl late ↦ (
      record { sent = send_all (AstraError.deadline_exceeded "batch deadline") jobs; dropped = [] },
      rw (late, finish_by),
      record {
        each_once = λ a.
            rw (receivers-send_all E (AstraError.deadline_exceeded "batch deadline") jobs)
              (omega arith);
        only_cancelled = tt;
      },
    )
    | inr early ↦
        rw (early, finish_by)
          (encode-IsServed deadline jobs _ _ (λ a. count-retain (λ j. engine.cancelled j.id) a jobs)
            (retain-All (λ j. engine.cancelled j.id) jobs))
  ]

  -- The processing of a gathered batch always ends, and then each job of the batch was answered as
  -- often as it stands in the batch, but for jobs that were dropped, each of which was cancelled.
  pub finish-IsServed :
      (jobs : List Job)
      → (r : Replies E) × (finish policy engine jobs ≡ some r) × IsServed engine jobs r
  unfolding finish
  finish-IsServed jobs = finish_by-IsServed jobs (earliest_deadline jobs) refl
