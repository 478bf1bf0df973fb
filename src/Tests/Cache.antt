-- ===== src/Tests/Cache.antt =====
-- A cache entry that two instances claim, and the budgets of time.
use llm.Base.{ℕ, ◌*◌, ◌≤◌, ◌≡◌, refl, arith, true, false, Option, none, some, List, [], ◌∷◌}
use llm.Cache.{
  Status, CacheEntry, insert_entry, takeover, is_owned, may_take, persist_owned, persist_required,
  load_completed, claim,
}
use llm.Cache.Spec.{token, written}
use llm.Cache.Refine.{
  Statement, insert, take, persist, persist_fresh, run, view, calls, respond_all, execute,
  run-respond_all,
}
use llm.Cache.Final.{IsPast, overtaken-refused}
use llm.Cache.Upkeep.{Event, statement, recover, clean, delete_unused, happen, happen_all}
use llm.Cache.Wait.{
  Poll, WaitResult, IsTimely, delay_at-bounds, wait_or_takeover, wait_or_takeover-ends,
}
use llm.Cache.Claim.{CanWrite, claim-CanWrite}
use llm.Reliability.{IsUseful, resolve_optional_stage_budget, resolve_optional_stage_budget-best}

-- Instance 1 claims for 10 s; instance 2 takes over after 11 s and writes; then 1 is refused.
abbrev rivals : List (Statement ℕ)
rivals =
    insert 1 10 0
    ∷ take 2 10 5000000
    ∷ take 2 10 11000000
    ∷ persist 1 1 70
    ∷ persist 2 2 80
    ∷ persist_fresh 2 2 90 11000000
    ∷ []

replies : (run rivals none).1 ≡ (
    token (some 1)
    ∷ token none
    ∷ token (some 2)
    ∷ written false
    ∷ written true
    ∷ written false
    ∷ [])
unfolding run execute insert_entry takeover persist_owned persist_required is_owned may_take
replies = refl

run-respond_all_example :
    (view (run rivals none).0 ≡ (respond_all (calls rivals none) (view none)).0)
    × ((run rivals none).1 ≡ (respond_all (calls rivals none) (view none)).1)
run-respond_all_example = run-respond_all rivals none

abbrev overtaken : Option (CacheEntry ℕ)
overtaken = some record {
  id = 0;
  status = Status.processing;
  owner_instance_id = some 2;
  lease_token = 2;
  lease_expires_at = some 21000000;
  retry_count = 1;
  result = none;
}

overtaken-IsPast : IsPast 2 (view overtaken)
unfolding IsPast
overtaken-IsPast = omega arith

overtaken-refused_example :
    (persist_owned 1 1 70 (run (persist 2 2 80 ∷ []) overtaken).0
      ≡ ((run (persist 2 2 80 ∷ []) overtaken).0, false))
    × (persist_required 1 1 70 0 (run (persist 2 2 80 ∷ []) overtaken).0
        ≡ ((run (persist 2 2 80 ∷ []) overtaken).0, false))
overtaken-refused_example =
    overtaken-refused 2 1 1 0 70 (persist 2 2 80 ∷ []) overtaken overtaken-IsPast (omega arith)

abbrev done : Option (CacheEntry ℕ)
done = some record {
  id = 0;
  status = Status.completed;
  owner_instance_id = none;
  lease_token = 2;
  lease_expires_at = none;
  retry_count = 1;
  result = some 80;
}

-- A takeover, a reset of expired leases, and a cleanup that finds the row accessed on day 5, after
-- its cutoff on day 2.
abbrev upkeep : List (Event ℕ)
upkeep = statement (take 2 10 5000000) ∷ recover 20000000 ∷ clean 5 2 ∷ []

-- A cleanup with its cutoff on day 9 deletes the row.
deleted : load_completed (happen_all (clean 5 9 ∷ []) done) ≡ none
unfolding happen_all happen delete_unused load_completed
deleted = refl

-- The entry stays with its owner; every turn starts half a second after the one before.
abbrev poll : ℕ → Poll ℕ
poll n = record {
  checked = 500000 * n;
  row = overtaken;
  loaded = none;
  utc = 500000 * n;
  taken = none;
  slept = 500000 * n;
}

poll-IsTimely : IsTimely 2000000 poll
poll-IsTimely = record {
  on = λ n. omega arith;
  wakes = λ n. let short = delay_at-bounds n in omega arith;
}

wait_or_takeover-ends_example : (r : WaitResult ℕ) × (wait_or_takeover 42 2000000 poll ≡ some r)
wait_or_takeover-ends_example = wait_or_takeover-ends 2000000 poll poll-IsTimely 42 (omega arith)

resolve_optional_stage_budget-best_example :
    (best : ℕ) × (resolve_optional_stage_budget 200000 0 500000 50000 100000 ≡ some best)
    × IsUseful 200000 0 500000 50000 100000 best
    × (60000 ≤ best)
resolve_optional_stage_budget-best_example =
    resolve_optional_stage_budget-best 200000 0 500000 50000 100000 60000 (omega arith)
      (record { fits = omega arith; useful = omega arith; allowed = omega arith })

-- The lease of instance 2 is over.
claim-CanWrite_example : CanWrite 3 99 (claim 7 3 10 22000000 (λ r. r) overtaken)
claim-CanWrite_example = claim-CanWrite 3 99 7 10 22000000 (λ r. r) overtaken
