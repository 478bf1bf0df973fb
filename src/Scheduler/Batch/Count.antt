-- ===== src/Scheduler/Batch/Count.antt =====
-- Jobs counted by their id, wherever the gathering of a batch may hold them.
use llm.Base.{ℕ, suc, ◌+◌, ◌≡◌, List, [], ◌∷◌, ◌++◌, arith, ◌==◌, if◌then◌else◌, take, drop}
use llm.Error.{AstraError}
use llm.Scheduler.Batch.{Job, Collect}

abbrev pub count : ℕ → List Job → ℕ
count a [] = 0
count a (j ∷ js) = (if j.id == a then 1 else 0) + count a js

abbrev pub count_rejected : ℕ → List (Job × AstraError) → ℕ
count_rejected a [] = 0
count_rejected a ((j, e) ∷ js) = (if j.id == a then 1 else 0) + count_rejected a js

pub count-append : (a : ℕ) (xs ys : List Job) → count a (xs ++ ys) ≡ count a xs + count a ys
count-append a [] ys = omega arith
count-append a (x ∷ xs) ys = omega (arith, count-append a xs ys)

pub count_rejected-append :
    (a : ℕ) (xs ys : List (Job × AstraError))
    → count_rejected a (xs ++ ys) ≡ count_rejected a xs + count_rejected a ys
count_rejected-append a [] ys = omega arith
count_rejected-append a ((x, e) ∷ xs) ys = omega (arith, count_rejected-append a xs ys)

pub count-take-drop :
    (a n : ℕ) (xs : List Job) → count a (take n xs) + count a (drop n xs) ≡ count a xs
count-take-drop a ℕ.zero xs = omega arith
count-take-drop a (suc n) [] = omega arith
count-take-drop a (suc n) (x ∷ xs) = omega (arith, count-take-drop a n xs)

-- How often a job is held: queued, not yet received, gathered or answered with an error.
abbrev pub held : ℕ → Collect → ℕ
held a c = count a c.queue + count a c.channel + count a c.jobs + count_rejected a c.rejected
