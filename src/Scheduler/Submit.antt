-- ===== src/Scheduler/Submit.antt =====
-- Requests to the scheduler (src/scheduler/mod.rs: `submit` and `submit_many`). What the channel and
-- the answer come to is the environment's. `cancel_on_error` chooses which requests are cancelled
-- and not what is returned, so the options hold `preserve_order` alone.
pub mod Order
use llm.Base.{
  ℕ, zero, suc, ◌+◌, Bool, true, false, List, [], ◌∷◌, map, leb, if◌then◌else◌, is_empty,
}
use llm.Error.{AstraError, Result, ok, err}
use llm.Scheduler.Batch.{QueueKind, query, document}

-- What `try_send` returns.
pub data Sent : Type 0 where
  accepted full closed : Sent

-- What the `select!` sees first.
pub data Awaited {ℓ} (E : Type ℓ) : Type ℓ where
  cancelled sender_dropped timed_out : Awaited E
  answered : Result E → Awaited E

module _ {ℓ} {E : Type ℓ} where
  await : Awaited E → Result E
  await cancelled = err (AstraError.cancelled "request cancelled")
  await sender_dropped = err (AstraError.unavailable "scheduler stopped")
  await timed_out = err (AstraError.deadline_exceeded "scheduler deadline")
  await (answered r) = r

  try_send : QueueKind → Sent → Awaited E → Result E
  unfolding await
  try_send kind accepted w = await w
  try_send query full w = err (AstraError.resource_exhausted "embedding query queue full")
  try_send document full w = err (AstraError.resource_exhausted "embedding document queue full")
  try_send kind closed w = err (AstraError.unavailable "embedding scheduler stopped")

  unfoldable pub submit : QueueKind → ℕ → ℕ → Sent → Awaited E → Result E
  unfolding try_send
  submit kind deadline now sent w =
      if leb deadline now
      then err (AstraError.deadline_exceeded "deadline before queue")
      else try_send kind sent w

  -- `outputs.sort_by_key(|(idx, _)| *idx)`, a stable sort.
  unfoldable pub insert_by_key : ℕ × E → List (ℕ × E) → List (ℕ × E)
  insert_by_key x [] = x ∷ []
  insert_by_key x (y ∷ ys) = if leb x.0 y.0 then x ∷ y ∷ ys else y ∷ insert_by_key x ys

  unfoldable pub sort_by_key : List (ℕ × E) → List (ℕ × E)
  unfolding insert_by_key
  sort_by_key [] = []
  sort_by_key (x ∷ xs) = insert_by_key x (sort_by_key xs)

  -- The loop over the stream of completed requests: the first error ends it.
  unfoldable pub outputs : List (ℕ × Result E) → Result (List (ℕ × E))
  outputs [] = ok []
  outputs ((i, err e) ∷ rest) = err e
  outputs ((i, ok v) ∷ rest) = elim (outputs rest) [ ok vs ↦ ok ((i, v) ∷ vs) | err e ↦ err e ]

  values : List (ℕ × E) → List E
  values = map λ o. o.1

  in_order : Bool → List (ℕ × E) → List (ℕ × E)
  in_order true os = sort_by_key os
  in_order false os = os

  collected : Bool → Result (List (ℕ × E)) → Result (List E)
  unfolding in_order values
  collected preserve_order (err e) = err e
  collected preserve_order (ok os) = ok (values (in_order preserve_order os))

  -- `completions` are the requests of the inputs in the order in which they complete.
  unfoldable pub submit_many : {I : Type 0} → Bool → List I → List (ℕ × Result E) → Result (List E)
  unfolding collected
  submit_many preserve_order inputs completions =
      if is_empty inputs then ok [] else collected preserve_order (outputs completions)
