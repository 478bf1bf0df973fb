-- ===== src/Cache.antt =====
-- The leases of the embedding cache (src/persistence/mod.rs and src/reliability/mod.rs): the row of
-- one cache key, and each SQL statement or transaction on it as one function. Instants are
-- microseconds. The vectors and counts of a result are one value, written together.
pub mod Spec
pub mod Refine
pub mod Final
pub mod Wait
pub mod Claim
pub mod Upkeep
use llm.Base.{
  ℕ, zero, suc, ◌+◌, ◌*◌, Bool, true, false, ◌&&◌, ◌||◌, not, Option, none, some, ltb, leb, ◌==◌,
  if◌then◌else◌,
}

pub data Status : Type 0 where
  processing failed completed : Status

-- A row of astravector.embedding_cache_entries, as far as the statements read it, with the vectors
-- that are stored for it.
pub record CacheEntry (A : Type 0) : Type 0 where
  pub id : ℕ
  pub status : Status
  pub owner_instance_id : Option ℕ
  pub lease_token : ℕ
  pub lease_expires_at : Option ℕ
  pub retry_count : ℕ
  pub result : Option A

abbrev pub is_failed : Status → Bool
is_failed Status.failed = true
is_failed _ = false

abbrev pub is_processing : Status → Bool
is_processing Status.processing = true
is_processing _ = false

abbrev pub is_completed : Status → Bool
is_completed Status.completed = true
is_completed _ = false

-- The end of a lease that begins now.
abbrev pub lease_end : ℕ → ℕ → ℕ
lease_end now lease_secs = now + lease_secs * 1000000

-- A missing end compares as unknown in SQL, which no row passes.
abbrev pub sql_before : Option ℕ → ℕ → Bool
sql_before none now = false
sql_before (some t) now = ltb t now

abbrev pub owned_by : ℕ → Option ℕ → Bool
owned_by owner none = false
owned_by owner (some o) = o == owner

abbrev pub is_expired : Option ℕ → ℕ → Bool
is_expired none now = true
is_expired (some t) now = ltb t now

module _ {A : Type 0} where
  -- The INSERT of `claim`: it does nothing where the key has a row. The second part is what the
  -- statement returns.
  unfoldable pub insert_entry :
      ℕ → ℕ → ℕ → ℕ → Option (CacheEntry A) → Option (CacheEntry A) × Option ℕ
  insert_entry id owner lease_secs now none = (
    some record {
      id = id;
      status = Status.processing;
      owner_instance_id = some owner;
      lease_token = 1;
      lease_expires_at = some (lease_end now lease_secs);
      retry_count = 0;
      result = none;
    },
    some 1,
  )
  insert_entry id owner lease_secs now (some e) = (some e, none)

  -- The WHERE clause of `takeover`.
  unfoldable pub may_take : ℕ → CacheEntry A → Bool
  may_take now e =
      (is_processing e.status || is_failed e.status)
      && (is_failed e.status || sql_before e.lease_expires_at now)

  unfoldable pub takeover : ℕ → ℕ → ℕ → Option (CacheEntry A) → Option (CacheEntry A) × Option ℕ
  unfolding may_take
  takeover owner lease_secs now none = (none, none)
  takeover owner lease_secs now (some e) =
      if may_take now e
      then (
        some record e {
          owner_instance_id = some owner;
          lease_token = e.lease_token + 1;
          lease_expires_at = some (lease_end now lease_secs);
          retry_count = e.retry_count + 1;
          status = Status.processing;
        },
        some (e.lease_token + 1),
      )
      else (some e, none)

  -- The row that `persist_owned` locks: in processing, of the owner and the token.
  unfoldable pub is_owned : ℕ → ℕ → CacheEntry A → Bool
  is_owned owner token e =
      is_processing e.status && owned_by owner e.owner_instance_id && e.lease_token == token

  -- The transaction of `persist_owned`; false is `OwnershipLost`.
  unfoldable pub persist_owned : ℕ → ℕ → A → Option (CacheEntry A) → Option (CacheEntry A) × Bool
  unfolding is_owned
  persist_owned owner token value none = (none, false)
  persist_owned owner token value (some e) =
      if is_owned owner token e
      then (
        some record e { status = Status.completed; lease_expires_at = none; result = some value },
        true,
      )
      else (some e, false)

  -- The part of the transaction of `persist_required_v004` on the row; false is `OwnershipLost`.
  unfoldable pub persist_required :
      ℕ → ℕ → A → ℕ → Option (CacheEntry A) → Option (CacheEntry A) × Bool
  unfolding is_owned
  persist_required owner token value now none = (none, false)
  persist_required owner token value now (some e) =
      if is_owned owner token e && not (is_expired e.lease_expires_at now)
      then (
        some record e {
          status = Status.completed;
          owner_instance_id = none;
          lease_expires_at = none;
          result = some value;
        },
        true,
      )
      else (some e, false)

  unfoldable pub load_completed : Option (CacheEntry A) → Option A
  load_completed none = none
  load_completed (some e) = if is_completed e.status then e.result else none

-- `Error` is the error for a row that is gone or has no vectors.
pub data ClaimResult (A : Type 0) : Type 0 where
  acquired retry_acquired : ℕ → ℕ → ClaimResult A
  completed : ℕ → A → ClaimResult A
  processing_by_other : ℕ → Option ℕ → ClaimResult A
  error : ClaimResult A

module _ {A : Type 0} where
  -- `read_claim`: between its reading of the row and its takeover, other transactions act.
  unfoldable pub read_claim :
      ℕ
      → ℕ
      → ℕ
      → (Option (CacheEntry A) → Option (CacheEntry A))
      → Option (CacheEntry A)
      → Option (CacheEntry A) × ClaimResult A
  unfolding takeover load_completed
  read_claim owner lease_secs now others none = (none, error)
  read_claim owner lease_secs now others (some e) =
      if is_completed e.status
      then (some e, elim (e.result) [ none ↦ error | some v ↦ completed e.id v ])
      else if is_failed e.status || is_expired e.lease_expires_at now
      then (let taken = takeover owner lease_secs now (others (some e)) in
          (
            taken.0,
            elim (taken.1) [
              | some token ↦ retry_acquired e.id token
              | none ↦ processing_by_other e.id e.lease_expires_at
            ],
          ))
      else (some e, processing_by_other e.id e.lease_expires_at)

  unfoldable pub claim :
      ℕ
      → ℕ
      → ℕ
      → ℕ
      → (Option (CacheEntry A) → Option (CacheEntry A))
      → Option (CacheEntry A)
      → Option (CacheEntry A) × ClaimResult A
  unfolding insert_entry read_claim
  claim id owner lease_secs now others row =
      let inserted = insert_entry id owner lease_secs now row in
      elim (inserted.1) [
        | some token ↦ (inserted.0, acquired id token)
        | none ↦ read_claim owner lease_secs now others inserted.0
      ]
