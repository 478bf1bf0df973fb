-- ===== src/Cache/Claim.antt =====
-- A claim that is granted can be written (claim and read_claim of src/persistence/mod.rs).
use llm.Base.{
  ℕ, ◌+◌, ◌≡◌, refl, arith, true, ◌||◌, Option, none, some, ◌==◌, inl, inr, Bool-cases,
  Option-cases,
}
use llm.Cache.{
  CacheEntry, is_failed, is_completed, is_expired, insert_entry, may_take, takeover, is_owned,
  persist_owned, read_claim, claim, ClaimResult, acquired, retry_acquired, completed,
  processing_by_other, error,
}

module _ {A : Type 0} (owner : ℕ) (value : A) where
  -- A token that was granted to the owner writes the value.
  unfoldable pub CanWrite : Option (CacheEntry A) × ClaimResult A → Type 0
  unfolding persist_owned
  CanWrite (row, acquired id token) = (persist_owned owner token value row).1 ≡ true
  CanWrite (row, retry_acquired id token) = (persist_owned owner token value row).1 ≡ true
  CanWrite (row, completed id v) = Unit
  CanWrite (row, processing_by_other id until) = Unit
  CanWrite (row, error) = Unit

  -- What a granted takeover leaves can be written.
  takeover-CanWrite :
      (secs now token : ℕ) (row : Option (CacheEntry A))
      → (takeover owner secs now row).1 ≡ some token
      → (persist_owned owner token value (takeover owner secs now row).0).1 ≡ true
  unfolding takeover persist_owned is_owned
  takeover-CanWrite secs now token none h = cc
  takeover-CanWrite secs now token (some e) h = elim (Bool-cases (may_take now e)) [
    | inl m ↦
        let eq : e.lease_token + 1 ≡ token = let h' = rw m at h in cc in
        let same_owner : (owner == owner) ≡ true = ground arith in
        let same_token : (e.lease_token + 1 == token) ≡ true = ground arith in
        rw (m, same_owner, same_token) refl
    | inr m ↦ let h' = rw m at h in cc
  ]

  read_claim-CanWrite :
      (secs now : ℕ) (others : Option (CacheEntry A) → Option (CacheEntry A))
      (row : Option (CacheEntry A))
      → CanWrite (read_claim owner secs now others row)
  unfolding read_claim CanWrite
  read_claim-CanWrite secs now others none = tt
  read_claim-CanWrite secs now others (some e) = elim (Bool-cases (is_completed e.status)) [
    | inl c ↦ elim (Option-cases e.result) [ inl n ↦ rw (c, n) tt | inr (v, n) ↦ rw (c, n) tt ]
    | inr c ↦ elim (Bool-cases (is_failed e.status || is_expired e.lease_expires_at now)) [
      | inr x ↦ rw (c, x) tt
      | inl x ↦ elim (Option-cases (takeover owner secs now (others (some e))).1) [
        | inl n ↦ rw (c, x, n) tt
        | inr (token, n) ↦ rw (c, x, n) (takeover-CanWrite secs now token (others (some e)) n)
      ]
    ]
  ]

  -- A claim that is granted, at once or after what other transactions do between its statements,
  -- gives a token with which the owner can write the value.
  pub claim-CanWrite :
      (id secs now : ℕ) (others : Option (CacheEntry A) → Option (CacheEntry A))
      (row : Option (CacheEntry A))
      → CanWrite (claim id owner secs now others row)
  unfolding claim insert_entry CanWrite persist_owned is_owned
  claim-CanWrite id secs now others none =
      let same_owner : (owner == owner) ≡ true = ground arith in rw same_owner refl
  claim-CanWrite id secs now others (some e) = read_claim-CanWrite secs now others (some e)
