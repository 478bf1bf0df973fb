-- ===== src/Cache/Spec.antt =====
-- What the leases of a cache key promise: a lock with growing tokens around a value that is set
-- once.
use llm.Base.{ℕ, ◌+◌, Bool, true, false, ◌&&◌, Option, none, some, ◌==◌, if◌then◌else◌}

pub data Lease (A : Type 0) : Type 0 where
  vacant : Lease A
  held : ℕ → Lease A
  settled : Option A → Lease A

-- A call, with whether its conditions on the clock and the owner hold.
pub data Call (A : Type 0) : Type 0 where
  enter : Call A
  seize : Bool → Call A
  settle : Bool → ℕ → A → Call A

-- The token of a holder, or whether a value was set.
pub data Reply : Type 0 where
  token : Option ℕ → Reply
  written : Bool → Reply

module _ {A : Type 0} where
  abbrev pub respond : Call A → Lease A → Lease A × Reply
  respond enter vacant = (held 1, token (some 1))
  respond enter (held t) = (held t, token none)
  respond enter (settled v) = (settled v, token none)
  respond (seize allowed) (held t) =
      if allowed then (held (t + 1), token (some (t + 1))) else (held t, token none)
  respond (seize allowed) vacant = (vacant, token none)
  respond (seize allowed) (settled v) = (settled v, token none)
  respond (settle allowed s v) (held t) =
      if allowed && t == s then (settled (some v), written true) else (held t, written false)
  respond (settle allowed s v) vacant = (vacant, written false)
  respond (settle allowed s v) (settled w) = (settled w, written false)
