-- ===== src/Query/Segmenter/Soft.antt =====
-- The soft boundary of a segment stays within the segment's limits
-- (src/query_processing/segmenter.rs: `choose_soft_boundary`).
use llm.Base.{ℕ, zero, suc, ◌+◌, ◌-◌, ◌≤◌, ◌<◌, ◌≡◌, min, max, List, arith, length}
use llm.Query.Profile.{Limits}
use llm.Query.Segmenter.{
  TokenOffset, Scan, returned, best, scan, settle, choose_soft_boundary, range_end,
}

module _ (text : List ℕ) (offsets : List TokenOffset) where
  abbrev Within : ℕ → ℕ → Scan → Type 0
  Within from hard (returned end) = (from ≤ end) × (end ≤ hard)
  Within from hard (best b) = Unit

  scan-Within :
      (rounds target end b hard : ℕ)
      → end + rounds ≡ hard + 1
      → Within end hard (scan text offsets rounds target end b)
  unfolding scan
  scan-Within zero target end b hard e = tt
  scan-Within (suc rounds) target end b hard e = ground (
    arith,
    scan-Within rounds target (end + 1) end hard,
    scan-Within rounds target (end + 1) b hard,
  )

  settle-bounds :
      (start hard from : ℕ) (s : Scan)
      → Within from hard s
      → start < from
      → start < hard
      → (start < settle text offsets start hard s) × (settle text offsets start hard s ≤ hard)
  unfolding settle
  settle-bounds start hard from (returned end) w h k = omega arith
  settle-bounds start hard from (best b) w h k = omega arith

  choose_soft_boundary-bounds :
      (limits : Limits) (start : ℕ)
      → 1 ≤ limits.segment_max_tokens
      → start < length offsets
      → (start < choose_soft_boundary text offsets limits start)
        × (choose_soft_boundary text offsets limits start
            ≤ min (start + limits.segment_max_tokens) (length offsets))
  unfolding choose_soft_boundary
  choose_soft_boundary-bounds limits start pos h =
      settle-bounds start hard from (scan text offsets (hard + 1 - from) target from b)
        (scan-Within (hard + 1 - from) target from b hard (omega arith)) (omega arith) (omega arith)
    where
      target : ℕ
      target = min (start + limits.segment_target_tokens) (length offsets)

      hard : ℕ
      hard = min (start + limits.segment_max_tokens) (length offsets)

      from : ℕ
      from = max (min (start + (limits.segment_target_tokens - 24)) hard) (start + 1)

      b : ℕ
      b = max target (start + 1)

  -- A segment that begins at a token ends behind it, within the text and the limit.
  pub range_end-bounds :
      (limits : Limits) (start : ℕ)
      → 1 ≤ limits.segment_max_tokens
      → start < length offsets
      → (start < range_end text offsets limits start)
        × (range_end text offsets limits start ≤ length offsets)
        × (range_end text offsets limits start ≤ start + limits.segment_max_tokens)
  unfolding range_end
  range_end-bounds limits start pos h =
      ground (arith, choose_soft_boundary-bounds limits start pos h)
