-- ===== src/Query/Segmenter/Compact.antt =====
-- Compaction of the ranges (src/query_processing/segmenter.rs: `compact_ranges`).
use llm.Base.{
  ℕ, zero, suc, ◌+◌, ◌-◌, ◌*◌, ◌≤◌, ◌<◌, ◌≡◌, refl, min, max, List, [], arith, length, All, u64_max,
  saturating_mul,
}
use native.Mathlib.Nat.{mul-le-mul_left}
use llm.Query.Profile.{Limits}
use llm.Query.Segmenter.{compact_from, compact_ranges, window_of, overlap_of, capacity, ok}
use llm.Query.Segmenter.Ranges.{Covered, IsRange}

module _ (n window overlap : ℕ) where
  compact_from-length :
      (fuel start m : ℕ)
      → overlap < window
      → n + m * overlap ≤ start + suc m * window
      → length (compact_from n window overlap fuel start) ≤ suc m
  unfolding compact_from
  compact_from-length zero start m lt fits = omega arith
  compact_from-length (suc fuel) start zero lt fits = ground arith
  compact_from-length (suc fuel) start (suc k) lt fits =
      ground
        (arith, compact_from-length fuel (max (min (start + window) n - overlap) (start + 1)) k)

  compact_from-All :
      (fuel start : ℕ)
      → 1 ≤ window
      → All (IsRange n window) (compact_from n window overlap fuel start)
  unfolding compact_from
  compact_from-All zero start pos = tt
  compact_from-All (suc fuel) start pos =
      ground (arith, compact_from-All fuel (max (min (start + window) n - overlap) (start + 1)) pos)

  compact_from-Covered :
      (fuel start i : ℕ)
      → 1 ≤ window
      → n ≤ start + fuel
      → start ≤ i
      → i < n
      → Covered i (compact_from n window overlap fuel start)
  unfolding compact_from
  compact_from-Covered zero start i pos enough le lt = absurd (omega arith)
  compact_from-Covered (suc fuel) start i pos enough le lt =
      ground (
        arith,
        compact_from-Covered fuel (max (min (start + window) n - overlap) (start + 1)) i pos,
      )

  compact_from-nil : (fuel start : ℕ) → n ≤ start → compact_from n window overlap fuel start ≡ []
  unfolding compact_from
  compact_from-nil zero start h = refl
  compact_from-nil (suc fuel) start h = ground arith

fits_of_capacity :
    (w o n m : ℕ)
    → o < w
    → suc m * w ≤ u64_max
    → n ≤ saturating_mul (suc m) w - saturating_mul (suc m - 1) o
    → n + m * o ≤ 0 + suc m * w
fits_of_capacity w o n m lt small fits =
    let below : m * o ≤ m * w = mul-le-mul_left m (omega arith) in
    let one_less : suc m - 1 ≡ m = omega arith in let exact = rw one_less at fits in omega arith

module _ (limits : Limits) where
  one-le-window : 1 ≤ window_of limits
  unfolding window_of
  one-le-window = omega arith

  overlap-lt-window : overlap_of limits < window_of limits
  unfolding overlap_of window_of
  overlap-lt-window = omega arith

  compact-length :
      (n m : ℕ)
      → limits.max_segments ≡ m
      → m * window_of limits ≤ u64_max
      → n ≤ capacity limits
      → length (compact_from n (window_of limits) (overlap_of limits) n 0) ≤ m
  unfolding capacity
  compact-length n zero e small fits =
      let fits' = rw e at fits in
      let none_left : n ≤ 0 = omega arith in
      rw (compact_from-nil n (window_of limits) (overlap_of limits) n 0 none_left) (omega arith)
  compact-length n (suc m) e small fits =
      compact_from-length n (window_of limits) (overlap_of limits) n 0 m overlap-lt-window
        (fits_of_capacity (window_of limits) (overlap_of limits) n m overlap-lt-window small fits')
    where
      fits' :
          n
          ≤ saturating_mul (suc m) (window_of limits)
            - saturating_mul (suc m - 1) (overlap_of limits)
      fits' = rw e at fits

  -- The ranges that compaction gives, and their number.
  pub record IsCompact (n : ℕ) (ranges : List (ℕ × ℕ)) : Type 0 where
    pub few : length ranges ≤ limits.max_segments
    pub valid : All (IsRange n (window_of limits)) ranges
    pub covering : (i : ℕ) → i < n → Covered i ranges

  -- Compaction succeeds on every query that is no longer than the capacity of the allowed segments,
  -- as long as that product does not overflow: its ranges are at most `max_segments`, none longer
  -- than a segment may be, and they cover the query. So the error "compaction exceeded
  -- max_segments" never occurs then.
  pub compact_ranges-IsCompact :
      (n : ℕ)
      → limits.max_segments * window_of limits ≤ u64_max
      → n ≤ capacity limits
      → (ranges : List (ℕ × ℕ)) × (compact_ranges n limits ≡ ok ranges) × IsCompact n ranges
  unfolding compact_ranges
  compact_ranges-IsCompact n small fits = (
    compact_from n (window_of limits) (overlap_of limits) n 0,
    ground (arith, few),
    record {
      few = few;
      valid = compact_from-All n (window_of limits) (overlap_of limits) n 0 one-le-window;
      covering = λ i lt.
          compact_from-Covered n (window_of limits) (overlap_of limits) n 0 i one-le-window
            (omega arith) (omega arith) lt;
    },
  )
    where
      few : length (compact_from n (window_of limits) (overlap_of limits) n 0) ≤ limits.max_segments
      few = compact-length n limits.max_segments refl small fits
