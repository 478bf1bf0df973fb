-- ===== src/Base/Words.antt =====
-- The saturating operations of Rust on `u64` and on a 64-bit `usize`. A subtraction that saturates
-- at 0 is the subtraction of the native numbers.
use Prim.Native.Nat.{ℕ, ◌+◌, ◌-◌, ◌*◌, min}

abbrev pub u64_max : ℕ
u64_max = 18446744073709551615

abbrev pub saturating_add : ℕ → ℕ → ℕ
saturating_add a b = min (a + b) u64_max

abbrev pub saturating_mul : ℕ → ℕ → ℕ
saturating_mul a b = min (a * b) u64_max

-- The distance of two durations.
abbrev pub abs_diff : ℕ → ℕ → ℕ
abs_diff a b = (a - b) + (b - a)
