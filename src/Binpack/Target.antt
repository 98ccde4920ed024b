-- ===== src/Binpack/Target.antt =====
-- The data budget of a disc.
use varis.Base.{ℕ, ◌+◌, ◌*◌, ◌/◌, ◌^◌, ◌≤◌, ◌<◌, ◌≡◌, arith, int64_limit}
use varis.Binpack.{target_data_size}

target_data_size-eq :
    (capacity parity : ℕ)
    → capacity * 100 < int64_limit
    → parity < 2 ^ 32
    → target_data_size capacity parity ≡ capacity * 100 / (100 + parity)
unfolding target_data_size
target_data_size-eq capacity parity h p = ground arith

-- Where a hundred times the capacity is below 2 ^ 63 and the percentage of parity below 2 ^ 32, the
-- budget is the most data that fits on a disc together with its parity: that much data and `parity`
-- percent of it stay within the capacity, and one byte more of data does not.
pub target_data_size_lem :
    (capacity parity : ℕ)
    → capacity * 100 < int64_limit
    → parity < 2 ^ 32
    → (target_data_size capacity parity * (100 + parity) ≤ capacity * 100)
      × (capacity * 100 < (target_data_size capacity parity + 1) * (100 + parity))
target_data_size_lem capacity parity h p =
    rw (target_data_size-eq capacity parity h p) (omega arith, omega arith)
