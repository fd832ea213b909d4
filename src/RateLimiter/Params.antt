-- ===== src/RateLimiter/Params.antt =====
-- The tick parameters that `from_rate_bps` derives (quelay-agent/src/rate_limiter.rs).
use quelay.Common.{ℕ, ◌+◌, ◌*◌, ◌/◌, ◌≤◌, ◌<◌, ◌≡◌, refl, ◌==◌, false, some, arith}
use quelay.RateLimiter.{RateParams, from_rate_bps, min_interval_ms, max_interval_ms}

-- At 8 bits per second or more the parameters exist: the interval is within its bounds, and the budget
-- of a tick is the rate over the interval, rounded down.
pub from_rate_bps_lem :
    (rate_bps chunk_size : ℕ)
    → 8 ≤ rate_bps
    → (p : RateParams) × (from_rate_bps rate_bps chunk_size ≡ some p)
      × (min_interval_ms ≤ p.interval_ms)
      × (p.interval_ms ≤ max_interval_ms)
      × (p.budget_bytes * 1000 ≤ rate_bps / 8 * p.interval_ms)
      × (rate_bps / 8 * p.interval_ms < (p.budget_bytes + 1) * 1000)
unfolding from_rate_bps
from_rate_bps_lem rate_bps chunk_size h =
    let some_rate : (rate_bps / 8 == 0) ≡ false = ground arith in
    rw some_rate (_, refl, omega arith, omega arith, floor_le _, floor_lt _)
  where
    floor_le : (n : ℕ) → n / 1000 * 1000 ≤ n
    floor_le n = omega arith

    floor_lt : (n : ℕ) → n < (n / 1000 + 1) * 1000
    floor_lt n = omega arith
