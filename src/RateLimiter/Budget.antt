-- ===== src/RateLimiter/Budget.antt =====
-- What a tick of the aggregate timer deducts, also across a new session
-- (quelay-agent/src/rate_limiter.rs).
use quelay.Common.{min, ◌≡◌, u64_max}
use quelay.Scheduler.Budget.{total}
use quelay.RateLimiter.{Delivery}

-- What is counted as delivered is what the tickets add up to.
abbrev Counted : Delivery → Type 0
Counted d = d.delivered ≡ min (total d.tickets) u64_max
