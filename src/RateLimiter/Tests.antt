-- ===== src/RateLimiter/Tests.antt =====
-- The ticks of quelay-agent/src/rate_limiter.rs on concrete streams.
use quelay.Common.{ℕ, ◌*◌, ◌/◌, ◌+◌, ◌≡◌, ◌≤◌, ◌<◌, refl, List, [], ◌∷◌, Perm, arith, some}
use mathlib.Core.List
use quelay.Common.Int.{pos}
use quelay.Domain.Priority.{Priority}
use quelay.Common.Table.{lookup}
use quelay.Scheduler.{new, register}
use quelay.Scheduler.Budget.{total}
use quelay.RateLimiter.{
  RateParams, from_rate_bps, min_interval_ms, max_interval_ms, TrySend, sent, Timer, accumulated,
  tick,
}
use quelay.RateLimiter.Params.{from_rate_bps_lem}
use quelay.RateLimiter.Tick.{tick_tickets}
use quelay.RateLimiter.Registry
use quelay.RateLimiter.Registry.{
  AggregateRateLimiter, deregister, Reachable, here, next, registers, installs, ticks,
}
use quelay.RateLimiter.Consistent.{IsConsistent, always_IsConsistent}

-- One bulk stream with 5000 bytes to send, and budget carried over.
abbrev demo : Timer
demo = record {
  scheduler = register new 1 (record { value = pos 0 });
  streams = (1, record { head_offset = 7000; q = 2000 }) ∷ [];
  available_budget = 1000;
  wire_baseline = 400;
}

abbrev pump_takes : ℕ → TrySend
pump_takes id = sent

same_order : (m : List (ℕ × ℕ)) → Perm m m
same_order m = ∣ List.Permᴰ.refl m ∣₁

from_rate_bps_lem_example :
    (p : RateParams) × (from_rate_bps 8000000 16384 ≡ some p)
    × (min_interval_ms ≤ p.interval_ms)
    × (p.interval_ms ≤ max_interval_ms)
    × (p.budget_bytes * 1000 ≤ 8000000 / 8 * p.interval_ms)
    × (8000000 / 8 * p.interval_ms < (p.budget_bytes + 1) * 1000)
from_rate_bps_lem_example = from_rate_bps_lem 8000000 16384 (omega arith)

tick_tickets_example :
    (total (tick (λ m. m) pump_takes 900 3000 demo).1 ≤ accumulated 3000 1000)
    × (accumulated 3000 1000 ≤ 3000 * 2)
tick_tickets_example = tick_tickets (λ m. m) pump_takes 900 3000 demo same_order

-- The handle at 8 Mbit/s; a session is its count of wire bytes.
abbrev params : RateParams
params = record { budget_bytes = 100000; interval_ms = 100 }

abbrev limiter : AggregateRateLimiter ℕ
limiter = Registry.with_params (some params) 0

made : Registry.new (some 8000000) 0 ≡ some limiter
unfolding Registry.new from_rate_bps
made = refl

abbrev bulk : Priority
bulk = record { value = pos 0 }

-- The stream registers and ends while `set_session` is between its two stores.
abbrev resumed : AggregateRateLimiter ℕ
resumed =
    Registry.store_baseline 70
      (deregister (Registry.register (Registry.install_session 70 limiter) 1 bulk).0 1)

used : Reachable limiter resumed
unfolding new lookup Registry.install_session
used =
    next
      (next (next (next here (installs limiter 70)) (registers _ 1 bulk refl))
        (Registry.deregisters _ 1))
      (Registry.resets _ 70)

always_IsConsistent_example : IsConsistent resumed
always_IsConsistent_example = always_IsConsistent (some 8000000) 0 made used

-- The old session has sent 400 bytes, the new one 50 at its start and 950 at the tick.
abbrev in_use : AggregateRateLimiter ℕ
in_use = record limiter { timer = demo }
