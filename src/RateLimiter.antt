-- ===== src/RateLimiter.antt =====
-- `RateParams` and one tick of `AggregateTimerTask` of quelay-agent/src/rate_limiter.rs.
pub mod Params
pub mod Tick
pub mod Registry
pub mod Consistent
pub mod Budget
pub mod Tests
use quelay.Common.{
  ℕ, ◌+◌, ◌-◌, ◌*◌, ◌/◌, min, max, Bool, true, false, not, ◌||◌, Option, none, some, List, [], ◌∷◌,
  ◌++◌, map, ltb, ◌==◌, if◌then◌else◌, saturating_add,
}
use quelay.Common.Table.{lookup, remove}
use quelay.Domain.Error.{Result, ok, err}
use quelay.Scheduler.{DrrScheduler, set_backlog, deregister, schedule}

abbrev chunks_per_tick : ℕ
chunks_per_tick = 8

abbrev pub min_interval_ms : ℕ
min_interval_ms = 5

abbrev pub max_interval_ms : ℕ
max_interval_ms = 100

pub record RateParams : Type 0 where
  pub interval_ms : ℕ
  pub budget_bytes : ℕ

-- `none` is the panic of a division by zero. The products fit u64 for all rates below 2 ^ 57.
unfoldable pub from_rate_bps : ℕ → ℕ → Option RateParams
from_rate_bps rate_bps chunk_size =
    let rate_bytes_per_sec = rate_bps / 8 in
    if rate_bytes_per_sec == 0
    then none
    else (let ideal_bytes_per_tick = chunks_per_tick * chunk_size in
        let ideal_ms = ideal_bytes_per_tick * 1000 / rate_bytes_per_sec in
        let interval_ms = max min_interval_ms (min ideal_ms max_interval_ms) in
        some (record {
          interval_ms = interval_ms;
          budget_bytes = rate_bytes_per_sec * interval_ms / 1000;
        }))

-- The atomics of a stream; its ticket channel shows in what `try_send` answers.
pub record StreamEntry : Type 0 where
  pub head_offset : ℕ
  pub q : ℕ

pub data TrySend : Type 0 where
  sent full closed : TrySend

pub record Timer : Type 0 where
  pub scheduler : DrrScheduler
  pub streams : List (ℕ × StreamEntry)
  pub available_budget : ℕ
  pub wire_baseline : ℕ

-- Phase 1: the backlogs, `head.saturating_sub(q)`.
unfoldable pub snapshot : List (ℕ × StreamEntry) → List (ℕ × ℕ)
snapshot [] = []
snapshot ((id, e) ∷ rest) = (id, e.head_offset - e.q) ∷ snapshot rest

unfoldable pub set_backlogs : List (ℕ × ℕ) → DrrScheduler → DrrScheduler
set_backlogs [] s = s
set_backlogs ((id, backlog) ∷ rest) s = set_backlogs rest (set_backlog s id backlog)

-- Phase 3: the tickets delivered and the streams whose pumps are gone.
pub record Delivery : Type 0 where
  pub delivered : ℕ
  pub tickets : List (ℕ × ℕ)
  pub closed_streams : List ℕ

unfoldable pub deliver_one : TrySend → ℕ → ℕ → Delivery → Delivery
deliver_one sent id bytes d = record d {
  delivered = saturating_add d.delivered bytes;
  tickets = d.tickets ++ (id, bytes) ∷ [];
}
deliver_one full id bytes d = d
deliver_one closed id bytes d = record d { closed_streams = d.closed_streams ++ id ∷ [] }

-- A ticket for a stream of the snapshot, unless it is of no byte.
unfoldable pub offer_ticket : (ℕ → TrySend) → List (ℕ × ℕ) → ℕ → ℕ → Delivery → Delivery
unfolding deliver_one
offer_ticket try_send snap id bytes d =
    if bytes == 0
    then d
    else (elim (lookup id snap) [ none ↦ d | some backlog ↦ deliver_one (try_send id) id bytes d ])

unfoldable pub deliver : (ℕ → TrySend) → List (ℕ × ℕ) → List (ℕ × ℕ) → Delivery → Delivery
unfolding offer_ticket
deliver try_send snap [] d = d
deliver try_send snap ((id, bytes) ∷ rest) d =
    deliver try_send snap rest (offer_ticket try_send snap id bytes d)

-- Phase 5.
unfoldable pub clean_up : List ℕ → Timer → Timer
clean_up [] t = t
clean_up (id ∷ ids) t =
    clean_up ids (record t { scheduler = deregister t.scheduler id; streams = remove id t.streams })

-- The budget of a tick: what is carried over and one interval more, at most two intervals.
unfoldable pub accumulated : ℕ → ℕ → ℕ
accumulated per_tick available = min (saturating_add available per_tick) (per_tick * 2)

-- Phase 4.
unfoldable pub settled : ℕ → ℕ → ℕ → ℕ
settled available wire_delta delivered =
    saturating_add (available - wire_delta) (available - delivered)

-- One pass of the loop of `run`, with the tickets it delivers. `iter` is the order of a map, `try_send`
-- what each pump's channel answers, `wire_now` the session's count of wire bytes.
unfoldable pub tick :
    (List (ℕ × ℕ) → List (ℕ × ℕ)) → (ℕ → TrySend) → ℕ → ℕ → Timer → Timer × List (ℕ × ℕ)
unfolding snapshot set_backlogs deliver clean_up accumulated settled
tick iter try_send wire_now per_tick t =
    let available = accumulated per_tick t.available_budget in
    let snap = snapshot t.streams in
    let (scheduler', allocs) = schedule iter (set_backlogs snap t.scheduler) available in
    elim allocs [
      | err e ↦ (record t { scheduler = scheduler'; available_budget = available }, [])
      | ok allocs ↦
          let d =
            deliver try_send snap allocs
              (record { delivered = 0; tickets = []; closed_streams = [] }) in
          (
            clean_up d.closed_streams (record t {
              scheduler = scheduler';
              available_budget = settled available (wire_now - t.wire_baseline) d.delivered;
              wire_baseline = wire_now;
            }),
            d.tickets,
          )
    ]
