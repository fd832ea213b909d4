-- ===== src/RateLimiter/Registry.antt =====
-- `AggregateRateLimiter` of quelay-agent/src/rate_limiter.rs: the handle that the session manager and
-- the streams share. A session's count of wire bytes is read at the moment of a call: an argument.
use mathlib.Core.Option
use quelay.Common.{ℕ, ◌≡◌, Bool, true, false, Option, none, some, List, []}
use quelay.Common.Table.{lookup, insert, remove}
use quelay.Domain.Priority.{Priority}
use quelay.Framing.{chunk_size}
use quelay.Scheduler
use quelay.RateLimiter.{RateParams, from_rate_bps, StreamEntry, TrySend, Timer, tick}

-- The scheduler, the streams and the baseline are the timer task's too; the budget is the task's own.
pub record AggregateRateLimiter (Session : Type 0) : Type 0 where
  pub timer : Timer
  pub params : Option RateParams
  pub session : Option Session

abbrev pub is_some {ℓ} : {A : Type ℓ} → Option A → Bool
is_some none = false
is_some (some a) = true

module _ {Session : Type 0} where
  abbrev pub with_params : Option RateParams → Session → AggregateRateLimiter Session
  with_params params session = record {
    timer = record {
      scheduler = Scheduler.new;
      streams = [];
      available_budget = 0;
      wire_baseline = 0;
    };
    params = params;
    session = some session;
  }

  -- `none` is the panic of `from_rate_bps`.
  unfoldable pub new : Option ℕ → Session → Option (AggregateRateLimiter Session)
  unfolding from_rate_bps
  new none session = some (with_params none session)
  new (some bps) session =
      Option.map (λ p. with_params (some p) session) (from_rate_bps bps chunk_size)

  -- The two stores of `set_session`. The timer task does not wait for it, and may tick between them.
  unfoldable pub install_session :
      Session → AggregateRateLimiter Session → AggregateRateLimiter Session
  install_session new_session a = record a { session = some new_session }

  unfoldable pub store_baseline : ℕ → AggregateRateLimiter Session → AggregateRateLimiter Session
  store_baseline baseline a = record a { timer = record a.timer { wire_baseline = baseline } }

  unfoldable pub set_session :
      (Session → ℕ) → Session → AggregateRateLimiter Session → AggregateRateLimiter Session
  unfolding install_session store_baseline
  set_session wire_bytes_sent new_session a =
      let baseline = wire_bytes_sent new_session in
      store_baseline baseline (install_session new_session a)

  unfoldable pub wire_bytes_absolute : (Session → ℕ) → AggregateRateLimiter Session → ℕ
  wire_bytes_absolute wire_bytes_sent a = Option.get_or (Option.map wire_bytes_sent a.session) 0

  -- With whether the stream is given a ticket channel.
  unfoldable pub register :
      AggregateRateLimiter Session → ℕ → Priority → AggregateRateLimiter Session × Bool
  register a id priority =
      let scheduler = Scheduler.register a.timer.scheduler id priority in
      elim a.params [
        | none ↦ (record a { timer = record a.timer { scheduler = scheduler } }, false)
        | some _ ↦ (
          record a {
            timer = record a.timer {
              scheduler = scheduler;
              streams = insert id (record { head_offset = 0; q = 0 }) a.timer.streams;
            };
          },
          true,
        )
      ]

  unfoldable pub deregister : AggregateRateLimiter Session → ℕ → AggregateRateLimiter Session
  deregister a id = record a {
    timer = record a.timer {
      scheduler = Scheduler.deregister a.timer.scheduler id;
      streams = remove id a.timer.streams;
    };
  }

  -- What the TCP reader and the pump of a stream write to the atomics that the table holds.
  unfoldable pub store_offsets :
      AggregateRateLimiter Session → ℕ → StreamEntry → AggregateRateLimiter Session
  store_offsets a id offsets = elim (lookup id a.timer.streams) [
    | none ↦ a
    | some _ ↦ record a { timer = record a.timer { streams = insert id offsets a.timer.streams } }
  ]

  -- A tick of the timer task, which runs where there are parameters.
  unfoldable pub run_tick :
      (List (ℕ × ℕ) → List (ℕ × ℕ))
      → (ℕ → TrySend)
      → (Session → ℕ)
      → AggregateRateLimiter Session
      → AggregateRateLimiter Session × List (ℕ × ℕ)
  unfolding wire_bytes_absolute
  run_tick iter try_send wire_bytes_sent a = elim a.params [
    | none ↦ (a, [])
    | some p ↦
        let (timer', tickets) =
          tick iter try_send (wire_bytes_absolute wire_bytes_sent a) p.budget_bytes a.timer in
        (record a { timer = timer' }, tickets)
  ]

-- What happens to the handle, the stores of `set_session` one by one. A stream registers under an id
-- that is not registered.
pub data Step {Session : Type 0}
    : AggregateRateLimiter Session → AggregateRateLimiter Session → Type 0 where
  registers :
      (a : AggregateRateLimiter Session) (id : ℕ) (p : Priority)
      → lookup id a.timer.scheduler.streams ≡ none
      → Step a (register a id p).0
  deregisters : (a : AggregateRateLimiter Session) (id : ℕ) → Step a (deregister a id)
  installs :
      (a : AggregateRateLimiter Session) (session : Session) → Step a (install_session session a)
  resets : (a : AggregateRateLimiter Session) (baseline : ℕ) → Step a (store_baseline baseline a)
  stores :
      (a : AggregateRateLimiter Session) (id : ℕ) (offsets : StreamEntry)
      → Step a (store_offsets a id offsets)
  ticks :
      (a : AggregateRateLimiter Session) (iter : List (ℕ × ℕ) → List (ℕ × ℕ))
      (try_send : ℕ → TrySend) (wire_bytes_sent : Session → ℕ)
      → Step a (run_tick iter try_send wire_bytes_sent a).0

pub data Reachable {Session : Type 0} (a : AggregateRateLimiter Session)
    : AggregateRateLimiter Session → Type 0 where
  here : Reachable a a
  next : {b c : AggregateRateLimiter Session} → Reachable a b → Step b c → Reachable a c
