-- ===== src/SessionManager/Opening.antt =====
-- `open_stream_on_session` of quelay-agent/src/session_manager.rs with the aggregate rate limiter, at
-- which it registers the stream between the header and the spawn.
use quelay.Common.{
  ℕ, ◌≡◌, refl, ◌∙◌, ap, Option, Option-cases, subst, ◌⊎◌, none, some, arith, inl, inr,
}
use quelay.Common.Table.{lookup}
use quelay.Domain.Priority.{Priority}
use quelay.Scheduler
use quelay.Scheduler.{DrrScheduler, rebalance}
use quelay.Scheduler.Queues.{IsValid}
use quelay.Scheduler.Members.{places_le_one, places-register}
use quelay.RateLimiter.Registry.{AggregateRateLimiter, register}
use quelay.RateLimiter.Consistent.{IsConsistent, register-IsConsistent}
use quelay.SessionManager.{PendingStream}

-- How far an attempt comes: `open_stream`, `write_connect_header`, `spawn_uplink`.
pub data Attempt (Handle : Type 0) : Type 0 where
  open_failed header_failed spawn_failed : Attempt Handle
  spawned : Handle → Attempt Handle

scheduler-register :
    {Session : Type 0} (arl : AggregateRateLimiter Session) (id : ℕ) (p : Priority)
    → (register arl id p).0.timer.scheduler ≡ Scheduler.register arl.timer.scheduler id p
unfolding register
scheduler-register arl id p = elim (Option-cases arl.params) [
  | inl n ↦ rw (register, n) refl
  | inr (q, s) ↦ rw (register, s) refl
]

twice :
    {Session : Type 0} (id : ℕ) (p : Priority) (arl : AggregateRateLimiter Session)
    → ¬ IsValid (register (register arl id p).0 id p).0.timer.scheduler
twice id p arl v =
    let s = arl.timer.scheduler in
    let e =
      scheduler-register (register arl id p).0 id p
      ∙ ap (λ s. Scheduler.register s id p) (scheduler-register arl id p) in
    let w = subst IsValid e v in
    let once = places_le_one _ id w in
    omega (arith, places-register s id p, places-register (Scheduler.register s id p) id p)

module _ {Session Info Handle : Type 0} where
  unfoldable open_stream_on_session :
      Attempt Handle
      → PendingStream Info
      → AggregateRateLimiter Session
      → AggregateRateLimiter Session × Option Handle
  unfolding register
  open_stream_on_session open_failed p arl = (arl, none)
  open_stream_on_session header_failed p arl = (arl, none)
  open_stream_on_session spawn_failed p arl = ((register arl p.uuid p.priority).0, none)
  open_stream_on_session (spawned handle) p arl = ((register arl p.uuid p.priority).0, some handle)

  -- An attempt for a stream that is not registered leaves the limiter consistent, however far it comes.
  open_stream_on_session-IsConsistent :
      (o : Attempt Handle) (p : PendingStream Info) (arl : AggregateRateLimiter Session)
      → lookup p.uuid arl.timer.scheduler.streams ≡ none
      → IsConsistent arl
      → IsConsistent (open_stream_on_session o p arl).0
  unfolding open_stream_on_session
  open_stream_on_session-IsConsistent open_failed p arl fresh c = c
  open_stream_on_session-IsConsistent header_failed p arl fresh c = c
  open_stream_on_session-IsConsistent spawn_failed p arl fresh c =
      register-IsConsistent arl c p.uuid p.priority fresh
  open_stream_on_session-IsConsistent (spawned handle) p arl fresh c =
      register-IsConsistent arl c p.uuid p.priority fresh

  -- Where the spawn of an uplink fails, the stream stays registered, and a retry that registers it again
  -- breaks the invariant of the scheduler's queues: it stands in them twice.
  retry-not-IsValid :
      (o : Attempt Handle) (p : PendingStream Info) (arl : AggregateRateLimiter Session)
      → (o ≡ spawn_failed) ⊎ ((handle : Handle) × (o ≡ spawned handle))
      → ¬ IsValid
          (open_stream_on_session o p
            (open_stream_on_session spawn_failed p arl).0).0.timer.scheduler
  unfolding open_stream_on_session
  retry-not-IsValid o p arl (inl e) v = twice p.uuid p.priority arl (
      subst
        (λ o.
          IsValid
            (open_stream_on_session o p
              (open_stream_on_session spawn_failed p arl).0).0.timer.scheduler)
        e v)
  retry-not-IsValid o p arl (inr (handle, e)) v = twice p.uuid p.priority arl (
      subst
        (λ o.
          IsValid
            (open_stream_on_session o p
              (open_stream_on_session spawn_failed p arl).0).0.timer.scheduler)
        e v)
