-- ===== src/SessionManager/Bounded.antt =====
-- The bounds of `RemoteState` (quelay-agent/src/session_manager.rs): `max_concurrent` active streams
-- and `max_pending` waiting ones, in order of priority.
use quelay.Common.{
  ℕ, ◌≤◌, ◌≡◌, refl, ap, ◌∙◌, max, Option, none, some, List, [], ◌∷◌, length, inl, inr,
  Option-cases, arith,
}
use quelay.SessionManager.{
  RemoteState, new, on_link_failed, restore_active, on_restored, Event, start, finished, limit,
  set_max_concurrent, link_failed, restored, handle_event, handle_events,
}
use quelay.SessionManager.Limit.{
  limit_after, highest_limit, highest_limit-start, highest_limit-rest, handle_event-max_concurrent,
}
use mathlib.Core.Option
use quelay.SessionManager.Queue.{Sorted}
use quelay.SessionManager.Slots.{
  WithinLimit, Bounded, start-Bounded, promote_pending-Bounded, drain_pending-Bounded,
  restore_active-Bounded, restored_session, finished-Bounded,
}

-- A number of streams is within a limit; `none` is no limit.
abbrev pub Within : ℕ → Option ℕ → Type 0
Within k none = Unit
Within k (some n) = k ≤ n

Within-of : (k : ℕ) (o : Option ℕ) → ((n : ℕ) → o ≡ some n → k ≤ n) → Within k o
Within-of k none h = tt
Within-of k (some n) h = h n refl

module _ {Session Info Handle : Type 0} where
  -- Every event keeps the queue within its bound and in order, and leaves no more streams active than
  -- there were, or than the limit that is then in force.
  handle_event-Bounded :
      (r : RemoteState Session Info Handle) (e : Event Session Info Handle)
      → Sorted r.pending
      → length r.pending ≤ r.max_pending
      → Bounded (length r.active_uplinks) (handle_event r e)
  unfolding handle_event set_max_concurrent on_link_failed on_restored
  handle_event-Bounded r e s q = go e
    where
      now : Bounded (length r.active_uplinks) r
      now = record { sorted = s; queue = q; within = λ n m. omega arith }

      go : (e : Event Session Info Handle) → Bounded (length r.active_uplinks) (handle_event r e)
      go (start opener p) = start-Bounded opener r p now
      go (finished opener uuid) = finished-Bounded opener uuid r now
      go (limit opener max_concurrent) =
          promote_pending-Bounded opener (record r { max_concurrent = max_concurrent })
            (record { sorted = s; queue = q; within = λ n m. omega arith })
      go link_failed = record { sorted = s; queue = q; within = λ n m. omega arith }
      go (restored opener outcome alive session) =
          drain_pending-Bounded opener
            (restore_active outcome alive (record r { session = some session })) session
            (restore_active-Bounded opener outcome alive session r now)
            (restored_session outcome alive session r)

  handle_events-Sorted :
      (es : List (Event Session Info Handle)) (r : RemoteState Session Info Handle)
      → Sorted r.pending
      → length r.pending ≤ r.max_pending
      → Sorted (handle_events r es).pending
        × (length (handle_events r es).pending ≤ (handle_events r es).max_pending)
  unfolding handle_events
  handle_events-Sorted [] r s q = (s, q)
  handle_events-Sorted (e ∷ es) r s q =
      let b = handle_event-Bounded r e s q in
      handle_events-Sorted es (handle_event r e) b.sorted b.queue

  -- Where no limit in force is above `n`.
  handle_events-le :
      (es : List (Event Session Info Handle)) (r : RemoteState Session Info Handle) (k n : ℕ)
      → Sorted r.pending
      → length r.pending ≤ r.max_pending
      → highest_limit es r.max_concurrent ≡ some k
      → k ≤ n
      → length r.active_uplinks ≤ n
      → length (handle_events r es).active_uplinks ≤ n
  unfolding handle_events
  handle_events-le [] r k n s q h l a = a
  handle_events-le (e ∷ es) r k n s q h l a =
      let b = handle_event-Bounded r e s q in
      let (k', h', l') = highest_limit-rest e es r.max_concurrent k h in
      let now = handle_event-max_concurrent r e in
      let (m, f, u) = highest_limit-start es (limit_after e r.max_concurrent) k' h' in
      let w = b.within m (now ∙ f) in
      handle_events-le es (handle_event r e) k' n b.sorted b.queue (ap (highest_limit es) now ∙ h')
        (omega arith) (omega arith)

  -- From the start on, whatever is requested, ends, fails or reconnects and whatever limits are set: the
  -- streams that wait are in order of priority and no more than `max_pending`; no more streams are active
  -- than the highest of the limits in force until then; and after any event `e` that follows no more are
  -- active than `max_concurrent` then is, or than were active before `e`.
  pub always_Bounded :
      (session : Session) (max_concurrent : Option ℕ) (max_pending : ℕ)
      (es : List (Event Session Info Handle)) (e : Event Session Info Handle)
      → let r = handle_events (new session max_concurrent max_pending) es in
        let r' = handle_event r e in
        Sorted r.pending
        × (length r.pending ≤ r.max_pending)
        × Within (length r.active_uplinks) (highest_limit es max_concurrent)
        × Within
            (length r'.active_uplinks)
            (Option.map (λ m. max m (length r.active_uplinks)) r'.max_concurrent)
  unfolding new
  always_Bounded session max_concurrent max_pending es e =
      let r0 = new session max_concurrent max_pending in
      let r = handle_events r0 es in
      let (s, q) = handle_events-Sorted es r0 tt (omega arith) in
      (
        s,
        q,
        Within-of (length r.active_uplinks) (highest_limit es max_concurrent)
            λ n h. handle_events-le es r0 n n tt (omega arith) h (omega arith) (omega arith),
        step (length r.active_uplinks) (handle_event r e) (handle_event-Bounded r e s q).within,
      )
    where
      step :
          (c : ℕ) (r : RemoteState Session Info Handle)
          → WithinLimit c r
          → Within (length r.active_uplinks) (Option.map (λ m. max m c) r.max_concurrent)
      step c r w = elim (Option-cases r.max_concurrent) [
        | inl n ↦ rw n tt
        | inr (m, e) ↦ rw e (w m e)
      ]
