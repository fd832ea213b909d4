-- ===== src/SessionManager/Limit.antt =====
-- How `max_concurrent` of `RemoteState` changes: by `SetMaxConcurrent` alone
-- (quelay-agent/src/session_manager.rs).
use quelay.Common.{
  ℕ, suc, ◌≤◌, ◌≡◌, refl, max, Option, none, some, List, [], ◌∷◌, inl, inr, Bool-cases,
  Option-cases, arith,
}
use quelay.Common.Table.{insert}
use quelay.SessionManager.{
  PendingStream, RemoteState, has_active_slot, queue_or_refuse, on_stream_start, promote_front,
  promote_pending, drain_loop, drain_pending, stream_finished, set_max_concurrent, on_link_failed,
  restore_active, on_restored, Event, start, finished, limit, link_failed, restored, handle_event,
  enqueue,
}

-- The larger of two limits; `none` is no limit.
unfoldable higher : Option ℕ → Option ℕ → Option ℕ
higher none o = none
higher (some m) none = none
higher (some m) (some n) = some (max m n)

higher-parts :
    (o o' : Option ℕ) (n : ℕ)
    → higher o o' ≡ some n
    → (m k : ℕ) × (o ≡ some m) × (o' ≡ some k) × (m ≤ n) × (k ≤ n)
unfolding higher
higher-parts none o' n e = absurd (ground (arith, e))
higher-parts (some m) none n e = absurd (ground (arith, e))
higher-parts (some m) (some k) n e = (m, k, refl, refl, ground (arith, e), ground (arith, e))

module _ {Session Info Handle : Type 0} where
  -- The limit in force after an event, where it was `o` before.
  unfoldable pub limit_after : Event Session Info Handle → Option ℕ → Option ℕ
  limit_after (start opener p) o = o
  limit_after (finished opener uuid) o = o
  limit_after (limit opener m) o = m
  limit_after link_failed o = o
  limit_after (restored opener outcome alive session) o = o

  module _ (opener : Session → PendingStream Info → Option Handle) where
    promote_front-max_concurrent :
        (r : RemoteState Session Info Handle)
        → (promote_front opener r).max_concurrent ≡ r.max_concurrent
    unfolding promote_front
    promote_front-max_concurrent r = ground arith

    pub promote_pending-max_concurrent :
        (r : RemoteState Session Info Handle)
        → (promote_pending opener r).max_concurrent ≡ r.max_concurrent
    unfolding promote_pending
    promote_pending-max_concurrent r = ground (arith, promote_front-max_concurrent r)

    start-max_concurrent :
        (r : RemoteState Session Info Handle) (p : PendingStream Info)
        → (handle_event r (start opener p)).max_concurrent ≡ r.max_concurrent
    unfolding handle_event on_stream_start queue_or_refuse enqueue
    start-max_concurrent r p = ground arith

    drain_loop-max_concurrent :
        (session : Session) (i : ℕ) (ps : List (PendingStream Info))
        (r : RemoteState Session Info Handle)
        → (drain_loop opener session i ps r).0.max_concurrent ≡ r.max_concurrent
    unfolding drain_loop
    drain_loop-max_concurrent session i [] r = refl
    drain_loop-max_concurrent session i (p ∷ rest) r = elim (Bool-cases (has_active_slot r)) [
      | inr e ↦ rw (drain_loop, e) refl
      | inl e ↦ elim (Option-cases (opener session p)) [
        | inl n ↦ rw (drain_loop, e, n) (drain_loop-max_concurrent session (suc i) rest r)
        | inr (h, y) ↦
            rw (drain_loop, e, y)
              (drain_loop-max_concurrent session (suc i) rest
                (record r { active_uplinks = insert p.uuid h r.active_uplinks }))
      ]
    ]

    drain_pending-max_concurrent :
        (r : RemoteState Session Info Handle)
        → (drain_pending opener r).max_concurrent ≡ r.max_concurrent
    unfolding drain_pending
    drain_pending-max_concurrent r = go r.session
      where
        go :
            (o : Option Session)
            → (drain_pending opener (record r { session = o })).max_concurrent ≡ r.max_concurrent
        go none = refl
        go (some session) =
            drain_loop-max_concurrent session 0 r.pending (record r { session = some session })

  pub handle_event-max_concurrent :
      (r : RemoteState Session Info Handle) (e : Event Session Info Handle)
      → (handle_event r e).max_concurrent ≡ limit_after e r.max_concurrent
  unfolding handle_event stream_finished set_max_concurrent on_link_failed on_restored
      restore_active limit_after
  handle_event-max_concurrent r (start opener p) = start-max_concurrent opener r p
  handle_event-max_concurrent r (finished opener uuid) = promote_pending-max_concurrent opener _
  handle_event-max_concurrent r (limit opener m) = promote_pending-max_concurrent opener _
  handle_event-max_concurrent r link_failed = refl
  handle_event-max_concurrent r (restored opener outcome alive session) =
      drain_pending-max_concurrent opener
        (restore_active outcome alive (record r { session = some session }))

  -- The highest limit in force in the course of these events, from limit `o` on.
  unfoldable pub highest_limit : List (Event Session Info Handle) → Option ℕ → Option ℕ
  unfolding higher limit_after
  highest_limit [] o = o
  highest_limit (e ∷ es) o = higher o (highest_limit es (limit_after e o))

  -- The limit in force at the start is among them, and those that follow the first event are.
  pub highest_limit-start :
      (es : List (Event Session Info Handle)) (o : Option ℕ) (n : ℕ)
      → highest_limit es o ≡ some n
      → (m : ℕ) × (o ≡ some m) × (m ≤ n)
  unfolding highest_limit
  highest_limit-start [] o n e = (n, e, omega arith)
  highest_limit-start (e ∷ es) o n h =
      let (m, k, s, s', l, l') = higher-parts o (highest_limit es (limit_after e o)) n h in
      (m, s, l)

  pub highest_limit-rest :
      (e : Event Session Info Handle) (es : List (Event Session Info Handle)) (o : Option ℕ) (n : ℕ)
      → highest_limit (e ∷ es) o ≡ some n
      → (k : ℕ) × (highest_limit es (limit_after e o) ≡ some k) × (k ≤ n)
  unfolding highest_limit
  highest_limit-rest e es o n h =
      let (m, k, s, s', l, l') = higher-parts o (highest_limit es (limit_after e o)) n h in
      (k, s', l')
