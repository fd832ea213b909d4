-- ===== src/SessionManager/Held.antt =====
-- No stream that `stream_start` accepts is lost (quelay-agent/src/session_manager.rs).
use quelay.Common.{
  ◌≤◌, ◌<◌, leb→le, leb_false→lt, ℕ, suc, ◌≡◌, ◌≢◌, refl, sym, ◌⊎◌, inl, inr, true, false, not,
  ◌||◌, Option, none, some, List, [], ◌∷◌, length, ◌==◌, Bool-cases, Option-cases, arith, subst,
}
use quelay.Common.Table.{insert, remove}
use quelay.SessionManager.{
  PendingStream, RemoteState, is_exited, running, queue_full, queued, enqueue, has_active_slot,
  pending_queue_full, queue_or_refuse, try_open, on_stream_start, promote_front, promote_pending,
  drain_loop, drain_pending, stream_finished, on_link_failed, restore_active, on_restored, Event,
  start, finished, limit, set_max_concurrent, link_failed, restored, handle_event,
}
use quelay.SessionManager.Queue.{place-Placed}
use quelay.SessionManager.Promotion.{kept, pending-drain_pending}
use quelay.SessionManager.Presence.{
  Waiting, Waiting-append, Waiting-left, Waiting-right, Active, insert-Active, remove-Active,
  retain-Active,
}

module _ {Session Info Handle : Type 0} where
  -- The manager holds a stream: it waits, or it is active.
  abbrev pub Held : ℕ → RemoteState Session Info Handle → Type 0
  Held id r = Waiting id r.pending ⊎ Active id r.active_uplinks

  enqueue-Held :
      (r : RemoteState Session Info Handle) (p : PendingStream Info) (id : ℕ)
      → (p.uuid ≡ id) ⊎ Held id r
      → Held id (enqueue r p).0
  unfolding enqueue
  enqueue-Held r p id h =
      let v = place-Placed r.pending p in
      elim h [
        | inl e ↦
            inl (subst (Waiting id) (sym v.is) (Waiting-right id v.before (p ∷ v.after) (inl e)))
        | inr (inr a) ↦ inr a
        | inr (inl w) ↦ elim (Waiting-append id v.before v.after (subst (Waiting id) v.was w)) [
          | inl b ↦ inl (subst (Waiting id) (sym v.is) (Waiting-left id v.before (p ∷ v.after) b))
          | inr a ↦
              inl (subst (Waiting id) (sym v.is) (Waiting-right id v.before (p ∷ v.after) (inr a)))
        ]
      ]

  full :
      (r : RemoteState Session Info Handle)
      → pending_queue_full r ≡ true
      → r.max_pending ≤ length r.pending
  unfolding pending_queue_full
  full r e = leb→le r.max_pending (length r.pending) e

  room :
      (r : RemoteState Session Info Handle)
      → pending_queue_full r ≡ false
      → length r.pending < r.max_pending
  unfolding pending_queue_full
  room r e = leb_false→lt r.max_pending (length r.pending) e

  module _ (opener : Session → PendingStream Info → Option Handle) where
    promote_pending-Held :
        (r : RemoteState Session Info Handle) (id : ℕ)
        → Held id r
        → Held id (promote_pending opener r)
    unfolding promote_pending promote_front
    promote_pending-Held r id h =
        elim (Bool-cases ((length r.pending == 0) || not (has_active_slot r))) [
          | inl c ↦ rw (promote_pending, c) h
          | inr c ↦ rw (promote_pending, c) (front r.session r.pending h)
        ]
      where
        front :
            (o : Option Session) (ps : List (PendingStream Info))
            → Held id (record r { session = o; pending = ps })
            → Held id (promote_front opener (record r { session = o; pending = ps }))
        front o [] h = h
        front none (p ∷ rest) h = h
        front (some session) (p ∷ rest) h = elim (Option-cases (opener session p)) [
          | inl n ↦ rw (promote_front, n) h
          | inr (x, y) ↦
              rw (promote_front, y)
                (elim h [
                  | inl (inl k) ↦ inr (insert-Active id p.uuid x r.active_uplinks (inl k))
                  | inl (inr w) ↦ inl w
                  | inr a ↦ inr (insert-Active id p.uuid x r.active_uplinks (inr a))
                ])
        ]

    -- The loop of `drain_pending` keeps the active streams, and a waiting one that leaves the queue is
    -- active.
    drain_loop-Held :
        (session : Session) (i : ℕ) (ps : List (PendingStream Info))
        (r : RemoteState Session Info Handle) (id : ℕ)
        → Waiting id ps ⊎ Active id r.active_uplinks
        → Waiting id (kept opener session ps r)
          ⊎ Active id (drain_loop opener session i ps r).0.active_uplinks
    unfolding drain_loop kept
    drain_loop-Held session i [] r id (inl w) = absurd w
    drain_loop-Held session i [] r id (inr a) = inr a
    drain_loop-Held session i (p ∷ rest) r id h = elim (Bool-cases (has_active_slot r)) [
      | inr e ↦ rw (drain_loop, kept, e) h
      | inl e ↦ elim (Option-cases (opener session p)) [
        | inl n ↦
            rw (drain_loop, kept, e, n)
              (elim h [
                | inl (inl k) ↦ inl (inl k)
                | inl (inr w) ↦ later (drain_loop-Held session (suc i) rest r id (inl w))
                | inr a ↦ later (drain_loop-Held session (suc i) rest r id (inr a))
              ])
        | inr (x, y) ↦
            rw (drain_loop, kept, e, y)
              (drain_loop-Held session (suc i) rest
                (record r { active_uplinks = insert p.uuid x r.active_uplinks }) id
                (elim h [
                  | inl (inl k) ↦ inr (insert-Active id p.uuid x r.active_uplinks (inl k))
                  | inl (inr w) ↦ inl w
                  | inr a ↦ inr (insert-Active id p.uuid x r.active_uplinks (inr a))
                ]))
      ]
    ]
      where
        later : {A B C : Type 0} → A ⊎ B → (C ⊎ A) ⊎ B
        later (inl a) = inl (inr a)
        later (inr b) = inr b

    drain_pending-Held :
        (r : RemoteState Session Info Handle) (session : Session) (id : ℕ)
        → r.session ≡ some session
        → Held id r
        → Held id (drain_pending opener r)
    unfolding drain_pending
    drain_pending-Held r session id e h =
        let left = pending-drain_pending opener session r e in
        elim (drained r.session e) [ inl w ↦ inl (subst (Waiting id) (sym left) w) | inr a ↦ inr a ]
      where
        drained :
            (o : Option Session)
            → o ≡ some session
            → Waiting id (kept opener session r.pending (record r { session = o }))
              ⊎ Active id (drain_pending opener (record r { session = o })).active_uplinks
        drained none e = absurd (ground (arith, e))
        drained (some session') e =
            let same : session' ≡ session = ground (arith, e) in
            subst
              (λ x.
                Waiting id (kept opener x r.pending (record r { session = some session' }))
                ⊎ Active id
                    (drain_pending opener (record r { session = some session' })).active_uplinks)
              same
              (drain_loop-Held session' 0 r.pending (record r { session = some session' }) id h)

    queue_or_refuse-Held :
        (r : RemoteState Session Info Handle) (p : PendingStream Info) (id : ℕ)
        → Held id r
        → Held id (queue_or_refuse r p).0
    unfolding queue_or_refuse
    queue_or_refuse-Held r p id h = elim (Bool-cases (pending_queue_full r)) [
      | inl y ↦ rw (queue_or_refuse, y) h
      | inr n ↦ rw (queue_or_refuse, n) (enqueue-Held r p id (inr h))
    ]

    -- The answer to a request tells what has become of it: a stream that runs is active, one that is
    -- queued stands in the queue, and one that is refused leaves the manager as it was.
    pub on_stream_start_lem :
        (r : RemoteState Session Info Handle) (p : PendingStream Info)
        → let (after, status, sent) = on_stream_start opener (some r) p in
          ((status ≡ running)
            × ((h : Handle) × (after
                  ≡ some (record r { active_uplinks = insert p.uuid h r.active_uplinks }))))
          ⊎ ((status ≡ queue_full) × (after ≡ some r) × (r.max_pending ≤ length r.pending))
          ⊎ ((status ≡ queued (enqueue r p).1)
              × (after ≡ some (enqueue r p).0)
              × (length r.pending < r.max_pending))
    unfolding on_stream_start queue_or_refuse
    on_stream_start_lem r p = elim (Option-cases (try_open opener r p)) [
      | inr (h, e) ↦ rw (on_stream_start, e) (inl (refl, (h, refl)))
      | inl n ↦ elim (Bool-cases (pending_queue_full r)) [
        | inl y ↦ rw (on_stream_start, n, queue_or_refuse, y) (inr (inl (refl, refl, full r y)))
        | inr y ↦ rw (on_stream_start, n, queue_or_refuse, y) (inr (inr (refl, refl, room r y)))
      ]
    ]

  -- Events that do not end a stream: neither its own end, nor that its pump is found gone.
  abbrev Spares : ℕ → Event Session Info Handle → Type 0
  Spares id (start opener p) = Unit
  Spares id (finished opener uuid) = uuid ≢ id
  Spares id (limit opener m) = Unit
  Spares id link_failed = Unit
  Spares id (restored opener outcome alive session) =
      (is_exited (outcome id) ≡ false) × (alive id ≡ true)

  start-Held :
      (opener : Session → PendingStream Info → Option Handle) (r : RemoteState Session Info Handle)
      (p : PendingStream Info) (id : ℕ)
      → Held id r
      → Held id (handle_event r (start opener p))
  unfolding handle_event on_stream_start
  start-Held opener r p id h = elim (Option-cases (try_open opener r p)) [
    | inl n ↦ rw (handle_event, on_stream_start, n) (queue_or_refuse-Held opener r p id h)
    | inr (x, e) ↦
        rw (handle_event, on_stream_start, e)
          (elim h [
            | inl w ↦ inl w
            | inr a ↦ inr (insert-Active id p.uuid x r.active_uplinks (inr a))
          ])
  ]

  -- A stream that the manager holds, waiting or active, it holds after every event that does not end
  -- that stream: none is dropped when the link fails, when others are promoted, or on reconnection.
  pub handle_event-Held :
      (r : RemoteState Session Info Handle) (e : Event Session Info Handle) (id : ℕ)
      → Spares id e
      → Held id r
      → Held id (handle_event r e)
  unfolding handle_event stream_finished set_max_concurrent on_link_failed on_restored
      restore_active
  handle_event-Held r (start opener p) id s h = start-Held opener r p id h
  handle_event-Held r (finished opener uuid) id s h =
      promote_pending-Held opener (record r { active_uplinks = remove uuid r.active_uplinks }) id
        (elim h [ inl w ↦ inl w | inr a ↦ inr (remove-Active id uuid r.active_uplinks s a) ])
  handle_event-Held r (limit opener m) id s h =
      promote_pending-Held opener (record r { max_concurrent = m }) id h
  handle_event-Held r link_failed id s h = h
  handle_event-Held r (restored opener outcome alive session) id s h =
      drain_pending-Held opener (restore_active outcome alive (record r { session = some session }))
        session id refl
        (elim h [
          | inl w ↦ inl w
          | inr a ↦ inr (
              retain-Active id alive _ s.1 (
                retain-Active id (λ k. not (is_exited (outcome k))) r.active_uplinks (rw s.0 refl)
                  a))
        ])
