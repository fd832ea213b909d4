-- ===== src/SessionManager/Slots.antt =====
-- What each operation on `RemoteState` keeps of its bounds (quelay-agent/src/session_manager.rs): the
-- order and the length of the queue, and the number of active streams.
use quelay.Common.{
  ℕ, suc, ◌≤◌, ◌≡◌, refl, max, Bool, true, false, not, ◌||◌, Option, none, some, List, [], ◌∷◌,
  length, ltb, ◌==◌, retain, inl, inr, Bool-cases, Option-cases, arith, All, length-retain_le,
}
use quelay.Common.Table.{insert, remove, length-insert_le, length-remove_le}
use quelay.Domain.Priority.{GePriority}
use quelay.SessionManager.{
  PendingStream, RemoteState, Reopened, is_exited, enqueue, has_active_slot, pending_queue_full,
  queue_or_refuse, try_open, on_stream_start, promote_front, promote_pending, drain_loop,
  drain_pending, stream_finished, restore_active, start, finished, handle_event,
}
use quelay.SessionManager.Queue.{Sorted, enqueue_lem, length-enqueue}
use quelay.SessionManager.Promotion.{kept, pending-drain_pending}

slot_of : (empty slot : Bool) → (empty || not slot) ≡ false → slot ≡ true
slot_of empty true e = refl
slot_of true false e = absurd (ground (arith, e))
slot_of false false e = absurd (ground (arith, e))

module _ {Session Info Handle : Type 0} where
  -- The active streams are within the limit, or within the number `c` of those that were active.
  abbrev pub WithinLimit : ℕ → RemoteState Session Info Handle → Type 0
  WithinLimit c r = (n : ℕ) → r.max_concurrent ≡ some n → length r.active_uplinks ≤ max n c

  pub record Bounded (c : ℕ) (r : RemoteState Session Info Handle) : Type 0 where
    pub sorted : Sorted r.pending
    pub queue : length r.pending ≤ r.max_pending
    pub within : WithinLimit c r

  -- A stream that takes a free slot.
  insert-WithinLimit :
      (c : ℕ) (r : RemoteState Session Info Handle) (id : ℕ) (h : Handle)
      → has_active_slot r ≡ true
      → WithinLimit c (record r { active_uplinks = insert id h r.active_uplinks })
  unfolding has_active_slot
  insert-WithinLimit c r id h e n m =
      let free : ltb (length r.active_uplinks) n ≡ true = rw m at e in
      ground (arith, free, length-insert_le id h r.active_uplinks)

  enqueue-Bounded :
      {c : ℕ} (r : RemoteState Session Info Handle) (p : PendingStream Info)
      → Bounded c r
      → pending_queue_full r ≡ false
      → Bounded c (enqueue r p).0
  unfolding enqueue pending_queue_full
  enqueue-Bounded r p b n = record {
    sorted = (enqueue_lem r p b.sorted).0;
    queue = ground (arith, n, length-enqueue r p);
    within = b.within;
  }

  module _ (opener : Session → PendingStream Info → Option Handle) where
    try_open_slot :
        (r : RemoteState Session Info Handle) (p : PendingStream Info) (h : Handle)
        → try_open opener r p ≡ some h
        → has_active_slot r ≡ true
    unfolding try_open
    try_open_slot r p h e = elim (Bool-cases (has_active_slot r)) [
      | inl y ↦ y
      | inr n ↦ let e' : none ≡ some h = rw (try_open, n) at e in absurd (ground (arith, e'))
    ]

    queue_or_refuse-Bounded :
        {c : ℕ} (r : RemoteState Session Info Handle) (p : PendingStream Info)
        → Bounded c r
        → Bounded c (queue_or_refuse r p).0
    unfolding queue_or_refuse
    queue_or_refuse-Bounded r p b = elim (Bool-cases (pending_queue_full r)) [
      | inl y ↦ rw (queue_or_refuse, y) b
      | inr n ↦ rw (queue_or_refuse, n) (enqueue-Bounded r p b n)
    ]

    pub start-Bounded :
        {c : ℕ} (r : RemoteState Session Info Handle) (p : PendingStream Info)
        → Bounded c r
        → Bounded c (handle_event r (start opener p))
    unfolding handle_event on_stream_start
    start-Bounded {c = c} r p b = elim (Option-cases (try_open opener r p)) [
      | inl n ↦ rw (handle_event, on_stream_start, n) (queue_or_refuse-Bounded r p b)
      | inr (h, e) ↦
          rw (handle_event, on_stream_start, e)
            (record {
              sorted = b.sorted;
              queue = b.queue;
              within = insert-WithinLimit c r p.uuid h (try_open_slot r p h e);
            })
    ]

    promote_front-Bounded :
        {c : ℕ} (r : RemoteState Session Info Handle)
        → Bounded c r
        → has_active_slot r ≡ true
        → Bounded c (promote_front opener r)
    unfolding promote_front
    promote_front-Bounded {c = c} r b e = front r.session r.pending b e
      where
        front :
            (o : Option Session) (ps : List (PendingStream Info))
            → Bounded c (record r { session = o; pending = ps })
            → has_active_slot r ≡ true
            → Bounded c (promote_front opener (record r { session = o; pending = ps }))
        front o [] b e = b
        front none (p ∷ rest) b e = b
        front (some session) (p ∷ rest) b e = elim (Option-cases (opener session p)) [
          | inl n ↦ rw (promote_front, n) b
          | inr (h, y) ↦
              rw (promote_front, y)
                (record {
                  sorted = b.sorted.1;
                  queue = let q = b.queue in omega arith;
                  within = insert-WithinLimit c r p.uuid h e;
                })
        ]

    pub promote_pending-Bounded :
        {c : ℕ} (r : RemoteState Session Info Handle)
        → Bounded c r
        → Bounded c (promote_pending opener r)
    unfolding promote_pending
    promote_pending-Bounded r b =
        elim (Bool-cases ((length r.pending == 0) || not (has_active_slot r))) [
          | inl c ↦ rw (promote_pending, c) b
          | inr c ↦
              rw (promote_pending, c)
                (promote_front-Bounded r b (slot_of (length r.pending == 0) (has_active_slot r) c))
        ]

    drain_loop-WithinLimit :
        (c : ℕ) (session : Session) (i : ℕ) (ps : List (PendingStream Info))
        (r : RemoteState Session Info Handle)
        → WithinLimit c r
        → WithinLimit c (drain_loop opener session i ps r).0
          × ((drain_loop opener session i ps r).0.max_pending ≡ r.max_pending)
    unfolding drain_loop
    drain_loop-WithinLimit c session i [] r l = (l, refl)
    drain_loop-WithinLimit c session i (p ∷ rest) r l = elim (Bool-cases (has_active_slot r)) [
      | inr e ↦ rw (drain_loop, e) (l, refl)
      | inl e ↦ elim (Option-cases (opener session p)) [
        | inl n ↦ rw (drain_loop, e, n) (drain_loop-WithinLimit c session (suc i) rest r l)
        | inr (h, y) ↦
            rw (drain_loop, e, y)
              (drain_loop-WithinLimit c session (suc i) rest
                (record r { active_uplinks = insert p.uuid h r.active_uplinks })
                (insert-WithinLimit c r p.uuid h e))
      ]
    ]

    All-kept :
        (P : PendingStream Info → Type 0) (session : Session) (ps : List (PendingStream Info))
        (r : RemoteState Session Info Handle)
        → All P ps
        → All P (kept opener session ps r)
    unfolding kept
    All-kept P session [] r h = tt
    All-kept P session (p ∷ rest) r h = elim (Bool-cases (has_active_slot r)) [
      | inr e ↦ rw (kept, e) h
      | inl e ↦ elim (Option-cases (opener session p)) [
        | inl n ↦ rw (kept, e, n) (h.0, All-kept P session rest r h.1)
        | inr (x, y) ↦
            rw (kept, e, y)
              (All-kept P session rest
                (record r { active_uplinks = insert p.uuid x r.active_uplinks }) h.1)
      ]
    ]

    kept-Sorted :
        (session : Session) (ps : List (PendingStream Info)) (r : RemoteState Session Info Handle)
        → Sorted ps
        → Sorted (kept opener session ps r) × (length (kept opener session ps r) ≤ length ps)
    unfolding kept
    kept-Sorted session [] r h = (tt, omega arith)
    kept-Sorted session (p ∷ rest) r h = elim (Bool-cases (has_active_slot r)) [
      | inr e ↦ rw (kept, e) (h, omega arith)
      | inl e ↦ elim (Option-cases (opener session p)) [
        | inl n ↦
            let (s, l) = kept-Sorted session rest r h.1 in
            rw (kept, e, n)
              (
                (All-kept (λ q. GePriority p.priority q.priority) session rest r h.0, s),
                omega arith,
              )
        | inr (x, y) ↦
            let (s, l) =
              kept-Sorted session rest
                (record r { active_uplinks = insert p.uuid x r.active_uplinks }) h.1 in
            rw (kept, e, y) (s, omega arith)
      ]
    ]

    pub drain_pending-Bounded :
        {c : ℕ} (r : RemoteState Session Info Handle) (session : Session)
        → Bounded c r
        → r.session ≡ some session
        → Bounded c (drain_pending opener r)
    unfolding drain_pending
    drain_pending-Bounded {c = c} r session b e =
        let left = pending-drain_pending opener session r e in
        let (s, l) = kept-Sorted session r.pending r b.sorted in
        let (bound, cap) = drained r.session e in
        let q = b.queue in
        record { sorted = rw left s; queue = rw (left, cap) (omega arith); within = bound }
      where
        drained :
            (o : Option Session)
            → o ≡ some session
            → WithinLimit c (drain_pending opener (record r { session = o }))
              × ((drain_pending opener (record r { session = o })).max_pending ≡ r.max_pending)
        drained none e = absurd (ground (arith, e))
        drained (some session') e =
            drain_loop-WithinLimit c session' 0 r.pending (record r { session = some session' })
              b.within

    pub restore_active-Bounded :
        {c : ℕ} (outcome : ℕ → Reopened) (alive : ℕ → Bool) (session : Session)
        (r : RemoteState Session Info Handle)
        → Bounded c r
        → Bounded c (restore_active outcome alive (record r { session = some session }))
    unfolding restore_active
    restore_active-Bounded outcome alive session r b = record {
      sorted = b.sorted;
      queue = b.queue;
      within = λ n m.
          let l = b.within n m in
          omega (
            arith,
            length-retain_le (λ (id, h). alive id)
                (retain (λ (id, h). not (is_exited (outcome id))) r.active_uplinks),
            length-retain_le (λ (id, h). not (is_exited (outcome id))) r.active_uplinks,
          );
    }

  pub restored_session :
      (outcome : ℕ → Reopened) (alive : ℕ → Bool) (session : Session)
      (r : RemoteState Session Info Handle)
      → (restore_active outcome alive (record r { session = some session })).session ≡ some session
  unfolding restore_active
  restored_session outcome alive session r = refl

  pub finished-Bounded :
      {c : ℕ} (opener : Session → PendingStream Info → Option Handle) (uuid : ℕ)
      (r : RemoteState Session Info Handle)
      → Bounded c r
      → Bounded c (handle_event r (finished opener uuid))
  unfolding handle_event stream_finished
  finished-Bounded opener uuid r b =
      promote_pending-Bounded opener (record r { active_uplinks = remove uuid r.active_uplinks })
        (record {
          sorted = b.sorted;
          queue = b.queue;
          within =
              λ n m. let l = b.within n m in omega (arith, length-remove_le uuid r.active_uplinks);
        })
