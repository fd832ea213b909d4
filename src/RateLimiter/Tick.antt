-- ===== src/RateLimiter/Tick.antt =====
-- What a tick of the aggregate timer hands out and keeps (quelay-agent/src/rate_limiter.rs).
use quelay.Common.{
  ℕ, ◌+◌, ◌-◌, ◌*◌, min, ◌≤◌, ◌≡◌, refl, ap, ◌∙◌, List, [], ◌∷◌, Perm, ◌==◌, u64_max, inl, inr,
  Bool-cases, Option-cases, arith,
}
use quelay.Common.Table.{lookup}
use quelay.Scheduler.{DrrScheduler, set_backlog, schedule}
use quelay.Scheduler.Loops.{Result-cases}
use quelay.Scheduler.Budget.{total, total-append, schedule-le-budget}
use quelay.Scheduler.Queues.{IsValid, set_backlog-IsValid, deregister-IsValid}
use quelay.Scheduler.Rotation.{schedule-IsValid}
use quelay.Scheduler.Totality.{schedule_total}
use quelay.RateLimiter.{
  offer_ticket, TrySend, sent, full, closed, Timer, Delivery, snapshot, set_backlogs, deliver_one,
  deliver, clean_up, accumulated, settled, tick,
}

deliver_one-total :
    (o : TrySend) (id bytes : ℕ) (d : Delivery)
    → total (deliver_one o id bytes d).tickets ≤ total d.tickets + bytes
unfolding deliver_one total
deliver_one-total sent id bytes d = omega (arith, total-append d.tickets ((id, bytes) ∷ []))
deliver_one-total full id bytes d = omega arith
deliver_one-total closed id bytes d = omega arith

offer_ticket-total :
    (try_send : ℕ → TrySend) (snap : List (ℕ × ℕ)) (id bytes : ℕ) (d : Delivery)
    → total (offer_ticket try_send snap id bytes d).tickets ≤ total d.tickets + bytes
unfolding offer_ticket total
offer_ticket-total try_send snap id bytes d = elim (Bool-cases (bytes == 0)) [
  | inl z ↦ rw (offer_ticket, z) (omega arith)
  | inr n ↦ elim (Option-cases (lookup id snap)) [
    | inl o ↦ rw (offer_ticket, n, o) (omega arith)
    | inr (b, o) ↦ rw (offer_ticket, n, o) (deliver_one-total (try_send id) id bytes d)
  ]
]

deliver-total :
    (try_send : ℕ → TrySend) (snap allocs : List (ℕ × ℕ)) (d : Delivery)
    → total (deliver try_send snap allocs d).tickets ≤ total d.tickets + total allocs
unfolding deliver total
deliver-total try_send snap [] d = omega arith
deliver-total try_send snap ((id, bytes) ∷ rest) d =
    let l = deliver-total try_send snap rest (offer_ticket try_send snap id bytes d) in
    omega (arith, offer_ticket-total try_send snap id bytes d)

-- Where `iter` permutes the entries of a map: the tickets of a tick add up to at most the budget that
-- has accumulated, which is at most two intervals' worth.
pub tick_tickets :
    (iter : List (ℕ × ℕ) → List (ℕ × ℕ)) (try_send : ℕ → TrySend) (wire_now per_tick : ℕ)
    (t : Timer)
    → ((m : List (ℕ × ℕ)) → Perm (iter m) m)
    → (total (tick iter try_send wire_now per_tick t).1 ≤ accumulated per_tick t.available_budget)
      × (accumulated per_tick t.available_budget ≤ per_tick * 2)
unfolding tick accumulated total
tick_tickets iter try_send wire_now per_tick t perm = (
  elim (Result-cases (schedule iter sched available).1) [
    | inr (x, e) ↦ rw (tick, e) (omega arith)
    | inl (allocs, e) ↦
        rw (tick, e)
          (omega (
            arith,
            deliver-total try_send (snapshot t.streams) allocs
                (record { delivered = 0; tickets = []; closed_streams = [] }),
            schedule-le-budget iter sched available allocs perm e,
          ))
  ],
  omega arith,
)
  where
    available : ℕ
    available = min (min (t.available_budget + per_tick) u64_max) (per_tick * 2)

    sched : DrrScheduler
    sched = set_backlogs (snapshot t.streams) t.scheduler

pub set_backlogs-IsValid :
    (snap : List (ℕ × ℕ)) (s : DrrScheduler) → IsValid s → IsValid (set_backlogs snap s)
unfolding set_backlogs
set_backlogs-IsValid [] s v = v
set_backlogs-IsValid ((id, b) ∷ rest) s v =
    set_backlogs-IsValid rest (set_backlog s id b) (set_backlog-IsValid s id b v)

clean_up-IsValid :
    (ids : List ℕ) (t : Timer) → IsValid t.scheduler → IsValid (clean_up ids t).scheduler
unfolding clean_up
clean_up-IsValid [] t v = v
clean_up-IsValid (id ∷ ids) t v = clean_up-IsValid ids _ (deregister-IsValid t.scheduler id v)

-- What a tick leaves of the scheduler and the table: phase 5 on what `schedule` left.
pub tick_state :
    (iter : List (ℕ × ℕ) → List (ℕ × ℕ)) (try_send : ℕ → TrySend) (wire_now per_tick : ℕ)
    (t : Timer)
    → (ids : List ℕ) × (t' : Timer) × ((tick iter try_send wire_now per_tick t).0 ≡ clean_up ids t')
      × (t'.streams ≡ t.streams)
      × (t'.scheduler
          ≡ (schedule iter
              (set_backlogs (snapshot t.streams) t.scheduler)
              (accumulated per_tick t.available_budget)).0)
unfolding tick clean_up
tick_state iter try_send wire_now per_tick t =
    elim (Result-cases (schedule iter sched available).1) [
      | inr (x, e) ↦ ([], stopped, rw (tick, e) refl, refl, refl)
      | inl (allocs, e) ↦
          ((sent_of allocs).closed_streams, left allocs, rw (tick, e) refl, refl, refl)
    ]
  where
    available : ℕ
    available = accumulated per_tick t.available_budget

    sched : DrrScheduler
    sched = set_backlogs (snapshot t.streams) t.scheduler

    sent_of : List (ℕ × ℕ) → Delivery
    sent_of allocs =
        deliver try_send (snapshot t.streams) allocs
          (record { delivered = 0; tickets = []; closed_streams = [] })

    stopped : Timer
    stopped = record t {
      scheduler = (schedule iter sched available).0;
      available_budget = available;
    }

    left : List (ℕ × ℕ) → Timer
    left allocs = record t {
      scheduler = (schedule iter sched available).0;
      available_budget = settled available (wire_now - t.wire_baseline) (sent_of allocs).delivered;
      wire_baseline = wire_now;
    }

-- A tick keeps the invariant of the scheduler's queues, whatever the pumps answer.
pub tick-IsValid :
    (iter : List (ℕ × ℕ) → List (ℕ × ℕ)) (try_send : ℕ → TrySend) (wire_now per_tick : ℕ)
    (t : Timer)
    → IsValid t.scheduler
    → IsValid (tick iter try_send wire_now per_tick t).0.scheduler
tick-IsValid iter try_send wire_now per_tick t v =
    let (ids, t', e, _, s) = tick_state iter try_send wire_now per_tick t in
    rw e (
      clean_up-IsValid ids t' (
        rw s (schedule-IsValid iter _ _ (set_backlogs-IsValid (snapshot t.streams) t.scheduler v))))

offer_ticket-full :
    (try_send : ℕ → TrySend) (snap : List (ℕ × ℕ)) (id bytes : ℕ) (d : Delivery)
    → ((id : ℕ) → try_send id ≡ full)
    → offer_ticket try_send snap id bytes d ≡ d
unfolding deliver_one offer_ticket
offer_ticket-full try_send snap id bytes d f = elim (Bool-cases (bytes == 0)) [
  | inl z ↦ rw (offer_ticket, z) refl
  | inr n ↦ elim (Option-cases (lookup id snap)) [
    | inl o ↦ rw (offer_ticket, n, o) refl
    | inr (b, o) ↦ rw (offer_ticket, n, o, f id) refl
  ]
]

deliver-full :
    (try_send : ℕ → TrySend) (snap allocs : List (ℕ × ℕ)) (d : Delivery)
    → ((id : ℕ) → try_send id ≡ full)
    → deliver try_send snap allocs d ≡ d
unfolding deliver
deliver-full try_send snap [] d f = refl
deliver-full try_send snap ((id, bytes) ∷ rest) d f =
    ap (deliver try_send snap rest) (offer_ticket-full try_send snap id bytes d f)
    ∙ deliver-full try_send snap rest d f

-- A tick of a valid scheduler in which no pump takes a ticket and nothing is sent on the wire carries
-- over twice the budget that has accumulated, where that fits u64.
tick_idle :
    (iter : List (ℕ × ℕ) → List (ℕ × ℕ)) (try_send : ℕ → TrySend) (per_tick : ℕ) (t : Timer)
    → IsValid t.scheduler
    → ((id : ℕ) → try_send id ≡ full)
    → accumulated per_tick t.available_budget * 2 ≤ u64_max
    → (tick iter try_send t.wire_baseline per_tick t).0.available_budget
      ≡ accumulated per_tick t.available_budget * 2
unfolding tick settled clean_up
tick_idle iter try_send per_tick t v f small =
    let sched = set_backlogs (snapshot t.streams) t.scheduler in
    let (allocs, e) =
      schedule_total iter sched (accumulated per_tick t.available_budget)
        (set_backlogs-IsValid (snapshot t.streams) t.scheduler v) in
    rw
      (
        tick,
        e,
        deliver-full try_send (snapshot t.streams) allocs
            (record { delivered = 0; tickets = []; closed_streams = [] }) f,
      )
      (omega arith)
