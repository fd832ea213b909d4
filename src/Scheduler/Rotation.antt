-- ===== src/Scheduler/Rotation.antt =====
-- What `schedule` keeps of the queues (quelay-domain/src/scheduler.rs).
use quelay.Common.{
  ℕ, ◌≡◌, refl, ◌∙◌, sym, ap, List, [], ◌∷◌, some, arith, ◌==◌, ◌||◌, ◌-◌, ◌⊎◌, length, Bool-cases,
  inl, inr,
}
use quelay.Common.Table.{lookup}
use quelay.Scheduler.{
  StreamEntry, DrrScheduler, Round, turn, front_turn, bulk_rounds, schedule, serve_strict,
  topped_up, turn_send,
}
use quelay.Scheduler.Loops.{front_turn_cases, bulk_rounds_inv, Result-cases}
use quelay.Scheduler.Room.{bulk_order-turn}
use quelay.Scheduler.Order.{count, count_last}
use quelay.Scheduler.Queues.{IsValid, SamePriorities, IsValid-same, priority_of-insert}

-- What a turn keeps of the order's members and of the priorities.
pub record Rotated (s : DrrScheduler) (r : Round) : Type 0 where
  pub members : (j : ℕ) → count j r.bulk_order ≡ count j s.bulk_order
  pub priorities : SamePriorities r.streams s.streams

turn-Rotated :
    (s : DrrScheduler) (id : ℕ) (ids : List ℕ) (e : StreamEntry) (r : Round)
    → r.bulk_order ≡ id ∷ ids
    → lookup id r.streams ≡ some e
    → Rotated s r
    → Rotated s (turn id e r).0
unfolding turn count
turn-Rotated s id ids e r o l h = record {
  members = λ j.
      ap (count j) (bulk_order-turn id ids e r o)
      ∙ count_last j id ids
      ∙ sym (ap (count j) o)
      ∙ h.members j;
  priorities = λ j. ground (
    arith,
    l,
    h.priorities j,
    priority_of-insert id j (record e { deficit = 0 }) r.streams,
    priority_of-insert id j (record e { deficit = topped_up e - turn_send r.budget e }) r.streams,
  );
}

pub front_turn-Rotated : (s : DrrScheduler) (r : Round) → Rotated s r → Rotated s (front_turn r).0
front_turn-Rotated s r h =
    front_turn_cases (λ out. Rotated s out.0) r (λ _. h) (λ _ _ _ _. h)
      (λ id ids e o l. turn-Rotated s id ids e r o l h)

pub bulk_rounds-Rotated : (s : DrrScheduler) (left : ℕ) → Rotated s (bulk_rounds s left).0
bulk_rounds-Rotated s left =
    bulk_rounds_inv (Rotated s) (λ r _. front_turn-Rotated s r) s left
      (record { members = λ _. refl; priorities = λ _. refl })

Rotated-IsValid :
    (s : DrrScheduler) (r : Round)
    → Rotated s r
    → IsValid s
    → IsValid (record s { streams = r.streams; bulk_order = r.bulk_order })
Rotated-IsValid s r h v =
    let w = IsValid-same s r.streams h.priorities v in
    record { bulk = λ j. h.members j ∙ w.bulk j; strict = w.strict; sorted = w.sorted }

-- The state that `schedule` leaves, also where it fails.
pub schedule_state :
    (iter : List (ℕ × ℕ) → List (ℕ × ℕ)) (s : DrrScheduler) (budget : ℕ)
    → let s' = (schedule iter s budget).0 in
      (s' ≡ s)
      ⊎ ((left : ℕ) × (s' ≡ record s {
        streams = (bulk_rounds s left).0.streams;
        bulk_order = (bulk_rounds s left).0.bulk_order;
      }))
unfolding schedule
schedule_state iter s budget = elim (Result-cases (serve_strict s.streams s.c2i_queue budget [])) [
  | inr (x, e) ↦ rw (e, schedule) (inl refl)
  | inl ((out, left), e) ↦ elim (Bool-cases ((length s.bulk_order == 0) || (left == 0))) [
    | inl t ↦ rw (e, t, schedule) (inl refl)
    | inr t ↦ elim (Result-cases (bulk_rounds s left).1) [
      | inl (_, f) ↦ rw (e, t, f, schedule) (inr (left, refl))
      | inr (x, f) ↦ rw (e, t, f, schedule) (inr (left, refl))
    ]
  ]
]

-- `schedule` keeps the invariant, whatever it returns.
pub schedule-IsValid :
    (iter : List (ℕ × ℕ) → List (ℕ × ℕ)) (s : DrrScheduler) (budget : ℕ)
    → IsValid s
    → IsValid (schedule iter s budget).0
schedule-IsValid iter s budget v = elim (schedule_state iter s budget) [
  | inl e ↦ rw e v
  | inr (left, e) ↦ rw e (Rotated-IsValid s (bulk_rounds s left).0 (bulk_rounds-Rotated s left) v)
]
