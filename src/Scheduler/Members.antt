-- ===== src/Scheduler/Members.antt =====
-- Which streams the scheduler of quelay-domain/src/scheduler.rs knows, and at which priority.
use quelay.Common.{
  ℕ, ◌+◌, ◌≤◌, ◌++◌, Option, insert_at-position, ◌≡◌, refl, ◌∙◌, ap, List, [], ◌∷◌, none, some,
  arith, ◌==◌, if◌then◌else◌, Bool-cases, Option-cases, inl, inr,
}
use quelay.Common.Table.{lookup, insert}
use quelay.Domain.Priority.{Priority, is_strict}
use quelay.Scheduler.{
  lower, DrrScheduler, rebalance, fresh_entry, register, deregister, set_backlog, schedule,
}
use quelay.Scheduler.Order.{count, count_last, count-insert_before}
use quelay.Scheduler.Queues.{
  bulk_places, strict_places, IsValid, priority_of, SamePriorities, priority_of-update_entry,
  priority_of-set_quantum_each, priority_of-insert, priority_of-remove,
}
use quelay.Scheduler.Rotation.{bulk_rounds-Rotated, schedule_state}

priority_of-rebalance : (s : DrrScheduler) → SamePriorities (rebalance s).streams s.streams
unfolding rebalance
priority_of-rebalance s j = go s.bulk_order refl
  where
    go :
        (ids : List ℕ)
        → s.bulk_order ≡ ids
        → priority_of (rebalance s).streams j ≡ priority_of s.streams j
    go [] e = rw (e, rebalance) refl
    go (id ∷ ids) e = rw (e, rebalance) (priority_of-set_quantum_each (id ∷ ids) s.streams j)

pub priority_of-register :
    (s : DrrScheduler) (id : ℕ) (p : Priority) (j : ℕ)
    → priority_of (register s id p).streams j
      ≡ (if id == j then some p else priority_of s.streams j)
unfolding register
priority_of-register s id p j = elim (Bool-cases (is_strict p)) [
  | inl strict ↦ rw (register, strict) (priority_of-insert id j (fresh_entry p) s.streams)
  | inr bulk ↦
      rw (register, bulk)
        (priority_of-rebalance _ j ∙ priority_of-insert id j (fresh_entry p) s.streams)
]

pub priority_of-deregister :
    (s : DrrScheduler) (id j : ℕ)
    → priority_of (deregister s id).streams j ≡ (if id == j then none else priority_of s.streams j)
unfolding deregister
priority_of-deregister s id j = elim (Option-cases (lookup id s.streams)) [
  | inl n ↦ rw (deregister, n) (ground (arith, n))
  | inr (e, f) ↦ elim (Bool-cases (is_strict e.priority)) [
    | inl strict ↦ rw (deregister, f, strict) (priority_of-remove id j s.streams)
    | inr bulk ↦
        rw (deregister, f, bulk) (priority_of-rebalance _ j ∙ priority_of-remove id j s.streams)
  ]
]

pub priority_of-set_backlog :
    (s : DrrScheduler) (id b : ℕ) → SamePriorities (set_backlog s id b).streams s.streams
unfolding set_backlog
priority_of-set_backlog s id b = priority_of-update_entry id _ s.streams (λ _. refl)

pub priority_of-schedule :
    (iter : List (ℕ × ℕ) → List (ℕ × ℕ)) (s : DrrScheduler) (budget : ℕ)
    → SamePriorities (schedule iter s budget).0.streams s.streams
priority_of-schedule iter s budget j = elim (schedule_state iter s budget) [
  | inl e ↦ rw e refl
  | inr (left, e) ↦ rw e ((bulk_rounds-Rotated s left).priorities j)
]

-- How often a stream stands in the queues together.
abbrev places : ℕ → DrrScheduler → ℕ
places id s = count id s.bulk_order + count id s.c2i_queue

pub places_le_one : (s : DrrScheduler) (id : ℕ) → IsValid s → places id s ≤ 1
places_le_one s id v = go (priority_of s.streams id) (v.bulk id) (v.strict id)
  where
    go :
        (o : Option Priority)
        → count id s.bulk_order ≡ bulk_places o
        → count id s.c2i_queue ≡ strict_places o
        → places id s ≤ 1
    go none b c = omega arith
    go (some p) b c = ground arith

places-rebalance : (s : DrrScheduler) (id : ℕ) → places id (rebalance s) ≡ places id s
unfolding rebalance
places-rebalance s id = go s.bulk_order refl
  where
    go : (ids : List ℕ) → s.bulk_order ≡ ids → places id (rebalance s) ≡ places id s
    go [] e = rw (e, rebalance) (ap (λ q. count id q + count id s.c2i_queue) e)
    go (i ∷ ids) e = rw (e, rebalance) (ap (λ q. count id q + count id s.c2i_queue) e)

-- Each registration adds one place, also that of a stream that is registered.
pub places-register :
    (s : DrrScheduler) (id : ℕ) (p : Priority) → places id (register s id p) ≡ places id s + 1
unfolding register
places-register s id p = elim (Bool-cases (is_strict p)) [
  | inl strict ↦
      let t = insert id (fresh_entry p) s.streams in
      rw (register, strict, insert_at-position (lower t p) id s.c2i_queue)
        (let c = count-insert_before (lower t p) id id s.c2i_queue in ground arith)
  | inr bulk ↦
      rw (register, bulk)
        (places-rebalance
            (record s {
              streams = insert id (fresh_entry p) s.streams;
              bulk_order = s.bulk_order ++ id ∷ [];
            })
            id
          ∙ ground (arith, count_last id id s.bulk_order))
]
