-- ===== src/Scheduler/Tests.antt =====
-- The scheduler of quelay-domain/src/scheduler.rs on concrete streams: its unit tests, and inputs at
-- which the theorems of the other modules apply.
use quelay.Common.{
  ℕ, ◌-◌, ◌≡◌, ◌≤◌, refl, List, [], ◌∷◌, ◌++◌, Perm, All, arith, position, insert_at,
}
use mathlib.Core.List
use quelay.Common.{none}
use quelay.Scheduler.{deregister}
use quelay.Scheduler.Queues.{SamePriorities}
use quelay.Scheduler.Restore.{deregister-register}
use quelay.Common.Int.{pos}
use quelay.Common.Table.{lookup, insert}
use quelay.Domain.Error.{ok}
use quelay.Domain.Priority.{Priority, initial_quantum}
use quelay.Scheduler.{
  DrrScheduler, new, register, set_backlog, schedule, rebalance, update_entry, set_quantum_each,
  serve_strict, bulk_rounds, fair_round, extra_rounds, front_turn, turn, add_alloc,
}
use quelay.Scheduler.Budget.{total, schedule-le-budget}
use quelay.Scheduler.Queues.{IsValid, new-IsValid, register-IsValid, set_backlog-IsValid}
use quelay.Scheduler.Strict.{strict_demand, cut, schedule_strict_first}
use quelay.Scheduler.Room.{Roomy, IsIdle}
use quelay.Scheduler.Drain.{schedule_work_conserving}
use quelay.Scheduler.Totality.{schedule_total}

abbrev prio : ℕ → Priority
prio n = record { value = pos n }

abbrev two : DrrScheduler
two = register (register new 1 (prio 70)) 2 (prio 0)

-- One strict stream and two bulk streams, with backlogs.
abbrev demo : DrrScheduler
demo = set_backlog (set_backlog (set_backlog (register two 3 (prio 5)) 1 3000) 2 10000) 3 5000

-- What `schedule` grants of 12000 bytes: the strict stream first, then a quantum each, then the rest.
abbrev given : List (ℕ × ℕ)
given = (1, 3000) ∷ (2, 4904) ∷ (3, 4096) ∷ []

demo_run : (schedule (λ m. m) demo 12000).1 ≡ ok given
unfolding new register set_backlog rebalance set_quantum_each update_entry initial_quantum lookup
    insert schedule serve_strict bulk_rounds fair_round extra_rounds front_turn turn add_alloc
    position insert_at
demo_run = refl

two-IsValid : IsValid two
unfolding register new lookup insert position insert_at
two-IsValid =
    register-IsValid (register new 1 (prio 70)) 2 (prio 0) refl
      (register-IsValid new 1 (prio 70) refl new-IsValid)

three-IsValid : IsValid (register two 3 (prio 5))
unfolding register new lookup insert position insert_at rebalance set_quantum_each update_entry
three-IsValid = register-IsValid two 3 (prio 5) refl two-IsValid

demo-IsValid : IsValid demo
demo-IsValid =
    set_backlog-IsValid _ 3 5000
      (set_backlog-IsValid _ 2 10000 (set_backlog-IsValid _ 1 3000 three-IsValid))

same_order : (m : List (ℕ × ℕ)) → Perm m m
same_order m = ∣ List.Permᴰ.refl m ∣₁

schedule_total_example : (r : List (ℕ × ℕ)) × ((schedule (λ m. m) demo 12000).1 ≡ ok r)
schedule_total_example = schedule_total (λ m. m) demo 12000 demo-IsValid

schedule-le-budget_example : total given ≤ 12000
schedule-le-budget_example = schedule-le-budget (λ m. m) demo 12000 given same_order demo_run

schedule_strict_first_example :
    (bulk : List (ℕ × ℕ)) × (given ≡ cut 12000 (strict_demand demo.streams demo.c2i_queue) ++ bulk)
    × (total bulk ≤ 12000 - total (strict_demand demo.streams demo.c2i_queue))
schedule_strict_first_example = schedule_strict_first (λ m. m) demo 12000 given same_order demo_run

-- The budget is spent whole.
demo-Roomy : All (Roomy 12000 demo.streams) demo.bulk_order
unfolding new register set_backlog rebalance set_quantum_each update_entry initial_quantum lookup
    insert schedule serve_strict bulk_rounds fair_round extra_rounds front_turn turn add_alloc
    position insert_at
demo-Roomy = ((omega arith, omega arith), ((omega arith, omega arith), tt))

demo_busy : ¬ All (IsIdle demo.streams) demo.bulk_order
unfolding new register set_backlog rebalance set_quantum_each update_entry initial_quantum lookup
    insert schedule serve_strict bulk_rounds fair_round extra_rounds front_turn turn add_alloc
    position insert_at
demo_busy h = ground (arith, h)

schedule_work_conserving_example : total given ≡ 12000
schedule_work_conserving_example =
    schedule_work_conserving (λ m. m) demo 12000 given same_order demo-Roomy demo_busy demo_run

four_is_new : lookup 4 demo.streams ≡ none
unfolding new register set_backlog rebalance set_quantum_each update_entry initial_quantum lookup
    insert position insert_at
four_is_new = refl

deregister-register_example :
    let s' = deregister (register demo 4 (prio 70)) 4 in
    (s'.bulk_order ≡ demo.bulk_order)
    × (s'.c2i_queue ≡ demo.c2i_queue)
    × SamePriorities s'.streams demo.streams
deregister-register_example = deregister-register demo 4 (prio 70) demo-IsValid four_is_new
