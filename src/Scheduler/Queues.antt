-- ===== src/Scheduler/Queues.antt =====
-- The invariant of the scheduler's table and its two queues (quelay-domain/src/scheduler.rs).
use mathlib.Core.Option
use quelay.Common.{
  ℕ, ◌+◌, ◌≡◌, refl, ◌∙◌, sym, ap, subst, false, List, [], ◌∷◌, ◌++◌, Option, none, some, arith,
  ◌==◌, if◌then◌else◌, insert_at-position, insert_before, Bool-cases, Option-cases, inl, inr,
}
use quelay.Common.Int.{ℤ, ltb_ℤ}
use quelay.Common.Table.{lookup, insert, remove, lookup-insert, lookup-remove}
use quelay.Domain.Priority.{Priority, is_strict, bulk_priority_min}
use quelay.Scheduler.{
  StreamEntry, Streams, DrrScheduler, new, update_entry, set_quantum_each, rebalance, lower,
  fresh_entry, register, deregister, set_quantum, set_backlog,
}
use quelay.Scheduler.Order.{
  count, count_last, count-insert_before, count-retain, Descending, insert_before-Descending,
  retain-Descending, Descending-cong,
}

abbrev pub priority_of : Streams → ℕ → Option Priority
priority_of t id = Option.map (λ e. e.priority) (lookup id t)

-- How often a stream of this priority stands in the bulk queue, and in the strict queue.
abbrev pub bulk_places : Option Priority → ℕ
bulk_places none = 0
bulk_places (some p) = if is_strict p then 0 else 1

abbrev pub strict_places : Option Priority → ℕ
strict_places none = 0
strict_places (some p) = if is_strict p then 1 else 0

-- The key by which `register` sorts the strict queue.
abbrev key_of : Streams → ℕ → ℤ
key_of t id = (Option.get_or (priority_of t id) bulk_priority_min).value

-- Every registered stream stands once in the queue of its kind and not in the other, no other id
-- stands in either, and the strict queue is in descending order of priority.
pub record IsValid (s : DrrScheduler) : Type 0 where
  pub bulk : (id : ℕ) → count id s.bulk_order ≡ bulk_places (priority_of s.streams id)
  pub strict : (id : ℕ) → count id s.c2i_queue ≡ strict_places (priority_of s.streams id)
  pub sorted : Descending (key_of s.streams) s.c2i_queue

pub new-IsValid : IsValid new
unfolding new count lookup
new-IsValid = record { bulk = λ _. refl; strict = λ _. refl; sorted = tt }

-- The operations that touch quanta, deficits and backlogs alone keep all priorities.
abbrev pub SamePriorities : Streams → Streams → Type 0
SamePriorities t u = (id : ℕ) → priority_of t id ≡ priority_of u id

pub IsValid-same :
    (s : DrrScheduler) (t : Streams)
    → SamePriorities t s.streams
    → IsValid s
    → IsValid (record s { streams = t })
IsValid-same s t e v = record {
  bulk = λ id. v.bulk id ∙ ap bulk_places (sym (e id));
  strict = λ id. v.strict id ∙ ap strict_places (sym (e id));
  sorted =
      Descending-cong (key_of s.streams) (key_of t) s.c2i_queue
        (λ j _. ap (λ o. (Option.get_or o bulk_priority_min).value) (sym (e j))) v.sorted;
}

pub priority_of-update_entry :
    (id : ℕ) (f : StreamEntry → StreamEntry) (t : Streams)
    → ((e : StreamEntry) → (f e).priority ≡ e.priority)
    → SamePriorities (update_entry id f t) t
unfolding update_entry
priority_of-update_entry id f t same j = elim (Option-cases (lookup id t)) [
  | inl n ↦ rw (n, update_entry)
  | inr (e, s) ↦ ground (arith, s, same e, lookup-insert id j (f e) t)
]

pub priority_of-set_quantum_each :
    (ids : List ℕ) (t : Streams) → SamePriorities (set_quantum_each ids t) t
unfolding set_quantum_each
priority_of-set_quantum_each [] t j = refl
priority_of-set_quantum_each (id ∷ ids) t j =
    priority_of-set_quantum_each ids _ j ∙ priority_of-update_entry id _ t (λ _. refl) j

rebalance-IsValid : (s : DrrScheduler) → IsValid s → IsValid (rebalance s)
unfolding rebalance
rebalance-IsValid s v = go s.bulk_order refl
  where
    go : (ids : List ℕ) → s.bulk_order ≡ ids → IsValid (rebalance s)
    go [] e = rw (e, rebalance) v
    go (id ∷ ids) e =
        rw (e, rebalance) (IsValid-same s _ (priority_of-set_quantum_each (id ∷ ids) s.streams) v)

pub priority_of-insert :
    (id j : ℕ) (e : StreamEntry) (t : Streams)
    → priority_of (insert id e t) j ≡ (if id == j then some e.priority else priority_of t j)
priority_of-insert id j e t = ground (arith, lookup-insert id j e t)

pub priority_of-remove :
    (id j : ℕ) (t : Streams)
    → priority_of (remove id t) j ≡ (if id == j then none else priority_of t j)
priority_of-remove id j t = ground (arith, lookup-remove id j t)

-- Where the ids of a queue keep their keys, its order stays.
sorted_elsewhere :
    (t u : Streams) (id : ℕ) (q : List ℕ)
    → count id q ≡ 0
    → ((j : ℕ) → (id == j) ≡ false → priority_of u j ≡ priority_of t j)
    → Descending (key_of t) q
    → Descending (key_of u) q
sorted_elsewhere t u id q absent same =
    Descending-cong (key_of t) (key_of u) q
      λ j k. ap (λ o. (Option.get_or o bulk_priority_min).value) (sym (same j (ground arith)))

module _ (s : DrrScheduler) (id : ℕ) (p : Priority) (v : IsValid s) where
  added : Streams
  added = insert id (fresh_entry p) s.streams

  -- The queues of `register`, before `rebalance`.
  added-IsValid :
      (bulk strict : List ℕ)
      → lookup id s.streams ≡ none
      → ((j : ℕ)
          → count j bulk
            ≡ (if is_strict p then 0 else (if id == j then 1 else 0)) + count j s.bulk_order)
      → ((j : ℕ)
          → count j strict
            ≡ (if is_strict p then (if id == j then 1 else 0) else 0) + count j s.c2i_queue)
      → Descending (key_of added) strict
      → IsValid (record { streams = added; bulk_order = bulk; c2i_queue = strict })
  unfolding added
  added-IsValid bulk strict new eb es d = record {
    bulk = λ j. ground (arith, eb j, v.bulk j, priority_of-insert id j (fresh_entry p) s.streams);
    strict =
        λ j. ground (arith, es j, v.strict j, priority_of-insert id j (fresh_entry p) s.streams);
    sorted = d;
  }

  key_kept : lookup id s.streams ≡ none → Descending (key_of added) s.c2i_queue
  unfolding added
  key_kept new =
      sorted_elsewhere s.streams added id s.c2i_queue (ground (arith, v.strict id))
        (λ j e. ground (arith, priority_of-insert id j (fresh_entry p) s.streams)) v.sorted

  key_own : key_of added id ≡ p.value
  unfolding added
  key_own = ground (arith, priority_of-insert id id (fresh_entry p) s.streams)

-- Registering an id that is not in the table keeps the invariant.
pub register-IsValid :
    (s : DrrScheduler) (id : ℕ) (p : Priority)
    → lookup id s.streams ≡ none
    → IsValid s
    → IsValid (register s id p)
unfolding register added
register-IsValid s id p new v = elim (Bool-cases (is_strict p)) [
  | inl strict ↦
      rw (strict, register, insert_at-position (lower (added s id p v) p) id s.c2i_queue)
        (added-IsValid s id p v s.bulk_order _ new (λ j. rw strict (omega arith))
          (λ j. rw strict (count-insert_before (lower (added s id p v) p) j id s.c2i_queue))
          (subst
            (λ k.
              Descending (key_of (added s id p v))
                (insert_before (λ y. ltb_ℤ (key_of (added s id p v) y) k) id s.c2i_queue))
            (key_own s id p v)
            (insert_before-Descending (key_of (added s id p v)) id s.c2i_queue
              (key_kept s id p v new))))
  | inr bulk ↦
      rw (bulk, register)
        (rebalance-IsValid _ (
          added-IsValid s id p v (s.bulk_order ++ id ∷ []) s.c2i_queue new
            (λ j. rw bulk (count_last j id s.bulk_order)) (λ j. rw bulk (omega arith))
            (key_kept s id p v new)))
]

-- So does deregistering any id.
pub deregister-IsValid : (s : DrrScheduler) (id : ℕ) → IsValid s → IsValid (deregister s id)
unfolding deregister
deregister-IsValid s id v = elim (Option-cases (lookup id s.streams)) [
  | inl n ↦ rw (n, deregister) v
  | inr (e, f) ↦ elim (Bool-cases (is_strict e.priority)) [
    | inl strict ↦
        rw (f, strict, deregister)
          (record {
            bulk = λ j. ground (arith, f, v.bulk j, priority_of-remove id j s.streams);
            strict = λ j. ground (
              arith,
              f,
              v.strict j,
              priority_of-remove id j s.streams,
              count-retain j id s.c2i_queue,
            );
            sorted =
                sorted_elsewhere s.streams (remove id s.streams) id _
                  (ground (arith, count-retain id id s.c2i_queue))
                  (λ j q. ground (arith, priority_of-remove id j s.streams))
                  (retain-Descending (key_of s.streams) _ s.c2i_queue v.sorted);
          })
    | inr bulk ↦
        rw (f, bulk, deregister)
          (rebalance-IsValid _ (record {
            bulk = λ j. ground (
              arith,
              f,
              v.bulk j,
              priority_of-remove id j s.streams,
              count-retain j id s.bulk_order,
            );
            strict = λ j. ground (arith, f, v.strict j, priority_of-remove id j s.streams);
            sorted =
                sorted_elsewhere s.streams (remove id s.streams) id s.c2i_queue
                  (ground (arith, f, v.strict id))
                  (λ j q. ground (arith, priority_of-remove id j s.streams)) v.sorted;
          }))
  ]
]

-- The two setters write one field of one entry.
set_quantum-IsValid : (s : DrrScheduler) (id q : ℕ) → IsValid s → IsValid (set_quantum s id q)
unfolding set_quantum
set_quantum-IsValid s id q v =
    IsValid-same s _ (priority_of-update_entry id _ s.streams (λ _. refl)) v

pub set_backlog-IsValid : (s : DrrScheduler) (id b : ℕ) → IsValid s → IsValid (set_backlog s id b)
unfolding set_backlog
set_backlog-IsValid s id b v =
    IsValid-same s _ (priority_of-update_entry id _ s.streams (λ _. refl)) v
