-- ===== src/Scheduler/Restore.antt =====
-- A stream that comes and goes leaves the queues as they were (quelay-domain/src/scheduler.rs).
use mathlib.Core.Option
use quelay.Common.{
  ℕ, ◌≡◌, refl, sym, subst, ◌∙◌, ap, Bool, true, not, none, some, List, [], ◌∷◌, ◌++◌, arith, ◌==◌,
  if◌then◌else◌, retain, insert_before, insert_at-position, ==_iff, Bool-cases, Option-cases, inl,
  inr,
}
use quelay.Common.Table.{lookup, insert}
use quelay.Domain.Priority.{Priority, is_strict}
use quelay.Scheduler.{lower, DrrScheduler, rebalance, fresh_entry, register, deregister}
use quelay.Scheduler.Order.{count}
use quelay.Scheduler.Queues.{IsValid, priority_of, SamePriorities, bulk_places, strict_places}
use quelay.Scheduler.Members.{priority_of-register, priority_of-deregister}

retain_absent : (id : ℕ) (xs : List ℕ) → count id xs ≡ 0 → retain (λ x. not (x == id)) xs ≡ xs
unfolding count retain
retain_absent id [] h = refl
retain_absent id (x ∷ xs) h = elim (Bool-cases (x == id)) [
  | inl same ↦ absurd (ground arith)
  | inr other ↦ rw other (ap (◌∷◌ x) (retain_absent id xs (ground arith)))
]

retain_last :
    (id : ℕ) (xs : List ℕ) → count id xs ≡ 0 → retain (λ x. not (x == id)) (xs ++ id ∷ []) ≡ xs
unfolding count retain
retain_last id [] h = let same : (id == id) ≡ true = ground arith in rw same refl
retain_last id (x ∷ xs) h = elim (Bool-cases (x == id)) [
  | inl same ↦ absurd (ground arith)
  | inr other ↦ rw other (ap (◌∷◌ x) (retain_last id xs (ground arith)))
]

retain-insert_before :
    (q : ℕ → Bool) (id : ℕ) (xs : List ℕ)
    → count id xs ≡ 0
    → retain (λ x. not (x == id)) (insert_before q id xs) ≡ xs
unfolding count retain insert_before
retain-insert_before q id [] h = let same : (id == id) ≡ true = ground arith in rw same refl
retain-insert_before q id (x ∷ xs) h = elim (Bool-cases (q x)) [
  | inl here ↦
      let same : (id == id) ≡ true = ground arith in rw (here, same) (retain_absent id (x ∷ xs) h)
  | inr further ↦ elim (Bool-cases (x == id)) [
    | inl same ↦ absurd (ground arith)
    | inr other ↦ rw (further, other) (ap (◌∷◌ x) (retain-insert_before q id xs (ground arith)))
  ]
]

-- The two queues.
abbrev queues : DrrScheduler → List ℕ × List ℕ
queues s = (s.bulk_order, s.c2i_queue)

queues-rebalance : (s : DrrScheduler) → queues (rebalance s) ≡ queues s
unfolding rebalance
queues-rebalance s = go s.bulk_order refl
  where
    go : (ids : List ℕ) → s.bulk_order ≡ ids → queues (rebalance s) ≡ queues s
    go [] e = rw (e, rebalance) (ap (λ b. (b, s.c2i_queue)) e)
    go (i ∷ ids) e = rw (e, rebalance) (ap (λ b. (b, s.c2i_queue)) e)

queues-register :
    (s : DrrScheduler) (id : ℕ) (p : Priority)
    → queues (register s id p) ≡ (
        if is_strict p
        then (
          s.bulk_order,
          insert_before (lower (insert id (fresh_entry p) s.streams) p) id s.c2i_queue,
        )
        else (s.bulk_order ++ id ∷ [], s.c2i_queue))
unfolding register
queues-register s id p = elim (Bool-cases (is_strict p)) [
  | inl strict ↦
      rw
        (
          register,
          strict,
          insert_at-position (lower (insert id (fresh_entry p) s.streams) p) id s.c2i_queue,
        )
        refl
  | inr bulk ↦ rw (register, bulk) (queues-rebalance _)
]

queues-deregister :
    (s : DrrScheduler) (id : ℕ) (p : Priority)
    → priority_of s.streams id ≡ some p
    → queues (deregister s id) ≡ (
        if is_strict p
        then (s.bulk_order, retain (λ x. not (x == id)) s.c2i_queue)
        else (retain (λ x. not (x == id)) s.bulk_order, s.c2i_queue))
unfolding deregister
queues-deregister s id p h = elim (Option-cases (lookup id s.streams)) [
  | inl n ↦
      absurd (let none_some : none ≡ some p = sym (ap (Option.map (λ e. e.priority)) n) ∙ h in cc)
  | inr (e, f) ↦
      let same : e.priority ≡ p =
        Option.some-injective _ _ (sym (ap (Option.map (λ e. e.priority)) f) ∙ h) in
      elim (Bool-cases (is_strict p)) [
        | inl strict ↦ rw (deregister, f, same, strict) refl
        | inr bulk ↦ rw (deregister, f, same, bulk) (queues-rebalance _)
      ]
]

restored :
    (s : DrrScheduler) (id : ℕ) (p : Priority)
    → count id s.bulk_order ≡ 0
    → count id s.c2i_queue ≡ 0
    → priority_of (register s id p).streams id ≡ some p
    → queues (deregister (register s id p) id) ≡ queues s
restored s id p no_bulk no_strict known =
    let leaves = queues-deregister (register s id p) id p known in
    let comes = queues-register s id p in
    elim (Bool-cases (is_strict p)) [
      | inl strict ↦
          rw strict at leaves
          ∙ ap (λ q. (q.0, retain (λ x. not (x == id)) q.1)) (rw strict at comes)
          ∙ ap (λ q. (s.bulk_order, q)) (retain-insert_before _ id s.c2i_queue no_strict)
      | inr bulk ↦
          rw bulk at leaves
          ∙ ap (λ q. (retain (λ x. not (x == id)) q.0, q.1)) (rw bulk at comes)
          ∙ ap (λ q. (q, s.c2i_queue)) (retain_last id s.bulk_order no_bulk)
    ]

-- A stream that is registered under a new id, at any priority, and then deregistered, leaves the two
-- queues in their order and each stream at its priority.
pub deregister-register :
    (s : DrrScheduler) (id : ℕ) (p : Priority)
    → IsValid s
    → lookup id s.streams ≡ none
    → let s' = deregister (register s id p) id in
      (s'.bulk_order ≡ s.bulk_order)
      × (s'.c2i_queue ≡ s.c2i_queue)
      × SamePriorities s'.streams s.streams
deregister-register s id p v fresh =
    let unknown : priority_of s.streams id ≡ none = ap (Option.map (λ e. e.priority)) fresh in
    let self : (id == id) ≡ true = ground arith in
    let known : priority_of (register s id p).streams id ≡ some p =
      priority_of-register s id p id ∙ rw self refl in
    let same =
      restored s id p (v.bulk id ∙ ap bulk_places unknown) (v.strict id ∙ ap strict_places unknown)
        known in
    (
      ap (λ q. q.0) same,
      ap (λ q. q.1) same,
      λ j. elim (Bool-cases (id == j)) [
        | inl it ↦
            priority_of-deregister (register s id p) id j
            ∙ rw it (sym (subst (λ k. priority_of s.streams k ≡ none) ((==_iff id j).0 it) unknown))
        | inr other ↦
            priority_of-deregister (register s id p) id j
            ∙ rw other (priority_of-register s id p j ∙ rw other refl)
      ],
    )
