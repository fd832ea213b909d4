-- ===== src/Scheduler/Totality.antt =====
-- `schedule` (quelay-domain/src/scheduler.rs) finds every stream that its queues name.
use quelay.Common.{
  ℕ, ◌-◌, ◌<◌, ◌≡◌, ◌≢◌, refl, ◌||◌, List, [], ◌∷◌, ◌++◌, none, arith, ◌==◌, length, Bool-cases,
  Option-cases, inl, inr,
}
use quelay.Common.Table.{lookup}
use quelay.Domain.Error.{QueLayError, ok, err}
use quelay.Scheduler.{
  Streams, DrrScheduler, Round, serve_strict, strict_send, front_turn, fair_round, extra_fuel,
  bulk_start, bulk_rounds, schedule,
}
use quelay.Scheduler.Loops.{front_turn_cases, fair_round_inv, fair_round_ok, extra_rounds_ok}
use quelay.Scheduler.Order.{count}
use quelay.Scheduler.Queues.{IsValid}
use quelay.Scheduler.Rotation.{Rotated, front_turn-Rotated}

serve_strict_total :
    (t : Streams) (ids : List ℕ) (budget : ℕ) (out : List (ℕ × ℕ))
    → ((j : ℕ) → 0 < count j ids → lookup j t ≢ none)
    → (p : List (ℕ × ℕ) × ℕ) × (serve_strict t ids budget out ≡ ok p)
unfolding serve_strict count
serve_strict_total t [] budget out h = ((out, budget), refl)
serve_strict_total t (id ∷ ids) budget out h = elim (Bool-cases (budget == 0)) [
  | inl z ↦ ((out, budget), rw (z, serve_strict))
  | inr z ↦ elim (Option-cases (lookup id t)) [
    | inl n ↦ absurd (h id (ground arith) n)
    | inr (e, s) ↦
        rw (z, s, serve_strict)
          (serve_strict_total t ids (budget - strict_send budget e) _ (λ j c. h j (omega arith)))
  ]
]

module _ (s : DrrScheduler) (v : IsValid s) where
  strict_found : (j : ℕ) → 0 < count j s.c2i_queue → lookup j s.streams ≢ none
  strict_found j c n = ground (arith, v.strict j)

  bulk_found :
      (r : Round) (id : ℕ) (ids : List ℕ)
      → Rotated s r
      → r.bulk_order ≡ id ∷ ids
      → lookup id r.streams ≢ none
  unfolding count
  bulk_found r id ids h o n = ground (arith, h.members id, h.priorities id, v.bulk id)

  front_turn_safe :
      (r : Round) (x : QueLayError) → 0 < r.budget → Rotated s r → (front_turn r).1 ≢ err x
  front_turn_safe r x b h =
      front_turn_cases (λ out. out.1 ≢ err x) r (λ _ q. cc)
        (λ id ids o n. absurd (bulk_found r id ids h o n)) (λ _ _ _ _ _ q. cc)

  bulk_rounds_total : (left : ℕ) → (bulk_rounds s left).1 ≡ ok tt
  unfolding bulk_rounds
  bulk_rounds_total left =
      let n = length s.bulk_order in
      let keep = λ (r : Round) (b : 0 < r.budget) (h : Rotated s r). front_turn-Rotated s r h in
      let start : Rotated s (bulk_start s left) = record {
        members = λ _. refl;
        priorities = λ _. refl;
      } in
      let r = (fair_round n (bulk_start s left)).0 in
      rw (fair_round_ok (Rotated s) keep front_turn_safe n _ start, bulk_rounds)
        (extra_rounds_ok (Rotated s) keep front_turn_safe (extra_fuel n r.budget) n 0 r
          (fair_round_inv (Rotated s) keep n _ start))

-- Where the invariant holds, `schedule` returns allocations, at every budget: no queue names a
-- stream that the table lacks.
pub schedule_total :
    (iter : List (ℕ × ℕ) → List (ℕ × ℕ)) (s : DrrScheduler) (budget : ℕ)
    → IsValid s
    → (r : List (ℕ × ℕ)) × ((schedule iter s budget).1 ≡ ok r)
unfolding schedule
schedule_total iter s budget v =
    let ((out, left), e) = serve_strict_total s.streams s.c2i_queue budget [] (strict_found s v) in
    elim (Bool-cases ((length s.bulk_order == 0) || (left == 0))) [
      | inl t ↦ (out, rw (e, t, schedule))
      | inr t ↦ (
        out ++ iter (bulk_rounds s left).0.bulk_allocs,
        rw (e, t, bulk_rounds_total s v left, schedule),
      )
    ]
