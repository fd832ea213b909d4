-- ===== src/Scheduler/Drain.antt =====
-- What phase 2 of `schedule` leaves (quelay-domain/src/scheduler.rs): the budget is used up unless
-- no bulk stream has a backlog.
use quelay.Common.{
  ℕ, suc, ◌+◌, ◌-◌, ◌≤◌, ◌<◌, ◌≡◌, refl, ◌∙◌, sym, ap, ◌⊎◌, inl, inr, false, List, [], ◌∷◌, ◌++◌,
  Perm, arith, length, drop, some, All, All-append, All-append_left, All-append_right,
  length-append, drop-append_le, drop_all, All-mono, ◌≢◌,
}
use quelay.Common.Table.{lookup}
use quelay.Domain.Error.{QueLayError, ok, err}
use quelay.Scheduler.{
  StreamEntry, DrrScheduler, Round, turn, front_turn, fair_round, extra_fuel, bulk_start,
  bulk_rounds, schedule,
}
use quelay.Scheduler.Loops.{
  front_turn_cases, fair_round_inv, extra_rounds_inv, extra_rounds_ends, fair_round_ok,
  extra_rounds_ok, schedule-Scheduled, strict_only, with_bulk,
}
use quelay.Scheduler.Budget.{total, total-append, total-perm, serve_strict-total, bulk_rounds-spent}
use quelay.Scheduler.Room.{
  HasRoom, Roomy, backlog_of, IsIdle, HasRoom-mono, turn-Roomy, turn-backlog_of, turn_idle,
  bulk_order-turn,
}

-- What the loops keep: room, backlogs, the length of the order and its members, and no backlog in
-- the streams that have just been idle, which stand at the end of the order.
record Draining (s : DrrScheduler) (idle : ℕ) (r : Round) : Type 0 where
  roomy : All (Roomy r.budget r.streams) r.bulk_order
  same : (j : ℕ) → backlog_of r.streams j ≡ backlog_of s.streams j
  len : length r.bulk_order ≡ length s.bulk_order
  idle_ones : All (IsIdle s.streams) (drop (length s.bulk_order - idle) r.bulk_order)
  back : All (IsIdle s.streams) r.bulk_order → All (IsIdle s.streams) s.bulk_order

All-rotate : (P : ℕ → Type 0) (id : ℕ) (ids : List ℕ) → All P (ids ++ id ∷ []) → All P (id ∷ ids)
All-rotate P id ids h = ((All-append_right P ids (id ∷ []) h).0, All-append_left P ids (id ∷ []) h)

All-rotated : (P : ℕ → Type 0) (id : ℕ) (ids : List ℕ) → All P (id ∷ ids) → All P (ids ++ id ∷ [])
All-rotated P id ids h = All-append P ids (id ∷ []) h.1 (h.0, tt)

module _ (s : DrrScheduler) where
  -- The parts that a turn keeps, whether it sends or not.
  turn-Draining :
      (idle idle' id : ℕ) (ids : List ℕ) (e : StreamEntry) (r : Round)
      → r.bulk_order ≡ id ∷ ids
      → lookup id r.streams ≡ some e
      → Draining s idle r
      → All (IsIdle s.streams) (drop (length s.bulk_order - idle') (ids ++ id ∷ []))
      → Draining s idle' (turn id e r).0
  turn-Draining idle idle' id ids e r o l d a =
      let rooms : All (Roomy r.budget r.streams) (id ∷ ids) = rw o at d.roomy in
      let own : HasRoom r.budget (some e) = rw l at rooms.0 in
      record {
        roomy =
            rw (bulk_order-turn id ids e r o)
              (All-rotated _ id ids (All-mono _ _ (λ j. turn-Roomy id j e r own) (id ∷ ids) rooms));
        same = λ j. turn-backlog_of id j e r l ∙ d.same j;
        len = omega (
          arith,
          ap length (bulk_order-turn id ids e r o),
          length-append ids (id ∷ []),
          ap length o,
          d.len,
        );
        idle_ones = rw (bulk_order-turn id ids e r o) a;
        back = λ h. d.back (rw o (All-rotate _ id ids (rw (bulk_order-turn id ids e r o) at h)));
      }

  none_left :
      (xs : List ℕ)
      → length xs ≡ length s.bulk_order
      → All (IsIdle s.streams) (drop (length s.bulk_order - 0) xs)
  none_left xs e = rw (drop_all (length s.bulk_order - 0) xs (omega arith)) tt

  one_more :
      (idle id : ℕ) (ids : List ℕ)
      → length (id ∷ ids) ≡ length s.bulk_order
      → idle < length s.bulk_order
      → All (IsIdle s.streams) (drop (length s.bulk_order - idle) (id ∷ ids))
      → IsIdle s.streams id
      → All (IsIdle s.streams) (drop (length s.bulk_order - (idle + 1)) (ids ++ id ∷ []))
  one_more idle id ids e lt h own =
      let n = length s.bulk_order in
      let shift : n - idle ≡ suc (n - (idle + 1)) = omega arith in
      rw (drop-append_le (n - (idle + 1)) ids (id ∷ []) (omega arith))
        (All-append _ (drop (n - (idle + 1)) ids) (id ∷ []) (rw shift at h) (own, tt))

  none_idle : (idle : ℕ) (r : Round) → Draining s idle r → Draining s 0 r
  none_idle idle r d = record {
    roomy = d.roomy;
    same = d.same;
    len = d.len;
    idle_ones = none_left r.bulk_order d.len;
    back = d.back;
  }

  quiet :
      (idle id : ℕ) (ids : List ℕ) (e : StreamEntry) (r : Round)
      → 0 < r.budget
      → r.bulk_order ≡ id ∷ ids
      → lookup id r.streams ≡ some e
      → Draining s idle r
      → (turn id e r).1 ≡ false
      → IsIdle s.streams id
  quiet idle id ids e r b o l d q =
      let rooms : All (Roomy r.budget r.streams) (id ∷ ids) = rw o at d.roomy in
      let own : HasRoom r.budget (some e) = rw l at rooms.0 in
      sym (d.same id) ∙ rw (l, turn_idle id e r b own q)

  front_turn-Draining :
      (idle : ℕ) (r : Round)
      → 0 < r.budget
      → Draining s idle r
      → (Draining s 0 (front_turn r).0)
        × ((front_turn r).1 ≡ ok false
            → idle < length s.bulk_order
            → Draining s (idle + 1) (front_turn r).0)
        × ((x : QueLayError) → (front_turn r).1 ≢ err x)
  front_turn-Draining idle r b d =
      front_turn_cases
        (λ out.
          (Draining s 0 out.0)
          × (out.1 ≡ ok false → idle < length s.bulk_order → Draining s (idle + 1) out.0)
          × ((x : QueLayError) → out.1 ≢ err x))
        r (λ o. (none_idle idle r d, (λ q. cc), (λ x q. cc)))
        (λ id ids o n.
          let h : All (Roomy r.budget r.streams) (id ∷ ids) = rw o at d.roomy in
          absurd (let x : ⊥ = rw n at h.0 in x))
        (λ id ids e o l. (
          turn-Draining idle 0 id ids e r o l d (
              none_left (ids ++ id ∷ [])
                (omega (arith, length-append ids (id ∷ []), ap length o, d.len))),
          (λ q lt. turn-Draining idle (idle + 1) id ids e r o l d (
              one_more idle id ids (omega (arith, ap length o, d.len)) lt (rw o at d.idle_ones)
                (quiet idle id ids e r b o l d (cc)))),
          (λ x q. cc),
        ))

  finish :
      (idle : ℕ) (r : Round)
      → Draining s idle r
      → (r.budget ≡ 0) ⊎ (length s.bulk_order ≤ idle)
      → (r.budget ≡ 0) ⊎ All (IsIdle s.streams) s.bulk_order
  finish idle r d (inl e) = inl e
  finish idle r d (inr h) =
      let e : length s.bulk_order - idle ≡ 0 = omega arith in inr (d.back (rw e at d.idle_ones))

  bulk_rounds-Draining :
      (left : ℕ)
      → All (Roomy left s.streams) s.bulk_order
      → 0 < length s.bulk_order
      → ((bulk_rounds s left).1 ≡ ok tt)
        × (((bulk_rounds s left).0.budget ≡ 0) ⊎ All (IsIdle s.streams) s.bulk_order)
  unfolding bulk_rounds
  bulk_rounds-Draining left h l =
      let n = length s.bulk_order in
      let keep =
        λ (r : Round) (b : 0 < r.budget) (d : Draining s 0 r). (front_turn-Draining 0 r b d).0 in
      let safe = λ (r : Round) (x : QueLayError) (b : 0 < r.budget) (d : Draining s 0 r).
        (front_turn-Draining 0 r b d).2 x in
      let r0 = bulk_start s left in
      let d0 : Draining s 0 r0 = record {
        roomy = h;
        same = λ _. refl;
        len = refl;
        idle_ones = none_left s.bulk_order refl;
        back = λ a. a;
      } in
      let r1 = (fair_round n r0).0 in
      let d1 = fair_round_inv (Draining s 0) keep n r0 d0 in
      let fuel = extra_fuel n r1.budget in
      let done = extra_rounds_ok (Draining s 0) keep safe fuel n 0 r1 d1 in
      let d2 =
        extra_rounds_inv (Draining s) n (λ i r b d _. (front_turn-Draining i r b d).0)
          (λ i r b lt d q. (front_turn-Draining i r b d).1 q lt)
          (λ i r x b d q. absurd ((front_turn-Draining i r b d).2 x q)) fuel 0 r1 d1 in
      let ends =
        extra_rounds_ends fuel n 0 r1 (omega (arith, d1.len)) (omega arith) (omega arith) done in
      rw (fair_round_ok (Draining s 0) keep safe n r0 d0, bulk_rounds) (done, finish _ _ d2 ends)

All-empty : (P : ℕ → Type 0) (xs : List ℕ) → length xs ≡ 0 → All P xs
All-empty P [] e = tt
All-empty P (x ∷ xs) e = absurd (omega arith)

-- Where `iter` permutes the entries of a map, every bulk stream has a positive quantum and room in
-- its deficit for this budget, and some bulk stream has a backlog: what `schedule` returns adds up to
-- the whole budget, however small the backlogs are.
pub schedule_work_conserving :
    (iter : List (ℕ × ℕ) → List (ℕ × ℕ)) (s : DrrScheduler) (budget : ℕ) (r : List (ℕ × ℕ))
    → ((m : List (ℕ × ℕ)) → Perm (iter m) m)
    → All (Roomy budget s.streams) s.bulk_order
    → ¬ All (IsIdle s.streams) s.bulk_order
    → (schedule iter s budget).1 ≡ ok r
    → total r ≡ budget
unfolding total
schedule_work_conserving iter s budget r perm rooms busy h =
    elim (schedule-Scheduled iter s budget r h) [
      | strict_only left e (inl z) ↦ absurd (busy (All-empty _ s.bulk_order z))
      | strict_only left e (inr z) ↦
          omega (arith, z, serve_strict-total s.streams s.c2i_queue budget [] r left e)
      | with_bulk out left e l p done q ↦
          let spent = serve_strict-total s.streams s.c2i_queue budget [] out left e in
          let le : left ≤ budget = omega (arith, spent) in
          let rooms' =
            All-mono _ (Roomy left s.streams)
              (λ j. HasRoom-mono budget left (lookup j s.streams) le) s.bulk_order rooms in
          let rest = iter (bulk_rounds s left).0.bulk_allocs in
          elim (bulk_rounds-Draining s left rooms' l).1 [
            | inr idle ↦ absurd (busy idle)
            | inl none_over ↦ omega (
              arith,
              spent,
              none_over,
              ap total q,
              total-append out rest,
              total-perm (perm (bulk_rounds s left).0.bulk_allocs),
              bulk_rounds-spent s left,
            )
          ]
    ]
