-- ===== src/Scheduler/Budget.antt =====
-- `schedule` against its byte budget (quelay-domain/src/scheduler.rs).
use mathlib.Core.Option
use mathlib.Core.Logic.{∥∥₁_elim}
use mathlib.Core.List.{Permᴰ}
use native.Mathlib.Nat.{ℕ_set}
use quelay.Common.{
  ℕ, ◌+◌, ◌-◌, ◌≤◌, ◌≡◌, refl, ◌∙◌, ap, inl, inr, List, [], ◌∷◌, ◌++◌, Perm, arith, ltb,
  if◌then◌else◌, Option-cases,
}
use quelay.Common.Table.{lookup, insert}
use quelay.Domain.Error.{ok}
use quelay.Scheduler.Loops.{
  front_turn_cases, bulk_rounds_inv, schedule-Scheduled, strict_only, with_bulk,
}
use quelay.Scheduler.{
  StreamEntry, Streams, DrrScheduler, Round, serve_strict, add_alloc, turn, turn_send, front_turn,
  strict_send, bulk_rounds, schedule,
}

-- The bytes that a list of allocations grants.
unfoldable pub total : List (ℕ × ℕ) → ℕ
total [] = 0
total ((id, n) ∷ xs) = n + total xs

pub total-append : (xs ys : List (ℕ × ℕ)) → total (xs ++ ys) ≡ total xs + total ys
unfolding total
total-append [] ys = omega arith
total-append ((id, n) ∷ xs) ys = omega (arith, total-append xs ys)

total-Permᴰ : {xs ys : List (ℕ × ℕ)} → Permᴰ xs ys → total xs ≡ total ys
unfolding total
total-Permᴰ Permᴰ.nil = refl
total-Permᴰ (Permᴰ.cons e p) = rw (e, total-Permᴰ p)
total-Permᴰ (Permᴰ.swap e f) = omega (arith, ap (λ (x : ℕ × ℕ). x.1) e, ap (λ (x : ℕ × ℕ). x.1) f)
total-Permᴰ (Permᴰ.trans p q) = total-Permᴰ p ∙ total-Permᴰ q

pub total-perm : {xs ys : List (ℕ × ℕ)} → Perm xs ys → total xs ≡ total ys
total-perm p = ∥∥₁_elim p (ℕ_set _ _) total-Permᴰ

total-insert :
    (id n : ℕ) (m : List (ℕ × ℕ))
    → total (insert id n m) + Option.get_or (lookup id m) 0 ≡ total m + n
unfolding total insert lookup
total-insert id n [] = omega arith
total-insert id n ((j, k) ∷ m) = ground (arith, total-insert id n m)

total-add_alloc : (id n : ℕ) (m : List (ℕ × ℕ)) → total (add_alloc id n m) ≡ total m + n
unfolding add_alloc
total-add_alloc id n m = omega (arith, total-insert id (Option.get_or (lookup id m) 0 + n) m)

pub serve_strict-total :
    (t : Streams) (ids : List ℕ) (budget : ℕ) (out out' : List (ℕ × ℕ)) (left : ℕ)
    → serve_strict t ids budget out ≡ ok (out', left)
    → total out' + left ≡ total out + budget
unfolding serve_strict total
serve_strict-total t [] budget out out' left h = ground arith
serve_strict-total t (id ∷ ids) budget out out' left h = elim (Option-cases (lookup id t)) [
  | inl n ↦ ground arith
  | inr (e, s) ↦ ground (
    arith,
    serve_strict-total t ids (budget - strict_send budget e)
        (if ltb 0 (strict_send budget e) then out ++ (id, strict_send budget e) ∷ [] else out) out'
        left,
    total-append out ((id, strict_send budget e) ∷ []),
  )
]

abbrev spent : Round → ℕ
spent r = total r.bulk_allocs + r.budget

turn-spent : (id : ℕ) (e : StreamEntry) (r : Round) → spent (turn id e r).0 ≡ spent r
unfolding turn
turn-spent id e r = ground (arith, total-add_alloc id (turn_send r.budget e) r.bulk_allocs)

front_turn-spent : (r : Round) → spent (front_turn r).0 ≡ spent r
unfolding front_turn
front_turn-spent r =
    front_turn_cases (λ out. spent out.0 ≡ spent r) r (λ _. refl) (λ id ids _ _. refl)
      (λ id ids e _ _. turn-spent id e r)

-- What the bulk streams get, and what is left, is the budget they started with.
pub bulk_rounds-spent : (s : DrrScheduler) (left : ℕ) → spent (bulk_rounds s left).0 ≡ left
unfolding total
bulk_rounds-spent s left =
    bulk_rounds_inv (λ r. spent r ≡ left) (λ r _ h. front_turn-spent r ∙ h) s left (omega arith)

-- Where `iter` permutes the entries of a map: whatever `schedule` returns, its allocations add up
-- to at most the budget of the tick.
pub schedule-le-budget :
    (iter : List (ℕ × ℕ) → List (ℕ × ℕ)) (s : DrrScheduler) (budget : ℕ) (r : List (ℕ × ℕ))
    → ((m : List (ℕ × ℕ)) → Perm (iter m) m)
    → (schedule iter s budget).1 ≡ ok r
    → total r ≤ budget
unfolding total
schedule-le-budget iter s budget r perm h = elim (schedule-Scheduled iter s budget r h) [
  | strict_only left e _ ↦
      omega (arith, serve_strict-total s.streams s.c2i_queue budget [] r left e)
  | with_bulk out left e _ _ _ q ↦ omega (
    arith,
    serve_strict-total s.streams s.c2i_queue budget [] out left e,
    ap total q,
    total-append out (iter (bulk_rounds s left).0.bulk_allocs),
    total-perm (perm (bulk_rounds s left).0.bulk_allocs),
    bulk_rounds-spent s left,
  )
]
