-- ===== src/Scheduler/Strict.antt =====
-- The strict-priority part of `schedule` (quelay-domain/src/scheduler.rs) against a greedy
-- allocation.
use quelay.Common.{
  ℕ, ◌-◌, ◌≤◌, min, ◌≡◌, refl, ◌∙◌, sym, ap, inl, inr, List, [], ◌∷◌, ◌++◌, Perm, arith, ltb, ◌==◌,
  if◌then◌else◌, Option-cases, none, some, append-nil, append_assoc,
}
use quelay.Common.Table.{lookup}
use quelay.Domain.Error.{ok}
use quelay.Scheduler.{Streams, DrrScheduler, serve_strict, strict_send, bulk_rounds, schedule}
use quelay.Scheduler.Loops.{schedule-Scheduled, strict_only, with_bulk}
use quelay.Scheduler.Budget.{total, total-perm, bulk_rounds-spent}

-- What the strict streams ask for in one tick, their backlog but at most their quantum, in the order of
-- their queue.
pub strict_demand : Streams → List ℕ → List (ℕ × ℕ)
strict_demand t [] = []
strict_demand t (id ∷ ids) = elim (lookup id t) [
  | none ↦ strict_demand t ids
  | some e ↦
      let want = min e.backlog e.quantum in
      if ltb 0 want then (id, want) ∷ strict_demand t ids else strict_demand t ids
]

-- Requests granted in order until a budget runs out.
pub cut : ℕ → List (ℕ × ℕ) → List (ℕ × ℕ)
cut budget [] = []
cut budget ((id, n) ∷ xs) = if budget == 0 then [] else (id, min budget n) ∷ cut (budget - n) xs

cut_zero : (xs : List (ℕ × ℕ)) → cut 0 xs ≡ []
unfolding cut
cut_zero [] = refl
cut_zero ((id, n) ∷ xs) = refl

serve_strict_zero :
    (t : Streams) (ids : List ℕ) (out : List (ℕ × ℕ)) → serve_strict t ids 0 out ≡ ok (out, 0)
unfolding serve_strict
serve_strict_zero t [] out = refl
serve_strict_zero t (id ∷ ids) out = refl

serve_strict-cut :
    (t : Streams) (ids : List ℕ) (budget : ℕ) (out out' : List (ℕ × ℕ)) (left : ℕ)
    → serve_strict t ids budget out ≡ ok (out', left)
    → (out' ≡ out ++ cut budget (strict_demand t ids))
      × (left ≡ budget - total (strict_demand t ids))
unfolding serve_strict strict_demand cut total
serve_strict-cut t [] budget out out' left h = ground (arith, append-nil out)
serve_strict-cut t (id ∷ ids) budget out out' left h = elim (Option-cases (lookup id t)) [
  | inl n ↦
      ground (arith, n, append-nil out, cut_zero (strict_demand t ids), serve_strict_zero t ids out)
  | inr (e, s) ↦
      let send = strict_send budget e in
      ground (
        arith,
        s,
        append-nil out,
        cut_zero (strict_demand t ids),
        append_assoc out ((id, send) ∷ []) (cut (budget - send) (strict_demand t ids)),
        serve_strict-cut t ids (budget - send) out out' left,
        serve_strict-cut t ids (budget - send) (out ++ (id, send) ∷ []) out' left,
      )
]

-- Where `iter` permutes the entries of a map: `schedule` returns first the requests of the strict
-- streams, each its backlog but at most one quantum, in queue order as far as the budget goes; the bulk
-- streams share at most what the budget leaves behind these requests.
pub schedule_strict_first :
    (iter : List (ℕ × ℕ) → List (ℕ × ℕ)) (s : DrrScheduler) (budget : ℕ) (r : List (ℕ × ℕ))
    → ((m : List (ℕ × ℕ)) → Perm (iter m) m)
    → (schedule iter s budget).1 ≡ ok r
    → (bulk : List (ℕ × ℕ)) × (r ≡ cut budget (strict_demand s.streams s.c2i_queue) ++ bulk)
      × (total bulk ≤ budget - total (strict_demand s.streams s.c2i_queue))
unfolding total
schedule_strict_first iter s budget r perm h =
    let spec = serve_strict-cut s.streams s.c2i_queue budget [] in
    elim (schedule-Scheduled iter s budget r h) [
      | strict_only left e _ ↦ ([], (spec r left e).0 ∙ sym (append-nil _), omega arith)
      | with_bulk out left e _ _ _ q ↦ (
        iter (bulk_rounds s left).0.bulk_allocs,
        q ∙ ap (λ x. x ++ iter (bulk_rounds s left).0.bulk_allocs) (spec out left e).0,
        omega (
          arith,
          (spec out left e).1,
          total-perm (perm (bulk_rounds s left).0.bulk_allocs),
          bulk_rounds-spent s left,
        ),
      )
    ]
