-- ===== src/SessionManager/Queue.antt =====
-- The order of `RemoteState::pending` (quelay-agent/src/session_manager.rs).
use mathlib.Core.Option
use quelay.Common.{
  ℕ, suc, ◌+◌, ◌≡◌, refl, ap, inl, inr, true, false, Option, none, some, List, [], ◌∷◌, ◌++◌,
  length, position, insert_at, Bool-cases, All, All-append, All-append_left, All-append_right,
  All-mono, subst, sym, length-append, arith,
}
use quelay.Domain.Priority.{lt_priority, GePriority}
use quelay.SessionManager.{PendingStream, RemoteState, place, enqueue}

module _ {Info : Type 0} where
  -- No stream stands behind one of lower priority.
  abbrev pub Sorted : List (PendingStream Info) → Type 0
  Sorted [] = Unit
  Sorted (p ∷ ps) = All (λ q. GePriority p.priority q.priority) ps × Sorted ps

  -- Where a stream is put: behind all of its priority or a higher one, if the queue is sorted, and
  -- before the first of a lower one.
  pub record Placed (pending : List (PendingStream Info)) (p : PendingStream Info)
      (pending' : List (PendingStream Info)) (pos : ℕ) : Type 0 where
    pub before : List (PendingStream Info)
    pub after : List (PendingStream Info)
    pub was : pending ≡ before ++ after
    pub is : pending' ≡ before ++ p ∷ after
    pub at : pos ≡ length before
    pub higher : All (λ q. lt_priority q.priority p.priority ≡ false) before
    pub lower : Sorted pending → All (λ q. lt_priority q.priority p.priority ≡ true) after

  lower_rest :
      (q p : PendingStream Info) (rest : List (PendingStream Info))
      → lt_priority q.priority p.priority ≡ true
      → All (λ x. GePriority q.priority x.priority) rest
      → All (λ x. lt_priority x.priority p.priority ≡ true) rest
  lower_rest q p rest e h = All-mono _ _ (λ x k. ground (arith, e, k)) rest h

  pub place-Placed :
      (pending : List (PendingStream Info)) (p : PendingStream Info)
      → Placed pending p (insert_at (place pending p) p pending) (place pending p)
  unfolding position insert_at
  place-Placed [] p = record {
    before = [];
    after = [];
    was = refl;
    is = refl;
    at = refl;
    higher = tt;
    lower = λ s. tt;
  }
  place-Placed (q ∷ rest) p = elim (Bool-cases (lt_priority q.priority p.priority)) [
    | inl e ↦ rw e (record {
      before = [];
      after = q ∷ rest;
      was = refl;
      is = refl;
      at = refl;
      higher = tt;
      lower = λ s. (e, lower_rest q p rest e s.0);
    })
    | inr e ↦
        rw e
          (behind (position (λ e. lt_priority e.priority p.priority) rest) e (place-Placed rest p))
  ]
    where
      behind :
          (o : Option ℕ)
          → lt_priority q.priority p.priority ≡ false
          → Placed rest p
              (insert_at (Option.get_or o (length rest)) p rest)
              (Option.get_or o (length rest))
          → Placed
              (q ∷ rest)
              p
              (insert_at (Option.get_or (Option.map suc o) (suc (length rest))) p (q ∷ rest))
              (Option.get_or (Option.map suc o) (suc (length rest)))
      behind none e v = record {
        before = q ∷ v.before;
        after = v.after;
        was = ap (◌∷◌ q) v.was;
        is = ap (◌∷◌ q) v.is;
        at = ap suc v.at;
        higher = (e, v.higher);
        lower = λ s. v.lower s.1;
      }
      behind (some i) e v = record {
        before = q ∷ v.before;
        after = v.after;
        was = ap (◌∷◌ q) v.was;
        is = ap (◌∷◌ q) v.is;
        at = ap suc v.at;
        higher = (e, v.higher);
        lower = λ s. v.lower s.1;
      }

  between-Sorted :
      (before after : List (PendingStream Info)) (p : PendingStream Info)
      → All (λ q. lt_priority q.priority p.priority ≡ false) before
      → All (λ q. lt_priority q.priority p.priority ≡ true) after
      → Sorted (before ++ after)
      → Sorted (before ++ p ∷ after)
  between-Sorted [] after p h l s = (All-mono _ _ (λ q e. ground (arith, e)) after l, s)
  between-Sorted (b ∷ bs) after p h l s = (
    All-append (λ q. GePriority b.priority q.priority) bs (p ∷ after)
        (All-append_left _ bs after s.0) (ground (arith, h.0), All-append_right _ bs after s.0),
    between-Sorted bs after p h.1 l s.1,
  )

  pub enqueue_lem :
      {Session Handle : Type 0} (r : RemoteState Session Info Handle) (p : PendingStream Info)
      → Sorted r.pending
      → Sorted (enqueue r p).0.pending
        × ((before after : List (PendingStream Info)) × (r.pending ≡ before ++ after)
            × ((enqueue r p).0.pending ≡ before ++ p ∷ after)
            × ((enqueue r p).1 ≡ length before + 1)
            × All (λ q. lt_priority q.priority p.priority ≡ false) before
            × All (λ q. lt_priority q.priority p.priority ≡ true) after)
  unfolding enqueue
  enqueue_lem r p s =
      let v = place-Placed r.pending p in
      let l = v.lower s in
      (
        subst Sorted (sym v.is)
            (between-Sorted v.before v.after p v.higher l (subst Sorted v.was s)),
        (v.before, v.after, v.was, v.is, ap (λ n. n + 1) v.at, v.higher, l),
      )

  pub length-enqueue :
      {Session Handle : Type 0} (r : RemoteState Session Info Handle) (p : PendingStream Info)
      → length (enqueue r p).0.pending ≡ length r.pending + 1
  unfolding enqueue
  length-enqueue r p =
      let v = place-Placed r.pending p in
      let a : length (insert_at (place r.pending p) p r.pending)
          ≡ length (v.before ++ p ∷ v.after) =
        ap length v.is in
      let b : length r.pending ≡ length (v.before ++ v.after) = ap length v.was in
      omega (arith, length-append v.before (p ∷ v.after), length-append v.before v.after)
