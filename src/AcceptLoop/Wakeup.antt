-- ===== src/AcceptLoop/Wakeup.antt =====
-- The accept loop is never left asleep (quelay-agent/src/session_manager.rs).
use quelay.Common.{
  ℕ, ◌≡◌, ◌⊎◌, inl, inr, refl, sym, subst, ◌∙◌, Bool, true, false, none, some, arith, Bool-cases,
}
use quelay.AcceptLoop.{
  RunPhase, watching, reconnecting, waiting, accepting, World, close, started, Step, takes_session,
  finds_none, accepts, accept_error, wakes, sees_failure, restores, disables_link, pump_moves,
  Reachable, here, next,
}

-- `run` will notify: it reconnects already, or its session has failed and it has yet to see it.
abbrev pub WillNotify : World → Type 0
WillNotify w = (w.run ≡ reconnecting) ⊎ ((n : ℕ) × (w.run ≡ watching n) × (w.failed n ≡ true))

pub record Good (w : World) : Type 0 where
  pub watched : (n : ℕ) → w.run ≡ watching n → w.session ≡ some n
  pub cleared : w.run ≡ reconnecting → w.session ≡ none
  pub woken : w.accept ≡ waiting → (w.permit ≡ true) ⊎ WillNotify w
  pub current :
      (n : ℕ)
      → w.accept ≡ accepting n
      → (w.session ≡ some n) ⊎ (w.permit ≡ true) ⊎ (w.run ≡ reconnecting)

started-Good : (n : ℕ) → Good (started n)
unfolding started
started-Good n = record {
  watched = λ m e. cc;
  cleared = λ e. cc;
  woken = λ e. cc;
  current = λ m e. cc;
}

RunPhase-cases : (r : RunPhase) → (r ≡ reconnecting) ⊎ ((n : ℕ) × (r ≡ watching n))
RunPhase-cases reconnecting = inl refl
RunPhase-cases (watching n) = inr (n, refl)

close_self : (n : ℕ) (failed : ℕ → Bool) → close n failed n ≡ true
unfolding close
close_self n failed = ground arith

close_kept : (n m : ℕ) (failed : ℕ → Bool) → failed m ≡ true → close n failed m ≡ true
unfolding close
close_kept n m failed e = ground arith

-- More closed sessions do not stop a notification.
WillNotify-close :
    (w : World) (n : ℕ) → WillNotify w → WillNotify (record w { failed = close n w.failed })
WillNotify-close w n (inl r) = inl r
WillNotify-close w n (inr (m, r, f)) = inr (m, r, close_kept n m w.failed f)

close_current :
    (w : World)
    → Good w
    → (n m : ℕ) → w.session ≡ some n
    → w.run ≡ watching m
    → close n w.failed m ≡ true
close_current w g n m s r =
    let same : n ≡ m = cc (g.watched m r) in
    subst (λ k. close n w.failed k ≡ true) same (close_self n w.failed)

Step-Good : {w v : World} → Step w v → Good w → Good v
Step-Good {w = w} (takes_session n a s) g = record {
  watched = g.watched;
  cleared = g.cleared;
  woken = λ e. cc;
  current = λ m e. inl (cc);
}
Step-Good {w = w} (finds_none a s) g = record {
  watched = g.watched;
  cleared = g.cleared;
  woken = λ e. inr (elim (RunPhase-cases w.run) [
    | inl r ↦ inl r
    | inr (n, r) ↦ absurd (let s' = g.watched n r in let e : none ≡ some n = sym s ∙ s' in cc)
  ]);
  current = λ m e. cc;
}
Step-Good (accepts n o a) g = record {
  watched = g.watched;
  cleared = g.cleared;
  woken = λ e. cc;
  current = λ m e. cc;
}
Step-Good {w = w} (accept_error n a) g = record {
  watched = g.watched;
  cleared = g.cleared;
  woken = λ _. elim (g.current n a) [
    | inr (inl p) ↦ inl p
    | inr (inr r) ↦ inr (inl r)
    | inl s ↦ inr (elim (RunPhase-cases w.run) [
      | inl r ↦ inl r
      | inr (m, r) ↦ inr (m, r, close_current w g n m s r)
    ])
  ];
  current = λ m e. cc;
}
Step-Good (wakes a p) g = record {
  watched = g.watched;
  cleared = g.cleared;
  woken = λ e. cc;
  current = λ m e. cc;
}
Step-Good (sees_failure n r f) g = record {
  watched = λ m e. cc;
  cleared = λ _. refl;
  woken = λ _. inr (inl refl);
  current = λ m _. inr (inr refl);
}
Step-Good (restores n r f) g = record {
  watched = λ m e. cc;
  cleared = λ e. cc;
  woken = λ _. inl refl;
  current = λ m _. inr (inl refl);
}
Step-Good {w = w} (disables_link n m r s) g = record {
  watched = g.watched;
  cleared = g.cleared;
  woken = λ e. elim (g.woken e) [ inl p ↦ inl p | inr x ↦ inr (WillNotify-close w m x) ];
  current = g.current;
}
Step-Good (pump_moves uuid h h' l) g = record {
  watched = g.watched;
  cleared = g.cleared;
  woken = g.woken;
  current = g.current;
}

Reachable-Good : {w v : World} → Good w → Reachable w v → Good v
Reachable-Good g here = g
Reachable-Good g (next r s) = Step-Good s (Reachable-Good g r)

-- At any moment at which the accept loop waits, a wake-up is stored for it, or `run` reconnects and will
-- notify it, or the session that `run` watches has failed, so that it will reconnect.
pub accept_never_stuck :
    (n : ℕ) {w : World}
    → Reachable (started n) w
    → w.accept ≡ waiting
    → (w.permit ≡ true) ⊎ WillNotify w
accept_never_stuck n r e = (Reachable-Good (started-Good n) r).woken e

-- The accept loop listens on the current session, and that session is up.
abbrev pub Live : ℕ → World → Type 0
Live k v = (v.accept ≡ accepting k) × (v.session ≡ some k) × (v.failed k ≡ false)

-- From `reconnecting` on: the new session, the wake-up, the snapshot.
resumes :
    {u w : World} (m : ℕ)
    → Reachable u w
    → w.run ≡ reconnecting
    → w.accept ≡ waiting
    → w.failed m ≡ false
    → (k : ℕ) × (v : World) × Reachable u v × Live k v
resumes {w = w} m path r a f = (
  m,
  record w { session = some m; run = watching m; permit = false; accept = accepting m },
  next (next (next path (restores m r f)) (wakes a refl)) (takes_session m refl refl),
  (refl, refl, f),
)

-- Wherever the accept loop waits, and a new session `m` that has not failed can be had, the two tasks
-- can go on until the accept loop listens on the current session, and that session has not failed.
-- This holds as well where a wake-up is stored for a session that has failed since.
pub accept_resumes :
    (n m : ℕ) {w : World}
    → Reachable (started n) w
    → w.accept ≡ waiting
    → w.failed m ≡ false
    → (k : ℕ) × (v : World) × Reachable w v × Live k v
accept_resumes n m {w} path a f =
    let g = Reachable-Good (started-Good n) path in
    elim (RunPhase-cases w.run) [
      | inl r ↦ resumes m here r a f
      | inr (k, r) ↦ elim (g.woken a) [
        | inl p ↦ elim (Bool-cases (w.failed k)) [
          | inl dead ↦ resumes m (next here (sees_failure k r dead)) refl a f
          | inr up ↦ (
            k,
            record w { permit = false; accept = accepting k },
            next (next here (wakes a p)) (takes_session k refl (g.watched k r)),
            (refl, g.watched k r, up),
          )
        ]
        | inr (inl r') ↦ resumes m here r' a f
        | inr (inr (j, r', failed)) ↦ resumes m (next here (sees_failure j r' failed)) refl a f
      ]
    ]
