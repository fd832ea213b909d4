-- ===== src/RateLimiter/Consistent.antt =====
-- The scheduler and the table of the aggregate rate limiter agree (quelay-agent/src/rate_limiter.rs).
use mathlib.Core.Option
use quelay.Common.{
  ℕ, ◌≡◌, refl, sym, ap, ◌∙◌, subst, Bool, true, ◌&&◌, Option, none, some, List, [], ◌∷◌, inl, inr,
  Option-cases, arith,
}
use quelay.Common.Table.{lookup, lookup-insert, lookup-remove}
use quelay.Domain.Priority.{Priority}
use quelay.Scheduler
use quelay.Scheduler.{DrrScheduler, schedule}
use quelay.Scheduler.Queues.{
  IsValid, priority_of, SamePriorities, new-IsValid, register-IsValid, deregister-IsValid,
}
use quelay.Scheduler.Members.{
  priority_of-register, priority_of-deregister, priority_of-set_backlog, priority_of-schedule,
}
use quelay.Framing.{chunk_size}
use quelay.RateLimiter.{
  from_rate_bps, RateParams, StreamEntry, TrySend, Timer, snapshot, set_backlogs, clean_up, tick,
}
use quelay.RateLimiter.Tick.{tick-IsValid, tick_state}
use quelay.RateLimiter.Registry.{
  AggregateRateLimiter, is_some, with_params, new, register, deregister, install_session,
  store_baseline, store_offsets, run_tick, Step, registers, deregisters, installs, resets, stores,
  ticks, Reachable, here, next,
}

-- The streams with an entry are the streams of the scheduler, or none without a rate.
abbrev Agree : Bool → Timer → Type 0
Agree capped t =
    (j : ℕ) → is_some (lookup j t.streams) ≡ (capped && is_some (priority_of t.scheduler.streams j))

pub record IsConsistent {Session : Type 0} (a : AggregateRateLimiter Session) : Type 0 where
  pub valid : IsValid a.timer.scheduler
  pub agree : Agree (is_some a.params) a.timer

clean_up-Agree : (ids : List ℕ) (t : Timer) → Agree true t → Agree true (clean_up ids t)
unfolding clean_up
clean_up-Agree [] t h = h
clean_up-Agree (id ∷ ids) t h =
    clean_up-Agree ids _ λ j.
      ground (arith, h j, lookup-remove id j t.streams, priority_of-deregister t.scheduler id j)

priority_of-set_backlogs :
    (snap : List (ℕ × ℕ)) (s : DrrScheduler)
    → SamePriorities (set_backlogs snap s).streams s.streams
unfolding set_backlogs
priority_of-set_backlogs [] s j = refl
priority_of-set_backlogs ((id, b) ∷ rest) s j =
    priority_of-set_backlogs rest _ j ∙ priority_of-set_backlog s id b j

tick-Agree :
    (iter : List (ℕ × ℕ) → List (ℕ × ℕ)) (try_send : ℕ → TrySend) (wire_now per_tick : ℕ)
    (t : Timer)
    → Agree true t
    → Agree true (tick iter try_send wire_now per_tick t).0
tick-Agree iter try_send wire_now per_tick t h =
    let (ids, t', e, kept, s) = tick_state iter try_send wire_now per_tick t in
    rw e (
      clean_up-Agree ids t' λ j.
        ap (λ m. is_some (lookup j m)) kept
        ∙ h j
        ∙ ap is_some (
            sym (
              ap (λ s. priority_of s.streams j) s
              ∙ priority_of-schedule iter _ _ j
              ∙ priority_of-set_backlogs (snapshot t.streams) t.scheduler j)))

module _ {Session : Type 0} (a : AggregateRateLimiter Session) (c : IsConsistent a) where
  pub register-IsConsistent :
      (id : ℕ) (p : Priority)
      → lookup id a.timer.scheduler.streams ≡ none
      → IsConsistent (register a id p).0
  unfolding register
  register-IsConsistent id p fresh = elim (Option-cases a.params) [
    | inl n ↦
        rw (register, n)
          (record {
            valid = register-IsValid a.timer.scheduler id p fresh c.valid;
            agree = λ j. ground (arith, n, c.agree j);
          })
    | inr (q, s) ↦
        rw (register, s)
          (record {
            valid = register-IsValid a.timer.scheduler id p fresh c.valid;
            agree = λ j. ground (
              arith,
              s,
              c.agree j,
              lookup-insert id j (record { head_offset = 0; q = 0 }) a.timer.streams,
              priority_of-register a.timer.scheduler id p j,
            );
          })
  ]

  deregister-IsConsistent : (id : ℕ) → IsConsistent (deregister a id)
  unfolding deregister
  deregister-IsConsistent id = record {
    valid = deregister-IsValid a.timer.scheduler id c.valid;
    agree = λ j. ground (
      arith,
      c.agree j,
      lookup-remove id j a.timer.streams,
      priority_of-deregister a.timer.scheduler id j,
    );
  }

  store_offsets-IsConsistent :
      (id : ℕ) (offsets : StreamEntry) → IsConsistent (store_offsets a id offsets)
  unfolding store_offsets
  store_offsets-IsConsistent id offsets = elim (Option-cases (lookup id a.timer.streams)) [
    | inl n ↦ rw (store_offsets, n) c
    | inr (old, s) ↦
        rw (store_offsets, s)
          (record {
            valid = c.valid;
            agree = λ j. ground (arith, s, c.agree j, lookup-insert id j offsets a.timer.streams);
          })
  ]

  run_tick-IsConsistent :
      (iter : List (ℕ × ℕ) → List (ℕ × ℕ)) (try_send : ℕ → TrySend) (wire_bytes_sent : Session → ℕ)
      → IsConsistent (run_tick iter try_send wire_bytes_sent a).0
  unfolding run_tick
  run_tick-IsConsistent iter try_send wire_bytes_sent = elim (Option-cases a.params) [
    | inl n ↦ rw (run_tick, n) c
    | inr (p, s) ↦
        rw (run_tick, s)
          (record {
            valid = tick-IsValid iter try_send _ p.budget_bytes a.timer c.valid;
            agree = rw s (
                tick-Agree iter try_send _ p.budget_bytes a.timer λ j.
                  c.agree j
                  ∙ ap
                      (λ (o : Option RateParams).
                        is_some o && is_some (priority_of a.timer.scheduler.streams j))
                      s);
          })
  ]

module _ {Session : Type 0} where
  install_session-IsConsistent :
      (a : AggregateRateLimiter Session) (session : Session)
      → IsConsistent a
      → IsConsistent (install_session session a)
  unfolding install_session
  install_session-IsConsistent a session c = record { valid = c.valid; agree = c.agree }

  store_baseline-IsConsistent :
      (a : AggregateRateLimiter Session) (baseline : ℕ)
      → IsConsistent a
      → IsConsistent (store_baseline baseline a)
  unfolding store_baseline
  store_baseline-IsConsistent a baseline c = record { valid = c.valid; agree = c.agree }

  Step-IsConsistent :
      {a b : AggregateRateLimiter Session} → Step a b → IsConsistent a → IsConsistent b
  Step-IsConsistent (registers a id p fresh) c = register-IsConsistent a c id p fresh
  Step-IsConsistent (deregisters a id) c = deregister-IsConsistent a c id
  Step-IsConsistent (installs a session) c = install_session-IsConsistent a session c
  Step-IsConsistent (resets a baseline) c = store_baseline-IsConsistent a baseline c
  Step-IsConsistent (stores a id offsets) c = store_offsets-IsConsistent a c id offsets
  Step-IsConsistent (ticks a iter try_send count) c = run_tick-IsConsistent a c iter try_send count

  Reachable-IsConsistent :
      {a b : AggregateRateLimiter Session} → IsConsistent a → Reachable a b → IsConsistent b
  Reachable-IsConsistent c here = c
  Reachable-IsConsistent c (next r s) = Step-IsConsistent s (Reachable-IsConsistent c r)

  with_params-IsConsistent :
      (params : Option RateParams) (session : Session) → IsConsistent (with_params params session)
  unfolding lookup Scheduler.new
  with_params-IsConsistent none session = record { valid = new-IsValid; agree = λ j. refl }
  with_params-IsConsistent (some p) session = record { valid = new-IsValid; agree = λ j. refl }

  new-IsConsistent :
      (rate_bps : Option ℕ) (session : Session) {a : AggregateRateLimiter Session}
      → new rate_bps session ≡ some a
      → IsConsistent a
  unfolding new
  new-IsConsistent none session e =
      subst IsConsistent (Option.some-injective _ _ e) (with_params-IsConsistent none session)
  new-IsConsistent (some bps) session {a = a} e = go (from_rate_bps bps chunk_size) e
    where
      go :
          (o : Option RateParams)
          → Option.map (λ p. with_params (some p) session) o ≡ some a
          → IsConsistent a
      go none e = cc
      go (some p) e =
          subst IsConsistent (Option.some-injective _ _ e)
            (with_params-IsConsistent (some p) session)

  -- Where streams register under new ids, after any sequence of registrations, ends of streams, new
  -- sessions, stores of baselines and offsets, and ticks the scheduler's queues are valid, and the table has an entry
  -- for each stream of the scheduler and no other; without a rate it has none.
  pub always_IsConsistent :
      (rate_bps : Option ℕ) (session : Session) {a b : AggregateRateLimiter Session}
      → new rate_bps session ≡ some a
      → Reachable a b
      → IsConsistent b
  always_IsConsistent rate_bps session e r =
      Reachable-IsConsistent (new-IsConsistent rate_bps session e) r
