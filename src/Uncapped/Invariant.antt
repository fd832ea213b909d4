-- ===== src/Uncapped/Invariant.antt =====
-- What the tasks of an uplink without a rate keep (quelay-agent/src/rate_limiter.rs).
use quelay.Common.{◌≤◌, ◌<◌, ◌≡◌, ◌⊎◌, inl, inr, refl, Bool, true, false, arith}
use quelay.Uncapped.{
  ReaderPhase, reading, notifying, ForwarderPhase, spawned, sleeping, awake, sending, gone,
  TaskPhase, checking, World, started, Notified, to_forwarder, to_task, to_nobody, check_end, drain,
  take_finish, Step, pushes, ends, notifies, waits_first, forwarder_takes_permit, finds_backlog,
  finds_nothing, sends, finds_pump_gone, task_takes_permit, hears, checks, pump_takes_ticket,
  pump_takes_finish, Reachable, here, next,
}

-- What is still to happen by itself after the end of the input.
abbrev pub Pending : World → Type 0
Pending w =
    (w.reader ≡ notifying)
    ⊎ (w.permit ≡ true)
    ⊎ (w.task ≡ checking)
    ⊎ (w.forwarder ≡ awake)
    ⊎ (w.forwarder ≡ sending)
    ⊎ (w.ticket ≡ true)

pub record Good (w : World) : Type 0 where
  pub within : w.q ≤ w.written
  finish_after_end : w.finish_sent ≡ true → w.ended ≡ true
  pub told : w.finish_sent ≡ true → (w.commanded ≡ true) ⊎ (w.finishing ≡ true)
  finish_was_sent : (w.commanded ≡ true) ⊎ (w.finishing ≡ true) → w.finish_sent ≡ true
  pub complete : w.finishing ≡ true → w.q ≡ w.written → w.fin ≡ true
  fin_is_last : w.fin ≡ true → w.q ≡ w.written
  fin_after_end : w.fin ≡ true → w.ended ≡ true
  pub answered : w.ended ≡ true → w.finish_sent ≡ false → w.q < w.written → Pending w

pub started-Good : Good started
unfolding started
started-Good = record {
  within = omega arith;
  finish_after_end = λ e. cc;
  told = λ e. cc;
  finish_was_sent = λ e. elim e [ inl c ↦ absurd (cc) | inr c ↦ absurd (cc) ];
  complete = λ e f. cc;
  fin_is_last = λ e. refl;
  fin_after_end = λ e. cc;
  answered = λ e f l. cc;
}

check_end-Good : (w : World) → Good w → Good (check_end w)
unfolding check_end
check_end-Good w g = record {
  within = g.within;
  finish_after_end = λ e. ground (arith, g.finish_after_end);
  told = λ e. ground (arith, g.told);
  finish_was_sent = λ e. ground (arith, g.finish_was_sent);
  complete = g.complete;
  fin_is_last = g.fin_is_last;
  fin_after_end = g.fin_after_end;
  answered = λ e f l. absurd (ground arith);
}

drain-Good : (w : World) → Good w → Good (drain w)
unfolding drain
drain-Good w g = record {
  within = omega arith;
  finish_after_end = g.finish_after_end;
  told = g.told;
  finish_was_sent = g.finish_was_sent;
  complete = λ e f. rw (e, g.finish_after_end (g.finish_was_sent (inr e))) refl;
  fin_is_last = λ e. refl;
  fin_after_end = λ e. ground arith;
  answered = λ e f l. absurd (omega arith);
}

take_finish-Good : (w : World) → w.commanded ≡ true → Good w → Good (take_finish w)
unfolding take_finish
take_finish-Good w c g = record {
  within = g.within;
  finish_after_end = g.finish_after_end;
  told = λ e. inr refl;
  finish_was_sent = λ e. g.finish_was_sent (inl c);
  complete = λ e f. let sent = g.finish_was_sent (inl c) in ground (arith, g.finish_after_end sent);
  fin_is_last = λ e. ground arith;
  fin_after_end = λ e. ground arith;
  answered = λ e f l. absurd (let sent = g.finish_was_sent (inl c) in cc);
}

-- The world with other phases, where what is still to happen holds.
moved :
    {w : World} (permit : Bool) (reader : ReaderPhase) (forwarder : ForwarderPhase)
    (task : TaskPhase) (ticket forwarder_first : Bool)
    → Good w
    → (w.q < w.written
        → Pending (record w {
          permit = permit;
          reader = reader;
          forwarder = forwarder;
          task = task;
          ticket = ticket;
          forwarder_first = forwarder_first;
        }))
    → Good (record w {
      permit = permit;
      reader = reader;
      forwarder = forwarder;
      task = task;
      ticket = ticket;
      forwarder_first = forwarder_first;
    })
moved permit reader forwarder task ticket forwarder_first g p = record {
  within = g.within;
  finish_after_end = g.finish_after_end;
  told = g.told;
  finish_was_sent = g.finish_was_sent;
  complete = g.complete;
  fin_is_last = g.fin_is_last;
  fin_after_end = g.fin_after_end;
  answered = λ e f l. p l;
}

Notified-Good : {w v : World} → Notified (record w { reader = reading }) v → Good w → Good v
Notified-Good {w = w} (to_forwarder s o) g =
    moved w.permit reading awake w.task w.ticket w.forwarder_first g
      (λ l. inr (inr (inr (inl refl))))
Notified-Good {w = w} (to_task s o) g =
    moved w.permit reading w.forwarder checking w.ticket w.forwarder_first g
      (λ l. inr (inr (inl refl)))
Notified-Good {w = w} (to_nobody s t) g =
    moved true reading w.forwarder w.task w.ticket w.forwarder_first g (λ l. inr (inl refl))

if_not_true : (b : Bool) → ¬ (b ≡ true) → b ≡ false
if_not_true true h = absurd (h refl)
if_not_true false h = refl

open_until :
    (w : World)
    → Good w
    → w.ended ≡ false
    → (w.finish_sent ≡ false) × (w.finishing ≡ false) × (w.fin ≡ false) × (w.commanded ≡ false)
open_until w g o =
    let not_ended : ¬ (w.ended ≡ true) = λ e. cc in
    (
      if_not_true w.finish_sent (λ e. not_ended (g.finish_after_end e)),
      if_not_true w.finishing (λ e. not_ended (g.finish_after_end (g.finish_was_sent (inr e)))),
      if_not_true w.fin (λ e. not_ended (g.fin_after_end e)),
      if_not_true w.commanded (λ e. not_ended (g.finish_after_end (g.finish_was_sent (inl e)))),
    )

without_forwarder :
    (w : World)
    → w.forwarder ≡ spawned
    → Pending w
    → Pending (record w { forwarder = sleeping; forwarder_first = false })
without_forwarder w s (inr (inr (inr (inl e)))) = absurd (cc)
without_forwarder w s (inr (inr (inr (inr (inl e))))) = absurd (cc)
without_forwarder w s (inl e) = inl e
without_forwarder w s (inr (inl e)) = inr (inl e)
without_forwarder w s (inr (inr (inl e))) = inr (inr (inl e))
without_forwarder w s (inr (inr (inr (inr (inr e))))) = inr (inr (inr (inr (inr e))))

Step-Good : {w v : World} → Step w v → Good w → Good v
Step-Good {w = w} (pushes n r o l u room) g =
    let (not_sent, not_finishing, no_fin, no_command) = open_until w g o in
    record {
      within = omega (arith, g.within);
      finish_after_end = g.finish_after_end;
      told = g.told;
      finish_was_sent = g.finish_was_sent;
      complete = λ e f. absurd (cc);
      fin_is_last = λ e. absurd (cc);
      fin_after_end = g.fin_after_end;
      answered = λ e f l. inl refl;
    }
Step-Good {w = w} (ends r o) g = record {
  within = g.within;
  finish_after_end = λ e. refl;
  told = g.told;
  finish_was_sent = g.finish_was_sent;
  complete = g.complete;
  fin_is_last = g.fin_is_last;
  fin_after_end = λ e. refl;
  answered = λ e f l. inl refl;
}
Step-Good {w = w} (notifies r n) g = Notified-Good n g
Step-Good {w = w} (waits_first s) g = record {
  within = g.within;
  finish_after_end = g.finish_after_end;
  told = g.told;
  finish_was_sent = g.finish_was_sent;
  complete = g.complete;
  fin_is_last = g.fin_is_last;
  fin_after_end = g.fin_after_end;
  answered = λ e f l. without_forwarder w s (g.answered e f l);
}
Step-Good {w = w} (forwarder_takes_permit s p) g =
    moved false w.reader awake w.task w.ticket w.forwarder_first g (λ l. inr (inr (inr (inl refl))))
Step-Good {w = w} (finds_backlog s l) g =
    moved w.permit w.reader sending w.task w.ticket w.forwarder_first g
      (λ l. inr (inr (inr (inr (inl refl)))))
Step-Good {w = w} (finds_nothing s le) g =
    moved w.permit w.reader sleeping w.task w.ticket false g (λ l. absurd (omega arith))
Step-Good {w = w} (sends s t) g =
    moved w.permit w.reader sleeping w.task true false g (λ l. inr (inr (inr (inr (inr refl)))))
Step-Good {w = w} (finds_pump_gone s f) g =
    moved w.permit w.reader gone w.task w.ticket w.forwarder_first g
      (λ l. absurd (omega (arith, g.fin_is_last f)))
Step-Good {w = w} (task_takes_permit s p) g =
    moved false w.reader w.forwarder checking w.ticket w.forwarder_first g
      (λ l. inr (inr (inl refl)))
Step-Good {w = w} (hears a s l u) g = record {
  within = g.within;
  finish_after_end = g.finish_after_end;
  told = g.told;
  finish_was_sent = g.finish_was_sent;
  complete = g.complete;
  fin_is_last = g.fin_is_last;
  fin_after_end = g.fin_after_end;
  answered = λ e f l. inr (inr (inl refl));
}
Step-Good {w = w} (checks s) g = check_end-Good w g
Step-Good {w = w} (pump_takes_ticket t f) g = drain-Good w g
Step-Good {w = w} (pump_takes_finish c f) g = take_finish-Good w c g

pub Reachable-Good : {w v : World} → Good w → Reachable w v → Good v
Reachable-Good g here = g
Reachable-Good g (next r s) = Step-Good s (Reachable-Good g r)
