-- ===== src/Uncapped/Tests.antt =====
-- An uplink without a rate on a concrete input (quelay-agent/src/rate_limiter.rs,
-- quelay-agent/src/active_stream.rs).
use quelay.Common.{◌≡◌, ◌<◌, ◌⊎◌, refl, true, false, arith}
use quelay.Uncapped.{
  World, started, sleeping, selecting, to_forwarder, to_task, check_end, drain, take_finish, pushes,
  ends, notifies, waits_first, finds_backlog, sends, checks, pump_takes_ticket, pump_takes_finish,
  Reachable, here, next,
}
use quelay.Uncapped.Quiet.{Quiet, rest_after_end, end_is_missed}

-- The forwarder waits first: the push wakes it, and the end of the input the ack task.
abbrev over : World
over = record started {
  forwarder = sleeping;
  task = selecting;
  forwarder_first = true;
  written = 5;
  ended = true;
  q = 5;
  finish_sent = true;
  finishing = true;
  fin = true;
}

over_path : Reachable started over
unfolding started check_end drain take_finish
over_path =
    let listening : Reachable started
        (record started { forwarder = sleeping; task = selecting; forwarder_first = true }) =
      next (next here (waits_first refl)) (checks refl) in
    let pushed : Reachable started
        (record started { forwarder = sleeping; task = selecting; written = 5; q = 5 }) =
      next
        (next
          (next
            (next (next listening (pushes 5 refl refl (omega arith) (omega arith) (omega arith)))
              (notifies refl (to_forwarder refl (λ e. refl))))
            (finds_backlog refl (omega arith)))
          (sends refl refl))
        (pump_takes_ticket refl refl) in
    next
      (next (next (next pushed (ends refl refl)) (notifies refl (to_task refl (λ e. refl))))
        (checks refl))
      (pump_takes_finish refl refl)

over-Quiet : Quiet over
unfolding started
over-Quiet = record {
  reader = refl;
  no_permit = refl;
  forwarder = refl;
  task = refl;
  no_ticket = refl;
  no_command = refl;
}

rest_after_end_example :
    ((over.fin ≡ true) × (over.q ≡ over.written))
    ⊎ ((over.finishing ≡ true) × (over.q < over.written))
    ⊎ ((over.finish_sent ≡ false) × (over.q ≡ over.written))
rest_after_end_example = rest_after_end over_path refl over-Quiet

end_is_missed_example :
    (w : World) × Reachable started w
    × Quiet w
    × (w.ended ≡ true)
    × (w.q ≡ 5)
    × (w.written ≡ 5)
    × (w.finish_sent ≡ false)
    × (w.fin ≡ false)
end_is_missed_example = end_is_missed 5 (omega arith) (omega arith)
