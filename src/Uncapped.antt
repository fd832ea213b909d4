-- ===== src/Uncapped.antt =====
-- An uplink without a rate: the tasks that share `data_ready`. The TCP reader notifies
-- (quelay-agent/src/active_stream.rs, run_tcp_reader and handle_eof); the forwarder that `RateLimiter::new`
-- spawns (quelay-agent/src/rate_limiter.rs) and the ack task (AckTask::run_inner) wait. The link stays up.
-- `notify_one` wakes the task that has waited longest, or stores one permit where none waits.
pub mod Invariant
pub mod Quiet
pub mod Tests
use quelay.Common.{ℕ, ◌+◌, ◌≤◌, ◌<◌, ◌≡◌, ◌≢◌, Bool, true, false, ◌||◌, ◌&&◌, not, ◌==◌}
use quelay.Framing.{chunk_size}
use quelay.Spool.{spool_capacity}

-- Between two reads, between a push or the end of the input and its notification.
pub data ReaderPhase : Type 0 where
  reading notifying : ReaderPhase

-- Before its loop, in `notified()`, behind it, in `send` of a ticket, and returned.
pub data ForwarderPhase : Type 0 where
  spawned sleeping awake sending gone : ForwarderPhase

-- In the `select` of `run_inner`, or at `try_send_finish`.
pub data TaskPhase : Type 0 where
  selecting checking : TaskPhase

-- `written` is T of the spool, `acked` its A, `ended` its sentinel, `q` the pump's offset, `ticket` the
-- channel to the pump, `commanded` a `Finish` in its command channel. Where both tasks wait,
-- `forwarder_first` tells that the ack task came last.
pub record World : Type 0 where
  pub written : ℕ
  pub acked : ℕ
  pub ended : Bool
  pub q : ℕ
  pub permit : Bool
  pub reader : ReaderPhase
  pub forwarder : ForwarderPhase
  pub task : TaskPhase
  pub finish_sent : Bool
  pub ticket : Bool
  pub commanded : Bool
  pub finishing : Bool
  pub fin : Bool
  pub forwarder_first : Bool

unfoldable pub started : World
started = record {
  written = 0;
  acked = 0;
  ended = false;
  q = 0;
  permit = false;
  reader = reading;
  forwarder = spawned;
  task = checking;
  finish_sent = false;
  ticket = false;
  commanded = false;
  finishing = false;
  fin = false;
  forwarder_first = false;
}

-- `data_ready.notify_one()`
pub data Notified (w : World) : World → Type 0 where
  to_forwarder :
      w.forwarder ≡ sleeping
      → (w.task ≡ selecting → w.forwarder_first ≡ true)
      → Notified w (record w { forwarder = awake })
  to_task :
      w.task ≡ selecting
      → (w.forwarder ≡ sleeping → w.forwarder_first ≡ false)
      → Notified w (record w { task = checking })
  to_nobody : w.forwarder ≢ sleeping → w.task ≢ selecting → Notified w (record w { permit = true })

-- `try_send_finish`
unfoldable pub check_end : World → World
check_end w = record w {
  task = selecting;
  forwarder_first = true;
  commanded = w.commanded || (w.ended && not w.finish_sent);
  finish_sent = w.finish_sent || w.ended;
}

-- `drain_alloc` with the budget of a ticket, which is beyond all offsets; with a budget of one byte
-- where nothing is left.
unfoldable pub drain : World → World
drain w = record w { ticket = false; q = w.written; fin = w.finishing && w.ended }

unfoldable pub take_finish : World → World
take_finish w = record w {
  commanded = false;
  finishing = true;
  fin = (w.q == w.written) && w.ended;
}

pub data Step (w : World) : World → Type 0 where
  -- One read of the TCP stream, where the spool has room for a chunk.
  pushes :
      (n : ℕ)
      → w.reader ≡ reading
      → w.ended ≡ false
      → 1 ≤ n
      → n ≤ chunk_size
      → w.written + chunk_size ≤ w.acked + spool_capacity
      → Step w (record w { reader = notifying; written = w.written + n })
  ends :
      w.reader ≡ reading → w.ended ≡ false → Step w (record w { reader = notifying; ended = true })
  notifies :
      {v : World} → w.reader ≡ notifying → Notified (record w { reader = reading }) v → Step w v
  waits_first :
      w.forwarder ≡ spawned → Step w (record w { forwarder = sleeping; forwarder_first = false })
  forwarder_takes_permit :
      w.forwarder ≡ sleeping
      → w.permit ≡ true
      → Step w (record w { forwarder = awake; permit = false })
  finds_backlog : w.forwarder ≡ awake → w.q < w.written → Step w (record w { forwarder = sending })
  finds_nothing :
      w.forwarder ≡ awake
      → w.written ≤ w.q
      → Step w (record w { forwarder = sleeping; forwarder_first = false })
  sends :
      w.forwarder ≡ sending
      → w.ticket ≡ false
      → Step w (record w { forwarder = sleeping; forwarder_first = false; ticket = true })
  finds_pump_gone : w.forwarder ≡ sending → w.fin ≡ true → Step w (record w { forwarder = gone })
  task_takes_permit :
      w.task ≡ selecting → w.permit ≡ true → Step w (record w { task = checking; permit = false })
  -- A message of the receiver, which acknowledges the bytes before `a`, or none that are new.
  hears :
      (a : ℕ)
      → w.task ≡ selecting
      → w.acked ≤ a
      → a ≤ w.q
      → Step w (record w { task = checking; acked = a })
  checks : w.task ≡ checking → Step w (check_end w)
  pump_takes_ticket : w.ticket ≡ true → w.fin ≡ false → Step w (drain w)
  pump_takes_finish : w.commanded ≡ true → w.fin ≡ false → Step w (take_finish w)

pub data Reachable (w : World) : World → Type 0 where
  here : Reachable w w
  next : {u v : World} → Reachable w u → Step u v → Reachable w v
