-- ===== src/Transfer/Feedback.antt =====
-- The steps of `AckTask` (quelay-agent/src/active_stream.rs) keep the invariant of a transfer.
use quelay.Common.{
  ℕ, max, ◌≤◌, ◌≡◌, refl, ◌⊎◌, inl, inr, Bool, true, false, some, List, [], ◌∷◌, ◌++◌, length, All,
  arith, ◌==◌, if◌then◌else◌, Bool-cases, u64_max, subst,
}
use quelay.Framing.{WormholeMsg, ack, done, error}
use quelay.Spool.{SpoolBuffer, head_offset, has_space, on_tcp_read, push, handle_eof}
use quelay.Spool
use quelay.Spool.Invariant.{ack_lem}
use quelay.Spool.Window.{ack-Holds}
use quelay.Pump.{Mode, running, draining, waiting, exited, RateCmd, link_down}
use quelay.Pump.Slices.{Contiguous}
use quelay.Uplink.{
  AckTask, AckMsg, reader_msg, stream_error, try_send_finish, on_ack, on_msg, return_with,
}
use quelay.Uplink
use quelay.Downlink.{returned}
use quelay.Downlink.Replay.{Honest}
use quelay.Domain.Callback.{Cause}
use quelay.Transfer.{Half, live, dead, Transfer, told, asked, reopened, reconnected}
use quelay.Transfer.Invariant.{
  Command, Queued-append, Placed, AtQ, InFlight, Good, AtMostOne-give_up, AtMostOne-given_up,
}

try_send_finish-Command :
    (s : SpoolBuffer) (task : AckTask) → All Command (try_send_finish s task).1
unfolding try_send_finish
try_send_finish-Command s task = elim (Bool-cases task.finish_sent) [
  | inl e ↦ rw e tt
  | inr e ↦ elim (Bool-cases (s.head == u64_max)) [
    | inl h ↦ rw (e, h) (tt, tt)
    | inr h ↦ rw (e, h) tt
  ]
]

-- More commands for the pump, and another state of the ack task.
commanded :
    (t : Transfer) (task' : AckTask) (sent : List (RateCmd Half))
    → Good t
    → All Command sent
    → Good (record t { task = task'; commands = t.commands ++ sent })
commanded t task' sent g h = record {
  valid = g.valid;
  holds = g.holds;
  not_done = g.not_done;
  placed = g.placed;
  queued = Queued-append t.tx t.commands sent g.queued h;
  known = g.known;
  written = g.written;
  client = g.client;
  truthful = g.truthful;
  sends = g.sends;
  offered = g.offered;
  old_from = g.old_from;
  old_to = g.old_to;
  old_known = g.old_known;
  old = g.old;
}

pub notify-Good :
    (t : Transfer) → Good t → Good (record t { commands = t.commands ++ link_down ∷ [] })
notify-Good t g = commanded t t.task (link_down ∷ []) g (tt, tt)

pub data_ready-Good : (t : Transfer) → Good t → Good (asked t (try_send_finish t.spool t.task))
unfolding asked
data_ready-Good t g =
    let r = try_send_finish t.spool t.task in
    commanded t r.0 r.1 g (try_send_finish-Command t.spool t.task)

pub stream_error-Good :
    (t : Transfer) (wire_end : ℕ)
    → Good t
    → Good (told t (on_msg wire_end t.spool (some stream_error) t.task))
unfolding told on_msg
stream_error-Good t wire_end g =
    let r = try_send_finish t.spool t.task in
    commanded t (record r.0 { phase = Uplink.reconnecting }) (link_down ∷ r.1) g
      (tt, try_send_finish-Command t.spool t.task)

-- A reply is taken off the queue.
taken :
    (t : Transfer) (m : WormholeMsg Cause) (rest : List (WormholeMsg Cause))
    → Good t
    → t.replies ≡ m ∷ rest
    → Good (record t { replies = rest })
taken t m rest g e = record {
  valid = g.valid;
  holds = g.holds;
  not_done = g.not_done;
  placed = g.placed;
  queued = g.queued;
  known = g.known;
  written = g.written;
  client = g.client;
  truthful = g.truthful;
  sends = sends t.tx g.sends;
  offered = g.offered;
  old_from = g.old_from;
  old_to = g.old_to;
  old_known = g.old_known;
  old = g.old;
}
  where
    sends :
        (tx : Half)
        → InFlight t.input t.spool.head t.down t.pump t.replies tx
        → InFlight t.input t.spool.head t.down t.pump rest tx
    sends dead h = absurd (ground (arith, e, h))
    sends (live wire fin) s = record {
      from = s.from;
      to = s.to;
      known = s.known;
      contiguous = s.contiguous;
      to_le = s.to_le;
      honest = (subst (All (Honest t.down.bytes_written s.to)) e s.honest).1;
      at_q = s.at_q;
      ended = s.ended;
    }

-- What the acknowledged offset is bounded by.
acknowledged :
    (t : Transfer) (n : ℕ) (rest : List (WormholeMsg Cause)) (tx : Half)
    → t.replies ≡ ack n ∷ rest
    → InFlight t.input t.spool.head t.down t.pump t.replies tx
    → (e : ℕ) × (n ≤ t.down.bytes_written) × (n ≤ e) × AtQ t.pump.q e t.pump.mode
acknowledged t n rest dead e h = absurd (ground (arith, e, h))
acknowledged t n rest (live wire fin) e s =
    let h = (subst (All (Honest t.down.bytes_written s.to)) e s.honest).0 in
    (s.to, h.0, h.1, s.at_q)

Placed-ack :
    (a a' q e n len : ℕ) (m : Mode)
    → a' ≤ max a n
    → n ≤ e
    → AtQ q e m
    → Placed a q len m
    → Placed a' q len m
Placed-ack a a' q e n len running l h at (lo, hi) = (omega arith, hi)
Placed-ack a a' q e n len (draining rest) l h at (lo, hi) = (omega arith, hi)
Placed-ack a a' q e n len waiting l h at p = tt
Placed-ack a a' q e n len exited l h at p = tt

-- The spool moves to an honest acknowledgement.
acked :
    (t : Transfer) (n : ℕ) (rest : List (WormholeMsg Cause))
    → Good t
    → t.replies ≡ ack n ∷ rest
    → Good (record t { spool = Spool.ack t.spool n; replies = rest })
acked t n rest g e =
    let (e', w, far, at) = acknowledged t n rest t.tx e g.sends in
    let (v, moved, top, head) = ack_lem t.spool n g.valid in
    let k = g.known in
    let h = taken t (ack n) rest g e in
    record {
      valid = v;
      holds = ack-Holds t.input n t.spool g.holds;
      not_done = g.not_done;
      placed =
          Placed-ack t.spool.bytes_acked (Spool.ack t.spool n).bytes_acked t.pump.q e' n
            (length t.input) t.pump.mode (omega arith) far at g.placed;
      queued = g.queued;
      known = omega arith;
      written = g.written;
      client = g.client;
      truthful = rw head g.truthful;
      sends = rw head h.sends;
      offered = g.offered;
      old_from = g.old_from;
      old_to = g.old_to;
      old_known = g.old_known;
      old = g.old;
    }

pub reply-Good :
    (t : Transfer) (wire_end : ℕ) (m : WormholeMsg Cause) (rest : List (WormholeMsg Cause))
    → Good t
    → t.replies ≡ m ∷ rest
    → Good (
        told
          (record t { replies = rest })
          (on_msg wire_end t.spool (some ((reader_msg (some m)).0)) t.task))
unfolding told on_msg reader_msg on_ack return_with
reply-Good t wire_end (ack n) rest g e =
    let s = Spool.ack t.spool n in
    let task : AckTask = (on_ack t.spool n t.task).1 in
    let r = try_send_finish s task in
    commanded (record t { spool = s; replies = rest }) r.0 r.1 (acked t n rest g e)
      (try_send_finish-Command s task)
reply-Good t wire_end done rest g e =
    commanded (record t { replies = rest }) _ [] (taken t done rest g e) tt
reply-Good t wire_end (error code why) rest g e =
    commanded (record t { replies = rest }) _ [] (taken t (error code why) rest g e) tt

-- What the receiver has left of the older stream continues what it has written.
remains :
    (t : Transfer) (current : Bool) (tx : Half)
    → Good t
    → InFlight t.input t.spool.head t.down t.pump t.replies tx
    → (from to : ℕ) × ((t.down.phase ≡ returned) ⊎ (from ≤ t.down.bytes_written))
      × Contiguous t.input from
          (if current then (elim tx [ live wire fin ↦ wire | dead ↦ [] ]) else t.old_wire)
          to
remains t false tx g s = (g.old_from, g.old_to, g.old_known, g.old)
remains t true dead g s = (0, 0, inr (omega arith), refl)
remains t true (live wire fin) g s = (s.from, s.to, s.known, s.contiguous)

-- The fresh half is queued, or dropped.
reopened-Good : (pump_ok : Bool) (t : Transfer) → Good t → Good (reopened pump_ok t)
unfolding Uplink.on_stream
reopened-Good true t g =
    let (from, to, known, c) = remains t t.current t.tx g g.sends in
    record {
      valid = g.valid;
      holds = g.holds;
      not_done = g.not_done;
      placed = g.placed;
      queued = AtMostOne-give_up t.commands _ (
          try_send_finish-Command t.spool
            (record t.task { finish_sent = false; phase = Uplink.listening }));
      known = g.known;
      written = g.written;
      client = g.client;
      truthful = g.truthful;
      sends = refl;
      offered = g.known;
      old_from = from;
      old_to = to;
      old_known = known;
      old = c;
    }
reopened-Good false t g =
    let (from, to, known, c) = remains t t.current t.tx g g.sends in
    record {
      valid = g.valid;
      holds = g.holds;
      not_done = g.not_done;
      placed = g.placed;
      queued = AtMostOne-given_up t.commands;
      known = g.known;
      written = g.written;
      client = g.client;
      truthful = g.truthful;
      sends = refl;
      offered = g.known;
      old_from = from;
      old_to = to;
      old_known = known;
      old = c;
    }

pub reconnect-Good : (t : Transfer) → Good t → Good (reconnected t)
unfolding reconnected
reconnect-Good t g = reopened-Good _ t g
