-- ===== src/Transfer/Endings.antt =====
-- The end of a stream and its loss at the receiver (quelay-agent/src/active_stream.rs).
use quelay.Common.{◌≡◌, refl, sym, inl, inr, true, [], ◌∷◌, length, All-append, arith, subst}
use quelay.Framing.{done}
use quelay.Downlink.{
  Downlink, reading, returned, awaiting_stream, fire, on_fin, on_read_error, on_stream,
}
use quelay.Downlink.Replay.{Honest}
use quelay.Domain.Callback.{stream_done}
use quelay.Transfer.{Half, live, dead, Transfer, received}
use quelay.Transfer.Invariant.{Truthful, Sends, InFlight, Good}
use quelay.Transfer.Receiver.{starts}

-- FIN is read behind the last chunk: the client has all of the input.
pub fin-Good :
    (t : Transfer)
    → Good t
    → t.down.phase ≡ reading
    → t.current ≡ true
    → t.tx ≡ live [] true
    → Good (received t (on_fin t.down))
unfolding received on_fin fire
fin-Good t g p cur e =
    let s : Sends t.input t.spool.head t.down t.pump t.replies [] true =
      subst (InFlight t.input t.spool.head t.down t.pump t.replies) e g.sends in
    let lo = starts t.down s.from p s.known in
    let (all, eof, out) = s.ended refl in
    let c = s.contiguous in
    let w = g.written in
    record {
      valid = g.valid;
      holds = g.holds;
      not_done = g.not_done;
      placed = g.placed;
      queued = g.queued;
      known = g.known;
      written = g.written;
      client = g.client;
      truthful =
          All-append (Truthful (length t.input) t.spool.head t.down.bytes_written) t.down.callbacks
            (stream_done t.down.bytes_written 0 ∷ []) g.truthful
            ((omega arith, eof, omega arith), tt);
      sends = subst (InFlight t.input t.spool.head (on_fin t.down).0 t.pump _) (sym e) (record {
        from = s.from;
        to = s.to;
        known = inl refl;
        contiguous = s.contiguous;
        to_le = s.to_le;
        honest =
            rw cur (
              All-append (Honest t.down.bytes_written s.to) t.replies (done ∷ []) s.honest
                (tt, tt));
        at_q = s.at_q;
        ended = s.ended;
      });
      offered = g.offered;
      old_from = g.old_from;
      old_to = g.old_to;
      old_known = inl refl;
      old = g.old;
    }

-- A change of phase that leaves the counts as they are.
turned :
    (t : Transfer) (d : Downlink)
    → d.bytes_written ≡ t.down.bytes_written
    → (t.down.phase ≡ returned → d.phase ≡ returned)
    → (tx : Half) → InFlight t.input t.spool.head t.down t.pump t.replies tx
    → InFlight t.input t.spool.head d t.pump t.replies tx
turned t d e f dead h = h
turned t d e f (live wire fin) s = record {
  from = s.from;
  to = s.to;
  known = elim s.known [ inl p ↦ inl (f p) | inr l ↦ inr (omega arith) ];
  contiguous = s.contiguous;
  to_le = s.to_le;
  honest = rw e s.honest;
  at_q = s.at_q;
  ended = s.ended;
}

pub read_error-Good :
    (t : Transfer)
    → Good t
    → t.down.phase ≡ reading
    → Good (record t { down = on_read_error t.down })
unfolding on_read_error
read_error-Good t g p = record {
  valid = g.valid;
  holds = g.holds;
  not_done = g.not_done;
  placed = g.placed;
  queued = g.queued;
  known = g.known;
  written = g.written;
  client = g.client;
  truthful = g.truthful;
  sends = turned t (on_read_error t.down) refl (λ q. absurd (ground (arith, p, q))) t.tx g.sends;
  offered = g.offered;
  old_from = g.old_from;
  old_to = g.old_to;
  old_known = inr (starts t.down g.old_from p g.old_known);
  old = g.old;
}

pub accept-Good :
    (t : Transfer)
    → Good t
    → t.down.phase ≡ awaiting_stream
    → Good (record t { down = on_stream true t.down; current = true; old_wire = [] })
unfolding on_stream
accept-Good t g p = record {
  valid = g.valid;
  holds = g.holds;
  not_done = g.not_done;
  placed = g.placed;
  queued = g.queued;
  known = g.known;
  written = g.written;
  client = g.client;
  truthful = g.truthful;
  sends = turned t (on_stream true t.down) refl (λ q. absurd (ground (arith, p, q))) t.tx g.sends;
  offered = g.offered;
  old_from = 0;
  old_to = 0;
  old_known = inr (omega arith);
  old = refl;
}
