-- ===== src/Transfer/Reader.antt =====
-- The reads of `run_tcp_reader` (quelay-agent/src/active_stream.rs) keep the invariant of a transfer.
use quelay.Common.{
  ℕ, suc, ◌+◌, ◌≤◌, ◌<◌, ◌≡◌, ◌≢◌, refl, sym, ◌∙◌, inl, inr, true, false, List, [], ◌∷◌, ◌++◌,
  append-nil, length, All, All-mono, arith, ◌==◌, Bool-cases, length-append, take-append_le,
  u64_max,
}
use quelay.Framing.{chunk_size}
use quelay.Spool.{SpoolBuffer, has_space, on_tcp_read, push, handle_eof}
use quelay.Spool.Invariant.{on_tcp_read-IsValid}
use quelay.Spool.Window.{Holds, push-Holds, handle_eof-Holds}
use quelay.Pump.{Mode, running, draining, waiting, exited}
use quelay.Pump.Slices.{Contiguous-append}
use quelay.Domain.Callback.{
  chunk_gap, tcp_write, tcp_read, accept_failed, link_lost, reader_gone, peer_said, CallbackCmd,
  stream_done, stream_failed,
}
use quelay.Transfer.{Half, live, dead, Transfer}
use quelay.Transfer.Invariant.{Truthful, Placed, InFlight, Good}

on_tcp_read-Holds :
    (input bs : List ℕ) (s : SpoolBuffer) → Holds input s → Holds (input ++ bs) (on_tcp_read s bs)
unfolding on_tcp_read
on_tcp_read-Holds input [] s h = rw (append-nil input) (handle_eof-Holds input s h)
on_tcp_read-Holds input (b ∷ bs) s h =
    let some_bytes : (suc (length bs) == 0) ≡ false = ground arith in
    rw some_bytes (push-Holds input (b ∷ bs) s h)

on_tcp_read-bytes_acked :
    (bs : List ℕ) (s : SpoolBuffer) → (on_tcp_read s bs).bytes_acked ≡ s.bytes_acked
unfolding on_tcp_read handle_eof push
on_tcp_read-bytes_acked bs s = elim (Bool-cases (length bs == 0)) [
  | inr n ↦ rw n refl
  | inl z ↦ elim (Bool-cases (s.head == u64_max)) [
    | inl e ↦ rw (z, e) refl
    | inr e ↦ rw (z, e) refl
  ]
]

-- Before the end of the input no success has been reported.
Truthful-open :
    (len head w len' head' : ℕ) (cbs : List CallbackCmd)
    → head ≢ u64_max
    → All (Truthful len head w) cbs
    → All (Truthful len' head' w) cbs
Truthful-open len head w len' head' cbs open' h =
    All-mono (Truthful len head w) (Truthful len' head' w) weaker cbs h
  where
    weaker : (cb : CallbackCmd) → Truthful len head w cb → Truthful len' head' w cb
    weaker (stream_done n wire) h = absurd (open' h.1)
    weaker (stream_failed r (chunk_gap x y)) h = absurd h
    weaker (stream_failed r tcp_write) h = tt
    weaker (stream_failed r tcp_read) h = tt
    weaker (stream_failed r accept_failed) h = tt
    weaker (stream_failed r link_lost) h = tt
    weaker (stream_failed r reader_gone) h = tt
    weaker (stream_failed r (peer_said code)) h = tt

Placed-le : (a q len len' : ℕ) (m : Mode) → len ≤ len' → Placed a q len m → Placed a q len' m
Placed-le a q len len' running l h = (h.0, omega (arith, h))
Placed-le a q len len' (draining rest) l h = (h.0, omega (arith, h))
Placed-le a q len len' waiting l h = tt
Placed-le a q len len' exited l h = tt

pub tcp_read-Good :
    (t : Transfer) (bs : List ℕ)
    → Good t
    → t.spool.head ≢ u64_max
    → has_space t.spool ≡ true
    → length bs ≤ chunk_size
    → t.spool.bytes_acked + length t.spool.buf + length bs < u64_max
    → Good (record t { input = t.input ++ bs; spool = on_tcp_read t.spool bs })
tcp_read-Good t bs g open' space le small =
    let more : length (t.input ++ bs) ≡ length t.input + length bs = length-append t.input bs in
    let a = on_tcp_read-bytes_acked bs t.spool in
    let k = g.known in
    let w = g.written in
    record {
      valid = on_tcp_read-IsValid t.spool bs g.valid open' space le small;
      holds = on_tcp_read-Holds t.input bs t.spool g.holds;
      not_done = g.not_done;
      placed = rw a (
          Placed-le t.spool.bytes_acked t.pump.q (length t.input) (length (t.input ++ bs))
            t.pump.mode (omega arith) g.placed);
      queued = g.queued;
      known = rw a k;
      written = omega arith;
      client = g.client ∙ sym (take-append_le t.down.bytes_written t.input bs w);
      truthful =
          Truthful-open (length t.input) t.spool.head t.down.bytes_written (length (t.input ++ bs))
            (on_tcp_read t.spool bs).head t.down.callbacks open' g.truthful;
      sends = sends t.tx g.sends;
      offered = g.offered;
      old_from = g.old_from;
      old_to = g.old_to;
      old_known = g.old_known;
      old = Contiguous-append t.input bs g.old_from g.old_to t.old_wire g.old;
    }
  where
    sends :
        (tx : Half)
        → InFlight t.input t.spool.head t.down t.pump t.replies tx
        → InFlight (t.input ++ bs) (on_tcp_read t.spool bs).head t.down t.pump t.replies tx
    sends dead h = h
    sends (live wire fin) s = record {
      from = s.from;
      to = s.to;
      known = s.known;
      contiguous = Contiguous-append t.input bs s.from s.to wire s.contiguous;
      to_le = let l = s.to_le in omega (arith, length-append t.input bs);
      honest = s.honest;
      at_q = s.at_q;
      ended = λ f. absurd (open' (s.ended f).1);
    }
