-- ===== src/Transfer/Receiver.antt =====
-- The steps of the receiver (`run_downlink`, `deliver_reconnect_stream`:
-- quelay-agent/src/active_stream.rs) keep the invariant of a transfer.
use quelay.Common.{
  ℕ, ◌≤◌, ◌≡◌, sym, ◌⊎◌, inl, inr, Bool, true, false, List, [], ◌∷◌, ◌++◌, length, All, All-append,
  arith, if◌then◌else◌, subst,
}
use quelay.Framing.{Chunk}
use quelay.Pump.Slices.{Contiguous, chunk_end, Contiguous-le}
use quelay.Downlink.{Downlink, Replies, reading, returned, on_chunk}
use quelay.Downlink.Replay.{Honest, Received, on_chunk-Received}
use quelay.Domain.Callback.{unknown, tcp_write, stream_failed}
use quelay.Transfer.{Half, live, dead, Transfer, received}
use quelay.Transfer.Invariant.{
  Truthful, Queued, Sends, InFlight, Good, Honest-mono, Honest-far, Truthful-mono,
}

-- What the receiver does with a chunk, where `tx'` and `old_wire'` are left in flight.
delivered :
    (t : Transfer) (e : ℕ) (r : Downlink × Replies) (tx' : Half) (old_wire' : List Chunk)
    (old_from old_to : ℕ)
    → Good t
    → Received t.input t.down e r
    → Queued tx' t.commands
    → InFlight t.input t.spool.head r.0 t.pump
        (if t.current then t.replies ++ r.1 else t.replies)
        tx'
    → (r.0.phase ≡ returned) ⊎ (old_from ≤ r.0.bytes_written)
    → Contiguous t.input old_from old_wire' old_to
    → Good (received (record t { tx = tx'; old_wire = old_wire' }) r)
unfolding received
delivered t e r tx' old_wire' old_from old_to g v q flight lo c =
    let k = g.known in
    let o = g.offered in
    let grows = v.grows in
    record {
      valid = g.valid;
      holds = g.holds;
      not_done = g.not_done;
      placed = g.placed;
      queued = q;
      known = omega arith;
      written = v.within;
      client = v.client;
      truthful =
          let kept =
            Truthful-mono (length t.input) t.spool.head t.down.bytes_written r.0.bytes_written
              t.down.callbacks v.grows g.truthful in
          elim v.callbacks [
            | inl e ↦
                subst (All (Truthful (length t.input) t.spool.head r.0.bytes_written)) (sym e) kept
            | inr e ↦
                subst (All (Truthful (length t.input) t.spool.head r.0.bytes_written)) (sym e) (
                  All-append (Truthful (length t.input) t.spool.head r.0.bytes_written)
                    t.down.callbacks (stream_failed unknown tcp_write ∷ []) kept (tt, tt))
          ];
      sends = flight;
      offered = omega arith;
      old_from = old_from;
      old_to = old_to;
      old_known = lo;
      old = c;
    }

reads_on :
    (input : List ℕ) (d : Downlink) (e : ℕ) (r : Downlink × Replies) (from : ℕ)
    → Received input d e r
    → d.phase ≡ reading
    → (d.phase ≡ returned) ⊎ (from ≤ d.bytes_written)
    → (r.0.phase ≡ returned) ⊎ (from ≤ r.0.bytes_written)
reads_on input d e r from v p (inl q) = absurd (ground (arith, p, q))
reads_on input d e r from v p (inr l) = let g = v.grows in inr (omega arith)

progresses :
    (input : List ℕ) (d : Downlink) (e : ℕ) (r : Downlink × Replies)
    → Received input d e r
    → (r.0.phase ≡ returned) ⊎ (e ≤ r.0.bytes_written)
progresses input d e r v = elim v.progress [ inl p ↦ inl p | inr l ↦ inr (omega arith) ]

pub starts :
    (d : Downlink) (from : ℕ)
    → d.phase ≡ reading
    → (d.phase ≡ returned) ⊎ (from ≤ d.bytes_written)
    → from ≤ d.bytes_written
starts d from p (inl q) = absurd (ground (arith, p, q))
starts d from p (inr l) = l

module _ (unknown_code : ℕ) where
  pub chunk-Good :
      (t : Transfer) (tcp_ok : Bool) (c : Chunk) (wire : List Chunk) (fin : Bool)
      → Good t
      → t.down.phase ≡ reading
      → t.current ≡ true
      → t.tx ≡ live (c ∷ wire) fin
      → Good (received (record t { tx = live wire fin }) (on_chunk unknown_code tcp_ok t.down c))
  chunk-Good t tcp_ok c wire fin g p cur e =
      let s : Sends t.input t.spool.head t.down t.pump t.replies (c ∷ wire) fin =
        subst (InFlight t.input t.spool.head t.down t.pump t.replies) e g.sends in
      let (o, slice, rest) = s.contiguous in
      let lo = starts t.down s.from p s.known in
      let r = on_chunk unknown_code tcp_ok t.down c in
      let (v, _) =
        on_chunk-Received unknown_code tcp_ok t.input t.down c slice (omega arith) g.written
          g.client in
      let far = Contiguous-le t.input (chunk_end c) s.to wire rest in
      delivered t (chunk_end c) r (live wire fin) t.old_wire g.old_from g.old_to g v
        (subst (λ tx. Queued tx t.commands) e g.queued)
        (record {
          from = chunk_end c;
          to = s.to;
          known = progresses t.input t.down (chunk_end c) r v;
          contiguous = rest;
          to_le = s.to_le;
          honest = rw cur (
              All-append (Honest r.0.bytes_written s.to) t.replies r.1
                (Honest-mono t.down.bytes_written r.0.bytes_written s.to t.replies v.grows s.honest)
                (Honest-far r.0.bytes_written (chunk_end c) s.to r.1 far v.honest));
          at_q = s.at_q;
          ended = s.ended;
        })
        (reads_on t.input t.down (chunk_end c) r g.old_from v p g.old_known) g.old

  pub old_chunk-Good :
      (t : Transfer) (tcp_ok : Bool) (c : Chunk) (wire : List Chunk)
      → Good t
      → t.down.phase ≡ reading
      → t.current ≡ false
      → t.old_wire ≡ c ∷ wire
      → Good (received (record t { old_wire = wire }) (on_chunk unknown_code tcp_ok t.down c))
  old_chunk-Good t tcp_ok c wire g p cur e =
      let (o, slice, rest) = subst (λ w. Contiguous t.input g.old_from w g.old_to) e g.old in
      let lo = starts t.down g.old_from p g.old_known in
      let r = on_chunk unknown_code tcp_ok t.down c in
      let (v, _) =
        on_chunk-Received unknown_code tcp_ok t.input t.down c slice (omega arith) g.written
          g.client in
      delivered t (chunk_end c) r t.tx wire (chunk_end c) g.old_to g v g.queued
        (rw cur (keeps t r (chunk_end c) v p t.tx g.sends))
        (progresses t.input t.down (chunk_end c) r v) rest
    where
      keeps :
          (t : Transfer) (r : Downlink × Replies) (e : ℕ)
          → Received t.input t.down e r
          → t.down.phase ≡ reading
          → (tx : Half) → InFlight t.input t.spool.head t.down t.pump t.replies tx
          → InFlight t.input t.spool.head r.0 t.pump t.replies tx
      keeps t r e v p dead h = h
      keeps t r e v p (live w f) s = record {
        from = s.from;
        to = s.to;
        known = reads_on t.input t.down e r s.from v p s.known;
        contiguous = s.contiguous;
        to_le = s.to_le;
        honest = Honest-mono t.down.bytes_written r.0.bytes_written s.to t.replies v.grows s.honest;
        at_q = s.at_q;
        ended = s.ended;
      }
