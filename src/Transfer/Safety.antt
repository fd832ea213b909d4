-- ===== src/Transfer/Safety.antt =====
-- What a transfer guarantees whatever the interleaving, the losses of the link and the reconnections
-- (quelay-agent/src/active_stream.rs, quelay-agent/src/rate_limiter.rs).
use quelay.Common.{
  ℕ, ◌≤◌, ◌≡◌, refl, sym, ◌∙◌, Bool, true, some, length, take, arith, take_all, Occurs, All-Occurs,
  le→ltb_false, u64_max,
}
use quelay.Spool.Invariant.{head_offset-IsValid}
use quelay.Spool.Window.{Holds-length}
use quelay.Pump.{draining, StreamPump, drain_step}
use quelay.Pump.Drain.{drain_step_cases}
use quelay.Downlink.{deliver_reconnect_stream}
use quelay.Domain.Callback.{FailReason, stream_done, stream_failed, chunk_gap}
use quelay.Transfer.{
  Half, half, Transfer, Step, tcp_read, ticket, drain, command, closed, notify_link_down, reply,
  ack_stream_error, data_ready, reconnect, chunk, old_chunk, fin, read_error, accept_reconnect,
  Reachable, start, step,
}
use quelay.Transfer.Invariant.{Good, opened-Good, Truthful}
use quelay.Transfer.Reader.{tcp_read-Good}
use quelay.Transfer.Feedback.{
  notify-Good, data_ready-Good, stream_error-Good, reply-Good, reconnect-Good,
}
use quelay.Transfer.Pumping.{not_exited, draining≢exited, ticket-Good, drain-Good}
use quelay.Transfer.Commands.{command-Good, closed-Good}
use quelay.Transfer.Receiver.{chunk-Good, old_chunk-Good}
use quelay.Transfer.Endings.{fin-Good, read_error-Good, accept-Good}

module _ (unknown_code : ℕ) where
  Step-Good : (t t' : Transfer) → Step unknown_code t t' → Good t → Good t'
  Step-Good t _ (tcp_read bs o s l b) g = tcp_read-Good t bs g o s l b
  Step-Good t _ (ticket budget) g = ticket-Good t budget g
  Step-Good t _ (drain ok seam remaining r m e) g = drain-Good t ok seam remaining r g m e
  Step-Good t _ (command cmd rest e m) g = command-Good t cmd rest g e m
  Step-Good t _ (closed f e m) g = closed-Good t g m
  Step-Good t _ notify_link_down g = notify-Good t g
  Step-Good t _ (reply wire_end m rest l e) g = reply-Good t wire_end m rest g e
  Step-Good t _ (ack_stream_error wire_end l) g = stream_error-Good t wire_end g
  Step-Good t _ data_ready g = data_ready-Good t g
  Step-Good t _ (reconnect p) g = reconnect-Good t g
  Step-Good t _ (chunk ok c wire f p cur e) g = chunk-Good unknown_code t ok c wire f g p cur e
  Step-Good t _ (old_chunk ok c wire p cur e) g = old_chunk-Good unknown_code t ok c wire g p cur e
  Step-Good t _ (fin p cur e) g = fin-Good t g p cur e
  Step-Good t _ (read_error p) g = read_error-Good t g p
  Step-Good t _ (accept_reconnect p cur d) g = accept-Good t g p

  Reachable-Good : (w : ℕ) (t : Transfer) → Reachable unknown_code w t → Good t
  Reachable-Good w _ start = opened-Good w
  Reachable-Good w _ (step {t} {t'} r s) = Step-Good t t' s (Reachable-Good w t r)

  -- At every moment the receiving client has the first `bytes_written` bytes of what the sending
  -- client has sent, in order and once each.
  pub delivered_prefix :
      (w : ℕ) (t : Transfer)
      → Reachable unknown_code w t
      → (t.down.client ≡ take t.down.bytes_written t.input)
        × (t.down.bytes_written ≤ length t.input)
  delivered_prefix w t r = let g = Reachable-Good w t r in (g.client, g.written)

  -- When the receiver reports that a stream is done, the sending client has ended its input, the
  -- receiving client has all of it, and the number reported is its length. A write half that is
  -- dropped counts as a read error here and not as FIN.
  pub done_is_complete :
      (w : ℕ) (t : Transfer) (n wire : ℕ)
      → Reachable unknown_code w t
      → Occurs (stream_done n wire) t.down.callbacks
      → (t.down.client ≡ t.input) × (n ≡ length t.input) × (t.spool.head ≡ u64_max)
  done_is_complete w t n wire r m =
      let g = Reachable-Good w t r in
      let (e, eof, l) =
        All-Occurs (Truthful (length t.input) t.spool.head t.down.bytes_written) t.down.callbacks
          (stream_done n wire) g.truthful m in
      (g.client ∙ take_all t.down.bytes_written t.input (omega arith), e, eof)

  -- The receiver never finds a gap in the chunks, also after a reconnection.
  pub no_gap :
      (w : ℕ) (t : Transfer) (why : FailReason) (expected got : ℕ)
      → Reachable unknown_code w t
      → ¬ Occurs (stream_failed why (chunk_gap expected got)) t.down.callbacks
  no_gap w t why expected got r m =
      let g = Reachable-Good w t r in
      All-Occurs (Truthful (length t.input) t.spool.head t.down.bytes_written) t.down.callbacks
        (stream_failed why (chunk_gap expected got)) g.truthful m

  -- The sender frees no byte that the receiver has not written to its client, and the offset from
  -- which it offers to replay after a reconnection is always accepted.
  pub replay_is_accepted :
      (w : ℕ) (t : Transfer)
      → Reachable unknown_code w t
      → (t.spool.bytes_acked ≤ t.down.bytes_written)
        × (deliver_reconnect_stream t.down.bytes_written t.offer ≡ true)
  unfolding deliver_reconnect_stream
  replay_is_accepted w t r =
      let g = Reachable-Good w t r in
      (g.known, rw (le→ltb_false t.down.bytes_written t.offer g.offered) refl)

  -- The pump never reads outside the spool: each pass of its loop returns.
  pub pump_never_panics :
      (w : ℕ) (t : Transfer) (ok : Bool) (seam remaining : ℕ)
      → Reachable unknown_code w t
      → t.pump.mode ≡ draining remaining
      → (r : Half × StreamPump) × (drain_step (half ok) seam t.spool remaining (t.tx, t.pump)
          ≡ some r)
  pump_never_panics w t ok seam remaining r m =
      let g = Reachable-Good w t r in
      let p = rw m at g.placed in
      let top = head_offset-IsValid t.spool g.valid ∙ Holds-length t.input t.spool g.holds in
      let d = not_exited t.pump.mode g.not_done (λ x. draining≢exited remaining (sym m ∙ x)) in
      let (r', e, c) =
        drain_step_cases (half ok) t.spool t.input top seam remaining t.tx t.pump d g.holds p.0
          p.1 in
      (r', e)
