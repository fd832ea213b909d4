-- ===== src/Transfer/Silent.antt =====
-- A link that comes back after the pump has exited (quelay-agent/src/active_stream.rs,
-- quelay-agent/src/session_manager.rs): the ack task ends with no word to the client.
use quelay.Common.{ℕ, ◌≡◌, ◌≢◌, refl, ◌∙◌, Bool, true, false, some, [], arith}
use quelay.Framing.{WormholeMsg, ack, done, error}
use quelay.Spool.{SpoolBuffer}
use quelay.Pump.{exited}
use quelay.Uplink.{
  AckTask, AckMsg, reader_msg, stream_error, try_send_finish, on_ack, on_msg, return_with,
}
use quelay.Uplink
use quelay.Domain.Callback.{Cause}
use quelay.Transfer.{
  Half, Transfer, opened, pumped, told, asked, received, reopened, reconnected, Step, tcp_read,
  ticket, drain, command, closed, notify_link_down, reply, ack_stream_error, data_ready, reconnect,
  chunk, old_chunk, fin, read_error, accept_reconnect, Reachable, start, step,
}

-- Nothing is reported before the task ends.
abbrev Untold : AckTask → Type 0
Untold task = task.phase ≢ Uplink.finished → task.callbacks ≡ []

try_send_finish-kept :
    (s : SpoolBuffer) (task : AckTask)
    → ((try_send_finish {Tx = Half} s task).0.phase ≡ task.phase)
      × ((try_send_finish {Tx = Half} s task).0.callbacks ≡ task.callbacks)
unfolding try_send_finish
try_send_finish-kept s task = ground arith

on_ack-callbacks :
    (s : SpoolBuffer) (n : ℕ) (task : AckTask) → (on_ack s n task).1.callbacks ≡ task.callbacks
unfolding on_ack
on_ack-callbacks s n task = ground arith

reply-Untold :
    (wire_end : ℕ) (s : SpoolBuffer) (m : WormholeMsg Cause) (task : AckTask)
    → task.callbacks ≡ []
    → Untold (on_msg {Tx = Half} wire_end s (some ((reader_msg (some m)).0)) task).1
unfolding on_msg reader_msg return_with
reply-Untold wire_end s (ack n) task e p =
    (try_send_finish-kept (on_ack s n task).0 (on_ack s n task).1).1 ∙ on_ack-callbacks s n task ∙ e
reply-Untold wire_end s done task e p = absurd (p refl)
reply-Untold wire_end s (error code why) task e p = absurd (p refl)

module _ (unknown_code : ℕ) where
  Step-Untold : {t t' : Transfer} → Step unknown_code t t' → Untold t.task → Untold t'.task
  unfolding pumped told asked received reconnected on_msg Uplink.on_stream
  Step-Untold (tcp_read bs o s l b) u p = u p
  Step-Untold (ticket budget) u p = u p
  Step-Untold (drain ok seam remaining r m e) u p = u p
  Step-Untold (command cmd rest e m) u p = u p
  Step-Untold (closed f e m) u p = u p
  Step-Untold notify_link_down u p = u p
  Step-Untold {t = t} (reply wire_end m rest l e) u p =
      reply-Untold wire_end t.spool m t.task (u (λ f. cc)) p
  Step-Untold {t = t} (ack_stream_error wire_end l) u p =
      (try_send_finish-kept t.spool t.task).1 ∙ u (λ f. cc)
  Step-Untold {t = t} data_ready u p =
      let (phase, callbacks) = try_send_finish-kept t.spool t.task in
      callbacks ∙ u (λ f. p (phase ∙ f))
  Step-Untold {t = t} (reconnect r) u p = reopened-callbacks _ t (u (λ f. cc))
    where
      reopened-callbacks :
          (pump_ok : Bool) (t : Transfer)
          → t.task.callbacks ≡ []
          → (reopened pump_ok t).task.callbacks ≡ []
      reopened-callbacks true t e =
          (try_send_finish-kept t.spool
            (record t.task { finish_sent = false; phase = Uplink.listening })).1
          ∙ e
      reopened-callbacks false t e = e
  Step-Untold (chunk ok c wire f p' cur e) u p = u p
  Step-Untold (old_chunk ok c wire p' cur e) u p = u p
  Step-Untold (fin p' cur e) u p = u p
  Step-Untold (read_error p') u p = u p
  Step-Untold (accept_reconnect p' cur d) u p = u p

  Reachable-Untold : (w : ℕ) (t : Transfer) → Reachable unknown_code w t → Untold t.task
  unfolding opened Uplink.new
  Reachable-Untold w _ start p = refl
  Reachable-Untold w _ (step r s) p = Step-Untold s (Reachable-Untold w _ r) p

  -- What may follow.
  pub data Later (t : Transfer) : Transfer → Type 0 where
    now : Later t t
    later : {u v : Transfer} → Later t u → Step unknown_code u v → Later t v

  record Ended (task : AckTask) : Type 0 where
    over : task.phase ≡ Uplink.finished
    silent : task.callbacks ≡ []

  Step-Ended : {t t' : Transfer} → Step unknown_code t t' → Ended t.task → Ended t'.task
  unfolding pumped told asked received reconnected
  Step-Ended (tcp_read bs o s l b) e = e
  Step-Ended (ticket budget) e = e
  Step-Ended (drain ok seam remaining r m q) e = e
  Step-Ended (command cmd rest q m) e = e
  Step-Ended (closed f q m) e = e
  Step-Ended notify_link_down e = e
  Step-Ended (reply wire_end m rest l q) e = absurd (let f = e.over in cc)
  Step-Ended (ack_stream_error wire_end l) e = absurd (let f = e.over in cc)
  Step-Ended {t = t} data_ready e =
      let (phase, callbacks) = try_send_finish-kept t.spool t.task in
      record { over = phase ∙ e.over; silent = callbacks ∙ e.silent }
  Step-Ended (reconnect r) e = absurd (let f = e.over in cc)
  Step-Ended (chunk ok c wire f p cur q) e = e
  Step-Ended (old_chunk ok c wire p cur q) e = e
  Step-Ended (fin p cur q) e = e
  Step-Ended (read_error p) e = e
  Step-Ended (accept_reconnect p cur d) e = e

  Later-Ended : {t t' : Transfer} → Ended t.task → Later t t' → Ended t'.task
  Later-Ended e now = e
  Later-Ended e (later l s) = Step-Ended s (Later-Ended e l)

  -- In every reachable state in which the pump has exited and the ack task waits for a stream, the
  -- reconnection ends the ack task, and whatever follows, it has reported neither the end nor the
  -- failure of the stream to the client.
  pub late_link_is_silent :
      (w : ℕ) (t t' : Transfer)
      → Reachable unknown_code w t
      → t.task.phase ≡ Uplink.reconnecting
      → t.pump.mode ≡ exited
      → Later (reconnected t) t'
      → (t'.task.phase ≡ Uplink.finished) × (t'.task.callbacks ≡ [])
  unfolding reconnected Uplink.on_stream
  late_link_is_silent w t t' r p m l =
      let untold = Reachable-Untold w t r (λ f. cc) in
      let ended : Ended (reconnected t).task = rw m (record { over = refl; silent = untold }) in
      let e = Later-Ended ended l in (e.over, e.silent)
