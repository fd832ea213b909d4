-- ===== src/Uplink.antt =====
-- `AckTask` of quelay-agent/src/active_stream.rs: the sender's feedback loop, which advances the spool
-- and commands the pump. Its sends to the pump are values: the commands in order.
pub mod Reports
pub mod Tests
use quelay.Common.{
  ℕ, ◌-◌, max, Bool, true, false, ◌&&◌, not, Option, none, some, List, [], ◌∷◌, ◌++◌, ltb, ◌==◌,
  if◌then◌else◌, u64_max,
}
use quelay.Framing.{WormholeMsg, error}
use quelay.Framing
use quelay.Spool.{SpoolBuffer}
use quelay.Spool
use quelay.Pump.{RateCmd, link_down, link_up, finish}
use quelay.Domain.Callback.{
  link_failed, from_peer, Cause, link_lost, reader_gone, peer_said, CallbackCmd, stream_done,
  stream_failed,
}

-- In the loop of `run_inner`, in the loop of `on_stream_error`, or returned: then `run` deregisters
-- the stream and reports `StreamFinished`.
pub data Phase : Type 0 where
  listening reconnecting finished : Phase

pub record AckTask : Type 0 where
  pub bytes_sent : ℕ
  pub finish_sent : Bool
  pub wire_bytes_start : ℕ
  pub phase : Phase
  pub callbacks : List CallbackCmd

-- What the ack reader forwards.
pub data AckMsg : Type 0 where
  ack : ℕ → AckMsg
  done : AckMsg
  failed : ℕ → AckMsg
  stream_error : AckMsg

-- `spawn_reader`: the message for what `read_wormhole_msg` gives (`none` is an error), and whether
-- the reader goes on with this read half.
unfoldable pub reader_msg : Option (WormholeMsg Cause) → AckMsg × Bool
reader_msg (some (Framing.ack n)) = (ack n, true)
reader_msg (some Framing.done) = (done, false)
reader_msg (some (error code why)) = (failed code, false)
reader_msg none = (stream_error, false)

unfoldable pub new : ℕ → AckTask
new wire_bytes = record {
  bytes_sent = 0;
  finish_sent = false;
  wire_bytes_start = wire_bytes;
  phase = listening;
  callbacks = [];
}

unfoldable pub return_with : CallbackCmd → AckTask → AckTask
return_with cb t = record t { phase = finished; callbacks = t.callbacks ++ cb ∷ [] }

unfoldable pub on_ack : SpoolBuffer → ℕ → AckTask → SpoolBuffer × AckTask
on_ack s bytes_received t = (
  Spool.ack s bytes_received,
  if ltb s.bytes_acked bytes_received
      then record t { bytes_sent = max t.bytes_sent bytes_received }
      else t,
)

module _ {Tx : Type 0} where
  unfoldable pub try_send_finish : SpoolBuffer → AckTask → AckTask × List (RateCmd Tx)
  try_send_finish s t =
      if t.finish_sent
      then (t, [])
      else if s.head == u64_max
      then (record t { finish_sent = true }, finish ∷ [])
      else (t, [])

  -- A message in `run_inner`, `none` when the reader is gone; `wire_end` is the count of wire bytes.
  -- `on_stream_error` is the commands before it waits.
  unfoldable pub on_msg :
      ℕ → SpoolBuffer → Option AckMsg → AckTask → SpoolBuffer × AckTask × List (RateCmd Tx)
  unfolding try_send_finish on_ack return_with
  on_msg wire_end s (some (ack n)) t =
      let (s, t) = on_ack s n t in let (t, cmds) = try_send_finish s t in (s, t, cmds)
  on_msg wire_end s (some done) t =
      (s, return_with (stream_done t.bytes_sent (wire_end - t.wire_bytes_start)) t, [])
  on_msg wire_end s (some (failed code)) t =
      (s, return_with (stream_failed (from_peer code) (peer_said code)) t, [])
  on_msg wire_end s (some stream_error) t =
      let (t, cmds) = try_send_finish s t in
      (s, record t { phase = reconnecting }, link_down ∷ cmds)
  on_msg wire_end s none t =
      let (t, cmds) = try_send_finish s t in
      (s, return_with (stream_failed link_failed reader_gone) t, cmds)

  -- `stream_rx.recv()` in `on_stream_error`, and what `run_inner` then does: the fresh write half for
  -- the pump, or the end. The sends to the ack reader and to the pump succeed by `reader_ok` and
  -- `pump_ok`.
  unfoldable pub on_stream :
      Bool → Bool → SpoolBuffer → Option Tx → AckTask → AckTask × List (RateCmd Tx)
  unfolding try_send_finish return_with
  on_stream reader_ok pump_ok s (some tx) t =
      if not (reader_ok && pump_ok)
      then (record t { phase = finished }, [])
      else (let t = record t { finish_sent = false; phase = listening } in
          let (t, cmds) = try_send_finish s t in (t, link_up tx ∷ cmds))
  on_stream reader_ok pump_ok s none t = (return_with (stream_failed link_failed link_lost) t, [])

-- What wakes the task, with the spool at that moment: a message of the ack reader, new data or the end of
-- the input, and a fresh stream while the task waits for one.
pub data Event (Tx : Type 0) : Type 0 where
  message : ℕ → SpoolBuffer → Option AckMsg → Event Tx
  data_ready : SpoolBuffer → Event Tx
  stream : Bool → Bool → SpoolBuffer → Option Tx → Event Tx

module _ {Tx : Type 0} where
  -- The `select` of the loop that the task is in.
  unfoldable pub on_event : Phase → Event Tx → AckTask → AckTask × List (RateCmd Tx)
  unfolding on_msg on_stream try_send_finish
  on_event listening (message wire_end s m) t =
      let (s', t', cmds) = on_msg wire_end s m t in (t', cmds)
  on_event listening (data_ready s) t = try_send_finish s t
  on_event listening (stream reader_ok pump_ok s tx) t = (t, [])
  on_event reconnecting (message wire_end s m) t = (t, [])
  on_event reconnecting (data_ready s) t = try_send_finish s t
  on_event reconnecting (stream reader_ok pump_ok s tx) t = on_stream reader_ok pump_ok s tx t
  on_event finished e t = (t, [])

  unfoldable pub run : List (Event Tx) → AckTask → AckTask × List (RateCmd Tx)
  unfolding on_event
  run [] t = (t, [])
  run (e ∷ es) t =
      let (t', cmds) = on_event t.phase e t in let (t'', later) = run es t' in (t'', cmds ++ later)
