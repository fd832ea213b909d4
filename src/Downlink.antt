-- ===== src/Downlink.antt =====
-- `run_downlink` and `deliver_reconnect_stream` of quelay-agent/src/active_stream.rs: the receiver of
-- one stream. `unknown_code` is the number of `FailReason::UNKNOWN`.
pub mod Replay
pub mod Tests
use quelay.Common.{
  ℕ, ◌+◌, ◌-◌, Bool, true, false, not, Option, none, some, List, [], ◌∷◌, ◌++◌, length, drop, ltb,
  leb, ◌==◌, if◌then◌else◌,
}
use quelay.Framing.{ack_interval, Chunk, WormholeMsg, ack, done, error}
use quelay.Domain.Callback.{
  FailReason, unknown, link_failed, Cause, chunk_gap, tcp_write, link_lost, CallbackCmd,
  stream_done, stream_failed,
}

-- Reading chunks, waiting for a stream after an error, or returned.
pub data Phase : Type 0 where
  reading awaiting_stream returned : Phase

-- `client` is what has been written to the client's socket, `callbacks` what has been fired.
pub record Downlink : Type 0 where
  pub bytes_written : ℕ
  pub last_acked : ℕ
  pub phase : Phase
  pub client : List ℕ
  pub callbacks : List CallbackCmd

-- What goes back to the sender.
abbrev pub Replies : Type 0
Replies = List (WormholeMsg Cause)

-- `bytes_written` starts from the handle's atomic, which is new with the handle.
unfoldable pub started : Downlink
started = record { bytes_written = 0; last_acked = 0; phase = reading; client = []; callbacks = [] }

unfoldable pub periodic_ack : Downlink → Downlink × Replies
periodic_ack d =
    if leb ack_interval (d.bytes_written - d.last_acked)
    then (record d { last_acked = d.bytes_written }, ack d.bytes_written ∷ [])
    else (d, [])

unfoldable pub fire : CallbackCmd → Downlink → Downlink
fire cb d = record d { phase = returned; callbacks = d.callbacks ++ cb ∷ [] }

module _ (unknown_code : ℕ) where
  unfoldable pub give_up : Cause → Downlink → Downlink × Replies
  unfolding fire
  give_up why d = (fire (stream_failed unknown why) d, error unknown_code why ∷ [])

  -- The write of the trimmed payload, and the periodic acknowledgement.
  unfoldable pub write_new : Bool → Downlink → List ℕ → Downlink × Replies
  unfolding give_up periodic_ack
  write_new tcp_ok d to_write =
      if length to_write == 0
      then periodic_ack d
      else if tcp_ok
      then periodic_ack (record d {
        bytes_written = d.bytes_written + length to_write;
        client = d.client ++ to_write;
      })
      else give_up tcp_write d

  -- `Ok(Some(chunk))`; `tcp_ok` is the outcome of the write to the client's socket.
  unfoldable pub on_chunk : Bool → Downlink → Chunk → Downlink × Replies
  unfolding give_up write_new
  on_chunk tcp_ok d c =
      if leb (c.stream_offset + length c.payload) d.bytes_written
      then (d, [])
      else (let skip =
            if ltb c.stream_offset d.bytes_written then d.bytes_written - c.stream_offset else 0 in
          if ltb d.bytes_written c.stream_offset
          then give_up (chunk_gap d.bytes_written c.stream_offset) d
          else write_new tcp_ok d (drop skip c.payload))

-- `Ok(None)`: the end of the sender's half.
unfoldable pub on_fin : Downlink → Downlink × Replies
unfolding fire
on_fin d = (fire (stream_done d.bytes_written 0) d, done ∷ [])

-- `Err(e)`, and what `stream_rx.recv()` then gives: a fresh stream, or that the handle is gone.
unfoldable pub on_read_error : Downlink → Downlink
on_read_error d = record d { phase = awaiting_stream }

unfoldable pub on_stream : Bool → Downlink → Downlink
unfolding fire
on_stream true d = record d { phase = reading }
on_stream false d = fire (stream_failed link_failed link_lost) d

-- Whether `deliver_reconnect_stream` hands the stream on, where the channel has room.
unfoldable pub deliver_reconnect_stream : ℕ → ℕ → Bool
deliver_reconnect_stream bytes_written replay_from = not (ltb bytes_written replay_from)
