-- ===== src/Transfer.antt =====
-- One transfer from end to end: the client's bytes through `SpoolBuffer`, `StreamPump`, the QUIC
-- stream and `run_downlink` to the other client, with `AckTask`'s feedback, under loss of the link at
-- any moment and reconnection (quelay-agent/src/active_stream.rs, quelay-agent/src/rate_limiter.rs,
-- and `restore_active` of quelay-agent/src/session_manager.rs). The tasks run concurrently: each
-- section that holds a lock, and each receipt of a message, is one step.
pub mod Invariant
pub mod Reader
pub mod Feedback
pub mod Pumping
pub mod Commands
pub mod Receiver
pub mod Endings
pub mod Safety
pub mod Silent
pub mod Tests
use quelay.Common.{
  ℕ, ◌+◌, ◌≡◌, ◌≢◌, ◌≤◌, ◌<◌, ◌⊎◌, Bool, true, false, Option, none, some, List, [], ◌∷◌, ◌++◌, map,
  length, if◌then◌else◌, u64_max,
}
use quelay.Framing.{chunk_size, Chunk, WormholeMsg}
use quelay.Spool.{SpoolBuffer, has_space, on_tcp_read}
use quelay.Spool
use quelay.Pump.{
  WriteHalf, Mode, running, draining, waiting, exited, StreamPump, RateCmd, link_down, link_up,
  finish, drain_step, on_ticket, on_cmd,
}
use quelay.Uplink.{AckTask, stream_error, reader_msg, on_msg, try_send_finish}
use quelay.Uplink
use quelay.Downlink.{
  Downlink, Phase, reading, awaiting_stream, started, on_chunk, on_fin, on_read_error,
  deliver_reconnect_stream,
}
use quelay.Downlink
use quelay.Domain.Callback.{Cause}

-- A write half as its writer sees it: the chunks written and not yet read, and whether FIN is sent;
-- `dead` is a half whose stream the sender has given up.
pub data Half : Type 0 where
  live : List Chunk → Bool → Half
  dead : Half

-- `ok` tells whether a write to it succeeds now.
unfoldable pub half_write : Bool → Half → Chunk → Option Half
half_write false h c = none
half_write true (live wire fin) c = some (live (wire ++ c ∷ []) fin)
half_write true dead c = some dead

unfoldable pub half_shutdown : Half → Half
half_shutdown (live wire fin) = live wire true
half_shutdown dead = dead

abbrev pub half : Bool → WriteHalf
half ok = record { Tx = Half; write = half_write ok; shutdown = half_shutdown }

-- A fresh stream replaces all earlier ones.
unfoldable pub give_up : RateCmd Half → RateCmd Half
give_up link_down = link_down
give_up (link_up h) = link_up dead
give_up finish = finish

-- `input` is what the client has sent; `commands` and `replies` are in flight to the pump and to the
-- ack reader. `current` tells whether the receiver reads the sender's newest stream: else it reads
-- `old_wire`, what is left of an older one, until it accepts the offer to replay from `offer`.
pub record Transfer : Type 0 where
  pub input : List ℕ
  pub spool : SpoolBuffer
  pub tx : Half
  pub pump : StreamPump
  pub commands : List (RateCmd Half)
  pub task : AckTask
  pub replies : List (WormholeMsg Cause)
  pub down : Downlink
  pub current : Bool
  pub offer : ℕ
  pub old_wire : List Chunk

-- `spawn_uplink` and `spawn_downlink_from`, with a count of wire bytes.
unfoldable pub opened : ℕ → Transfer
opened wire_bytes = record {
  input = [];
  spool = Spool.new;
  tx = live [] false;
  pump = record { q = 0; done = false; finishing = false; mode = running };
  commands = [];
  task = Uplink.new wire_bytes;
  replies = [];
  down = started;
  current = true;
  offer = 0;
  old_wire = [];
}

-- The pump's results in place.
unfoldable pub pumped : Transfer → Half × StreamPump → Transfer
pumped t (tx', pump') = record t { tx = tx'; pump = pump' }

-- `on_msg`'s results in place.
unfoldable pub told : Transfer → SpoolBuffer × AckTask × List (RateCmd Half) → Transfer
told t (spool', task', sent) = record t {
  spool = spool';
  task = task';
  commands = t.commands ++ sent;
}

unfoldable pub asked : Transfer → AckTask × List (RateCmd Half) → Transfer
asked t (task', sent) = record t { task = task'; commands = t.commands ++ sent }

-- The replies on the newest stream reach the sender; those on an older one are lost.
unfoldable pub received : Transfer → Downlink.Downlink × Downlink.Replies → Transfer
received t (down', sent) = record t {
  down = down';
  replies = if t.current then t.replies ++ sent else t.replies;
}

-- The pump's end of its command channel is there until it exits.
abbrev pump_alive : Mode → Bool
pump_alive running = true
pump_alive (draining remaining) = true
pump_alive waiting = true
pump_alive exited = false

-- `restore_active` opens a stream with the header `replay_from = A`, and the ack task takes it: the fresh
-- write half goes to the pump, or is dropped where the pump has exited. To the receiver a dropped half
-- ends with a read error; that quinn finishes a stream whose half is dropped is left out.
abbrev pub reopened : Bool → Transfer → Transfer
reopened pump_ok t =
    let (task', sent) = Uplink.on_stream true pump_ok t.spool (some (live [] false)) t.task in
    record t {
      tx = dead;
      commands = map give_up t.commands ++ sent;
      task = task';
      replies = [];
      current = false;
      offer = t.spool.bytes_acked;
      old_wire = if t.current then (elim t.tx [ live wire fin ↦ wire | dead ↦ [] ]) else t.old_wire;
    }

unfoldable pub reconnected : Transfer → Transfer
reconnected t = reopened (pump_alive t.pump.mode) t

module _ (unknown_code : ℕ) where
  pub data Step (t : Transfer) : Transfer → Type 0 where
    -- `run_tcp_reader`: no byte is the end, or a read error, which ends the input as well.
    tcp_read :
        (bs : List ℕ)
        → t.spool.head ≢ u64_max
        → has_space t.spool ≡ true
        → length bs ≤ chunk_size
        → t.spool.bytes_acked + length t.spool.buf + length bs < u64_max
        → Step t (record t { input = t.input ++ bs; spool = on_tcp_read t.spool bs })
    -- The pump.
    ticket : (budget : ℕ) → Step t (record t { pump = on_ticket (some budget) t.pump })
    drain :
        (ok : Bool) (seam remaining : ℕ) (r : Half × StreamPump)
        → t.pump.mode ≡ draining remaining
        → drain_step (half ok) seam t.spool remaining (t.tx, t.pump) ≡ some r
        → Step t (pumped t r)
    command :
        (cmd : RateCmd Half) (rest : List (RateCmd Half))
        → t.commands ≡ cmd ∷ rest
        → (t.pump.mode ≡ running) ⊎ (t.pump.mode ≡ waiting)
        → Step t (
            pumped
              (record t { commands = rest })
              (on_cmd (half true) t.spool (some cmd) (t.tx, t.pump)))
    -- The ack task has returned, and its end of the queue is dropped.
    closed :
        t.task.phase ≡ Uplink.finished
        → t.commands ≡ []
        → (t.pump.mode ≡ running) ⊎ (t.pump.mode ≡ waiting)
        → Step t (pumped t (on_cmd (half true) t.spool none (t.tx, t.pump)))
    notify_link_down : Step t (record t { commands = t.commands ++ link_down ∷ [] })
    -- The ack task.
    reply :
        (wire_end : ℕ) (m : WormholeMsg Cause) (rest : List (WormholeMsg Cause))
        → t.task.phase ≡ Uplink.listening
        → t.replies ≡ m ∷ rest
        → Step t (
            told
              (record t { replies = rest })
              (on_msg wire_end t.spool (some ((reader_msg (some m)).0)) t.task))
    ack_stream_error :
        (wire_end : ℕ)
        → t.task.phase ≡ Uplink.listening
        → Step t (told t (on_msg wire_end t.spool (some stream_error) t.task))
    data_ready : Step t (asked t (try_send_finish t.spool t.task))
    reconnect : t.task.phase ≡ Uplink.reconnecting → Step t (reconnected t)
    -- The downlink.
    chunk :
        (tcp_ok : Bool) (c : Chunk) (wire : List Chunk) (fin : Bool)
        → t.down.phase ≡ reading
        → t.current ≡ true
        → t.tx ≡ live (c ∷ wire) fin
        → Step t
            (received (record t { tx = live wire fin }) (on_chunk unknown_code tcp_ok t.down c))
    old_chunk :
        (tcp_ok : Bool) (c : Chunk) (wire : List Chunk)
        → t.down.phase ≡ reading
        → t.current ≡ false
        → t.old_wire ≡ c ∷ wire
        → Step t (received (record t { old_wire = wire }) (on_chunk unknown_code tcp_ok t.down c))
    fin :
        t.down.phase ≡ reading
        → t.current ≡ true
        → t.tx ≡ live [] true
        → Step t (received t (on_fin t.down))
    read_error : t.down.phase ≡ reading → Step t (record t { down = on_read_error t.down })
    accept_reconnect :
        t.down.phase ≡ awaiting_stream
        → t.current ≡ false
        → deliver_reconnect_stream t.down.bytes_written t.offer ≡ true
        → Step t (record t { down = Downlink.on_stream true t.down; current = true; old_wire = [] })

  pub data Reachable (wire_bytes : ℕ) : Transfer → Type 0 where
    start : Reachable wire_bytes (opened wire_bytes)
    step : {t t' : Transfer} → Reachable wire_bytes t → Step t t' → Reachable wire_bytes t'
