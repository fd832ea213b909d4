-- ===== src/Pump.antt =====
-- `StreamPump` of quelay-agent/src/rate_limiter.rs: the write task of a capped uplink.
pub mod Slices
pub mod Drain
pub mod Loop
pub mod Tests
use quelay.Common.Panics.{◌>>=◌}
use quelay.Common.{
  ℕ, zero, suc, ◌+◌, ◌-◌, min, Bool, true, false, ◌&&◌, Option, none, some, List, length, take, leb,
  ◌==◌, if◌then◌else◌, u64_max,
}
use quelay.Framing.{chunk_size, Chunk, encode_chunk}
use quelay.Bytes.{ByteStream}
use quelay.Spool.{SpoolBuffer, head_offset, slice_from}

-- The QUIC write half: `write_all` of an encoded chunk, and `shutdown`, whose result is not used.
pub record WriteHalf : Type 1 where
  pub Tx : Type 0
  pub write : Tx → Chunk → Option Tx
  pub shutdown : Tx → Tx

unfoldable over_bytes : (b : ByteStream) → (b.Stream → b.Stream) → WriteHalf
over_bytes b shutdown = record {
  Tx = b.Stream;
  write = λ tx c. b.write_all tx (encode_chunk c.stream_offset c.payload);
  shutdown = shutdown;
}

-- Where the task stands: in `select!`, within `drain_alloc` with this much budget left, within
-- `wait_for_link_up`, or returned.
pub data Mode : Type 0 where
  running : Mode
  draining : ℕ → Mode
  waiting exited : Mode

pub record StreamPump : Type 0 where
  pub q : ℕ
  pub done : Bool
  pub finishing : Bool
  pub mode : Mode

pub data RateCmd (Tx : Type 0) : Type 0 where
  link_down : RateCmd Tx
  link_up : Tx → RateCmd Tx
  finish : RateCmd Tx

-- `while !self.done`
abbrev resume : StreamPump → StreamPump
resume p = record p { mode = if p.done then exited else running }

-- `self.q = self.spool.lock().await.bytes_acked`
abbrev rewind : SpoolBuffer → StreamPump → StreamPump
rewind s p = record p { q = s.bytes_acked }

-- A ticket: `none` is a closed channel. Within `drain_alloc` and after the end nothing is received.
unfoldable pub on_ticket : Option ℕ → StreamPump → StreamPump
on_ticket ticket p = elim p.mode [
  | running ↦ elim ticket [
    | some budget ↦ record p { mode = draining budget }
    | none ↦ record p { mode = exited }
  ]
  | draining rest ↦ p
  | waiting ↦ p
  | exited ↦ p
]

module _ (w : WriteHalf) where
  open w use {Tx, write, shutdown}

  unfoldable pub send_fin : Tx × StreamPump → Tx × StreamPump
  send_fin (tx, p) = (shutdown tx, record p { done = true })

  -- `drain_alloc` behind its loop.
  unfoldable pub after_loop : SpoolBuffer → Tx × StreamPump → Tx × StreamPump
  unfolding send_fin
  after_loop s (tx, p) =
      let (tx, p) =
        if p.finishing && (s.head == u64_max) && (head_offset s - p.q == 0)
        then send_fin (tx, p)
        else (tx, p) in
      (tx, resume p)

  -- The write of one chunk at `Q`; an error waits for a new link.
  unfoldable pub send_chunk : ℕ → List ℕ → Tx × StreamPump → Tx × StreamPump
  send_chunk remaining chunk (tx, p) =
      elim (write tx (record { stream_offset = p.q; payload = chunk })) [
        | none ↦ (tx, record p { mode = waiting })
        | some tx' ↦
            (tx', record p { q = p.q + length chunk; mode = draining (remaining - length chunk) })
      ]

  -- One pass of the loop of `drain_alloc`, which takes the spool's lock once. `none` is a panic.
  unfoldable pub drain_step : ℕ → SpoolBuffer → ℕ → Tx × StreamPump → Option (Tx × StreamPump)
  unfolding after_loop send_fin send_chunk
  drain_step seam s remaining (tx, p) =
      if remaining == 0
      then some (after_loop s (tx, p))
      else if (s.head == u64_max) && leb (head_offset s) p.q
      then some (after_loop s (if p.finishing then send_fin (tx, p) else (tx, p)))
      else if leb (head_offset s) p.q
      then some (after_loop s (tx, p))
      else (do
        slice ← slice_from seam s p.q
        let n = min (min (length slice) chunk_size) remaining
        let chunk = take n slice
        some (
            if length chunk == 0 then after_loop s (tx, p) else send_chunk remaining chunk (tx, p)))

  -- `drain_alloc` on a spool that does not change meanwhile.
  unfoldable pub drain_alloc : ℕ → ℕ → SpoolBuffer → ℕ → Tx × StreamPump → Option (Tx × StreamPump)
  unfolding drain_step
  drain_alloc zero seam s budget (tx, p) = some (tx, record p { mode = draining budget })
  drain_alloc (suc fuel) seam s budget (tx, p) = do
    (tx, p) ← drain_step seam s budget (tx, p)
    elim p.mode [
      | draining rest ↦ drain_alloc fuel seam s rest (tx, p)
      | running ↦ some (tx, p)
      | waiting ↦ some (tx, p)
      | exited ↦ some (tx, p)
    ]

  -- A command in `run`, and in `wait_for_link_up`.
  unfoldable pub on_cmd_running :
      SpoolBuffer → Option (RateCmd Tx) → Tx × StreamPump → Tx × StreamPump
  on_cmd_running s (some link_down) (tx, p) = (tx, record (rewind s p) { mode = waiting })
  on_cmd_running s (some (link_up fresh)) (tx, p) = (tx, p)
  on_cmd_running s (some finish) (tx, p) =
      if head_offset s - p.q == 0
      then (tx, record p { finishing = true; mode = draining 1 })
      else (tx, record p { finishing = true })
  on_cmd_running s none (tx, p) = (tx, record p { mode = exited })

  unfoldable pub on_cmd_waiting :
      SpoolBuffer → Option (RateCmd Tx) → Tx × StreamPump → Tx × StreamPump
  on_cmd_waiting s (some link_down) (tx, p) = (tx, rewind s p)
  on_cmd_waiting s (some (link_up fresh)) (tx, p) = (fresh, record (rewind s p) { mode = running })
  on_cmd_waiting s (some finish) (tx, p) = (tx, record p { finishing = true })
  on_cmd_waiting s none (tx, p) = (tx, record p { mode = exited })

  unfoldable pub on_cmd : SpoolBuffer → Option (RateCmd Tx) → Tx × StreamPump → Tx × StreamPump
  unfolding on_cmd_running on_cmd_waiting
  on_cmd s cmd (tx, p) = elim p.mode [
    | running ↦ on_cmd_running s cmd (tx, p)
    | draining rest ↦ (tx, p)
    | waiting ↦ on_cmd_waiting s cmd (tx, p)
    | exited ↦ (tx, p)
  ]
