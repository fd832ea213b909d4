-- ===== src/QuicStream.antt =====
-- quelay-quic/src/stream.rs: the ends of a stream's write side, whole or split off. Calls of quinn's
-- send stream are values, in order; its answers are ignored, as the code does. Reads, writes and
-- flushes go through to quinn.
pub mod Once
pub mod Tests
use quelay.Common.{ℕ, ◌-◌, ◌^◌, Bool, true, false, List, [], ◌∷◌, ◌++◌, leb, if◌then◌else◌}
use quelay.Domain.Error.{Result, ok, err, already_finished}

pub data QuinnCall : Type 0 where
  finish : QuinnCall
  reset : ℕ → QuinnCall

-- The write side: `QuicStream` and `QuicSendHalf` have the same flag.
pub record SendSide : Type 0 where
  pub finished : Bool
  pub calls : List QuinnCall

pub data Shape : Type 0 where
  whole split : Shape

unfoldable pub opened_stream : SendSide
opened_stream = record { finished = false; calls = [] }

-- `quinn::VarInt::MAX`
abbrev pub varint_max : ℕ
varint_max = 2 ^ 62 - 1

-- `VarInt::from_u64(code).unwrap_or(VarInt::MAX)`
unfoldable pub varint : ℕ → ℕ
varint code = if leb code varint_max then code else varint_max

abbrev call : QuinnCall → SendSide → SendSide
call c s = record { finished = true; calls = s.calls ++ c ∷ [] }

-- `QueLayStream::finish` of `QuicStream`
unfoldable pub finish_stream : SendSide → SendSide × Result (Unit {0})
finish_stream s = if s.finished then (s, err already_finished) else (call finish s, ok tt)

unfoldable pub reset_stream : ℕ → SendSide → SendSide × Result (Unit {0})
unfolding varint
reset_stream code s = (call (reset (varint code)) s, ok tt)

-- `poll_shutdown`, the same of both, and `finish_non_blocking`.
unfoldable pub poll_shutdown : SendSide → SendSide
poll_shutdown s = if s.finished then s else call finish s

-- `into_split`: the flag goes along.
unfoldable pub into_split : SendSide → SendSide
into_split s = record s { finished = s.finished }

-- What a user does; `finish` and `reset` are there only before the split.
pub data Op : Type 0 where
  finishes shuts_down splits : Op
  resets : ℕ → Op

unfoldable pub on_op : Op → Shape → SendSide → Shape × SendSide
unfolding finish_stream reset_stream poll_shutdown into_split
on_op finishes whole s = (whole, (finish_stream s).0)
on_op finishes split s = (split, s)
on_op shuts_down shape s = (shape, poll_shutdown s)
on_op splits whole s = (split, into_split s)
on_op splits split s = (split, s)
on_op (resets code) whole s = (whole, (reset_stream code s).0)
on_op (resets code) split s = (split, s)

unfoldable pub run : List Op → Shape → SendSide → Shape × SendSide
unfolding on_op
run [] shape s = (shape, s)
run (op ∷ ops) shape s = let (shape', s') = on_op op shape s in run ops shape' s'
