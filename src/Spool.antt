-- ===== src/Spool.antt =====
-- `SpoolBuffer` of quelay-agent/src/active_stream.rs, with the TCP reader's steps on it. Offsets are
-- absolute positions in the stream; a byte is a number.
pub mod Invariant
pub mod Window
pub mod Tests
use quelay.Common.{
  ℕ, ◌+◌, ◌-◌, ◌*◌, ◌%◌, ◌^◌, min, Bool, true, false, Option, none, some, List, [], ◌++◌, length,
  take, drop, ltb, leb, ◌==◌, if◌then◌else◌, u64_max,
}
use quelay.Framing.{chunk_size}

abbrev pub spool_capacity : ℕ
spool_capacity = 1024 * 1024

pub record SpoolBuffer : Type 0 where
  pub buf : List ℕ
  pub bytes_acked : ℕ
  pub head : ℕ

unfoldable pub new : SpoolBuffer
new = record { buf = []; bytes_acked = 0; head = 0 }

-- The subtraction does not wrap while the buffer keeps within its capacity.
abbrev pub available : SpoolBuffer → ℕ
available s = spool_capacity - length s.buf

unfoldable pub head_offset : SpoolBuffer → ℕ
head_offset s = if s.head == u64_max then s.bytes_acked + length s.buf else s.head

unfoldable pub push : SpoolBuffer → List ℕ → SpoolBuffer
push s bs = record s { buf = s.buf ++ bs; head = (s.head + length bs) % 2 ^ 64 }

unfoldable pub ack : SpoolBuffer → ℕ → SpoolBuffer
ack s up_to =
    if leb up_to s.bytes_acked
    then s
    else (let n = min (up_to - s.bytes_acked) (length s.buf) in
        record s { buf = drop n s.buf; bytes_acked = s.bytes_acked + n })

-- `as_slices` cuts the ring after `seam` bytes. `none` is a panic: an underflow, or a start past the
-- end.
unfoldable pub slice_from : ℕ → SpoolBuffer → ℕ → Option (List ℕ)
slice_from seam s from =
    if ltb from s.bytes_acked
    then none
    else (let start = from - s.bytes_acked in
        let first = take seam s.buf in
        let second = drop seam s.buf in
        if ltb start (length first)
        then some (drop start first)
        else if leb (start - length first) (length second)
        then some (drop (start - length first) second)
        else none)

-- `run_tcp_reader`: what one pass of its loop does with the bytes that `read` gives, once
-- `wait_for_spool_space` has let it pass. No byte is the end of the input.
unfoldable pub handle_eof : SpoolBuffer → SpoolBuffer
handle_eof s = if s.head == u64_max then s else record s { head = u64_max }

abbrev pub has_space : SpoolBuffer → Bool
has_space s = leb chunk_size (available s)

unfoldable pub on_tcp_read : SpoolBuffer → List ℕ → SpoolBuffer
unfolding handle_eof push
on_tcp_read s bs = if length bs == 0 then handle_eof s else push s bs
