-- ===== src/Spool/Invariant.antt =====
-- The bounds of the spool, and the pointer invariant that its source states
-- (quelay-agent/src/active_stream.rs).
use quelay.Common.{
  ℕ, ◌+◌, ◌-◌, ◌≤◌, ◌<◌, ◌≡◌, ◌≢◌, max, min, refl, ◌⊎◌, inl, true, List, length, arith,
  length-append, length-drop, u64_max,
}
use quelay.Framing.{chunk_size}
use quelay.Spool.{SpoolBuffer, spool_capacity, new, head_offset, ack, has_space, on_tcp_read}

-- `T - A` is the length of the buffer until the end of the input, which leaves a sentinel in `head`.
-- Offsets stay below the sentinel.
pub record IsValid (s : SpoolBuffer) : Type 0 where
  pub within : length s.buf ≤ spool_capacity
  pub offsets : s.bytes_acked + length s.buf < u64_max
  pointer : (s.head ≡ s.bytes_acked + length s.buf) ⊎ (s.head ≡ u64_max)

pub new-IsValid : IsValid new
unfolding new
new-IsValid = record { within = omega arith; offsets = omega arith; pointer = inl refl }

-- `T` is one past the last byte held, also behind the sentinel.
pub head_offset-IsValid :
    (s : SpoolBuffer) → IsValid s → head_offset s ≡ s.bytes_acked + length s.buf
unfolding head_offset
head_offset-IsValid s v = ground arith

-- A read of at most one chunk, taken while there is space for one and before the end of the input,
-- keeps the invariant, and so does the end of the input.
pub on_tcp_read-IsValid :
    (s : SpoolBuffer) (bs : List ℕ)
    → IsValid s
    → s.head ≢ u64_max
    → has_space s ≡ true
    → length bs ≤ chunk_size
    → s.bytes_acked + length s.buf + length bs < u64_max
    → IsValid (on_tcp_read s bs)
unfolding on_tcp_read
on_tcp_read-IsValid s bs v open' space le small = ground (arith, length-append s.buf bs)

-- An acknowledgement of any value keeps the invariant, never moves `A` back, frees exactly the bytes
-- that `A` passes, and never lets `A` pass `T`.
pub ack_lem :
    (s : SpoolBuffer) (up_to : ℕ)
    → IsValid s
    → IsValid (ack s up_to)
      × ((ack s up_to).bytes_acked ≡ max s.bytes_acked (min up_to (head_offset s)))
      × (head_offset (ack s up_to) ≡ head_offset s)
      × ((ack s up_to).head ≡ s.head)
unfolding ack head_offset
ack_lem s up_to v = ground (arith, length-drop (min (up_to - s.bytes_acked) (length s.buf)) s.buf)
