-- ===== src/QuicStream/Tests.antt =====
-- A stream of quelay-quic/src/stream.rs on concrete operations.
use quelay.Common.{◌≤◌, ◌≡◌, ◌≢◌, refl, true, false, List, [], ◌∷◌, All}
use quelay.QuicStream.{
  reset, whole, opened_stream, varint_max, varint, Op, finishes, shuts_down, splits, resets, on_op,
  run, finish_stream, reset_stream, poll_shutdown, into_split,
}
use quelay.QuicStream.Once.{fins, InRange, finished_once}

abbrev ops : List Op
ops = resets 18446744073709551615 ∷ finishes ∷ splits ∷ shuts_down ∷ shuts_down ∷ []

ops_run : (run ops whole opened_stream).1.calls ≡ reset varint_max ∷ []
unfolding run on_op opened_stream finish_stream reset_stream poll_shutdown into_split varint
ops_run = refl

finished_once_example :
    let (shape, s) = run ops whole opened_stream in
    (fins s.calls ≤ 1)
    × All InRange s.calls
    × (s.finished ≡ false → s.calls ≡ [])
    × (s.finished ≡ true → s.calls ≢ [])
finished_once_example = finished_once ops
