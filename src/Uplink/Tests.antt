-- ===== src/Uplink/Tests.antt =====
-- The ack task of quelay-agent/src/active_stream.rs on concrete events.
use quelay.Common.{ℕ, ◌≤◌, ◌≡◌, ◌≢◌, true, none, some, List, [], ◌∷◌, length}
use quelay.Spool
use quelay.Spool.{SpoolBuffer}
use quelay.Uplink.{finished, ack, done, stream_error, new, Event, message, data_ready, stream, run}
use quelay.Uplink.Reports.{finishes, told_at_most_once}

-- The input ends, the stream is lost and comes back, and the receiver is done.
abbrev ended : SpoolBuffer
ended = record Spool.new { head = 18446744073709551615 }

abbrev events : List (Event ℕ)
events =
    data_ready ended
    ∷ message 0 ended (some stream_error)
    ∷ stream true true ended (some 7)
    ∷ message 900 ended (some (ack 0))
    ∷ message 900 ended (some done)
    ∷ message 900 ended none
    ∷ []

told_at_most_once_example :
    let (t, cmds) = run events (new 100) in
    (finishes 0 cmds ≤ 1) × (length t.callbacks ≤ 1) × (t.phase ≢ finished → length t.callbacks ≡ 0)
told_at_most_once_example = told_at_most_once ℕ 100 events
