-- ===== src/Spool/Tests.antt =====
-- The spool of quelay-agent/src/active_stream.rs on concrete bytes.
use quelay.Common.{ℕ, ◌≡◌, ◌<◌, refl, List, [], ◌∷◌, ◌++◌, some, length, drop, arith}
use quelay.Spool.{SpoolBuffer, new, push, ack, slice_from}
use quelay.Spool.Window.{Holds, slice_from_window}

-- Six bytes have been read and two are acknowledged.
abbrev four : SpoolBuffer
four = record { buf = 3 ∷ 4 ∷ 5 ∷ 6 ∷ []; bytes_acked = 2; head = 6 }

abbrev six : List ℕ
six = 1 ∷ 2 ∷ 3 ∷ 4 ∷ 5 ∷ 6 ∷ []

four_run : ack (push (push new (1 ∷ 2 ∷ 3 ∷ [])) (4 ∷ 5 ∷ 6 ∷ [])) 2 ≡ four
unfolding ack push new
four_run = refl

four-Holds : Holds six four
four-Holds = record { held = refl; acked = omega arith }

slice_from_window_example :
    (bs rest : List ℕ) × (slice_from 1 four 4 ≡ some bs)
    × (drop 4 six ≡ bs ++ rest)
    × (4 < length six → 0 < length bs)
slice_from_window_example = slice_from_window 1 six four 4 four-Holds (omega arith) (omega arith)
