-- ===== src/Pump/Tests.antt =====
-- The pump of quelay-agent/src/rate_limiter.rs on concrete bytes.
use quelay.Common.{
  ℕ, ◌≡◌, refl, List, [], ◌∷◌, ◌++◌, Bool, true, false, some, length, arith, u64_max,
}
use quelay.Framing.{Chunk}
use quelay.Spool.{SpoolBuffer, slice_from, head_offset}
use quelay.Spool.Window.{Holds}
use quelay.Pump.{
  WriteHalf, draining, exited, StreamPump, drain_alloc, drain_step, after_loop, send_fin,
  send_chunk,
}
use quelay.Pump.Loop.{Drained, drain_alloc_ends}

-- A write half that never fails, as the chunks written, then whether it is shut down.
abbrev log : WriteHalf
log = record {
  Tx = List Chunk × Bool;
  write = λ (cs, fin) c. some (cs ++ c ∷ [], fin);
  shutdown = λ (cs, fin). (cs, true);
}

-- The input has ended, and the ring is cut after a byte.
abbrev ended : SpoolBuffer
ended = record { buf = 3 ∷ 4 ∷ 5 ∷ 6 ∷ []; bytes_acked = 2; head = u64_max }

abbrev input : List ℕ
input = 1 ∷ 2 ∷ 3 ∷ 4 ∷ 5 ∷ 6 ∷ []

abbrev pump : StreamPump
pump = record { q = 2; done = false; finishing = true; mode = draining 100 }

-- Both segments of the ring are sent, then FIN.
drain_run :
    drain_alloc log 10 1 ended 100 (([], false), pump)
    ≡ some (
      (
        record { stream_offset = 2; payload = 3 ∷ [] }
            ∷ record { stream_offset = 3; payload = 4 ∷ 5 ∷ 6 ∷ [] }
            ∷ [],
        true,
      ),
      record { q = 6; done = true; finishing = true; mode = exited },
    )
unfolding drain_alloc drain_step after_loop send_fin send_chunk slice_from head_offset
drain_run = refl

ended-Holds : Holds input ended
ended-Holds = record { held = refl; acked = omega arith }

ended_top : head_offset ended ≡ length input
unfolding head_offset
ended_top = refl

drain_alloc_ends_example :
    (r : (List Chunk × Bool) × StreamPump) × (drain_alloc log 101 1 ended 100 (([], false), pump)
      ≡ some r)
    × Drained log input ended 100 ([], false) pump r
drain_alloc_ends_example =
    drain_alloc_ends log ended input ended_top ended-Holds 101 1 100 ([], false) pump refl
      (omega arith) (omega arith) (omega arith)
