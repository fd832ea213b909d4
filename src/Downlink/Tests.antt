-- ===== src/Downlink/Tests.antt =====
-- The receiver of quelay-agent/src/active_stream.rs on concrete chunks.
use quelay.Common.{ℕ, max, ◌≡◌, refl, List, [], ◌∷◌, true, arith}
use quelay.Framing.{Chunk}
use quelay.Pump.Slices.{IsSlice}
use quelay.Downlink.{Downlink, reading, on_chunk, periodic_ack, give_up, fire, write_new}
use quelay.Downlink.Replay.{Received, on_chunk-Received}

-- Three bytes are written; a replay starts at the second.
abbrev three : Downlink
three = record {
  bytes_written = 3;
  last_acked = 0;
  phase = reading;
  client = 1 ∷ 2 ∷ 3 ∷ [];
  callbacks = [];
}

abbrev input : List ℕ
input = 1 ∷ 2 ∷ 3 ∷ 4 ∷ 5 ∷ 6 ∷ []

abbrev replayed : Chunk
replayed = record { stream_offset = 1; payload = 2 ∷ 3 ∷ 4 ∷ 5 ∷ [] }

replay_run :
    on_chunk 0 true three replayed
    ≡ (record three { bytes_written = 5; client = 1 ∷ 2 ∷ 3 ∷ 4 ∷ 5 ∷ [] }, [])
unfolding on_chunk write_new periodic_ack give_up fire
replay_run = refl

replayed-IsSlice : IsSlice input replayed
replayed-IsSlice = record {
  content = refl;
  nonempty = omega arith;
  bounded = omega arith;
  within = omega arith;
}

on_chunk-Received_example :
    Received input three 5 (on_chunk 0 true three replayed)
    × (true ≡ true → (on_chunk 0 true three replayed).0.bytes_written ≡ max 3 5)
on_chunk-Received_example =
    on_chunk-Received 0 true input three replayed replayed-IsSlice (omega arith) (omega arith) refl
