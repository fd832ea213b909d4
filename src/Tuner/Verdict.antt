-- ===== src/Tuner/Verdict.antt =====
-- When a tuner of the bandwidth test passes (quelay-agent/src/bin/bw_cap_test/tuner.rs).
use quelay.Common.{ℕ, ◌≡◌, refl, some, List, [], ◌∷◌, ◌++◌, All}
use quelay.Tuner.{
  Role, TunerCmd, port, done, failed, shutdown, kill, killed_by_failsafe, pass, fail, reached,
  wait_for_port, wait_for_shutdown, wait_for_agent_done, wait_for_receiver_done, failure,
  sender_waits, spawn_sender, spawn_receiver,
}

module _ {Text : Type 0} where
  -- What each wait passes over.
  abbrev BeforePort : TunerCmd Text → Type 0
  BeforePort (port p) = ⊥
  BeforePort (done role bytes wire) = Unit
  BeforePort (failed role reason) = Unit
  BeforePort shutdown = Unit
  BeforePort kill = ⊥

  abbrev IsPort : TunerCmd Text → Type 0
  IsPort (port p) = Unit
  IsPort (done role bytes wire) = ⊥
  IsPort (failed role reason) = ⊥
  IsPort shutdown = ⊥
  IsPort kill = ⊥

  abbrev Late : TunerCmd Text → Type 0
  Late (port p) = Unit
  Late (done role bytes wire) = ⊥
  Late (failed role reason) = ⊥
  Late shutdown = Unit
  Late kill = ⊥

  abbrev Stops : TunerCmd Text → Type 0
  Stops (port p) = ⊥
  Stops (done role bytes wire) = Unit
  Stops (failed role reason) = ⊥
  Stops shutdown = Unit
  Stops kill = ⊥

  skips_to_port :
      (xs rest : List (TunerCmd Text)) (p : ℕ)
      → All BeforePort xs
      → wait_for_port (xs ++ port p ∷ rest) ≡ reached p rest
  unfolding wait_for_port
  skips_to_port [] rest p h = refl
  skips_to_port (port q ∷ xs) rest p h = absurd h.0
  skips_to_port (kill ∷ xs) rest p h = absurd h.0
  skips_to_port (done role bytes wire ∷ xs) rest p h = skips_to_port xs rest p h.1
  skips_to_port (failed role reason ∷ xs) rest p h = skips_to_port xs rest p h.1
  skips_to_port (shutdown ∷ xs) rest p h = skips_to_port xs rest p h.1

  skips_to_stop :
      (xs rest : List (TunerCmd Text)) (c : TunerCmd Text)
      → All IsPort xs
      → Stops c
      → (bytes : ℕ) × (wait_for_shutdown (xs ++ c ∷ rest) ≡ reached bytes rest)
  unfolding wait_for_shutdown
  skips_to_stop [] rest (port p) h s = absurd s
  skips_to_stop [] rest (done role bytes wire) h s = (bytes, refl)
  skips_to_stop [] rest (failed role reason) h s = absurd s
  skips_to_stop [] rest shutdown h s = (0, refl)
  skips_to_stop [] rest kill h s = absurd s
  skips_to_stop (port q ∷ xs) rest c h s = skips_to_stop xs rest c h.1 s
  skips_to_stop (kill ∷ xs) rest c h s = absurd h.0
  skips_to_stop (done role bytes wire ∷ xs) rest c h s = absurd h.0
  skips_to_stop (failed role reason ∷ xs) rest c h s = absurd h.0
  skips_to_stop (shutdown ∷ xs) rest c h s = absurd h.0

  skips-Late :
      (xs rest : List (TunerCmd Text))
      → All Late xs
      → wait_for_agent_done (xs ++ rest) ≡ wait_for_agent_done rest
  unfolding wait_for_agent_done
  skips-Late [] rest h = refl
  skips-Late (port q ∷ xs) rest h = skips-Late xs rest h.1
  skips-Late (shutdown ∷ xs) rest h = skips-Late xs rest h.1
  skips-Late (kill ∷ xs) rest h = absurd h.0
  skips-Late (done role bytes wire ∷ xs) rest h = absurd h.0
  skips-Late (failed role reason ∷ xs) rest h = absurd h.0

  -- A sender that gets its port, and then a command to stop or an early end of the stream, takes what
  -- comes behind as its verdict.
  sender_waits_lem :
      (before ports late rest : List (TunerCmd Text)) (p : ℕ) (stop : TunerCmd Text)
      → All BeforePort before
      → All IsPort ports
      → Stops stop
      → All Late late
      → sender_waits (before ++ (port p ∷ (ports ++ (stop ∷ (late ++ rest)))))
        ≡ wait_for_agent_done rest
  unfolding sender_waits
  sender_waits_lem before ports late rest p stop hb hp hs hl =
      let (bytes, stopped) = skips_to_stop ports (late ++ rest) stop hp hs in
      rw (skips_to_port before (ports ++ (stop ∷ (late ++ rest))) p hb, stopped)
        (skips-Late late rest hl)

  -- A sender passes where behind its port and a command to stop the stream is reported as done, with the
  -- bytes of that report.
  sender_passes :
      (uuid : Text) (before ports late rest : List (TunerCmd Text)) (p bytes wire : ℕ)
      (stop : TunerCmd Text) (role : Role)
      → All BeforePort before
      → All IsPort ports
      → Stops stop
      → All Late late
      → let result =
          spawn_sender uuid
            (before ++ (port p ∷ (ports ++ (stop ∷ (late ++ (done role bytes wire ∷ rest)))))) in
        (result.outcome ≡ pass) × (result.bytes ≡ bytes) × (result.bytes_wire ≡ wire)
  unfolding spawn_sender wait_for_agent_done
  sender_passes uuid before ports late rest p bytes wire stop role hb hp hs hl =
      rw
        (
          spawn_sender,
          sender_waits_lem before ports late (done role bytes wire ∷ rest) p stop hb hp hs hl,
        )
        (refl, refl, refl)

  -- Where the stream is reported as done before the command to stop, the sender waits for a second
  -- report; it fails when the test is killed, whatever the first one said.
  early_done_fails :
      (uuid : Text) (before ports late rest : List (TunerCmd Text)) (p bytes wire : ℕ) (role : Role)
      → All BeforePort before
      → All IsPort ports
      → All Late late
      → (spawn_sender uuid (
          before ++ (port p ∷ (ports ++ (done role bytes wire ∷ (late ++ (kill ∷ rest))))))).outcome
        ≡ fail killed_by_failsafe
  unfolding spawn_sender wait_for_agent_done failure
  early_done_fails uuid before ports late rest p bytes wire role hb hp hl =
      rw
        (
          spawn_sender,
          sender_waits_lem before ports late (kill ∷ rest) p (done role bytes wire) hb hp tt hl,
        )
        refl

  receiver_skips :
      (late rest : List (TunerCmd Text))
      → All Late late
      → wait_for_receiver_done (late ++ rest) ≡ wait_for_receiver_done rest
  unfolding wait_for_receiver_done
  receiver_skips [] rest h = refl
  receiver_skips (port q ∷ xs) rest h = receiver_skips xs rest h.1
  receiver_skips (shutdown ∷ xs) rest h = receiver_skips xs rest h.1
  receiver_skips (kill ∷ xs) rest h = absurd h.0
  receiver_skips (done role bytes wire ∷ xs) rest h = absurd h.0
  receiver_skips (failed role reason ∷ xs) rest h = absurd h.0

  -- A receiver passes where behind its port the stream is reported as done, with what it has read.
  receiver_passes :
      (uuid : Text) (n : ℕ) (before late rest : List (TunerCmd Text)) (p bytes wire : ℕ)
      (role : Role)
      → All BeforePort before
      → All Late late
      → let result =
          spawn_receiver uuid
            (some n)
            (before ++ (port p ∷ (late ++ (done role bytes wire ∷ rest)))) in
        (result.outcome ≡ pass) × (result.bytes ≡ n)
  unfolding spawn_receiver wait_for_receiver_done
  receiver_passes uuid n before late rest p bytes wire role hb hl =
      rw
        (
          spawn_receiver,
          skips_to_port before (late ++ (done role bytes wire ∷ rest)) p hb,
          receiver_skips late (done role bytes wire ∷ rest) hl,
        )
        (refl, refl)
