-- ===== src/Tuner.antt =====
-- The tuners of the bandwidth test, quelay-agent/src/bin/bw_cap_test/tuner.rs: a sender and a receiver of
-- one stream, which follow the commands of the test's controller and report a result to it. A list of
-- commands ends where the controller closes the channel. Times are left out; the TCP tasks show in the
-- number of bytes that the reader counts.
pub mod Verdict
pub mod Tests
use quelay.Common.{ℕ, Option, none, some, List, [], ◌∷◌}
use mathlib.Core.Option

pub data Role : Type 0 where
  sender receiver : Role

module _ (Text : Type 0) where
  pub data TunerCmd : Type 0 where
    port : ℕ → TunerCmd
    done : Role → ℕ → ℕ → TunerCmd
    failed : Role → Text → TunerCmd
    shutdown kill : TunerCmd

  -- The reasons of a failure: that of the agent, and the two of the tuner.
  pub data FailCause : Type 0 where
    said : Text → FailCause
    killed_by_failsafe channel_closed : FailCause

  pub data TunerOutcome : Type 0 where
    pass : TunerOutcome
    fail : FailCause → TunerOutcome

pub record TunerResult (Text : Type 0) : Type 0 where
  pub uuid : Text
  pub role : Role
  pub outcome : TunerOutcome Text
  pub bytes : ℕ
  pub bytes_wire : ℕ

-- What a wait ends with: a value and the commands that are left, or a report of a failure.
pub data Waited (Text A : Type 0) : Type 0 where
  reached : A → List (TunerCmd Text) → Waited Text A
  reported : FailCause Text → Waited Text A

module _ {Text : Type 0} where
  unfoldable pub wait_for_port : List (TunerCmd Text) → Waited Text ℕ
  wait_for_port [] = reported channel_closed
  wait_for_port (port p ∷ rest) = reached p rest
  wait_for_port (kill ∷ rest) = reported killed_by_failsafe
  wait_for_port (other ∷ rest) = wait_for_port rest

  unfoldable pub wait_for_shutdown : List (TunerCmd Text) → Waited Text ℕ
  wait_for_shutdown [] = reported channel_closed
  wait_for_shutdown (shutdown ∷ rest) = reached 0 rest
  wait_for_shutdown (kill ∷ rest) = reported killed_by_failsafe
  wait_for_shutdown (done role bytes wire ∷ rest) = reached bytes rest
  wait_for_shutdown (failed role reason ∷ rest) = reported (said reason)
  wait_for_shutdown (port p ∷ rest) = wait_for_shutdown rest

  unfoldable pub wait_for_agent_done : List (TunerCmd Text) → Waited Text (ℕ × ℕ)
  wait_for_agent_done [] = reported channel_closed
  wait_for_agent_done (done role bytes wire ∷ rest) = reached (bytes, wire) rest
  wait_for_agent_done (failed role reason ∷ rest) = reported (said reason)
  wait_for_agent_done (kill ∷ rest) = reported killed_by_failsafe
  wait_for_agent_done (shutdown ∷ rest) = wait_for_agent_done rest
  wait_for_agent_done (port p ∷ rest) = wait_for_agent_done rest

  unfoldable pub wait_for_receiver_done : List (TunerCmd Text) → Waited Text (TunerOutcome Text)
  wait_for_receiver_done [] = reported channel_closed
  wait_for_receiver_done (done role bytes wire ∷ rest) = reached pass rest
  wait_for_receiver_done (failed role reason ∷ rest) = reached (fail (said reason)) rest
  wait_for_receiver_done (kill ∷ rest) = reported killed_by_failsafe
  wait_for_receiver_done (shutdown ∷ rest) = wait_for_receiver_done rest
  wait_for_receiver_done (port p ∷ rest) = wait_for_receiver_done rest

  unfoldable pub failure : Text → Role → FailCause Text → TunerResult Text
  failure uuid role why = record {
    uuid = uuid;
    role = role;
    outcome = fail why;
    bytes = 0;
    bytes_wire = 0;
  }

  -- `?` of the waits: the tuner reports and returns.
  abbrev then_wait :
      {A B : Type 0} → Waited Text A → (A → List (TunerCmd Text) → Waited Text B) → Waited Text B
  then_wait (reported why) next = reported why
  then_wait (reached a rest) next = next a rest

  unfoldable pub sender_waits : List (TunerCmd Text) → Waited Text (ℕ × ℕ)
  unfolding wait_for_port wait_for_shutdown wait_for_agent_done
  sender_waits cmds =
      then_wait (wait_for_port cmds)
        (λ p rest. then_wait (wait_for_shutdown rest) (λ bytes rest. wait_for_agent_done rest))

  unfoldable pub spawn_sender : Text → List (TunerCmd Text) → TunerResult Text
  unfolding sender_waits failure
  spawn_sender uuid cmds = elim (sender_waits cmds) [
    | reported why ↦ failure uuid sender why
    | reached (bytes, wire) rest ↦ record {
      uuid = uuid;
      role = sender;
      outcome = pass;
      bytes = bytes;
      bytes_wire = wire;
    }
  ]

  -- With what the reader has counted, `none` for an error.
  unfoldable pub spawn_receiver : Text → Option ℕ → List (TunerCmd Text) → TunerResult Text
  unfolding wait_for_port wait_for_receiver_done failure
  spawn_receiver uuid read cmds =
      elim (then_wait (wait_for_port cmds) (λ p rest. wait_for_receiver_done rest)) [
        | reported why ↦ failure uuid receiver why
        | reached outcome rest ↦ record {
          uuid = uuid;
          role = receiver;
          outcome = outcome;
          bytes = Option.get_or read 0;
          bytes_wire = 0;
        }
      ]
