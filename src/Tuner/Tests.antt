-- ===== src/Tuner/Tests.antt =====
-- Tuners of quelay-agent/src/bin/bw_cap_test/tuner.rs on concrete commands.
use quelay.Common.{ℕ, ◌≡◌, refl, none, List, [], ◌∷◌}
use quelay.Tuner.{
  sender, receiver, TunerCmd, port, done, failed, shutdown, said, channel_closed, fail,
  wait_for_port, wait_for_shutdown, wait_for_agent_done, wait_for_receiver_done, failure,
  sender_waits, spawn_sender, spawn_receiver,
}

abbrev normal_run : List (TunerCmd ℕ)
normal_run = port 4000 ∷ shutdown ∷ done sender 900 1000 ∷ []

passes_run : (spawn_sender 1 normal_run).bytes ≡ 900
unfolding spawn_sender sender_waits wait_for_port wait_for_shutdown wait_for_agent_done
passes_run = refl

-- The payload is exhausted before the shutdown.
exhausted_run :
    (spawn_sender {Text = ℕ} 1 (port 4000 ∷ done sender 900 1000 ∷ shutdown ∷ [])).outcome
    ≡ fail channel_closed
unfolding spawn_sender sender_waits wait_for_port wait_for_shutdown wait_for_agent_done failure
exhausted_run = refl

failed_run :
    (spawn_receiver {Text = ℕ} 1 none (port 4000 ∷ failed receiver 7 ∷ [])).outcome ≡ fail (said 7)
unfolding spawn_receiver wait_for_port wait_for_receiver_done
failed_run = refl
