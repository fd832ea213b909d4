-- ===== src/Uncapped/Quiet.antt =====
-- Where an uplink without a rate comes to rest (quelay-agent/src/rate_limiter.rs,
-- quelay-agent/src/active_stream.rs).
use quelay.Common.{ℕ, ◌≤◌, ◌<◌, ◌≡◌, ◌⊎◌, inl, inr, refl, true, false, arith, Bool-cases}
use quelay.Framing.{chunk_size}
use quelay.Uncapped.{
  reading, sleeping, selecting, World, started, to_forwarder, to_task, check_end, drain, pushes,
  ends, notifies, waits_first, finds_backlog, sends, checks, pump_takes_ticket, Reachable, here,
  next,
}
use quelay.Uncapped.Invariant.{Pending, started-Good, Reachable-Good}

-- Nothing moves but for a message of the receiver.
pub record Quiet (w : World) : Type 0 where
  pub reader : w.reader ≡ reading
  pub no_permit : w.permit ≡ false
  pub forwarder : w.forwarder ≡ sleeping
  pub task : w.task ≡ selecting
  pub no_ticket : w.ticket ≡ false
  pub no_command : w.commanded ≡ false

not-Pending : (w : World) → Quiet w → Pending w → ⊥
not-Pending w q (inl e) = let h = q.reader in cc
not-Pending w q (inr (inl e)) = let h = q.no_permit in cc
not-Pending w q (inr (inr (inl e))) = let h = q.task in cc
not-Pending w q (inr (inr (inr (inl e)))) = let h = q.forwarder in cc
not-Pending w q (inr (inr (inr (inr (inl e))))) = let h = q.forwarder in cc
not-Pending w q (inr (inr (inr (inr (inr e))))) = let h = q.no_ticket in cc

-- Where all is quiet after the end of the input, FIN was sent behind the whole of it; or the pump was
-- told to finish and bytes are left; or all bytes are sent and the pump was not told to finish.
pub rest_after_end :
    {w : World}
    → Reachable started w
    → w.ended ≡ true
    → Quiet w
    → ((w.fin ≡ true) × (w.q ≡ w.written))
      ⊎ ((w.finishing ≡ true) × (w.q < w.written))
      ⊎ ((w.finish_sent ≡ false) × (w.q ≡ w.written))
rest_after_end {w} path e q =
    let g = Reachable-Good started-Good path in
    let left : (w.q < w.written) ⊎ (w.q ≡ w.written) = ground (arith, g.within) in
    elim (Bool-cases w.finish_sent) [
      | inl sent ↦ elim (g.told sent) [
        | inl c ↦ absurd (let none_left = q.no_command in cc)
        | inr f ↦ elim left [ inl l ↦ inr (inl (f, l)) | inr all ↦ inl (g.complete f all, all) ]
      ]
      | inr not_sent ↦ elim left [
        | inl l ↦ absurd (not-Pending w q (g.answered e not_sent l))
        | inr all ↦ inr (inr (not_sent, all))
      ]
    ]

-- The last of these may happen, for an input that one read takes, of at most one chunk: the push wakes
-- the ack task, which has waited longer, and the end of the input wakes the forwarder. No message of the
-- receiver comes in this run.
pub end_is_missed :
    (n : ℕ)
    → 1 ≤ n
    → n ≤ chunk_size
    → (w : World) × Reachable started w
      × Quiet w
      × (w.ended ≡ true)
      × (w.q ≡ n)
      × (w.written ≡ n)
      × (w.finish_sent ≡ false)
      × (w.fin ≡ false)
unfolding started check_end drain
end_is_missed n h u =
    let listening : Reachable started (record started { forwarder = sleeping; task = selecting }) =
      next (next here (checks refl)) (waits_first refl) in
    let pushed =
      next
        (next (next listening (pushes n refl refl h u (omega arith)))
          (notifies refl (to_task refl (λ e. refl))))
        (checks refl) in
    let over =
      next (next pushed (ends refl refl)) (notifies refl (to_forwarder refl (λ e. refl))) in
    let sent =
      next (next (next over (finds_backlog refl (omega arith))) (sends refl refl))
        (pump_takes_ticket refl refl) in
    (
      _,
      sent,
      record {
        reader = refl;
        no_permit = refl;
        forwarder = refl;
        task = refl;
        no_ticket = refl;
        no_command = refl;
      },
      refl,
      omega arith,
      omega arith,
      refl,
      refl,
    )
