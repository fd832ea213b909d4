-- ===== src/Uplink/Reports.antt =====
-- What the ack task tells the pump and the client (quelay-agent/src/active_stream.rs).
use quelay.Common.{
  ℕ, suc, ◌≤◌, ◌≡◌, refl, subst, ap, ◌⊎◌, ◌≢◌, ◌&&◌, ◌∙◌, false, none, some, List, [], ◌∷◌, ◌++◌,
  length, arith, if◌then◌else◌, Bool-cases, ltb, inl, inr, length-append,
}
use quelay.Spool.{SpoolBuffer}
use quelay.Pump.{RateCmd, link_down, link_up, finish}
use quelay.Domain.Callback.{CallbackCmd}
use quelay.Uplink.{
  Phase, listening, reconnecting, finished, AckTask, ack, done, failed, stream_error, new,
  return_with, on_ack, try_send_finish, on_msg, on_stream, Event, message, data_ready, stream,
  on_event, run,
}

-- The flag tells whether it was sent.
abbrev Told : AckTask → ℕ → Type 0
Told t k = k ≤ (if t.finish_sent then 1 else 0)

-- A report ends the task, and there is none before.
abbrev Reported : Phase → ℕ → Type 0
Reported listening n = n ≡ 0
Reported reconnecting n = n ≡ 0
Reported finished n = n ≤ 1

record Good (t : AckTask) (k : ℕ) : Type 0 where
  told : Told t k
  reported : Reported t.phase (length t.callbacks)

module _ {Tx : Type 0} where
  -- How often `Finish` was sent since the last fresh write half, `k` before these commands.
  unfoldable pub finishes : ℕ → List (RateCmd Tx) → ℕ
  finishes k [] = k
  finishes k (link_down ∷ cmds) = finishes k cmds
  finishes k (link_up tx ∷ cmds) = finishes 0 cmds
  finishes k (finish ∷ cmds) = finishes (suc k) cmds

  finishes-append :
      (k : ℕ) (xs ys : List (RateCmd Tx)) → finishes k (xs ++ ys) ≡ finishes (finishes k xs) ys
  unfolding finishes
  finishes-append k [] ys = refl
  finishes-append k (link_down ∷ xs) ys = finishes-append k xs ys
  finishes-append k (link_up tx ∷ xs) ys = finishes-append 0 xs ys
  finishes-append k (finish ∷ xs) ys = finishes-append (suc k) xs ys

on_ack-Good : (s : SpoolBuffer) (n : ℕ) (t : AckTask) (k : ℕ) → Good t k → Good (on_ack s n t).1 k
unfolding on_ack
on_ack-Good s n t k g = elim (Bool-cases (ltb s.bytes_acked n)) [
  | inl more ↦ rw (on_ack, more) (record { told = g.told; reported = g.reported })
  | inr same ↦ rw (on_ack, same) g
]

return_with-Good :
    (cb : CallbackCmd) (t : AckTask) (k : ℕ)
    → length t.callbacks ≡ 0
    → Good t k
    → Good (return_with cb t) k
unfolding return_with
return_with-Good cb t k none_yet g = record {
  told = g.told;
  reported = omega (arith, length-append {0} t.callbacks (cb ∷ []));
}

-- Nothing is reported while the task is in a loop.
silent :
    (t : AckTask) (k : ℕ)
    → Good t k
    → (t.phase ≡ listening) ⊎ (t.phase ≡ reconnecting)
    → length t.callbacks ≡ 0
silent t k g (inl p) = subst (λ p. Reported p (length t.callbacks)) p g.reported
silent t k g (inr p) = subst (λ p. Reported p (length t.callbacks)) p g.reported

summary :
    (t : AckTask) (k : ℕ)
    → Good t k
    → (k ≤ 1) × (length t.callbacks ≤ 1) × (t.phase ≢ finished → length t.callbacks ≡ 0)
summary t k g = (ground (arith, g.told), at_most t.phase g.reported, before_end t.phase g.reported)
  where
    at_most : (p : Phase) → Reported p (length t.callbacks) → length t.callbacks ≤ 1
    at_most listening r = omega arith
    at_most reconnecting r = omega arith
    at_most finished r = r

    before_end :
        (p : Phase) → Reported p (length t.callbacks) → p ≢ finished → length t.callbacks ≡ 0
    before_end listening r n = r
    before_end reconnecting r n = r
    before_end finished r n = absurd (n refl)

module _ (Tx : Type 0) where
  -- After the commands of a step.
  abbrev Keeps : ℕ → AckTask × List (RateCmd Tx) → Type 0
  Keeps k (t, cmds) = Good t (finishes k cmds)

  try_send_finish-Good :
      (s : SpoolBuffer) (t : AckTask) (k : ℕ) → Good t k → Keeps k (try_send_finish {Tx = Tx} s t)
  unfolding try_send_finish finishes
  try_send_finish-Good s t k g = ground arith

  try_send_finish-callbacks :
      (s : SpoolBuffer) (t : AckTask) → (try_send_finish {Tx = Tx} s t).0.callbacks ≡ t.callbacks
  unfolding try_send_finish
  try_send_finish-callbacks s t = ground arith

  still_silent :
      (s : SpoolBuffer) (t : AckTask) (k : ℕ)
      → Good t k
      → (t.phase ≡ listening) ⊎ (t.phase ≡ reconnecting)
      → length (try_send_finish {Tx = Tx} s t).0.callbacks ≡ 0
  still_silent s t k g p = ap length (try_send_finish-callbacks s t) ∙ silent t k g p

  on_event-Good :
      (p : Phase) (e : Event Tx) (t : AckTask) (k : ℕ)
      → t.phase ≡ p
      → Good t k
      → Keeps k (on_event p e t)
  unfolding on_event on_msg on_stream finishes
  on_event-Good listening (message wire_end s (some (ack n))) t k p g =
      try_send_finish-Good (on_ack s n t).0 _ k (on_ack-Good s n t k g)
  on_event-Good listening (message wire_end s (some done)) t k p g =
      return_with-Good _ t k (silent t k g (inl p)) g
  on_event-Good listening (message wire_end s (some (failed code))) t k p g =
      return_with-Good _ t k (silent t k g (inl p)) g
  on_event-Good listening (message wire_end s (some stream_error)) t k p g = record {
    told = (try_send_finish-Good s t k g).told;
    reported = still_silent s t k g (inl p);
  }
  on_event-Good listening (message wire_end s none) t k p g =
      return_with-Good _ _ _ (still_silent s t k g (inl p)) (try_send_finish-Good s t k g)
  on_event-Good listening (data_ready s) t k p g = try_send_finish-Good s t k g
  on_event-Good listening (stream reader_ok pump_ok s tx) t k p g = g
  on_event-Good reconnecting (message wire_end s m) t k p g = g
  on_event-Good reconnecting (data_ready s) t k p g = try_send_finish-Good s t k g
  on_event-Good reconnecting (stream reader_ok pump_ok s (some tx)) t k p g =
      elim (Bool-cases (reader_ok && pump_ok)) [
        | inr broken ↦
            rw (on_event, broken)
              (record { told = g.told; reported = let n = silent t k g (inr p) in omega arith })
        | inl sound ↦
            rw (on_event, sound)
              (try_send_finish-Good s (record t { finish_sent = false; phase = listening }) 0
                (record { told = omega arith; reported = silent t k g (inr p) }))
      ]
  on_event-Good reconnecting (stream reader_ok pump_ok s none) t k p g =
      return_with-Good _ t k (silent t k g (inr p)) g
  on_event-Good finished e t k p g = g

  run-Good : (es : List (Event Tx)) (t : AckTask) (k : ℕ) → Good t k → Keeps k (run es t)
  unfolding run finishes
  run-Good [] t k g = g
  run-Good (e ∷ es) t k g =
      let (t', cmds) = on_event t.phase e t in
      rw (finishes-append k cmds (run es t').1)
        (run-Good es t' (finishes k cmds) (on_event-Good t.phase e t k refl g))

  -- Whatever the ack task is woken by, in any order: it tells the pump to finish at most once on each
  -- write half, and it sends the client at most one report of its own, and none before it ends. The
  -- reports that the TCP reader sends by itself are not counted.
  pub told_at_most_once :
      (wire_bytes : ℕ) (es : List (Event Tx))
      → let (t, cmds) = run es (new wire_bytes) in
        (finishes 0 cmds ≤ 1)
        × (length t.callbacks ≤ 1)
        × (t.phase ≢ finished → length t.callbacks ≡ 0)
  unfolding new finishes
  told_at_most_once wire_bytes es =
      let g = run-Good es (new wire_bytes) 0 (record { told = omega arith; reported = refl }) in
      summary _ _ g
