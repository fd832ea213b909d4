-- ===== src/Transfer/Commands.antt =====
-- The commands of the pump keep the invariant (quelay-agent/src/rate_limiter.rs).
use quelay.Common.{
  ℕ, ◌-◌, ◌≡◌, refl, sym, ◌⊎◌, inl, inr, true, none, some, List, ◌∷◌, length, arith, ◌==◌,
  Bool-cases, subst,
}
use quelay.Spool.{head_offset}
use quelay.Pump.{
  Mode, running, draining, waiting, exited, StreamPump, RateCmd, link_down, link_up, finish, on_cmd,
  on_cmd_running, on_cmd_waiting,
}
use quelay.Transfer.{Half, live, dead, half, Transfer, pumped}
use quelay.Transfer.Invariant.{Queued, Placed, AtQ, InFlight, Good}
use quelay.Transfer.Pumping.{
  pumping, unsent, not_exited, running≢exited, waiting≢exited, with_mode, Queued-rest,
}

-- A fresh half is empty, and only taken up after the last one was given up.
taken_up :
    (t : Transfer) (h tx : Half) (rest : List (RateCmd Half)) (p : StreamPump)
    → Good t
    → p.mode ≡ running
    → p.q ≡ t.spool.bytes_acked
    → Queued tx (link_up h ∷ rest)
    → InFlight t.input t.spool.head t.down t.pump t.replies tx
    → Queued h rest × InFlight t.input t.spool.head t.down p t.replies h
taken_up t h (live wire fin) rest p g m e q s = absurd q.0
taken_up t h dead rest p g m e (inl (d, q)) s = rw d (q, s)
taken_up t h dead rest p g m e (inr (l, q)) s = rw l (
  q,
  record {
    from = t.spool.bytes_acked;
    to = t.spool.bytes_acked;
    known = inr g.known;
    contiguous = refl;
    to_le = g.holds.acked;
    honest = rw s tt;
    at_q = rw m (sym e);
    ended = λ f. absurd (ground (arith, f));
  },
)

running_command :
    (t : Transfer) (cmd : RateCmd Half) (rest : List (RateCmd Half))
    → Good (with_mode t running)
    → Queued t.tx (cmd ∷ rest)
    → Good (
        pumped
          (record t { commands = rest })
          (on_cmd_running (half true) t.spool (some cmd) (t.tx, (with_mode t running).pump)))
unfolding on_cmd_running pumped
running_command t link_down rest g q =
    pumping (with_mode t running) t.tx _ rest g (inl (not_exited running g.not_done running≢exited))
      tt (Queued-rest t.tx link_down rest q)
      (unsent (with_mode t running) _ t.tx (λ e h. tt) (λ e. absurd (running≢exited e)) g.sends)
running_command t (link_up h) rest g q =
    pumping (with_mode t running) t.tx _ rest g g.not_done g.placed
      (Queued-rest t.tx (link_up h) rest q) g.sends
running_command t finish rest g q = elim (Bool-cases (head_offset t.spool - t.pump.q == 0)) [
  | inl z ↦ rw z (last (draining 1) g.placed (λ e h. h))
  | inr z ↦ rw z (last running g.placed (λ e h. h))
]
  where
    last :
        (m : Mode)
        → Placed t.spool.bytes_acked t.pump.q (length t.input) m
        → ((e : ℕ) → AtQ t.pump.q e running → AtQ t.pump.q e m)
        → Good (
            pumped
              (record t { commands = rest })
              (t.tx, record { q = t.pump.q; done = t.pump.done; finishing = true; mode = m }))
    last m p f =
        pumping (with_mode t running) t.tx _ rest g
          (inl (not_exited running g.not_done running≢exited)) p (Queued-rest t.tx finish rest q)
          (unsent (with_mode t running) _ t.tx f (λ e. absurd (running≢exited e)) g.sends)

waiting_command :
    (t : Transfer) (cmd : RateCmd Half) (rest : List (RateCmd Half))
    → Good (with_mode t waiting)
    → Queued t.tx (cmd ∷ rest)
    → Good (
        pumped
          (record t { commands = rest })
          (on_cmd_waiting (half true) t.spool (some cmd) (t.tx, (with_mode t waiting).pump)))
unfolding on_cmd_waiting pumped
waiting_command t link_down rest g q =
    pumping (with_mode t waiting) t.tx _ rest g (inl (not_exited waiting g.not_done waiting≢exited))
      tt (Queued-rest t.tx link_down rest q)
      (unsent (with_mode t waiting) _ t.tx (λ e h. tt) (λ e. absurd (waiting≢exited e)) g.sends)
waiting_command t (link_up h) rest g q =
    let (q', s) = taken_up (with_mode t waiting) h t.tx rest _ g refl refl q g.sends in
    pumping (with_mode t waiting) h _ rest g (inl (not_exited waiting g.not_done waiting≢exited))
      (omega arith, g.holds.acked) q' s
waiting_command t finish rest g q =
    pumping (with_mode t waiting) t.tx _ rest g (inl (not_exited waiting g.not_done waiting≢exited))
      tt (Queued-rest t.tx finish rest q)
      (unsent (with_mode t waiting) _ t.tx (λ e h. tt) (λ e. absurd (waiting≢exited e)) g.sends)

command_mode :
    (t : Transfer) (cmd : RateCmd Half) (rest : List (RateCmd Half)) (m : Mode)
    → Good (with_mode t m)
    → Queued t.tx (cmd ∷ rest)
    → (m ≡ running) ⊎ (m ≡ waiting)
    → Good (
        pumped
          (record t { commands = rest })
          (on_cmd (half true) t.spool (some cmd) (t.tx, (with_mode t m).pump)))
unfolding on_cmd
command_mode t cmd rest running g q w = running_command t cmd rest g q
command_mode t cmd rest waiting g q w = waiting_command t cmd rest g q
command_mode t cmd rest (draining n) g q w = absurd (ground (arith, w))
command_mode t cmd rest exited g q w = absurd (ground (arith, w))

pub command-Good :
    (t : Transfer) (cmd : RateCmd Half) (rest : List (RateCmd Half))
    → Good t
    → t.commands ≡ cmd ∷ rest
    → (t.pump.mode ≡ running) ⊎ (t.pump.mode ≡ waiting)
    → Good (
        pumped
          (record t { commands = rest })
          (on_cmd (half true) t.spool (some cmd) (t.tx, t.pump)))
command-Good t cmd rest g e m =
    command_mode t cmd rest t.pump.mode g (subst (Queued t.tx) e g.queued) m

closed_mode :
    (t : Transfer) (m : Mode)
    → Good (with_mode t m)
    → (m ≡ running) ⊎ (m ≡ waiting)
    → Good (pumped t (on_cmd (half true) t.spool none (t.tx, (with_mode t m).pump)))
unfolding on_cmd on_cmd_running on_cmd_waiting pumped
closed_mode t running g w =
    pumping (with_mode t running) t.tx _ t.commands g (inr refl) tt g.queued
      (unsent (with_mode t running) _ t.tx (λ e h. tt) (λ e. refl) g.sends)
closed_mode t waiting g w =
    pumping (with_mode t waiting) t.tx _ t.commands g (inr refl) tt g.queued
      (unsent (with_mode t waiting) _ t.tx (λ e h. tt) (λ e. refl) g.sends)
closed_mode t (draining n) g w = absurd (ground (arith, w))
closed_mode t exited g w = absurd (ground (arith, w))

pub closed-Good :
    (t : Transfer)
    → Good t
    → (t.pump.mode ≡ running) ⊎ (t.pump.mode ≡ waiting)
    → Good (pumped t (on_cmd (half true) t.spool none (t.tx, t.pump)))
closed-Good t g m = closed_mode t t.pump.mode g m
