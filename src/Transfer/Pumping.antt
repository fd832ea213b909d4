-- ===== src/Transfer/Pumping.antt =====
-- The steps of `StreamPump` (quelay-agent/src/rate_limiter.rs) keep the invariant of a transfer.
use quelay.Common.{
  ℕ, ◌+◌, ◌-◌, ◌≡◌, refl, sym, ◌∙◌, ◌⊎◌, inl, inr, Bool, true, false, some, List, ◌∷◌, length,
  arith, u64_max, subst,
}
use quelay.Framing.{Chunk}
use quelay.Spool.{head_offset}
use quelay.Spool.Invariant.{head_offset-IsValid}
use quelay.Spool.Window.{Holds-length}
use quelay.Pump.{
  Mode, running, draining, waiting, exited, StreamPump, RateCmd, link_down, link_up, finish,
  drain_step, on_ticket,
}
use quelay.Pump.Drain.{Stepped, wrote, refused, paused, finished, drain_step_cases}
use quelay.Pump.Slices.{Contiguous-snoc, IsSlice, chunk_end}
use quelay.Transfer.{Half, live, dead, half, half_write, half_shutdown, Transfer, pumped}
use quelay.Transfer.Invariant.{Queued, Placed, AtQ, InFlight, Good, Command-AtMostOne, Honest-far}

-- Another state of the pump and its half.
pub pumping :
    (t : Transfer) (tx' : Half) (pump' : StreamPump) (commands' : List (RateCmd Half))
    → Good t
    → (pump'.done ≡ false) ⊎ (pump'.mode ≡ exited)
    → Placed t.spool.bytes_acked pump'.q (length t.input) pump'.mode
    → Queued tx' commands'
    → InFlight t.input t.spool.head t.down pump' t.replies tx'
    → Good (pumped (record t { commands = commands' }) (tx', pump'))
unfolding pumped
pumping t tx' pump' commands' g d p q s = record {
  valid = g.valid;
  holds = g.holds;
  not_done = d;
  placed = p;
  queued = q;
  known = g.known;
  written = g.written;
  client = g.client;
  truthful = g.truthful;
  sends = s;
  offered = g.offered;
  old_from = g.old_from;
  old_to = g.old_to;
  old_known = g.old_known;
  old = g.old;
}

-- The wire stays as it is where the pump does not send from another place.
pub unsent :
    (t : Transfer) (pump' : StreamPump) (tx : Half)
    → ((e : ℕ) → AtQ t.pump.q e t.pump.mode → AtQ pump'.q e pump'.mode)
    → (t.pump.mode ≡ exited → pump'.mode ≡ exited)
    → InFlight t.input t.spool.head t.down t.pump t.replies tx
    → InFlight t.input t.spool.head t.down pump' t.replies tx
unsent t pump' dead f x h = h
unsent t pump' (live wire fin) f x s = record {
  from = s.from;
  to = s.to;
  known = s.known;
  contiguous = s.contiguous;
  to_le = s.to_le;
  honest = s.honest;
  at_q = f s.to s.at_q;
  ended = λ e. let (a, b, c) = s.ended e in (a, b, x c);
}

top : (t : Transfer) → Good t → head_offset t.spool ≡ length t.input
top t g = head_offset-IsValid t.spool g.valid ∙ Holds-length t.input t.spool g.holds

some_inj : {A : Type 0} {a b : A} → some a ≡ some b → a ≡ b
some_inj e = ground (arith, e)

pub not_exited : {A : Type 0} (m : Mode) → A ⊎ (m ≡ exited) → (m ≡ exited → ⊥) → A
not_exited m (inl a) n = a
not_exited m (inr e) n = absurd (n e)

pub running≢exited : running ≡ exited → ⊥
running≢exited e = ground (arith, e)

pub draining≢exited : (rest : ℕ) → draining rest ≡ exited → ⊥
draining≢exited rest e = ground (arith, e)

pub waiting≢exited : waiting ≡ exited → ⊥
waiting≢exited e = ground (arith, e)

-- The transfer with its pump's fields apart.
abbrev pub with_mode : Transfer → Mode → Transfer
with_mode t m = record t {
  pump = record { q = t.pump.q; done = t.pump.done; finishing = t.pump.finishing; mode = m };
}

ticket_mode :
    (t : Transfer) (budget : ℕ) (m : Mode)
    → Good (with_mode t m)
    → Good (record t { pump = on_ticket (some budget) ((with_mode t m).pump) })
unfolding on_ticket pumped
ticket_mode t budget running g =
    pumping (with_mode t running) t.tx (record t.pump { mode = draining budget }) t.commands g
      (inl (not_exited running g.not_done running≢exited)) g.placed g.queued
      (unsent (with_mode t running) (record t.pump { mode = draining budget }) t.tx (λ e h. h)
        (λ e. absurd (running≢exited e)) g.sends)
ticket_mode t budget (draining rest) g = g
ticket_mode t budget waiting g = g
ticket_mode t budget exited g = g

pub ticket-Good :
    (t : Transfer) (budget : ℕ) → Good t → Good (record t { pump = on_ticket (some budget) t.pump })
ticket-Good t budget g = ticket_mode t budget t.pump.mode g

wrote_half :
    (t : Transfer) (ok : Bool) (remaining : ℕ) (c : Chunk) (tx tx' : Half)
    → t.pump.mode ≡ draining remaining
    → c.stream_offset ≡ t.pump.q
    → IsSlice t.input c
    → half_write ok tx c ≡ some tx'
    → Queued tx t.commands
    → InFlight t.input t.spool.head t.down t.pump t.replies tx
    → Queued tx' t.commands
      × InFlight t.input t.spool.head t.down
          (record t.pump {
            q = t.pump.q + length c.payload;
            mode = draining (remaining - length c.payload);
          })
          t.replies
          tx'
unfolding half_write
wrote_half t false remaining c tx tx' m o v w q s = absurd (ground (arith, w))
wrote_half t true remaining c dead tx' m o v w q s =
    subst
      (λ tx'.
        Queued tx' t.commands
        × InFlight t.input t.spool.head t.down
            (record t.pump {
              q = t.pump.q + length c.payload;
              mode = draining (remaining - length c.payload);
            })
            t.replies tx')
      (some_inj w) (q, s)
wrote_half t true remaining c (live wire fin) tx' m o v w q s =
    let at = rw m at s.at_q in
    let n = v.nonempty in
    subst
      (λ tx'.
        Queued tx' t.commands
        × InFlight t.input t.spool.head t.down
            (record t.pump {
              q = t.pump.q + length c.payload;
              mode = draining (remaining - length c.payload);
            })
            t.replies tx')
      (some_inj w)
      (
        q,
        record {
          from = s.from;
          to = chunk_end c;
          known = s.known;
          contiguous = Contiguous-snoc t.input s.from s.to wire c s.contiguous (o ∙ sym at) v;
          to_le = v.within;
          honest =
              Honest-far t.down.bytes_written s.to (chunk_end c) t.replies (omega arith) s.honest;
          at_q = omega arith;
          ended = λ f. absurd (draining≢exited remaining (sym m ∙ (s.ended f).2));
        },
      )

-- The pump goes on from where it stands.
wrote-Good :
    (t : Transfer) (ok : Bool) (remaining : ℕ) (c : Chunk) (tx' : Half)
    → Good t
    → t.pump.mode ≡ draining remaining
    → t.pump.done ≡ false
    → c.stream_offset ≡ t.pump.q
    → IsSlice t.input c
    → half_write ok t.tx c ≡ some tx'
    → Good (
        pumped t (
          tx',
          record t.pump {
            q = t.pump.q + length c.payload;
            mode = draining (remaining - length c.payload);
          },
        ))
wrote-Good t ok remaining c tx' g m d o v w =
    let p = rw m at g.placed in
    let i = v.within in
    let (q, s) = wrote_half t ok remaining c t.tx tx' m o v w g.queued g.sends in
    pumping t tx' _ t.commands g (inl d) (omega (arith, p), omega arith) q s

ended_half :
    (t : Transfer) (remaining : ℕ) (tx : Half)
    → t.pump.mode ≡ draining remaining
    → t.spool.head ≡ u64_max
    → t.pump.q ≡ length t.input
    → Queued tx t.commands
    → InFlight t.input t.spool.head t.down t.pump t.replies tx
    → Queued (half_shutdown tx) t.commands
      × InFlight t.input t.spool.head t.down
          (record t.pump { done = true; mode = exited })
          t.replies
          (half_shutdown tx)
      × (half_shutdown (half_shutdown tx) ≡ half_shutdown tx)
unfolding half_shutdown
ended_half t remaining dead m eof e q s = (q, s, refl)
ended_half t remaining (live wire fin) m eof e q s =
    let at = rw m at s.at_q in
    (
      q,
      record {
        from = s.from;
        to = s.to;
        known = s.known;
        contiguous = s.contiguous;
        to_le = s.to_le;
        honest = s.honest;
        at_q = tt;
        ended = λ _. (at ∙ e, eof, refl);
      },
      refl,
    )

pub drain-Good :
    (t : Transfer) (ok : Bool) (seam remaining : ℕ) (r : Half × StreamPump)
    → Good t
    → t.pump.mode ≡ draining remaining
    → drain_step (half ok) seam t.spool remaining (t.tx, t.pump) ≡ some r
    → Good (pumped t r)
drain-Good t ok seam remaining r g m e =
    let p = rw m at g.placed in
    let d = not_exited t.pump.mode g.not_done (λ x. draining≢exited remaining (sym m ∙ x)) in
    let (r', e', c) =
      drain_step_cases (half ok) t.spool t.input (top t g) seam remaining t.tx t.pump d g.holds p.0
        p.1 in
    subst (λ r. Good (pumped t r)) (some_inj (sym e' ∙ e)) (after r' d c)
  where
    after :
        (r : Half × StreamPump)
        → t.pump.done ≡ false
        → Stepped (half ok) t.spool t.input remaining t.tx t.pump r
        → Good (pumped t r)
    after _ d (wrote c tx' o v l w) = wrote-Good t ok remaining c tx' g m d o v w
    after _ d (refused c n) =
        pumping t t.tx (record t.pump { mode = waiting }) t.commands g (inl d) tt g.queued
          (unsent t (record t.pump { mode = waiting }) t.tx (λ e h. tt)
            (λ x. absurd (draining≢exited remaining (sym m ∙ x))) g.sends)
    after _ d (paused why more) =
        pumping t t.tx (record t.pump { mode = running }) t.commands g (inl d) (rw m at g.placed)
          g.queued
          (unsent t (record t.pump { mode = running }) t.tx (λ e h. rw m at h)
            (λ x. absurd (draining≢exited remaining (sym m ∙ x))) g.sends)
    after _ d (finished tx' f eof e two) =
        let (q, s, twice) = ended_half t remaining t.tx m eof e g.queued g.sends in
        let once : tx' ≡ half_shutdown t.tx = elim two [ inl a ↦ a | inr a ↦ a ∙ twice ] in
        subst (λ tx'. Good (pumped t (tx', record t.pump { done = true; mode = exited })))
          (sym once)
          (pumping t (half_shutdown t.tx) (record t.pump { done = true; mode = exited }) t.commands
            g (inr refl) tt q s)

-- The rest of the queue behind a command.
pub Queued-rest :
    (tx : Half) (cmd : RateCmd Half) (rest : List (RateCmd Half))
    → Queued tx (cmd ∷ rest)
    → Queued tx rest
Queued-rest (live wire fin) cmd rest h = h.1
Queued-rest dead link_down rest h = h
Queued-rest dead finish rest h = h
Queued-rest dead (link_up x) rest (inl h) = h.1
Queued-rest dead (link_up x) rest (inr h) = Command-AtMostOne rest h.1
