-- ===== src/Transfer/Invariant.antt =====
-- What holds of a transfer (quelay-agent/src/active_stream.rs, quelay-agent/src/rate_limiter.rs) at
-- every moment.
use quelay.Common.{
  ℕ, ◌≤◌, ◌≡◌, refl, ◌⊎◌, Bool, true, false, List, [], ◌∷◌, ◌++◌, length, take, map, inl, inr, All,
  All-append, All-mono, arith, u64_max,
}
use quelay.Framing.{Chunk, WormholeMsg, ack, done, error}
use quelay.Spool.{new}
use quelay.Spool.Invariant.{IsValid, new-IsValid}
use quelay.Spool.Window.{Holds}
use quelay.Pump.{
  Mode, running, draining, waiting, exited, StreamPump, RateCmd, link_down, link_up, finish,
}
use quelay.Pump.Slices.{Contiguous}
use quelay.Downlink.{Downlink, returned, started}
use quelay.Downlink.Replay.{Honest}
use quelay.Domain.Callback.{
  Cause, chunk_gap, tcp_write, tcp_read, accept_failed, link_lost, reader_gone, peer_said,
  CallbackCmd, stream_done, stream_failed,
}
use quelay.Transfer.{Half, live, dead, give_up, Transfer, opened}

-- Success is reported for the whole input, after its end, when the client has it; a gap is never
-- reported.
abbrev pub Truthful : ℕ → ℕ → ℕ → CallbackCmd → Type 0
Truthful len head w (stream_done n wire) = (n ≡ len) × (head ≡ u64_max) × (n ≤ w)
Truthful len head w (stream_failed r (chunk_gap expected got)) = ⊥
Truthful len head w (stream_failed r tcp_write) = Unit
Truthful len head w (stream_failed r tcp_read) = Unit
Truthful len head w (stream_failed r accept_failed) = Unit
Truthful len head w (stream_failed r link_lost) = Unit
Truthful len head w (stream_failed r reader_gone) = Unit
Truthful len head w (stream_failed r (peer_said code)) = Unit

-- The pump takes one fresh half after the last stream is given up, and none while it has it.
abbrev pub Command : RateCmd Half → Type 0
Command link_down = Unit
Command (link_up h) = ⊥
Command finish = Unit

abbrev AtMostOne : List (RateCmd Half) → Type 0
AtMostOne [] = Unit
AtMostOne (link_down ∷ cmds) = AtMostOne cmds
AtMostOne (link_up h ∷ cmds) =
    ((h ≡ dead) × AtMostOne cmds) ⊎ ((h ≡ live [] false) × All Command cmds)
AtMostOne (finish ∷ cmds) = AtMostOne cmds

abbrev pub Queued : Half → List (RateCmd Half) → Type 0
Queued (live wire fin) cmds = All Command cmds
Queued dead cmds = AtMostOne cmds

-- While `Q` counts, it lies between `A` and `T`.
abbrev pub Placed : ℕ → ℕ → ℕ → Mode → Type 0
Placed a q len running = (a ≤ q) × (q ≤ len)
Placed a q len (draining rest) = (a ≤ q) × (q ≤ len)
Placed a q len waiting = Unit
Placed a q len exited = Unit

-- The wire ends at `Q` while the pump sends.
abbrev pub AtQ : ℕ → ℕ → Mode → Type 0
AtQ q e running = e ≡ q
AtQ q e (draining rest) = e ≡ q
AtQ q e waiting = Unit
AtQ q e exited = Unit

-- What is in flight continues the stream from at most `W`; FIN is behind all of the input.
pub record Sends (input : List ℕ) (head : ℕ) (down : Downlink) (pump : StreamPump)
    (replies : List (WormholeMsg Cause)) (wire : List Chunk) (fin : Bool) : Type 0 where
  pub from : ℕ
  pub to : ℕ
  pub known : (down.phase ≡ returned) ⊎ (from ≤ down.bytes_written)
  pub contiguous : Contiguous input from wire to
  pub to_le : to ≤ length input
  pub honest : All (Honest down.bytes_written to) replies
  pub at_q : AtQ pump.q to pump.mode
  pub ended : fin ≡ true → (to ≡ length input) × (head ≡ u64_max) × (pump.mode ≡ exited)

abbrev pub InFlight : List ℕ → ℕ → Downlink → StreamPump → List (WormholeMsg Cause) → Half → Type 0
InFlight input head down pump replies (live wire fin) = Sends input head down pump replies wire fin
InFlight input head down pump replies dead = replies ≡ []

pub record Good (t : Transfer) : Type 0 where
  pub valid : IsValid t.spool
  pub holds : Holds t.input t.spool
  pub not_done : (t.pump.done ≡ false) ⊎ (t.pump.mode ≡ exited)
  pub placed : Placed t.spool.bytes_acked t.pump.q (length t.input) t.pump.mode
  pub queued : Queued t.tx t.commands
  pub known : t.spool.bytes_acked ≤ t.down.bytes_written
  pub written : t.down.bytes_written ≤ length t.input
  pub client : t.down.client ≡ take t.down.bytes_written t.input
  pub truthful : All (Truthful (length t.input) t.spool.head t.down.bytes_written) t.down.callbacks
  pub sends : InFlight t.input t.spool.head t.down t.pump t.replies t.tx
  pub offered : t.offer ≤ t.down.bytes_written
  pub old_from : ℕ
  pub old_to : ℕ
  pub old_known : (t.down.phase ≡ returned) ⊎ (old_from ≤ t.down.bytes_written)
  pub old : Contiguous t.input old_from t.old_wire old_to

pub opened-Good : (wire_bytes : ℕ) → Good (opened wire_bytes)
unfolding opened new started
opened-Good wire_bytes = record {
  valid = new-IsValid;
  holds = record { held = refl; acked = omega arith };
  not_done = inl refl;
  placed = (omega arith, omega arith);
  queued = tt;
  known = omega arith;
  written = omega arith;
  client = refl;
  truthful = tt;
  sends = record {
    from = 0;
    to = 0;
    known = inr (omega arith);
    contiguous = refl;
    to_le = omega arith;
    honest = tt;
    at_q = refl;
    ended = λ f. absurd (ground (arith, f));
  };
  offered = omega arith;
  old_from = 0;
  old_to = 0;
  old_known = inr (omega arith);
  old = refl;
}

-- Commands other than a fresh half may be queued at any time.
AtMostOne-append :
    (cmds sent : List (RateCmd Half)) → AtMostOne cmds → All Command sent → AtMostOne (cmds ++ sent)
AtMostOne-append [] [] q h = tt
AtMostOne-append [] (link_down ∷ sent) q h = AtMostOne-append [] sent tt h.1
AtMostOne-append [] (link_up x ∷ sent) q h = absurd h.0
AtMostOne-append [] (finish ∷ sent) q h = AtMostOne-append [] sent tt h.1
AtMostOne-append (link_down ∷ cmds) sent q h = AtMostOne-append cmds sent q h
AtMostOne-append (link_up x ∷ cmds) sent (inl (e, q)) h = inl (e, AtMostOne-append cmds sent q h)
AtMostOne-append (link_up x ∷ cmds) sent (inr (e, q)) h = inr (e, All-append Command cmds sent q h)
AtMostOne-append (finish ∷ cmds) sent q h = AtMostOne-append cmds sent q h

pub Queued-append :
    (tx : Half) (cmds sent : List (RateCmd Half))
    → Queued tx cmds
    → All Command sent
    → Queued tx (cmds ++ sent)
Queued-append (live wire fin) cmds sent q h = All-append Command cmds sent q h
Queued-append dead cmds sent q h = AtMostOne-append cmds sent q h

pub Command-AtMostOne : (cmds : List (RateCmd Half)) → All Command cmds → AtMostOne cmds
Command-AtMostOne cmds h = AtMostOne-append [] cmds tt h

-- A fresh half is the only one once the earlier ones are given up.
pub AtMostOne-give_up :
    (cmds sent : List (RateCmd Half))
    → All Command sent
    → AtMostOne (map give_up cmds ++ link_up (live [] false) ∷ sent)
unfolding give_up
AtMostOne-give_up [] sent h = inr (refl, h)
AtMostOne-give_up (link_down ∷ cmds) sent h = AtMostOne-give_up cmds sent h
AtMostOne-give_up (link_up x ∷ cmds) sent h = inl (refl, AtMostOne-give_up cmds sent h)
AtMostOne-give_up (finish ∷ cmds) sent h = AtMostOne-give_up cmds sent h

pub AtMostOne-given_up : (cmds : List (RateCmd Half)) → AtMostOne (map give_up cmds ++ [])
unfolding give_up
AtMostOne-given_up [] = tt
AtMostOne-given_up (link_down ∷ cmds) = AtMostOne-given_up cmds
AtMostOne-given_up (link_up x ∷ cmds) = inl (refl, AtMostOne-given_up cmds)
AtMostOne-given_up (finish ∷ cmds) = AtMostOne-given_up cmds

-- Nothing that the receiver has got is taken back when it gets more.
pub Honest-mono :
    (w w' e : ℕ) (ms : List (WormholeMsg Cause))
    → w ≤ w'
    → All (Honest w e) ms
    → All (Honest w' e) ms
Honest-mono w w' e ms l h = All-mono (Honest w e) (Honest w' e) weaker ms h
  where
    weaker : (m : WormholeMsg Cause) → Honest w e m → Honest w' e m
    weaker (ack n) h = (omega (arith, h), h.1)
    weaker done h = tt
    weaker (error code why) h = tt

pub Honest-far :
    (w e e' : ℕ) (ms : List (WormholeMsg Cause))
    → e ≤ e'
    → All (Honest w e) ms
    → All (Honest w e') ms
Honest-far w e e' ms l h = All-mono (Honest w e) (Honest w e') weaker ms h
  where
    weaker : (m : WormholeMsg Cause) → Honest w e m → Honest w e' m
    weaker (ack n) h = (h.0, omega (arith, h))
    weaker done h = tt
    weaker (error code why) h = tt

pub Truthful-mono :
    (len head w w' : ℕ) (cbs : List CallbackCmd)
    → w ≤ w'
    → All (Truthful len head w) cbs
    → All (Truthful len head w') cbs
Truthful-mono len head w w' cbs l h =
    All-mono (Truthful len head w) (Truthful len head w') weaker cbs h
  where
    weaker : (cb : CallbackCmd) → Truthful len head w cb → Truthful len head w' cb
    weaker (stream_done n wire) h = (h.0, h.1, omega (arith, h))
    weaker (stream_failed r (chunk_gap x y)) h = h
    weaker (stream_failed r tcp_write) h = tt
    weaker (stream_failed r tcp_read) h = tt
    weaker (stream_failed r accept_failed) h = tt
    weaker (stream_failed r link_lost) h = tt
    weaker (stream_failed r reader_gone) h = tt
    weaker (stream_failed r (peer_said code)) h = tt
