-- ===== src/Pump/Loop.antt =====
-- `drain_alloc` (quelay-agent/src/rate_limiter.rs) as a whole, on a spool that does not change.
use quelay.Common.{
  ℕ, zero, suc, ◌+◌, ◌-◌, min, ◌≤◌, ◌<◌, ◌≡◌, refl, sym, ap, ◌⊎◌, inl, inr, true, false, Option,
  some, List, [], ◌∷◌, length, arith, u64_max, subst,
}
use quelay.Common.Panics.{◌>>=◌}
use quelay.Framing.{Chunk}
use quelay.Spool.{SpoolBuffer, head_offset}
use quelay.Spool.Window.{Holds}
use quelay.Pump.{WriteHalf, running, draining, waiting, exited, StreamPump, drain_alloc}
use quelay.Pump.Slices.{Contiguous}
use quelay.Pump.Drain.{Stepped, wrote, refused, paused, finished, drain_step_cases}

module _ (w : WriteHalf) where
  open w use {Tx, write, shutdown}

  -- The chunks of a list, written one after the other.
  abbrev write_each : Tx → List Chunk → Option Tx
  write_each tx [] = some tx
  write_each tx (c ∷ cs) = do tx ← write tx c; write_each tx cs

  -- How `drain_alloc` ends: it has used its budget or reached `T`, or a write has failed, or it has
  -- reached `T` behind the end of the input and sent FIN. `cs` are the chunks written.
  pub record Drained (input : List ℕ) (s : SpoolBuffer) (budget : ℕ) (tx : Tx) (p : StreamPump)
      (r : Tx × StreamPump) : Type 0 where
    pub chunks : List Chunk
    pub tx' : Tx
    pub written : write_each tx chunks ≡ some tx'
    pub contiguous : Contiguous input p.q chunks r.1.q
    pub within : r.1.q ≤ min (p.q + budget) (length input)
    pub ends :
        ((r.1.mode ≡ running)
          × (r.0 ≡ tx')
          × (r.1.q ≡ min (p.q + budget) (length input))
          × (p.finishing ≡ true → s.head ≡ u64_max → r.1.q < length input))
        ⊎ ((r.1.mode ≡ waiting) × (r.0 ≡ tx'))
        ⊎ ((r.1.mode ≡ exited)
            × (r.1.q ≡ length input)
            × (p.finishing ≡ true)
            × (s.head ≡ u64_max)
            × ((r.0 ≡ shutdown tx') ⊎ (r.0 ≡ shutdown (shutdown tx'))))

  module _ (s : SpoolBuffer) (input : List ℕ) (t : head_offset s ≡ length input)
      (h : Holds input s) where
    -- The statement for one amount of fuel.
    abbrev Ends : ℕ → ℕ → Type 0
    Ends fuel seam =
        (budget : ℕ) (tx : Tx) (p : StreamPump)
        → p.done ≡ false
        → s.bytes_acked ≤ p.q
        → p.q ≤ length input
        → budget < fuel
        → (r : Tx × StreamPump) × (drain_alloc w fuel seam s budget (tx, p) ≡ some r)
          × Drained input s budget tx p r

    stopped :
        (budget : ℕ) (tx : Tx) (p : StreamPump) (r : Tx × StreamPump)
        → r.1.q ≡ p.q
        → p.q ≤ length input
        → ((r.1.mode ≡ running)
            × (r.0 ≡ tx)
            × (r.1.q ≡ min (p.q + budget) (length input))
            × (p.finishing ≡ true → s.head ≡ u64_max → r.1.q < length input))
          ⊎ ((r.1.mode ≡ waiting) × (r.0 ≡ tx))
          ⊎ ((r.1.mode ≡ exited)
              × (r.1.q ≡ length input)
              × (p.finishing ≡ true)
              × (s.head ≡ u64_max)
              × ((r.0 ≡ shutdown tx) ⊎ (r.0 ≡ shutdown (shutdown tx))))
        → Drained input s budget tx p r
    stopped budget tx p r e hi how = record {
      chunks = [];
      tx' = tx;
      written = refl;
      contiguous = sym e;
      within = omega arith;
      ends = how;
    }

    after_step :
        (fuel seam : ℕ)
        → Ends fuel seam
        → (budget : ℕ) (tx : Tx) (p : StreamPump) → p.done ≡ false
        → s.bytes_acked ≤ p.q
        → p.q ≤ length input
        → budget < suc fuel
        → (r : Tx × StreamPump) → Stepped w s input budget tx p r
        → (r' : Tx × StreamPump) × ((elim r.1.mode [
          | draining rest ↦ drain_alloc w fuel seam s rest r
          | running ↦ some r
          | waiting ↦ some r
          | exited ↦ some r
        ])
            ≡ some r')
          × Drained input s budget tx p r'
    after_step fuel seam ih budget tx p d lo hi f _ (refused c e) =
        (_, refl, stopped budget tx p _ refl hi (inr (inl (refl, refl))))
    after_step fuel seam ih budget tx p d lo hi f _ (paused why more) =
        (_, refl, stopped budget tx p _ refl hi (inl (refl, refl, ground (arith, why), more)))
    after_step fuel seam ih budget tx p d lo hi f _ (finished tx' g eof e two) =
        (_, refl, stopped budget tx p _ refl hi (inr (inr (refl, e, g, eof, two))))
    after_step fuel seam ih budget tx p d lo hi f _ (wrote c tx' o v l e) =
        let p' : StreamPump = record p {
          q = p.q + length c.payload;
          mode = draining (budget - length c.payload);
        } in
        let n = v.nonempty in
        let i = v.within in
        let (r, e', rest) =
          ih (budget - length c.payload) tx' p' d (omega arith) (omega arith) (omega arith) in
        let b : p'.q + (budget - length c.payload) ≡ p.q + budget = omega arith in
        (
          r,
          e',
          record {
            chunks = c ∷ rest.chunks;
            tx' = rest.tx';
            written = rw e rest.written;
            contiguous = (
              o,
              v,
              subst (λ k. Contiguous input k rest.chunks r.1.q)
                  (ap (λ k. k + length c.payload) (sym o)) rest.contiguous,
            );
            within = rw b at rest.within;
            ends = rw b at rest.ends;
          },
        )

    -- With more fuel than budget, `drain_alloc` returns and does not panic: the loop ends. What it
    -- writes is the stream from `Q` on, without a gap, and at most the budget.
    pub drain_alloc_ends :
        (fuel seam budget : ℕ) (tx : Tx) (p : StreamPump)
        → p.done ≡ false
        → s.bytes_acked ≤ p.q
        → p.q ≤ length input
        → budget < fuel
        → (r : Tx × StreamPump) × (drain_alloc w fuel seam s budget (tx, p) ≡ some r)
          × Drained input s budget tx p r
    unfolding drain_alloc
    drain_alloc_ends zero seam budget tx p d lo hi f = absurd (omega arith)
    drain_alloc_ends (suc fuel) seam budget tx p d lo hi f =
        let (r, e, c) = drain_step_cases w s input t seam budget tx p d h lo hi in
        rw e (after_step fuel seam (drain_alloc_ends fuel seam) budget tx p d lo hi f r c)
