-- ===== src/Pump/Drain.antt =====
-- One pass of `drain_alloc` (quelay-agent/src/rate_limiter.rs).
use quelay.Common.{
  ℕ, ◌+◌, ◌-◌, min, ◌≤◌, ◌<◌, ◌≡◌, refl, sym, ◌⊎◌, inl, inr, Bool, true, false, none, some, List,
  ◌++◌, length, take, drop, arith, leb, ◌==◌, if◌then◌else◌, Bool-cases, Option-cases, subst,
  length-take, u64_max,
}
use quelay.Framing.{chunk_size, Chunk}
use quelay.Spool.{SpoolBuffer, head_offset}
use quelay.Spool.Window.{Holds, slice_from_window}
use quelay.Pump.{
  WriteHalf, Mode, running, draining, waiting, exited, StreamPump, send_fin, after_loop, send_chunk,
  drain_step,
}
use quelay.Pump.Slices.{IsSlice, prefix-IsSlice}

abbrev live : ℕ → Bool → Mode → StreamPump
live q finishing m = record { q = q; done = false; finishing = finishing; mode = m }

module _ (w : WriteHalf) (s : SpoolBuffer) where
  open w use {Tx, write, shutdown}

  -- What a pass does: it writes one slice within the budget, or its write fails, or it leaves the
  -- loop for `select!`, or it ends the stream.
  pub data Stepped (input : List ℕ) (remaining : ℕ) (tx : Tx) (p : StreamPump)
      : Tx × StreamPump → Type 0 where
    wrote :
        (c : Chunk) (tx' : Tx)
        → c.stream_offset ≡ p.q
        → IsSlice input c
        → length c.payload ≤ remaining
        → write tx c ≡ some tx'
        → Stepped input remaining tx p (
          tx',
          record p { q = p.q + length c.payload; mode = draining (remaining - length c.payload) },
        )
    refused :
        (c : Chunk)
        → write tx c ≡ none
        → Stepped input remaining tx p (tx, record p { mode = waiting })
    paused :
        (remaining ≡ 0) ⊎ (p.q ≡ length input)
        → (p.finishing ≡ true → s.head ≡ u64_max → p.q < length input)
        → Stepped input remaining tx p (tx, record p { mode = running })
    finished :
        (tx' : Tx)
        → p.finishing ≡ true
        → s.head ≡ u64_max
        → p.q ≡ length input
        → (tx' ≡ shutdown tx) ⊎ (tx' ≡ shutdown (shutdown tx))
        → Stepped input remaining tx p (tx', record p { done = true; mode = exited })

  module _ (input : List ℕ) (t : head_offset s ≡ length input) where
    -- The way out of the loop, without a FIN sent in it and with one.
    after_loop_fields :
        (remaining : ℕ) (tx : Tx) (q : ℕ) (finishing : Bool) (m : Mode)
        → let p = live q finishing m in
          q ≤ length input
          → (remaining ≡ 0) ⊎ (q ≡ length input)
          → Stepped input remaining tx p (after_loop w s (tx, p))
    unfolding after_loop
    after_loop_fields remaining tx q false m hq why = paused why (λ f. absurd (ground (arith, f)))
    after_loop_fields remaining tx q true m hq why = elim (Bool-cases (s.head == u64_max)) [
      | inr nh ↦ rw nh (paused why (λ _ h. absurd (ground (arith, nh, h))))
      | inl h ↦ elim (Bool-cases (head_offset s - q == 0)) [
        | inr nz ↦ rw (h, nz) (paused why (λ _ _. ground (arith, nz, t)))
        | inl z ↦
            rw (h, z, send_fin)
              (finished (shutdown tx) refl (ground (arith, h)) (ground (arith, z, t)) (inl refl))
      ]
    ]

    after_fin :
        (remaining : ℕ) (tx : Tx) (q : ℕ) (finishing : Bool) (m : Mode)
        → let p = live q finishing m in
          q ≡ length input
          → s.head ≡ u64_max
          → Stepped input remaining tx p
              (after_loop w s (if finishing then send_fin w (tx, p) else (tx, p)))
    unfolding after_loop send_fin
    after_fin remaining tx q false m e h = paused (inr e) (λ f. absurd (ground (arith, f)))
    after_fin remaining tx q true m e h =
        let h' : (s.head == u64_max) ≡ true = ground (arith, h) in
        let z : (head_offset s - q == 0) ≡ true = ground (arith, e, t) in
        rw (h', z) (finished (shutdown (shutdown tx)) refl h e (inr refl))

    send_cases :
        (remaining : ℕ) (tx : Tx) (p : StreamPump) (bs rest : List ℕ)
        → drop p.q input ≡ bs ++ rest
        → p.q < length input
        → 0 < length bs
        → 0 < remaining
        → Stepped input remaining tx p
            (send_chunk w remaining (take (min (min (length bs) chunk_size) remaining) bs) (tx, p))
    unfolding send_chunk
    send_cases remaining tx p bs rest e hq hb hr =
        let n = min (min (length bs) chunk_size) remaining in
        let c : Chunk = record { stream_offset = p.q; payload = take n bs } in
        elim (Option-cases (write tx c)) [
          | inl n ↦ rw (send_chunk, n) (refused c n)
          | inr (tx', y) ↦
              rw (send_chunk, y)
                (wrote c tx' refl
                  (prefix-IsSlice input p.q n bs rest (omega arith) e (omega arith) (omega arith)
                    (omega arith))
                  (omega (arith, length-take n bs)) y)
        ]

    step_fields :
        (seam remaining : ℕ) (tx : Tx) (q : ℕ) (finishing : Bool) (m : Mode)
        → let p = live q finishing m in
          Holds input s
          → s.bytes_acked ≤ q
          → q ≤ length input
          → (r : Tx × StreamPump) × (drain_step w seam s remaining (tx, p) ≡ some r)
            × Stepped input remaining tx p r
    unfolding drain_step after_loop send_fin send_chunk
    step_fields seam remaining tx q finishing m h lo hi = elim (Bool-cases (remaining == 0)) [
      | inl z ↦ (
        after_loop w s (tx, p),
        rw z refl,
        after_loop_fields remaining tx q finishing m hi (inl (ground (arith, z))),
      )
      | inr nz ↦ elim (Bool-cases (leb (head_offset s) q)) [
        | inl l ↦
            let e : q ≡ length input = ground (arith, l, t, hi) in
            elim (Bool-cases (s.head == u64_max)) [
              | inl eof ↦ (
                after_loop w s (if finishing then send_fin w (tx, p) else (tx, p)),
                rw (nz, l, eof) refl,
                after_fin remaining tx q finishing m e (ground (arith, eof)),
              )
              | inr more ↦ (
                after_loop w s (tx, p),
                rw (nz, l, more) refl,
                after_loop_fields remaining tx q finishing m hi (inr e),
              )
            ]
        | inr l ↦
            let less : q < length input = ground (arith, l, t) in
            let (bs, rest, e, d, some') = slice_from_window seam input s q h lo hi in
            let some'' : 0 < length bs = some' less in
            let chunk : List ℕ = take (min (min (length bs) chunk_size) remaining) bs in
            let some_chunk : (length chunk == 0) ≡ false =
              ground
                (arith, length-take (min (min (length bs) chunk_size) remaining) bs, some'', nz) in
            (
              send_chunk w remaining chunk (tx, p),
              elim (Bool-cases (s.head == u64_max)) [
                | inl eof ↦ rw (nz, l, eof, e, some_chunk) refl
                | inr more ↦ rw (nz, l, more, e, some_chunk) refl
              ],
              send_cases remaining tx p bs rest d less some'' (ground (arith, nz)),
            )
      ]
    ]
      where
        p : StreamPump
        p = live q finishing m

    -- A pass of a pump that is not done, whose `Q` lies between `A` and `T`, does not panic.
    pub drain_step_cases :
        (seam remaining : ℕ) (tx : Tx) (p : StreamPump)
        → p.done ≡ false
        → Holds input s
        → s.bytes_acked ≤ p.q
        → p.q ≤ length input
        → (r : Tx × StreamPump) × (drain_step w seam s remaining (tx, p) ≡ some r)
          × Stepped input remaining tx p r
    drain_step_cases seam remaining tx p d h lo hi =
        subst
          (λ done'.
            let p : StreamPump = record {
              q = p.q;
              done = done';
              finishing = p.finishing;
              mode = p.mode;
            } in
            (r : Tx × StreamPump) × (drain_step w seam s remaining (tx, p) ≡ some r)
            × Stepped input remaining tx p r)
          (sym d) (step_fields seam remaining tx p.q p.finishing p.mode h lo hi)
