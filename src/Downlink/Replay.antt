-- ===== src/Downlink/Replay.antt =====
-- `run_downlink` (quelay-agent/src/active_stream.rs) on chunks of the stream that start at or before
-- what it has written: new chunks, and chunks that are replayed after a reconnection.
use quelay.Common.{
  ℕ, ◌+◌, ◌-◌, max, ◌≤◌, ◌<◌, ◌≡◌, refl, sym, ap, ◌∙◌, ◌⊎◌, inl, inr, Bool, true, false, List, [],
  ◌∷◌, ◌++◌, length, take, drop, All, arith, ltb, leb, ◌==◌, if◌then◌else◌, Bool-cases, length-drop,
  take-add, drop-drop, drop-take, le→ltb_false,
}
use quelay.Framing.{ack_interval, Chunk, WormholeMsg, ack, done, error}
use quelay.Pump.Slices.{IsSlice, chunk_end}
use quelay.Downlink.{returned, Downlink, Replies, periodic_ack, fire, give_up, write_new, on_chunk}
use quelay.Domain.Callback.{unknown, Cause, tcp_write, stream_failed}

-- An acknowledgement is of bytes that the receiver has written to its client (`w`), and that the
-- sender has sent on this stream (`e`).
abbrev pub Honest : ℕ → ℕ → WormholeMsg Cause → Type 0
Honest w e (ack n) = (n ≤ w) × (n ≤ e)
Honest w e done = Unit
Honest w e (error code why) = Unit

-- What has come of a chunk.
pub record Received (input : List ℕ) (d : Downlink) (e : ℕ) (r : Downlink × Replies) : Type 0 where
  pub grows : d.bytes_written ≤ r.0.bytes_written
  pub within : r.0.bytes_written ≤ length input
  pub client : r.0.client ≡ take r.0.bytes_written input
  pub honest : All (Honest r.0.bytes_written e) r.1
  pub callbacks :
      (r.0.callbacks ≡ d.callbacks)
      ⊎ (r.0.callbacks ≡ d.callbacks ++ stream_failed unknown tcp_write ∷ [])
  pub progress : (r.0.phase ≡ returned) ⊎ (r.0.bytes_written ≡ max d.bytes_written e)

-- The trimmed payload is what the client has not got yet.
take-slice :
    (input : List ℕ) (c : Chunk) (w : ℕ)
    → IsSlice input c
    → c.stream_offset ≤ w
    → w < chunk_end c
    → take w input ++ drop (w - c.stream_offset) c.payload ≡ take (chunk_end c) input
take-slice input c w v lo hi =
    let k = w - c.stream_offset in
    let n = length c.payload in
    let o : c.stream_offset + k ≡ w = omega arith in
    let trimmed : drop k c.payload ≡ take (n - k) (drop w input) =
      ap (drop k) v.content
      ∙ drop-take k n (drop c.stream_offset input)
      ∙ ap (take (n - k)) (drop-drop k c.stream_offset input ∙ ap (λ j. drop j input) o) in
    ap (λ bs. take w input ++ bs) trimmed
    ∙ take-add w (n - k) input
    ∙ ap (λ j. take j input) (omega arith)

periodic_ack-Received :
    (input : List ℕ) (d d' : Downlink) (e : ℕ)
    → d.bytes_written ≤ d'.bytes_written
    → d'.bytes_written ≤ length input
    → d'.bytes_written ≡ e
    → d'.client ≡ take d'.bytes_written input
    → d'.callbacks ≡ d.callbacks
    → Received input d e (periodic_ack d')
unfolding periodic_ack
periodic_ack-Received input d d' e g w le' c cb =
    elim (Bool-cases (leb ack_interval (d'.bytes_written - d'.last_acked))) [
      | inl y ↦ rw y (record {
        grows = g;
        within = w;
        client = c;
        honest = ((omega arith, omega arith), tt);
        callbacks = inl cb;
        progress = inr (omega arith);
      })
      | inr n ↦ rw n (record {
        grows = g;
        within = w;
        client = c;
        honest = tt;
        callbacks = inl cb;
        progress = inr (omega arith);
      })
    ]

periodic_ack-bytes_written : (d : Downlink) → (periodic_ack d).0.bytes_written ≡ d.bytes_written
unfolding periodic_ack
periodic_ack-bytes_written d =
    elim (Bool-cases (leb ack_interval (d.bytes_written - d.last_acked))) [
      | inl y ↦ rw y refl
      | inr n ↦ rw n refl
    ]

module _ (unknown_code : ℕ) where
  write_new-Received :
      (tcp_ok : Bool) (input : List ℕ) (d : Downlink) (e : ℕ) (bs : List ℕ)
      → 0 < length bs
      → d.bytes_written + length bs ≡ e
      → e ≤ length input
      → d.client ≡ take d.bytes_written input
      → take d.bytes_written input ++ bs ≡ take e input
      → Received input d e (write_new unknown_code tcp_ok d bs)
        × (tcp_ok ≡ true → (write_new unknown_code tcp_ok d bs).0.bytes_written ≡ e)
  unfolding write_new
  write_new-Received true input d e bs pos' len hi cl eq =
      let some_bytes : (length bs == 0) ≡ false = ground (arith, pos') in
      let d' : Downlink = record d {
        bytes_written = d.bytes_written + length bs;
        client = d.client ++ bs;
      } in
      rw some_bytes (
        periodic_ack-Received input d d' e (omega arith) (omega arith) (omega arith)
            (ap (λ xs. xs ++ bs) cl ∙ eq ∙ ap (λ k. take k input) (sym len)) refl,
        λ _. periodic_ack-bytes_written d' ∙ len,
      )
  write_new-Received false input d e bs pos' len hi cl eq =
      let some_bytes : (length bs == 0) ≡ false = ground (arith, pos') in
      rw (some_bytes, give_up, fire)
        (
          record {
            grows = omega arith;
            within = omega arith;
            client = cl;
            honest = (tt, tt);
            callbacks = inr refl;
            progress = inl refl;
          },
          λ f. absurd (ground (arith, f)),
        )

  -- A slice that starts at or before what is written: the receiver skips it or writes what is new of
  -- it, or its client's socket fails. Its client has a prefix of the stream, it acknowledges no more
  -- than it has written and been sent, and it finds no gap.
  pub on_chunk-Received :
      (tcp_ok : Bool) (input : List ℕ) (d : Downlink) (c : Chunk)
      → IsSlice input c
      → c.stream_offset ≤ d.bytes_written
      → d.bytes_written ≤ length input
      → d.client ≡ take d.bytes_written input
      → Received input d (chunk_end c) (on_chunk unknown_code tcp_ok d c)
        × (tcp_ok ≡ true
            → (on_chunk unknown_code tcp_ok d c).0.bytes_written
              ≡ max d.bytes_written (chunk_end c))
  unfolding on_chunk
  on_chunk-Received tcp_ok input d c v lo hi cl =
      elim (Bool-cases (leb (c.stream_offset + length c.payload) d.bytes_written)) [
        | inl y ↦ rw y (
          record {
            grows = omega arith;
            within = hi;
            client = cl;
            honest = tt;
            callbacks = inl refl;
            progress = inr (ground (arith, y));
          },
          λ _. ground (arith, y),
        )
        | inr n ↦
            let new' : d.bytes_written < chunk_end c = ground (arith, n) in
            let inside = v.within in
            let len = length-drop (d.bytes_written - c.stream_offset) c.payload in
            let (r, all) =
              write_new-Received tcp_ok input d (chunk_end c)
                (drop (d.bytes_written - c.stream_offset) c.payload) (omega arith) (omega arith)
                inside cl (take-slice input c d.bytes_written v lo new') in
            rw (n, le→ltb_false d.bytes_written c.stream_offset lo, skip)
              (r, λ o. all o ∙ omega arith)
      ]
    where
      skip :
          (if ltb c.stream_offset d.bytes_written then d.bytes_written - c.stream_offset else 0)
          ≡ d.bytes_written - c.stream_offset
      skip = ground arith
