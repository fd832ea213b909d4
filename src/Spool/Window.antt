-- ===== src/Spool/Window.antt =====
-- The spool as a window on its stream: what `A`, `T` and the buffer say of the bytes that the client
-- has sent so far (quelay-agent/src/active_stream.rs).
use quelay.Common.{
  ℕ, ◌+◌, ◌-◌, min, ◌≤◌, ◌<◌, ◌≡◌, refl, sym, ap, ◌∙◌, inl, inr, some, List, [], ◌++◌, append-nil,
  length, take, drop, arith, ltb, leb, ◌==◌, Bool-cases, length-append, length-drop, length-take,
  take-append-drop, drop-drop, drop-append_le, drop-append_ge, u64_max, le→leb, le→ltb_false,
}
use quelay.Spool.{SpoolBuffer, push, ack, slice_from, handle_eof}

-- The buffer holds the stream from `A` on.
pub record Holds (input : List ℕ) (s : SpoolBuffer) : Type 0 where
  pub held : s.buf ≡ drop s.bytes_acked input
  pub acked : s.bytes_acked ≤ length input

pub Holds-length :
    (input : List ℕ) (s : SpoolBuffer) → Holds input s → s.bytes_acked + length s.buf ≡ length input
Holds-length input s h =
    let l : length s.buf ≡ length (drop s.bytes_acked input) = ap length h.held in
    ground (arith, length-drop s.bytes_acked input, h.acked)

pub push-Holds :
    (input bs : List ℕ) (s : SpoolBuffer) → Holds input s → Holds (input ++ bs) (push s bs)
unfolding push
push-Holds input bs s h = record {
  held = ap (λ xs. xs ++ bs) h.held ∙ sym (drop-append_le s.bytes_acked input bs h.acked);
  acked = let a = h.acked in let l = length-append input bs in omega arith;
}

pub ack-Holds :
    (input : List ℕ) (up_to : ℕ) (s : SpoolBuffer) → Holds input s → Holds input (ack s up_to)
unfolding ack
ack-Holds input up_to s h = elim (Bool-cases (leb up_to s.bytes_acked)) [
  | inl e ↦ rw e h
  | inr e ↦ rw e (
      let n = min (up_to - s.bytes_acked) (length s.buf) in
      record {
        held = ap (drop n) h.held ∙ drop-drop n s.bytes_acked input;
        acked = let l = Holds-length input s h in omega arith;
      })
]

pub handle_eof-Holds :
    (input : List ℕ) (s : SpoolBuffer) → Holds input s → Holds input (handle_eof s)
unfolding handle_eof
handle_eof-Holds input s h = elim (Bool-cases (s.head == u64_max)) [
  | inl e ↦ rw e h
  | inr e ↦ rw e (record { held = h.held; acked = h.acked })
]

-- Within the window the read does not panic: it gives the first bytes of the rest of the stream, and
-- at least one if there is one, wherever the ring is cut.
pub slice_from_window :
    (seam : ℕ) (input : List ℕ) (s : SpoolBuffer) (from : ℕ)
    → Holds input s
    → s.bytes_acked ≤ from
    → from ≤ length input
    → (bs rest : List ℕ) × (slice_from seam s from ≡ some bs)
      × (drop from input ≡ bs ++ rest)
      × (from < length input → 0 < length bs)
unfolding slice_from
slice_from_window seam input s from h lo hi =
    rw (le→ltb_false from s.bytes_acked lo) (elim (Bool-cases (ltb start (length first))) [
      | inl c ↦ rw c (
        drop start first,
        second,
        refl,
        tail ∙ drop-append_le start first second (ground arith),
        λ m. ground (arith, length-drop start first),
      )
      | inr c ↦
          let inside : start - length first ≤ length second =
            ground (arith, length-take seam s.buf, length-drop seam s.buf, whole) in
          rw (c, le→leb (start - length first) (length second) inside)
            (
              drop (start - length first) second,
              [],
              refl,
              tail ∙ drop-append_ge start first second (ground arith) ∙ sym (append-nil _),
              λ m. ground (
                arith,
                length-take seam s.buf,
                length-drop seam s.buf,
                whole,
                length-drop (start - length first) second,
              ),
            )
    ])
  where
    start : ℕ
    start = from - s.bytes_acked

    first : List ℕ
    first = take seam s.buf

    second : List ℕ
    second = drop seam s.buf

    whole : s.bytes_acked + length s.buf ≡ length input
    whole = Holds-length input s h

    tail : drop from input ≡ drop start (first ++ second)
    tail =
        ap (λ k. drop k input) (let e : from ≡ s.bytes_acked + start = omega arith in e)
        ∙ sym (drop-drop start s.bytes_acked input)
        ∙ sym (ap (drop start) h.held)
        ∙ sym (ap (drop start) (take-append-drop seam s.buf))
