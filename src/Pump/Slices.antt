-- ===== src/Pump/Slices.antt =====
-- Chunks as slices of the stream, and runs of chunks that follow each other (the chunks that
-- `StreamPump` of quelay-agent/src/rate_limiter.rs writes).
use quelay.Common.{
  ℕ, ◌+◌, ◌≤◌, ◌<◌, ◌≡◌, refl, sym, ap, ◌∙◌, List, [], ◌∷◌, ◌++◌, length, take, drop, arith,
  length-append, length-drop, length-take, drop-append_le, take-append_le,
}
use quelay.Framing.{chunk_size, Chunk}

-- A chunk that carries the bytes of the stream at its offset, at least one of them.
pub record IsSlice (input : List ℕ) (c : Chunk) : Type 0 where
  pub content : c.payload ≡ take (length c.payload) (drop c.stream_offset input)
  pub nonempty : 0 < length c.payload
  pub bounded : length c.payload ≤ chunk_size
  pub within : c.stream_offset + length c.payload ≤ length input

abbrev pub chunk_end : Chunk → ℕ
chunk_end c = c.stream_offset + length c.payload

-- Chunks that carry the stream from `from` to `to`, without a gap.
abbrev pub Contiguous : List ℕ → ℕ → List Chunk → ℕ → Type 0
Contiguous input from [] to = from ≡ to
Contiguous input from (c ∷ cs) to =
    (c.stream_offset ≡ from) × IsSlice input c × Contiguous input (chunk_end c) cs to

IsSlice-append : (input bs : List ℕ) (c : Chunk) → IsSlice input c → IsSlice (input ++ bs) c
IsSlice-append input bs c v =
    let w = v.within in
    record {
      content =
          v.content
          ∙ sym (
              ap (take (length c.payload))
                (drop-append_le c.stream_offset input bs (omega (arith, w)))
              ∙ take-append_le (length c.payload) (drop c.stream_offset input) bs
                  (omega (arith, w, length-drop c.stream_offset input)));
      nonempty = v.nonempty;
      bounded = v.bounded;
      within = let l = length-append input bs in omega arith;
    }

pub Contiguous-append :
    (input bs : List ℕ) (from to : ℕ) (cs : List Chunk)
    → Contiguous input from cs to
    → Contiguous (input ++ bs) from cs to
Contiguous-append input bs from to [] h = h
Contiguous-append input bs from to (c ∷ cs) (o, v, h) =
    (o, IsSlice-append input bs c v, Contiguous-append input bs (chunk_end c) to cs h)

-- One more chunk at the end.
pub Contiguous-snoc :
    (input : List ℕ) (from to : ℕ) (cs : List Chunk) (c : Chunk)
    → Contiguous input from cs to
    → c.stream_offset ≡ to
    → IsSlice input c
    → Contiguous input from (cs ++ c ∷ []) (chunk_end c)
Contiguous-snoc input from to [] c h o v = (o ∙ sym h, v, refl)
Contiguous-snoc input from to (d ∷ cs) c (od, vd, h) o v =
    (od, vd, Contiguous-snoc input (chunk_end d) to cs c h o v)

pub Contiguous-le :
    (input : List ℕ) (from to : ℕ) (cs : List Chunk) → Contiguous input from cs to → from ≤ to
Contiguous-le input from to [] h = omega arith
Contiguous-le input from to (c ∷ cs) (o, v, h) =
    let l = Contiguous-le input (chunk_end c) to cs h in omega arith

-- The first bytes of what follows an offset make a slice.
pub prefix-IsSlice :
    (input : List ℕ) (q n : ℕ) (bs rest : List ℕ)
    → q ≤ length input
    → drop q input ≡ bs ++ rest
    → n ≤ length bs
    → 0 < n
    → n ≤ chunk_size
    → IsSlice input (record { stream_offset = q; payload = take n bs })
prefix-IsSlice input q n bs rest hq e hn pos' hc =
    let l : length (take n bs) ≡ n = omega (arith, length-take n bs) in
    let t : length (drop q input) ≡ length (bs ++ rest) = ap length e in
    record {
      content = rw l (sym (ap (take n) e ∙ take-append_le n bs rest hn));
      nonempty = omega arith;
      bounded = omega arith;
      within = omega (arith, length-append bs rest, length-drop q input);
    }
