-- ===== src/Framing/Chunks.antt =====
-- Data chunks: `write_chunk`, `read_chunk` (quelay-agent/src/framing.rs) and `encode_chunk`
-- (quelay-agent/src/rate_limiter.rs).
use quelay.Common.{
  ℕ, ◌%◌, ◌^◌, ◌≤◌, ◌<◌, ◌≡◌, refl, sym, List, [], ◌∷◌, ◌++◌, append_assoc, none, some, length,
  take, drop, arith, ◌==◌, Option-cases, Bool-cases, inl, inr, le→ltb_false, lt→ltb, subst,
}
use quelay.Domain.Error.{chunk, transport, payload_len_exceeds, ok, err}
use quelay.Bytes.{u16_to_be, u64_to_be, from_be, from_be-u16, from_be-u64, ByteStream}
use quelay.Framing.{chunk_size, Chunk, encode_chunk, write_chunk, read_chunk, read_chunk_rest}

-- The chunk header.
abbrev header : ℕ → ℕ → List ℕ
header offset n = u64_to_be offset ++ u16_to_be n

encode_chunk-header :
    (offset : ℕ) (payload : List ℕ)
    → length payload < 2 ^ 16
    → encode_chunk offset payload ≡ header offset (length payload) ++ payload
unfolding encode_chunk
encode_chunk-header offset payload h =
    let e : length payload % 2 ^ 16 ≡ length payload = omega arith in
    rw (e, append_assoc (u64_to_be offset) (u16_to_be (length payload)) payload)

header_fields :
    (offset n : ℕ)
    → offset < 2 ^ 64
    → n < 2 ^ 16
    → (from_be (take 8 (header offset n)) ≡ offset) × (from_be (drop 8 (header offset n)) ≡ n)
unfolding u64_to_be u16_to_be
header_fields offset n p q = (from_be-u64 offset p, from_be-u16 n q)

header_bytes :
    (offset n : ℕ) → (b : ℕ) × (bs : List ℕ) × (header offset n ≡ b ∷ bs) × (length bs ≡ 9)
unfolding u64_to_be u16_to_be
header_bytes offset n = (_, _, refl, refl)

module _ (b : ByteStream) where
  open b use {
    Stream, write_all, read_exact, read, sent, Carries, write_all-sent, read_exact-takes,
    read-takes, read-end, read_exact-length,
  }

  -- `write_chunk` and `encode_chunk` agree: what a successful `write_chunk` sends is the encoded
  -- chunk, and its payload fits the length field.
  write_chunk_sends :
      (s s' : Stream) (offset : ℕ) (payload : List ℕ)
      → write_chunk b s offset payload ≡ ok s'
      → (sent s' ≡ sent s ++ encode_chunk offset payload) × (length payload < 2 ^ 16)
  unfolding write_chunk
  write_chunk_sends s s' offset payload e =
      elim (Option-cases (write_all s (header offset (length payload)))) [
        | inl n ↦ ground (arith, n)
        | inr (s1, w1) ↦ elim (Option-cases (write_all s1 payload)) [
          | inl n ↦ ground (arith, w1, n)
          | inr (s2, w2) ↦ ground (
            arith,
            w1,
            w2,
            write_all-sent s s1 (header offset (length payload)) w1,
            write_all-sent s1 s2 payload w2,
            append_assoc (sent s) (header offset (length payload)) payload,
            encode_chunk-header offset payload,
          )
        ]
      ]

  read_chunk_after :
      (r : Stream) (offset : ℕ) (payload rest : List ℕ)
      → length payload < 2 ^ 16
      → offset < 2 ^ 64
      → Carries r (encode_chunk offset payload ++ rest)
      → (first : List ℕ) × (r1 : Stream) × (tail : List ℕ) × (r2 : Stream) × (read r 1
          ≡ some (first, r1))
        × (length first ≡ 1)
        × (read_exact r1 9 ≡ some (tail, r2))
        × (first ++ tail ≡ header offset (length payload))
        × Carries r2 (payload ++ rest)
  read_chunk_after r offset payload rest hp ho c =
      let (x, xs, e, l) = header_bytes offset (length payload) in
      let split : encode_chunk offset payload ++ rest ≡ x ∷ (xs ++ (payload ++ rest)) =
        rw (encode_chunk-header offset payload hp, e, append_assoc xs payload rest) in
      let (r1, e1, c1) = read-takes r x (xs ++ (payload ++ rest)) (subst (Carries r) split c) in
      let (r2, e2, c2) = read_exact-takes r1 xs (payload ++ rest) c1 in
      (x ∷ [], r1, xs, r2, e1, refl, rw l at e2, sym e, c2)

  -- A chunk of at most `CHUNK_SIZE` bytes at a 64-bit offset is read back as it was encoded, and the
  -- reader stands just behind it.
  pub read_chunk-encode_chunk :
      (r : Stream) (offset : ℕ) (payload rest : List ℕ)
      → length payload ≤ chunk_size
      → offset < 2 ^ 64
      → Carries r (encode_chunk offset payload ++ rest)
      → (r' : Stream) × (read_chunk b r
          ≡ ok (some (record { stream_offset = offset; payload = payload }), r'))
        × Carries r' rest
  unfolding read_chunk
  read_chunk-encode_chunk r offset payload rest hp ho c =
      let (first, r1, tail, r2, e1, one, e2, hdr, c2) =
        read_chunk_after r offset payload rest (omega arith) ho c in
      let (r3, e3, c3) = read_exact-takes r2 payload rest c2 in
      let (off, len) = header_fields offset (length payload) ho (omega arith) in
      (
        r3,
        rw (
          e1,
          one,
          e2,
          hdr,
          off,
          len,
          le→ltb_false chunk_size (length payload) hp,
          e3,
          read_chunk,
        ),
        c3,
      )

  -- A longer chunk, which `write_chunk` sends as long as its length fits 16 bits, is refused before
  -- its payload is read.
  read_chunk_refuses :
      (r : Stream) (offset : ℕ) (payload rest : List ℕ)
      → chunk_size < length payload
      → length payload < 2 ^ 16
      → offset < 2 ^ 64
      → Carries r (encode_chunk offset payload ++ rest)
      → read_chunk b r ≡ err (transport chunk (payload_len_exceeds (length payload)))
  unfolding read_chunk
  read_chunk_refuses r offset payload rest big small ho c =
      let (first, r1, tail, r2, e1, one, e2, hdr, c2) =
        read_chunk_after r offset payload rest small ho c in
      let (off, len) = header_fields offset (length payload) ho small in
      rw (e1, one, e2, hdr, off, len, lt→ltb chunk_size (length payload) big, read_chunk)

  -- The end of the stream between two chunks is told from an error.
  read_chunk_end : (r : Stream) → Carries r [] → (r' : Stream) × (read_chunk b r ≡ ok (none, r'))
  unfolding read_chunk
  read_chunk_end r c = let (r', e) = read-end r c in (r', rw (e, read_chunk))

  read_chunk_rest_bounded :
      (first : List ℕ) (s r' : Stream) (c : Chunk)
      → read_chunk_rest b first s ≡ ok (some c, r')
      → length c.payload ≤ chunk_size
  unfolding read_chunk_rest
  read_chunk_rest_bounded first s r' c e = elim (Option-cases (read_exact s 9)) [
    | inl n ↦ ground (arith, n)
    | inr ((tail, s2), e2) ↦
        elim (Option-cases (read_exact s2 (from_be (drop 8 (first ++ tail))))) [
          | inl n ↦ ground (arith, e2, n)
          | inr ((payload, s3), e3) ↦ ground (arith, e2, e3, read_exact-length s2 s3 _ payload e3)
        ]
  ]

  -- Whatever the peer sends, no accepted chunk is longer than `CHUNK_SIZE`.
  read_chunk_bounded :
      (r r' : Stream) (c : Chunk) → read_chunk b r ≡ ok (some c, r') → length c.payload ≤ chunk_size
  unfolding read_chunk
  read_chunk_bounded r r' c e = elim (Option-cases (read r 1)) [
    | inl n ↦ ground (arith, n)
    | inr ((first, s), e1) ↦ elim (Bool-cases (length first == 0)) [
      | inl z ↦ ground (arith, e1, z)
      | inr z ↦ read_chunk_rest_bounded first s r' c (rw (e1, z, read_chunk) at e)
    ]
  ]
