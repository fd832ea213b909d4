-- ===== src/Framing/Tests.antt =====
-- The formats of quelay-agent/src/framing.rs on concrete values, over a stream in memory.
use quelay.Common.{
  ℕ, true, ◌≡◌, refl, ap, List, [], ◌∷◌, ◌++◌, Option, none, some, length, take, drop, arith, leb,
  if◌then◌else◌, take-append_length, drop-append_length, length-append, length-take, le→leb,
  Bool-cases, inl, inr, subst,
}
use quelay.Domain.Error.{ok}
use quelay.Bytes.{ByteStream, Codec, u32_to_be}
use quelay.Framing.{
  StreamHeader, ReconnectHeader, new_stream, bytes, encode_chunk, write_connect_header, write_frame,
  read_stream_open, read_chunk,
}
use quelay.Framing.RoundTrip.{read_stream_open-write_connect_header}
use quelay.Framing.Chunks.{read_chunk-encode_chunk}

-- What has been written, and what is to be read.
abbrev Memory : Type 0
Memory = List ℕ × List ℕ

abbrev mem_read : Memory → ℕ → Option (List ℕ × Memory)
mem_read (out, inp) n = some (take n inp, (out, drop n inp))

abbrev mem_read_exact : Memory → ℕ → Option (List ℕ × Memory)
mem_read_exact (out, inp) n =
    if leb n (length inp) then some (take n inp, (out, drop n inp)) else none

abbrev mem_write : Memory → List ℕ → Option Memory
mem_write (out, inp) bs = some (out ++ bs, inp)

mem_read_exact-length :
    (s s' : Memory) (n : ℕ) (bs : List ℕ) → mem_read_exact s n ≡ some (bs, s') → length bs ≡ n
mem_read_exact-length (out, inp) s' n bs e = elim (Bool-cases (leb n (length inp))) [
  | inl y ↦
      let e' : some (take n inp, (out, drop n inp)) ≡ some (bs, s') = rw y at e in
      let b : take n inp ≡ bs = ground (arith, e') in ground (arith, y, length-take n inp, b)
  | inr x ↦ let e' : none ≡ some (bs, s') = rw x at e in absurd (ground (arith, e'))
]

mem_takes :
    (s : Memory) (bs rest : List ℕ)
    → s.1 ≡ bs ++ rest
    → (s' : Memory) × (mem_read_exact s (length bs) ≡ some (bs, s')) × (s'.1 ≡ rest)
mem_takes (out, inp) bs rest e =
    let enough : leb (length bs) (length inp) ≡ true = le→leb (length bs) (length inp) (
      let l : length inp ≡ length (bs ++ rest) = ap length e in
      omega (arith, length-append bs rest)) in
    ((out, rest), rw (enough, e, take-append_length bs rest, drop-append_length bs rest) refl, refl)

mem_sent : (s s' : Memory) (bs : List ℕ) → mem_write s bs ≡ some s' → s'.0 ≡ s.0 ++ bs
mem_sent s s' bs e = ground (arith, e)

abbrev memory : ByteStream
memory = record {
  Stream = Memory;
  write_all = mem_write;
  read_exact = mem_read_exact;
  read = mem_read;
  sent = λ s. s.0;
  Carries = λ s xs. s.1 ≡ xs;
  write_all-sent = mem_sent;
  read_exact-takes = mem_takes;
  read-takes = λ s b rest e. ((s.0, rest), rw e refl, refl);
  read-end = λ s e. ((s.0, []), rw e refl);
  read_exact-length = mem_read_exact-length;
}

-- A text form for each message type, with numbers for texts and nothing for attributes.
abbrev header_from : List ℕ → Option (StreamHeader (Unit {0}))
header_from (id ∷ p ∷ []) = some (record { uuid = id; priority = p; size_bytes = none; attrs = tt })
header_from (id ∷ p ∷ n ∷ []) =
    some (record { uuid = id; priority = p; size_bytes = some n; attrs = tt })
header_from _ = none

abbrev header_to : ℕ → ℕ → Option ℕ → List ℕ
header_to id p none = id ∷ p ∷ []
header_to id p (some n) = id ∷ p ∷ n ∷ []

header_back :
    (id p : ℕ) (size : Option ℕ) (bs : List ℕ)
    → some (header_to id p size) ≡ some bs
    → header_from bs ≡ some (record { uuid = id; priority = p; size_bytes = size; attrs = tt })
header_back id p none bs e =
    let b : id ∷ p ∷ [] ≡ bs = ground (arith, e) in
    subst
      (λ x.
        header_from x ≡ some (record { uuid = id; priority = p; size_bytes = none; attrs = tt }))
      b refl
header_back id p (some n) bs e =
    let b : id ∷ p ∷ n ∷ [] ≡ bs = ground (arith, e) in
    subst
      (λ x.
        header_from x ≡ some (record { uuid = id; priority = p; size_bytes = some n; attrs = tt }))
      b refl

abbrev header_codec : Codec (StreamHeader (Unit {0}))
header_codec = record {
  to_vec = λ h. some (header_to h.uuid h.priority h.size_bytes);
  from_slice = header_from;
  from_slice-to_vec = λ h bs e. header_back h.uuid h.priority h.size_bytes bs e;
}

abbrev reconnect_from : List ℕ → Option ReconnectHeader
reconnect_from (id ∷ n ∷ []) = some (record { uuid = id; replay_from = n })
reconnect_from _ = none

reconnect_back :
    (id n : ℕ) (bs : List ℕ)
    → some (id ∷ n ∷ []) ≡ some bs
    → reconnect_from bs ≡ some (record { uuid = id; replay_from = n })
reconnect_back id n bs e =
    let b : id ∷ n ∷ [] ≡ bs = ground (arith, e) in
    subst (λ x. reconnect_from x ≡ some (record { uuid = id; replay_from = n })) b refl

abbrev reconnect_codec : Codec ReconnectHeader
reconnect_codec = record {
  to_vec = λ h. some (h.uuid ∷ h.replay_from ∷ []);
  from_slice = reconnect_from;
  from_slice-to_vec = λ h bs e. reconnect_back h.uuid h.replay_from bs e;
}

abbrev hello : StreamHeader (Unit {0})
hello = record { uuid = 7; priority = 70; size_bytes = some 5; attrs = tt }

abbrev hello_wire : List ℕ
hello_wire = 0x51 ∷ 1 ∷ 1 ∷ 0 ∷ 0 ∷ 0 ∷ 0 ∷ 3 ∷ 7 ∷ 70 ∷ 5 ∷ []

read_stream_open-write_connect_header_example :
    (r' : Memory) × (read_stream_open memory header_codec reconnect_codec ([], hello_wire ++ 9 ∷ [])
      ≡ ok (new_stream hello, r'))
    × (r'.1 ≡ 9 ∷ [])
unfolding write_connect_header write_frame bytes u32_to_be
read_stream_open-write_connect_header_example =
    read_stream_open-write_connect_header memory header_codec reconnect_codec ([], [])
      (hello_wire, []) ([], hello_wire ++ 9 ∷ []) hello hello_wire (9 ∷ []) refl refl refl

read_chunk-encode_chunk_example :
    (r' : Memory) × (read_chunk memory ([], encode_chunk 256 (5 ∷ 6 ∷ []) ++ 1 ∷ [])
      ≡ ok (some (record { stream_offset = 256; payload = 5 ∷ 6 ∷ [] }), r'))
    × (r'.1 ≡ 1 ∷ [])
read_chunk-encode_chunk_example =
    read_chunk-encode_chunk memory ([], encode_chunk 256 (5 ∷ 6 ∷ []) ++ 1 ∷ []) 256 (5 ∷ 6 ∷ [])
      (1 ∷ []) (omega arith) (omega arith) refl
