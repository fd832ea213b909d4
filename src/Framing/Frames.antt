-- ===== src/Framing/Frames.antt =====
-- The 8-byte header and one framed payload (quelay-agent/src/framing.rs).
use quelay.Common.{
  ℕ, ◌≤◌, ◌≡◌, refl, ◌∙◌, sym, ap, List, ◌++◌, append_assoc, Option, none, some, length, take, drop,
  drop-append_length, le→ltb_false, arith, Option-cases, inl, inr, ◌↔◌,
}
use quelay.Domain.Error.{Site, Result, ok, err, ◌>>=◌, or_err, QueLayError}
use quelay.Bytes.{u32_to_be, from_be, from_be-u32, ByteStream}
use quelay.Framing.{
  magic, version, fixed_header_len, max_json_payload, FixedHeader, byte_at, parse, bytes,
  write_frame, read_frame,
}

-- A header survives the wire, whatever its opcode, if its length is one that is accepted.
parse-bytes : (h : FixedHeader) → h.payload_len ≤ max_json_payload → parse (bytes h) ≡ ok h
unfolding parse bytes u32_to_be
parse-bytes h le = ground (arith, from_be-u32 h.payload_len)

-- Whatever 8 bytes arrive: a header is accepted exactly if it has the magic byte, this version and a
-- length of at most 65535; the opcode is passed on and the reserved byte is not looked at.
parse_iff :
    (buf : List ℕ) (h : FixedHeader)
    → (parse buf ≡ ok h) ↔ (
        (byte_at buf 0 ≡ magic)
        × (byte_at buf 1 ≡ version)
        × (h.opcode ≡ byte_at buf 2)
        × (h.payload_len ≡ from_be (take 4 (drop 4 buf)))
        × (h.payload_len ≤ max_json_payload))
unfolding parse
parse_iff buf h = (accepted, accepts)
  where
    accepted :
        parse buf ≡ ok h
        → (byte_at buf 0 ≡ magic)
          × (byte_at buf 1 ≡ version)
          × (h.opcode ≡ byte_at buf 2)
          × (h.payload_len ≡ from_be (take 4 (drop 4 buf)))
          × (h.payload_len ≤ max_json_payload)
    accepted e = ground arith

    accepts :
        (byte_at buf 0 ≡ magic)
          × (byte_at buf 1 ≡ version)
          × (h.opcode ≡ byte_at buf 2)
          × (h.payload_len ≡ from_be (take 4 (drop 4 buf)))
          × (h.payload_len ≤ max_json_payload)
        → parse buf ≡ ok h
    accepts e = ground arith

length-bytes : (h : FixedHeader) → length (bytes h) ≡ fixed_header_len
unfolding bytes u32_to_be
length-bytes h = refl

-- The step before one that succeeds has succeeded.
bind_ok {μ ν} :
    {X : Type μ} {Y : Type ν} (r : Result X) (next : X → Result Y) {y : Y}
    → (r >>= next) ≡ ok y
    → (x : X) × (r ≡ ok x) × (next x ≡ ok y)
bind_ok (err e) next h = cc
bind_ok (ok x) next h = (x, refl, h)

or_err-eq-ok {ℓ} :
    {A : Type ℓ} (o : Option A) (e : QueLayError) {a : A} → or_err o e ≡ ok a → o ≡ some a
or_err-eq-ok none e h = cc
or_err-eq-ok (some a) e h = cc

pub append_cancel {ℓ} : {A : Type ℓ} (xs ys zs : List A) → xs ++ ys ≡ xs ++ zs → ys ≡ zs
append_cancel xs ys zs e =
    sym (drop-append_length xs ys) ∙ ap (drop (length xs)) e ∙ drop-append_length xs zs

module _ (b : ByteStream) where
  open b use {
    Stream, write_all, read_exact, sent, Carries, write_all-sent, read_exact-takes,
    read_exact-length,
  }

  pub write_frame_sends :
      (site : Site) (op : ℕ) (encoded : Option (List ℕ)) (s s' : Stream)
      → write_frame b site op encoded s ≡ ok s'
      → (payload : List ℕ) × (encoded ≡ some payload)
        × (length payload ≤ max_json_payload)
        × (sent s'
            ≡ sent s ++ (bytes (record { opcode = op; payload_len = length payload }) ++ payload))
  unfolding write_frame
  write_frame_sends site op none s s' e = cc
  write_frame_sends site op (some payload) s s' e =
      let h : FixedHeader = record { opcode = op; payload_len = length payload } in
      elim (Option-cases (write_all s (bytes h))) [
        | inl n ↦ ground (arith, n)
        | inr (s1, w1) ↦ elim (Option-cases (write_all s1 payload)) [
          | inl n ↦ ground (arith, w1, n)
          | inr (s2, w2) ↦ (
            payload,
            refl,
            ground (arith, w1),
            ground (
              arith,
              w1,
              w2,
              write_all-sent s s1 (bytes h) w1,
              write_all-sent s1 s2 payload w2,
              append_assoc (sent s) (bytes h) payload,
            ),
          )
        ]
      ]

  -- What `write_frame` puts on the wire, `read_frame` reads back, and no more.
  pub read_frame_takes :
      (site : Site) (op : ℕ) (payload rest : List ℕ) (r : Stream)
      → length payload ≤ max_json_payload
      → Carries r
          ((bytes (record { opcode = op; payload_len = length payload }) ++ payload) ++ rest)
      → (r' : Stream) × (read_frame b site r
          ≡ ok (record { opcode = op; payload_len = length payload }, payload, r'))
        × Carries r' rest
  unfolding read_frame
  read_frame_takes site op payload rest r le c =
      let h : FixedHeader = record { opcode = op; payload_len = length payload } in
      let (r1, e1, c1) = read_exact-takes r (bytes h) (payload ++ rest) (rw append_assoc at c) in
      let (r2, e2, c2) = read_exact-takes r1 payload rest c1 in
      let e1' : read_exact r fixed_header_len ≡ some (bytes h, r1) = rw (length-bytes h) at e1 in
      (
        r2,
        rw (
          e1',
          parse-bytes h le,
          le→ltb_false max_json_payload (length payload) le,
          e2,
          read_frame,
        ),
        c2,
      )
