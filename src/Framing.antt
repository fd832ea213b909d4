-- ===== src/Framing.antt =====
-- quelay-agent/src/framing.rs: stream-open headers, wormhole messages and chunks, and
-- `encode_chunk` of quelay-agent/src/rate_limiter.rs.
pub mod Frames
pub mod RoundTrip
pub mod Chunks
pub mod Tests
use mathlib.Core.Option
use quelay.Common.{
  ℕ, zero, suc, ◌+◌, ◌*◌, ◌%◌, ◌^◌, Bool, true, false, not, List, [], ◌∷◌, ◌++◌, Option, none, some,
  length, take, drop, ltb, leb, ◌==◌, if◌then◌else◌,
}
use quelay.Domain.Error.{
  Site, framing, wormhole, chunk, Reason, serialize, deserialize, write_header, write_payload,
  read_header, read_payload, payload_exceeds, payload_len_exceeds, payload_exceeds_field, bad_magic,
  unsupported_version, unknown_opcode, read_first, QueLayError, transport, Result, ok, err, ◌>>=◌,
  ◌>>◌, fail_if, or_err,
}
use quelay.Bytes.{u16_to_be, u32_to_be, u64_to_be, from_be, ByteStream, Codec}

abbrev pub magic : ℕ
magic = 0x51

abbrev pub version : ℕ
version = 0x01

abbrev pub op_new_stream : ℕ
op_new_stream = 0x01

abbrev pub op_reconnect : ℕ
op_reconnect = 0x02

abbrev pub fixed_header_len : ℕ
fixed_header_len = 8

abbrev pub max_json_payload : ℕ
max_json_payload = 65_535

abbrev pub chunk_size : ℕ
chunk_size = 16 * 1024

abbrev chunk_header_len : ℕ
chunk_header_len = 10

abbrev pub ack_interval : ℕ
ack_interval = 64 * 1024

pub record StreamHeader (Attrs : Type 0) : Type 0 where
  pub uuid : ℕ
  pub priority : ℕ
  pub size_bytes : Option ℕ
  pub attrs : Attrs

pub record ReconnectHeader : Type 0 where
  pub uuid : ℕ
  pub replay_from : ℕ

pub data StreamOpen (Attrs : Type 0) : Type 0 where
  new_stream : StreamHeader Attrs → StreamOpen Attrs
  reconnect : ReconnectHeader → StreamOpen Attrs

-- The reason of an error is a text, of type `Text`.
pub data WormholeMsg (Text : Type 0) : Type 0 where
  ack : ℕ → WormholeMsg Text
  done : WormholeMsg Text
  error : ℕ → Text → WormholeMsg Text

pub record Chunk : Type 0 where
  pub stream_offset : ℕ
  pub payload : List ℕ

pub record FixedHeader : Type 0 where
  pub opcode : ℕ
  pub payload_len : ℕ

-- `buf[i]` of an array.
abbrev pub byte_at : List ℕ → ℕ → ℕ
byte_at [] i = 0
byte_at (b ∷ bs) zero = b
byte_at (b ∷ bs) (suc i) = byte_at bs i

unfoldable pub parse : List ℕ → Result FixedHeader
parse buf = do
  fail_if (not (byte_at buf 0 == magic)) (transport framing (bad_magic (byte_at buf 0)))
  fail_if (not (byte_at buf 1 == version)) (transport framing (unsupported_version (byte_at buf 1)))
  let opcode = byte_at buf 2
  let payload_len = from_be (take 4 (drop 4 buf))
  fail_if (ltb max_json_payload payload_len) (transport framing (payload_len_exceeds payload_len))
  ok (record { opcode = opcode; payload_len = payload_len })

unfoldable pub bytes : FixedHeader → List ℕ
bytes h = magic ∷ version ∷ h.opcode ∷ 0 ∷ u32_to_be h.payload_len

-- `encode_chunk`; the length is cut `as u16`.
unfoldable pub encode_chunk : ℕ → List ℕ → List ℕ
encode_chunk offset payload = u64_to_be offset ++ (u16_to_be (length payload % 2 ^ 16) ++ payload)

module _ (b : ByteStream) where
  open b use {Stream, write_all, read_exact, read}

  -- The frame that the three writers share: payload checks, then header and payload.
  unfoldable pub write_frame : Site → ℕ → Option (List ℕ) → Stream → Result Stream
  write_frame site opcode encoded s = do
    payload ← or_err encoded (transport site serialize)
    fail_if (ltb max_json_payload (length payload))
        (transport site (payload_exceeds (length payload)))
    fail_if (leb (2 ^ 32) (length payload)) (transport site payload_exceeds_field)
    let fixed = bytes (record { opcode = opcode; payload_len = length payload })
    s ← or_err (write_all s fixed) (transport site write_header)
    or_err (write_all s payload) (transport site write_payload)

  unfoldable pub write_connect_header :
      {Attrs : Type 0} → Codec (StreamHeader Attrs) → Stream → StreamHeader Attrs → Result Stream
  unfolding write_frame
  write_connect_header c s h = write_frame framing op_new_stream (c.to_vec h) s

  unfoldable pub write_reconnect_header :
      Codec ReconnectHeader → Stream → ReconnectHeader → Result Stream
  unfolding write_frame
  write_reconnect_header c s h = write_frame framing op_reconnect (c.to_vec h) s

  unfoldable pub write_wormhole_msg :
      {Text : Type 0} → Codec (WormholeMsg Text) → Stream → WormholeMsg Text → Result Stream
  unfolding write_frame
  write_wormhole_msg c s msg = write_frame wormhole op_new_stream (c.to_vec msg) s

  -- The fixed header and the payload that it announces.
  unfoldable pub read_frame : Site → Stream → Result (FixedHeader × List ℕ × Stream)
  unfolding parse
  read_frame site s = do
    (fixed, s) ← or_err (read_exact s fixed_header_len) (transport site read_header)
    header ← parse fixed
    fail_if (ltb max_json_payload header.payload_len)
        (transport site (payload_len_exceeds header.payload_len))
    (payload, s) ← or_err (read_exact s header.payload_len) (transport site read_payload)
    ok (header, payload, s)

  -- `match header.opcode`
  unfoldable pub decode_open :
      {Attrs : Type 0}
      → Codec (StreamHeader Attrs)
      → Codec ReconnectHeader
      → FixedHeader
      → List ℕ
      → Result (StreamOpen Attrs)
  decode_open cs cr header payload =
      if header.opcode == op_new_stream
      then (do
        h ← or_err (cs.from_slice payload) (transport framing deserialize)
        ok (new_stream h))
      else if header.opcode == op_reconnect
      then (do h ← or_err (cr.from_slice payload) (transport framing deserialize); ok (reconnect h))
      else err (transport framing (unknown_opcode header.opcode))

  unfoldable pub read_stream_open :
      {Attrs : Type 0}
      → Codec (StreamHeader Attrs)
      → Codec ReconnectHeader
      → Stream
      → Result (StreamOpen Attrs × Stream)
  unfolding read_frame decode_open
  read_stream_open cs cr s = do
    (header, payload, s) ← read_frame framing s
    open' ← decode_open cs cr header payload
    ok (open', s)

  unfoldable pub read_wormhole_msg :
      {Text : Type 0} → Codec (WormholeMsg Text) → Stream → Result (WormholeMsg Text × Stream)
  unfolding read_frame
  read_wormhole_msg c s = do
    (header, payload, s) ← read_frame wormhole s
    msg ← or_err (c.from_slice payload) (transport wormhole deserialize)
    ok (msg, s)

  unfoldable pub write_chunk : Stream → ℕ → List ℕ → Result Stream
  write_chunk s offset payload = do
    fail_if (leb (2 ^ 16) (length payload)) (transport chunk payload_exceeds_field)
    let hdr = u64_to_be offset ++ u16_to_be (length payload)
    s ← or_err (write_all s hdr) (transport chunk write_header)
    or_err (write_all s payload) (transport chunk write_payload)

  -- After the first byte of the header.
  unfoldable pub read_chunk_rest : List ℕ → Stream → Result (Option Chunk × Stream)
  read_chunk_rest first s = do
    (rest, s) ← or_err (read_exact s 9) (transport chunk read_header)
    let hdr = first ++ rest
    let payload_len = from_be (drop 8 hdr)
    fail_if (ltb chunk_size payload_len) (transport chunk (payload_len_exceeds payload_len))
    (payload, s) ← or_err (read_exact s payload_len) (transport chunk read_payload)
    ok (some (record { stream_offset = from_be (take 8 hdr); payload = payload }), s)

  unfoldable pub read_chunk : Stream → Result (Option Chunk × Stream)
  unfolding read_chunk_rest
  read_chunk s = do
    (first, s) ← or_err (read s 1) (transport chunk read_first)
    if length first == 0 then ok (none, s) else read_chunk_rest first s
