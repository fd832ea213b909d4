-- ===== src/Framing/RoundTrip.antt =====
-- Writers against readers of the stream-open headers and wormhole messages
-- (quelay-agent/src/framing.rs).
use quelay.Common.{ℕ, ◌≡◌, ◌∙◌, sym, List, ◌++◌, Option, some, length, subst}
use quelay.Domain.Error.{Site, framing, wormhole, ok}
use quelay.Bytes.{ByteStream, Codec}
use quelay.Framing.{
  op_new_stream, op_reconnect, bytes, StreamHeader, ReconnectHeader, new_stream, reconnect,
  WormholeMsg, write_frame, read_frame, decode_open, write_connect_header, write_reconnect_header,
  write_wormhole_msg, read_stream_open, read_wormhole_msg,
}
use quelay.Framing.Frames.{write_frame_sends, read_frame_takes, append_cancel}

module _ (b : ByteStream) where
  open b use {Stream, sent, Carries}

  -- A frame that was written, read from a stream that carries what the writer sent.
  frame_carried :
      (site site' : Site) (op : ℕ) (encoded : Option (List ℕ)) (s s' r : Stream)
      (wire rest : List ℕ)
      → write_frame b site op encoded s ≡ ok s'
      → sent s' ≡ sent s ++ wire
      → Carries r (wire ++ rest)
      → (payload : List ℕ) × (encoded ≡ some payload)
        × (r' : Stream) × (read_frame b site' r
            ≡ ok (record { opcode = op; payload_len = length payload }, payload, r'))
        × Carries r' rest
  frame_carried site site' op encoded s s' r wire rest w e c =
      let (payload, enc, le, out) = write_frame_sends b site op encoded s s' w in
      let frame = bytes (record { opcode = op; payload_len = length payload }) ++ payload in
      let same : wire ≡ frame = append_cancel (sent s) wire frame (sym e ∙ out) in
      let (r', got, c') =
        read_frame_takes b site' op payload rest r le (subst (λ x. Carries r (x ++ rest)) same c) in
      (payload, enc, r', got, c')

  module _ {Attrs : Type 0} (cs : Codec (StreamHeader Attrs)) (cr : Codec ReconnectHeader) where
    -- A stream-open header that was written without error is read back as it was, by a reader whose
    -- stream carries the written bytes, and the reader stands just behind it.
    pub read_stream_open-write_connect_header :
        (s s' r : Stream) (h : StreamHeader Attrs) (wire rest : List ℕ)
        → write_connect_header b cs s h ≡ ok s'
        → sent s' ≡ sent s ++ wire
        → Carries r (wire ++ rest)
        → (r' : Stream) × (read_stream_open b cs cr r ≡ ok (new_stream h, r')) × Carries r' rest
    unfolding write_connect_header read_stream_open
    read_stream_open-write_connect_header s s' r h wire rest w e c =
        let (payload, enc, r', got, c') =
          frame_carried framing framing op_new_stream (cs.to_vec h) s s' r wire rest w e c in
        (r', rw (got, decode_open, cs.from_slice-to_vec h payload enc, read_stream_open), c')

    -- So is a reconnect header, and it is told from a stream-open header.
    read_stream_open-write_reconnect_header :
        (s s' r : Stream) (h : ReconnectHeader) (wire rest : List ℕ)
        → write_reconnect_header b cr s h ≡ ok s'
        → sent s' ≡ sent s ++ wire
        → Carries r (wire ++ rest)
        → (r' : Stream) × (read_stream_open b cs cr r ≡ ok (reconnect h, r')) × Carries r' rest
    unfolding write_reconnect_header read_stream_open
    read_stream_open-write_reconnect_header s s' r h wire rest w e c =
        let (payload, enc, r', got, c') =
          frame_carried framing framing op_reconnect (cr.to_vec h) s s' r wire rest w e c in
        (r', rw (got, decode_open, cr.from_slice-to_vec h payload enc, read_stream_open), c')

  -- A wormhole message that was written without error is read back as it was, by a reader whose
  -- stream carries the written bytes, and the reader stands just behind it.
  read_wormhole_msg-write_wormhole_msg :
      {Text : Type 0} (c : Codec (WormholeMsg Text)) (s s' r : Stream) (msg : WormholeMsg Text)
      (wire rest : List ℕ)
      → write_wormhole_msg b c s msg ≡ ok s'
      → sent s' ≡ sent s ++ wire
      → Carries r (wire ++ rest)
      → (r' : Stream) × (read_wormhole_msg b c r ≡ ok (msg, r')) × Carries r' rest
  unfolding write_wormhole_msg read_wormhole_msg
  read_wormhole_msg-write_wormhole_msg c s s' r msg wire rest w e h =
      let (payload, enc, r', got, h') =
        frame_carried wormhole wormhole op_new_stream (c.to_vec msg) s s' r wire rest w e h in
      (r', rw (got, c.from_slice-to_vec msg payload enc, read_wormhole_msg), h')
