-- ===== src/Service/Requests.antt =====
-- What a client sends is what the session manager serves, and the other way
-- (quelay-agent/src/thrift_srv.rs, quelay-agent/src/agent.rs, quelay-agent/src/session_manager.rs).
use mathlib.Core.Option
use quelay.Common.{
  ℕ, ◌≡◌, refl, ap, Bool, true, false, Option, none, some, [], ◌∷◌, map, if◌then◌else◌, ◌⊎◌, inl,
  inr, ◌≤◌, ◌<◌, length,
}
use quelay.Common.Int.{ℤ}
use quelay.Domain.Priority.{from_i8}
use quelay.Domain.Session.{StreamInfo, ConnStats, LinkState, connecting, normal, degraded, failed}
use quelay.Mapping.{
  WireConnStats, UuidText, stream_info_to_wire, conn_stats_from_wire, conn_stats_to_wire,
  link_state_to_wire,
}
use quelay.Mapping.RoundTrip.{SizeIsU64, stream_info_roundtrip, IsU64, conn_stats_roundtrip}
use quelay.SessionManager.{PendingStream, RemoteState, on_stream_start, stream_finished, enqueue}
use quelay.SessionManager.Held.{on_stream_start_lem}
use quelay.Common.Table.{insert}
use quelay.Service.{
  StreamStartResponse, wire_running, wire_pending, wire_queue_full, wire_not_connected, ok,
  AgentCmd, SessionCommand, forward, stream_start_cmd, handle_stream_start, handle_link_enable,
  send_cmd, response_of, started, stats, zero_stats, dispatch_cmd, finish_by_text,
  handle_get_conn_stats, await_reply, handle_get_link_state,
}

-- The link state reported is the one that the mapping gives.
get_link_state_lem : (s : LinkState) → handle_get_link_state s ≡ ok (link_state_to_wire s)
unfolding handle_get_link_state link_state_to_wire
get_link_state_lem connecting = refl
get_link_state_lem normal = refl
get_link_state_lem degraded = refl
get_link_state_lem failed = refl

module _ (u : UuidText) {Session Attrs Handle : Type 0}
    (opener : Session → PendingStream (StreamInfo Attrs) → Option Handle)
    (conn_stats : Session → ConnStats) where
  open u use {to_string, parse_str-to_string}

  cmd_of :
      (empty : Attrs) (uuid : ℕ) (info : StreamInfo Attrs) (priority : ℤ)
      → SizeIsU64 info.size_bytes
      → stream_start_cmd u empty (to_string uuid) (stream_info_to_wire info) priority
        ≡ ok (AgentCmd.start uuid info (from_i8 priority))
  unfolding stream_start_cmd
  cmd_of empty uuid info priority h =
      rw (stream_start_cmd, parse_str-to_string uuid)
        (ap (λ i. ok (AgentCmd.start uuid i (from_i8 priority)))
          (stream_info_roundtrip empty info h))

  -- What becomes of a request at the manager `r`, with its answer: the stream runs; or the queue is full
  -- and nothing changes; or it waits, and the answer has its place in the queue.
  abbrev pub Answered :
      RemoteState Session (StreamInfo Attrs) Handle
      → PendingStream (StreamInfo Attrs)
      → StreamStartResponse
      → Option (RemoteState Session (StreamInfo Attrs) Handle)
      → Type 0
  Answered r p response after =
      ((response ≡ record { status = wire_running; queue_position = none })
        × (h : Handle) × (after
            ≡ some (record r { active_uplinks = insert p.uuid h r.active_uplinks })))
      ⊎ ((response ≡ record { status = wire_queue_full; queue_position = none })
          × (after ≡ some r)
          × (r.max_pending ≤ length r.pending))
      ⊎ ((response ≡ record { status = wire_pending; queue_position = some (enqueue r p).1 })
          × (after ≡ some (enqueue r p).0)
          × (length r.pending < r.max_pending))

  on_stream_start-Answered :
      (r : RemoteState Session (StreamInfo Attrs) Handle) (p : PendingStream (StreamInfo Attrs))
      → let (after, status, sent) = on_stream_start opener (some r) p in
        Answered r p (response_of status) after
  unfolding response_of
  on_stream_start-Answered r p = elim (on_stream_start_lem opener r p) [
    | inl (e, (h, s)) ↦ inl (ap response_of e, h, s)
    | inr (inl (e, s, l)) ↦ inr (inl (ap response_of e, s, l))
    | inr (inr (e, s, l)) ↦ inr (inr (ap response_of e, s, l))
  ]

  -- A call `stream_start` with a printed id and a wire form of a stream's data sends one command. The
  -- session manager serves it as that stream at that priority, and its reply is what the call answers:
  -- running where the stream is active, queue full where the queue has no room and nothing changes, and
  -- pending with the place in the queue where it waits. With no manager the reply is not connected, with
  -- no place. The end of the stream reported under the printed id is the end of that stream.
  pub stream_start_reaches :
      (empty : Attrs) (uuid : ℕ) (info : StreamInfo Attrs) (priority : ℤ)
      (r : RemoteState Session (StreamInfo Attrs) Handle)
      → SizeIsU64 info.size_bytes
      → let p : PendingStream (StreamInfo Attrs) = record {
        uuid = uuid;
        info = info;
        priority = from_i8 priority;
      } in
        (cmd : AgentCmd (StreamInfo Attrs)) × (response : StreamStartResponse)
        × (handle_stream_start u empty true
              (some response)
              (to_string uuid)
              (stream_info_to_wire info)
              priority
            ≡ (ok response, cmd ∷ []))
        × ((dispatch_cmd u opener conn_stats (some r) (forward cmd)).reply ≡ started response)
        × Answered r p response (dispatch_cmd u opener conn_stats (some r) (forward cmd)).state
        × ((dispatch_cmd u opener conn_stats none (forward cmd)).reply
            ≡ started (record { status = wire_not_connected; queue_position = none }))
        × ((dispatch_cmd u opener conn_stats none (forward cmd)).state ≡ none)
        × ((dispatch_cmd u opener conn_stats
              (some r)
              (SessionCommand.finished (to_string uuid))).state
            ≡ some (stream_finished opener r uuid).0)
  unfolding handle_stream_start send_cmd await_reply forward dispatch_cmd finish_by_text response_of
      on_stream_start
  stream_start_reaches empty uuid info priority r h =
      let p : PendingStream (StreamInfo Attrs) = record {
        uuid = uuid;
        info = info;
        priority = from_i8 priority;
      } in
      (
        AgentCmd.start uuid info (from_i8 priority),
        response_of (on_stream_start opener (some r) p).1,
        rw (handle_stream_start, cmd_of empty uuid info priority h) refl,
        refl,
        on_stream_start-Answered r p,
        refl,
        refl,
        rw (finish_by_text, parse_str-to_string uuid) refl,
      )

  -- A call `get_conn_stats` answers with the statistics of the live session, whatever the values of its
  -- counters, and changes nothing.
  pub get_conn_stats_reaches :
      (r : RemoteState Session (StreamInfo Attrs) Handle) (session : Session)
      → r.session ≡ some session
      → IsU64 (conn_stats session)
      → let d = dispatch_cmd u opener conn_stats (some r) (forward AgentCmd.get_conn_stats) in
        (d.state ≡ some r)
        × (s : ConnStats) × (d.reply ≡ stats s)
        × (w : WireConnStats) × (handle_get_conn_stats true (some s) ≡ ok w)
        × (conn_stats_from_wire w ≡ conn_stats session)
  unfolding dispatch_cmd forward handle_get_conn_stats await_reply
  get_conn_stats_reaches r session e h = (
    refl,
    conn_stats session,
    ap (λ o. stats (Option.get_or (Option.map conn_stats o) zero_stats)) e,
    conn_stats_to_wire (conn_stats session),
    refl,
    conn_stats_roundtrip (conn_stats session) h,
  )

  -- A call `link_enable(false)` tells every active uplink that the link is down and closes the live
  -- session, and leaves the rest; `link_enable(true)` does nothing.
  link_enable_reaches :
      (enabled : Bool) (r : RemoteState Session (StreamInfo Attrs) Handle)
      → (cmd : AgentCmd (StreamInfo Attrs)) × ((handle_link_enable true true enabled).1 ≡ cmd ∷ [])
        × (let d = dispatch_cmd u opener conn_stats (some r) (forward cmd) in
            (d.state ≡ some r)
            × (d.told_down ≡ (if enabled then [] else map (λ (id, h). id) r.active_uplinks))
            × (d.closed ≡ (if enabled then none else r.session)))
  unfolding handle_link_enable send_cmd forward dispatch_cmd
  link_enable_reaches true r = (AgentCmd.link_enable true, refl, (refl, refl, refl))
  link_enable_reaches false r = (AgentCmd.link_enable false, refl, (refl, refl, refl))
