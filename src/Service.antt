-- ===== src/Service.antt =====
-- The control interface: `AgentHandler` (quelay-agent/src/thrift_srv.rs), the loop of `Agent`
-- (quelay-agent/src/agent.rs) and `dispatch_cmd` (quelay-agent/src/session_manager.rs), through which a
-- call goes to the session manager. `agent_runs` tells whether the channel to the agent is open,
-- `poisoned` whether the lock of the configuration is, `test_hooks` whether the feature is built in.
pub mod Config
pub mod Requests
pub mod Tests
use mathlib.Core.Option
use quelay.Common.{
  ℕ, Bool, true, false, Option, none, some, List, [], ◌∷◌, ◌++◌, ltb, ◌==◌, if◌then◌else◌, map,
}
use quelay.Common.Int.{ℤ, u64_as_i64, i64_as_u64}
use quelay.Domain.Priority.{Priority, from_i8}
use quelay.Domain.Session.{
  StreamInfo, QueueStatus, ConnStats, LinkState, connecting, normal, degraded, failed,
}
use quelay.Mapping.{
  WireStreamInfo, WireLinkState, wire_connecting, wire_normal, wire_degraded, wire_failed,
  WireConnStats, conn_stats_to_wire, UuidText, stream_info_from_wire,
}
use quelay.SessionManager.{
  PendingStream, RemoteState, StartStatus, not_connected, running, queue_full, queued,
  on_stream_start, stream_finished, set_max_concurrent,
}

abbrev pub default_chunk_size_bytes : ℕ
default_chunk_size_bytes = 16384

abbrev default_max_concurrent : ℕ
default_max_concurrent = 0

pub record RuntimeConfig : Type 0 where
  pub bw_cap_bps : ℕ
  pub chunk_size_bytes : ℕ
  pub max_concurrent : ℕ

-- The kinds of `thrift::ApplicationError` that the handlers return.
pub data ErrorKind : Type 0 where
  internal_error invalid_transform : ErrorKind

pub data Answer (A : Type 0) : Type 0 where
  ok : A → Answer A
  err : ErrorKind → Answer A

pub data WireStatus : Type 0 where
  wire_running wire_pending wire_queue_full wire_not_connected : WireStatus

pub record StreamStartResponse : Type 0 where
  pub status : WireStatus
  pub queue_position : Option ℕ

pub data AgentCmd (Info : Type 0) : Type 0 where
  start : ℕ → Info → Priority → AgentCmd Info
  get_conn_stats : AgentCmd Info
  link_enable : Bool → AgentCmd Info
  limit : ℕ → AgentCmd Info

-- A stream reports its end under its printed id.
pub data SessionCommand (Info Text : Type 0) : Type 0 where
  start : ℕ → Info → Priority → SessionCommand Info Text
  finished : Text → SessionCommand Info Text
  get_conn_stats : SessionCommand Info Text
  limit : Option ℕ → SessionCommand Info Text
  link_enable : Bool → SessionCommand Info Text

-- The `match` in the loop of `Agent::run`.
unfoldable pub forward : {Info Text : Type 0} → AgentCmd Info → SessionCommand Info Text
forward (AgentCmd.start uuid info priority) = SessionCommand.start uuid info priority
forward AgentCmd.get_conn_stats = SessionCommand.get_conn_stats
forward (AgentCmd.link_enable enabled) = SessionCommand.link_enable enabled
forward (AgentCmd.limit n) = SessionCommand.limit (if n == 0 then none else some n)

-- The answer that `on_stream_start` puts together.
unfoldable pub response_of : StartStatus → StreamStartResponse
response_of not_connected = record { status = wire_not_connected; queue_position = none }
response_of running = record { status = wire_running; queue_position = none }
response_of queue_full = record { status = wire_queue_full; queue_position = none }
response_of (queued position) = record { status = wire_pending; queue_position = some position }

-- `send_cmd`: the command that goes out, or the error.
unfoldable pub send_cmd :
    {Info : Type 0} → Bool → AgentCmd Info → Answer (Unit {0}) × List (AgentCmd Info)
send_cmd true cmd = (ok tt, cmd ∷ [])
send_cmd false cmd = (err internal_error, [])

-- `usize` of an `i32`, with its sign extended.
abbrev pub i32_as_usize : ℤ → ℕ
i32_as_usize n = i64_as_u64 n

module _ {Info : Type 0} where
  unfoldable pub handle_set_max_concurrent :
      Bool
      → Bool
      → Bool
      → ℤ
      → RuntimeConfig
      → RuntimeConfig × Answer (Unit {0}) × List (AgentCmd Info)
  unfolding send_cmd
  handle_set_max_concurrent false poisoned agent_runs n cfg = (cfg, ok tt, [])
  handle_set_max_concurrent true true agent_runs n cfg = (cfg, err internal_error, [])
  handle_set_max_concurrent true false agent_runs n cfg =
      let n = i32_as_usize n in
      let (answer, cmds) = send_cmd agent_runs (AgentCmd.limit n) in
      (record cfg { max_concurrent = if n == 0 then default_max_concurrent else n }, answer, cmds)

  unfoldable pub handle_link_enable : Bool → Bool → Bool → Answer (Unit {0}) × List (AgentCmd Info)
  unfolding send_cmd
  handle_link_enable false agent_runs enabled = (ok tt, [])
  handle_link_enable true agent_runs enabled = send_cmd agent_runs (AgentCmd.link_enable enabled)

unfoldable pub handle_set_chunk_size_bytes :
    Bool → Bool → ℤ → RuntimeConfig → RuntimeConfig × Answer (Unit {0})
handle_set_chunk_size_bytes false poisoned n cfg = (cfg, ok tt)
handle_set_chunk_size_bytes true poisoned n cfg =
    let requested = i32_as_usize n in
    let effective = if requested == 0 then default_chunk_size_bytes else requested in
    if ltb 65535 effective
    then (cfg, err invalid_transform)
    else if poisoned
    then (cfg, err internal_error)
    else (record cfg { chunk_size_bytes = effective }, ok tt)

unfoldable handle_get_bandwidth_cap_bps : Bool → RuntimeConfig → Answer ℤ
handle_get_bandwidth_cap_bps true cfg = err internal_error
handle_get_bandwidth_cap_bps false cfg = ok (u64_as_i64 cfg.bw_cap_bps)

unfoldable pub handle_get_link_state : LinkState → Answer WireLinkState
handle_get_link_state connecting = ok wire_connecting
handle_get_link_state normal = ok wire_normal
handle_get_link_state degraded = ok wire_degraded
handle_get_link_state failed = ok wire_failed

module _ (u : UuidText) {Attrs : Type 0} (empty : Attrs) where
  open u use {Text, parse_str}

  -- The command of `handle_stream_start`, or its error.
  unfoldable pub stream_start_cmd :
      Text → WireStreamInfo Attrs → ℤ → Answer (AgentCmd (StreamInfo Attrs))
  unfolding stream_info_from_wire from_i8
  stream_start_cmd uuid_str info priority = elim (parse_str uuid_str) [
    | none ↦ err invalid_transform
    | some uuid ↦ ok (AgentCmd.start uuid (stream_info_from_wire empty info) (from_i8 priority))
  ]

-- Behind the command: the send, and the reply, `none` when its channel is dropped.
unfoldable pub await_reply : {A B : Type 0} → Bool → Option A → (A → B) → Answer B
await_reply false reply answer = err internal_error
await_reply true none answer = err internal_error
await_reply true (some a) answer = ok (answer a)

module _ (u : UuidText) {Attrs : Type 0} (empty : Attrs) where
  open u use {Text}

  unfoldable pub handle_stream_start :
      Bool
      → Option StreamStartResponse
      → Text
      → WireStreamInfo Attrs
      → ℤ
      → Answer StreamStartResponse × List (AgentCmd (StreamInfo Attrs))
  unfolding stream_start_cmd send_cmd await_reply
  handle_stream_start agent_runs reply uuid_str info priority =
      elim (stream_start_cmd u empty uuid_str info priority) [
        | err kind ↦ (err kind, [])
        | ok cmd ↦
            (await_reply agent_runs reply (λ response. response), (send_cmd agent_runs cmd).1)
      ]

-- `send_callback_cmd` with the endpoint; whether the callback thread takes it is an argument.
unfoldable handle_set_callback :
    {Endpoint : Type 0} → Bool → Endpoint → Answer (Unit {0}) × List Endpoint
handle_set_callback true endpoint = (ok tt, endpoint ∷ [])
handle_set_callback false endpoint = (err internal_error, [])

unfoldable pub handle_get_conn_stats : Bool → Option ConnStats → Answer WireConnStats
unfolding await_reply conn_stats_to_wire
handle_get_conn_stats agent_runs reply = await_reply agent_runs reply conn_stats_to_wire

-- What `dispatch_cmd` replies with.
pub data Reply : Type 0 where
  nothing : Reply
  started : StreamStartResponse → Reply
  stats : ConnStats → Reply

abbrev pub zero_stats : ConnStats
zero_stats = record {
  sent_packets = 0;
  lost_packets = 0;
  congestion_events = 0;
  rtt_ms = 0;
  cwnd = 0;
  lost_bytes = 0;
}

-- The state behind a command, the reply, the queue statuses sent, the uplinks told that the link is
-- down, and the session that is closed.
pub record Dispatched (Session Info Handle : Type 0) : Type 0 where
  pub state : Option (RemoteState Session Info Handle)
  pub reply : Reply
  pub statuses : List QueueStatus
  pub told_down : List ℕ
  pub closed : Option Session

module _ (u : UuidText) {Session Info Handle : Type 0}
    (opener : Session → PendingStream Info → Option Handle) (conn_stats : Session → ConnStats) where
  open u use {Text, parse_str}

  abbrev pub quiet : Option (RemoteState Session Info Handle) → Dispatched Session Info Handle
  quiet remote = record {
    state = remote;
    reply = nothing;
    statuses = [];
    told_down = [];
    closed = none;
  }

  abbrev with_status :
      RemoteState Session Info Handle × List QueueStatus → Dispatched Session Info Handle
  with_status (r, sent) = record (quiet (some r)) { statuses = sent }

  unfoldable pub finish_by_text :
      Text → RemoteState Session Info Handle → Dispatched Session Info Handle
  unfolding stream_finished
  finish_by_text text r = elim (parse_str text) [
    | none ↦ quiet (some r)
    | some uuid ↦ with_status (stream_finished opener r uuid)
  ]

  unfoldable pub dispatch_cmd :
      Option (RemoteState Session Info Handle)
      → SessionCommand Info Text
      → Dispatched Session Info Handle
  unfolding on_stream_start finish_by_text set_max_concurrent response_of
  dispatch_cmd remote (SessionCommand.start uuid info priority) =
      let (remote', status, sent) =
        on_stream_start opener remote (record { uuid = uuid; info = info; priority = priority }) in
      record (quiet remote') { reply = started (response_of status); statuses = sent }
  dispatch_cmd none (SessionCommand.finished text) = quiet none
  dispatch_cmd (some r) (SessionCommand.finished text) = finish_by_text text r
  dispatch_cmd none SessionCommand.get_conn_stats = record (quiet none) { reply = stats zero_stats }
  dispatch_cmd (some r) SessionCommand.get_conn_stats = record (quiet (some r)) {
    reply = stats (Option.get_or (Option.map conn_stats r.session) zero_stats);
  }
  dispatch_cmd none (SessionCommand.limit new_limit) = quiet none
  dispatch_cmd (some r) (SessionCommand.limit new_limit) =
      with_status (set_max_concurrent opener r new_limit)
  dispatch_cmd remote (SessionCommand.link_enable true) = quiet remote
  dispatch_cmd none (SessionCommand.link_enable false) = quiet none
  dispatch_cmd (some r) (SessionCommand.link_enable false) = record (quiet (some r)) {
    told_down = map (λ (id, h). id) r.active_uplinks;
    closed = r.session;
  }
