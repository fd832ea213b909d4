-- ===== src/Service/Tests.antt =====
-- The control interface of quelay-agent/src/thrift_srv.rs on concrete calls.
use quelay.Common.{ℕ, ◌≡◌, refl, true, false, Option, none, some, List, [], ◌∷◌, arith}
use quelay.Common.Int.{pos, negsuc}
use quelay.Domain.Priority.{from_i8}
use quelay.Domain.Session.{StreamInfo, ConnStats}
use quelay.Mapping.{WireConnStats, stream_info_to_wire, conn_stats_from_wire}
use quelay.Mapping.Tests.{plain_text, sample_stats, sample_stats-IsU64, sample_info}
use quelay.SessionManager.{PendingStream, RemoteState, stream_finished}
use quelay.Service.{
  RuntimeConfig, ok, AgentCmd, SessionCommand, forward, handle_set_max_concurrent,
  handle_get_conn_stats, handle_stream_start, StreamStartResponse, wire_not_connected, started,
  stats, dispatch_cmd,
}
use quelay.Service.Config.{IsI32, limit_of, set_max_concurrent_reaches}
use quelay.Service.Requests.{Answered, stream_start_reaches, get_conn_stats_reaches}

abbrev Remote : Type 0
Remote = RemoteState ℕ (StreamInfo (List ℕ)) ℕ

abbrev opener : ℕ → PendingStream (StreamInfo (List ℕ)) → Option ℕ
opener session p = some p.uuid

abbrev stats_of : ℕ → ConnStats
stats_of session = sample_stats

abbrev one_active : Remote
one_active = record {
  session = some 0;
  pending = [];
  max_concurrent = some 1;
  max_pending = 4;
  active_uplinks = (1, 1) ∷ [];
}

abbrev cfg : RuntimeConfig
cfg = record { bw_cap_bps = 8000000; chunk_size_bytes = 1024; max_concurrent = 1 }

minus_one : IsI32 (negsuc 0)
minus_one = record { above = omega arith; below = omega arith }

set_max_concurrent_reaches_example :
    (cmd : AgentCmd (StreamInfo (List ℕ))) × ((handle_set_max_concurrent true false true
        (negsuc 0)
        cfg).2
      ≡ cmd ∷ [])
    × (r' : Remote) × ((dispatch_cmd plain_text opener stats_of
          (some one_active)
          (forward cmd)).state
        ≡ some r')
    × (r'.max_concurrent ≡ limit_of (negsuc 0))
set_max_concurrent_reaches_example =
    set_max_concurrent_reaches opener plain_text stats_of (negsuc 0) cfg one_active minus_one

abbrev wanted : PendingStream (StreamInfo (List ℕ))
wanted = record { uuid = 2; info = sample_info; priority = from_i8 (pos 70) }

stream_start_reaches_example :
    (cmd : AgentCmd (StreamInfo (List ℕ))) × (response : StreamStartResponse) × (handle_stream_start
        plain_text [] true
        (some response)
        2
        (stream_info_to_wire sample_info)
        (pos 70)
      ≡ (ok response, cmd ∷ []))
    × ((dispatch_cmd plain_text opener stats_of (some one_active) (forward cmd)).reply
        ≡ started response)
    × Answered plain_text opener stats_of one_active wanted response
        (dispatch_cmd plain_text opener stats_of (some one_active) (forward cmd)).state
    × ((dispatch_cmd plain_text opener stats_of none (forward cmd)).reply
        ≡ started (record { status = wire_not_connected; queue_position = none }))
    × ((dispatch_cmd plain_text opener stats_of none (forward cmd)).state ≡ none)
    × ((dispatch_cmd plain_text opener stats_of (some one_active) (SessionCommand.finished 2)).state
        ≡ some (stream_finished opener one_active 2).0)
stream_start_reaches_example =
    stream_start_reaches plain_text opener stats_of [] 2 sample_info (pos 70) one_active
      (omega arith)

get_conn_stats_reaches_example :
    let d =
      dispatch_cmd plain_text opener stats_of (some one_active) (forward AgentCmd.get_conn_stats) in
    (d.state ≡ some one_active)
    × (s : ConnStats) × (d.reply ≡ stats s)
    × (w : WireConnStats) × (handle_get_conn_stats true (some s) ≡ ok w)
    × (conn_stats_from_wire w ≡ stats_of 0)
get_conn_stats_reaches_example =
    get_conn_stats_reaches plain_text opener stats_of one_active 0 refl sample_stats-IsU64
