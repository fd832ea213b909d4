-- ===== src/Mapping.antt =====
-- quelay-thrift/src/mapping.rs: between the types of the Thrift interface and the domain's. The wire
-- types are those that quelay-thrift/quelay.thrift declares, every field optional as generated.
pub mod RoundTrip
pub mod Tests
use mathlib.Core.Option
use mathlib.Core.Option.{Option, none, some}
use quelay.Common.{ℕ, ◌≡◌, List, [], ◌∷◌, map, ltb, ◌==◌, if◌then◌else◌}
use quelay.Common.Int.{ℤ, pos, negsuc, u64_as_i64, i64_as_u64}
use quelay.Domain.Session.{
  StreamInfo, QueueStatus, ConnStats, TransferProgress, LinkState, connecting, normal, degraded,
  failed,
}

pub record WireConnStats : Type 0 where
  pub sent_packets : Option ℤ
  pub lost_packets : Option ℤ
  pub congestion_events : Option ℤ
  pub rtt_ms : Option ℤ
  pub cwnd : Option ℤ
  pub lost_bytes : Option ℤ

-- `unwrap_or(0) as u64`
abbrev count_or_zero : Option ℤ → ℕ
count_or_zero o = i64_as_u64 (Option.get_or o (pos 0))

unfoldable pub conn_stats_to_wire : ConnStats → WireConnStats
conn_stats_to_wire d = record {
  sent_packets = some (u64_as_i64 d.sent_packets);
  lost_packets = some (u64_as_i64 d.lost_packets);
  congestion_events = some (u64_as_i64 d.congestion_events);
  rtt_ms = some (u64_as_i64 d.rtt_ms);
  cwnd = some (u64_as_i64 d.cwnd);
  lost_bytes = some (u64_as_i64 d.lost_bytes);
}

unfoldable pub conn_stats_from_wire : WireConnStats → ConnStats
conn_stats_from_wire w = record {
  sent_packets = count_or_zero w.sent_packets;
  lost_packets = count_or_zero w.lost_packets;
  congestion_events = count_or_zero w.congestion_events;
  rtt_ms = count_or_zero w.rtt_ms;
  cwnd = count_or_zero w.cwnd;
  lost_bytes = count_or_zero w.lost_bytes;
}

-- An open enum: any `i32`, with the values of the interface.
pub record WireLinkState : Type 0 where
  pub value : ℤ

abbrev pub wire_connecting : WireLinkState
wire_connecting = record { value = pos 0 }

abbrev pub wire_normal : WireLinkState
wire_normal = record { value = pos 1 }

abbrev pub wire_degraded : WireLinkState
wire_degraded = record { value = pos 2 }

abbrev pub wire_failed : WireLinkState
wire_failed = record { value = pos 3 }

-- The `match` on the constants; an unknown value is `failed`.
abbrev link_state_of : ℤ → LinkState
link_state_of (negsuc n) = failed
link_state_of (pos n) =
    if n == 0 then connecting else if n == 1 then normal else if n == 2 then degraded else failed

unfoldable pub link_state_from_wire : WireLinkState → LinkState
link_state_from_wire w = link_state_of w.value

unfoldable pub link_state_to_wire : LinkState → WireLinkState
link_state_to_wire connecting = wire_connecting
link_state_to_wire normal = wire_normal
link_state_to_wire degraded = wire_degraded
link_state_to_wire failed = wire_failed

-- The maps of attributes, hashed and ordered, are one type, with the empty map.
pub record WireStreamInfo (Attrs : Type 0) : Type 0 where
  pub size_bytes : Option ℤ
  pub attrs : Option Attrs

module _ {Attrs : Type 0} where
  unfoldable pub stream_info_from_wire : Attrs → WireStreamInfo Attrs → StreamInfo Attrs
  stream_info_from_wire empty w = record {
    size_bytes = Option.map i64_as_u64 w.size_bytes;
    attrs = Option.get_or w.attrs empty;
  }

  unfoldable pub stream_info_to_wire : StreamInfo Attrs → WireStreamInfo Attrs
  stream_info_to_wire d = record {
    size_bytes = Option.map u64_as_i64 d.size_bytes;
    attrs = some d.attrs;
  }

pub record WireProgressInfo (Float : Type 0) : Type 0 where
  pub bytes_transferred : Option ℤ
  pub size_bytes : Option ℤ
  pub percent_done : Option Float

module _ {Float : Type 0} where
  unfoldable pub progress_from_wire : ℕ → WireProgressInfo Float → Float → TransferProgress Float
  progress_from_wire uuid w throughput_bps = record {
    uuid = uuid;
    bytes_transferred = count_or_zero w.bytes_transferred;
    percent_done = w.percent_done;
    throughput_bps = throughput_bps;
  }

  unfoldable pub progress_to_wire : TransferProgress Float → WireProgressInfo Float
  progress_to_wire d = record {
    bytes_transferred = some (u64_as_i64 d.bytes_transferred);
    size_bytes = none;
    percent_done = d.percent_done;
  }

-- How the uuid crate prints and parses.
pub record UuidText : Type 1 where
  pub Text : Type 0
  pub to_string : ℕ → Text
  pub parse_str : Text → Option ℕ
  pub parse_str-to_string : (uuid : ℕ) → parse_str (to_string uuid) ≡ some uuid

pub record WireQueueStatus (Text : Type 0) : Type 0 where
  pub active_count : Option ℕ
  pub max_concurrent : Option ℕ
  pub max_pending : Option ℕ
  pub pending : Option (List Text)

module _ (u : UuidText) where
  open u use {Text, to_string, parse_str}

  -- `filter_map(|s| Uuid::parse_str(&s).ok())`
  unfoldable pub parse_each : List Text → List ℕ
  parse_each [] = []
  parse_each (s ∷ rest) = elim (parse_str s) [
    | some uuid ↦ uuid ∷ parse_each rest
    | none ↦ parse_each rest
  ]

  unfoldable pub queue_status_from_wire : WireQueueStatus Text → QueueStatus
  unfolding parse_each
  queue_status_from_wire w = record {
    active_count = Option.get_or w.active_count 0;
    max_concurrent = Option.get_or w.max_concurrent 0;
    max_pending = Option.get_or w.max_pending 0;
    pending = parse_each (Option.get_or w.pending []);
  }

  unfoldable pub queue_status_to_wire : QueueStatus → WireQueueStatus Text
  queue_status_to_wire d = record {
    active_count = some d.active_count;
    max_concurrent = some d.max_concurrent;
    max_pending = some d.max_pending;
    pending = some (map to_string d.pending);
  }
