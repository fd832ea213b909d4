-- ===== src/Mapping/RoundTrip.antt =====
-- What goes over the Thrift interface comes back (quelay-thrift/src/mapping.rs).
use mathlib.Core.Option
use quelay.Common.{ℕ, ◌^◌, ◌<◌, ◌≡◌, refl, ap, Option, none, some, List, [], ◌∷◌, map}
use quelay.Common.Int.{i64_as_u64, u64_as_i64, i64_as_u64-u64_as_i64}
use quelay.Domain.Session.{
  StreamInfo, QueueStatus, ConnStats, TransferProgress, LinkState, connecting, normal, degraded,
  failed,
}
use quelay.Mapping.{
  conn_stats_from_wire, conn_stats_to_wire, link_state_from_wire, link_state_to_wire,
  stream_info_from_wire, stream_info_to_wire, progress_from_wire, progress_to_wire, UuidText,
  parse_each, queue_status_from_wire, queue_status_to_wire,
}

-- Every counter is a `u64`.
pub record IsU64 (d : ConnStats) : Type 0 where
  pub sent_packets : d.sent_packets < 2 ^ 64
  pub lost_packets : d.lost_packets < 2 ^ 64
  pub congestion_events : d.congestion_events < 2 ^ 64
  pub rtt_ms : d.rtt_ms < 2 ^ 64
  pub cwnd : d.cwnd < 2 ^ 64
  pub lost_bytes : d.lost_bytes < 2 ^ 64

-- Connection statistics come back as they are, also where a counter is above the range of `i64`.
pub conn_stats_roundtrip :
    (d : ConnStats) → IsU64 d → conn_stats_from_wire (conn_stats_to_wire d) ≡ d
unfolding conn_stats_from_wire conn_stats_to_wire
conn_stats_roundtrip d h = cc (
  i64_as_u64-u64_as_i64 d.sent_packets h.sent_packets,
  i64_as_u64-u64_as_i64 d.lost_packets h.lost_packets,
  i64_as_u64-u64_as_i64 d.congestion_events h.congestion_events,
  i64_as_u64-u64_as_i64 d.rtt_ms h.rtt_ms,
  i64_as_u64-u64_as_i64 d.cwnd h.cwnd,
  i64_as_u64-u64_as_i64 d.lost_bytes h.lost_bytes,
)

link_state_roundtrip : (d : LinkState) → link_state_from_wire (link_state_to_wire d) ≡ d
unfolding link_state_from_wire link_state_to_wire
link_state_roundtrip connecting = refl
link_state_roundtrip normal = refl
link_state_roundtrip degraded = refl
link_state_roundtrip failed = refl

abbrev pub SizeIsU64 : Option ℕ → Type 0
SizeIsU64 none = Unit
SizeIsU64 (some n) = n < 2 ^ 64

size_roundtrip : (o : Option ℕ) → SizeIsU64 o → Option.map i64_as_u64 (Option.map u64_as_i64 o) ≡ o
size_roundtrip none h = refl
size_roundtrip (some n) h = ap some (i64_as_u64-u64_as_i64 n h)

-- A stream's size and attributes come back as they are.
pub stream_info_roundtrip :
    {Attrs : Type 0} (empty : Attrs) (d : StreamInfo Attrs)
    → SizeIsU64 d.size_bytes
    → stream_info_from_wire empty (stream_info_to_wire d) ≡ d
unfolding stream_info_from_wire stream_info_to_wire
stream_info_roundtrip empty d h = cc (size_roundtrip d.size_bytes h)

progress_roundtrip :
    {Float : Type 0} (d : TransferProgress Float)
    → d.bytes_transferred < 2 ^ 64
    → progress_from_wire d.uuid (progress_to_wire d) d.throughput_bps ≡ d
unfolding progress_from_wire progress_to_wire
progress_roundtrip d h = cc (i64_as_u64-u64_as_i64 d.bytes_transferred h)

module _ (u : UuidText) where
  open u use {to_string, parse_str-to_string}

  parse_each-map : (ids : List ℕ) → parse_each u (map to_string ids) ≡ ids
  unfolding parse_each
  parse_each-map [] = refl
  parse_each-map (id ∷ ids) =
      rw (parse_each, parse_str-to_string id) (ap (◌∷◌ id) (parse_each-map ids))

  -- The snapshot of the queue comes back as it is, in its order, where ids are parsed as printed.
  queue_status_roundtrip :
      (d : QueueStatus) → queue_status_from_wire u (queue_status_to_wire u d) ≡ d
  unfolding queue_status_from_wire queue_status_to_wire
  queue_status_roundtrip d = cc (parse_each-map d.pending)
