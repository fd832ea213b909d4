-- ===== src/Mapping/Tests.antt =====
-- The conversions of quelay-thrift/src/mapping.rs on concrete values.
use quelay.Common.{ℕ, ◌≡◌, refl, some, List, [], ◌∷◌, arith}
use quelay.Common.Int.{negsuc, u64_as_i64}
use quelay.Domain.Session.{StreamInfo, ConnStats}
use quelay.Mapping.{conn_stats_to_wire, UuidText}
use quelay.Mapping.RoundTrip.{IsU64}

-- Ids are printed as they are.
abbrev pub plain_text : UuidText
plain_text = record {
  Text = ℕ;
  to_string = λ uuid. uuid;
  parse_str = λ s. some s;
  parse_str-to_string = λ uuid. refl;
}

-- The last counter is at its largest value.
abbrev pub sample_stats : ConnStats
sample_stats = record {
  sent_packets = 120;
  lost_packets = 3;
  congestion_events = 1;
  rtt_ms = 40;
  cwnd = 14720;
  lost_bytes = 18446744073709551615;
}

pub sample_stats-IsU64 : IsU64 sample_stats
sample_stats-IsU64 = record {
  sent_packets = omega arith;
  lost_packets = omega arith;
  congestion_events = omega arith;
  rtt_ms = omega arith;
  cwnd = omega arith;
  lost_bytes = omega arith;
}

largest_run : (conn_stats_to_wire sample_stats).lost_bytes ≡ some (negsuc 0)
unfolding conn_stats_to_wire u64_as_i64
largest_run = refl

abbrev pub sample_info : StreamInfo (List ℕ)
sample_info = record { size_bytes = some 9223372036854775808; attrs = 5 ∷ [] }
